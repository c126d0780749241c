-- ===== src/Validate/Check/Verdict.antt =====
-- The verdicts of `checkRefinement` (src/vcgen.cpp), each with what it says of the two functions.
use mlir_tv.Base.{
  ℕ, ◌≡◌, ◌≢◌, refl, ◌⊎◌, inl, inr, Bool, true, false, List, [], ◌∷◌, arith, ◌∙◌, ap, Option, none,
  some, OnSome, on_some, length, ◌==◌, Bool-cases,
}
use mlir_tv.Smt.Terms.{Smt, IsSmt}
use mlir_tv.State.{is_well_defined}
use mlir_tv.Validate.Results.{
  Code, success, timeout, retvalue, ub, inconsistent, has_sat, has_unsat,
}
use mlir_tv.Validate.Check.{
  Logic, Checker, Step, go_on, stop, aborted, FinalState, choose_logic, query, next, ub_query,
  check_ub, refinement_query, check_rets, check_values, check_memories, check_memory,
  memory_formulas, tgt_values, finish, check_refinement,
}
use mlir_tv.Validate.Check.Sound.{
  ret_formulas, AllTrue, RefinesAt, next-go_on, next-stop, query-stop, check_rets-ne-success,
  check_memory-ne-success, truth-refinement_query, truth-ub_query, check_ub-go_on, check_rets-go_on,
  check_memory-go_on,
}

module _ ⦃S : Smt⦄ (C : Checker S) where
  open S use {Term, Valuation, truth}
  open C use {Value, run, refines}

  finish-stop :
      (m : Step × ℕ) (c : Code)
      → (finish C m).0 ≡ stop c
      → (m.0 ≡ stop c) ⊎ ((m.0 ≡ go_on) × (c ≡ success))
  unfolding finish
  finish-stop (go_on, t) c h = inr (refl, ground arith)
  finish-stop (stop d, t) c h = inl h
  finish-stop (aborted, t) c h = cc

  -- Where step 2 does not abort, it is that of the values.
  check_values-check_rets :
      (src tgt : FinalState C) (precond : Term) (l : Logic) (t : ℕ) (s : Step)
      → s ≢ aborted
      → (check_values C l precond src tgt t).0 ≡ s
      → (check_rets C l precond src tgt src.ret_values (tgt_values C src tgt) t).0 ≡ s
  unfolding check_values
  check_values-check_rets src tgt precond l t s n h =
      elim (Bool-cases (length src.ret_values == length (tgt_values C src tgt))) [
        | inl e ↦ rw e at h
        | inr e ↦ absurd (n (ground arith))
      ]

  module _ (src tgt : FinalState C) (precond : Term) (use_all : Bool) (elapsed : ℕ) where
    abbrev pub chosen : Logic
    chosen = choose_logic C use_all src tgt

    abbrev pub after_ub : ℕ → Step × ℕ
    after_ub t =
        next C (check_values C chosen precond src tgt t)
          λ t'. check_memory C chosen precond src tgt (memory_formulas C src tgt) t'

    -- The three steps one after the other.
    abbrev pub steps : Step × ℕ
    steps = next C (check_ub C chosen precond src tgt elapsed) after_ub

    pub check_refinement-steps : check_refinement C use_all precond src tgt elapsed ≡ finish C steps
    unfolding check_refinement
    check_refinement-steps = refl

    steps-ne-success : steps.0 ≢ stop success
    steps-ne-success h =
        elim (next-stop C (check_ub C chosen precond src tgt elapsed) after_ub success h) [
          | inl e ↦ unfold check_ub in ground (arith, query-stop C chosen ub success [] _ elapsed e)
          | inr (e, f) ↦ elim (next-stop C _ _ success f) [
            | inl g ↦
                check_rets-ne-success C src tgt precond chosen _ _ _
                  (check_values-check_rets src tgt precond chosen _ (stop success) (λ e. cc) g)
            | inr (g, k) ↦ check_memory-ne-success C src tgt precond chosen _ _ k
          ]
        ]

    steps-go_on :
        (check_refinement C use_all precond src tgt elapsed).0 ≡ stop success → steps.0 ≡ go_on
    steps-go_on h = elim (finish-stop steps success (rw (← check_refinement-steps) h)) [
      | inl e ↦ absurd (steps-ne-success e)
      | inr (e, _) ↦ e
    ]

  -- What a verdict SUCCESS says: if every answer `unsat` about one formula is right, then at every
  -- valuation that meets the precondition the target is well defined where the source is, and there each
  -- of its return values refines the source's, and so does the memory formula of the first element type,
  -- if there is one. Of the other element types it says nothing.
  pub check_refinement_success :
      (L : IsSmt S) (src tgt : FinalState C) (precond : Term) (use_all : Bool) (elapsed : ℕ)
      → ((l : Logic) (q : Term)
          → has_unsat (run l (q ∷ [])).0 ≡ true
          → (v : Valuation) → truth v q ≡ false)
      → (check_refinement C use_all precond src tgt elapsed).0 ≡ stop success
      → (v : Valuation) → truth v precond ≡ true
      → RefinesAt C src tgt v
  check_refinement_success L src tgt precond use_all elapsed unsat_sound h v p =
      let l = choose_logic C use_all src tgt in
      let (a, rest) = next-go_on C _ _ (steps-go_on src tgt precond use_all elapsed h) in
      let (b, c) = next-go_on C _ _ rest in
      let sound =
        λ (l : Logic) (q : Term) (e : has_unsat (run l (q ∷ [])).0 ≡ true). unsat_sound l q e v in
      let def = check_ub-go_on C L v src tgt precond sound p l elapsed a in
      record {
        defined = def;
        values = λ d.
            check_rets-go_on C L v src tgt precond sound p l _ _ _
              (check_values-check_rets src tgt precond l _ go_on (λ e. cc) b) d (def d);
        memories = λ d. check_memory-go_on C L v src tgt precond sound p l _ _ c d (def d);
      }

  -- A verdict RETVALUE over the formulas `rs` comes from a satisfiable query about one of them.
  abbrev Blames : FinalState C → FinalState C → Term → Logic → List Term → Type 0
  Blames src tgt precond l rs =
      (r : Term) × (added : List Term) × (has_sat
          (run l (refinement_query C precond src tgt r ∷ added)).0
        ≡ true)
      × ((v : Valuation) → truth v r ≡ false → ¬ AllTrue C v rs)

  module _ (src tgt : FinalState C) (precond : Term) (l : Logic) (c : Code) where
    check_rets-stop :
        (as' bs : List Value) (t : ℕ)
        → (check_rets C l precond src tgt as' bs t).0 ≡ stop c
        → (c ≡ inconsistent)
          ⊎ (c ≡ timeout)
          ⊎ ((c ≡ retvalue) × Blames src tgt precond l (ret_formulas C as' bs))
    unfolding check_rets
    check_rets-stop [] [] t h = cc
    check_rets-stop [] (b ∷ bs) t h = cc
    check_rets-stop (a ∷ as') [] t h = cc
    check_rets-stop (a ∷ as') (b ∷ bs) t h =
        let q = refinement_query C precond src tgt (refines b a) in
        elim (next-stop C (query C l retvalue [] q t) _ c h) [
          | inl e ↦ elim (query-stop C l retvalue c [] q t e) [
            | inl i ↦ inl i
            | inr (inl (i, s)) ↦
                inr (inr (i, (refines b a, [], s, λ v f all. ground (arith, all.0))))
            | inr (inr i) ↦ inr (inl i)
          ]
          | inr (e, f) ↦ elim (check_rets-stop as' bs _ f) [
            | inl i ↦ inl i
            | inr (inl i) ↦ inr (inl i)
            | inr (inr (i, (r, ad, s, g))) ↦ inr (inr (i, (r, ad, s, λ v f all. g v f all.1)))
          ]
        ]

    check_memories-stop :
        (added rs : List Term) (t : ℕ)
        → (check_memories C l precond src tgt added rs t).0 ≡ stop c
        → (c ≡ inconsistent) ⊎ (c ≡ timeout) ⊎ ((c ≡ retvalue) × Blames src tgt precond l rs)
    unfolding check_memories
    check_memories-stop added [] t h = cc
    check_memories-stop added (r ∷ rs) t h =
        let q = refinement_query C precond src tgt r in
        elim (next-stop C (query C l retvalue added q t) _ c h) [
          | inl e ↦ elim (query-stop C l retvalue c added q t e) [
            | inl i ↦ inl i
            | inr (inl (i, s)) ↦ inr (inr (i, (r, added, s, λ v f all. ground (arith, all.0))))
            | inr (inr i) ↦ inr (inl i)
          ]
          | inr (e, f) ↦ elim (check_memories-stop (q ∷ added) rs _ f) [
            | inl i ↦ inl i
            | inr (inl i) ↦ inr (inl i)
            | inr (inr (i, (r, ad, s, g))) ↦ inr (inr (i, (r, ad, s, λ v f all. g v f all.1)))
          ]
        ]

    check_memory-stop :
        (m : Option (List Term)) (t : ℕ)
        → (check_memory C l precond src tgt m t).0 ≡ stop c
        → (c ≡ inconsistent)
          ⊎ (c ≡ timeout)
          ⊎ ((c ≡ retvalue) × ((rs : List Term) × (m ≡ some rs) × Blames src tgt precond l rs))
    unfolding check_memory
    check_memory-stop none t h = cc
    check_memory-stop (some rs) t h = elim (check_memories-stop [] rs t h) [
      | inl i ↦ inl i
      | inr (inl i) ↦ inr (inl i)
      | inr (inr (i, b)) ↦ inr (inr (i, (rs, refl, b)))
    ]

  -- A state of the two functions at which the target fails to refine the source, in the way that
  -- the verdict names.
  abbrev pub Refutes : FinalState C → FinalState C → Term → Code → Valuation → Type 0
  Refutes src tgt precond ub v =
      (truth v precond ≡ true)
      × (truth v (is_well_defined src.state) ≡ true)
      × (truth v (is_well_defined tgt.state) ≡ false)
  Refutes src tgt precond retvalue v =
      (truth v precond ≡ true)
      × (truth v (is_well_defined src.state) ≡ true)
      × (truth v (is_well_defined tgt.state) ≡ true)
      × ¬ (
          AllTrue C v (ret_formulas C src.ret_values (tgt_values C src tgt))
          × OnSome (AllTrue C v) (memory_formulas C src tgt))
  Refutes src tgt precond _ v = ⊥

  -- `sat` answers are right.
  module _ (L : IsSmt S) (src tgt : FinalState C) (precond : Term)
      (sat_sound : (l : Logic) (qs : List Term)
        → has_sat (run l qs).0 ≡ true
        → (v : Valuation) × AllTrue C v qs) where
    blamed :
        (l : Logic) (rs : List Term)
        → Blames src tgt precond l rs
        → (v : Valuation) × (truth v precond ≡ true)
          × (truth v (is_well_defined src.state) ≡ true)
          × (truth v (is_well_defined tgt.state) ≡ true)
          × ¬ AllTrue C v rs
    blamed l rs (r, added, s, g) =
        let (v, (e, _)) = sat_sound l _ s in
        let f = truth-refinement_query C L v src tgt precond r in
        (v, ground arith, ground arith, ground arith, g v (ground arith))

    refuted_ub :
        (l : Logic) (t : ℕ)
        → (check_ub C l precond src tgt t).0 ≡ stop ub
        → (v : Valuation) × Refutes src tgt precond ub v
    unfolding check_ub
    refuted_ub l t h =
        let q = ub_query C precond src tgt in
        let s : has_sat (run l (q ∷ [])).0 ≡ true = ground (arith, query-stop C l ub ub [] q t h) in
        let (v, (e, _)) = sat_sound l (q ∷ []) s in
        let f = truth-ub_query C L v src tgt precond in
        (v, (ground arith, ground arith, ground arith))

    abbrev rs : List Term
    rs = ret_formulas C src.ret_values (tgt_values C src tgt)

    abbrev MemoryBlames : Logic → Type 0
    MemoryBlames l =
        (ms : List Term) × (memory_formulas C src tgt ≡ some ms) × Blames src tgt precond l ms

    refuted_retvalue :
        (l : Logic)
        → Blames src tgt precond l rs ⊎ MemoryBlames l
        → (v : Valuation) × Refutes src tgt precond retvalue v
    refuted_retvalue l (inl b) =
        let (v, e, f, g, n) = blamed l rs b in (v, (e, f, g, λ all. n all.0))
    refuted_retvalue l (inr (ms, k, b)) =
        let (v, e, f, g, n) = blamed l ms b in
        (v, (e, f, g, λ all. n (on_some (AllTrue C v) (memory_formulas C src tgt) ms all.1 k)))

    -- The step that a verdict comes from.
    steps-stop :
        (use_all : Bool) (elapsed : ℕ) (c : Code)
        → c ≢ success
        → (check_refinement C use_all precond src tgt elapsed).0 ≡ stop c
        → let l = choose_logic C use_all src tgt in
          (c ≡ inconsistent)
          ⊎ (c ≡ timeout)
          ⊎ ((c ≡ ub) × ((check_ub C l precond src tgt elapsed).0 ≡ stop ub))
          ⊎ ((c ≡ retvalue) × (Blames src tgt precond l rs ⊎ MemoryBlames l))
    steps-stop use_all elapsed c n h =
        let l = choose_logic C use_all src tgt in
        let e : (steps src tgt precond use_all elapsed).0 ≡ stop c = ground (
          arith,
          finish-stop (steps src tgt precond use_all elapsed) c
              (rw (← check_refinement-steps src tgt precond use_all elapsed) h),
        ) in
        elim (next-stop C (check_ub C l precond src tgt elapsed) _ c e) [
          | inl f ↦
              unfold check_ub in
              elim (query-stop C l ub c [] _ elapsed f) [
                | inl i ↦ inl i
                | inr (inl (i, s)) ↦ inr (inr (inl (i, f ∙ ap stop i)))
                | inr (inr i) ↦ inr (inl i)
              ]
          | inr (_, f) ↦ elim (next-stop C _ _ c f) [
            | inl g ↦
                elim (check_rets-stop src tgt precond l c _ _ _
                  (check_values-check_rets src tgt precond l _ (stop c) (λ e. cc) g)) [
                    | inl i ↦ inl i
                    | inr (inl i) ↦ inr (inl i)
                    | inr (inr (i, b)) ↦ inr (inr (inr (i, inl b)))
                  ]
            | inr (_, g) ↦ elim (check_memory-stop src tgt precond l c _ _ g) [
              | inl i ↦ inl i
              | inr (inl i) ↦ inr (inl i)
              | inr (inr (i, b)) ↦ inr (inr (inr (i, inr b)))
            ]
          ]
        ]

    -- A verdict UB or RETVALUE is no false alarm of the checker: if every answer `sat` is right about
    -- all formulas that were added to the solver, there is a valuation that meets the precondition, at
    -- which the source is well defined, and at which the target is not (UB), or is and some return value
    -- or memory formula fails (RETVALUE).
    pub check_refinement_fails :
        (use_all : Bool) (elapsed : ℕ) (c : Code)
        → (c ≡ ub) ⊎ (c ≡ retvalue)
        → (check_refinement C use_all precond src tgt elapsed).0 ≡ stop c
        → (v : Valuation) × Refutes src tgt precond c v
    check_refinement_fails use_all elapsed c k h =
        elim (steps-stop use_all elapsed c (λ e. ground arith) h) [
          | inl i ↦ absurd (ground arith)
          | inr (inl i) ↦ absurd (ground arith)
          | inr (inr (inl (i, f))) ↦ rw i (refuted_ub (choose_logic C use_all src tgt) elapsed f)
          | inr (inr (inr (i, b))) ↦ rw i (refuted_retvalue (choose_logic C use_all src tgt) b)
        ]
