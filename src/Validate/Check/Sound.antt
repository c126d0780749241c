-- ===== src/Validate/Check/Sound.antt =====
-- What an answer of `checkRefinement` (src/vcgen.cpp) says about the two encoded functions.
use mlir_tv.Base.{
  ℕ, ◌≡◌, ◌≢◌, refl, ◌⊎◌, inl, inr, Bool, true, false, ◌&&◌, not, List, [], ◌∷◌, All, arith, Option,
  none, some, OnSome,
}
use mlir_tv.Smt.Terms.{Smt, IsSmt}
use mlir_tv.Smt.Logic.{and, negate, truth-and, truth-negate}
use mlir_tv.State.{is_well_defined}
use mlir_tv.Validate.Results.{
  Code, success, timeout, retvalue, ub, inconsistent, has_sat, has_unsat,
}
use mlir_tv.Validate.Check.{
  Logic, Checker, Step, go_on, stop, aborted, FinalState, query, next, ub_query, check_ub,
  refinement_query, check_rets, check_memories, check_memory, memory_formulas, tgt_values,
}

module _ ⦃S : Smt⦄ (C : Checker S) where
  open S use {Term, Valuation, truth}
  open C use {Value, run, refines}

  -- The formulas that two lists of values stand for, up to the shorter one.
  abbrev pub ret_formulas : List Value → List Value → List Term
  ret_formulas [] bs = []
  ret_formulas (a ∷ as') [] = []
  ret_formulas (a ∷ as') (b ∷ bs) = refines b a ∷ ret_formulas as' bs

  abbrev pub AllTrue : Valuation → List Term → Type 0
  AllTrue v = All λ r. truth v r ≡ true

  -- The first formula, if there is one.
  abbrev pub FirstTrue : Valuation → List Term → Type 0
  FirstTrue v [] = Unit
  FirstTrue v (r ∷ rs) = truth v r ≡ true

  -- What SUCCESS says at `v`: the target is defined where the source is, and then returns refined
  -- values, in a memory that refines the source's for the first element type.
  pub record RefinesAt (src tgt : FinalState C) (v : Valuation) : Type 0 where
    pub defined :
        truth v (is_well_defined src.state) ≡ true → truth v (is_well_defined tgt.state) ≡ true
    pub values :
        truth v (is_well_defined src.state) ≡ true
        → AllTrue v (ret_formulas src.ret_values (tgt_values C src tgt))
    pub memories :
        truth v (is_well_defined src.state) ≡ true
        → OnSome (FirstTrue v) (memory_formulas C src tgt)

  pub next-go_on :
      (m : Step × ℕ) (k : ℕ → Step × ℕ)
      → (next C m k).0 ≡ go_on
      → (m.0 ≡ go_on) × ((k m.1).0 ≡ go_on)
  unfolding next
  next-go_on (go_on, t) k h = (refl, h)
  next-go_on (stop c, t) k h = cc
  next-go_on (aborted, t) k h = cc

  pub next-stop :
      (m : Step × ℕ) (k : ℕ → Step × ℕ) (c : Code)
      → (next C m k).0 ≡ stop c
      → (m.0 ≡ stop c) ⊎ ((m.0 ≡ go_on) × ((k m.1).0 ≡ stop c))
  unfolding next
  next-stop (go_on, t) k c h = inr (refl, h)
  next-stop (stop d, t) k c h = inl h
  next-stop (aborted, t) k c h = cc

  pub query-go_on :
      (l : Logic) (bad : Code) (added : List Term) (q : Term) (t : ℕ)
      → (query C l bad added q t).0 ≡ go_on
      → has_unsat (run l (q ∷ added)).0 ≡ true
  unfolding query
  query-go_on l bad added q t h = ground arith

  pub query-stop :
      (l : Logic) (bad c : Code) (added : List Term) (q : Term) (t : ℕ)
      → (query C l bad added q t).0 ≡ stop c
      → (c ≡ inconsistent) ⊎ ((c ≡ bad) × (has_sat (run l (q ∷ added)).0 ≡ true)) ⊎ (c ≡ timeout)
  unfolding query
  query-stop l bad c added q t h = ground arith

  module _ (src tgt : FinalState C) (precond : Term) (l : Logic) where
    pub check_rets-ne-success :
        (as' bs : List Value) (t : ℕ) → (check_rets C l precond src tgt as' bs t).0 ≢ stop success
    unfolding check_rets
    check_rets-ne-success [] [] t h = cc
    check_rets-ne-success [] (b ∷ bs) t h = cc
    check_rets-ne-success (a ∷ as') [] t h = cc
    check_rets-ne-success (a ∷ as') (b ∷ bs) t h =
        let q = refinement_query C precond src tgt (refines b a) in
        elim (next-stop (query C l retvalue [] q t) _ success h) [
          | inl e ↦ ground (arith, query-stop l retvalue success [] q t e)
          | inr (e, f) ↦ check_rets-ne-success as' bs _ f
        ]

    check_memories-ne-success :
        (added rs : List Term) (t : ℕ)
        → (check_memories C l precond src tgt added rs t).0 ≢ stop success
    unfolding check_memories
    check_memories-ne-success added [] t h = cc
    check_memories-ne-success added (r ∷ rs) t h =
        let q = refinement_query C precond src tgt r in
        elim (next-stop (query C l retvalue added q t) _ success h) [
          | inl e ↦ ground (arith, query-stop l retvalue success added q t e)
          | inr (e, f) ↦ check_memories-ne-success (q ∷ added) rs _ f
        ]

    pub check_memory-ne-success :
        (m : Option (List Term)) (t : ℕ) → (check_memory C l precond src tgt m t).0 ≢ stop success
    unfolding check_memory
    check_memory-ne-success none t h = cc
    check_memory-ne-success (some rs) t h = check_memories-ne-success [] rs t h

  module _ (L : IsSmt S) (v : Valuation) (src tgt : FinalState C) (precond : Term) where
    abbrev pub src_defined : Bool
    src_defined = truth v (is_well_defined src.state)

    abbrev pub tgt_defined : Bool
    tgt_defined = truth v (is_well_defined tgt.state)

    pub truth-refinement_query :
        (r : Term)
        → truth v (refinement_query C precond src tgt r)
          ≡ (truth v precond && ((src_defined && tgt_defined) && not (truth v r)))
    unfolding refinement_query
    truth-refinement_query r =
        let both = and (is_well_defined src.state) (is_well_defined tgt.state) in
        let q = and both (negate r) in
        ground (
          arith,
          truth-and L v precond (S.simplify q),
          (L.simplify_lem v q).truth_eq,
          truth-and L v both (negate r),
          truth-and L v (is_well_defined src.state) (is_well_defined tgt.state),
          truth-negate L v r,
        )

    pub truth-ub_query :
        truth v (ub_query C precond src tgt) ≡ (truth v precond && (src_defined && not tgt_defined))
    unfolding ub_query
    truth-ub_query =
        let q = and (is_well_defined src.state) (negate (is_well_defined tgt.state)) in
        ground (
          arith,
          truth-and L v precond (S.simplify q),
          (L.simplify_lem v q).truth_eq,
          truth-and L v (is_well_defined src.state) (negate (is_well_defined tgt.state)),
          truth-negate L v (is_well_defined tgt.state),
        )

    -- An answer `unsat` is right.
    module _
        (unsat_sound : (l : Logic) (q : Term)
          → has_unsat (run l (q ∷ [])).0 ≡ true
          → truth v q ≡ false)
        (holds : truth v precond ≡ true) (l : Logic) where
      pub check_ub-go_on :
          (t : ℕ)
          → (check_ub C l precond src tgt t).0 ≡ go_on
          → src_defined ≡ true
          → tgt_defined ≡ true
      unfolding check_ub
      check_ub-go_on t h d =
          let q = ub_query C precond src tgt in
          ground (arith, unsat_sound l q (query-go_on l ub [] q t h), truth-ub_query)

      refined :
          (r : Term) (t : ℕ)
          → (query C l retvalue [] (refinement_query C precond src tgt r) t).0 ≡ go_on
          → src_defined ≡ true
          → tgt_defined ≡ true
          → truth v r ≡ true
      refined r t h d e =
          let q = refinement_query C precond src tgt r in
          ground
            (arith, unsat_sound l q (query-go_on l retvalue [] q t h), truth-refinement_query r)

      pub check_rets-go_on :
          (as' bs : List Value) (t : ℕ)
          → (check_rets C l precond src tgt as' bs t).0 ≡ go_on
          → src_defined ≡ true
          → tgt_defined ≡ true
          → AllTrue v (ret_formulas as' bs)
      unfolding check_rets
      check_rets-go_on [] bs t h d e = tt
      check_rets-go_on (a ∷ as') [] t h d e = tt
      check_rets-go_on (a ∷ as') (b ∷ bs) t h d e =
          let (p, q) = next-go_on _ _ h in
          (refined (refines b a) t p d e, check_rets-go_on as' bs _ q d e)

      pub check_memory-go_on :
          (m : Option (List Term)) (t : ℕ)
          → (check_memory C l precond src tgt m t).0 ≡ go_on
          → src_defined ≡ true
          → tgt_defined ≡ true
          → OnSome (FirstTrue v) m
      unfolding check_memory check_memories
      check_memory-go_on none t h d e = tt
      check_memory-go_on (some []) t h d e = tt
      check_memory-go_on (some (r ∷ rs)) t h d e = refined r t (next-go_on _ _ h).0 d e
