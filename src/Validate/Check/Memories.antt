-- ===== src/Validate/Check/Memories.antt =====
-- What step 3 of `checkRefinement` (src/vcgen.cpp) asks after its first query.
use mlir_tv.Base.{ℕ, ◌≡◌, refl, true, false, List, [], ◌∷◌, arith, ◌∙◌, sym}
use mlir_tv.Smt.Terms.{Smt}
use mlir_tv.Validate.Results.{retvalue, has_unsat, is_inconsistent}
use mlir_tv.Validate.Check.{
  Logic, Checker, Step, go_on, stop, aborted, FinalState, query, next, refinement_query,
  check_memories,
}
use mlir_tv.Validate.Check.Sound.{query-go_on}

module _ ⦃S : Smt⦄ (C : Checker S) where
  open S use {Term}
  open C use {run}

  module _ (l : Logic)
      (stays : (q : Term) (added : List Term)
        → has_unsat (run l added).0 ≡ true
        → is_inconsistent (run l added).0 ≡ false
        → (has_unsat (run l (q ∷ added)).0 ≡ true)
          × (is_inconsistent (run l (q ∷ added)).0 ≡ false)) where
    all_pass :
        (precond : Term) (src tgt : FinalState C) (added rs : List Term) (t : ℕ)
        → has_unsat (run l added).0 ≡ true
        → is_inconsistent (run l added).0 ≡ false
        → (check_memories C l precond src tgt added rs t).0 ≡ go_on
    unfolding check_memories query next
    all_pass precond src tgt added [] t u c = refl
    all_pass precond src tgt added (r ∷ rs) t u c =
        let q = refinement_query C precond src tgt r in
        let (u', c') = stays q added u c in
        rw (u', c') (all_pass precond src tgt (q ∷ added) rs _ u' c')

    by_first :
        (m : Step × ℕ) (k : ℕ → Step × ℕ) → (m.0 ≡ go_on → (k m.1).0 ≡ go_on) → (next C m k).0 ≡ m.0
    unfolding next
    by_first (go_on, t) k h = h refl
    by_first (stop c, t) k h = refl
    by_first (aborted, t) k h = refl

    consistent :
        (q : Term) (added : List Term) (t : ℕ)
        → (query C l retvalue added q t).0 ≡ go_on
        → is_inconsistent (run l (q ∷ added)).0 ≡ false
    unfolding query
    consistent q added t h = ground arith

    -- Step 3 compares the memories of the first element type only: for a logic in which a solver that
    -- answered `unsat` still does so, and is not inconsistent, after one more formula, the verdict of
    -- step 3 is that of its first query alone, whatever the formulas of the other element types are.
    pub check_memories-first :
        (precond : Term) (src tgt : FinalState C) (r : Term) (rs : List Term) (t : ℕ)
        → (check_memories C l precond src tgt [] (r ∷ rs) t).0
          ≡ (check_memories C l precond src tgt [] (r ∷ []) t).0
    unfolding check_memories
    check_memories-first precond src tgt r rs t =
        let q = refinement_query C precond src tgt r in
        let m = query C l retvalue [] q t in
        by_first m (check_memories C l precond src tgt (q ∷ []) rs) (λ e.
          all_pass precond src tgt (q ∷ []) rs m.1 (query-go_on C l retvalue [] q t e)
            (consistent q [] t e))
        ∙ sym (by_first m (check_memories C l precond src tgt (q ∷ []) []) (λ e. refl))
