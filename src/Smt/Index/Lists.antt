-- ===== src/Smt/Index/Lists.antt =====
-- The meaning of `listsEqual` of src/smt.cpp.
use mlir_tv.Base.{
  ℕ, suc, ◌≤◌, ◌≡◌, ◌↔◌, refl, Bool, true, false, ◌&&◌, none, some, List, [], ◌∷◌, map, length, All,
  ◌==◌, ==_iff, arith, sym, ap, ◌∙◌,
}
use mlir_tv.Smt.Terms.{Smt, IsSmt}
use mlir_tv.Smt.Logic.{mk_bool, and, truth-and, truth-mk_bool}
use mlir_tv.Smt.Compare.{equal}
use mlir_tv.Smt.Compare.Equal.{truth-equal}
use mlir_tv.Smt.Index.{equal_from, lists_equal}

abbrev pub same_values : List ℕ → List ℕ → Bool
same_values (x ∷ xs) (y ∷ ys) = x == y && same_values xs ys
same_values [] ys = true
same_values (x ∷ xs) [] = true

pub same_values_eq : (xs ys : List ℕ) → length xs ≡ length ys → same_values xs ys ≡ true → xs ≡ ys
same_values_eq [] [] e h = refl
same_values_eq [] (y ∷ ys) e h = absurd (omega arith)
same_values_eq (x ∷ xs) [] e h = absurd (omega arith)
same_values_eq (x ∷ xs) (y ∷ ys) e h =
    let p : x ≡ y = ground (arith, ==_iff x y) in
    let q = same_values_eq xs ys (omega arith) (ground arith) in rw (p, q)

pub same_values_self : (xs : List ℕ) → same_values xs xs ≡ true
same_values_self [] = refl
same_values_self (x ∷ xs) = ground (arith, ==_iff x x, same_values_self xs)

module _ ⦃S : Smt⦄ (L : IsSmt S) (v : S.Valuation) where
  open S use {Term, bits, truth, width}

  truth-equal_from :
      (c : Term) (xs ys : List Term)
      → All (λ x. width x ≤ 64) xs
      → truth v (equal_from c xs ys)
        ≡ (truth v c && same_values (map (bits v) xs) (map (bits v) ys))
  unfolding equal_from
  truth-equal_from c [] ys w = ground arith
  truth-equal_from c (x ∷ xs) [] w = ground arith
  truth-equal_from c (x ∷ xs) (y ∷ ys) w = ground (
    arith,
    truth-equal_from (and c (equal x y)) xs ys w.1,
    truth-and L v c (equal x y),
    truth-equal L v x y w.0,
  )

  pub length-values : (xs : List Term) → length (map (bits v) xs) ≡ length xs
  length-values [] = refl
  length-values (x ∷ xs) = ap suc (length-values xs)

  -- `listsEqual` fails on lists of different lengths; on lists of one length, of which the first has
  -- terms of at most 64 bits, its answer is true exactly where they have the same values.
  lists_equal_lem :
      (xs ys : List Term)
      → All (λ x. width x ≤ 64) xs
      → (length xs ≡ length ys
          → (t : Term) × (lists_equal xs ys ≡ some t)
            × (truth v t ≡ true ↔ map (bits v) xs ≡ map (bits v) ys))
        × ((length xs ≡ length ys → ⊥) → lists_equal xs ys ≡ none)
  unfolding lists_equal
  lists_equal_lem xs ys w = (
    λ e.
        let c = equal_from (mk_bool true) xs ys in
        let k : truth v c ≡ same_values (map (bits v) xs) (map (bits v) ys) =
          truth-equal_from (mk_bool true) xs ys w ∙ rw (truth-mk_bool L v true) in
        let l : length (map (bits v) xs) ≡ length (map (bits v) ys) =
          length-values xs ∙ e ∙ sym (length-values ys) in
        (
          c,
          rw (lists_equal, (==_iff (length xs) (length ys)).1 e),
          (
            (λ h. same_values_eq _ _ l (sym k ∙ h)),
            (λ h.
                k
                ∙ ap (same_values (map (bits v) xs)) (sym h)
                ∙ same_values_self (map (bits v) xs)),
          ),
        ),
    λ n.
        let f : (length xs == length ys) ≡ false = ground (arith, ==_iff (length xs) (length ys)) in
        rw (lists_equal, f),
  )
