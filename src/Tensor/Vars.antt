-- ===== src/Tensor/Vars.antt =====
-- Lists of index variables (`Index::boundIndexVars` of src/value.cpp) and the terms that do not
-- mention them.
use mlir_tv.Base.{ℕ, ◌^◌, ◌≤◌, ◌<◌, ◌≡◌, refl, List, [], ◌∷◌, map, length, All, arith, ap, ◌∙◌}
use mlir_tv.Smt.Terms.{Smt, IsSmt, SameAt, IsFresh, AreVars, assign_all}
use mlir_tv.Smt.Same.{SameAt-rfl, SameAt-trans}
use mlir_tv.Smt.Index.Digits.{InDims}
use mlir_tv.Smt.Index.Meaning.{AreIndices}

module _ ⦃S : Smt⦄ where
  open S use {Term, Valuation, bits, assign, width}

  -- None of the variables matters to `t`.
  abbrev pub AreFresh : List Term → Term → Type 0
  AreFresh vars t = All (λ x. IsFresh S x t) vars

  -- No variable matters to an earlier one.
  abbrev pub AreDistinct : List Term → Type 0
  AreDistinct [] = Unit
  AreDistinct (x ∷ xs) = AreFresh xs x × AreDistinct xs

  pub SameAt-assign_all :
      (v : Valuation) (vars : List Term) (ns : List ℕ) (t : Term)
      → AreFresh vars t
      → SameAt S (assign_all S v vars ns) t v t
  SameAt-assign_all v [] ns t h = SameAt-rfl v t
  SameAt-assign_all v (x ∷ xs) [] t h = SameAt-rfl v t
  SameAt-assign_all v (x ∷ xs) (n ∷ ns) t (h, k) =
      SameAt-trans (SameAt-assign_all (assign v x n) xs ns t k) (h v n)

  pub map-assign_all :
      (v : Valuation) (vars : List Term) (ns : List ℕ) (ts : List Term)
      → All (AreFresh vars) ts
      → map (bits (assign_all S v vars ns)) ts ≡ map (bits v) ts
  map-assign_all v vars ns [] h = refl
  map-assign_all v vars ns (t ∷ ts) (h, k) =
      ap (λ (j : ℕ). j ∷ map (bits (assign_all S v vars ns)) ts)
        (SameAt-assign_all v vars ns t h).bits_eq
      ∙ ap (λ (l : List ℕ). bits v t ∷ l) (map-assign_all v vars ns ts k)

  module _ (L : IsSmt S) (w : ℕ) (s : w ≤ 32) where
    -- The variables have the values that they were given.
    pub assigned :
        (v : Valuation) (vars ds : List Term) (ns : List ℕ)
        → AreVars S vars
        → AreIndices L v w s vars
        → AreDistinct vars
        → length ds ≡ length vars
        → (u : Valuation) → AreIndices L v w s ds
        → InDims ns (map (bits u) ds)
        → map (bits (assign_all S v vars ns)) vars ≡ ns
    assigned v [] [] [] p a q l u i k = refl
    assigned v [] [] (n ∷ ns) p a q l u i k = absurd k
    assigned v [] (d ∷ ds) ns p a q l u i k = absurd (omega arith)
    assigned v (x ∷ xs) [] ns p a q l u i k = absurd (omega arith)
    assigned v (x ∷ xs) (d ∷ ds) [] p a q l u i k = absurd k
    assigned v (x ∷ xs) (d ∷ ds) (n ∷ ns) (p, ps) (a, b) (q, qs) l u (i, is) (k, ks) =
        let lt : n < 2 ^ width x =
          rw a (omega (arith, (let m : bits u d < 2 ^ w = rw (← i) (L.bits-lt u d) in m))) in
        let v' = assign v x n in
        let e : bits (assign_all S v' xs ns) x ≡ n =
          (SameAt-assign_all v' xs ns x q).bits_eq ∙ L.bits-assign v x n p lt in
        let l' : length ds ≡ length xs = omega arith in
        ap (λ (j : ℕ). j ∷ map (bits (assign_all S v' xs ns)) xs) e
        ∙ ap (λ (t : List ℕ). n ∷ t) (assigned v' xs ds ns ps b qs l' u is ks)
