-- ===== src/Smt/Compare/Less.antt =====
-- `ule` of src/smt.cpp, and `ult` at a remainder by the constant zero.
use mlir_tv.Base.{
  leb, inl, inr, Option-cases, Bool-cases, ==_iff, sym, ◌∙◌, ◌==◌, ℕ, suc, ◌≡◌, Bool, true, none,
  some, ltb, arith,
}
use mlir_tv.Smt.Terms.{Smt, IsSmt, Kind, urem_kind, concat_kind}
use mlir_tv.Smt.Match.{match_binary_op, args_of, match_urem}
use mlir_tv.Smt.Logic.{truth-mk_bool}
use mlir_tv.Smt.Compare.{
  ule, plain, settled, on_numerals, fold_test, either, below_divisor, split_ult, split_ult_both,
  split_ult_left, split_ult_right, ult_at, ult,
}

leb-zero : (n : ℕ) → leb 0 n ≡ true
leb-zero n = ground arith

module _ ⦃S : Smt⦄ (L : IsSmt S) (v : S.Valuation) where
  open S use {Term, bits, truth, width, numeral?}

  fold_test-none : (f : ℕ → ℕ → Bool) (a b : Term) → numeral? a ≡ none → fold_test f a b ≡ plain
  unfolding fold_test on_numerals
  fold_test-none f a b p = rw (p, fold_test, on_numerals)

  below_divisor-zero :
      (a n d b : Term) (y : ℕ)
      → match_binary_op urem_kind a ≡ some (n, d)
      → numeral? d ≡ some 0
      → numeral? b ≡ some y
      → below_divisor a b ≡ settled true
  unfolding below_divisor on_numerals
  below_divisor-zero a n d b y e q r = rw (e, below_divisor, on_numerals, q, r) (ground arith)

  split_ult-zero_divisor :
      (a n d b : Term) (y : ℕ)
      → match_binary_op urem_kind a ≡ some (n, d)
      → numeral? d ≡ some 0
      → numeral? b ≡ some y
      → split_ult a b ≡ settled true
  unfolding split_ult
  split_ult-zero_divisor a n d b y e q r = rw (below_divisor-zero a n d b y e q r)

  ult_at-zero_divisor :
      (fuel : ℕ) (a b : Term)
      → numeral? a ≡ none
      → split_ult a b ≡ settled true
      → truth v (ult_at (suc fuel) a b) ≡ true
  unfolding ult_at either
  ult_at-zero_divisor fuel a b p e =
      rw (ult_at, fold_test-none ltb a b p, either, e) (truth-mk_bool L v true)

  -- `ult` answers true for `n % 0 < b` with any constant `b`, while `n % 0` is `n` for the solver.
  ult-zero_divisor :
      (a n d b : Term) (y : ℕ)
      → match_binary_op urem_kind a ≡ some (n, d)
      → numeral? a ≡ none
      → numeral? d ≡ some 0
      → numeral? b ≡ some y
      → (truth v (ult a b) ≡ true) × (bits v a ≡ bits v n)
  unfolding ult
  ult-zero_divisor a n d b y e p q r =
      let z : bits v d ≡ 0 = (L.numeral_lem v d 0 q).0 in
      (
        ult_at-zero_divisor (width a) a b p (split_ult-zero_divisor a n d b y e q r),
        rw (match_urem L a n d e, L.bits-bvurem v n d, z),
      )

  -- `ule` is true exactly where the value of its left side is at most that of its right side.
  pub truth-ule : (a b : Term) → truth v (ule a b) ≡ leb (bits v a) (bits v b)
  unfolding ule
  truth-ule a b = elim (Option-cases (numeral? a)) [
    | inl e ↦ rw (e, ule) (L.truth-bvule v a b)
    | inr (x, e) ↦
        let ex = (L.numeral_lem v a x e).0 in
        elim (Option-cases (numeral? b)) [
          | inr (y, g) ↦
              let ey = (L.numeral_lem v b y g).0 in
              rw (e, g, ule, ex, ey) (truth-mk_bool L v (leb x y))
          | inl g ↦ elim (Bool-cases (x == 0)) [
            | inr z ↦ rw (e, g, ule, z) (L.truth-bvule v a b)
            | inl z ↦
                let n : x ≡ 0 = (==_iff x 0).0 z in
                rw (e, g, ule, z, ex, n) (truth-mk_bool L v true ∙ sym (leb-zero (bits v b)))
          ]
        ]
  ]

  pub match_binary_op-none : (k : Kind) (t : Term) → S.app? t ≡ none → match_binary_op k t ≡ none
  unfolding match_binary_op args_of
  match_binary_op-none k t e = rw (e, match_binary_op, args_of)

  split_ult_right-none : (a b : Term) → numeral? a ≡ none → split_ult_right a b ≡ plain
  unfolding split_ult_right on_numerals
  split_ult_right-none a b e = elim (Option-cases (match_binary_op concat_kind b)) [
    | inl m ↦ rw (m, split_ult_right)
    | inr ((h, l), m) ↦ rw (m, split_ult_right, on_numerals, e)
  ]

  split_ult-variable : (a b : Term) → S.app? a ≡ none → numeral? a ≡ none → split_ult a b ≡ plain
  unfolding split_ult below_divisor split_ult_both split_ult_left either
  split_ult-variable a b e f =
      let m = match_binary_op-none urem_kind a e in
      let c = match_binary_op-none concat_kind a e in
      rw (split_ult, below_divisor, split_ult_both, split_ult_left, m, c, either)
        (split_ult_right-none a b f)

  -- `ult` of a variable is true exactly where its value is below that of the right side.
  pub truth-ult_var :
      (a b : Term) → S.is_var a ≡ true → truth v (ult a b) ≡ ltb (bits v a) (bits v b)
  unfolding ult ult_at either
  truth-ult_var a b h =
      let n = L.numeral?-var a h in
      rw (ult, ult_at, fold_test-none ltb a b n, split_ult-variable a b (L.app?-var a h) n, either)
        (L.truth-bvult v a b)
