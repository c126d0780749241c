-- ===== src/Smt/Arith/Divide.antt =====
-- The meaning of `urem` and `udiv` of src/smt.cpp.
use native.Mathlib.Nat.{
  mod-eq_of_lt, mod-lt, mod-one, div-one, le_trans, div-le_self, div-lt_iff_lt-mul,
  pow-le-pow_right,
}
use native.Mathlib.Decide.{ℕ_discrete}
use mlir_tv.Base.{
  ℕ, zero, suc, ◌+◌, ◌-◌, ◌/◌, ◌%◌, ◌^◌, ◌≤◌, ◌<◌, ◌≡◌, ◌≢◌, inl, inr, true, false, arith, ◌==◌,
  ==_iff, Option-cases, Bool-cases, some, if◌then◌else◌, ap, ◌∙◌, sym,
}
use mlir_tv.Base.Pow.{pow-pos, pow-add}
use mlir_tv.Smt.Terms.{Smt, IsSmt}
use mlir_tv.Smt.Arith.{mk_bv, concat, extract, log2_ceil, is_pow2, fold_div, urem, udiv}
use mlir_tv.Smt.Arith.Log.{
  is_pow2_lem, is_pow2-pow, log2_ceil_lem, log2_ceil-pow_large, lt_of_pow-lt,
}
use mlir_tv.Smt.Arith.Slice.{bits-extract}

-- The quotient and the remainder of SMT-LIB at the divisor zero.
abbrev pub urem_value : ℕ → ℕ → ℕ
urem_value a b = if b == 0 then a else a % b

abbrev pub udiv_value : ℕ → ℕ → ℕ → ℕ
udiv_value w a b = if b == 0 then 2 ^ w - 1 else a / b

exponent-pos : (n k : ℕ) → n ≡ 2 ^ k → n ≢ 1 → 0 < k
exponent-pos n zero e h = absurd (h e)
exponent-pos n (suc k) e h = omega arith

pub urem_value-pos : (a n : ℕ) → 0 < n → a % n ≡ urem_value a n
urem_value-pos a n p = ground arith

pub udiv_value-pos : (w a n : ℕ) → 0 < n → a / n ≡ udiv_value w a n
udiv_value-pos w a n p = ground arith

module _ ⦃S : Smt⦄ (L : IsSmt S) (v : S.Valuation) where
  open S use {Term, bits, width, numeral?, bvurem, bvudiv}

  -- A zero in front of the low bits.
  pub zero_concat : (w : ℕ) (t : Term) → bits v (concat (mk_bv 0 w) t) ≡ bits v t
  unfolding concat mk_bv
  zero_concat w t =
      rw (L.bits-bvconcat v (S.bv_val 0 w) t, L.bits-bv_val v 0 w, mod-eq_of_lt (pow-pos w))
        (omega arith)

  -- Constant folding agrees with the solver's operation.
  fold_div-bits :
      (f : ℕ → ℕ → ℕ) (plain : Term → Term → Term) (a b : Term)
      → (bits v b ≢ 0 → bits v (plain a b) ≡ f (bits v a) (bits v b))
      → (bits v b ≢ 0 → f (bits v a) (bits v b) < 2 ^ width b)
      → bits v (fold_div f plain a b) ≡ bits v (plain a b)
  unfolding fold_div mk_bv
  fold_div-bits f plain a b p q = elim (Option-cases (numeral? a)) [
    | inl e ↦ rw (e, fold_div)
    | inr (x, e) ↦ elim (Option-cases (numeral? b)) [
      | inl g ↦ rw (e, g, fold_div)
      | inr (y, g) ↦ elim (Bool-cases (y == 0)) [
        | inl h ↦ rw (e, g, h, fold_div)
        | inr h ↦
            let ex = (L.numeral_lem v a x e).0 in
            let ey = (L.numeral_lem v b y g).0 in
            let ne : bits v b ≢ 0 = λ z. ground arith in
            rw (e, g, h, fold_div, L.bits-bv_val v, ← ex, ← ey, p ne) (mod-eq_of_lt (q ne))
      ]
    ]
  ]

  -- The shortcut at a constant `n` that passes the test, whose `log2_ceil` is `l`.
  urem_shortcut :
      (a : Term) (l : ℕ)
      → 0 < l
      → bits v (concat (mk_bv 0 (width a - l)) (extract (l - 1) 0 a)) ≡ bits v a % 2 ^ l
  urem_shortcut a l p =
      let e : l - 1 + 1 - 0 ≡ l = omega arith in
      zero_concat (width a - l) (extract (l - 1) 0 a)
      ∙ bits-extract L v (l - 1) 0 a (omega arith)
      ∙ rw (e, div-one (bits v a))

  udiv_shortcut :
      (a : Term) (l : ℕ)
      → l < width a
      → bits v (concat (mk_bv 0 l) (extract (width a - 1) l a)) ≡ bits v a / 2 ^ l
  udiv_shortcut a l p =
      let e : width a - 1 + 1 - l ≡ width a - l = omega arith in
      let f : width a - l + l ≡ width a = omega arith in
      zero_concat l (extract (width a - 1) l a)
      ∙ bits-extract L v (width a - 1) l a (omega arith)
      ∙ rw e (
          mod-eq_of_lt
            ((div-lt_iff_lt-mul (pow-pos l)).1 (rw (← pow-add (width a - l) l, f) (L.bits-lt v a))))

  folded_urem : (a b : Term) → bits v (fold_div ◌%◌ bvurem a b) ≡ urem_value (bits v a) (bits v b)
  folded_urem a b =
      fold_div-bits ◌%◌ bvurem a b (λ h. ground (arith, L.bits-bvurem v a b))
        (λ h. le_trans (mod-lt (bits v a) (omega arith)) (omega (arith, L.bits-lt v b)))
      ∙ L.bits-bvurem v a b

  folded_udiv :
      (a b : Term)
      → width a ≡ width b
      → bits v (fold_div ◌/◌ bvudiv a b) ≡ udiv_value (width a) (bits v a) (bits v b)
  folded_udiv a b w =
      fold_div-bits ◌/◌ bvudiv a b (λ h. ground (arith, L.bits-bvudiv v a b))
        (λ h. rw (← w) (omega (arith, div-le_self (bits v a) (bits v b), L.bits-lt v a)))
      ∙ L.bits-bvudiv v a b

  urem-one : (a b : Term) → numeral? b ≡ some 1 → bits v (urem a b) ≡ urem_value (bits v a) 1
  unfolding urem mk_bv
  urem-one a b e =
      rw (e, urem, L.bits-bv_val v) (mod-eq_of_lt (pow-pos (width b)) ∙ sym (mod-one (bits v a)))

  -- A constant that is a power of two but not 1 takes the shortcut.
  urem-pow2 :
      (a b : Term) (n : ℕ)
      → numeral? b ≡ some n
      → n ≢ 1
      → is_pow2 n ≡ true
      → 0 < log2_ceil n
      → bits v (urem a b) ≡ bits v a % 2 ^ log2_ceil n
  unfolding urem
  urem-pow2 a b n e h k p = elim (Bool-cases (n == 1)) [
    | inl c ↦ absurd (h ((==_iff n 1).0 c))
    | inr c ↦ rw (e, c, k, urem) (urem_shortcut a (log2_ceil n) p)
  ]

  urem-plain :
      (a b : Term) (n : ℕ)
      → numeral? b ≡ some n
      → n ≢ 1
      → is_pow2 n ≡ false
      → bits v (urem a b) ≡ urem_value (bits v a) (bits v b)
  unfolding urem
  urem-plain a b n e h k = elim (Bool-cases (n == 1)) [
    | inl c ↦ absurd (h ((==_iff n 1).0 c))
    | inr c ↦ rw (e, c, k, urem) (folded_urem a b)
  ]

  udiv-one : (a b : Term) → numeral? b ≡ some 1 → bits v (udiv a b) ≡ bits v a / 1
  unfolding udiv
  udiv-one a b e = rw (e, udiv) (sym (div-one (bits v a)))

  udiv-pow2 :
      (a b : Term) (n : ℕ)
      → numeral? b ≡ some n
      → n ≢ 1
      → is_pow2 n ≡ true
      → log2_ceil n < width a
      → bits v (udiv a b) ≡ bits v a / 2 ^ log2_ceil n
  unfolding udiv
  udiv-pow2 a b n e h k p = elim (Bool-cases (n == 1)) [
    | inl c ↦ absurd (h ((==_iff n 1).0 c))
    | inr c ↦ rw (e, c, k, udiv) (udiv_shortcut a (log2_ceil n) p)
  ]

  udiv-plain :
      (a b : Term) (n : ℕ)
      → width a ≡ width b
      → numeral? b ≡ some n
      → n ≢ 1
      → is_pow2 n ≡ false
      → bits v (udiv a b) ≡ udiv_value (width a) (bits v a) (bits v b)
  unfolding udiv
  udiv-plain a b n w e h k = elim (Bool-cases (n == 1)) [
    | inl c ↦ absurd (h ((==_iff n 1).0 c))
    | inr c ↦ rw (e, c, k, udiv) (folded_udiv a b w)
  ]

  -- `urem` is the solver's remainder, unless the divisor is a constant from 2 ^ 32 on, if the matchers
  -- count arguments as cvc5's do, or meet no application with three or more, as z3's must not.
  pub bits-urem :
      (a b : Term)
      → ((n : ℕ) → numeral? b ≡ some n → n < 2 ^ 32)
      → bits v (urem a b) ≡ urem_value (bits v a) (bits v b)
  unfolding urem
  bits-urem a b small = elim (Option-cases (numeral? b)) [
    | inl e ↦ rw (e, urem) (folded_urem a b)
    | inr (n, e) ↦
        let g : bits v b ≡ n = (L.numeral_lem v b n e).0 in
        rw g (elim (ℕ_discrete n 1) [
          | yes h ↦ rw h (urem-one a b (e ∙ ap some h))
          | no h ↦ elim (Bool-cases (is_pow2 n)) [
            | inl k ↦
                let (p, q) = log2_ceil_lem n k (small n e) in
                urem-pow2 a b n e h k (exponent-pos n (log2_ceil n) p h)
                ∙ ap (λ (j : ℕ). bits v a % j) (sym p)
                ∙ urem_value-pos (bits v a) n (is_pow2_lem n k).0
            | inr k ↦ urem-plain a b n e h k ∙ ap (urem_value (bits v a)) g
          ]
        ])
  ]

  -- `udiv` of terms of one width, likewise.
  pub bits-udiv :
      (a b : Term)
      → width a ≡ width b
      → ((n : ℕ) → numeral? b ≡ some n → n < 2 ^ 32)
      → bits v (udiv a b) ≡ udiv_value (width a) (bits v a) (bits v b)
  unfolding udiv
  bits-udiv a b w small = elim (Option-cases (numeral? b)) [
    | inl e ↦ rw (e, udiv) (folded_udiv a b w)
    | inr (n, e) ↦
        let g : bits v b ≡ n = (L.numeral_lem v b n e).0 in
        rw g (elim (ℕ_discrete n 1) [
          | yes h ↦ rw h (udiv-one a b (e ∙ ap some h))
          | no h ↦ elim (Bool-cases (is_pow2 n)) [
            | inl k ↦
                let (p, q) = log2_ceil_lem n k (small n e) in
                let lt : 2 ^ log2_ceil n < 2 ^ width a = rw (← p, ← g, w) (L.bits-lt v b) in
                udiv-pow2 a b n e h k (lt_of_pow-lt (log2_ceil n) (width a) lt)
                ∙ ap (λ (j : ℕ). bits v a / j) (sym p)
                ∙ udiv_value-pos (width a) (bits v a) n (is_pow2_lem n k).0
            | inr k ↦ udiv-plain a b n w e h k ∙ ap (udiv_value (width a) (bits v a)) g
          ]
        ])
  ]

  -- At the divisor 2 ^ k, k from 32 to 63, `urem` and `udiv` are those by 2 ^ 31, for `log2_ceil`
  -- shifts an `int`.
  pub div-pow2_wide :
      (a b : Term) (k : ℕ)
      → numeral? b ≡ some (2 ^ k)
      → 32 ≤ k
      → k < 64
      → k < width a
      → (bits v (urem a b) ≡ bits v a % 2 ^ 31) × (bits v (udiv a b) ≡ bits v a / 2 ^ 31)
  div-pow2_wide a b k e l u w =
      let p = is_pow2-pow k u in
      let g : log2_ceil (2 ^ k) ≡ 31 = log2_ceil-pow_large k l u in
      let ne : 2 ^ k ≢ 1 =
        λ z. absurd (omega (arith, z, pow-le-pow_right {n = 2} (omega arith) l)) in
      (
        urem-pow2 a b (2 ^ k) e ne p (omega arith) ∙ ap (λ (j : ℕ). bits v a % 2 ^ j) g,
        udiv-pow2 a b (2 ^ k) e ne p (omega arith) ∙ ap (λ (j : ℕ). bits v a / 2 ^ j) g,
      )
