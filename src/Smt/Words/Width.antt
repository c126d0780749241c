-- ===== src/Smt/Words/Width.antt =====
-- The widths of the results of `extract`, `urem`, `udiv` and the operators of src/smt.cpp.
use native.Mathlib.Nat.{le_trans, pow-le-pow_right}
use native.Mathlib.Decide.{ℕ_discrete}
use mlir_tv.Base.{
  ℕ, ◌+◌, ◌-◌, ◌*◌, ◌/◌, ◌%◌, ◌^◌, ◌≤◌, ◌<◌, ◌≡◌, ◌≢◌, inl, inr, none, some, ◌==◌, ◌&&◌, ltb,
  if◌then◌else◌, arith, refl, Option-cases, Bool-cases, true, sym, ap, ◌∙◌,
}
use mlir_tv.Smt.Terms.{Smt, IsSmt, concat_kind}
use mlir_tv.Smt.Match.{match_binary_op, match_zero_ext, match_concat}
use mlir_tv.Smt.Arith.{
  mk_bv, concat, extract, extract_concat, fold_div, urem, udiv, log2_ceil, is_pow2,
}
use mlir_tv.Smt.Arith.Log.{log2_ceil_lem, lt_of_pow-lt}
use mlir_tv.Smt.Compare.Equal.{==_of_ne}
use mlir_tv.Smt.Words.Sum.{width-add_terms, bits-add}
use mlir_tv.Smt.Words.Wrap.{bits-sub, bits-mul}
use mlir_tv.Smt.Words.{add, sub, mul}

module _ ⦃S : Smt⦄ (L : IsSmt S) where
  open S use {Term, Valuation, bits, width, numeral?, bvconcat, bvurem, bvudiv, bvmul}

  extract_concat-width :
      (h l : ℕ) (t a : Term) → extract_concat h l t ≡ some a → width a ≡ h + 1 - l
  unfolding extract_concat
  extract_concat-width h l t a e = elim (Option-cases (match_binary_op concat_kind t)) [
    | inl m ↦ elim (Option-cases (match_zero_ext t)) [
      | inl n ↦ absurd (ground arith)
      | inr (x, n) ↦
          let p : l ≡ 0 = ground arith in
          let q : h + 1 ≡ width x = ground arith in
          let g : x ≡ a = ground arith in rw (← g) (omega arith)
    ]
    | inr ((x, y), m) ↦
        let f : width t ≡ width x + width y =
          ap width (match_concat L t x y m) ∙ L.width-bvconcat x y in
        elim (Bool-cases (l == 0 && h + 1 == width y)) [
          | inl c ↦
              let g : y ≡ a = ground arith in
              let p : l ≡ 0 = ground arith in
              let q : h + 1 ≡ width y = ground arith in rw (← g) (omega arith)
          | inr c ↦
              let p : l ≡ width y = ground arith in
              let q : h + 1 ≡ width t = ground arith in
              let g : x ≡ a = ground arith in rw (← g, q, f, p) (omega arith)
        ]
  ]

  pub width-extract : (h l : ℕ) (t : Term) → l ≤ h → width (extract h l t) ≡ h + 1 - l
  unfolding extract mk_bv
  width-extract h l t k =
      let plain : width (elim (extract_concat h l t) [ none ↦ S.bvextract h l t | some a ↦ a ])
          ≡ h + 1 - l =
        elim (Option-cases (extract_concat h l t)) [
          | inl e ↦ rw e (L.width-bvextract h l t)
          | inr (a, e) ↦ rw e (extract_concat-width h l t a e)
        ] in
      elim (Option-cases (numeral? t)) [
        | inl e ↦ rw (e, extract) plain
        | inr (u, e) ↦ elim (Bool-cases (ltb h 64)) [
          | inl c ↦ rw (e, c, extract, L.width-bv_val) (omega arith)
          | inr c ↦ rw (e, c, extract) plain
        ]
      ]

  fold_div-width :
      (f : ℕ → ℕ → ℕ) (plain : Term → Term → Term) (a b : Term)
      → width (plain a b) ≡ width a
      → width a ≡ width b
      → width (fold_div f plain a b) ≡ width a
  unfolding fold_div mk_bv
  fold_div-width f plain a b p w = elim (Option-cases (numeral? a)) [
    | inl e ↦ rw (e, fold_div) p
    | inr (x, e) ↦ elim (Option-cases (numeral? b)) [
      | inl g ↦ rw (e, g, fold_div) p
      | inr (y, g) ↦ elim (Bool-cases (y == 0)) [
        | inl h ↦ rw (e, g, h, fold_div) p
        | inr h ↦ rw (e, g, h, fold_div, L.width-bv_val) (sym w)
      ]
    ]
  ]

  -- The exponent of a constant that is a power of two and fits its width.
  exponent-lt :
      (v : Valuation) (b : Term) (n : ℕ)
      → numeral? b ≡ some n
      → is_pow2 n ≡ true
      → n ≢ 1
      → n < 2 ^ 32
      → (0 < log2_ceil n) × (log2_ceil n < width b)
  exponent-lt v b n e k ne s =
      let (p, q) = log2_ceil_lem n k s in
      let g : bits v b ≡ n = (L.numeral_lem v b n e).0 in
      (
        elim (ℕ_discrete (log2_ceil n) 0) [
          | yes z ↦ absurd (ne (p ∙ ap (λ (j : ℕ). 2 ^ j) z))
          | no z ↦ omega arith
        ],
        lt_of_pow-lt (log2_ceil n) (width b) (rw (← p, ← g) (L.bits-lt v b)),
      )

  -- A constant divisor of a width of at most 32 is below 2 ^ 32.
  pub small_divisor :
      (v : Valuation) (b : Term) → width b ≤ 32 → (n : ℕ) → numeral? b ≡ some n → n < 2 ^ 32
  small_divisor v b w n e =
      le_trans (rw (← (L.numeral_lem v b n e).0) (L.bits-lt v b))
        (pow-le-pow_right {n = 2} (omega arith) w)

  pub width-urem :
      (v : Valuation) (a b : Term) → width a ≡ width b → width b ≤ 32 → width (urem a b) ≡ width a
  unfolding urem mk_bv concat
  width-urem v a b w s =
      let plain = fold_div-width ◌%◌ bvurem a b (L.width-bvurem a b) w in
      elim (Option-cases (numeral? b)) [
        | inl e ↦ rw (e, urem) plain
        | inr (n, e) ↦ elim (ℕ_discrete n 1) [
          | yes h ↦ rw (e, urem, h, L.width-bv_val) (sym w)
          | no h ↦ elim (Bool-cases (is_pow2 n)) [
            | inr k ↦ rw (e, urem, ==_of_ne n 1 h, k) plain
            | inl k ↦
                let (p, q) = exponent-lt v b n e k h (small_divisor v b s n e) in
                rw
                  (
                    e,
                    urem,
                    ==_of_ne n 1 h,
                    k,
                    L.width-bvconcat,
                    L.width-bv_val,
                    width-extract (log2_ceil n - 1) 0 a (omega arith),
                  )
                  (omega arith)
          ]
        ]
      ]

  pub width-udiv :
      (v : Valuation) (a b : Term) → width a ≡ width b → width b ≤ 32 → width (udiv a b) ≡ width a
  unfolding udiv mk_bv concat
  width-udiv v a b w s =
      let plain = fold_div-width ◌/◌ bvudiv a b (L.width-bvudiv a b) w in
      elim (Option-cases (numeral? b)) [
        | inl e ↦ rw (e, udiv) plain
        | inr (n, e) ↦ elim (ℕ_discrete n 1) [
          | yes h ↦ rw (e, udiv, h)
          | no h ↦ elim (Bool-cases (is_pow2 n)) [
            | inr k ↦ rw (e, udiv, ==_of_ne n 1 h, k) plain
            | inl k ↦
                let (p, q) = exponent-lt v b n e k h (small_divisor v b s n e) in
                rw
                  (
                    e,
                    udiv,
                    ==_of_ne n 1 h,
                    k,
                    L.width-bvconcat,
                    L.width-bv_val,
                    width-extract (width a - 1) (log2_ceil n) a (omega arith),
                  )
                  (omega arith)
          ]
        ]
      ]

  -- One of two terms of a width, or a third.
  unit_or_zero-width :
      (x w : ℕ) (s t u : Term)
      → width s ≡ w
      → width t ≡ w
      → width u ≡ w
      → width (if x == 1 then s else if x == 0 then t else u) ≡ w
  unit_or_zero-width x w s t u p q r = ground arith

  pub width-add : (v : Valuation) (a b : Term) → width a ≡ width b → width (add a b) ≡ width a
  unfolding add mk_bv
  width-add v a b w = elim (Option-cases (numeral? a)) [
    | inl e ↦ elim (Option-cases (numeral? b)) [
      | inl g ↦ rw (e, g, add) (width-add_terms L v a b)
      | inr (y, g) ↦ elim (Bool-cases (y == 0)) [
        | inr z ↦ rw (e, g, add, z) (width-add_terms L v a b)
        | inl z ↦ rw (e, g, add, z)
      ]
    ]
    | inr (x, e) ↦ elim (Option-cases (numeral? b)) [
      | inr (y, g) ↦ rw (e, g, add, L.width-bv_val) (sym w)
      | inl g ↦ elim (Bool-cases (x == 0)) [
        | inr z ↦ rw (e, g, add, z) (width-add_terms L v a b)
        | inl z ↦ rw (e, g, add, z) (sym w)
      ]
    ]
  ]

  pub width-sub : (a b : Term) → width a ≡ width b → width (sub a b) ≡ width a
  unfolding sub mk_bv
  width-sub a b w = elim (Option-cases (numeral? b)) [
    | inl e ↦ rw (e, sub) (L.width-bvsub a b)
    | inr (y, e) ↦ elim (Option-cases (numeral? a)) [
      | inr (x, g) ↦ rw (e, g, sub, L.width-bv_val) (sym w)
      | inl g ↦ elim (Bool-cases (y == 0)) [
        | inr z ↦ rw (e, g, sub, z) (L.width-bvsub a b)
        | inl z ↦ rw (e, g, sub, z)
      ]
    ]
  ]

  pub width-mul : (a b : Term) → width a ≡ width b → width (mul a b) ≡ width a
  unfolding mul mk_bv
  width-mul a b w =
      let plain = L.width-bvmul a b in
      elim (Option-cases (numeral? b)) [
        | inl e ↦ elim (Option-cases (numeral? a)) [
          | inl g ↦ rw (e, g, mul) plain
          | inr (x, g) ↦
              rw (e, g, mul) (unit_or_zero-width x (width a) b a (bvmul a b) (sym w) refl plain)
        ]
        | inr (y, e) ↦ elim (Option-cases (numeral? a)) [
          | inr (x, g) ↦ rw (e, g, mul, L.width-bv_val) (sym w)
          | inl g ↦
              rw (e, g, mul) (unit_or_zero-width y (width a) a b (bvmul a b) refl (sym w) plain)
        ]
      ]

  -- The results of the five operators at two terms of one width of at most 32 have that width.
  operators-width :
      (v : Valuation) (a b : Term)
      → width a ≡ width b
      → width a ≤ 32
      → (width (add a b) ≡ width a)
        × (width (sub a b) ≡ width a)
        × (width (mul a b) ≡ width a)
        × (width (urem a b) ≡ width a)
        × (width (udiv a b) ≡ width a)
  operators-width v a b w s = (
    width-add v a b w,
    width-sub a b w,
    width-mul a b w,
    width-urem v a b w (rw (← w) s),
    width-udiv v a b w (rw (← w) s),
  )

  -- At two terms of one width w of at most 64, `+`, `-` and `*` compute modulo 2 ^ w, whichever of their
  -- shortcuts they take: constants, which wrap at 2 ^ 64 first, the units 0 and 1, and `a` for
  -- `(a / b) * b + a % b`, if the matchers count arguments as cvc5's do, or meet no application with
  -- three or more, as z3's must not.
  pub operators-bits :
      (v : Valuation) (a b : Term)
      → width a ≡ width b
      → width a ≤ 64
      → (bits v (add a b) ≡ (bits v a + bits v b) % 2 ^ width a)
        × (bits v (sub a b) ≡ (bits v a + 2 ^ width a - bits v b) % 2 ^ width a)
        × (bits v (mul a b) ≡ bits v a * bits v b % 2 ^ width a)
  operators-bits v a b w s = (bits-add L v a b w s, bits-sub L v a b w s, bits-mul L v a b w s)
