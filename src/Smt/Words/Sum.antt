-- ===== src/Smt/Words/Sum.antt =====
-- The meaning of `operator+` of src/smt.cpp at widths of at most 64 bits.
use native.Mathlib.Nat.{mod-eq_of_lt, div-mul-le_self, div-add-mod', mul_comm}
use mlir_tv.Base.{
  ℕ, ◌+◌, ◌*◌, ◌/◌, ◌%◌, ◌^◌, ◌≤◌, ◌<◌, ◌≡◌, ◌≢◌, ◌⊎◌, inl, inr, true, some, ◌==◌, ==_iff, arith,
  refl, Option-cases, Bool-cases, sym, ap, ◌∙◌,
}
use mlir_tv.Base.Pow.{pow-pos, mod-mod_pow}
use mlir_tv.Smt.Terms.{Smt, IsSmt, mul_kind, udiv_kind, urem_kind}
use mlir_tv.Smt.Match.{match_binary_op, match_mul, match_udiv, match_udiv-width, match_urem}
use mlir_tv.Smt.Logic.{truth-negate}
use mlir_tv.Smt.Arith.{mk_bv}
use mlir_tv.Smt.Compare.Equal.{truth-equal}
use mlir_tv.Smt.Words.{is_zero, is_non_zero, match_quotient, whole, add_terms, add}

-- A number is its quotient times the divisor and its remainder, modulo any bound above it.
quotient_and_rest : (n d m : ℕ) → n < m → (n / d * d % m + n % d) % m ≡ n
quotient_and_rest n d m h =
    let e : n / d * d % m ≡ n / d * d = mod-eq_of_lt (omega (arith, div-mul-le_self n d)) in
    ap (λ (j : ℕ). (j + n % d) % m) e ∙ ap (λ (j : ℕ). j % m) (div-add-mod' n d) ∙ mod-eq_of_lt h

plus_zero : (n m : ℕ) → n < m → (n + 0) % m ≡ n
plus_zero n m h = let e : n + 0 ≡ n = omega arith in ap (λ (j : ℕ). j % m) e ∙ mod-eq_of_lt h

zero_plus : (n m : ℕ) → n < m → (0 + n) % m ≡ n
zero_plus n m h = let e : 0 + n ≡ n = omega arith in ap (λ (j : ℕ). j % m) e ∙ mod-eq_of_lt h

module _ ⦃S : Smt⦄ (L : IsSmt S) (v : S.Valuation) where
  open S use {Term, bits, truth, width, numeral?, identical, is_true, bvadd, bvmul, bvudiv}

  -- `isNonZero` is decided where its term is the constant true.
  non_zero : (b : Term) → width b ≤ 64 → is_true (is_non_zero b) ≡ true → bits v b ≢ 0
  unfolding is_non_zero is_zero mk_bv
  non_zero b w h z =
      let z' : bits v (S.bv_val 0 (width b)) ≡ 0 =
        L.bits-bv_val v 0 (width b) ∙ mod-eq_of_lt (pow-pos (width b)) in
      ground (
        arith,
        L.is_true_lem v (is_non_zero b) h,
        truth-negate L v (is_zero b),
        truth-equal L v b (S.bv_val 0 (width b)) w,
        ==_iff (bits v b) (bits v (S.bv_val 0 (width b))),
      )

  -- The two forms that `match_quotient` finds.
  match_quotient_lem :
      (s a b b2 : Term)
      → match_quotient s ≡ some ((a, b), b2)
      → ((s ≡ bvmul (bvudiv a b) b2) ⊎ (s ≡ bvmul b2 (bvudiv a b))) × (width a ≡ width b)
  unfolding match_quotient
  match_quotient_lem s a b b2 h = elim (Option-cases (match_binary_op mul_kind s)) [
    | inl e ↦ absurd (ground arith)
    | inr ((x, y), e) ↦
        let f = match_mul L s x y e in
        elim (Option-cases (match_binary_op udiv_kind x)) [
          | inr ((c, d), g) ↦
              let p : c ≡ a = ground arith in
              let q : d ≡ b = ground arith in
              let r : y ≡ b2 = ground arith in
              let k = match_udiv L x c d g in
              (inl (rw (f, k, p, q, r)), rw (← p, ← q) (match_udiv-width L x c d g))
          | inl g ↦ elim (Option-cases (match_binary_op udiv_kind y)) [
            | inl m ↦ absurd (ground arith)
            | inr ((c, d), m) ↦
                let p : c ≡ a = ground arith in
                let q : d ≡ b = ground arith in
                let r : x ≡ b2 = ground arith in
                let k = match_udiv L y c d m in
                (inr (rw (f, k, p, q, r)), rw (← p, ← q) (match_udiv-width L y c d m))
          ]
        ]
  ]

  quotient-width :
      (s a b : Term)
      → (s ≡ bvmul (bvudiv a b) b) ⊎ (s ≡ bvmul b (bvudiv a b))
      → width a ≡ width b
      → width s ≡ width a
  quotient-width s a b f w = elim f [
    | inl e ↦ rw e (L.width-bvmul (bvudiv a b) b ∙ L.width-bvudiv a b)
    | inr e ↦ rw e (L.width-bvmul b (bvudiv a b) ∙ sym w)
  ]

  -- The value of a quotient times its divisor, in either order of the factors.
  quotient-bits :
      (s a b : Term)
      → (s ≡ bvmul (bvudiv a b) b) ⊎ (s ≡ bvmul b (bvudiv a b))
      → width a ≡ width b
      → bits v b ≢ 0
      → bits v s ≡ bits v a / bits v b * bits v b % 2 ^ width a
  quotient-bits s a b f w n =
      let d : bits v (bvudiv a b) ≡ bits v a / bits v b = ground (arith, L.bits-bvudiv v a b) in
      elim f [
        | inl e ↦ rw e (rw (L.bits-bvmul v (bvudiv a b) b, L.width-bvudiv a b, d) refl)
        | inr e ↦ rw e (
            rw (L.bits-bvmul v b (bvudiv a b), d, w, mul_comm (bits v b) (bits v a / bits v b))
              refl)
      ]

  rest_term :
      (t a b : Term)
      → match_binary_op urem_kind t ≡ some (a, b)
      → bits v b ≢ 0
      → bits v t ≡ bits v a % bits v b
  rest_term t a b e n = rw (match_urem L t a b e) (ground (arith, L.bits-bvurem v a b))

  whole_lem :
      (s t r : Term)
      → width s ≤ 64
      → whole s t ≡ some r
      → bits v r ≡ (bits v s + bits v t) % 2 ^ width s
  unfolding whole
  whole_lem s t r w h = elim (Option-cases (match_quotient s)) [
    | inl e ↦ absurd (ground arith)
    | inr (((a, b), b2), e) ↦ elim (Option-cases (match_binary_op urem_kind t)) [
      | inl f ↦ absurd (ground arith)
      | inr ((a2, b3), f) ↦
          let (k, p) = match_quotient_lem s a b b2 e in
          let i2 : b ≡ b2 = L.identical_lem b b2 (ground arith) in
          let ia : a ≡ a2 = L.identical_lem a a2 (ground arith) in
          let i3 : b ≡ b3 = L.identical_lem b b3 (ground arith) in
          let nz : is_true (is_non_zero b) ≡ true = ground arith in
          let g : a ≡ r = ground arith in
          let k' = rw (← i2) at k in
          let ws = quotient-width s a b k' p in
          let n = non_zero b (rw (← p, ← ws) w) nz in
          rw (← g, ws, quotient-bits s a b k' p n, rest_term t a b (rw (ia, i3) f) n)
            (sym (quotient_and_rest (bits v a) (bits v b) (2 ^ width a) (L.bits-lt v a)))
    ]
  ]

  whole-width : (s t r : Term) → whole s t ≡ some r → width r ≡ width s
  unfolding whole
  whole-width s t r h = elim (Option-cases (match_quotient s)) [
    | inl e ↦ absurd (ground arith)
    | inr (((a, b), b2), e) ↦ elim (Option-cases (match_binary_op urem_kind t)) [
      | inl f ↦ absurd (ground arith)
      | inr ((a2, b3), f) ↦
          let (k, p) = match_quotient_lem s a b b2 e in
          let i2 : b ≡ b2 = L.identical_lem b b2 (ground arith) in
          let g : a ≡ r = ground arith in rw (← g) (sym (quotient-width s a b (rw (← i2) at k) p))
    ]
  ]

  pub width-add_terms : (a b : Term) → width (add_terms a b) ≡ width a
  unfolding add_terms
  width-add_terms a b = elim (Option-cases (whole a b)) [
    | inl e ↦ rw (e, add_terms) (L.width-bvadd a b)
    | inr (r, e) ↦ rw (e, add_terms) (whole-width a b r e)
  ]

  add_terms-bits :
      (a b : Term) → width a ≤ 64 → bits v (add_terms a b) ≡ (bits v a + bits v b) % 2 ^ width a
  unfolding add_terms
  add_terms-bits a b w = elim (Option-cases (whole a b)) [
    | inl e ↦ rw (e, add_terms) (L.bits-bvadd v a b)
    | inr (r, e) ↦ rw (e, add_terms) (whole_lem a b r w e)
  ]

  -- `operator+` adds modulo 2 ^ w, for terms of one width w of at most 64.
  pub bits-add :
      (a b : Term)
      → width a ≡ width b
      → width a ≤ 64
      → bits v (add a b) ≡ (bits v a + bits v b) % 2 ^ width a
  unfolding add
  bits-add a b w s = elim (Option-cases (numeral? a)) [
    | inl e ↦ elim (Option-cases (numeral? b)) [
      | inl g ↦ rw (e, g, add) (add_terms-bits a b s)
      | inr (y, g) ↦ elim (Bool-cases (y == 0)) [
        | inr z ↦ rw (e, g, add, z) (add_terms-bits a b s)
        | inl z ↦
            let ey : bits v b ≡ 0 = (L.numeral_lem v b y g).0 ∙ (==_iff y 0).0 z in
            rw (e, g, add, z, ey) (sym (plus_zero (bits v a) _ (L.bits-lt v a)))
      ]
    ]
    | inr (x, e) ↦
        let ex = (L.numeral_lem v a x e).0 in
        elim (Option-cases (numeral? b)) [
          | inr (y, g) ↦
              let ey = (L.numeral_lem v b y g).0 in
              rw (e, g, add, mk_bv, L.bits-bv_val v, ex, ey, w)
                (mod-mod_pow (x + y) (width b) 64 (rw (← w) s))
          | inl g ↦ elim (Bool-cases (x == 0)) [
            | inr z ↦ rw (e, g, add, z) (add_terms-bits a b s)
            | inl z ↦
                let n : bits v a ≡ 0 = ex ∙ (==_iff x 0).0 z in
                rw (e, g, add, z, n, w) (sym (zero_plus (bits v b) _ (L.bits-lt v b)))
          ]
        ]
  ]
