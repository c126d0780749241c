-- ===== src/Smt/Words/Wrap.antt =====
-- The meaning of `operator-` and `operator*` of src/smt.cpp at widths of at most 64 bits.
use native.Mathlib.Nat.{
  mul-add, add-mul-mod_self_left, mod-eq_of_lt, mul-one, one-mul, zero-mul, mul-zero,
}
use mlir_tv.Base.{
  ◌+◌, ◌-◌, ◌<◌, Bool-cases, ℕ, ◌*◌, ◌%◌, ◌^◌, ◌≤◌, ◌≡◌, inl, inr, if◌then◌else◌, ◌==◌, ==_iff,
  arith, Option-cases, sym, ap, ◌∙◌,
}
use mlir_tv.Base.Pow.{pow-add, split-mod, mod-mod_pow, pow-pos}
use mlir_tv.Smt.Terms.{Smt, IsSmt}
use mlir_tv.Smt.Arith.{mk_bv}
use mlir_tv.Smt.Words.{sub, mul}

mul_pred : (m q : ℕ) → 0 < q → m * q ≡ m + m * (q - 1)
mul_pred m q h =
    let e : q ≡ 1 + (q - 1) = omega arith in
    ap (λ (j : ℕ). m * j) e ∙ mul-add m 1 (q - 1) ∙ ap (λ (j : ℕ). j + m * (q - 1)) (mul-one m)

wrap_zero : (n m : ℕ) → n < m → (n + m - 0) % m ≡ n
wrap_zero n m h =
    let e : n + m - 0 ≡ 1 * m + n = omega arith in ap (λ (j : ℕ). j % m) e ∙ split-mod 1 m n h

module _ ⦃S : Smt⦄ (L : IsSmt S) (v : S.Valuation) where
  open S use {Term, bits, width, numeral?, is_true, bvmul}

  one_times : (a : Term) → bits v a ≡ 1 * bits v a % 2 ^ width a
  one_times a =
      sym (ap (λ (j : ℕ). j % 2 ^ width a) (one-mul (bits v a)) ∙ mod-eq_of_lt (L.bits-lt v a))

  times_one : (a : Term) → bits v a ≡ bits v a * 1 % 2 ^ width a
  times_one a =
      sym (ap (λ (j : ℕ). j % 2 ^ width a) (mul-one (bits v a)) ∙ mod-eq_of_lt (L.bits-lt v a))

  unit_or_zero :
      (x n : ℕ) (s t u : Term)
      → (x ≡ 1 → bits v s ≡ n)
      → (x ≡ 0 → bits v t ≡ n)
      → bits v u ≡ n
      → bits v (if x == 1 then s else if x == 0 then t else u) ≡ n
  unit_or_zero x n s t u p q r = ground (arith, ==_iff x 1, ==_iff x 0)

  -- `operator*` multiplies modulo 2 ^ w, for terms of one width w of at most 64.
  pub bits-mul :
      (a b : Term)
      → width a ≡ width b
      → width a ≤ 64
      → bits v (mul a b) ≡ (bits v a * bits v b) % 2 ^ width a
  unfolding mul
  bits-mul a b w s = elim (Option-cases (numeral? b)) [
    | inl e ↦ elim (Option-cases (numeral? a)) [
      | inl g ↦ rw (e, g, mul) (L.bits-bvmul v a b)
      | inr (x, g) ↦
          let ex = (L.numeral_lem v a x g).0 in
          rw (e, g, mul)
            (unit_or_zero x _ b a (bvmul a b) (λ k. rw (ex, k, w) (one_times b))
              (λ k. rw (ex, k, zero-mul (bits v b)) (sym (mod-eq_of_lt (pow-pos (width a)))))
              (L.bits-bvmul v a b))
    ]
    | inr (y, e) ↦
        let ey = (L.numeral_lem v b y e).0 in
        elim (Option-cases (numeral? a)) [
          | inl g ↦
              rw (e, g, mul)
                (unit_or_zero y _ a b (bvmul a b) (λ k. rw (ey, k) (times_one a))
                  (λ k. rw (ey, k, mul-zero (bits v a)) (sym (mod-eq_of_lt (pow-pos (width a)))))
                  (L.bits-bvmul v a b))
          | inr (x, g) ↦
              let ex = (L.numeral_lem v a x g).0 in
              rw (e, g, mul, mk_bv, L.bits-bv_val v, ex, ey, w)
                (mod-mod_pow (x * y) (width b) 64 (rw (← w) s))
        ]
  ]

  -- A constant difference wraps at 2 ^ 64 and is cut to the width.
  wrap_sub :
      (x y w : ℕ) → w ≤ 64 → y < 2 ^ w → (x + 2 ^ 64 - y) % 2 ^ 64 % 2 ^ w ≡ (x + 2 ^ w - y) % 2 ^ w
  wrap_sub x y w h lt =
      let q = 2 ^ (64 - w) in
      let k : w + (64 - w) ≡ 64 = omega arith in
      let e : 2 ^ 64 ≡ 2 ^ w * q = ap (λ (j : ℕ). 2 ^ j) (sym k) ∙ pow-add w (64 - w) in
      let p = pow-pos (64 - w) in
      let f : x + 2 ^ 64 - y ≡ x + 2 ^ w - y + 2 ^ w * (q - 1) =
        omega (arith, e, mul_pred (2 ^ w) q p) in
      mod-mod_pow (x + 2 ^ 64 - y) w 64 h
      ∙ ap (λ (j : ℕ). j % 2 ^ w) f
      ∙ add-mul-mod_self_left (x + 2 ^ w - y) (2 ^ w) (q - 1)

  -- `operator-` subtracts modulo 2 ^ w, for terms of one width w of at most 64.
  pub bits-sub :
      (a b : Term)
      → width a ≡ width b
      → width a ≤ 64
      → bits v (sub a b) ≡ (bits v a + 2 ^ width a - bits v b) % 2 ^ width a
  unfolding sub
  bits-sub a b w s = elim (Option-cases (numeral? b)) [
    | inl e ↦ rw (e, sub) (L.bits-bvsub v a b)
    | inr (y, e) ↦
        let ey = (L.numeral_lem v b y e).0 in
        elim (Option-cases (numeral? a)) [
          | inr (x, g) ↦
              let ex = (L.numeral_lem v a x g).0 in
              rw (e, g, sub, mk_bv, L.bits-bv_val v, ex, ey, w)
                (wrap_sub x y (width b) (rw (← w) s) (rw (← ey) (L.bits-lt v b)))
          | inl g ↦ elim (Bool-cases (y == 0)) [
            | inr z ↦ rw (e, g, sub, z) (L.bits-bvsub v a b)
            | inl z ↦
                let n : y ≡ 0 = (==_iff y 0).0 z in
                rw (e, g, sub, z, ey, n) (sym (wrap_zero (bits v a) (2 ^ width a) (L.bits-lt v a)))
          ]
        ]
  ]
