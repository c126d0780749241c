-- ===== src/Floats/Signed.antt =====
-- The signs and magnitudes that `AbsFpEncoding::add` of src/abstractops.cpp puts together.
use native.Mathlib.Nat.{mod-eq_of_lt, mod-lt}
use mlir_tv.Base.{
  ℕ, suc, ◌+◌, ◌-◌, ◌*◌, ◌/◌, ◌%◌, ◌^◌, ◌≤◌, ◌<◌, ◌≡◌, Bool, true, false, ◌&&◌, ◌||◌, refl, sym,
  ◌∙◌, arith, ltb, ◌==◌, if◌then◌else◌, inl, inr, Bool-cases,
}
use mlir_tv.Smt.Terms.{Smt, IsSmt}
use mlir_tv.Smt.Arith.{concat}
use mlir_tv.Smt.Logic.{mk_ite, or, and, truth-or, truth-and}
use mlir_tv.Smt.Compare.{ult, equal}
use mlir_tv.Smt.Compare.Equal.{truth-equal}
use mlir_tv.Smt.Compare.Under.{HasDivisors, truth-ult}
use mlir_tv.Floats.{
  Fpa, FpEncoding, value_bitwidth, nan_value, inf_value, signed_value, zero, get_sign_bit,
  get_magnitude_bits, is_nan, is_inf, is_any_inf,
}
use mlir_tv.Floats.Arith.{get_add_fn, both_orders, plain_sum, larger_sign, signed_sum}
use mlir_tv.Floats.Bits.{
  IsAbstract, IsFp, magnitude, bits-pick, width-pick, width-sign, bits-sign, width-magnitude,
  bits-magnitude, bits-zero, zero-IsFp, truth-same_magnitude, truth-is_nan, truth-is_inf, four_le,
}

not_nan : (p n : ℕ) → 4 ≤ p → (if n % p == p - 1 then 0 else n) % p < p - 1
not_nan p n h = elim (Bool-cases (n % p == p - 1)) [
  | inl e ↦ let z : 0 % p ≡ 0 = mod-eq_of_lt (omega (arith, h)) in rw (e, z) (omega (arith, h))
  | inr e ↦ rw e (ground (arith, e, mod-lt n (let q : 0 < p = omega (arith, h) in q)))
]

module _ ⦃S : Smt⦄ (L : IsSmt S) (v : S.Valuation) ⦃P : Fpa⦄ (E : FpEncoding)
    (A : IsAbstract L v E) where
  open S use {Term, bits, truth, width, apply_, bvand}

  both_orders-IsFp : (f g : Term) → IsFp L v E (both_orders E f g)
  unfolding both_orders get_add_fn
  both_orders-IsFp f g = L.width-bvand _ _ ∙ L.width-apply_ _ _

  pub plain_sum-IsFp : (f g : Term) → IsFp L v E (plain_sum E f g)
  unfolding plain_sum
  plain_sum-IsFp f g =
      width-pick L v _ (zero E false) _ (1 + value_bitwidth E) (omega arith)
        (zero-IsFp L v E A false) (both_orders-IsFp f g)

  pub bits-plain_sum :
      (f g : Term)
      → bits v (plain_sum E f g) ≡ (
          let n = bits v (both_orders E f g) in
          let p = 2 ^ value_bitwidth E in if n % p == p - 1 then 0 else n)
  unfolding plain_sum nan_value signed_value
  bits-plain_sum f g =
      let t = both_orders E f g in
      bits-pick L v (is_nan E t) (zero E false) t (1 + value_bitwidth E) (omega arith)
        (zero-IsFp L v E A false) (both_orders-IsFp f g)
      ∙ rw (truth-is_nan L v E A t, bits-zero L v E A false) refl

  -- The magnitude that the function gives is no NaN's.
  pub plain_sum-lt :
      (f g : Term) → magnitude L v E (bits v (plain_sum E f g)) < 2 ^ value_bitwidth E - 1
  plain_sum-lt f g = rw (bits-plain_sum f g) (
      not_nan (2 ^ value_bitwidth E) (bits v (both_orders E f g))
        (four_le (value_bitwidth E) A.enough))

  -- A sign and a magnitude.
  joined-IsFp : (s m : Term) → width s ≡ 1 → IsFp L v E (concat s (get_magnitude_bits E m))
  unfolding concat
  joined-IsFp s m e = L.width-bvconcat s _ ∙ rw (e, width-magnitude L v E A m) refl

  bits-joined :
      (s m : Term)
      → bits v (concat s (get_magnitude_bits E m))
        ≡ bits v s * 2 ^ value_bitwidth E + magnitude L v E (bits v m)
  unfolding concat
  bits-joined s m =
      L.bits-bvconcat v s _ ∙ rw (width-magnitude L v E A m, bits-magnitude L v E A m) refl

  larger-width : (f g : Term) → width (larger_sign E f g) ≡ 1
  unfolding larger_sign
  larger-width f g = width-pick L v _ _ _ 1 (omega arith) (width-sign L v E f) (width-sign L v E g)

  pub signed_sum-IsFp : (f g : Term) → IsFp L v E (signed_sum E f g)
  unfolding signed_sum
  signed_sum-IsFp f g =
      let z : 0 < 1 + value_bitwidth E = omega arith in
      width-pick L v _ _ _ _ z (joined-IsFp _ (plain_sum E f g) (width-sign L v E f)) (
        width-pick L v _ _ _ _ z (zero-IsFp L v E A false)
          (joined-IsFp _ (plain_sum E f g) (larger-width f g)))

  bits-larger :
      (f g : Term)
      → IsFp L v E f
      → IsFp L v E g
      → HasDivisors L v (suc (value_bitwidth E)) (get_magnitude_bits E g)
      → bits v (larger_sign E f g) ≡ (
          let p = 2 ^ value_bitwidth E in
          if ltb (bits v g % p) (bits v f % p) then bits v f / p else bits v g / p)
  unfolding larger_sign
  bits-larger f g p q d =
      let w = value_bitwidth E in
      let wm : (h : Term) → width (get_magnitude_bits E h) ≡ w = width-magnitude L v E A in
      let t3 : truth v (ult (get_magnitude_bits E g) (get_magnitude_bits E f))
          ≡ ltb (bits v g % 2 ^ w) (bits v f % 2 ^ w) =
        truth-ult L v (get_magnitude_bits E g) (get_magnitude_bits E f) (wm g ∙ sym (wm f))
          (rw (wm g) (omega (arith, A.small))) (rw (wm g) d)
        ∙ rw (bits-magnitude L v E A g, bits-magnitude L v E A f) refl in
      bits-pick L v _ _ _ 1 (omega arith) (width-sign L v E f) (width-sign L v E g)
      ∙ rw (t3, bits-sign L v E f p, bits-sign L v E g q) refl

  pub bits-signed_sum :
      (f g : Term)
      → IsFp L v E f
      → IsFp L v E g
      → HasDivisors L v (suc (value_bitwidth E)) (get_magnitude_bits E g)
      → bits v (signed_sum E f g) ≡ (
          let p = 2 ^ value_bitwidth E in
          let r = magnitude L v E (bits v (plain_sum E f g)) in
          let a = bits v f in
          let b = bits v g in
          if a / p == b / p
          then a / p * p + r
          else if a % p == b % p
          then 0
          else (if ltb (b % p) (a % p) then a / p else b / p) * p + r)
  unfolding signed_sum concat signed_value
  bits-signed_sum f g p q d =
      let w = value_bitwidth E in
      let z : 0 < 1 + w = omega arith in
      let m = plain_sum E f g in
      let inner =
        mk_ite (equal (get_magnitude_bits E f) (get_magnitude_bits E g)) (zero E false)
          (concat (larger_sign E f g) (get_magnitude_bits E m)) in
      let t1 : truth v (equal (get_sign_bit E f) (get_sign_bit E g))
          ≡ (bits v f / 2 ^ w == bits v g / 2 ^ w) =
        truth-equal L v (get_sign_bit E f) (get_sign_bit E g)
          (rw (width-sign L v E f) (omega arith))
        ∙ rw (bits-sign L v E f p, bits-sign L v E g q) refl in
      let s3 = bits-larger f g p q d in
      let e2 =
        bits-pick L v (equal (get_magnitude_bits E f) (get_magnitude_bits E g)) (zero E false)
          (concat (larger_sign E f g) (get_magnitude_bits E m)) _ z (zero-IsFp L v E A false)
          (joined-IsFp _ m (larger-width f g)) in
      let e1 =
        bits-pick L v (equal (get_sign_bit E f) (get_sign_bit E g))
          (concat (get_sign_bit E f) (get_magnitude_bits E m)) inner _ z
          (joined-IsFp _ m (width-sign L v E f))
          (width-pick L v _ _ _ _ z (zero-IsFp L v E A false)
            (joined-IsFp _ m (larger-width f g))) in
      e1
      ∙ rw
          (
            t1,
            bits-joined (get_sign_bit E f) m,
            bits-sign L v E f p,
            e2,
            truth-same_magnitude L v E A f g,
            bits-zero L v E A false,
            bits-joined (larger_sign E f g) m,
            s3,
          )
          refl

  pub bits-choice :
      (c a b : Term) (t : Bool)
      → IsFp L v E a
      → IsFp L v E b
      → truth v c ≡ t
      → bits v (mk_ite c a b) ≡ (if t then bits v a else bits v b)
  bits-choice c a b t p q e = bits-pick L v c a b _ (omega arith) p q ∙ rw e refl

  pub choice-IsFp : (c a b : Term) → IsFp L v E a → IsFp L v E b → IsFp L v E (mk_ite c a b)
  choice-IsFp c a b p q = width-pick L v c a b _ (omega arith) p q

  pub truth-is_any_inf :
      (f : Term)
      → IsFp L v E f
      → truth v (is_any_inf E f)
        ≡ (let p = 2 ^ value_bitwidth E in bits v f == 0 + (p - 2) || bits v f == p + (p - 2))
  unfolding is_any_inf signed_value inf_value
  truth-is_any_inf f p =
      truth-or L v (is_inf E f false) (is_inf E f true)
      ∙ rw (truth-is_inf L v E A f false p, truth-is_inf L v E A f true p) refl

  pub truth-opposite :
      (f g : Term)
      → IsFp L v E f
      → IsFp L v E g
      → truth v
          (or (and (is_inf E f false) (is_inf E g true)) (and (is_inf E f true) (is_inf E g false)))
        ≡ (let p = 2 ^ value_bitwidth E in
            (bits v f == 0 + (p - 2) && bits v g == p + (p - 2))
            || (bits v f == p + (p - 2) && bits v g == 0 + (p - 2)))
  unfolding signed_value inf_value
  truth-opposite f g p q =
      truth-or L v _ _
      ∙ rw
          (
            truth-and L v (is_inf E f false) (is_inf E g true),
            truth-and L v (is_inf E f true) (is_inf E g false),
            truth-is_inf L v E A f false p,
            truth-is_inf L v E A f true p,
            truth-is_inf L v E A g false q,
            truth-is_inf L v E A g true q,
          )
          refl
