-- ===== src/Floats/Sum.antt =====
-- `AbsFpEncoding::add` of src/abstractops.cpp, where it does not go through `sum`, against the special
-- cases of the standard's sum.
pub mod Called
use Prim.Native.Nat.{bit_and}
use mlir_tv.Base.{
  ℕ, suc, ◌+◌, ◌-◌, ◌%◌, ◌^◌, ◌<◌, ◌≡◌, true, false, refl, sym, ap, ◌∙◌, ◌==◌, [], ◌∷◌,
}
use mlir_tv.Smt.Terms.{Smt, IsSmt}
use mlir_tv.Smt.Arith.Log.{bit_and_comm}
use mlir_tv.Smt.Logic.{or, and}
use mlir_tv.Smt.Compare.{equal}
use mlir_tv.Smt.Compare.Under.{HasDivisors}
use mlir_tv.Floats.{
  Fpa, FpEncoding, value_bitwidth, nan_value, signed_value, nan, zero, get_magnitude_bits, is_inf,
  is_any_inf, canonical,
}
use mlir_tv.Floats.Arith.{get_add_fn, both_orders, plain_sum, signed_sum, sum_of, add_terms}
use mlir_tv.Floats.Bits.{
  IsAbstract, IsFp, magnitude, bits-nan, bits-zero, nan-IsFp, truth-same, canonical-IsFp,
  bits-canonical, double_pow, four_le, not_taken,
}
use mlir_tv.Floats.Ieee.{decode, encode, IsFloat, ieee_add, canonical_number, ieee_add_comm}
use mlir_tv.Floats.Add.{add_value, add_value_lem}
use mlir_tv.Floats.Signed.{
  choice-IsFp, bits-choice, signed_sum-IsFp, bits-signed_sum, truth-is_any_inf, truth-opposite,
  plain_sum-lt, bits-plain_sum,
}

module _ ⦃S : Smt⦄ (L : IsSmt S) (v : S.Valuation) ⦃P : Fpa⦄ (E : FpEncoding)
    (A : IsAbstract L v E) where
  open S use {Term, bits, truth, width, apply_, bvand}

  -- The value of `sum_of`, and its sort.
  sum_of-bits :
      (f g : Term)
      → IsFp L v E f
      → IsFp L v E g
      → HasDivisors L v (suc (value_bitwidth E)) (get_magnitude_bits E g)
      → (bits v (sum_of E f g)
          ≡ add_value
              (2 ^ value_bitwidth E)
              (magnitude L v E (bits v (plain_sum E f g)))
              (bits v f)
              (bits v g))
        × IsFp L v E (sum_of E f g)
  unfolding sum_of signed_value nan_value
  sum_of-bits f g p q d =
      let i7 =
        choice-IsFp L v E A (is_any_inf E g) g (signed_sum E f g) q (signed_sum-IsFp L v E A f g) in
      let i6 = choice-IsFp L v E A (is_any_inf E f) f _ p i7 in
      let i5 =
        choice-IsFp L v E A
          (or (and (is_inf E f false) (is_inf E g true)) (and (is_inf E f true) (is_inf E g false)))
          (nan E) _ (nan-IsFp L v E A) i6 in
      let i4 = choice-IsFp L v E A (equal g (nan E)) g _ q i5 in
      let i3 = choice-IsFp L v E A (equal f (nan E)) f _ p i4 in
      let i2 = choice-IsFp L v E A (equal g (zero E true)) f _ p i3 in
      let zero_test : (h : Term)
          → IsFp L v E h
          → truth v (equal h (zero E true)) ≡ (bits v h == 2 ^ value_bitwidth E) =
        λ h i. truth-same L v E A h (zero E true) i ∙ rw (bits-zero L v E A true) refl in
      let nan_test : (h : Term)
          → IsFp L v E h
          → truth v (equal h (nan E)) ≡ (bits v h == 2 ^ value_bitwidth E - 1) =
        λ h i. truth-same L v E A h (nan E) i ∙ rw (bits-nan L v E A) refl in
      (
        bits-choice L v E A _ g _ _ q i2 (zero_test f p)
            ∙ rw
                (
                  bits-choice L v E A (equal g (zero E true)) f _ _ p i3 (zero_test g q),
                  bits-choice L v E A (equal f (nan E)) f _ _ p i4 (nan_test f p),
                  bits-choice L v E A (equal g (nan E)) g _ _ q i5 (nan_test g q),
                  bits-choice L v E A
                      (or (and (is_inf E f false) (is_inf E g true))
                        (and (is_inf E f true) (is_inf E g false)))
                      (nan E) _ _ (nan-IsFp L v E A) i6 (truth-opposite L v E A f g p q),
                  bits-nan L v E A,
                  bits-choice L v E A (is_any_inf E f) f _ _ p i7 (truth-is_any_inf L v E A f p),
                  bits-choice L v E A (is_any_inf E g) g (signed_sum E f g) _ q
                      (signed_sum-IsFp L v E A f g) (truth-is_any_inf L v E A g q),
                  bits-signed_sum L v E A f g p q d,
                )
                refl,
        choice-IsFp L v E A (equal f (zero E true)) g _ q i2,
      )

  canonical-decode :
      (f : Term)
      → IsFp L v E f
      → (let p = 2 ^ value_bitwidth E in
          (decode p (bits v (canonical E f)) ≡ decode p (bits v f))
          × (encode p (decode p (bits v f)) ≡ bits v (canonical E f))
          × IsFloat p (decode p (bits v f)))
  unfolding nan_value
  canonical-decode f i =
      let w = value_bitwidth E in
      let lt : bits v f < 2 ^ w + 2 ^ w = rw (← double_pow w, ← i) (L.bits-lt v f) in
      rw (bits-canonical L v E A f i) (canonical_number (2 ^ w) (bits v f) (four_le w A.enough) lt)

  -- `add` with its arithmetic properties, where it does not go through `sum`, of two numbers of an
  -- abstract encoding whose magnitudes have 2 to 63 bits: NaN and the infinities are as IEEE 754 has
  -- them, -0.0 is neutral, a sum of numbers of one sign has that sign, x + -x is 0.0, and one of other
  -- opposite signs has the sign of the larger magnitude. Where these leave the magnitude open, also
  -- where an operand is 0.0, it is what the uninterpreted function gives. The magnitude of the second
  -- number contains no remainder by the constant 0.
  pub add_lem :
      (f g : Term)
      → IsFp L v E f
      → IsFp L v E g
      → HasDivisors L v (suc (value_bitwidth E)) (get_magnitude_bits E (canonical E g))
      → (let p = 2 ^ value_bitwidth E in
          decode p (bits v (add_terms true E f g))
          ≡ ieee_add p
              (magnitude L v E (bits v (plain_sum E (canonical E f) (canonical E g))))
              (decode p (bits v f))
              (decode p (bits v g)))
  unfolding add_terms
  add_lem f g i j d =
      let p = 2 ^ value_bitwidth E in
      let c = canonical E f in
      let e = canonical E g in
      let (_, ef, kf) = canonical-decode f i in
      let (_, eg, kg) = canonical-decode g j in
      let r = magnitude L v E (bits v (plain_sum E c e)) in
      let s = (sum_of-bits c e (canonical-IsFp L v E A f i) (canonical-IsFp L v E A g j) d).0 in
      ap (λ t. decode p (bits v t)) (not_taken E.use_ieee754 _ (sum_of E c e) A.abstract)
      ∙ ap (decode p) s
      ∙ ap (λ (n : ℕ). decode p (add_value p r n (bits v e))) (sym ef)
      ∙ ap (λ (n : ℕ). decode p (add_value p r (encode p (decode p (bits v f))) n)) (sym eg)
      ∙ add_value_lem p r (four_le (value_bitwidth E) A.enough) (plain_sum-lt L v E A c e)
          (decode p (bits v f)) (decode p (bits v g)) kf kg

  -- The function is used in both orders.
  both_orders_comm : (f g : Term) → bits v (both_orders E f g) ≡ bits v (both_orders E g f)
  unfolding both_orders
  both_orders_comm f g =
      let a = apply_ (get_add_fn E) (f ∷ g ∷ []) in
      let b = apply_ (get_add_fn E) (g ∷ f ∷ []) in
      let w : width a ≡ width b = L.width-apply_ _ _ ∙ sym (L.width-apply_ _ _) in
      L.bits-bvand v a b
      ∙ ap (λ (n : ℕ). n % 2 ^ width a) (bit_and_comm (bits v a) (bits v b))
      ∙ ap (λ (n : ℕ). bit_and (bits v b) (bits v a) % 2 ^ n) w
      ∙ sym (L.bits-bvand v b a)

  plain_sum_comm : (f g : Term) → bits v (plain_sum E f g) ≡ bits v (plain_sum E g f)
  plain_sum_comm f g =
      bits-plain_sum L v E A f g ∙ rw (both_orders_comm f g) refl ∙ sym (bits-plain_sum L v E A g f)

  -- `add` with its arithmetic properties, where it does not go through `sum`, is commutative, for an
  -- abstract encoding whose magnitudes have 2 to 63 bits and contain no remainder by the constant 0.
  pub add_comm :
      (f g : Term)
      → IsFp L v E f
      → IsFp L v E g
      → HasDivisors L v (suc (value_bitwidth E)) (get_magnitude_bits E (canonical E f))
      → HasDivisors L v (suc (value_bitwidth E)) (get_magnitude_bits E (canonical E g))
      → (let p = 2 ^ value_bitwidth E in
          decode p (bits v (add_terms true E f g)) ≡ decode p (bits v (add_terms true E g f)))
  add_comm f g i j d e =
      let p = 2 ^ value_bitwidth E in
      add_lem f g i j e
      ∙ ap (λ (n : ℕ). ieee_add p (magnitude L v E n) (decode p (bits v f)) (decode p (bits v g)))
          (plain_sum_comm (canonical E f) (canonical E g))
      ∙ ieee_add_comm p _ (decode p (bits v f)) (decode p (bits v g))
      ∙ sym (add_lem g f j i d)
