-- ===== src/Floats/Bits.antt =====
-- The parts of an abstract floating-point number of src/abstractops.cpp as numbers: its sign, its
-- magnitude, and the reserved values.
use native.Mathlib.Nat.{mod-eq_of_lt, div-lt_iff_lt-mul, pow-suc, pow-le-pow_right, div-one}
use mlir_tv.Base.{
  ℕ, suc, ◌+◌, ◌-◌, ◌/◌, ◌%◌, ◌^◌, ◌≤◌, ◌<◌, ◌≡◌, Bool, true, false, inl, inr, refl, sym, ap, ◌∙◌,
  arith, ◌==◌, Option-cases, if◌then◌else◌,
}
use mlir_tv.Base.Pow.{pow-pos}
use mlir_tv.Smt.Terms.{Smt, IsSmt, eq_kind}
use mlir_tv.Smt.Match.{match_binary_op}
use mlir_tv.Smt.Arith.{mk_bv}
use mlir_tv.Smt.Arith.Slice.{bits-extract}
use mlir_tv.Smt.Logic.{mk_ite, ite_of_eq, mk_ite_branch}
use mlir_tv.Smt.Compare.{equal}
use mlir_tv.Smt.Compare.Equal.{truth-equal}
use mlir_tv.Smt.Words.Width.{width-extract}
use mlir_tv.Floats.{
  Fpa, FpEncoding, value_bitwidth, fp_bitwidth, nan_value, inf_value, signed_value, nan, infinity,
  zero, get_sign_bit, get_magnitude_bits, is_nan, is_inf, is_zero_fp, canonical,
}

-- Half of the numbers with a sign bit.
pub double_pow : (w : ℕ) → 2 ^ (1 + w) ≡ 2 ^ w + 2 ^ w
double_pow w = let e : 1 + w ≡ suc w = omega arith in rw e (omega (arith, pow-suc 2 w))

-- There are at least four magnitudes.
pub four_le : (w : ℕ) → 2 ≤ w → 4 ≤ 2 ^ w
four_le w h = pow-le-pow_right {n = 2} (omega arith) h

sign_again : (n w : ℕ) → n < 2 ^ (1 + w) → n / 2 ^ w % 2 ^ (1 + w - 1 + 1 - w) ≡ n / 2 ^ w
sign_again n w p =
    let e : 1 + w - 1 + 1 - w ≡ 1 = omega arith in
    let lt : n / 2 ^ w < 2 = (div-lt_iff_lt-mul (pow-pos w)).1 (omega (arith, p, double_pow w)) in
    rw e (mod-eq_of_lt lt)

magnitude_again : (n w : ℕ) → 2 ≤ w → n / 1 % 2 ^ (w - 1 + 1 - 0) ≡ n % 2 ^ w
magnitude_again n w p = let e : w - 1 + 1 - 0 ≡ w = omega arith in rw (e, div-one n) refl

pub not_taken {ℓ} : {A : Type ℓ} (t : Bool) (a b : A) → t ≡ false → (if t then a else b) ≡ b
not_taken t a b h = rw h refl

module _ ⦃S : Smt⦄ (L : IsSmt S) (v : S.Valuation) where
  open S use {Term, bits, truth, width, is_bool}

  either_width :
      (t : Bool) (a b : Term) (n : ℕ) → width a ≡ n → width b ≡ n → width (if t then a else b) ≡ n
  either_width true a b n p q = p
  either_width false a b n p q = q

  -- `mkIte` at two bit-vectors of one width.
  pub bits-pick :
      (c a b : Term) (n : ℕ)
      → 0 < n
      → width a ≡ n
      → width b ≡ n
      → bits v (mk_ite c a b) ≡ (if truth v c then bits v a else bits v b)
  bits-pick c a b n z p q =
      (mk_ite_branch L v c a b (L.is_bool-width a (rw p (omega arith)))
        (L.is_bool-width b (rw q (omega arith)))).bits_eq
      ∙ pick (truth v c)
    where
      pick : (t : Bool) → bits v (if t then a else b) ≡ (if t then bits v a else bits v b)
      pick true = refl
      pick false = refl

  width-ite_of_eq : (c a b : Term) (n : ℕ) → width a ≡ n → width b ≡ n → width (ite_of_eq c a b) ≡ n
  unfolding ite_of_eq
  width-ite_of_eq c a b n p q =
      let e = L.width-ite_ c a b (p ∙ sym q) ∙ p in
      elim (Option-cases (match_binary_op eq_kind c)) [
        | inl m ↦ rw (m, ite_of_eq) e
        | inr ((l, r), m) ↦ rw (m, ite_of_eq) (either_width _ b (S.ite_ c a b) n q e)
      ]

  pub width-pick :
      (c a b : Term) (n : ℕ) → 0 < n → width a ≡ n → width b ≡ n → width (mk_ite c a b) ≡ n
  unfolding mk_ite
  width-pick c a b n z p q =
      let ha = L.is_bool-width a (rw p (omega arith)) in
      let hb = L.is_bool-width b (rw q (omega arith)) in
      let e = width-ite_of_eq c a b n p q in
      ground (arith, ha, hb, L.is_bool-is_true a, L.is_bool-is_false b)

  module _ ⦃P : Fpa⦄ (E : FpEncoding) where
    -- The encoding is an abstract one, and its magnitudes have between 2 and 63 bits.
    pub record IsAbstract : Type 0 where
      pub abstract : E.use_ieee754 ≡ false
      pub enough : 2 ≤ value_bitwidth E
      pub small : value_bitwidth E ≤ 63

    -- A term of the encoding's sort.
    abbrev pub IsFp : Term → Type 0
    IsFp f = width f ≡ 1 + value_bitwidth E

    -- The sign and the magnitude of a number.
    abbrev pub sign : ℕ → ℕ
    sign n = n / 2 ^ value_bitwidth E

    abbrev pub magnitude : ℕ → ℕ
    magnitude n = n % 2 ^ value_bitwidth E

    pub width-sign : (f : Term) → width (get_sign_bit E f) ≡ 1
    unfolding get_sign_bit fp_bitwidth
    width-sign f = width-extract L _ _ f (omega arith) ∙ omega arith

    pub bits-sign : (f : Term) → IsFp f → bits v (get_sign_bit E f) ≡ sign (bits v f)
    unfolding get_sign_bit fp_bitwidth
    bits-sign f p =
        let w = value_bitwidth E in
        bits-extract L v (1 + w - 1) w f (omega arith)
        ∙ sign_again (bits v f) w (rw (← p) (L.bits-lt v f))

    module _ (A : IsAbstract) where
      pub width-magnitude : (f : Term) → width (get_magnitude_bits E f) ≡ value_bitwidth E
      unfolding get_magnitude_bits
      width-magnitude f = width-extract L _ _ f (omega arith) ∙ omega (arith, A.enough)

      pub bits-magnitude : (f : Term) → bits v (get_magnitude_bits E f) ≡ magnitude (bits v f)
      unfolding get_magnitude_bits
      bits-magnitude f =
          bits-extract L v (value_bitwidth E - 1) 0 f (omega arith)
          ∙ magnitude_again (bits v f) (value_bitwidth E) A.enough

      -- The reserved values.
      pub bits-nan : bits v (nan E) ≡ nan_value (value_bitwidth E)
      unfolding nan mk_bv fp_bitwidth nan_value
      bits-nan =
          let w = value_bitwidth E in
          rw (nan, A.abstract, L.bits-bv_val v (nan_value w) (1 + w))
            (mod-eq_of_lt (grind (arith, double_pow w, pow-pos w)))

      pub bits-infinity :
          (s : Bool)
          → bits v (infinity E s) ≡ signed_value s (value_bitwidth E) + inf_value (value_bitwidth E)
      unfolding infinity mk_bv fp_bitwidth inf_value signed_value
      bits-infinity true =
          let w = value_bitwidth E in
          rw (infinity, A.abstract, L.bits-bv_val v (signed_value true w + inf_value w) (1 + w))
            (mod-eq_of_lt (grind (arith, double_pow w, pow-pos w, four_le w A.enough)))
      bits-infinity false =
          let w = value_bitwidth E in
          rw (infinity, A.abstract, L.bits-bv_val v (signed_value false w + inf_value w) (1 + w))
            (mod-eq_of_lt (grind (arith, double_pow w, pow-pos w, four_le w A.enough)))

      pub bits-zero : (s : Bool) → bits v (zero E s) ≡ signed_value s (value_bitwidth E)
      unfolding zero mk_bv fp_bitwidth signed_value
      bits-zero true =
          let w = value_bitwidth E in
          rw (zero, A.abstract, L.bits-bv_val v (signed_value true w) (1 + w))
            (mod-eq_of_lt (grind (arith, double_pow w, pow-pos w, four_le w A.enough)))
      bits-zero false =
          let w = value_bitwidth E in
          rw (zero, A.abstract, L.bits-bv_val v (signed_value false w) (1 + w))
            (mod-eq_of_lt (grind (arith, double_pow w, pow-pos w, four_le w A.enough)))

      pub nan-IsFp : IsFp (nan E)
      unfolding nan mk_bv fp_bitwidth
      nan-IsFp = rw (nan, A.abstract) (L.width-bv_val _ _)

      pub infinity-IsFp : (s : Bool) → IsFp (infinity E s)
      unfolding infinity mk_bv fp_bitwidth
      infinity-IsFp s = rw (infinity, A.abstract) (L.width-bv_val _ _)

      pub zero-IsFp : (s : Bool) → IsFp (zero E s)
      unfolding zero mk_bv fp_bitwidth
      zero-IsFp s = rw (zero, A.abstract) (L.width-bv_val _ _)

      -- Equations of numbers, and the tests for the reserved values.
      pub truth-same : (f g : Term) → IsFp f → truth v (equal f g) ≡ (bits v f == bits v g)
      truth-same f g p = truth-equal L v f g (rw p (omega (arith, A.small)))

      pub truth-same_magnitude :
          (f g : Term)
          → truth v (equal (get_magnitude_bits E f) (get_magnitude_bits E g))
            ≡ (magnitude (bits v f) == magnitude (bits v g))
      truth-same_magnitude f g =
          truth-equal L v (get_magnitude_bits E f) (get_magnitude_bits E g)
            (rw (width-magnitude f) (omega (arith, A.small)))
          ∙ rw (bits-magnitude f, bits-magnitude g) refl

      pub truth-is_nan :
          (f : Term) → truth v (is_nan E f) ≡ (magnitude (bits v f) == nan_value (value_bitwidth E))
      unfolding is_nan nan_value
      truth-is_nan f =
          let w = value_bitwidth E in
          let e : magnitude (bits v (nan E)) ≡ nan_value w =
            ap (λ (n : ℕ). n % 2 ^ w) bits-nan ∙ mod-eq_of_lt (omega (arith, pow-pos w)) in
          ap (truth v) (not_taken E.use_ieee754 _ _ A.abstract)
          ∙ truth-same_magnitude f (nan E)
          ∙ ap (λ (n : ℕ). bits v f % 2 ^ w == n) e

      pub truth-is_inf :
          (f : Term) (s : Bool)
          → IsFp f
          → truth v (is_inf E f s)
            ≡ (bits v f == signed_value s (value_bitwidth E) + inf_value (value_bitwidth E))
      unfolding is_inf
      truth-is_inf f s p =
          truth-same f (infinity E s) p ∙ ap (λ (n : ℕ). bits v f == n) (bits-infinity s)

      pub truth-is_zero_fp :
          (f : Term) (s : Bool)
          → IsFp f
          → truth v (is_zero_fp E f s) ≡ (bits v f == signed_value s (value_bitwidth E))
      unfolding is_zero_fp
      truth-is_zero_fp f s p =
          truth-same f (zero E s) p ∙ ap (λ (n : ℕ). bits v f == n) (bits-zero s)

      -- A NaN in its one form.
      pub canonical-IsFp : (f : Term) → IsFp f → IsFp (canonical E f)
      unfolding canonical
      canonical-IsFp f p = width-pick _ (nan E) f _ (omega arith) nan-IsFp p

      pub bits-canonical :
          (f : Term)
          → IsFp f
          → bits v (canonical E f) ≡ (
              if magnitude (bits v f) == nan_value (value_bitwidth E)
              then nan_value (value_bitwidth E)
              else bits v f)
      unfolding canonical
      bits-canonical f p =
          bits-pick _ (nan E) f _ (omega arith) nan-IsFp p ∙ rw (truth-is_nan f, bits-nan) refl
