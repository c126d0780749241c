-- ===== src/Floats/Compare/Less.antt =====
-- The comparisons that `AbsFpEncoding::cmp` of src/abstractops.cpp is made of, against the order of
-- the numbers.
use native.Mathlib.Nat.{mod-eq_of_lt}
use mlir_tv.Base.{
  ℕ, suc, ◌+◌, ◌/◌, ◌%◌, ◌^◌, ◌<◌, ◌≡◌, Bool, true, false, ◌&&◌, ◌||◌, not, refl, sym, ap, ◌∙◌,
  arith, ltb, ◌==◌, if◌then◌else◌,
}
use mlir_tv.Base.Pow.{pow-pos}
use mlir_tv.Smt.Terms.{Smt, IsSmt}
use mlir_tv.Smt.Arith.{mk_bv}
use mlir_tv.Smt.Logic.{truth-or, truth-and, truth-negate, or, and, negate}
use mlir_tv.Smt.Compare.{ult, equal}
use mlir_tv.Smt.Compare.Equal.{truth-equal}
use mlir_tv.Smt.Compare.Under.{HasDivisors, truth-ult}
use mlir_tv.Smt.Words.{is_zero, is_non_zero}
use mlir_tv.Floats.{Fpa, FpEncoding, value_bitwidth, get_sign_bit, get_magnitude_bits}
use mlir_tv.Floats.Bits.{
  IsAbstract, IsFp, magnitude, width-sign, bits-sign, width-magnitude, bits-magnitude, truth-same,
  truth-same_magnitude, double_pow,
}
use mlir_tv.Floats.Ieee.{sign_value, parts-encode, split_sign}
use mlir_tv.Floats.Compare.{both_zero, cmp_eq, cmp_ne, cmp_by, cmp_lt, cmp_gt}
use mlir_tv.Floats.Compare.Rank.{
  rank, same_test, not_or, rank-parts, ranks_less, ranks_greater, ranks_equal,
}
use mlir_tv.Floats.Compare.Bit.{IsBit, choice-IsBit, true-IsBit, false-IsBit, IsBit-of_eq}

module _ ⦃S : Smt⦄ (L : IsSmt S) (v : S.Valuation) where
  open S use {Term, bits, truth, width, numeral?, xor_}

  module _ ⦃P : Fpa⦄ (E : FpEncoding) (A : IsAbstract L v E) where
    -- What the comparison of two numbers needs of their signs and magnitudes.
    pub record AreComparable (f g : Term) : Type 0 where
      pub left : IsFp L v E f
      pub right : IsFp L v E g
      pub left_sign : HasDivisors L v 2 (get_sign_bit E f)
      pub right_sign : HasDivisors L v 2 (get_sign_bit E g)
      pub left_magnitude : HasDivisors L v (suc (value_bitwidth E)) (get_magnitude_bits E f)
      pub right_magnitude : HasDivisors L v (suc (value_bitwidth E)) (get_magnitude_bits E g)

    pub symm : (f g : Term) → AreComparable f g → AreComparable g f
    symm f g c = record {
      left = c.right;
      right = c.left;
      left_sign = c.right_sign;
      right_sign = c.left_sign;
      left_magnitude = c.right_magnitude;
      right_magnitude = c.left_magnitude;
    }

    abbrev pub place : Term → ℕ
    place f = rank (2 ^ value_bitwidth E) (bits v f)

    abbrev pub zeros : Term → Term → Bool
    zeros f g = magnitude L v E (bits v f) == 0 && magnitude L v E (bits v g) == 0

    -- The sign and the magnitude of a number.
    pub split :
        (f : Term)
        → IsFp L v E f
        → (s : Bool) × (m : ℕ) × (bits v f ≡ sign_value (2 ^ value_bitwidth E) s + m)
          × (m < 2 ^ value_bitwidth E)
    split f i =
        split_sign (2 ^ value_bitwidth E) (bits v f)
          (rw (← double_pow (value_bitwidth E), ← i) (L.bits-lt v f))

    truth-is_zero :
        (f : Term) → truth v (is_zero (get_magnitude_bits E f)) ≡ (magnitude L v E (bits v f) == 0)
    unfolding is_zero mk_bv
    truth-is_zero f =
        truth-equal L v (get_magnitude_bits E f) _
          (rw (width-magnitude L v E A f) (omega (arith, A.small)))
        ∙ rw
            (
              bits-magnitude L v E A f,
              L.bits-bv_val v 0 (width (get_magnitude_bits E f)),
              mod-eq_of_lt (pow-pos (width (get_magnitude_bits E f))),
            )
            refl

    truth-both_zero :
        (f g : Term)
        → truth v (both_zero E f g)
          ≡ (magnitude L v E (bits v f) == 0 && magnitude L v E (bits v g) == 0)
    unfolding both_zero
    truth-both_zero f g = truth-and L v _ _ ∙ rw (truth-is_zero f, truth-is_zero g) refl

    pub equal_ranks :
        (f g : Term)
        → IsFp L v E f
        → IsFp L v E g
        → (bits v f == bits v g || zeros f g) ≡ (place f == place g)
    equal_ranks f g i j =
        let p = 2 ^ value_bitwidth E in
        let (s, m, e, h) = split f i in
        let (t, n, e', h') = split g j in
        rw
          (
            e,
            e',
            rank-parts p s m h,
            rank-parts p t n h',
            (parts-encode p s m h).0,
            (parts-encode p t n h').0,
          )
          (ranks_equal p s t m n h h')

    pub eq-IsBit :
        (f g : Term) → IsFp L v E f → IsFp L v E g → IsBit L v (place f == place g) (cmp_eq E f g)
    unfolding cmp_eq
    eq-IsBit f g i j =
        let t : truth v (or (equal f g) (both_zero E f g)) ≡ (place f == place g) =
          truth-or L v (equal f g) (both_zero E f g)
          ∙ rw (truth-same L v E A f g i, truth-both_zero f g) (equal_ranks f g i j) in
        IsBit-of_eq L v _ _ _ (same_test (place f == place g))
          (choice-IsBit L v _ _ _ _ _ _ t (true-IsBit L v) (false-IsBit L v))

    pub ne-IsBit :
        (f g : Term)
        → IsFp L v E f
        → IsFp L v E g
        → IsBit L v (not (place f == place g)) (cmp_ne E f g)
    unfolding cmp_ne
    ne-IsBit f g i j =
        let t : truth v (and (negate (equal f g)) (negate (both_zero E f g)))
            ≡ not (place f == place g) =
          truth-and L v _ _
          ∙ rw
              (
                truth-negate L v (equal f g),
                truth-negate L v (both_zero E f g),
                truth-same L v E A f g i,
                truth-both_zero f g,
              )
              (not_or (bits v f == bits v g) (zeros f g) ∙ ap not (equal_ranks f g i j)) in
        IsBit-of_eq L v _ _ _ (same_test (not (place f == place g)))
          (choice-IsBit L v _ _ _ _ _ _ t (true-IsBit L v) (false-IsBit L v))

    pub by-IsBit :
        (f g above below magnitudes : Term) (y n m : Bool)
        → IsFp L v E f
        → truth v above ≡ y
        → truth v below ≡ n
        → truth v magnitudes ≡ m
        → (let p = 2 ^ value_bitwidth E in
            IsBit L v
              (if y
                then true
                else if n
                then false
                else if bits v f % p == bits v g % p
                then false
                else if (if m then not (not (bits v f / p == 0)) else not (bits v f / p == 0))
                then true
                else false)
              (cmp_by E f g above below magnitudes))
    unfolding cmp_by is_non_zero is_zero mk_bv
    by-IsBit f g above below magnitudes y n m i a b c =
        let s : truth v (is_non_zero (get_sign_bit E f))
            ≡ not (bits v f / 2 ^ value_bitwidth E == 0) =
          truth-negate L v _
          ∙ ap not (
              truth-equal L v (get_sign_bit E f) _ (rw (width-sign L v E f) (omega arith))
              ∙ rw
                  (
                    bits-sign L v E f i,
                    L.bits-bv_val v 0 (width (get_sign_bit E f)),
                    mod-eq_of_lt (pow-pos (width (get_sign_bit E f))),
                  )
                  refl) in
        let x = L.truth-xor_ v magnitudes (is_non_zero (get_sign_bit E f)) ∙ rw (c, s) refl in
        choice-IsBit L v _ _ _ _ _ _ a (true-IsBit L v) (
          choice-IsBit L v _ _ _ _ _ _ b (false-IsBit L v) (
            choice-IsBit L v _ _ _ _ _ _ (truth-same_magnitude L v E A f g) (false-IsBit L v)
              (choice-IsBit L v _ _ _ _ _ _ x (true-IsBit L v) (false-IsBit L v))))

    pub less_signs :
        (f g : Term)
        → AreComparable f g
        → truth v (ult (get_sign_bit E f) (get_sign_bit E g))
          ≡ (let p = 2 ^ value_bitwidth E in ltb (bits v f / p) (bits v g / p))
    less_signs f g c =
        truth-ult L v _ _ (width-sign L v E f ∙ sym (width-sign L v E g))
          (rw (width-sign L v E f) (omega arith)) (rw (width-sign L v E f) c.left_sign)
        ∙ rw (bits-sign L v E f c.left, bits-sign L v E g c.right) refl

    pub less_magnitudes :
        (f g : Term)
        → AreComparable f g
        → truth v (ult (get_magnitude_bits E f) (get_magnitude_bits E g))
          ≡ ltb (magnitude L v E (bits v f)) (magnitude L v E (bits v g))
    less_magnitudes f g c =
        let wm = width-magnitude L v E A in
        truth-ult L v _ _ (wm f ∙ sym (wm g)) (rw (wm f) (omega (arith, A.small)))
          (rw (wm f) c.left_magnitude)
        ∙ rw (bits-magnitude L v E A f, bits-magnitude L v E A g) refl

    pub lt-IsBit :
        (f g : Term)
        → AreComparable f g
        → zeros f g ≡ false
        → IsBit L v (ltb (place f) (place g)) (cmp_lt E f g)
    unfolding cmp_lt
    lt-IsBit f g c z =
        let p = 2 ^ value_bitwidth E in
        let (s, m, e, h) = split f c.left in
        let (t, n, e', h') = split g c.right in
        let (mf, sf) = parts-encode p s m h in
        let (mg, sg) = parts-encode p t n h' in
        let c' = symm f g c in
        IsBit-of_eq L v _ _ _
          (rw (e, e', mf, mg, sf, sg, rank-parts p s m h, rank-parts p t n h')
            (ranks_less p s t m n h h' (rw (e, e', mf, mg) at z)))
          (by-IsBit f g _ _ _ _ _ _ c.left (less_signs g f c') (less_signs f g c)
            (less_magnitudes f g c))

    pub gt-IsBit :
        (f g : Term)
        → AreComparable f g
        → zeros f g ≡ false
        → IsBit L v (ltb (place g) (place f)) (cmp_gt E f g)
    unfolding cmp_gt
    gt-IsBit f g c z =
        let p = 2 ^ value_bitwidth E in
        let (s, m, e, h) = split f c.left in
        let (t, n, e', h') = split g c.right in
        let (mf, sf) = parts-encode p s m h in
        let (mg, sg) = parts-encode p t n h' in
        let c' = symm f g c in
        IsBit-of_eq L v _ _ _
          (rw (e, e', mf, mg, sf, sg, rank-parts p s m h, rank-parts p t n h')
            (ranks_greater p s t m n h h' (rw (e, e', mf, mg) at z)))
          (by-IsBit f g _ _ _ _ _ _ c.left (less_signs f g c) (less_signs g f c')
            (less_magnitudes g f c'))
