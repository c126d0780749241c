-- ===== src/Floats/Compare/Order.antt =====
-- `AbsFpEncoding::cmp` of src/abstractops.cpp against the order of the numbers.
use mlir_tv.Base.{
  ◌+◌, ◌-◌, ◌^◌, ◌≡◌, Bool, true, false, ◌&&◌, ◌||◌, not, refl, ◌∙◌, arith, ltb, ◌==◌, ==_iff,
}
use mlir_tv.Base.Pow.{pow-pos}
use mlir_tv.Smt.Terms.{Smt, IsSmt}
use mlir_tv.Smt.Logic.{truth-or}
use mlir_tv.Floats.{Fpa, FpEncoding, value_bitwidth, nan_value}
use mlir_tv.Floats.Bits.{IsAbstract, magnitude, truth-is_nan, four_le}
use mlir_tv.Floats.Ieee.{sign_value, parts-encode}
use mlir_tv.Floats.Compare.{
  CmpFPredicate, always_false, oeq, ogt, oge, olt, ole, one, ord, ueq, ugt, uge, ult_or_unordered,
  ule, une, uno, always_true, cmp_lt, has_nan, ordered, unordered, cmp,
}
use mlir_tv.Floats.Compare.Rank.{
  rank, holds, bit, ordered_test, unordered_test, and_true, or_false, zero_no_nan, rank-parts,
}
use mlir_tv.Floats.Compare.Bit.{IsBit, or-IsBit, choice-IsBit, true-IsBit, false-IsBit, IsBit-of_eq}
use mlir_tv.Floats.Compare.Less.{
  AreComparable, symm, place, zeros, eq-IsBit, ne-IsBit, by-IsBit, less_signs, less_magnitudes,
  lt-IsBit, gt-IsBit,
}

module _ ⦃S : Smt⦄ (L : IsSmt S) (v : S.Valuation) where
  open S use {Term, bits, truth, width, numeral?, xor_}

  module _ ⦃P : Fpa⦄ (E : FpEncoding) (A : IsAbstract L v E) where
    abbrev nans : Term → Term → Bool
    nans f g =
        let w = value_bitwidth E in
        magnitude L v E (bits v f) == nan_value w || magnitude L v E (bits v g) == nan_value w

    truth-has_nan : (f g : Term) → truth v (has_nan E f g) ≡ nans f g
    unfolding has_nan
    truth-has_nan f g = truth-or L v _ _ ∙ rw (truth-is_nan L v E A f, truth-is_nan L v E A g) refl

    ordered-IsBit :
        (f g e : Term) (t : Bool)
        → IsBit L v t e
        → IsBit L v (not (nans f g) && t) (ordered E f g e)
    unfolding ordered
    ordered-IsBit f g e t p =
        IsBit-of_eq L v _ _ _ (ordered_test (nans f g) t)
          (choice-IsBit L v _ _ _ _ _ _ (truth-has_nan f g) (false-IsBit L v) p)

    unordered-IsBit :
        (f g e : Term) (t : Bool) → IsBit L v t e → IsBit L v (nans f g || t) (unordered E f g e)
    unfolding unordered
    unordered-IsBit f g e t p =
        IsBit-of_eq L v _ _ _ (unordered_test (nans f g) t)
          (choice-IsBit L v _ _ _ _ _ _ (truth-has_nan f g) (true-IsBit L v) p)

    cmp-IsBit :
        (q : CmpFPredicate) (f g : Term)
        → AreComparable L v E A f g
        → zeros L v E A f g ≡ false
        → IsBit L v
            (holds q
              (nans f g)
              (place L v E A f == place L v E A g)
              (ltb (place L v E A f) (place L v E A g))
              (ltb (place L v E A g) (place L v E A f)))
            (cmp E q f g)
    unfolding cmp holds
    cmp-IsBit oeq f g c z = ordered-IsBit f g _ _ (eq-IsBit L v E A f g c.left c.right)
    cmp-IsBit one f g c z = ordered-IsBit f g _ _ (ne-IsBit L v E A f g c.left c.right)
    cmp-IsBit ole f g c z =
        ordered-IsBit f g _ _
          (or-IsBit L v _ _ _ _ (eq-IsBit L v E A f g c.left c.right) (lt-IsBit L v E A f g c z))
    cmp-IsBit olt f g c z = ordered-IsBit f g _ _ (lt-IsBit L v E A f g c z)
    cmp-IsBit oge f g c z =
        ordered-IsBit f g _ _
          (or-IsBit L v _ _ _ _ (eq-IsBit L v E A f g c.left c.right) (gt-IsBit L v E A f g c z))
    cmp-IsBit ogt f g c z = ordered-IsBit f g _ _ (gt-IsBit L v E A f g c z)
    cmp-IsBit ueq f g c z = unordered-IsBit f g _ _ (eq-IsBit L v E A f g c.left c.right)
    cmp-IsBit une f g c z = unordered-IsBit f g _ _ (ne-IsBit L v E A f g c.left c.right)
    cmp-IsBit ule f g c z =
        unordered-IsBit f g _ _
          (or-IsBit L v _ _ _ _ (eq-IsBit L v E A f g c.left c.right) (lt-IsBit L v E A f g c z))
    cmp-IsBit ult_or_unordered f g c z = unordered-IsBit f g _ _ (lt-IsBit L v E A f g c z)
    cmp-IsBit uge f g c z =
        unordered-IsBit f g _ _
          (or-IsBit L v _ _ _ _ (eq-IsBit L v E A f g c.left c.right) (gt-IsBit L v E A f g c z))
    cmp-IsBit ugt f g c z = unordered-IsBit f g _ _ (gt-IsBit L v E A f g c z)
    cmp-IsBit ord f g c z =
        IsBit-of_eq L v _ _ _ (and_true (nans f g)) (ordered-IsBit f g _ true (true-IsBit L v))
    cmp-IsBit uno f g c z =
        IsBit-of_eq L v _ _ _ (or_false (nans f g)) (unordered-IsBit f g _ false (false-IsBit L v))
    cmp-IsBit always_true f g c z = (true-IsBit L v)
    cmp-IsBit always_false f g c z = (false-IsBit L v)

    -- `cmp` at two numbers of an abstract encoding with magnitudes of 2 to 63 bits, not both zero, whose
    -- sign and magnitude terms contain no remainder by the constant 0, is 1 for a predicate that holds
    -- and 0 else: a NaN makes the ordered predicates false and the unordered ones true, and other
    -- numbers compare by their magnitudes, reversed for negative numbers, which come first.
    pub cmp_lem :
        (q : CmpFPredicate) (f g : Term)
        → AreComparable L v E A f g
        → (magnitude L v E (bits v f) == 0 && magnitude L v E (bits v g) == 0) ≡ false
        → (let p = 2 ^ value_bitwidth E in
            let a = rank p (bits v f) in
            let b = rank p (bits v g) in
            bits v (cmp E q f g)
            ≡ bit (
                holds q
                  (magnitude L v E (bits v f) == p - 1 || magnitude L v E (bits v g) == p - 1)
                  (a == b)
                  (ltb a b)
                  (ltb b a)))
    unfolding nan_value
    cmp_lem q f g c z = (cmp-IsBit q f g c z).value

    -- At -0.0 and 0.0 of an abstract encoding with magnitudes of 2 to 63 bits, in terms that contain no
    -- remainder by the constant 0, `cmp` says both that they are equal and that the first is less:
    -- `oeq` and `olt` are both 1.
    pub cmp-zeros :
        (f g : Term)
        → AreComparable L v E A f g
        → bits v f ≡ 2 ^ value_bitwidth E
        → bits v g ≡ 0
        → (bits v (cmp E oeq f g) ≡ 1) × (bits v (cmp E olt f g) ≡ 1)
    unfolding cmp cmp_lt sign_value bit nan_value
    cmp-zeros f g c e e' =
        let p = 2 ^ value_bitwidth E in
        let pos = pow-pos (value_bitwidth E) in
        let (m, q) = parts-encode p true 0 pos in
        let (m', q') = parts-encode p false 0 pos in
        let x : bits v f ≡ sign_value p true + 0 = e ∙ omega arith in
        let y : bits v g ≡ sign_value p false + 0 = e' ∙ omega arith in
        let n : nans f g ≡ false =
          rw (x, y, m, m') (zero_no_nan p (four_le (value_bitwidth E) A.enough)) in
        let r : (place L v E A f == place L v E A g) ≡ true =
          rw (x, y, rank-parts p true 0 pos, rank-parts p false 0 pos)
            ((==_iff _ _).1 (omega arith)) in
        let lt : IsBit L v true (cmp_lt E f g) = IsBit-of_eq L v _ _ _ (rw (x, y, q, q') refl) (
          by-IsBit L v E A f g _ _ _ _ _ _ c.left (less_signs L v E A g f (symm L v E A f g c))
            (less_signs L v E A f g c) (less_magnitudes L v E A f g c)) in
        (
          (ordered-IsBit f g _ _ (eq-IsBit L v E A f g c.left c.right)).value ∙ rw (n, r) refl,
          (ordered-IsBit f g _ _ lt).value ∙ rw n refl,
        )
