-- ===== src/Floats/Compare.antt =====
-- src/abstractops.cpp: `AbsFpEncoding::cmp`, the comparisons of MLIR's `arith.cmpf`.
pub mod Rank
pub mod Bit
pub mod Less
pub mod Order
use Prim.Native.Nat.{bit_or}
use mlir_tv.Base.{ℕ, Bool, Option, none, some}
use mlir_tv.Smt.Terms.{Smt}
use mlir_tv.Smt.Arith.{mk_bv}
use mlir_tv.Smt.Compare.{equal, ult}
use mlir_tv.Smt.Logic.{mk_ite, and, or, negate}
use mlir_tv.Smt.Words.{is_zero, is_non_zero}
use mlir_tv.Floats.{Fpa, FpEncoding, get_sign_bit, get_magnitude_bits, is_nan}

-- `mlir::arith::CmpFPredicate`
pub data CmpFPredicate : Type 0 where
  always_false oeq ogt oge olt ole one ord ueq ugt uge ult_or_unordered ule une uno always_true :
      CmpFPredicate

module _ ⦃S : Smt⦄ where
  open S use {Term, numeral?, bvor, xor_}

  -- `Expr::operator|` at bit-vectors
  unfoldable pub bit_or_terms : Term → Term → Term
  unfolding mk_bv
  bit_or_terms a b = elim (numeral? a) [
    | none ↦ bvor a b
    | some x ↦ elim (numeral? b) [ none ↦ bvor a b | some y ↦ mk_bv (bit_or x y) (S.width a) ]
  ]

  unfoldable pub true_bv : Term
  unfolding mk_bv
  true_bv = mk_bv 1 1

  unfoldable pub false_bv : Term
  unfolding mk_bv
  false_bv = mk_bv 0 1

  module _ ⦃P : Fpa⦄ where
    unfoldable pub both_zero : FpEncoding → Term → Term → Term
    unfolding get_magnitude_bits is_zero
    both_zero E f1 f2 = and (is_zero (get_magnitude_bits E f1)) (is_zero (get_magnitude_bits E f2))

    unfoldable pub cmp_eq : FpEncoding → Term → Term → Term
    unfolding both_zero true_bv false_bv
    cmp_eq E f1 f2 = mk_ite (or (equal f1 f2) (both_zero E f1 f2)) true_bv false_bv

    unfoldable pub cmp_ne : FpEncoding → Term → Term → Term
    unfolding both_zero true_bv false_bv
    cmp_ne E f1 f2 =
        mk_ite (and (negate (equal f1 f2)) (negate (both_zero E f1 f2))) true_bv false_bv

    -- `cmpLT` and `cmpGT`, by the tests of the signs and of the magnitudes.
    unfoldable pub cmp_by : FpEncoding → Term → Term → Term → Term → Term → Term
    unfolding get_sign_bit get_magnitude_bits is_non_zero true_bv false_bv
    cmp_by E f1 f2 signs_yes signs_no magnitudes = mk_ite signs_yes true_bv (
        mk_ite signs_no false_bv (
          mk_ite (equal (get_magnitude_bits E f1) (get_magnitude_bits E f2)) false_bv
            (mk_ite (xor_ magnitudes (is_non_zero (get_sign_bit E f1))) true_bv false_bv)))

    unfoldable pub cmp_lt : FpEncoding → Term → Term → Term
    unfolding cmp_by get_sign_bit get_magnitude_bits
    cmp_lt E f1 f2 =
        cmp_by E f1 f2 (ult (get_sign_bit E f2) (get_sign_bit E f1))
          (ult (get_sign_bit E f1) (get_sign_bit E f2))
          (ult (get_magnitude_bits E f1) (get_magnitude_bits E f2))

    unfoldable pub cmp_gt : FpEncoding → Term → Term → Term
    unfolding cmp_by get_sign_bit get_magnitude_bits
    cmp_gt E f1 f2 =
        cmp_by E f1 f2 (ult (get_sign_bit E f1) (get_sign_bit E f2))
          (ult (get_sign_bit E f2) (get_sign_bit E f1))
          (ult (get_magnitude_bits E f2) (get_magnitude_bits E f1))

    unfoldable pub has_nan : FpEncoding → Term → Term → Term
    unfolding is_nan
    has_nan E f1 f2 = or (is_nan E f1) (is_nan E f2)

    unfoldable pub ordered : FpEncoding → Term → Term → Term → Term
    unfolding has_nan false_bv
    ordered E f1 f2 test = mk_ite (has_nan E f1 f2) false_bv test

    unfoldable pub unordered : FpEncoding → Term → Term → Term → Term
    unfolding has_nan true_bv
    unordered E f1 f2 test = mk_ite (has_nan E f1 f2) true_bv test

    unfoldable pub cmp : FpEncoding → CmpFPredicate → Term → Term → Term
    unfolding ordered unordered cmp_eq cmp_ne cmp_lt cmp_gt bit_or_terms true_bv false_bv
    cmp E oeq f1 f2 = ordered E f1 f2 (cmp_eq E f1 f2)
    cmp E one f1 f2 = ordered E f1 f2 (cmp_ne E f1 f2)
    cmp E ole f1 f2 = ordered E f1 f2 (bit_or_terms (cmp_eq E f1 f2) (cmp_lt E f1 f2))
    cmp E olt f1 f2 = ordered E f1 f2 (cmp_lt E f1 f2)
    cmp E oge f1 f2 = ordered E f1 f2 (bit_or_terms (cmp_eq E f1 f2) (cmp_gt E f1 f2))
    cmp E ogt f1 f2 = ordered E f1 f2 (cmp_gt E f1 f2)
    cmp E ueq f1 f2 = unordered E f1 f2 (cmp_eq E f1 f2)
    cmp E une f1 f2 = unordered E f1 f2 (cmp_ne E f1 f2)
    cmp E ule f1 f2 = unordered E f1 f2 (bit_or_terms (cmp_eq E f1 f2) (cmp_lt E f1 f2))
    cmp E ult_or_unordered f1 f2 = unordered E f1 f2 (cmp_lt E f1 f2)
    cmp E uge f1 f2 = unordered E f1 f2 (bit_or_terms (cmp_eq E f1 f2) (cmp_gt E f1 f2))
    cmp E ugt f1 f2 = unordered E f1 f2 (cmp_gt E f1 f2)
    cmp E ord f1 f2 = ordered E f1 f2 true_bv
    cmp E uno f1 f2 = unordered E f1 f2 false_bv
    cmp E always_true f1 f2 = true_bv
    cmp E always_false f1 f2 = false_bv
