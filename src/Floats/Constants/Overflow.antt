-- ===== src/Floats/Constants/Overflow.antt =====
-- Where the assertion of `AbsFpEncoding::addConstants` in src/abstractops.cpp fails.
use mlir_tv.Base.{◌<◌, ◌≡◌, true, false, none, List, ◌∷◌, arith}
use mlir_tv.Smt.Terms.{Smt}
use mlir_tv.Floats.{Fpa, FpEncoding, Constant, zero_const, number_const}
use mlir_tv.Floats.Constants.{
  ConstSource, next_prec, rounded_value, magnitude_of, add_number, add_from, add_constants,
}

module _ ⦃S : Smt⦄ ⦃P : Fpa⦄ ⦃Q : ConstSource⦄ where
  -- `addConstants` of an encoding with limit bits and one precision bit fails where the two numbers that
  -- follow 0.0, none of them negative, are rounded by the cast to a float.
  pub add_constants-rounded :
      (E : FpEncoding) (f g : P.Number) (rest : List Constant)
      → 0 < E.limit_bitwidth
      → E.prec_bitwidth ≡ 1
      → Q.is_negative f ≡ false
      → Q.is_negative g ≡ false
      → (Q.get_casting_info f).zero_limit_bits ≡ true
      → (Q.get_casting_info f).zero_prec_bits ≡ false
      → (Q.get_casting_info g).zero_limit_bits ≡ true
      → (Q.get_casting_info g).zero_prec_bits ≡ false
      → add_constants E (zero_const false ∷ number_const f ∷ number_const g ∷ rest) ≡ none
  unfolding add_constants add_from add_number magnitude_of rounded_value next_prec
  add_constants-rounded E f g rest l p nf ng lf pf lg pg =
      rw (nf, ng, lf, pf, lg, pg, p) (ground (arith, l))
