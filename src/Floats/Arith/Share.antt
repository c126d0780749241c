-- ===== src/Floats/Arith/Share.antt =====
-- The declaration that `AbsFpEncoding::getMulFn` and `getDivFn` of src/abstractops.cpp share.
use mlir_tv.Base.{◌≡◌, true, false, some, Option-cases, inl, inr, refl}
use mlir_tv.Smt.Terms.{Smt}
use mlir_tv.Floats.{Fpa, FpEncoding}
use mlir_tv.Floats.Arith.{ArithState, get_mul_fn, get_div_fn, mul, div, with_state}

module _ ⦃S : Smt⦄ ⦃P : Fpa⦄ (E : FpEncoding) where
  open S use {Term}

  -- Without its arithmetic properties, a division after a multiplication of the same terms, in an
  -- abstract encoding, gives the very term that the multiplication gave.
  pub div-mul :
      (st : ArithState) (f g : Term)
      → E.use_ieee754 ≡ false
      → (e : Term) × (after : ArithState) × (mul false E st f g ≡ some (e, after))
        × (div false E after f g ≡ some (e, record after { used_fp_div = true }))
  unfolding mul div get_mul_fn get_div_fn with_state
  div-mul st f g a = elim (Option-cases st.fp_mulfn) [
    | inl n ↦ rw (a, n, mul, div) (_, _, refl, refl)
    | inr (d, n) ↦ rw (a, n, mul, div) (_, _, refl, refl)
  ]
