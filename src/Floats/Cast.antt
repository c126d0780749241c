-- ===== src/Floats/Cast.antt =====
-- src/abstractops.cpp: `AbsFpEncoding::extend` and `truncate`, the casts between floats and doubles. A
-- double has limit bits in front of the magnitude of a float and precision bits behind it. `none` is a
-- failed assertion or an unsupported cast; the flag `fpCastRound` is not modelled.
use mlir_tv.Base.{
  ◌+◌, ◌-◌, Bool, true, false, ◌&&◌, Option, none, some, [], ◌∷◌, ltb, ◌==◌, if◌then◌else◌, ◌>>=◌,
  ◌>>◌, guard,
}
use mlir_tv.Smt.Terms.{Smt, FnDecl, fp_extend_name, fp_truncate_name, fp_rounddir_name}
use mlir_tv.Smt.Arith.{mk_bv, extract, concat}
use mlir_tv.Smt.Compare.{equal, ule}
use mlir_tv.Smt.Logic.{mk_bool, mk_ite, or, negate}
use mlir_tv.Smt.Words.{add}
use mlir_tv.Floats.{
  Fpa, FpEncoding, suffix_of, value_bitwidth, fp_bitwidth, nan, infinity, get_sign_bit,
  get_magnitude_bits, is_nan,
}

module _ ⦃S : Smt⦄ where
  open S use {Term, width, apply_}

  module _ ⦃P : Fpa⦄ where
    -- `getLimitBits`, `getTruncatedBits` and `getPrecisionBits`
    unfoldable pub get_limit_bits : FpEncoding → Term → Option Term
    unfolding value_bitwidth
    get_limit_bits E f =
        if E.limit_bitwidth == 0
        then none
        else some (extract (value_bitwidth E - 1) (value_bitwidth E - E.limit_bitwidth) f)

    unfoldable pub get_truncated_bits : FpEncoding → Term → Term
    get_truncated_bits E f = extract (E.prec_bitwidth + E.truncated_bitwidth - 1) E.prec_bitwidth f

    unfoldable pub get_precision_bits : FpEncoding → Term → Option Term
    get_precision_bits E f =
        if E.prec_bitwidth == 0 then none else some (extract (E.prec_bitwidth - 1) 0 f)

    unfoldable pub get_extend_fn : FpEncoding → FpEncoding → FnDecl
    unfolding suffix_of fp_bitwidth
    get_extend_fn E tgt = record {
      name = fp_extend_name;
      suffix = suffix_of E;
      range = fp_bitwidth tgt;
    }

    unfoldable pub get_truncate_fn : FpEncoding → FpEncoding → FnDecl
    unfolding suffix_of fp_bitwidth
    get_truncate_fn E tgt = record {
      name = fp_truncate_name;
      suffix = suffix_of E;
      range = fp_bitwidth tgt;
    }

    unfoldable pub get_round_dir_fn : FpEncoding → FnDecl
    unfolding suffix_of
    get_round_dir_fn E = record { name = fp_rounddir_name; suffix = suffix_of E; range = 1 }

    -- The sign, zero limit bits, the magnitude, and zero precision bits if there are any.
    unfoldable pub extended : FpEncoding → FpEncoding → Term → Term
    unfolding get_sign_bit get_magnitude_bits mk_bv concat
    extended E tgt f =
        let front =
          concat (concat (get_sign_bit E f) (mk_bv 0 tgt.limit_bitwidth))
            (get_magnitude_bits E f) in
        if ltb 0 tgt.prec_bitwidth then concat front (mk_bv 0 tgt.prec_bitwidth) else front

    -- The cases of NaN and the infinities, in front of `rest`.
    unfoldable pub cast_special : FpEncoding → FpEncoding → Term → Term → Term
    unfolding is_nan nan infinity
    cast_special E tgt f rest = mk_ite (is_nan E f) (nan tgt) (
        mk_ite (equal f (infinity E false)) (infinity tgt false)
          (mk_ite (equal f (infinity E true)) (infinity tgt true) rest))

    unfoldable pub extend_precisely : FpEncoding → FpEncoding → Term → Option Term
    unfolding extended cast_special value_bitwidth fp_bitwidth
    extend_precisely E tgt f = do
      guard (ltb (value_bitwidth E) (value_bitwidth tgt))
      guard (E.limit_bitwidth == 0 && E.prec_bitwidth == 0)
      guard (width (extended E tgt f) == fp_bitwidth tgt)
      some (cast_special E tgt f (extended E tgt f))

    unfoldable pub extend : Bool → FpEncoding → FpEncoding → Term → Option Term
    unfolding get_extend_fn extend_precisely
    extend is_precise E tgt f =
        let precise = extend_precisely E tgt f in
        if is_precise then precise else some (apply_ (get_extend_fn E tgt) (f ∷ []))

    -- Whether the precision bits are zero.
    unfoldable pub is_prec_zero : FpEncoding → Term → Term
    unfolding get_precision_bits mk_bool mk_bv
    is_prec_zero E f = elim (get_precision_bits E f) [
      | some p ↦ equal p (mk_bv 0 (width p))
      | none ↦ mk_bool true
    ]

    unfoldable pub floored : FpEncoding → Term → Term
    unfolding get_magnitude_bits get_truncated_bits
    floored E f = get_truncated_bits E (get_magnitude_bits E f)

    -- The number cut off, or the next one, as the function for the direction says.
    unfoldable pub rounded : FpEncoding → Term → Term
    unfolding floored get_sign_bit get_magnitude_bits get_round_dir_fn is_prec_zero mk_bv concat
    rounded E f =
        let value = floored E f in
        let ceiled = add value (mk_bv 1 (width value)) in
        let round_dir = apply_ (get_round_dir_fn E) (get_magnitude_bits E f ∷ []) in
        mk_ite (is_prec_zero E f) (concat (get_sign_bit E f) value) (
          mk_ite (equal round_dir (mk_bv 0 1)) (concat (get_sign_bit E f) value)
            (concat (get_sign_bit E f) ceiled))

    -- Whether the number is too large for the target.
    unfoldable pub overflows : FpEncoding → FpEncoding → Term → Term → Term
    unfolding floored get_magnitude_bits infinity mk_bv
    overflows E tgt f limit_bits =
        or (negate (equal limit_bits (mk_bv 0 (width limit_bits))))
          (ule (get_magnitude_bits tgt (infinity tgt false)) (floored E f))

    unfoldable pub truncate_precisely : FpEncoding → FpEncoding → Term → Option Term
    unfolding cast_special rounded overflows get_limit_bits get_sign_bit infinity floored
        value_bitwidth fp_bitwidth mk_bv concat
    truncate_precisely E tgt f = do
      guard (ltb (value_bitwidth tgt) (value_bitwidth E))
      guard (tgt.limit_bitwidth == 0 && tgt.prec_bitwidth == 0)
      limit_bits ← get_limit_bits E f
      guard (width (concat (get_sign_bit E f) (floored E f)) == fp_bitwidth tgt)
      some (
          cast_special E tgt f (
            mk_ite (overflows E tgt f limit_bits)
              (mk_ite (equal (get_sign_bit E f) (mk_bv 0 1)) (infinity tgt false)
                (infinity tgt true))
              (rounded E f)))

    unfoldable pub truncate : Bool → FpEncoding → FpEncoding → Term → Option Term
    unfolding get_truncate_fn truncate_precisely
    truncate is_precise E tgt f =
        let precise = truncate_precisely E tgt f in
        if is_precise then precise else some (apply_ (get_truncate_fn E tgt) (f ∷ []))
