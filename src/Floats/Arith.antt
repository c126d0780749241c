-- ===== src/Floats/Arith.antt =====
-- src/abstractops.cpp: `abs`, `neg`, `add`, `mul`, `div` and `exp` of an abstract encoding. What the
-- special cases of IEEE 754 leave open is an uninterpreted function. An operation has the state that it
-- changes: which operations were used, and the cached declaration for products and quotients; the
-- other declarations are always the same, whether cached or not.
pub mod Share
use mlir_tv.Base.{
  ℕ, ◌+◌, Bool, true, false, Option, none, some, List, [], ◌∷◌, if◌then◌else◌, ◌>>=◌, ◌>>◌,
}
use mlir_tv.Smt.Terms.{Smt, FnDecl, fp_add_name, fp_mul_name, fp_div_name, fp_exp_name}
use mlir_tv.Smt.Arith.{mk_bv, concat, zext}
use mlir_tv.Smt.Compare.{equal, ult}
use mlir_tv.Smt.Logic.{mk_ite, and, or}
use mlir_tv.Smt.Words.{get_msb}
use mlir_tv.Floats.{
  Fpa, FpEncoding, suffix_of, value_bitwidth, fp_bitwidth, nan, infinity, zero, one, get_sign_bit,
  get_magnitude_bits, is_nan, is_inf, is_any_inf, is_any_zero, canonical,
}
use mlir_tv.Validate.Loop.{UsedAbstractOps}

module _ ⦃S : Smt⦄ where
  open S use {Term, apply_, bvand, bvxor}

  module _ ⦃P : Fpa⦄ where
    open P use {fpa_abs, fpa_neg, fpa_add, fpa_mul, fpa_div}

    -- What the operations change: the flags of `UsedAbstractOps` that only `add`, `mul` and `div` set,
    -- and `fp_mulfn`.
    pub record ArithState : Type 0 where
      pub used_fp_add : Bool
      pub used_fp_mul : Bool
      pub used_fp_div : Bool
      pub fp_mulfn : Option FnDecl

    unfoldable pub abs : FpEncoding → Term → Term
    unfolding get_magnitude_bits mk_bv concat
    abs E f = if E.use_ieee754 then fpa_abs f else concat (mk_bv 0 1) (get_magnitude_bits E f)

    unfoldable pub neg : FpEncoding → Term → Term
    unfolding get_sign_bit get_magnitude_bits mk_bv concat
    neg E f =
        if E.use_ieee754
        then fpa_neg f
        else concat (bvxor (get_sign_bit E f) (mk_bv 1 1)) (get_magnitude_bits E f)

    -- `getAddFn`
    unfoldable pub get_add_fn : FpEncoding → FnDecl
    unfolding suffix_of fp_bitwidth
    get_add_fn E = record { name = fp_add_name; suffix = suffix_of E; range = fp_bitwidth E }

    -- The sum of two numbers by the function, in both orders.
    unfoldable pub both_orders : FpEncoding → Term → Term → Term
    unfolding get_add_fn
    both_orders E f1 f2 =
        bvand (apply_ (get_add_fn E) (f1 ∷ f2 ∷ [])) (apply_ (get_add_fn E) (f2 ∷ f1 ∷ []))

    -- The same, but not a NaN.
    unfoldable pub plain_sum : FpEncoding → Term → Term → Term
    unfolding both_orders is_nan zero
    plain_sum E f1 f2 = mk_ite (is_nan E (both_orders E f1 f2)) (zero E false) (both_orders E f1 f2)

    -- The sign of the number with the larger magnitude.
    unfoldable pub larger_sign : FpEncoding → Term → Term → Term
    unfolding get_sign_bit get_magnitude_bits
    larger_sign E f1 f2 =
        mk_ite (ult (get_magnitude_bits E f2) (get_magnitude_bits E f1)) (get_sign_bit E f1)
          (get_sign_bit E f2)

    -- The sum of two numbers that are no special cases.
    unfoldable pub signed_sum : FpEncoding → Term → Term → Term
    unfolding plain_sum larger_sign get_sign_bit get_magnitude_bits zero concat
    signed_sum E f1 f2 =
        let value = get_magnitude_bits E (plain_sum E f1 f2) in
        mk_ite (equal (get_sign_bit E f1) (get_sign_bit E f2)) (concat (get_sign_bit E f1) value) (
          mk_ite (equal (get_magnitude_bits E f1) (get_magnitude_bits E f2)) (zero E false)
            (concat (larger_sign E f1 f2) value))

    -- `add` of canonical numbers.
    unfoldable pub sum_of : FpEncoding → Term → Term → Term
    unfolding signed_sum nan zero is_inf is_any_inf
    sum_of E f1 f2 = mk_ite (equal f1 (zero E true)) f2 (
        mk_ite (equal f2 (zero E true)) f1 (
          mk_ite (equal f1 (nan E)) f1 (
            mk_ite (equal f2 (nan E)) f2 (
              mk_ite
                (or (and (is_inf E f1 false) (is_inf E f2 true))
                  (and (is_inf E f1 true) (is_inf E f2 false)))
                (nan E)
                (mk_ite (is_any_inf E f1) f1 (mk_ite (is_any_inf E f2) f2 (signed_sum E f1 f2)))))))

    -- `add`, but for its use of `sum`.
    unfoldable pub add_terms : Bool → FpEncoding → Term → Term → Term
    unfolding get_add_fn sum_of canonical
    add_terms has_arith_properties E f1 f2 =
        if E.use_ieee754
        then fpa_add f1 f2
        else if has_arith_properties
        then sum_of E (canonical E f1) (canonical E f2)
        else apply_ (get_add_fn E) (f1 ∷ f2 ∷ [])

    -- `getMulFn` and `getDivFn`: both look for, and keep, the declaration in `fp_mulfn`.
    unfoldable pub mul_range : Bool → FpEncoding → ℕ
    unfolding value_bitwidth fp_bitwidth
    mul_range has_arith_properties E =
        if has_arith_properties then value_bitwidth E else fp_bitwidth E

    unfoldable pub get_mul_fn : Bool → FpEncoding → ArithState → FnDecl × ArithState
    unfolding suffix_of mul_range
    get_mul_fn has_arith_properties E st = elim st.fp_mulfn [
      | some f ↦ (f, st)
      | none ↦
          let f : FnDecl = record {
            name = fp_mul_name;
            suffix = suffix_of E;
            range = mul_range has_arith_properties E;
          } in
          (f, record st { fp_mulfn = some f })
    ]

    unfoldable pub get_div_fn : Bool → FpEncoding → ArithState → FnDecl × ArithState
    unfolding suffix_of mul_range
    get_div_fn has_arith_properties E st = elim st.fp_mulfn [
      | some f ↦ (f, st)
      | none ↦
          let f : FnDecl = record {
            name = fp_div_name;
            suffix = suffix_of E;
            range = mul_range has_arith_properties E;
          } in
          (f, record st { fp_mulfn = some f })
    ]

    -- The sign of a product or quotient put on its magnitude.
    unfoldable pub with_sign : FpEncoding → Term → Term → Term
    unfolding nan get_magnitude_bits mk_bv concat
    with_sign E same_sign res = mk_ite (equal res (nan E)) (nan E) (
        mk_ite same_sign (concat (mk_bv 0 1) (get_magnitude_bits E res))
          (concat (mk_bv 1 1) (get_magnitude_bits E res)))

    -- The magnitude of a product by the function, with a dummy sign bit, and not a NaN.
    unfoldable pub plain_product : FpEncoding → FnDecl → Term → Term → Term → Term
    unfolding get_magnitude_bits is_nan
    plain_product E fn id f1 f2 =
        let m1 = get_magnitude_bits E f1 in
        let m2 = get_magnitude_bits E f2 in
        let res = zext 1 (bvand (apply_ fn (m1 ∷ m2 ∷ [])) (apply_ fn (m2 ∷ m1 ∷ []))) in
        mk_ite (is_nan E res) id res

    -- `mul` of canonical numbers but for the sign, by the terms for 1 and -1.
    unfoldable pub product_of : FpEncoding → FnDecl → Term → Term → Term → Term → Term
    unfolding plain_product nan infinity zero is_any_inf is_any_zero
    product_of E fn id minus_one f1 f2 = mk_ite (or (equal f1 id) (equal f1 minus_one)) f2 (
        mk_ite (or (equal f2 id) (equal f2 minus_one)) f1 (
          mk_ite (equal f1 (nan E)) f1 (
            mk_ite (equal f2 (nan E)) f2 (
              mk_ite (is_any_inf E f1) (mk_ite (is_any_zero E f2) (nan E) (infinity E false)) (
                mk_ite (is_any_inf E f2) (mk_ite (is_any_zero E f1) (nan E) (infinity E false)) (
                  mk_ite (or (is_any_zero E f1) (is_any_zero E f2)) (zero E false)
                    (plain_product E fn id f1 f2)))))))

    -- A result, if there is one, and the state after it.
    unfoldable pub with_state : ArithState → Option Term → Option (Term × ArithState)
    with_state st none = none
    with_state st (some e) = some (e, st)

    -- `mul` with the arithmetic properties.
    unfoldable pub signed_product : FpEncoding → FnDecl → Term → Term → Option Term
    unfolding product_of with_sign get_sign_bit one
    signed_product E fn f1 f2 = do
      id ← one E false
      minus_one ← one E true
      some (
          with_sign E (equal (get_sign_bit E f1) (get_sign_bit E f2))
            (product_of E fn id minus_one f1 f2))

    unfoldable pub mul : Bool → FpEncoding → ArithState → Term → Term → Option (Term × ArithState)
    unfolding get_mul_fn canonical signed_product with_state
    mul has_arith_properties E st f1 f2 =
        let used = record st { used_fp_mul = true } in
        let (fn, cached) = get_mul_fn has_arith_properties E used in
        let signed = signed_product E fn (canonical E f1) (canonical E f2) in
        if E.use_ieee754
        then some (fpa_mul f1 f2, used)
        else if has_arith_properties
        then with_state cached signed
        else some (apply_ fn (f1 ∷ f2 ∷ []), cached)

    unfoldable pub plain_quotient : FpEncoding → FnDecl → Term → Term → Term → Term
    unfolding get_magnitude_bits is_nan
    plain_quotient E fn id f1 f2 =
        let res = zext 1 (apply_ fn (get_magnitude_bits E f1 ∷ get_magnitude_bits E f2 ∷ [])) in
        mk_ite (is_nan E res) id res

    -- `div` of canonical numbers but for the sign.
    unfoldable pub quotient_of : FpEncoding → FnDecl → Term → Term → Term → Term → Term
    unfolding plain_quotient nan infinity zero is_any_inf is_any_zero get_magnitude_bits
    quotient_of E fn id minus_one f1 f2 = mk_ite (or (equal f2 id) (equal f2 minus_one)) f1 (
        mk_ite (equal f1 (nan E)) f1 (
          mk_ite (equal f2 (nan E)) f2 (
            mk_ite (is_any_inf E f2) (mk_ite (is_any_inf E f1) (nan E) (zero E false)) (
              mk_ite (is_any_inf E f1) (infinity E false) (
                mk_ite (is_any_zero E f2) (mk_ite (is_any_zero E f1) (nan E) (infinity E false)) (
                  mk_ite (is_any_zero E f1) (zero E false) (
                    mk_ite (equal (get_magnitude_bits E f1) (get_magnitude_bits E f2)) id
                      (plain_quotient E fn id f1 f2))))))))

    -- `div` with the arithmetic properties.
    unfoldable pub signed_quotient : FpEncoding → FnDecl → Term → Term → Option Term
    unfolding quotient_of with_sign one
    signed_quotient E fn f1 f2 = do
      id ← one E false
      minus_one ← one E true
      some (with_sign E (equal (get_msb f1) (get_msb f2)) (quotient_of E fn id minus_one f1 f2))

    unfoldable pub div : Bool → FpEncoding → ArithState → Term → Term → Option (Term × ArithState)
    unfolding get_div_fn canonical signed_quotient with_state
    div has_arith_properties E st f1 f2 =
        let used = record st { used_fp_div = true } in
        let (fn, cached) = get_div_fn has_arith_properties E used in
        let signed = signed_quotient E fn (canonical E f1) (canonical E f2) in
        if E.use_ieee754
        then some (fpa_div f1 f2, used)
        else if has_arith_properties
        then with_state cached signed
        else some (apply_ fn (f1 ∷ f2 ∷ []), cached)

    unfoldable pub get_exp_fn : FpEncoding → FnDecl
    unfolding suffix_of fp_bitwidth
    get_exp_fn E = record { name = fp_exp_name; suffix = suffix_of E; range = fp_bitwidth E }

    unfoldable pub exp : FpEncoding → Term → Option Term
    unfolding is_nan infinity zero one get_exp_fn
    exp E x = do
      id ← one E false
      some (
          mk_ite (or (is_nan E x) (equal x (infinity E false))) x (
            mk_ite (equal x (infinity E true)) (zero E false) (
              mk_ite (or (equal x (zero E false)) (equal x (zero E true))) id
                (apply_ (get_exp_fn E) (x ∷ [])))))
