-- ===== src/Floats.antt =====
-- src/abstractops.h and src/abstractops.cpp, class `AbsFpEncoding`: floating-point numbers as
-- bit-vectors of a sign bit and a magnitude, which is the rank of the number among those that a
-- validation distinguishes. `none` is a failed assertion.
pub mod Arith
pub mod Bits
pub mod Ieee
pub mod Add
pub mod Signed
pub mod Sum
pub mod Compare
pub mod Cast
pub mod Constants
pub mod Setup
pub mod Arrays
pub mod Ints
pub mod Preconditions
use mlir_tv.Base.{
  ℕ, suc, ◌+◌, ◌-◌, ◌^◌, Bool, true, false, Option, none, some, List, [], ◌∷◌, if◌then◌else◌,
}
use mlir_tv.Smt.Terms.{Smt, FnDecl, FnName}
use mlir_tv.Smt.Arith.{mk_bv, extract, concat}
use mlir_tv.Smt.Compare.{equal}
use mlir_tv.Smt.Logic.{mk_ite, or}

-- The reserved values for magnitudes of `w` bits, below 2 ^ 64 since there are at most 63. The
-- magnitude of NaN is all ones; those of the infinities and of the largest numbers come before it.
unfoldable pub nan_value : ℕ → ℕ
nan_value w = 2 ^ w - 1

unfoldable pub inf_value : ℕ → ℕ
inf_value w = 2 ^ w - 2

unfoldable pub signed_value : Bool → ℕ → ℕ
signed_value negative w = if negative then 2 ^ w else 0

module _ ⦃S : Smt⦄ where
  open S use {Term}

  -- What the encoding uses of LLVM's `APFloat`, by the finite numbers other than the zeros and the
  -- largest ones, and of the solver's floating-point terms, for the option that encodes a number as one.
  pub record Fpa : Type 1 where
    pub Number : Type 0
    pub same : Number → Number → Bool
    pub get_one : Bool → Number
    pub fpa_nan : Bool → Term
    pub fpa_inf : Bool → Bool → Term
    pub fpa_zero : Bool → Bool → Term
    pub fpa_largest : Bool → Bool → Term
    pub fpa_number : Bool → Number → Term
    pub fpa_is_nan : Term → Term
    pub fpa_abs : Term → Term
    pub fpa_neg : Term → Term
    pub fpa_add : Term → Term → Term
    pub fpa_mul : Term → Term → Term
    pub fpa_div : Term → Term → Term

  module _ ⦃P : Fpa⦄ where
    open P use {
      Number, same, get_one, fpa_nan, fpa_inf, fpa_zero, fpa_largest, fpa_number, fpa_is_nan,
    }

    -- `AbsFpEncoding`: its bits for casting, whether its numbers are doubles (which also gives the
    -- suffix of its functions), and the constants that `addConstants` gave a representation.
    pub record FpEncoding : Type 0 where
      pub limit_bitwidth : ℕ
      pub truncated_bitwidth : ℕ
      pub prec_bitwidth : ℕ
      pub is_double : Bool
      pub use_ieee754 : Bool
      pub absrepr : List (Number × Term)

    -- A constant, by its class: the tests of `constant` on an `APFloat` tell them apart. The Boolean
    -- says that it is negative.
    pub data Constant : Type 0 where
      nan_const : Constant
      inf_const zero_const largest_const : Bool → Constant
      number_const : Number → Constant

    unfoldable pub suffix_of : FpEncoding → ℕ
    suffix_of E = if E.is_double then 1 else 0

    unfoldable pub value_bitwidth : FpEncoding → ℕ
    value_bitwidth E = E.limit_bitwidth + E.truncated_bitwidth + E.prec_bitwidth

    unfoldable pub fp_bitwidth : FpEncoding → ℕ
    unfolding value_bitwidth
    fp_bitwidth E = 1 + value_bitwidth E

    -- `nan()`, `infinity(isNegative)`, `zero(isNegative)` and `largest(isNegative)`
    unfoldable pub nan : FpEncoding → Term
    unfolding mk_bv nan_value value_bitwidth fp_bitwidth
    nan E =
        if E.use_ieee754
        then fpa_nan E.is_double
        else mk_bv (nan_value (value_bitwidth E)) (fp_bitwidth E)

    unfoldable pub infinity : FpEncoding → Bool → Term
    unfolding mk_bv inf_value signed_value value_bitwidth fp_bitwidth
    infinity E negative =
        let w = value_bitwidth E in
        if E.use_ieee754
        then fpa_inf E.is_double negative
        else mk_bv (signed_value negative w + inf_value w) (fp_bitwidth E)

    unfoldable pub zero : FpEncoding → Bool → Term
    unfolding mk_bv signed_value value_bitwidth fp_bitwidth
    zero E negative =
        if E.use_ieee754
        then fpa_zero E.is_double negative
        else mk_bv (signed_value negative (value_bitwidth E)) (fp_bitwidth E)

    unfoldable pub largest : FpEncoding → Bool → Term
    unfolding mk_bv inf_value signed_value value_bitwidth fp_bitwidth
    largest E negative =
        let w = value_bitwidth E in
        if E.use_ieee754
        then fpa_largest E.is_double negative
        else mk_bv (signed_value negative w + inf_value w - 1) (fp_bitwidth E)

    unfoldable pub find_repr : Number → List (Number × Term) → Option Term
    find_repr f [] = none
    find_repr f ((g, e) ∷ rest) = let later = find_repr f rest in if same g f then some e else later

    unfoldable pub constant : FpEncoding → Constant → Option Term
    unfolding nan infinity zero largest find_repr
    constant E nan_const = some (nan E)
    constant E (inf_const negative) = some (infinity E negative)
    constant E (zero_const negative) = some (zero E negative)
    constant E (largest_const negative) = some (largest E negative)
    constant E (number_const f) =
        if E.use_ieee754 then some (fpa_number E.is_double f) else find_repr f E.absrepr

    -- `one(isNegative)`
    unfoldable pub one : FpEncoding → Bool → Option Term
    unfolding constant
    one E negative = constant E (number_const (get_one negative))

    -- `getSignBit` and `getMagnitudeBits`
    unfoldable pub get_sign_bit : FpEncoding → Term → Term
    unfolding fp_bitwidth value_bitwidth
    get_sign_bit E f = extract (fp_bitwidth E - 1) (value_bitwidth E) f

    unfoldable pub get_magnitude_bits : FpEncoding → Term → Term
    unfolding value_bitwidth
    get_magnitude_bits E f = extract (value_bitwidth E - 1) 0 f

    unfoldable pub is_nan : FpEncoding → Term → Term
    unfolding get_magnitude_bits nan
    is_nan E f =
        if E.use_ieee754
        then fpa_is_nan f
        else equal (get_magnitude_bits E f) (get_magnitude_bits E (nan E))

    unfoldable pub is_inf : FpEncoding → Term → Bool → Term
    unfolding infinity
    is_inf E f negative = equal f (infinity E negative)

    unfoldable pub is_zero_fp : FpEncoding → Term → Bool → Term
    unfolding zero
    is_zero_fp E f negative = equal f (zero E negative)

    -- Infinite, and zero, of either sign.
    unfoldable pub is_any_inf : FpEncoding → Term → Term
    unfolding is_inf
    is_any_inf E f = or (is_inf E f false) (is_inf E f true)

    unfoldable pub is_any_zero : FpEncoding → Term → Term
    unfolding is_zero_fp
    is_any_zero E f = or (is_zero_fp E f false) (is_zero_fp E f true)

    -- A NaN in its one form.
    unfoldable pub canonical : FpEncoding → Term → Term
    unfolding is_nan nan
    canonical E f = mk_ite (is_nan E f) (nan E) f
