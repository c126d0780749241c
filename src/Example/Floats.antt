-- ===== src/Example/Floats.antt =====
-- The theorems on abstract floating-point numbers at an encoding with magnitudes of three bits.
use mlir_tv.Base.{ℕ, ◌≡◌, ◌≢◌, Bool, true, false, not, refl, none, some, [], arith, if◌then◌else◌}
use mlir_tv.Example.Solver.{Tm, Values, num, var, head?, bits_of, truth_of, solver}
use mlir_tv.Example.Solver.Laws.{solver-IsSmt}
use mlir_tv.Smt.Match.{match_zero_ext, match_binary_op, args_of, first_two, first_one}
use mlir_tv.Smt.Arith.{extract, extract_concat}
use mlir_tv.Smt.Logic.{mk_ite, ite_of_eq}
use mlir_tv.Smt.Compare.{ult, equal}
use mlir_tv.Smt.Compare.Under.{HasDivisors, HasDivisors-no_app, truth-ult}
use mlir_tv.Floats.{
  Fpa, FpEncoding, value_bitwidth, fp_bitwidth, nan_value, nan, get_sign_bit, get_magnitude_bits,
  is_nan, canonical,
}
use mlir_tv.Floats.Arith.{add_terms, ArithState, mul, div}
use mlir_tv.Floats.Bits.{IsAbstract}
use mlir_tv.Floats.Ieee.{finite, decode, signed, ieee_add, same_sign, negative_zero}
use mlir_tv.Floats.Compare.{oeq, olt, cmp}
use mlir_tv.Floats.Compare.Rank.{rank, holds, bit}
use mlir_tv.Floats.Compare.Less.{AreComparable}
use mlir_tv.Floats.Compare.Order.{cmp_lem, cmp-zeros}
use mlir_tv.Floats.Arith.Share.{div-mul}
use mlir_tv.Floats.Arrays.{ArrayOptions, ArrayState, add_fp}
use mlir_tv.Floats.Sum.{add_comm}
use mlir_tv.Floats.Sum.Called.{added, add_fp_lem}
use mlir_tv.Validate.Loop.{use_sum_only, default, fully_abs_dot}

-- The valuation that gives a variable its own number.
abbrev pub self : Values
self x = x

-- The numbers of the standard are 1 and -1.
instance abbrev pub numbers : Fpa
numbers = record {
  Number = Bool;
  same = λ a b. if a then b else not b;
  get_one = λ s. s;
  fpa_nan = λ d. num 0 4;
  fpa_inf = λ d s. num 0 4;
  fpa_zero = λ d s. num 0 4;
  fpa_largest = λ d s. num 0 4;
  fpa_number = λ d n. num 0 4;
  fpa_is_nan = λ t. t;
  fpa_abs = λ t. t;
  fpa_neg = λ t. t;
  fpa_add = λ s t. s;
  fpa_mul = λ s t. s;
  fpa_div = λ s t. s;
}

abbrev pub small : FpEncoding
small = record {
  limit_bitwidth = 0;
  truncated_bitwidth = 3;
  prec_bitwidth = 0;
  is_double = false;
  use_ieee754 = false;
  absrepr = [];
}

pub small-IsAbstract : IsAbstract solver-IsSmt self small
unfolding value_bitwidth
small-IsAbstract = record { abstract = refl; enough = omega arith; small = omega arith }

-- The number of rank 2, and the negative one of rank 3.
abbrev two : Tm
two = var 2 4

abbrev minus_three : Tm
minus_three = var 11 4

truth-ult_example : truth_of self (ult two minus_three) ≡ true
truth-ult_example =
    truth-ult solver-IsSmt self two minus_three refl (omega arith)
      (HasDivisors-no_app solver-IsSmt self 5 two refl)

-- What is compared is no application that the solver looks for.
no_head : (x : ℕ) → head? (get_magnitude_bits small (canonical small (var x 4))) ≡ none
unfolding get_magnitude_bits canonical nan is_nan value_bitwidth fp_bitwidth nan_value mk_ite
    ite_of_eq extract equal match_zero_ext
no_head x = refl

whole_divisors :
    (x : ℕ) → HasDivisors solver-IsSmt self 4 (get_magnitude_bits small (canonical small (var x 4)))
whole_divisors x = HasDivisors-no_app solver-IsSmt self 4 _ (no_head x)

abbrev minus_two : Tm
minus_two = var 10 4

add_comm_example :
    decode 8 (bits_of self (add_terms true small two minus_three))
    ≡ decode 8 (bits_of self (add_terms true small minus_three two))
unfolding value_bitwidth
add_comm_example =
    add_comm solver-IsSmt self small small-IsAbstract two minus_three refl refl (whole_divisors 2)
      (whole_divisors 11)

sign_divisors : (x : ℕ) → HasDivisors solver-IsSmt self 2 (get_sign_bit small (var x 4))
unfolding get_sign_bit value_bitwidth fp_bitwidth extract extract_concat match_zero_ext
    match_binary_op args_of first_two first_one
sign_divisors x = HasDivisors-no_app solver-IsSmt self 2 _ refl

magnitude_divisors : (x : ℕ) → HasDivisors solver-IsSmt self 4 (get_magnitude_bits small (var x 4))
unfolding get_magnitude_bits value_bitwidth extract extract_concat match_zero_ext match_binary_op
    args_of first_two first_one
magnitude_divisors x = HasDivisors-no_app solver-IsSmt self 4 _ refl

are_comparable :
    (x y : ℕ) → AreComparable solver-IsSmt self small small-IsAbstract (var x 4) (var y 4)
unfolding value_bitwidth
are_comparable x y = record {
  left = refl;
  right = refl;
  left_sign = sign_divisors x;
  right_sign = sign_divisors y;
  left_magnitude = magnitude_divisors x;
  right_magnitude = magnitude_divisors y;
}

-- -3 is less than 2.
cmp_lem_example : bits_of self (cmp small olt minus_three two) ≡ 1
unfolding value_bitwidth rank holds bit
cmp_lem_example =
    cmp_lem solver-IsSmt self small small-IsAbstract olt minus_three two (are_comparable 11 2) refl

cmp-zeros_example :
    (bits_of self (cmp small oeq (var 8 4) (var 0 4)) ≡ 1)
    × (bits_of self (cmp small olt (var 8 4) (var 0 4)) ≡ 1)
unfolding value_bitwidth
cmp-zeros_example =
    cmp-zeros solver-IsSmt self small small-IsAbstract (var 8 4) (var 0 4) (are_comparable 8 0) refl
      refl

-- Nothing was used before.
abbrev unused : ArithState
unused = record { used_fp_add = false; used_fp_mul = false; used_fp_div = false; fp_mulfn = none }

div-mul_example :
    (e : Tm) × (after : ArithState) × (mul false small unused two minus_three ≡ some (e, after))
    × (div false small after two minus_three ≡ some (e, record after { used_fp_div = true }))
div-mul_example = div-mul small unused two minus_three refl

abbrev added_options : ArrayOptions
added_options = record {
  is_fp_add_associative = false;
  use_multiset = false;
  has_arith_properties = true;
  max_unroll_fp_sum_bound = 10;
  fp_add_sum_encoding = default;
  fp_dot = fully_abs_dot;
}

abbrev unused_arrays : ArrayState
unused_arrays = record {
  arith_state = unused;
  used_fp_sum = false;
  used_fp_dot = false;
  fp_sums = [];
}

default-ne-use_sum_only : default ≢ use_sum_only
default-ne-use_sum_only e = cc

add_fp_lem_example :
    (t : Tm) × (add_fp (var 7 8) (λ es. num 0 8) added_options small unused_arrays two minus_two
      ≡ some (t, added unused_arrays))
    × (decode 8 (bits_of self t) ≡ finite false 0)
unfolding value_bitwidth decode signed ieee_add same_sign negative_zero
add_fp_lem_example =
    add_fp_lem solver-IsSmt self small small-IsAbstract (var 7 8) (λ es. num 0 8) added_options
      unused_arrays two minus_two refl default-ne-use_sum_only refl refl (whole_divisors 10)
