-- ===== src/Example/Constants.antt =====
-- The theorems on the encodings that the abstract operations set up, at small sets of constants.
use mlir_tv.Base.{◌+◌, ◌≡◌, true, false, not, refl, none, List, [], ◌∷◌, arith}
use mlir_tv.Smt.Arith.{mk_bv, concat, log2_ceil, log2_loop, int_one_shl}
use mlir_tv.Example.Solver.{num, var, bin, concats, size_of, solver}
use mlir_tv.Example.Solver.Laws.{solver-IsSmt}
use mlir_tv.Example.Floats.{self, numbers, small, small-IsAbstract}
use mlir_tv.Validate.Loop.{initial, is_fully_abs_cast, can_set_abstraction}
use mlir_tv.Floats.{
  FpEncoding, Constant, zero_const, largest_const, number_const, constant, find_repr,
  value_bitwidth,
}
use mlir_tv.Floats.Constants.{
  FpCastingInfo, ConstSource, magnitude_of, add_number, add_from, add_constants,
}
use mlir_tv.Floats.Constants.Sorts.{MakesSorts, constant-add_constants}
use mlir_tv.Floats.Constants.Overflow.{add_constants-rounded}
use mlir_tv.Floats.Setup.{
  FpCounts, Encodings, is_unused, encodings_of, set_up, float_encoding, double_encoding,
  new_encoding, float_bits, double_bits, emplace_reserved, set_abstraction,
}
use mlir_tv.Floats.Setup.Widths.{AreFit, set_abstraction-AreFit}

-- Every number is rounded by the cast to a float.
abbrev rounds : FpCastingInfo
rounds = record { zero_limit_bits = true; zero_prec_bits = false; is_rounded_upward = true }

instance abbrev source : ConstSource
source = record {
  mk_var = λ w i. var i w;
  mk_dval_var = λ w i. var (50 + i) w;
  mk_fresh_var = λ w i. var (100 + i) w;
  is_negative = λ s. s;
  negated = not;
  get_casting_info = λ s. rounds;
}

source-MakesSorts : MakesSorts solver-IsSmt self source
source-MakesSorts = record {
  width-mk_var = λ w i z. refl;
  width-mk_dval_var = λ w i z. refl;
  width-mk_fresh_var = λ w i z. refl;
}

-- The terms of 1 and -1.
abbrev with_one : FpEncoding
with_one = record small {
  absrepr = (false, bin concats (num 0 1) (var 1 3)) ∷ (true, bin concats (num 1 1) (var 1 3)) ∷ [];
}

constant-add_constants_example : size_of (bin concats (num 1 1) (var 1 3)) ≡ 4
unfolding add_constants add_from add_number magnitude_of constant find_repr value_bitwidth mk_bv
    concat
constant-add_constants_example =
    constant-add_constants solver-IsSmt self source-MakesSorts small with_one
      (number_const false ∷ []) (number_const true) _ small-IsAbstract (omega arith) refl refl refl

abbrev double : FpEncoding
double = record {
  limit_bitwidth = 1;
  truncated_bitwidth = 3;
  prec_bitwidth = 1;
  is_double = true;
  use_ieee754 = false;
  absrepr = [];
}

add_constants-rounded_example :
    add_constants double
      (zero_const false ∷ number_const false ∷ number_const false ∷ largest_const false ∷ [])
    ≡ none
add_constants-rounded_example =
    add_constants-rounded double false false (largest_const false ∷ []) (omega arith) refl refl refl
      refl refl refl refl

abbrev one_variable : FpCounts
one_variable = record { nonconsts = 1; consts = []; has_inf_or_nan = false }

abbrev emplaced : Constant → List Constant → List Constant
emplaced c cs = c ∷ cs

abbrev doubles_with_one : FpEncoding
doubles_with_one = record with_one {
  is_double = true;
  absrepr =
      (false, bin concats (num 0 1) (var 51 3)) ∷ (true, bin concats (num 1 1) (var 51 3)) ∷ [];
}

abbrev both : Encodings
both = record { float_enc = with_one; double_enc = doubles_with_one }

set_abstraction-AreFit_example : AreFit solver-IsSmt self false both
unfolding set_abstraction is_fully_abs_cast initial can_set_abstraction is_unused encodings_of
    set_up float_encoding double_encoding new_encoding float_bits double_bits emplace_reserved
    add_constants add_from add_number magnitude_of value_bitwidth mk_bv concat log2_ceil log2_loop
    int_one_shl
set_abstraction-AreFit_example =
    set_abstraction-AreFit solver-IsSmt self source-MakesSorts emplaced (λ c. rounds)
      (λ c cs. omega arith) (initial false) false one_variable one_variable both (omega arith) refl
