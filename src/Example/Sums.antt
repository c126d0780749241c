-- ===== src/Example/Sums.antt =====
-- The theorem on sums of integers at the array of threes.
use mlir_tv.Base.{◌≡◌, true, false, refl, arith, some}
use mlir_tv.Smt.Terms.{IsFresh}
use mlir_tv.Smt.Arith.{mk_bv}
use mlir_tv.Smt.Words.{add, add_terms, whole, is_zero}
use mlir_tv.Memory.{select}
use mlir_tv.Example.Solver.{Tm, num, var, splat, bits_of, solver}
use mlir_tv.Example.Solver.Laws.{solver-IsSmt}
use mlir_tv.Example.Floats.{self}
use mlir_tv.Floats.Bits.{width-pick}
use mlir_tv.Floats.Arrays.{insert_initial_value}
use mlir_tv.Floats.Ints.{IntState, int_sum}
use mlir_tv.Floats.Ints.Sum.{HasElements, int_sum_lem}

abbrev idx : Tm
idx = var 9 8

abbrev threes : Tm
threes = splat (num 3 8)

abbrev unused : IntState
unused = record { used_int_sum = false; used_int_dot = false }

threes-IsFresh : IsFresh solver idx threes
threes-IsFresh v i = record {
  bits_eq = refl;
  truth_eq = refl;
  cell_eq = λ j. refl;
  flag_eq = λ j. refl;
}

ten-IsFresh : IsFresh solver idx (num 10 8)
ten-IsFresh v i = record {
  bits_eq = refl;
  truth_eq = refl;
  cell_eq = λ j. refl;
  flag_eq = λ j. refl;
}

threes_elements : HasElements solver-IsSmt self idx 8 (omega arith) threes
unfolding select
threes_elements i = refl

inserted_elements :
    HasElements solver-IsSmt self idx 8
      (omega arith)
      (insert_initial_value idx threes (num 2 8) (num 10 8)).0
unfolding select insert_initial_value
inserted_elements i =
    width-pick solver-IsSmt self (is_zero idx) (num 10 8) (num 3 8) 8 (omega arith) refl refl

int_sum_lem_example :
    (bits_of self (int_sum idx true unused threes (num 2 8) (some (num 10 8))).0 ≡ 16)
    × ((int_sum idx true unused threes (num 2 8) (some (num 10 8))).1 ≡ unused)
unfolding insert_initial_value mk_bv add add_terms whole
int_sum_lem_example =
    int_sum_lem solver-IsSmt self idx 8 (omega arith) unused threes (num 2 8) (num 10 8) 2 refl
      (omega arith) (omega arith) threes-IsFresh ten-IsFresh refl threes_elements inserted_elements
      refl (omega arith)
