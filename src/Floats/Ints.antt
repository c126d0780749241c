-- ===== src/Floats/Ints.antt =====
-- src/abstractops.cpp: `intSum` and `intDot`, the sums and dot products of arrays of integers. The
-- variable of the lambdas, of the width of an index, is a parameter.
pub mod Sum
use mlir_tv.Base.{
  ℕ, zero, suc, ◌+◌, Bool, true, false, Option, none, some, List, [], ◌∷◌, ltb, ◌==◌, if◌then◌else◌,
}
use mlir_tv.Smt.Terms.{Smt, FnDecl, int_sum_name, int_dot_name}
use mlir_tv.Smt.Arith.{mk_bv}
use mlir_tv.Smt.Compare.{ult}
use mlir_tv.Smt.Logic.{mk_ite}
use mlir_tv.Smt.Words.{add, mul}
use mlir_tv.Memory.{select}
use mlir_tv.Floats.Arrays.{insert_initial_value}
use mlir_tv.Validate.Loop.{DotLevel, fully_abs_dot, sum_mul}

-- Whether the operations were used by their functions.
pub record IntState : Type 0 where
  pub used_int_sum : Bool
  pub used_int_dot : Bool

-- `getIntSumFn` and `getIntDotFn`, by the width of the elements.
unfoldable pub get_int_sum_fn : ℕ → FnDecl
get_int_sum_fn bitwidth = record { name = int_sum_name; suffix = bitwidth; range = bitwidth }

unfoldable pub get_int_dot_fn : ℕ → FnDecl
get_int_dot_fn bitwidth = record { name = int_dot_name; suffix = bitwidth; range = bitwidth }

module _ ⦃S : Smt⦄ (idx : S.Term) where
  open S use {Term, width, numeral?, apply_, lambda_}

  -- The elements before the size, and 0 behind.
  unfoldable pub padded : Term → Term → Term
  unfolding select mk_bv
  padded a n = lambda_ idx (mk_ite (ult idx n) (select a idx) (mk_bv 0 (width (select a idx))))

  -- The loop that adds the elements from `j` on.
  unfoldable pub added_from : Term → ℕ → ℕ → Term → Term
  unfolding select mk_bv
  added_from arr zero j s = s
  added_from arr (suc left) j s =
      added_from arr left (j + 1) (add s (select arr (mk_bv j (width idx))))

  unfoldable pub sum_by_function : IntState → Term → Term → Term × IntState
  unfolding padded get_int_sum_fn select
  sum_by_function st arr size = (
    apply_ (get_int_sum_fn (width (select arr idx))) (padded arr size ∷ []),
    record st { used_int_sum = true },
  )

  unfoldable pub sum_of_array : Bool → IntState → Term → Term → Term × IntState
  unfolding added_from sum_by_function select mk_bv
  sum_of_array do_unroll_int_sum st arr size = elim (numeral? size) [
    | none ↦ sum_by_function st arr size
    | some len ↦
        if do_unroll_int_sum
        then (added_from arr len 0 (mk_bv 0 (width (select arr idx))), st)
        else sum_by_function st arr size
  ]

  unfoldable pub int_sum : Bool → IntState → Term → Term → Option Term → Term × IntState
  unfolding insert_initial_value sum_of_array
  int_sum do_unroll_int_sum st a n none = sum_of_array do_unroll_int_sum st a n
  int_sum do_unroll_int_sum st a n (some x) =
      let (arr, size) = insert_initial_value idx a n x in sum_of_array do_unroll_int_sum st arr size

  unfoldable pub dot_by_function : Term → Term → Term → Option Term
  unfolding padded get_int_dot_fn select
  dot_by_function a b n =
      let dotfn = get_int_dot_fn (width (select a idx)) in
      let arr1 = padded a n in
      let arr2 = padded b n in
      if width (select a idx) == width (select b idx)
      then some (add (apply_ dotfn (arr1 ∷ arr2 ∷ [])) (apply_ dotfn (arr2 ∷ arr1 ∷ [])))
      else none

  unfoldable pub with_int_state : IntState → Option Term → Option (Term × IntState)
  with_int_state st none = none
  with_int_state st (some e) = some (e, st)

  -- The level FULLY_ABS leaves the initial value out.
  unfoldable pub int_dot :
      DotLevel → Bool → IntState → Term → Term → Term → Option Term → Option (Term × IntState)
  unfolding dot_by_function with_int_state int_sum select
  int_dot level do_unroll_int_sum st a b n init_value = elim level [
    | fully_abs_dot ↦ with_int_state (record st { used_int_dot = true }) (dot_by_function a b n)
    | sum_mul ↦ some (
        int_sum do_unroll_int_sum st (lambda_ idx (mul (select a idx) (select b idx))) n init_value)
  ]
