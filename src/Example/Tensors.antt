-- ===== src/Example/Tensors.antt =====
-- The theorems on tensors at a tensor of two times three bytes, whose elements depend on a variable.
use mlir_tv.Base.{
  ℕ, ◌+◌, ◌*◌, ◌≤◌, ◌<◌, ◌≡◌, ◌↔◌, refl, true, false, some, List, [], ◌∷◌, map, arith,
}
use mlir_tv.Example.Solver.{
  Tm, Values, num, var, splat, const, word, array, bits_of, truth_of, solver,
}
use mlir_tv.Example.Solver.Laws.{solver-IsSmt}
use mlir_tv.Smt.Terms.{IsFresh}
use mlir_tv.Smt.Compare.{equal}
use mlir_tv.Smt.Words.{mul}
use mlir_tv.Smt.Index.{get_1d_size}
use mlir_tv.Memory.{select}
use mlir_tv.Tensor.{Tensor}
use mlir_tv.Tensor.Lambda.{IsBinder, element, element_initialized}
use mlir_tv.Tensor.Moves.{AreBinders, transpose_lem}
use mlir_tv.Tensor.Repeat.{reverse_along_lem, tile_lem}
use mlir_tv.Smt.Words.{add}
use mlir_tv.Tensor.Insert.{HasBits, IsInsertVar, insert_lem}
use mlir_tv.Tensor.Concat.{concat_along_lem}
use mlir_tv.Tensor.Refine.{refines_tensor_lem}
use mlir_tv.Tensor.Convolve.{conv_size}
use mlir_tv.Tensor.Windows.{conv_size_lem}
use mlir_tv.Tensor.Shape.{
  insert, concat_along, transpose, reverse_along, tile, times_each, refines_tensor,
}

abbrev four : Values
four x = 4

abbrev two_by_three : Tensor
two_by_three = record {
  elem_type = 7;
  dims = num 2 32 ∷ num 3 32 ∷ [];
  arr = array 8 (λ v i. v 9 + i) (λ v i. false);
  initialized = splat (const true);
}

abbrev idx : Tm
idx = var 1 32

abbrev idx_init : Tm
idx_init = var 2 32

abbrev i : Tm
i = var 3 32

abbrev j : Tm
j = var 4 32

-- Constants do not depend on variables.
num-IsFresh : (x n w : ℕ) → IsFresh solver (var x 32) (num n w)
num-IsFresh x n w v k = record {
  bits_eq = refl;
  truth_eq = refl;
  cell_eq = λ c. refl;
  flag_eq = λ c. refl;
}

arr-IsFresh-idx : IsFresh solver idx two_by_three.arr
arr-IsFresh-idx v k = record {
  bits_eq = refl;
  truth_eq = refl;
  cell_eq = λ c. refl;
  flag_eq = λ c. refl;
}

arr-IsFresh-i : IsFresh solver i two_by_three.arr
arr-IsFresh-i v k = record {
  bits_eq = refl;
  truth_eq = refl;
  cell_eq = λ c. refl;
  flag_eq = λ c. refl;
}

arr-IsFresh-j : IsFresh solver j two_by_three.arr
arr-IsFresh-j v k = record {
  bits_eq = refl;
  truth_eq = refl;
  cell_eq = λ c. refl;
  flag_eq = λ c. refl;
}

j-IsFresh-i : IsFresh solver i j
j-IsFresh-i v k = record {
  bits_eq = refl;
  truth_eq = refl;
  cell_eq = λ c. refl;
  flag_eq = λ c. refl;
}

i-IsFresh-j : IsFresh solver j i
i-IsFresh-j v k = record {
  bits_eq = refl;
  truth_eq = refl;
  cell_eq = λ c. refl;
  flag_eq = λ c. refl;
}

binder : (x n m : ℕ) → IsBinder solver-IsSmt 32 (omega arith) (var x 32) (num n 32 ∷ num m 32 ∷ [])
binder x n m = record {
  variable = refl;
  index = refl;
  fresh_dims = (num-IsFresh x n 32, (num-IsFresh x m 32, tt));
}

swapped-AreBinders :
    AreBinders solver-IsSmt 32
      (omega arith)
      idx
      idx_init
      (j ∷ i ∷ [])
      (num 3 32 ∷ num 2 32 ∷ [])
      two_by_three
swapped-AreBinders = record {
  variables = (refl, (refl, tt));
  indices = (refl, (refl, tt));
  distinct = ((j-IsFresh-i, tt), (tt, tt));
  binder = binder 1 3 2;
  binder_init = binder 2 3 2;
  fresh_arr = (arr-IsFresh-idx, (arr-IsFresh-j, (arr-IsFresh-i, tt)));
  fresh_dims = (
    (num-IsFresh 1 2 32, (num-IsFresh 4 2 32, (num-IsFresh 3 2 32, tt))),
    ((num-IsFresh 1 3 32, (num-IsFresh 4 3 32, (num-IsFresh 3 3 32, tt))), tt),
  );
  sizes = (refl, (refl, tt));
  new_sizes = (refl, (refl, tt));
}

transpose_lem_example :
    (r : Tensor) × (transpose 32 idx idx_init i j two_by_three ≡ some r)
    × (element solver-IsSmt 32 (omega arith) four r (2 ∷ 1 ∷ []) ≡ 9)
    × (element_initialized solver-IsSmt 32 (omega arith) four r (2 ∷ 1 ∷ []) ≡ true)
unfolding element
transpose_lem_example =
    transpose_lem solver-IsSmt 32 (omega arith) four idx idx_init i j (num 2 32) (num 3 32)
      two_by_three 1 2 refl swapped-AreBinders (omega arith) (omega arith) (omega arith)

-- The variables of an operation that keeps the order of the dimensions, of the sizes `n` and `m`.
kept-AreBinders :
    (n m : ℕ)
    → AreBinders solver-IsSmt 32
        (omega arith)
        idx
        idx_init
        (i ∷ j ∷ [])
        (num n 32 ∷ num m 32 ∷ [])
        two_by_three
kept-AreBinders n m = record {
  variables = (refl, (refl, tt));
  indices = (refl, (refl, tt));
  distinct = ((i-IsFresh-j, tt), (tt, tt));
  binder = binder 1 n m;
  binder_init = binder 2 n m;
  fresh_arr = (arr-IsFresh-idx, (arr-IsFresh-i, (arr-IsFresh-j, tt)));
  fresh_dims = (
    (num-IsFresh 1 2 32, (num-IsFresh 3 2 32, (num-IsFresh 4 2 32, tt))),
    ((num-IsFresh 1 3 32, (num-IsFresh 3 3 32, (num-IsFresh 4 3 32, tt))), tt),
  );
  sizes = (refl, (refl, tt));
  new_sizes = (refl, (refl, tt));
}

reverse_along_lem_example :
    (r : Tensor) × (reverse_along 32 idx idx_init (i ∷ j ∷ []) 1 two_by_three ≡ some r)
    × (element solver-IsSmt 32 (omega arith) four r (1 ∷ 0 ∷ []) ≡ 9)
    × (element_initialized solver-IsSmt 32 (omega arith) four r (1 ∷ 0 ∷ []) ≡ true)
unfolding element
reverse_along_lem_example =
    reverse_along_lem solver-IsSmt 32 (omega arith) four idx idx_init i (num 2 32) (j ∷ [])
      (num 3 32 ∷ []) 1 two_by_three (1 ∷ 0 ∷ []) refl (kept-AreBinders 2 3) refl (omega arith)
      (omega arith, (omega arith, tt)) (omega arith)

tile_lem_example :
    (r : Tensor) × (tile 32 idx idx_init (i ∷ j ∷ []) (2 ∷ 1 ∷ []) two_by_three ≡ some r)
    × (element solver-IsSmt 32 (omega arith) four r (3 ∷ 2 ∷ []) ≡ 9)
    × (element_initialized solver-IsSmt 32 (omega arith) four r (3 ∷ 2 ∷ []) ≡ true)
unfolding element times_each mul
tile_lem_example =
    tile_lem solver-IsSmt 32 (omega arith) four idx idx_init i (num 2 32) (j ∷ []) (num 3 32 ∷ []) 2
      (1 ∷ []) two_by_three (3 ∷ 2 ∷ []) refl (kept-AreBinders 4 3) refl refl
      (omega arith, (omega arith, tt)) (omega arith)

abbrev sum_byte : Tm → Tm → Tm
sum_byte a b = word 8 (λ v. bits_of v a + bits_of v b)

refines_tensor_lem_example :
    (e : Tm) × (vars : List Tm) × (refines_tensor equal 32 i two_by_three two_by_three
      ≡ some (e, vars))
    × (truth_of four e ≡ true ↔ (
        (map (bits_of four) two_by_three.dims ≡ map (bits_of four) two_by_three.dims)
        × (4 < bits_of four (get_1d_size 32 two_by_three.dims)
            → true ≡ true
            → (true ≡ true)
              × (truth_of four (equal (select two_by_three.arr i) (select two_by_three.arr i))
                  ≡ true))))
refines_tensor_lem_example =
    refines_tensor_lem solver-IsSmt four equal 32 i two_by_three two_by_three refl refl
      (omega arith, (omega arith, tt)) refl

bytes-HasBits : HasBits solver-IsSmt 32 (omega arith) two_by_three
unfolding HasBits select
bytes-HasBits k = refl

concat_along_lem_example :
    (r : Tensor) × (concat_along 32 idx idx_init (i ∷ j ∷ []) 1 two_by_three two_by_three ≡ some r)
    × (element solver-IsSmt 32 (omega arith) four r (1 ∷ 4 ∷ []) ≡ 8)
    × (element_initialized solver-IsSmt 32 (omega arith) four r (1 ∷ 4 ∷ []) ≡ true)
unfolding element add
concat_along_lem_example =
    concat_along_lem solver-IsSmt 32 (omega arith) four idx idx_init (num 3 32) (num 3 32)
      (i ∷ j ∷ []) 1 two_by_three two_by_three (1 ∷ 4 ∷ []) refl refl refl (omega arith) refl refl
      (kept-AreBinders 2 6) (kept-AreBinders 2 6) (omega arith, (omega arith, tt)) (omega arith)
      bytes-HasBits bytes-HasBits

splat-IsFresh : (x : ℕ) → IsFresh solver (var x 32) (splat (const true))
splat-IsFresh x v k = record {
  bits_eq = refl;
  truth_eq = refl;
  cell_eq = λ c. refl;
  flag_eq = λ c. refl;
}

abbrev place : List Tm
place = num 1 32 ∷ num 2 32 ∷ []

place-IsInsertVar : IsInsertVar solver-IsSmt 32 (omega arith) idx (num 200 8) place two_by_three
place-IsInsertVar = record {
  binder = binder 1 2 3;
  fresh_arr = arr-IsFresh-idx;
  fresh_initialized = splat-IsFresh 1;
  fresh_value = num-IsFresh 1 200 8;
  fresh_indices = (num-IsFresh 1 1 32, (num-IsFresh 1 2 32, tt));
}

insert_lem_example :
    (r : Tensor) × (inbounds : Tm) × (insert 32 idx (num 200 8) place two_by_three
      ≡ some (r, inbounds))
    × (element solver-IsSmt 32 (omega arith) four r (1 ∷ 2 ∷ []) ≡ 200)
    × (element_initialized solver-IsSmt 32 (omega arith) four r (1 ∷ 2 ∷ []) ≡ true)
insert_lem_example =
    insert_lem solver-IsSmt 32 (omega arith) four idx (num 200 8) place two_by_three (1 ∷ 2 ∷ [])
      (omega arith) place-IsInsertVar (refl, (refl, tt)) (refl, (refl, tt))
      (omega arith, (omega arith, tt)) (omega arith, (omega arith, tt)) (omega arith) refl
      bytes-HasBits

-- A dimension of five, a filter of two with dilation two: one element fits at 1, and none at 2, though
-- the filter would read the positions 2 and 4 there.
conv_size_lem_example :
    (1 < bits_of four (conv_size (num 5 32) (num 2 32) (num 2 32) (num 1 32))) ↔ (
      1 * bits_of four (num 1 32) + bits_of four (num 2 32) * bits_of four (num 2 32)
      ≤ bits_of four (num 5 32))
conv_size_lem_example =
    conv_size_lem solver-IsSmt 32 (omega arith) four (num 5 32) (num 2 32) (num 2 32) (num 1 32) 1
      refl refl refl refl (omega arith) (omega arith) (omega arith) (omega arith)
