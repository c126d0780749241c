-- ===== src/Example/Heap.antt =====
-- The theorems on the memory at a concrete one: two blocks of bytes, the first of which is written
-- through a block number that is a variable.
use mlir_tv.Base.{ℕ, zero, suc, ◌^◌, ◌≤◌, ◌≡◌, refl, true, false, some, [], ◌∷◌, arith}
use mlir_tv.Example.Solver.{
  Tm, Values, num, const, var, splat, bits_of, truth_of, is_boolean, solver,
}
use mlir_tv.Example.Solver.Laws.{solver-IsSmt}
use mlir_tv.Memory.{Blocks, Memory, blocks_of, entry, select, stored, load, add_local_block}
use mlir_tv.Memory.Number.{count_of, calc_bid_bw, or_zero}
use mlir_tv.Memory.Heap.{value_at, init_at, IsWellFormed, IsBid, stored_lem, load_lem}
use mlir_tv.Smt.Arith.{mk_bv}
use mlir_tv.Smt.Compare.{equal}
use mlir_tv.Memory.Arrays.{refines_type}
use mlir_tv.Memory.Refine.{refines_access, truth-refines_type}
use mlir_tv.Memory.Width.{calc_bid_bw-enough}
use mlir_tv.Memory.Local.{IsFreshBlock, add_local_block_lem}

abbrev pub even : Values
even x = 6

abbrev pub two : Blocks
two = record {
  arrays = splat (num 3 8) ∷ splat (num 4 8) ∷ [];
  initialized = splat (const false) ∷ splat (const true) ∷ [];
  writables = const true ∷ const true ∷ [];
  numelems = num 8 32 ∷ num 8 32 ∷ [];
  liveness = const true ∷ const true ∷ [];
  created_by_allocs = const false ∷ const true ∷ [];
}

-- The number of a block, which is 0, and an offset, which is 6.
abbrev pub block : Tm
block = var 0 1

abbrev pub offset : Tm
offset = var 1 32

arrays_sorts : (u : ℕ) → is_boolean (entry two.arrays u) ≡ false
unfolding entry
arrays_sorts zero = refl
arrays_sorts (suc zero) = refl
arrays_sorts (suc (suc u)) = refl

initialized_sorts : (u : ℕ) → is_boolean (entry two.initialized u) ≡ false
unfolding entry
initialized_sorts zero = refl
initialized_sorts (suc zero) = refl
initialized_sorts (suc (suc u)) = refl

value_sorts : (u : ℕ) → is_boolean (select (entry two.arrays u) offset) ≡ false
unfolding entry select
value_sorts zero = refl
value_sorts (suc zero) = refl
value_sorts (suc (suc u)) = refl

pub two-IsWellFormed : IsWellFormed solver-IsSmt even two
two-IsWellFormed = record {
  initialized_length = refl;
  writables_length = refl;
  liveness_length = refl;
  arrays_sort = arrays_sorts;
  initialized_sort = initialized_sorts;
}

pub block-IsBid : IsBid solver-IsSmt even two block
block-IsBid = record { narrow = omega arith; enough = omega arith; inside = omega arith }

one-IsBid : IsBid solver-IsSmt even two (num 1 1)
one-IsBid = record { narrow = omega arith; enough = omega arith; inside = omega arith }

stored_lem_example :
    (value_at solver-IsSmt even (stored (num 9 8) block offset two) 0 6 ≡ 9)
    × (init_at solver-IsSmt even (stored (num 9 8) block offset two) 0 6 ≡ true)
stored_lem_example =
    stored_lem solver-IsSmt even (num 9 8) block offset two 0 6 two-IsWellFormed block-IsBid
      (omega arith)

load_lem_example :
    bits_of even (load two 1 block offset).0
    ≡ value_at solver-IsSmt even two (bits_of even block) (bits_of even offset)
load_lem_example = load_lem solver-IsSmt even two 1 block offset block-IsBid value_sorts

calc_bid_bw-enough_example : 5 ≤ 2 ^ calc_bid_bw ((7, 3) ∷ []) ((7, 2) ∷ [])
unfolding count_of or_zero
calc_bid_bw-enough_example = calc_bid_bw-enough ((7, 3) ∷ []) ((7, 2) ∷ []) 7 3 refl (omega arith)

abbrev memory : Memory
memory = record {
  bid_bits = 2;
  is_src = true;
  global_blocks_cnt = (7, 2) ∷ [];
  max_local_blocks_cnt = (7, 1) ∷ [];
  blocks = (7, two) ∷ [];
  global_var_bids = [];
}

add_local_block_lem_example :
    (bid : Tm) × (r : Memory) × (add_local_block (var 2 8) (num 4 32) 7 (const true) true memory
      ≡ some (bid, r))
    × IsFreshBlock solver-IsSmt even 7 two bid r
unfolding blocks_of count_of
add_local_block_lem_example =
    (add_local_block_lem solver-IsSmt even (var 2 8) (num 4 32) (const true) 7 2 1 true two memory
        refl refl refl (omega arith) refl refl).0
      (omega arith)

-- Elements that refine each other are equal.
abbrev same_element : ℕ → Tm → Tm → Tm
same_element ty a b = equal a b

truth-refines_type_example :
    truth_of even (refines_type same_element 7 1 two two block offset 2)
    ≡ refines_access solver-IsSmt even same_element 7
        (load two 1 (mk_bv 0 1) offset)
        (load two 1 (mk_bv 0 1) offset)
truth-refines_type_example =
    truth-refines_type solver-IsSmt even same_element 7 1 2 two two block offset (omega arith)
      (omega arith) (omega arith)
