-- ===== src/Example/Steps.antt =====
-- The steps of a memory with a block that is not alive, and the loop over abstractions with rounds
-- that fail until nothing is abstract.
use mlir_tv.Base.{
  ℕ, zero, suc, ◌≤◌, ◌≡◌, refl, Bool, true, false, ◌&&◌, not, [], ◌∷◌, length, if◌then◌else◌, arith,
}
use mlir_tv.Example.Solver.{num, const, var, splat, is_boolean, solver}
use mlir_tv.Example.Solver.Laws.{solver-IsSmt}
use mlir_tv.Example.Heap.{even, offset}
use mlir_tv.Memory.{Blocks, entry, stored, push_block, set_liveness_to_false}
use mlir_tv.Memory.Heap.{flag_at}
use mlir_tv.Memory.Steps.{
  write, free, allocate, Steps, done, more, IsTable, steps-IsTable, steps-dead,
}
use mlir_tv.Validate.Results.{success, retvalue}
use mlir_tv.Validate.Loop.{
  DotLevel, fully_abs_dot, sum_mul, CastLevel, fully_abs_cast, precise, Abstraction, is_default,
  verdict, is_final, Round, validate,
}
use mlir_tv.Validate.Loop.Reach.{all_used, IsConcrete, validate-final}

-- Block 0 is not alive, block 1 is.
abbrev before : Blocks
before = record {
  arrays = splat (num 3 8) ∷ splat (num 4 8) ∷ [];
  initialized = splat (const false) ∷ splat (const true) ∷ [];
  writables = const true ∷ const true ∷ [];
  numelems = num 8 32 ∷ num 8 32 ∷ [];
  liveness = const false ∷ const true ∷ [];
  created_by_allocs = const false ∷ const true ∷ [];
}

arrays_sorts : (u : ℕ) → is_boolean (entry before.arrays u) ≡ false
unfolding entry
arrays_sorts zero = refl
arrays_sorts (suc zero) = refl
arrays_sorts (suc (suc u)) = refl

initialized_sorts : (u : ℕ) → is_boolean (entry before.initialized u) ≡ false
unfolding entry
initialized_sorts zero = refl
initialized_sorts (suc zero) = refl
initialized_sorts (suc (suc u)) = refl

before-IsTable : IsTable solver-IsSmt even before
before-IsTable = record {
  well_formed = record {
    initialized_length = refl;
    writables_length = refl;
    liveness_length = refl;
    arrays_sort = arrays_sorts;
    initialized_sort = initialized_sorts;
  };
  numelems_length = refl;
  created_length = refl;
}

abbrev written : Blocks
written = stored (num 9 8) (var 0 1) offset before

abbrev after : Blocks
after = push_block (var 7 8) (num 4 32) (const true) true (set_liveness_to_false (num 1 1) written)

-- A write through a variable, the end of block 1, and a new block.
run : Steps solver-IsSmt even before after
unfolding stored set_liveness_to_false
run = more (write (num 9 8) (var 0 1) offset) (
    more
      (free (num 1 1) (record { narrow = omega arith; enough = omega arith; inside = omega arith }))
      (more (allocate (var 7 8) (num 4 32) (const true) true refl) done))

steps-IsTable_example : IsTable solver-IsSmt even after
steps-IsTable_example = steps-IsTable solver-IsSmt even before after run before-IsTable

steps-dead_example :
    (flag_at solver-IsSmt even (λ b. b.liveness) after 0 ≡ false) × (2 ≤ length after.arrays)
unfolding entry
steps-dead_example =
    steps-dead solver-IsSmt even before after 0 run before-IsTable (omega arith) refl

-- Success once nothing is abstract.
abbrev concrete_dot : DotLevel → Bool
concrete_dot fully_abs_dot = false
concrete_dot sum_mul = true

abbrev concrete_cast : CastLevel → Bool
concrete_cast fully_abs_cast = false
concrete_cast precise = true

abbrev is_concrete : Abstraction → Bool
is_concrete a =
    concrete_dot a.fp_dot
    && concrete_cast a.fp_cast
    && concrete_dot a.int_dot
    && not (is_default a.fp_add_sum_encoding)

abbrev late : Round
late itr a = (if is_concrete a then success else retvalue, all_used)

late-final : (itr : ℕ) (a : Abstraction) → IsConcrete a → is_final (late itr a).0 ≡ true
unfolding is_final
late-final itr a h =
    rw (h.fp_dot_concrete, h.fp_cast_concrete, h.int_dot_concrete, h.sum_concrete) refl

validate-final_example :
    (itr : ℕ) × (a : Abstraction) × (validate false late ≡ verdict (late itr a).0)
    × (is_final (late itr a).0 ≡ true)
validate-final_example = validate-final false late (λ itr a. refl) late-final
