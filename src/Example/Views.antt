-- ===== src/Example/Views.antt =====
-- The theorems on views of blocks: two views of two times three elements of the first block of
-- Example/Heap, one after the other.
use mlir_tv.Base.{
  ℕ, zero, suc, ◌+◌, ◌%◌, ◌^◌, ◌<◌, ◌≡◌, ◌≢◌, refl, true, false, some, List, [], ◌∷◌, arith,
}
use mlir_tv.Example.Solver.{Tm, num, const, bits_of, is_boolean, solver}
use mlir_tv.Example.Solver.Laws.{solver-IsSmt}
use mlir_tv.Example.Heap.{even, two, block, two-IsWellFormed, block-IsBid}
use mlir_tv.Smt.Logic.{and, or, negate}
use mlir_tv.Smt.Compare.{equal, ule}
use mlir_tv.Smt.Words.{add, mul}
use mlir_tv.Smt.Index.{get_1d_size}
use mlir_tv.Memory.{Blocks, AccessInfo, entry, select}
use mlir_tv.Memory.Heap.{value_at, init_at}
use mlir_tv.MemRef.{
  MemRef, identity_layout, is_identity_map, noalias, get_with_access_info, store_through,
}
use mlir_tv.MemRef.Access.{IsAccess, place, get_with_access_info_lem, store_through_lem}
use mlir_tv.MemRef.Alias.{IsSpan, count, noalias_lem}

abbrev shape : List Tm
shape = num 2 32 ∷ num 3 32 ∷ []

abbrev view_from : ℕ → MemRef
view_from n = record {
  elem_ty = 7;
  bid = block;
  offset = num n 32;
  sizes = shape;
  layout = identity_layout 32 [] shape;
  is_view_ref = const false;
}

abbrev spot : List Tm
spot = num 1 32 ∷ num 2 32 ∷ []

view-IsAccess : IsAccess solver-IsSmt even 32 (omega arith) (view_from 1) [] spot
view-IsAccess = record {
  identity = refl;
  offset_width = refl;
  sizes_width = (refl, (refl, tt));
  indices_width = (refl, (refl, tt));
  some_index = omega arith;
  as_many = refl;
}

value_sorts : (u : ℕ) (i : Tm) → is_boolean (select (entry two.arrays u) i) ≡ false
unfolding entry select
value_sorts zero i = refl
value_sorts (suc zero) i = refl
value_sorts (suc (suc u)) i = refl

get_with_access_info_lem_example :
    (e : Tm) × (info : AccessInfo) × (get_with_access_info 32 1 two (view_from 1) spot
      ≡ some (e, info))
    × (bits_of even e ≡ value_at solver-IsSmt even two 0 6)
unfolding place
get_with_access_info_lem_example =
    get_with_access_info_lem solver-IsSmt even 32 (omega arith) two 1 (view_from 1) [] spot
      view-IsAccess block-IsBid value_sorts

store_through_lem_example :
    (info : AccessInfo) × (m' : Blocks) × (store_through 32 (num 9 8) spot (view_from 1) two
      ≡ some (info, m'))
    × (value_at solver-IsSmt even m' 0 6 ≡ 9)
    × (init_at solver-IsSmt even m' 0 6 ≡ true)
unfolding place
store_through_lem_example =
    store_through_lem solver-IsSmt even 32 (omega arith) (num 9 8) two (view_from 1) [] spot 0 6
      view-IsAccess two-IsWellFormed block-IsBid (omega arith)

view-IsSpan :
    (n : ℕ)
    → n % 2 ^ 32 + 6 < 2 ^ 32
    → IsSpan solver-IsSmt even 32 (omega arith) (omega arith) (view_from n)
unfolding count is_identity_map identity_layout
view-IsSpan n h = record {
  identity = refl;
  bid_width = omega arith;
  offset_width = refl;
  sizes_width = (refl, (refl, tt));
  no_wrap = h;
}

-- The formula for the views from 1 and from 7.
abbrev formula : Tm
formula = or (negate (equal block block)) (
    and (equal block block) (
      or (ule (add (num 7 32) (get_1d_size 32 shape)) (num 1 32))
        (ule (add (num 1 32) (get_1d_size 32 shape)) (num 7 32))))

-- The last position of the first view, and the second of the other.
abbrev last_of_first : ℕ
last_of_first = 6

abbrev second_of_other : ℕ
second_of_other = 8

noalias_lem_example : last_of_first ≢ second_of_other
unfolding count noalias is_identity_map identity_layout negate and or equal ule add get_1d_size mul
noalias_lem_example =
    noalias_lem solver-IsSmt even 32 (omega arith) (omega arith) (view_from 1) (view_from 7)
      last_of_first second_of_other formula (view-IsSpan 1 (omega arith))
      (view-IsSpan 7 (omega arith)) refl refl (omega arith) (omega arith) (omega arith)
      (omega arith) refl
