-- ===== src/Memory/Arrays.antt =====
-- src/memory.cpp: the accesses of several elements at once, and the refinement of two memories. The
-- bound variables `j`, `idx` and `arridx` and the fresh ones are parameters.
use mlir_tv.Base.{
  ℕ, Bool, true, false, ◌&&◌, ◌||◌, Option, none, some, List, [], ◌∷◌, length, if◌then◌else◌, ◌==◌,
}
use mlir_tv.Smt.Terms.{Smt}
use mlir_tv.Smt.Logic.{mk_bool, and, or, implies, mk_ite}
use mlir_tv.Smt.Arith.{mk_bv}
use mlir_tv.Smt.Compare.{equal, ult, ule}
use mlir_tv.Smt.Words.{is_zero, add, sub, add_no_overflow}
use mlir_tv.Memory.{
  Blocks, AccessInfo, entry, select, update, itebid_from, itebid, info_ite, get_num_elements,
  get_liveness, get_writable, is_initialized, load, blocks_of,
}
use mlir_tv.Memory.Number.{Counts}

module _ ⦃S : Smt⦄ where
  open S use {Term, width, numeral?, is_true, is_false, lambda_, forall_}

  -- `Expr::mkForall` over one variable
  unfoldable pub mk_forall : Term → Term → Term
  mk_forall x body = elim (numeral? body) [
    | some n ↦ body
    | none ↦ if is_true body || is_false body then body else forall_ x body
  ]

  unfoldable pub less_one : Term → Term
  unfolding mk_bv
  less_one a = sub a (mk_bv 1 (width a))

  unfoldable pub check_in_bounds : Term → Term → Term → Term
  unfolding less_one
  check_in_bounds offset size block_numelem = or (is_zero size) (
      and (add_no_overflow offset (less_one size)) (ult (less_one (add offset size)) block_numelem))

  -- `getInfo` of `size` elements.
  unfoldable pub get_range_info : Term → Blocks → Term → Term → Term → AccessInfo
  unfolding mk_forall check_in_bounds
  get_range_info j m bid idx size = record {
    inbounds = check_in_bounds idx size (get_num_elements m bid);
    live = get_liveness m bid;
    writable = get_writable m bid;
    init = mk_forall j (implies (ult j size) (is_initialized m bid (add j idx)));
  }

  -- Is the offset the constant 0, and `size` that of the block?
  unfoldable pub is_whole : Term → Term → Term → Bool
  is_whole offset size size_bid = elim (numeral? offset) [
    | none ↦ false
    | some n ↦ n == 0 && is_true (equal size size_bid)
  ]

  unfoldable pub in_range : Term → Term → Term → Term
  unfolding and less_one
  in_range offset size idx = and (ule offset idx) (ule idx (less_one (add offset size)))

  -- The new array of one block, and its new initialized flags.
  unfoldable pub written_array : Term → Term → Term → Term → Term → Term → Term
  unfolding is_whole in_range mk_ite select
  written_array idx arr offset size size_bid current =
      if is_whole offset size size_bid
      then arr
      else lambda_ idx
          (mk_ite (in_range offset size idx) (select arr (sub idx offset)) (select current idx))

  unfoldable pub written_flags : Term → Term → Term → Term → Term
  unfolding in_range mk_ite select mk_bool
  written_flags idx offset size current =
      lambda_ idx (mk_ite (in_range offset size idx) (mk_bool true) (select current idx))

  -- The state that `storeArray` leaves.
  unfoldable pub stored_array : Term → Term → Term → Term → Term → Blocks → Blocks
  unfolding update entry written_array written_flags
  stored_array idx arr bid offset size m = record m {
    arrays =
        update bid (λ i. written_array idx arr offset size (entry m.numelems i) (entry m.arrays i))
          m.arrays;
    initialized =
        update bid (λ i. written_flags idx offset size (entry m.initialized i)) m.initialized;
  }

  pub store_array : Term → Term → Term → Term → Term → Term → Blocks → AccessInfo × Blocks
  store_array j idx arr bid offset size m =
      let m' = stored_array idx arr bid offset size m in (get_range_info j m' bid offset size, m')

  -- `freshArray`, by the two fresh variables.
  unfoldable pub fresh_array : Term → Term → Term → Blocks → Blocks
  fresh_array arr init bid m = record m {
    arrays = update bid (λ i. arr) m.arrays;
    initialized = update bid (λ i. init) m.initialized;
  }

  unfoldable pub load_array : Term → Term → Blocks → ℕ → Term → Term → Term → Term × AccessInfo
  unfolding itebid entry select mk_bv
  load_array j arridx m bid_bits bid ofs size = (
    itebid mk_ite (length m.arrays) bid
        (λ i. lambda_ arridx (select (entry m.arrays i) (add arridx ofs))),
    itebid info_ite (length m.arrays) bid (λ i. get_range_info j m (mk_bv i bid_bits) ofs size),
  )

  -- The refinement of memories, by that of two elements (target, source) of an element type.
  module _ (refines_element : ℕ → Term → Term → Term) where
    unfoldable pub refines_block : ℕ → ℕ → Blocks → Blocks → Term → ℕ → Term
    refines_block ty bid_bits tgt src offset i =
        let (src_value, src_info) = load src bid_bits (mk_bv i bid_bits) offset in
        let (tgt_value, tgt_info) = load tgt bid_bits (mk_bv i bid_bits) offset in
        implies (and src_info.inbounds src_info.live) (
          and
            (and (and tgt_info.inbounds tgt_info.live)
              (implies src_info.writable tgt_info.writable))
            (refines_element ty tgt_value src_value))

    -- The formula of one element type with `n` global blocks: the loop is that of `itebid`, from
    -- block 0 on and from `true`.
    unfoldable pub refines_type : ℕ → ℕ → Blocks → Blocks → Term → Term → ℕ → Term
    unfolding itebid_from refines_block mk_bool
    refines_type ty bid_bits tgt src bid offset n =
        itebid_from mk_ite bid (refines_block ty bid_bits tgt src offset) 0 n (mk_bool true)

    -- `Memory::refines`, by the fresh variables of each element type; `none` is a missing type.
    unfoldable pub refines_types :
        (ℕ → Term)
        → (ℕ → Term)
        → ℕ
        → List (ℕ × Blocks)
        → List (ℕ × Blocks)
        → Counts
        → Option (List (ℕ × Term))
    unfolding refines_type blocks_of
    refines_types bid_var offset_var bid_bits tgt src [] = some []
    refines_types bid_var offset_var bid_bits tgt src ((ty, n) ∷ counts) = elim (blocks_of ty tgt) [
      | none ↦ none
      | some t ↦ elim (blocks_of ty src) [
        | none ↦ none
        | some s ↦ elim (refines_types bid_var offset_var bid_bits tgt src counts) [
          | none ↦ none
          | some rest ↦
              some ((ty, refines_type ty bid_bits t s (bid_var ty) (offset_var ty) n) ∷ rest)
        ]
      ]
    ]
