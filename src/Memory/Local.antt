-- ===== src/Memory/Local.antt =====
-- `addLocalBlock` of src/memory.cpp: the block that it makes, and its limit.
use native.Mathlib.Nat.{mod-eq_of_lt, le_trans}
use mlir_tv.Base.{
  ℕ, suc, ◌+◌, ◌^◌, ◌≤◌, ◌<◌, ◌≡◌, inl, inr, Bool, true, false, none, some, List, [], ◌∷◌, ◌++◌,
  length, length-append, get_or-append_last, leb, ◌==◌, arith, Bool-cases, ap, ◌∙◌,
}
use mlir_tv.Smt.Terms.{Smt, IsSmt}
use mlir_tv.Smt.Logic.{mk_bool, truth-mk_bool}
use mlir_tv.Smt.Arith.{mk_bv}
use mlir_tv.Memory.{Blocks, Memory, entry, blocks_of, set_blocks, push_block, add_local_block}
use mlir_tv.Memory.Number.{count_of}
use mlir_tv.Memory.Heap.{init_at, flag_at}

module _ ⦃S : Smt⦄ where
  open S use {Term, bits, truth}

  blocks_of-set_blocks :
      (ty : ℕ) (b c : Blocks) (m : List (ℕ × Blocks))
      → blocks_of ty m ≡ some b
      → blocks_of ty (set_blocks ty c m) ≡ some c
  unfolding blocks_of set_blocks
  blocks_of-set_blocks ty b c [] h = absurd (ground arith)
  blocks_of-set_blocks ty b c ((t, d) ∷ m) h = elim (Bool-cases (t == ty)) [
    | inl e ↦ rw (e, set_blocks, blocks_of, e)
    | inr e ↦ rw (e, set_blocks, blocks_of, e) (blocks_of-set_blocks ty b c m (ground arith))
  ]

  entry-append : (xs : List Term) (y : Term) (n : ℕ) → length xs ≡ n → entry (xs ++ y ∷ []) n ≡ y
  unfolding entry
  entry-append xs y n e = rw (← e) (get_or-append_last xs y (mk_bv 0 1))

  bits-mk_bv : (L : IsSmt S) (v : S.Valuation) (n w : ℕ) → n < 2 ^ w → bits v (mk_bv n w) ≡ n
  unfolding mk_bv
  bits-mk_bv L v n w h = L.bits-bv_val v n w ∙ mod-eq_of_lt h

  pushed_length :
      (array numelem writable : Term) (by_alloc : Bool) (b : Blocks)
      → length (push_block array numelem writable by_alloc b).arrays ≡ suc (length b.arrays)
  unfolding push_block
  pushed_length array numelem writable by_alloc b =
      length-append b.arrays (array ∷ []) ∙ omega arith

  module _ (L : IsSmt S) (v : S.Valuation) (array numelem writable : Term) (by_alloc : Bool)
      (b : Blocks) where
    pushed_alive :
        length b.liveness ≡ length b.arrays
        → flag_at L v
            (λ n. n.liveness)
            (push_block array numelem writable by_alloc b)
            (length b.arrays)
          ≡ true
    unfolding push_block
    pushed_alive e =
        ap (truth v) (entry-append b.liveness (mk_bool true) (length b.arrays) e)
        ∙ truth-mk_bool L v true

    pushed_uninitialized :
        length b.initialized ≡ length b.arrays
        → (j : ℕ)
        → init_at L v (push_block array numelem writable by_alloc b) (length b.arrays) j ≡ false
    unfolding push_block
    pushed_uninitialized e j =
        ap (λ t. S.flag v t j)
          (entry-append b.initialized (S.const_array (mk_bool false)) (length b.arrays) e)
        ∙ L.flag-const_array v (mk_bool false) j
        ∙ truth-mk_bool L v false

  -- What `addLocalBlock` promises of the memory it returns, for a type that had the blocks `b`.
  pub record IsFreshBlock (L : IsSmt S) (v : S.Valuation) (ty : ℕ) (b : Blocks) (bid : Term)
      (m : Memory) : Type 0 where
    pub after : Blocks
    pub found : blocks_of ty m.blocks ≡ some after
    pub one_more : length after.arrays ≡ suc (length b.arrays)
    pub number : bits v bid ≡ length b.arrays
    pub alive : flag_at L v (λ n. n.liveness) after (bits v bid) ≡ true
    pub uninitialized : (j : ℕ) → init_at L v after (bits v bid) j ≡ false

  -- Where the type `ty` has the blocks `b`, and `g` global and `l` local ones are its limit:
  -- below the limit `addLocalBlock` makes a block that is alive and not initialized anywhere, under
  -- the next number, which `bid_bits` bits can hold; at the limit it fails.
  pub add_local_block_lem :
      (L : IsSmt S) (v : S.Valuation) (array numelem writable : Term) (ty g l : ℕ) (by_alloc : Bool)
      (b : Blocks) (m : Memory)
      → blocks_of ty m.blocks ≡ some b
      → count_of ty m.global_blocks_cnt ≡ some g
      → count_of ty m.max_local_blocks_cnt ≡ some l
      → g + l ≤ 2 ^ m.bid_bits
      → length b.liveness ≡ length b.arrays
      → length b.initialized ≡ length b.arrays
      → (length b.arrays < g + l
          → (bid : Term) × (r : Memory) × (add_local_block array numelem ty writable by_alloc m
              ≡ some (bid, r))
            × IsFreshBlock L v ty b bid r)
        × (g + l ≤ length b.arrays → add_local_block array numelem ty writable by_alloc m ≡ none)
  unfolding add_local_block
  add_local_block_lem L v array numelem writable ty g l by_alloc b m p q r enough live init = (
    λ lt.
        let c = push_block array numelem writable by_alloc b in
        let n : bits v (mk_bv (length b.arrays) m.bid_bits) ≡ length b.arrays =
          bits-mk_bv L v (length b.arrays) m.bid_bits (le_trans lt enough) in
        let f : leb (g + l) (length b.arrays) ≡ false = ground arith in
        (
          mk_bv (length b.arrays) m.bid_bits,
          record m { blocks = set_blocks ty c m.blocks },
          rw (p, q, r, f, add_local_block),
          record {
            after = c;
            found = blocks_of-set_blocks ty b c m.blocks p;
            one_more = pushed_length array numelem writable by_alloc b;
            number = n;
            alive = rw n (pushed_alive L v array numelem writable by_alloc b live);
            uninitialized =
                λ j. rw n (pushed_uninitialized L v array numelem writable by_alloc b init j);
          },
        ),
    λ le.
        let f : leb (g + l) (length b.arrays) ≡ true = ground arith in
        rw (p, q, r, f, add_local_block),
  )
