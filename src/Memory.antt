-- ===== src/Memory.antt =====
-- src/memory.h, src/memory.cpp: the memory of one function. Its six maps from an element type to a
-- vector have the same keys, so they are one list of records of six vectors here. An element type
-- is a number. `none` is a failed assertion or an exception. A vector read out of range, which is
-- undefined, is a fixed term here. The fresh variables that the constructor makes are not modelled.
pub mod Number
pub mod Pick
pub mod Heap
pub mod Width
pub mod Local
pub mod Arrays
pub mod Steps
pub mod Refine
use Prim.Native.String.{String}
use mlir_tv.Base.{
  ℕ, zero, suc, ◌+◌, ◌-◌, ◌*◌, ◌^◌, max, Bool, true, false, ◌&&◌, Option, none, some, List, [], ◌∷◌,
  ◌++◌, length, get_or, set, if◌then◌else◌, ltb, leb, ◌==◌,
}
use mlir_tv.Memory.Number.{Counts, count_of}
use mlir_tv.Smt.Terms.{Smt}
use mlir_tv.Smt.Logic.{mk_bool, and, negate, mk_ite}
use mlir_tv.Smt.Arith.{mk_bv}
use mlir_tv.Smt.Compare.{equal, ult}

module _ ⦃S : Smt⦄ where
  open S use {
    Term, width, numeral?, store_, select_, const_array, splat?, lambda_body?, instantiate,
  }

  -- `Expr::select` at one index
  unfoldable pub select : Term → Term → Term
  select a i = elim (splat? a) [
    | some e ↦ e
    | none ↦ elim (lambda_body? a) [ none ↦ select_ a i | some e ↦ instantiate e i ]
  ]

  -- `Expr::store`
  unfoldable pub store_at : Term → Term → Term → Term
  store_at a i x = store_ a i x

  pub record AccessInfo : Type 0 where
    pub inbounds : Term
    pub live : Term
    pub writable : Term
    pub init : Term

  -- `AccessInfo::mkIte`
  unfoldable pub info_ite : Term → AccessInfo → AccessInfo → AccessInfo
  unfolding mk_ite
  info_ite c a b = record {
    inbounds = mk_ite c a.inbounds b.inbounds;
    live = mk_ite c a.live b.live;
    writable = mk_ite c a.writable b.writable;
    init = mk_ite c a.init b.init;
  }

  unfoldable pub check_read : AccessInfo → Term
  unfolding and
  check_read a = and (and a.inbounds a.live) a.init

  unfoldable pub check_write : AccessInfo → Bool → Term
  unfolding and mk_bool
  check_write a ignore_writable =
      and (and a.inbounds a.live) (if ignore_writable then mk_bool true else a.writable)

  unfoldable pub check_read_write : AccessInfo → Term
  unfolding and
  check_read_write a = and (and (and a.inbounds a.live) a.init) a.writable

  -- The loop of `itebid` over the blocks from `i` on.
  unfoldable pub itebid_from {ℓ} :
      {T : Type ℓ} → (Term → T → T → T) → Term → (ℕ → T) → ℕ → ℕ → T → T
  unfolding mk_bv
  itebid_from ite bid fn i zero acc = acc
  itebid_from ite bid fn i (suc left) acc =
      itebid_from ite bid fn (i + 1) left (ite (equal bid (mk_bv i (width bid))) (fn i) acc)

  -- `Memory::itebid` for an element type with `n` blocks. Its assertions, that there is a block and that
  -- the number has the width `getBIDBits()`, are left to its callers.
  unfoldable pub itebid {ℓ} : {T : Type ℓ} → (Term → T → T → T) → ℕ → Term → (ℕ → T) → T
  unfolding itebid_from
  itebid ite n bid fn = elim (numeral? bid) [
    | some c ↦ fn c
    | none ↦ itebid_from ite bid fn 1 (n - 1) (fn 0)
  ]

  unfoldable pub update_from : Term → (ℕ → Term) → ℕ → List Term → List Term
  unfolding mk_bv
  update_from bid f i [] = []
  update_from bid f i (x ∷ xs) =
      mk_ite (equal bid (mk_bv i (width bid))) (f i) x ∷ update_from bid f (i + 1) xs

  -- `Memory::update` of one vector, with the same assertions left to its callers.
  unfoldable pub update : Term → (ℕ → Term) → List Term → List Term
  unfolding update_from
  update bid f xs = elim (numeral? bid) [ some c ↦ set xs c (f c) | none ↦ update_from bid f 0 xs ]

  -- The vectors of one element type.
  pub record Blocks : Type 0 where
    pub arrays : List Term
    pub initialized : List Term
    pub writables : List Term
    pub numelems : List Term
    pub liveness : List Term
    pub created_by_allocs : List Term

  unfoldable pub entry : List Term → ℕ → Term
  unfolding mk_bv
  entry xs i = get_or xs i (mk_bv 0 1)

  unfoldable pub read_field : (Blocks → List Term) → Blocks → Term → Term
  unfolding itebid entry
  read_field field m bid = itebid mk_ite (length m.arrays) bid (entry (field m))

  -- `getNumElementsOfMemBlock`, `getLiveness`, `getWritable` and `isCreatedByAlloc`
  pub get_num_elements : Blocks → Term → Term
  get_num_elements m bid = read_field (λ b. b.numelems) m bid

  pub get_liveness : Blocks → Term → Term
  get_liveness m bid = read_field (λ b. b.liveness) m bid

  pub get_writable : Blocks → Term → Term
  get_writable m bid = read_field (λ b. b.writables) m bid

  pub is_created_by_alloc : Blocks → Term → Term
  is_created_by_alloc m bid = read_field (λ b. b.created_by_allocs) m bid

  unfoldable pub is_initialized : Blocks → Term → Term → Term
  unfolding itebid entry select
  is_initialized m bid ofs =
      itebid mk_ite (length m.arrays) bid (λ i. select (entry m.initialized i) ofs)

  -- `setWritable` and `setLivenessToFalse`
  unfoldable pub set_writable : Term → Bool → Blocks → Blocks
  set_writable bid w m = record m { writables = update bid (λ i. mk_bool w) m.writables }

  unfoldable pub set_liveness_to_false : Term → Blocks → Blocks
  set_liveness_to_false bid m = record m { liveness = update bid (λ i. mk_bool false) m.liveness }

  -- `getInfo` of one element.
  unfoldable pub get_info : Blocks → Term → Term → AccessInfo
  get_info m bid idx = record {
    inbounds = ult idx (get_num_elements m bid);
    live = get_liveness m bid;
    writable = get_writable m bid;
    init = is_initialized m bid idx;
  }

  -- The state that `Memory::store` leaves.
  unfoldable pub stored : Term → Term → Term → Blocks → Blocks
  unfolding update store_at entry mk_bool
  stored val bid idx m = record m {
    arrays = update bid (λ i. store_at (entry m.arrays i) idx val) m.arrays;
    initialized =
        update bid (λ i. store_at (entry m.initialized i) idx (mk_bool true)) m.initialized;
  }

  unfoldable pub store : Term → Term → Term → Blocks → AccessInfo × Blocks
  store val bid idx m = let m' = stored val bid idx m in (get_info m' bid idx, m')

  -- The value that `Memory::load` gives, and what it says of the access.
  unfoldable pub load : Blocks → ℕ → Term → Term → Term × AccessInfo
  unfolding itebid entry select
  load m bid_bits bid idx = (
    itebid mk_ite (length m.arrays) bid (λ i. select (entry m.arrays i) idx),
    itebid info_ite (length m.arrays) bid (λ i. get_info m (mk_bv i bid_bits) idx),
  )

  pub record Memory : Type 0 where
    pub bid_bits : ℕ
    pub is_src : Bool
    pub global_blocks_cnt : Counts
    pub max_local_blocks_cnt : Counts
    pub blocks : List (ℕ × Blocks)
    pub global_var_bids : List (String × (ℕ × ℕ))

  unfoldable pub blocks_of : ℕ → List (ℕ × Blocks) → Option Blocks
  blocks_of ty [] = none
  blocks_of ty ((t, b) ∷ m) = if t == ty then some b else blocks_of ty m

  unfoldable pub set_blocks : ℕ → Blocks → List (ℕ × Blocks) → List (ℕ × Blocks)
  set_blocks ty b [] = []
  set_blocks ty b ((t, c) ∷ m) = if t == ty then (t, b) ∷ m else (t, c) ∷ set_blocks ty b m

  -- `isGlobalBlock` and `isLocalBlock`
  pub is_global_block : Memory → ℕ → Term → Term
  is_global_block m ty bid = elim (count_of ty m.global_blocks_cnt) [
    | none ↦ mk_bool false
    | some n ↦ ult bid (mk_bv n (width bid))
  ]

  pub is_local_block : Memory → ℕ → Term → Term
  is_local_block m ty bid = negate (is_global_block m ty bid)

  unfoldable pub total_in : List (ℕ × Blocks) → ℕ
  total_in [] = 0
  total_in ((t, b) ∷ m) = length b.arrays + total_in m

  -- `getTotalNumBlocks`
  unfoldable pub get_total_num_blocks : Memory → ℕ
  unfolding total_in
  get_total_num_blocks m = total_in m.blocks

  -- `arrays[elemTy].push_back(...)` and the like.
  unfoldable pub push_block : Term → Term → Term → Bool → Blocks → Blocks
  unfolding mk_bool
  push_block array numelem writable by_alloc b = record {
    arrays = b.arrays ++ array ∷ [];
    initialized = b.initialized ++ const_array (mk_bool false) ∷ [];
    writables = b.writables ++ writable ∷ [];
    numelems = b.numelems ++ numelem ∷ [];
    liveness = b.liveness ++ mk_bool true ∷ [];
    created_by_allocs = b.created_by_allocs ++ mk_bool by_alloc ∷ [];
  }

  -- `addLocalBlock`, by the variable that it makes for the new block's array.
  unfoldable pub add_local_block : Term → Term → ℕ → Term → Bool → Memory → Option (Term × Memory)
  unfolding push_block blocks_of set_blocks count_of mk_bv
  add_local_block array numelem ty writable by_alloc m = elim (blocks_of ty m.blocks) [
    | none ↦ none
    | some b ↦ elim (count_of ty m.global_blocks_cnt) [
      | none ↦ none
      | some g ↦ elim (count_of ty m.max_local_blocks_cnt) [
        | none ↦ none
        | some l ↦
            if leb (g + l) (length b.arrays)
            then none
            else some (
              mk_bv (length b.arrays) m.bid_bits,
              record m {
                blocks = set_blocks ty (push_block array numelem writable by_alloc b) m.blocks;
              },
            )
      ]
    ]
  ]
