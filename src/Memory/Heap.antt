-- ===== src/Memory/Heap.antt =====
-- `store`, `load`, `isInitialized` and the flags of src/memory.cpp against a heap: a function from
-- a block's number and an offset to a value.
use mlir_tv.Base.{
  ℕ, ◌^◌, ◌≤◌, ◌<◌, ◌≡◌, refl, inl, inr, Bool, true, false, ◌&&◌, List, length, if◌then◌else◌, ◌==◌,
  Option-cases, sym, ap, ◌∙◌,
}
use mlir_tv.Smt.Terms.{Smt, IsSmt}
use mlir_tv.Smt.Logic.{mk_bool, mk_ite, truth-mk_ite, truth-mk_bool, mk_ite_branch, is_bool-mk_ite}
use mlir_tv.Memory.{
  select, store_at, Blocks, entry, read_field, is_initialized, get_liveness, set_liveness_to_false,
  stored, load,
}
use mlir_tv.Memory.Pick.{itebid-pick, update-pick}

if_&& {ℓ} :
    {A : Type ℓ} (s t : Bool) (x y : A)
    → (if s then if t then x else y else y) ≡ (if s && t then x else y)
if_&& true t x y = refl
if_&& false t x y = refl

module _ ⦃S : Smt⦄ (L : IsSmt S) (v : S.Valuation) where
  open S use {Term, bits, truth, cell, flag, width, is_bool}

  pub bits-select : (a i : Term) → bits v (select a i) ≡ cell v a (bits v i)
  unfolding select
  bits-select a i = elim (Option-cases (S.splat? a)) [
    | inr (e, p) ↦
        rw (p, select)
          (sym
            (ap (λ t. cell v t (bits v i)) (L.splat_lem a e p) ∙ L.cell-const_array v e (bits v i)))
    | inl p ↦ elim (Option-cases (S.lambda_body? a)) [
      | inl q ↦ rw (p, q, select) (L.bits-select_ v a i)
      | inr (e, q) ↦ rw (p, q, select) (L.bits-instantiate v a e i q)
    ]
  ]

  pub truth-select : (a i : Term) → truth v (select a i) ≡ flag v a (bits v i)
  unfolding select
  truth-select a i = elim (Option-cases (S.splat? a)) [
    | inr (e, p) ↦
        rw (p, select)
          (sym
            (ap (λ t. flag v t (bits v i)) (L.splat_lem a e p) ∙ L.flag-const_array v e (bits v i)))
    | inl p ↦ elim (Option-cases (S.lambda_body? a)) [
      | inl q ↦ rw (p, q, select) (L.truth-select_ v a i)
      | inr (e, q) ↦ rw (p, q, select) (L.truth-instantiate v a e i q)
    ]
  ]

  -- The heap: the value, and whether it is initialized, at an offset of a block.
  abbrev pub value_at : Blocks → ℕ → ℕ → ℕ
  value_at m u j = cell v (entry m.arrays u) j

  abbrev pub init_at : Blocks → ℕ → ℕ → Bool
  init_at m u j = flag v (entry m.initialized u) j

  abbrev pub flag_at : (Blocks → List Term) → Blocks → ℕ → Bool
  flag_at field m u = truth v (entry (field m) u)

  -- The vectors have one length, and their arrays are no Booleans.
  pub record IsWellFormed (m : Blocks) : Type 0 where
    pub initialized_length : length m.initialized ≡ length m.arrays
    pub writables_length : length m.writables ≡ length m.arrays
    pub liveness_length : length m.liveness ≡ length m.arrays
    pub arrays_sort : (u : ℕ) → is_bool (entry m.arrays u) ≡ false
    pub initialized_sort : (u : ℕ) → is_bool (entry m.initialized u) ≡ false

  -- `bid` is the number of a block, in at most 64 bits, which are enough for all the numbers.
  pub record IsBid (m : Blocks) (bid : Term) : Type 0 where
    pub narrow : width bid ≤ 64
    pub enough : length m.arrays ≤ 2 ^ width bid
    pub inside : bits v bid < length m.arrays

  cell-ite :
      (j : ℕ) (c a b : Term)
      → is_bool a ≡ false
      → is_bool b ≡ false
      → cell v (mk_ite c a b) j ≡ (if truth v c then cell v a j else cell v b j)
  cell-ite j c a b p q = (mk_ite_branch L v c a b p q).cell_eq j ∙ ap_if (truth v c)
    where
      ap_if : (t : Bool) → cell v (if t then a else b) j ≡ (if t then cell v a j else cell v b j)
      ap_if true = refl
      ap_if false = refl

  flag-ite :
      (j : ℕ) (c a b : Term)
      → is_bool a ≡ false
      → is_bool b ≡ false
      → flag v (mk_ite c a b) j ≡ (if truth v c then flag v a j else flag v b j)
  flag-ite j c a b p q = (mk_ite_branch L v c a b p q).flag_eq j ∙ ap_if (truth v c)
    where
      ap_if : (t : Bool) → flag v (if t then a else b) j ≡ (if t then flag v a j else flag v b j)
      ap_if true = refl
      ap_if false = refl

  bits-ite :
      (c a b : Term)
      → is_bool a ≡ false
      → is_bool b ≡ false
      → bits v (mk_ite c a b) ≡ (if truth v c then bits v a else bits v b)
  bits-ite c a b p q = (mk_ite_branch L v c a b p q).bits_eq ∙ ap_if (truth v c)
    where
      ap_if : (t : Bool) → bits v (if t then a else b) ≡ (if t then bits v a else bits v b)
      ap_if true = refl
      ap_if false = refl

  -- After `store` of `val` at `idx` of the block `bid`, the heap has `val` there, initialized, and
  -- everywhere else what it had.
  pub stored_lem :
      (val bid idx : Term) (m : Blocks) (u j : ℕ)
      → IsWellFormed m
      → IsBid m bid
      → u < length m.arrays
      → let here = bits v bid == u && j == bits v idx in
        (value_at (stored val bid idx m) u j ≡ (if here then bits v val else value_at m u j))
        × (init_at (stored val bid idx m) u j ≡ (if here then true else init_at m u j))
  unfolding stored store_at
  stored_lem val bid idx m u j wf b lt = (
    update-pick L v bid b.narrow (λ t. cell v t j) (λ t. is_bool t ≡ false) (cell-ite j)
          (λ i. store_at (entry m.arrays i) idx val) (λ i. L.is_bool-store_ _ _ _) u m.arrays
          wf.arrays_sort b.enough lt
        ∙ rw (L.cell-store_ v (entry m.arrays u) idx val j)
            (if_&& (bits v bid == u) (j == bits v idx) (bits v val) (value_at m u j)),
    update-pick L v bid b.narrow (λ t. flag v t j) (λ t. is_bool t ≡ false) (flag-ite j)
          (λ i. store_at (entry m.initialized i) idx (mk_bool true)) (λ i. L.is_bool-store_ _ _ _) u
          m.initialized wf.initialized_sort (rw wf.initialized_length b.enough)
          (rw wf.initialized_length lt)
        ∙ rw (L.flag-store_ v (entry m.initialized u) idx (mk_bool true) j, truth-mk_bool L v true)
            (if_&& (bits v bid == u) (j == bits v idx) true (init_at m u j)),
  )

  -- `load` gives the value of the heap at its block and offset, for values that are bit-vectors.
  pub load_lem :
      (m : Blocks) (bid_bits : ℕ) (bid idx : Term)
      → IsBid m bid
      → ((u : ℕ) → is_bool (select (entry m.arrays u) idx) ≡ false)
      → bits v (load m bid_bits bid idx).0 ≡ value_at m (bits v bid) (bits v idx)
  unfolding load
  load_lem m bid_bits bid idx b sorts =
      itebid-pick L v bid b.narrow mk_ite (bits v) (λ t. is_bool t ≡ false)
        (λ c x y p q. is_bool-mk_ite L c x y p q) bits-ite (λ i. select (entry m.arrays i) idx)
        sorts (length m.arrays) b.enough b.inside
      ∙ bits-select (entry m.arrays (bits v bid)) idx

  -- `isInitialized` and the getters of flags read the heap, at the block that `bid` is.
  pub is_initialized_lem :
      (m : Blocks) (bid idx : Term)
      → IsBid m bid
      → truth v (is_initialized m bid idx) ≡ init_at m (bits v bid) (bits v idx)
  unfolding is_initialized
  is_initialized_lem m bid idx b =
      itebid-pick L v bid b.narrow mk_ite (truth v) (λ t. Unit) (λ c x y p q. tt)
        (λ c x y p q. truth-mk_ite L v c x y) (λ i. select (entry m.initialized i) idx) (λ i. tt)
        (length m.arrays) b.enough b.inside
      ∙ truth-select (entry m.initialized (bits v bid)) idx

  read_field_lem :
      (field : Blocks → List Term) (m : Blocks) (bid : Term)
      → IsBid m bid
      → truth v (read_field field m bid) ≡ flag_at field m (bits v bid)
  unfolding read_field
  read_field_lem field m bid b =
      itebid-pick L v bid b.narrow mk_ite (truth v) (λ t. Unit) (λ c x y p q. tt)
        (λ c x y p q. truth-mk_ite L v c x y) (entry (field m)) (λ i. tt) (length m.arrays) b.enough
        b.inside

  -- After `setLivenessToFalse` of the block `bid`, `getLiveness` of a block `other` answers false
  -- where `other` is that block, and else what it answered.
  get_liveness-set_liveness_to_false :
      (m : Blocks) (bid other : Term)
      → IsWellFormed m
      → IsBid m bid
      → IsBid m other
      → truth v (get_liveness (set_liveness_to_false bid m) other)
        ≡ (if bits v bid == bits v other then false else truth v (get_liveness m other))
  unfolding get_liveness set_liveness_to_false
  get_liveness-set_liveness_to_false m bid other wf b o =
      read_field_lem (λ n. n.liveness) (set_liveness_to_false bid m) other
        (record { narrow = o.narrow; enough = o.enough; inside = o.inside })
      ∙ update-pick L v bid b.narrow (truth v) (λ t. Unit) (λ c x y p q. truth-mk_ite L v c x y)
          (λ i. mk_bool false) (λ i. tt) (bits v other) m.liveness (λ i. tt)
          (rw wf.liveness_length b.enough) (rw wf.liveness_length o.inside)
      ∙ rw (truth-mk_bool L v false, read_field_lem (λ n. n.liveness) m other o)
