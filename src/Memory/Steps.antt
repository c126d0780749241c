-- ===== src/Memory/Steps.antt =====
-- The operations of src/memory.cpp as steps on the blocks of one element type.
use mlir_tv.Base.{
  ℕ, zero, suc, ◌+◌, ◌≤◌, ◌<◌, ◌≡◌, refl, inl, inr, Bool, true, false, List, [], ◌∷◌, ◌++◌, length,
  length-append, set, get_or-append, if◌then◌else◌, ◌==◌, Option-cases, arith, sym, ap, ◌∙◌,
}
use mlir_tv.Smt.Terms.{Smt, IsSmt}
use mlir_tv.Smt.Logic.{mk_bool, mk_ite, truth-mk_ite, truth-mk_bool, is_bool-mk_ite}
use mlir_tv.Smt.Arith.{mk_bv}
use mlir_tv.Smt.Compare.{equal}
use mlir_tv.Smt.Words.{sub}
use mlir_tv.Memory.{
  Blocks, entry, select, update_from, update, stored, store_at, set_writable, set_liveness_to_false,
  push_block,
}
use mlir_tv.Memory.Pick.{update-pick, length-update}
use mlir_tv.Memory.Heap.{IsWellFormed, IsBid, flag_at}
use mlir_tv.Memory.Arrays.{stored_array, fresh_array, written_array, written_flags, in_range}

if_self : (b : Bool) → (if b then false else false) ≡ false
if_self true = refl
if_self false = refl

module _ ⦃S : Smt⦄ (L : IsSmt S) (v : S.Valuation) where
  open S use {Term, bits, truth, width, is_bool, numeral?, const_array}

  -- One operation on the blocks of an element type.
  pub data Step : Blocks → Blocks → Type 0 where
    write : {m : Blocks} (val bid idx : Term) → Step m (stored val bid idx m)
    write_array :
        {m : Blocks} (idx arr bid offset size : Term)
        → is_bool arr ≡ false
        → Step m (stored_array idx arr bid offset size m)
    forget :
        {m : Blocks} (arr init bid : Term)
        → is_bool arr ≡ false
        → is_bool init ≡ false
        → Step m (fresh_array arr init bid m)
    protect : {m : Blocks} (bid : Term) (w : Bool) → Step m (set_writable bid w m)
    free : {m : Blocks} (bid : Term) → IsBid L v m bid → Step m (set_liveness_to_false bid m)
    allocate :
        {m : Blocks} (array numelem writable : Term) (by_alloc : Bool)
        → is_bool array ≡ false
        → Step m (push_block array numelem writable by_alloc m)

  -- Any number of operations.
  pub data Steps : Blocks → Blocks → Type 0 where
    done : {m : Blocks} → Steps m m
    more : {m n k : Blocks} → Step m n → Steps n k → Steps m k

  -- The six vectors are one table.
  pub record IsTable (m : Blocks) : Type 0 where
    pub well_formed : IsWellFormed L v m
    pub numelems_length : length m.numelems ≡ length m.arrays
    pub created_length : length m.created_by_allocs ≡ length m.arrays

  -- No element is a Boolean.
  abbrev Sorted : List Term → Type 0
  Sorted xs = (u : ℕ) → is_bool (entry xs u) ≡ false

  set-Sorted :
      (xs : List Term) (i : ℕ) (t : Term) → Sorted xs → is_bool t ≡ false → Sorted (set xs i t)
  unfolding entry
  set-Sorted [] i t h p u = h u
  set-Sorted (x ∷ xs) zero t h p zero = p
  set-Sorted (x ∷ xs) zero t h p (suc u) = h (suc u)
  set-Sorted (x ∷ xs) (suc i) t h p zero = h zero
  set-Sorted (x ∷ xs) (suc i) t h p (suc u) = set-Sorted xs i t (λ j. h (suc j)) p u

  update_from-Sorted :
      (bid : Term) (f : ℕ → Term) (i : ℕ) (xs : List Term)
      → ((j : ℕ) → is_bool (f j) ≡ false)
      → Sorted xs
      → Sorted (update_from bid f i xs)
  unfolding entry update_from
  update_from-Sorted bid f i [] p h u = h u
  update_from-Sorted bid f i (x ∷ xs) p h zero =
      is_bool-mk_ite L (equal bid (mk_bv i (width bid))) (f i) x (p i) (h zero)
  update_from-Sorted bid f i (x ∷ xs) p h (suc u) =
      update_from-Sorted bid f (i + 1) xs p (λ j. h (suc j)) u

  update-Sorted :
      (bid : Term) (f : ℕ → Term) (xs : List Term)
      → ((j : ℕ) → is_bool (f j) ≡ false)
      → Sorted xs
      → Sorted (update bid f xs)
  unfolding update
  update-Sorted bid f xs p h = elim (Option-cases (numeral? bid)) [
    | inl e ↦ rw (e, update) (update_from-Sorted bid f 0 xs p h)
    | inr (c, e) ↦ rw (e, update) (set-Sorted xs c (f c) h (p c))
  ]

  append-Sorted :
      (xs : List Term) (t : Term) → Sorted xs → is_bool t ≡ false → Sorted (xs ++ t ∷ [])
  unfolding entry mk_bv
  append-Sorted [] t h p zero = p
  append-Sorted [] t h p (suc u) = L.is_bool-bv_val 0 1
  append-Sorted (x ∷ xs) t h p zero = h zero
  append-Sorted (x ∷ xs) t h p (suc u) = append-Sorted xs t (λ j. h (suc j)) p u

  written_array-sort :
      (idx arr offset size size_bid current : Term)
      → is_bool arr ≡ false
      → is_bool (written_array idx arr offset size size_bid current) ≡ false
  unfolding written_array
  written_array-sort idx arr offset size size_bid current h = ground (
    arith,
    L.is_bool-lambda_ idx
        (mk_ite (in_range offset size idx) (select arr (sub idx offset)) (select current idx)),
  )

  longer :
      (xs ys : List Term) (x y : Term)
      → length xs ≡ length ys
      → length (xs ++ x ∷ []) ≡ length (ys ++ y ∷ [])
  longer xs ys x y e =
      length-append xs (x ∷ []) ∙ ap (λ (n : ℕ). n + 1) e ∙ sym (length-append ys (y ∷ []))

  -- Each operation keeps the six vectors one table.
  step-IsTable : (m n : Blocks) → Step m n → IsTable m → IsTable n
  unfolding stored stored_array fresh_array set_writable set_liveness_to_false push_block
      written_flags store_at
  step-IsTable m n (write val bid idx) h =
      let wf = h.well_formed in
      let a = length-update bid (λ i. store_at (entry m.arrays i) idx val) m.arrays in
      let b =
        length-update bid (λ i. store_at (entry m.initialized i) idx (mk_bool true))
          m.initialized in
      record {
        well_formed = record {
          initialized_length = b ∙ wf.initialized_length ∙ sym a;
          writables_length = wf.writables_length ∙ sym a;
          liveness_length = wf.liveness_length ∙ sym a;
          arrays_sort = update-Sorted bid _ m.arrays (λ j. L.is_bool-store_ _ _ _) wf.arrays_sort;
          initialized_sort =
              update-Sorted bid _ m.initialized (λ j. L.is_bool-store_ _ _ _) wf.initialized_sort;
        };
        numelems_length = h.numelems_length ∙ sym a;
        created_length = h.created_length ∙ sym a;
      }
  step-IsTable m n (write_array idx arr bid offset size s) h =
      let wf = h.well_formed in
      let f =
        λ (i : ℕ). written_array idx arr offset size (entry m.numelems i) (entry m.arrays i) in
      let g = λ (i : ℕ). written_flags idx offset size (entry m.initialized i) in
      let a = length-update bid f m.arrays in
      let b = length-update bid g m.initialized in
      record {
        well_formed = record {
          initialized_length = b ∙ wf.initialized_length ∙ sym a;
          writables_length = wf.writables_length ∙ sym a;
          liveness_length = wf.liveness_length ∙ sym a;
          arrays_sort =
              update-Sorted bid f m.arrays
                (λ j.
                  written_array-sort idx arr offset size (entry m.numelems j) (entry m.arrays j) s)
                wf.arrays_sort;
          initialized_sort =
              update-Sorted bid g m.initialized (λ j. L.is_bool-lambda_ _ _) wf.initialized_sort;
        };
        numelems_length = h.numelems_length ∙ sym a;
        created_length = h.created_length ∙ sym a;
      }
  step-IsTable m n (forget arr init bid s s') h =
      let wf = h.well_formed in
      let a = length-update bid (λ i. arr) m.arrays in
      let b = length-update bid (λ i. init) m.initialized in
      record {
        well_formed = record {
          initialized_length = b ∙ wf.initialized_length ∙ sym a;
          writables_length = wf.writables_length ∙ sym a;
          liveness_length = wf.liveness_length ∙ sym a;
          arrays_sort = update-Sorted bid _ m.arrays (λ j. s) wf.arrays_sort;
          initialized_sort = update-Sorted bid _ m.initialized (λ j. s') wf.initialized_sort;
        };
        numelems_length = h.numelems_length ∙ sym a;
        created_length = h.created_length ∙ sym a;
      }
  step-IsTable m n (protect bid w) h =
      let wf = h.well_formed in
      record {
        well_formed = record {
          initialized_length = wf.initialized_length;
          writables_length = length-update bid (λ i. mk_bool w) m.writables ∙ wf.writables_length;
          liveness_length = wf.liveness_length;
          arrays_sort = wf.arrays_sort;
          initialized_sort = wf.initialized_sort;
        };
        numelems_length = h.numelems_length;
        created_length = h.created_length;
      }
  step-IsTable m n (free bid b) h =
      let wf = h.well_formed in
      record {
        well_formed = record {
          initialized_length = wf.initialized_length;
          writables_length = wf.writables_length;
          liveness_length = length-update bid (λ i. mk_bool false) m.liveness ∙ wf.liveness_length;
          arrays_sort = wf.arrays_sort;
          initialized_sort = wf.initialized_sort;
        };
        numelems_length = h.numelems_length;
        created_length = h.created_length;
      }
  step-IsTable m n (allocate array numelem writable by_alloc s) h =
      let wf = h.well_formed in
      record {
        well_formed = record {
          initialized_length = longer m.initialized m.arrays _ _ wf.initialized_length;
          writables_length = longer m.writables m.arrays _ _ wf.writables_length;
          liveness_length = longer m.liveness m.arrays _ _ wf.liveness_length;
          arrays_sort = append-Sorted m.arrays array wf.arrays_sort s;
          initialized_sort =
              append-Sorted m.initialized _ wf.initialized_sort (L.is_bool-const_array _);
        };
        numelems_length = longer m.numelems m.arrays _ _ h.numelems_length;
        created_length = longer m.created_by_allocs m.arrays _ _ h.created_length;
      }

  -- Whatever operations are run on a memory whose six vectors are one table, of sorts that fit, they
  -- leave one.
  pub steps-IsTable : (m n : Blocks) → Steps m n → IsTable m → IsTable n
  steps-IsTable m n done h = h
  steps-IsTable m n (more {n = k} s r) h = steps-IsTable k n r (step-IsTable m k s h)

  -- A block that is not alive stays so in a step, and no block disappears.
  step-dead :
      (m n : Blocks) (u : ℕ)
      → Step m n
      → IsTable m
      → u < length m.arrays
      → flag_at L v (λ b. b.liveness) m u ≡ false
      → (flag_at L v (λ b. b.liveness) n u ≡ false) × (length m.arrays ≤ length n.arrays)
  unfolding stored stored_array fresh_array set_writable set_liveness_to_false push_block
  step-dead m n u (write val bid idx) h lt p =
      (p, omega (arith, length-update bid (λ i. store_at (entry m.arrays i) idx val) m.arrays))
  step-dead m n u (write_array idx arr bid offset size s) h lt p = (
    p,
    omega (
      arith,
      length-update bid
          (λ i. written_array idx arr offset size (entry m.numelems i) (entry m.arrays i)) m.arrays,
    ),
  )
  step-dead m n u (forget arr init bid s s') h lt p =
      (p, omega (arith, length-update bid (λ i. arr) m.arrays))
  step-dead m n u (protect bid w) h lt p = (p, omega arith)
  step-dead m n u (free bid b) h lt p =
      let wf = h.well_formed in
      (
        update-pick L v bid b.narrow (truth v) (λ t. Unit) (λ c x y p q. truth-mk_ite L v c x y)
              (λ i. mk_bool false) (λ i. tt) u m.liveness (λ i. tt) (rw wf.liveness_length b.enough)
              (rw wf.liveness_length lt)
            ∙ rw (truth-mk_bool L v false, p) (if_self (bits v bid == u)),
        omega arith,
      )
  step-dead m n u (allocate array numelem writable by_alloc s) h lt p = (
    ap (truth v) (get_or-append m.liveness u _ _ (rw h.well_formed.liveness_length lt)) ∙ p,
    omega (arith, length-append m.arrays (array ∷ [])),
  )

  -- A block that is not alive in a memory is not alive after any operations on it: `addLocalBlock`
  -- never takes its number, and nothing else revives it.
  pub steps-dead :
      (m n : Blocks) (u : ℕ)
      → Steps m n
      → IsTable m
      → u < length m.arrays
      → flag_at L v (λ b. b.liveness) m u ≡ false
      → (flag_at L v (λ b. b.liveness) n u ≡ false) × (length m.arrays ≤ length n.arrays)
  steps-dead m n u done h lt p = (p, omega arith)
  steps-dead m n u (more {n = k} s r) h lt p =
      let (q, le) = step-dead m k u s h lt p in
      let (q', le') = steps-dead k n u r (step-IsTable m k s h) (omega arith) q in (q', omega arith)
