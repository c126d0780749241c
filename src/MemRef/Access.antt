-- ===== src/MemRef/Access.antt =====
-- The accesses of `MemRef` of src/value.cpp with an identity layout, against the heap.
use native.Mathlib.Nat.{add-mod-mod}
use mlir_tv.Base.{
  ℕ, ◌+◌, ◌%◌, ◌^◌, ◌≤◌, ◌<◌, ◌≡◌, refl, true, false, ◌&&◌, some, List, [], ◌∷◌, map, length, ◌==◌,
  ==_iff, if◌then◌else◌, arith, sym, ap, ◌∙◌,
}
use mlir_tv.Smt.Terms.{Smt, IsSmt}
use mlir_tv.Smt.Logic.{mk_bool}
use mlir_tv.Smt.Words.{add}
use mlir_tv.Smt.Words.Sum.{bits-add}
use mlir_tv.Smt.Index.{fits_from, fits_in_dims}
use mlir_tv.Smt.Index.Digits.{row_major}
use mlir_tv.Smt.Index.Meaning.{AreIndices, to_1d_idx_lem}
use mlir_tv.Memory.{Blocks, AccessInfo, entry, select, load, stored, store}
use mlir_tv.Memory.Heap.{value_at, init_at, IsWellFormed, IsBid, load_lem, stored_lem}
use mlir_tv.MemRef.{
  Layout, MemRef, identity_layout, to_1d_idx_with_layout, add_inbounds, get_with_access_info,
  store_through,
}

module _ ⦃S : Smt⦄ (L : IsSmt S) (v : S.Valuation) (w : ℕ) (s : w ≤ 32) where
  open S use {Term, bits, width, is_bool}

  -- A view of a block with an identity layout, and as many indices as it has dimensions.
  pub record IsAccess (r : MemRef) (vars is : List Term) : Type 0 where
    pub identity : r.layout ≡ identity_layout w vars r.sizes
    pub offset_width : width r.offset ≡ w
    pub sizes_width : AreIndices L v w s r.sizes
    pub indices_width : AreIndices L v w s is
    pub some_index : 0 < length is
    pub as_many : length is ≡ length r.sizes

  -- The position in the block.
  unfoldable pub place : MemRef → List Term → ℕ
  place r is = (bits v r.offset + row_major (map (bits v) is) (map (bits v) r.sizes)) % 2 ^ w

  fits_lem :
      (is ds : List Term)
      → (length is == length ds) ≡ true
      → fits_in_dims is ds ≡ some (fits_from (mk_bool true) is ds)
  unfolding fits_in_dims
  fits_lem is ds n = rw (fits_in_dims, n)

  place_lem :
      (r : MemRef) (vars is : List Term)
      → IsAccess r vars is
      → (i : Term) × (inside : Term) × (to_1d_idx_with_layout w r is ≡ some (i, inside))
        × (bits v (add r.offset i) ≡ place r is)
  unfolding to_1d_idx_with_layout identity_layout place
  place_lem r vars [] h = absurd (omega (arith, h.some_index))
  place_lem r vars (c ∷ cs) h =
      let is = c ∷ cs in
      let (t, e, wt, b) =
        to_1d_idx_lem L v w s is r.sizes h.as_many h.indices_width h.sizes_width in
      let inside = fits_from (mk_bool true) is r.sizes in
      let m : r.layout.mapping is ≡ some t = ap (λ (l : Layout). l.mapping is) h.identity ∙ e in
      let n : (length is == length r.sizes) ≡ true = (==_iff _ _).1 h.as_many in
      let f : r.layout.inbounds_of is ≡ some inside =
        ap (λ (l : Layout). l.inbounds_of is) h.identity ∙ fits_lem is r.sizes n in
      let wo = h.offset_width in
      (
        t,
        inside,
        rw (m, f) refl,
        bits-add L v r.offset t (wo ∙ sym wt) (rw wo (omega arith))
            ∙ rw (wo, b)
                (add-mod-mod (bits v r.offset) (row_major (map (bits v) is) (map (bits v) r.sizes))
                  (2 ^ w)),
      )

  -- `get` with an identity layout, through the number of a block in at most 64 bits, of elements that
  -- are no Booleans: it gives the element of the heap in that block, at the offset of the view and the
  -- row-major offset of the indices, modulo 2 ^ w.
  pub get_with_access_info_lem :
      (m : Blocks) (bid_bits : ℕ) (r : MemRef) (vars is : List Term)
      → IsAccess r vars is
      → IsBid L v m r.bid
      → ((u : ℕ) (i : Term) → is_bool (select (entry m.arrays u) i) ≡ false)
      → (e : Term) × (info : AccessInfo) × (get_with_access_info w bid_bits m r is ≡ some (e, info))
        × (bits v e ≡ value_at L v m (bits v r.bid) (place r is))
  unfolding get_with_access_info
  get_with_access_info_lem m bid_bits r vars is h b sorts =
      let (i, inside, e, p) = place_lem r vars is h in
      let at_ = add r.offset i in
      (
        (load m bid_bits r.bid at_).0,
        add_inbounds (load m bid_bits r.bid at_).1 inside,
        rw e refl,
        load_lem L v m bid_bits r.bid at_ b (λ u. sorts u at_)
            ∙ ap (value_at L v m (bits v r.bid)) p,
      )

  -- `store` with an identity layout, through the number of a block in at most 64 bits: the element in
  -- that block at the place of the indices becomes the value and initialized, and every other element
  -- of the memory keeps both.
  pub store_through_lem :
      (value : Term) (m : Blocks) (r : MemRef) (vars is : List Term) (u j : ℕ)
      → IsAccess r vars is
      → IsWellFormed L v m
      → IsBid L v m r.bid
      → u < length m.arrays
      → (info : AccessInfo) × (m' : Blocks) × (store_through w value is r m ≡ some (info, m'))
        × (value_at L v m' u j
            ≡ (if bits v r.bid == u && j == place r is then bits v value else value_at L v m u j))
        × (init_at L v m' u j
            ≡ (if bits v r.bid == u && j == place r is then true else init_at L v m u j))
  unfolding store_through store
  store_through_lem value m r vars is u j h wf b lt =
      let (i, inside, e, p) = place_lem r vars is h in
      let at_ = add r.offset i in
      let (x, y) = stored_lem L v value r.bid at_ m u j wf b lt in
      (
        add_inbounds (store value r.bid at_ m).0 inside,
        stored value r.bid at_ m,
        rw e refl,
        x
            ∙ ap
                (λ (n : ℕ).
                  if bits v r.bid == u && j == n then bits v value else value_at L v m u j)
                p,
        y ∙ ap (λ (n : ℕ). if bits v r.bid == u && j == n then true else init_at L v m u j) p,
      )
