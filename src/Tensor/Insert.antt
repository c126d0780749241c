-- ===== src/Tensor/Insert.antt =====
-- The elements of the tensor that `Tensor::insert` of src/value.cpp makes.
use mathlib.Core.Path.{subst}
use native.Mathlib.Nat.{le_trans, mod-eq_of_lt}
use mathlib.Core.List.{reverse_aux-reverse_aux-nil}
use mlir_tv.Base.{
  ℕ, suc, ◌%◌, ◌^◌, ◌≤◌, ◌<◌, ◌≡◌, refl, Bool, true, false, inl, inr, some, List, [], ◌∷◌, map,
  reverse, length, All, ◌==◌, ==_iff, if◌then◌else◌, arith, Bool-cases, Option-cases, sym, ap, ◌∙◌,
}
use mlir_tv.Smt.Terms.{Smt, IsSmt, IsFresh}
use mlir_tv.Smt.Logic.{mk_bool, mk_ite, mk_ite_branch, truth-mk_ite, truth-mk_bool}
use mlir_tv.Smt.Compare.{equal}
use mlir_tv.Smt.Compare.Equal.{truth-equal}
use mlir_tv.Smt.Index.{from_1d_idx, to_1d_idx, fits_from, fits_in_dims}
use mlir_tv.Smt.Index.Lists.{same_values, same_values_eq, same_values_self, length-values}
use mlir_tv.Smt.Index.Digits.{
  InDims, row_major, product, row_major-lt_product, low_digits, low_digits-row_major,
}
use mlir_tv.Smt.Index.Meaning.{AreIndices, to_1d_idx_lem, length-InDims}
use mlir_tv.Memory.{select}
use mlir_tv.Tensor.{Tensor, get_raw, get, get_initialized, is_in_bounds}
use mlir_tv.Tensor.Lambda.{
  IsBinder, indices_again, map-fresh, element, element_initialized, get_lem,
}
use mlir_tv.Tensor.Shape.{insert}

-- Two indices in the same dimensions that have one offset are the same.
row_major-injective :
    (w : ℕ) (ns ks ds : List ℕ)
    → 0 < length ds
    → InDims ns ds
    → InDims ks ds
    → row_major ns ds ≡ row_major ks ds
    → ns ≡ ks
row_major-injective w ns ks ds p h k e =
    let r : reverse ns ≡ reverse ks =
      sym (low_digits-row_major w ns ds p h)
      ∙ ap (λ (m : ℕ). low_digits w m (reverse ds)) e
      ∙ low_digits-row_major w ks ds p k in
    sym (reverse_aux-reverse_aux-nil ns []) ∙ ap reverse r ∙ reverse_aux-reverse_aux-nil ks []

InDims-length : (ns ms : List ℕ) → InDims ns ms → length ns ≡ length ms
InDims-length [] [] h = refl
InDims-length [] (m ∷ ms) h = absurd h
InDims-length (n ∷ ns) [] h = absurd h
InDims-length (n ∷ ns) (m ∷ ms) h = ap suc (InDims-length ns ms h.1)

-- Comparing offsets is comparing indices.
same_offset :
    (w : ℕ) (ns ks ds : List ℕ)
    → 0 < length ds
    → InDims ns ds
    → InDims ks ds
    → (row_major ns ds == row_major ks ds) ≡ same_values ns ks
same_offset w ns ks ds p h k = elim (Bool-cases (same_values ns ks)) [
  | inl e ↦
      let l : length ns ≡ length ks = InDims-length ns ds h ∙ sym (InDims-length ks ds k) in
      let f = same_values_eq ns ks l e in (==_iff _ _).1 (ap (λ l. row_major l ds) f) ∙ sym e
  | inr e ↦ elim (Bool-cases (row_major ns ds == row_major ks ds)) [
    | inr f ↦ f ∙ sym e
    | inl f ↦
        let g = row_major-injective w ns ks ds p h k ((==_iff _ _).0 f) in
        f ∙ sym (ap (λ l. same_values l ks) g ∙ same_values_self ks)
  ]
]

module _ ⦃S : Smt⦄ (L : IsSmt S) (w : ℕ) (s : w ≤ 32) where
  open S use {Term, Valuation, bits, truth, cell, flag, assign, width, is_bool, lambda_}

  -- The elements of the tensor are no Booleans.
  unfoldable pub HasBits : Tensor → Type 0
  HasBits t = (i : Term) → is_bool (select t.arr i) ≡ false

  pub get-sort :
      (t : Tensor) (is : List Term) (e : Term) → HasBits t → get w t is ≡ some e → is_bool e ≡ false
  unfolding get get_raw HasBits
  get-sort t is e h g = elim (Option-cases (to_1d_idx w is t.dims)) [
    | inl n ↦ absurd (ground arith)
    | inr (p, n) ↦
        let f : select t.arr p ≡ e = ground arith in subst (λ z. is_bool z ≡ false) f (h p)
  ]

  pub bits-pick :
      (u : Valuation) (c a b : Term)
      → is_bool a ≡ false
      → is_bool b ≡ false
      → bits u (mk_ite c a b) ≡ (if truth u c then bits u a else bits u b)
  bits-pick u c a b p q = (mk_ite_branch L u c a b p q).bits_eq ∙ pick (truth u c)
    where
      pick : (t : Bool) → bits u (if t then a else b) ≡ (if t then bits u a else bits u b)
      pick true = refl
      pick false = refl

  -- What `insert` needs of its variable `x`: the tensor, the value and the indices do not mention it.
  pub record IsInsertVar (x value : Term) (is : List Term) (t : Tensor) : Type 0 where
    pub binder : IsBinder L w s x t.dims
    pub fresh_arr : IsFresh S x t.arr
    pub fresh_initialized : IsFresh S x t.initialized
    pub fresh_value : IsFresh S x value
    pub fresh_indices : All (IsFresh S x) is

  -- At the offset of `ns`, the element of `t` at the indices that the variable stands for.
  origin_lem :
      (v : Valuation) (x value : Term) (is : List Term) (t : Tensor) (ns : List ℕ)
      → 0 < length t.dims
      → IsInsertVar x value is t
      → AreIndices L v w s t.dims
      → InDims ns (map (bits v) t.dims)
      → product (map (bits v) t.dims) ≤ 2 ^ w
      → (idxs : List Term) × (o : Term) × (i : Term) × (from_1d_idx x t.dims ≡ some idxs)
        × (get w t idxs ≡ some o)
        × (get_initialized w t idxs ≡ some i)
        × (bits (assign v x (row_major ns (map (bits v) t.dims))) o ≡ element L w s v t ns)
        × (truth (assign v x (row_major ns (map (bits v) t.dims))) i
            ≡ element_initialized L w s v t ns)
  unfolding element element_initialized
  origin_lem v x value is t ns z b a k p =
      let v' = assign v x (row_major ns (map (bits v) t.dims)) in
      let (idxs, f, l, c, e) = indices_again L w s v x t.dims ns z b.binder a k p in
      let (o, i, g, h, m, m') = get_lem L w s v' t idxs l c a in
      let dims_eq =
        map-fresh L w s v x (row_major ns (map (bits v) t.dims)) t.dims b.binder.fresh_dims in
      let n' = row_major (map (bits v') idxs) (map (bits v') t.dims) % 2 ^ w in
      let r : n' ≡ row_major ns (map (bits v) t.dims) % 2 ^ w =
        ap (λ (l : List ℕ). row_major l (map (bits v') t.dims) % 2 ^ w) e
        ∙ ap (λ (l : List ℕ). row_major ns l % 2 ^ w) dims_eq in
      let fa = b.fresh_arr v (row_major ns (map (bits v) t.dims)) in
      let fi = b.fresh_initialized v (row_major ns (map (bits v) t.dims)) in
      (
        idxs,
        o,
        i,
        f,
        g,
        h,
        m ∙ fa.cell_eq n' ∙ ap (cell v t.arr) r,
        m' ∙ fi.flag_eq n' ∙ ap (flag v t.initialized) r,
      )

  -- The condition of `insert` at the offset of `ns`.
  condition_lem :
      (v : Valuation) (x value pos : Term) (is : List Term) (t : Tensor) (ns : List ℕ)
      → 0 < length t.dims
      → IsInsertVar x value is t
      → AreIndices L v w s is
      → AreIndices L v w s t.dims
      → to_1d_idx w is t.dims ≡ some pos
      → InDims ns (map (bits v) t.dims)
      → InDims (map (bits v) is) (map (bits v) t.dims)
      → product (map (bits v) t.dims) ≤ 2 ^ w
      → truth (assign v x (row_major ns (map (bits v) t.dims))) (equal x pos)
        ≡ same_values ns (map (bits v) is)
  condition_lem v x value pos is t ns z b wi a e k ki p =
      let ms = map (bits v) t.dims in
      let n = row_major ns ms in
      let v' = assign v x n in
      let lm : 0 < length ms = rw (length-values L v t.dims) z in
      let lt : n < 2 ^ w = le_trans (row_major-lt_product ns ms lm k) p in
      let lt' : row_major (map (bits v) is) ms < 2 ^ w =
        le_trans (row_major-lt_product (map (bits v) is) ms lm ki) p in
      let (pos', e', _, c) =
        to_1d_idx_lem L v' w s is t.dims (length-InDims L v w s is t.dims ki) wi a in
      let q : pos' ≡ pos = ground arith in
      let c' : bits v' pos ≡ row_major (map (bits v) is) ms =
        ap (bits v') (sym q)
        ∙ c
        ∙ ap (λ (l : List ℕ). row_major l (map (bits v') t.dims) % 2 ^ w)
            (map-fresh L w s v x n is b.fresh_indices)
        ∙ ap (λ (l : List ℕ). row_major (map (bits v) is) l % 2 ^ w)
            (map-fresh L w s v x n t.dims b.binder.fresh_dims)
        ∙ mod-eq_of_lt lt' in
      truth-equal L v' x pos (rw b.binder.index (omega arith))
      ∙ ap (λ (m : ℕ). m == bits v' pos)
          (L.bits-assign v x n b.binder.variable (rw b.binder.index lt))
      ∙ ap (λ (m : ℕ). n == m) c'
      ∙ same_offset w ns (map (bits v) is) ms lm k ki

  is_in_bounds-some :
      (t : Tensor) (is : List Term)
      → length is ≡ length t.dims
      → (e : Term) × (is_in_bounds t is ≡ some e)
  unfolding is_in_bounds fits_in_dims
  is_in_bounds-some t is l = (
    S.simplify (fits_from (mk_bool true) is t.dims),
    rw (is_in_bounds, fits_in_dims, (==_iff (length is) (length t.dims)).1 l),
  )

  -- `insert` of a value at an index in the dimensions, with a variable that nothing mentions and at
  -- most 2 ^ w elements: the new tensor has the value there, initialized, and at every other index the
  -- element that the tensor had, initialized where it was.
  pub insert_lem :
      (v : Valuation) (x value : Term) (is : List Term) (t : Tensor) (ns : List ℕ)
      → 0 < length t.dims
      → IsInsertVar x value is t
      → AreIndices L v w s is
      → AreIndices L v w s t.dims
      → InDims ns (map (bits v) t.dims)
      → InDims (map (bits v) is) (map (bits v) t.dims)
      → product (map (bits v) t.dims) ≤ 2 ^ w
      → is_bool value ≡ false
      → HasBits t
      → (r : Tensor) × (inbounds : Term) × (insert w x value is t ≡ some (r, inbounds))
        × (element L w s v r ns
            ≡ (if same_values ns (map (bits v) is) then bits v value else element L w s v t ns))
        × (element_initialized L w s v r ns
            ≡ (if same_values ns (map (bits v) is) then true else element_initialized L w s v t ns))
  unfolding insert element element_initialized
  insert_lem v x value is t ns z b wi a k ki p nb hb =
      let ms = map (bits v) t.dims in
      let n = row_major ns ms in
      let v' = assign v x n in
      let lm : 0 < length ms = rw (length-values L v t.dims) z in
      let lt : n < 2 ^ w = le_trans (row_major-lt_product ns ms lm k) p in
      let li = length-InDims L v w s is t.dims ki in
      let (pos, e, _, _) = to_1d_idx_lem L v w s is t.dims li wi a in
      let (idxs, o, i, f, g, h, m, m') = origin_lem v x value is t ns z b a k p in
      let (inb, ib) = is_in_bounds-some t is li in
      let c = condition_lem v x value pos is t ns z b wi a e k ki p in
      let new = mk_ite (equal x pos) value o in
      let flags = mk_ite (equal x pos) (mk_bool true) i in
      (
        record t { arr = lambda_ x new; initialized = lambda_ x flags },
        inb,
        rw (insert, e, f, g, h, ib),
        ap (cell v (lambda_ x new)) (mod-eq_of_lt lt)
            ∙ L.cell-lambda_ v x new n
            ∙ bits-pick v' (equal x pos) value o nb (get-sort t idxs o hb g)
            ∙ rw (c, m, (b.fresh_value v n).bits_eq) refl,
        ap (flag v (lambda_ x flags)) (mod-eq_of_lt lt)
            ∙ L.flag-lambda_ v x flags n
            ∙ truth-mk_ite L v' (equal x pos) (mk_bool true) i
            ∙ rw (c, m', truth-mk_bool L v' true) refl,
      )
