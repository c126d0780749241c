-- ===== src/MemRef/View.antt =====
-- src/value.cpp: `MemRef::subview`, whose layout maps the indices into those of the old one. A dimension
-- of size 1 can be left out; its index is the constant 0.
use mlir_tv.Base.{
  ℕ, zero, suc, ◌+◌, ◌-◌, Bool, true, ◌&&◌, Option, none, some, List, [], ◌∷◌, length, ltb, ◌==◌,
  if◌then◌else◌, ◌>>=◌, ◌>>◌, guard,
}
use mlir_tv.Smt.Terms.{Smt}
use mlir_tv.Smt.Logic.{mk_bool, and}
use mlir_tv.Smt.Arith.{mk_bv}
use mlir_tv.Smt.Words.{add, mul}
use mlir_tv.Smt.Index.{fits_in_dims}
use mlir_tv.MemRef.{Layout, MemRef, inverted_layout}

module _ ⦃S : Smt⦄ where
  open S use {Term, numeral?, is_var}

  -- The positions, from `i` on, of the terms that are no variables: they are the constant 0.
  unfoldable pub zero_offsets : ℕ → List Term → Option (List ℕ)
  zero_offsets i [] = some []
  zero_offsets i (x ∷ xs) =
      let rest = zero_offsets (suc i) xs in
      if is_var x then rest else elim (numeral? x) [
        | none ↦ none
        | some n ↦ if n == 0 then (rest >>= λ l. some (i ∷ l)) else none
      ]

  unfoldable pub only_vars : List Term → List Term
  only_vars [] = []
  only_vars (x ∷ xs) = let rest = only_vars xs in if is_var x then x ∷ rest else rest

  -- `vector::insert` at a position; none beyond the end.
  unfoldable pub insert_at : ℕ → Term → List Term → Option (List Term)
  insert_at zero x xs = some (x ∷ xs)
  insert_at (suc i) x [] = none
  insert_at (suc i) x (y ∷ ys) = do l ← insert_at i x ys; some (y ∷ l)

  unfoldable pub insert_each : ℕ → List ℕ → List Term → Option (List Term)
  unfolding insert_at mk_bv
  insert_each w [] is = some is
  insert_each w (ofs ∷ rest) is = do l ← insert_at ofs (mk_bv 0 w) is; insert_each w rest l

  -- `insertZeros`, for `n` variables before.
  unfoldable pub insert_zeros : ℕ → ℕ → List ℕ → List Term → Option (List Term)
  unfolding insert_each
  insert_zeros w n zeros is = do guard (length is + length zeros == n); insert_each w zeros is

  -- `transformIndices`
  unfoldable pub transform_indices : List Term → List Term → List Term → Option (List Term)
  transform_indices [] offsets is = some []
  transform_indices (s ∷ ss) (o ∷ os) (i ∷ is) = do
    l ← transform_indices ss os is
    some (add (mul i s) o ∷ l)
  transform_indices (s ∷ ss) [] is = none
  transform_indices (s ∷ ss) (o ∷ os) [] = none

  -- `MemRef::createSubViewLayout`, by the functions that invert the new layout.
  unfoldable pub create_subview_layout :
      ℕ
      → Layout
      → List Term
      → List Term
      → List Term
      → List Term
      → List (Term → Term)
      → Option Layout
  unfolding zero_offsets only_vars insert_zeros transform_indices and
  create_subview_layout w old vars_or_zero offsets strides sizes inverses = do
    guard (length old.ind_vars == length vars_or_zero)
    guard (length old.ind_vars == length offsets)
    guard (length old.ind_vars == length strides)
    guard (length old.ind_vars == length sizes)
    zeros ← zero_offsets 0 vars_or_zero
    inverted_layout (only_vars vars_or_zero)
        (λ idxs. do
          full ← insert_zeros w (length vars_or_zero) zeros idxs
          original ← transform_indices strides offsets full
          old.mapping original)
        (λ idxs. do
          full ← insert_zeros w (length vars_or_zero) zeros idxs
          original ← transform_indices strides offsets full
          inside ← old.inbounds_of original
          fits ← fits_in_dims full sizes
          some (and inside fits))
        inverses

  -- The loop of `subview` where dimensions are left out: the index terms and the sizes that stay, by
  -- the positions that are not used and how many of them are still to be left out.
  unfoldable pub reduce_dims :
      ℕ → (ℕ → Bool) → ℕ → ℕ → List Term → List Term → Option (List Term × List Term)
  unfolding mk_bv
  reduce_dims w unused left i [] vars = some ([], [])
  reduce_dims w unused left i (s ∷ ss) [] = none
  reduce_dims w unused left i (s ∷ ss) (x ∷ xs) =
      let dropped = reduce_dims w unused (left - 1) (suc i) ss xs in
      let kept = reduce_dims w unused left (suc i) ss xs in
      if ltb 0 left && unused i
      then (dropped >>= λ r. some (mk_bv 0 w ∷ r.0, r.1))
      else (kept >>= λ r. some (x ∷ r.0, s ∷ r.1))

  unfoldable pub subview :
      ℕ
      → List Term
      → List Term
      → List Term
      → (ℕ → Bool)
      → ℕ
      → List (Term → Term)
      → MemRef
      → Option MemRef
  unfolding create_subview_layout reduce_dims mk_bool
  subview w offsets sizes_of strides unused rank_diff inverses r =
      let reduced = reduce_dims w unused rank_diff 0 sizes_of r.layout.ind_vars in
      let viewed : List Term → List Term → Option MemRef = λ vars kept.
        create_subview_layout w r.layout vars offsets strides sizes_of inverses >>= λ l.
        some (record r { sizes = kept; layout = l; is_view_ref = mk_bool true }) in
      if ltb 0 rank_diff
      then (reduced >>= λ p. viewed p.0 p.1)
      else viewed r.layout.ind_vars sizes_of
