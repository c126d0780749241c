-- ===== src/Smt/Index.antt =====
-- src/smt.cpp: indices of arrays with several dimensions, which are lists of terms, the highest
-- dimension first. `none` is a failed assertion on the sizes. The width of an index
-- (`Index::bits()`, an option of the command line) is a parameter.
pub mod Lists
pub mod Digits
pub mod Meaning
use mlir_tv.Base.{
  ℕ, true, Option, none, some, List, [], ◌∷◌, map, reverse, length, ◌==◌, if◌then◌else◌,
}
use mlir_tv.Smt.Terms.{Smt}
use mlir_tv.Smt.Logic.{mk_bool, and}
use mlir_tv.Smt.Arith.{mk_bv, urem, udiv}
use mlir_tv.Smt.Compare.{equal, ult}
use mlir_tv.Smt.Words.{add, mul}

module _ ⦃S : Smt⦄ where
  open S use {Term, simplify}

  -- The loop of `from1DIdx`, which starts from the lowest dimension; the highest takes the rest.
  unfoldable pub from_low : Term → List Term → List Term
  from_low idx [] = []
  from_low idx (d ∷ []) = idx ∷ []
  from_low idx (d ∷ e ∷ ds) = urem idx d ∷ from_low (udiv idx d) (e ∷ ds)

  unfoldable pub from_1d_idx : Term → List Term → Option (List Term)
  unfolding from_low
  from_1d_idx idx [] = none
  from_1d_idx idx (d ∷ ds) = some (reverse (from_low idx (reverse (d ∷ ds))))

  unfoldable pub nd_low : Term → List Term → List Term
  nd_low idx [] = []
  nd_low idx (d ∷ ds) = urem idx d ∷ nd_low (udiv idx d) ds

  -- `Expr::toNDIndices`
  unfoldable pub to_nd_indices : Term → List Term → Option (List Term)
  unfolding nd_low
  to_nd_indices idx [] = none
  to_nd_indices idx (d ∷ ds) = some (reverse (nd_low idx (reverse (d ∷ ds))))

  unfoldable pub size_from : Term → List Term → Term
  size_from acc [] = acc
  size_from acc (d ∷ ds) = size_from (mul acc d) ds

  unfoldable pub get_1d_size : ℕ → List Term → Term
  unfolding size_from mk_bv
  get_1d_size index_bits dims = simplify (size_from (mk_bv 1 index_bits) dims)

  unfoldable pub simplify_list : List Term → List Term
  simplify_list es = map simplify es

  -- The loop of `to1DIdx` from its second index on.
  unfoldable pub to_from : Term → List Term → List Term → Term
  to_from idx (i ∷ is) (d ∷ ds) = to_from (add (mul idx d) i) is ds
  to_from idx [] ds = idx
  to_from idx (i ∷ is) [] = idx

  unfoldable pub to_1d_idx : ℕ → List Term → List Term → Option Term
  unfolding to_from mk_bv
  to_1d_idx index_bits [] dims = some (mk_bv 0 index_bits)
  to_1d_idx index_bits (i ∷ is) [] = none
  to_1d_idx index_bits (i ∷ is) (d ∷ ds) =
      if length is == length ds then some (simplify (to_from i is ds)) else none

  unfoldable pub fits_from : Term → List Term → List Term → Term
  unfolding and
  fits_from cond (i ∷ is) (s ∷ ss) = fits_from (and cond (ult i s)) is ss
  fits_from cond [] ss = cond
  fits_from cond (i ∷ is) [] = cond

  unfoldable pub fits_in_dims : List Term → List Term → Option Term
  unfolding fits_from mk_bool
  fits_in_dims idxs sizes =
      if length idxs == length sizes then some (fits_from (mk_bool true) idxs sizes) else none

  unfoldable pub equal_from : Term → List Term → List Term → Term
  unfolding and
  equal_from c (x ∷ xs) (y ∷ ys) = equal_from (and c (equal x y)) xs ys
  equal_from c [] ys = c
  equal_from c (x ∷ xs) [] = c

  unfoldable pub lists_equal : List Term → List Term → Option Term
  unfolding equal_from mk_bool
  lists_equal xs ys =
      if length xs == length ys then some (equal_from (mk_bool true) xs ys) else none
