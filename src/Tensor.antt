-- ===== src/Tensor.antt =====
-- src/value.cpp: the tensors, which are arrays of elements in row-major order, an array of the flags
-- that say which elements are initialized, and the sizes of the dimensions. The number of an element
-- type stands for it, the width of an index (`Index::bits()`) is a parameter, and so are the variables
-- that `Index::var` and `Index::boundIndexVars` make. `none` is a failed assertion.
pub mod Shape
pub mod Lambda
pub mod Vars
pub mod Moves
pub mod Repeat
pub mod Pointwise
pub mod Refine
pub mod Insert
pub mod Concat
pub mod Reduce
pub mod Convolve
pub mod Depthwise
pub mod Windows
pub mod Attributes
use mlir_tv.Base.{
  ℕ, zero, suc, ◌+◌, ◌-◌, ◌*◌, ◌%◌, ◌^◌, Bool, true, false, ◌&&◌, Option, none, some, List, [], ◌∷◌,
  map, length, get_or, get_elem?, set, ◌==◌, if◌then◌else◌, ◌>>=◌, ◌>>◌, guard,
}
use mlir_tv.Smt.Terms.{Smt}
use mlir_tv.Smt.Logic.{mk_bool, and, implies, mk_ite}
use mlir_tv.Smt.Arith.{mk_bv, urem}
use mlir_tv.Smt.Compare.{equal, ult, ule}
use mlir_tv.Smt.Words.{add, sub, mul}
use mlir_tv.Smt.Index.{from_1d_idx, to_1d_idx, get_1d_size, simplify_list, fits_in_dims}
use mlir_tv.Memory.{select}

-- The array of an attribute's numbers: a `uint64_t` offset in row-major order.
unfoldable pub sparse_offset : ℕ → List ℕ → List ℕ → ℕ
sparse_offset ofs (i ∷ is) (d ∷ ds) = sparse_offset ((ofs * d % 2 ^ 64 + i) % 2 ^ 64) is ds
sparse_offset ofs [] ds = ofs
sparse_offset ofs (i ∷ is) [] = ofs

-- Every variable?
unfoldable pub all_of : {A : Type 0} → (A → Bool) → List A → Bool
all_of p [] = true
all_of p (x ∷ xs) = p x && all_of p xs

module _ ⦃S : Smt⦄ where
  open S use {
    Term, width, numeral?, is_var, is_false, simplify, store_, const_array, lambda_, substitute,
  }

  pub record Tensor : Type 0 where
    pub elem_type : ℕ
    pub dims : List Term
    pub arr : Term
    pub initialized : Term

  -- `Expr - 1` and its like, with a constant of the term's width.
  unfoldable pub less_constant : Term → ℕ → Term
  unfolding mk_bv
  less_constant a n = sub a (mk_bv n (width a))

  -- Every element is initialized.
  unfoldable pub all_initialized : Term
  unfolding mk_bool
  all_initialized = const_array (mk_bool true)

  -- `Tensor::fromArray`
  unfoldable pub from_array : ℕ → Term → List Term → Tensor
  unfolding all_initialized
  from_array ty a ds = record { elem_type = ty; dims = ds; arr = a; initialized = all_initialized }

  -- The constructor of a splat tensor.
  unfoldable pub splat_tensor : ℕ → Term → List Term → Tensor
  unfolding from_array
  splat_tensor ty elem ds = from_array ty (const_array elem) ds

  -- `arr = arr.store(i, elems1d[i])` from element `i` on.
  unfoldable pub store_elements : ℕ → ℕ → List Term → Term → Term
  unfolding mk_bv
  store_elements w i [] a = a
  store_elements w i (e ∷ es) a = store_elements w (suc i) es (store_ a (mk_bv i w) e)

  -- The constructors of a dense tensor, by its fresh array `a`.
  unfoldable pub dense_tensor : ℕ → ℕ → Term → List Term → Tensor
  unfolding mk_bv store_elements from_array
  dense_tensor w ty a elems =
      from_array ty (store_elements w 0 elems a) (mk_bv (length elems % 2 ^ 32) w ∷ [])

  unfoldable pub shaped_dense_tensor : ℕ → ℕ → Term → List Term → List ℕ → Tensor
  unfolding mk_bv store_elements from_array
  shaped_dense_tensor w ty a elems dim =
      from_array ty (store_elements w 0 elems a) (map (λ d. mk_bv (d % 2 ^ 32) w) dim)

  -- The loop of the sparse constructor, over the indices and their elements.
  unfoldable pub store_sparse : ℕ → List ℕ → List (List ℕ) → List Term → Term → Option Term
  unfolding mk_bv sparse_offset
  store_sparse w ds [] es a = some a
  store_sparse w ds (index ∷ rest) [] a = none
  store_sparse w ds ([] ∷ rest) (e ∷ es) a = none
  store_sparse w [] ((i ∷ is) ∷ rest) (e ∷ es) a = none
  store_sparse w (d ∷ ds) ((i ∷ is) ∷ rest) (e ∷ es) a =
      let stored = store_sparse w (d ∷ ds) rest es (store_ a (mk_bv (sparse_offset i is ds) w) e) in
      if length is == length ds then stored else none

  unfoldable pub sparse_tensor : ℕ → ℕ → List (List ℕ) → List Term → List ℕ → Term → Option Tensor
  unfolding mk_bv store_sparse from_array
  sparse_tensor w ty indices elems ds zero_elem = do
    guard (length indices == length elems)
    a ← store_sparse w ds indices elems (const_array zero_elem)
    some (from_array ty a (map (λ d. mk_bv (d % 2 ^ 32) w) ds))

  -- The loop of `getWellDefined` over the dimensions.
  unfoldable pub dims_bounded : ℕ → Term → List Term → Term
  unfolding and mk_bv
  dims_bounded max_dim e [] = e
  dims_bounded max_dim e (d ∷ ds) = elim (numeral? d) [
    | some n ↦ dims_bounded max_dim e ds
    | none ↦ dims_bounded max_dim (and e (ule d (mk_bv max_dim (width d)))) ds
  ]

  unfoldable pub get_well_defined : ℕ → ℕ → ℕ → Tensor → Term
  unfolding mk_bool dims_bounded mk_bv
  get_well_defined w max_size max_dim t =
      let size = get_1d_size w t.dims in
      elim (numeral? size) [
        | some n ↦ mk_bool true
        | none ↦ simplify (dims_bounded max_dim (ule size (mk_bv max_size (width size))) t.dims)
      ]

  unfoldable pub is_in_bounds : Tensor → List Term → Option Term
  is_in_bounds t indices = do e ← fits_in_dims indices t.dims; some (simplify e)

  -- `Tensor::getRaw`
  unfoldable pub get_raw : Tensor → Term → Term
  unfolding select
  get_raw t index_raw = select t.arr index_raw

  unfoldable pub get : ℕ → Tensor → List Term → Option Term
  unfolding get_raw
  get w t indices = do i ← to_1d_idx w indices t.dims; some (get_raw t i)

  -- `Tensor::isInitialized`
  unfoldable pub get_initialized : ℕ → Tensor → List Term → Option Term
  unfolding select
  get_initialized w t indices = do i ← to_1d_idx w indices t.dims; some (select t.initialized i)

  -- Without index variables a tensor has one element.
  unfoldable pub lambda_dims : ℕ → List Term → List Term → Option (List Term)
  unfolding mk_bv
  lambda_dims w [] [] = some (mk_bv 1 w ∷ [])
  lambda_dims w (d ∷ ds) [] = elim (numeral? d) [
    | none ↦ none
    | some n ↦ if n == 1 && length ds == 0 then some (d ∷ ds) else none
  ]
  lambda_dims w ds (x ∷ xs) = if length ds == suc (length xs) then some ds else none

  unfoldable pub at_index : List Term → List Term → Term → Term
  at_index [] idxs body = body
  at_index (x ∷ xs) idxs body = substitute (x ∷ xs) idxs body

  unfoldable pub mk_lambda :
      ℕ → Term → Term → ℕ → List Term → List Term → Term → Term → Option Tensor
  unfolding lambda_dims at_index
  mk_lambda w idx idx_init ty newdims indexvars body init = do
    ds ← lambda_dims w newdims indexvars
    guard (all_of is_var indexvars)
    idxs ← from_1d_idx idx ds
    idxs_init ← from_1d_idx idx_init ds
    some (record {
      elem_type = ty;
      dims = ds;
      arr = lambda_ idx (at_index indexvars idxs body);
      initialized = lambda_ idx_init (at_index indexvars idxs_init init);
    })

  unfoldable pub mk_lambda_from_1d : ℕ → List Term → Term → Term → Term → Tensor
  mk_lambda_from_1d ty newdims indexvar body init = record {
    elem_type = ty;
    dims = newdims;
    arr = lambda_ indexvar body;
    initialized = lambda_ indexvar init;
  }

  unfoldable pub mk_initialized_lambda :
      ℕ → Term → Term → ℕ → List Term → List Term → Term → Option Tensor
  unfolding mk_lambda mk_bool
  mk_initialized_lambda w idx idx_init ty newdims indexvars body =
      mk_lambda w idx idx_init ty newdims indexvars body (mk_bool true)
