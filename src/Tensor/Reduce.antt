-- ===== src/Tensor/Reduce.antt =====
-- src/value.cpp: the tensor operations that add up, multiply and compare elements. They call the
-- abstract operations of src/abstractops.cpp for that, which are a parameter here, the counters of
-- the operations in use aside. An absent size, index or stride is `none`, and so is a failed assertion.
use mlir_tv.Base.{
  ℕ, Bool, Option, none, some, List, [], ◌∷◌, length, get_elem?, set, ◌==◌, if◌then◌else◌, ◌>>=◌,
  ◌>>◌, guard,
}
use mlir_tv.Smt.Terms.{Smt}
use mlir_tv.Smt.Arith.{mk_bv, udiv}
use mlir_tv.Smt.Words.{add, sub, mul}
use mlir_tv.Smt.Index.{from_1d_idx, get_1d_size}
use mlir_tv.Tensor.{Tensor, get, mk_initialized_lambda}
use mlir_tv.Tensor.Shape.{transpose, to_1d_array_with_ofs}

module _ ⦃S : Smt⦄ where
  open S use {Term, lambda_}

  -- What the tensors call of the abstract operations, by the element type; an optional term is the
  -- value that the operation starts from.
  pub record Reductions : Type 0 where
    pub is_float : ℕ → Bool
    pub is_integer : ℕ → Bool
    pub fp_dot : ℕ → Term → Term → Term → Option Term → Term
    pub int_dot : Term → Term → Term → Option Term → Term
    pub fp_sum : ℕ → Term → Term → Option Term → Term
    pub int_sum : Term → Term → Option Term → Term
    pub fp_max : ℕ → Term → Term → Option Term → Term
    pub fp_add : ℕ → Term → Term → Term
    pub fp_div : ℕ → Term → Term → Term
    pub cast_from_signed_int : ℕ → Term → Term

  -- The bound variables of an operation, which `Index::var` numbers apart: those of its indices, the
  -- two of `mkLambda`, and the one over the elements that it sums up.
  pub record Binders : Type 0 where
    pub index_vars : List Term
    pub idx : Term
    pub idx_init : Term
    pub body_idx : Term

  -- `fmap(init, [&](auto t) { return t.get(indices); })`
  unfoldable pub get_optional : ℕ → Option Tensor → List Term → Option (Option Term)
  get_optional w none indices = some none
  get_optional w (some t) indices = do e ← get w t indices; some (some e)

  -- The dot product and the sum, by the element type.
  unfoldable pub dot_terms : Reductions → ℕ → Term → Term → Term → Option Term → Term
  dot_terms R ty a b n init = if R.is_float ty then R.fp_dot ty a b n init else R.int_dot a b n init

  unfoldable pub sum_terms : Reductions → ℕ → Term → Term → Option Term → Term
  sum_terms R ty a n init = if R.is_float ty then R.fp_sum ty a n init else R.int_sum a n init

  -- `Tensor::dot`
  unfoldable pub dot : Reductions → ℕ → Option Term → Tensor → Tensor → Term
  unfolding dot_terms
  dot R w init t t2 = dot_terms R t.elem_type t.arr t2.arr (get_1d_size w t.dims) init

  -- `Tensor::sum` of all elements.
  unfoldable pub sum : Reductions → ℕ → Term → Tensor → Term
  unfolding sum_terms
  sum R w init_val t = sum_terms R t.elem_type t.arr (get_1d_size w t.dims) (some init_val)

  -- A list of as many sizes one.
  unfoldable pub ones : ℕ → List Term → List Term
  unfolding mk_bv
  ones w [] = []
  ones w (d ∷ ds) = mk_bv 1 w ∷ ones w ds

  -- `Tensor::sum` along an axis.
  unfoldable pub sum_along : Reductions → Binders → ℕ → ℕ → Tensor → Option Tensor
  unfolding sum_terms ones mk_initialized_lambda mk_bv
  sum_along R B w axis t = do
    d ← get_elem? t.dims axis
    row ←
        to_1d_array_with_ofs w B.body_idx (set B.index_vars axis (mk_bv 0 w))
          (set (ones w t.dims) axis d) t
    mk_initialized_lambda w B.idx B.idx_init t.elem_type (set t.dims axis (mk_bv 1 w)) B.index_vars
        (sum_terms R t.elem_type row d none)

  -- The bound variables of `matmul`: the row and the column, the two of `mkLambda`, one for each row
  -- that it multiplies, and the four of `transpose`.
  pub record MatmulVars : Type 0 where
    pub i : Term
    pub j : Term
    pub idx : Term
    pub idx_init : Term
    pub a_idx : Term
    pub bt_idx : Term
    pub transpose_i : Term
    pub transpose_j : Term
    pub transpose_idx : Term
    pub transpose_idx_init : Term

  unfoldable pub matmul :
      Reductions → MatmulVars → ℕ → Tensor → Bool → Option Tensor → Tensor → Option Tensor
  unfolding dot_terms mk_initialized_lambda mk_bv get_optional
  matmul R V w b b_transposed init t = do
    guard (length t.dims == 2)
    guard (length b.dims == 2)
    bt ←
        if b_transposed
        then some b
        else transpose w V.transpose_idx V.transpose_idx_init V.transpose_i V.transpose_j b
    rows ← get_elem? t.dims 0
    n ← get_elem? t.dims 1
    columns ← get_elem? bt.dims 0
    m ← get_elem? bt.dims 1
    a_row ← to_1d_array_with_ofs w V.a_idx (V.i ∷ mk_bv 0 w ∷ []) (mk_bv 1 w ∷ n ∷ []) t
    bt_row ← to_1d_array_with_ofs w V.bt_idx (V.j ∷ mk_bv 0 w ∷ []) (mk_bv 1 w ∷ m ∷ []) bt
    init_val ← get_optional w init (V.i ∷ V.j ∷ [])
    mk_initialized_lambda w V.idx V.idx_init t.elem_type (rows ∷ columns ∷ []) (V.i ∷ V.j ∷ [])
        (dot_terms R t.elem_type a_row bt_row n init_val)

  -- What the three pools have in common: the sizes of the result, the array of a
  -- window's elements, its size and the value to start from.
  pub record Pool : Type 0 where
    pub output_dims : List Term
    pub kernel : Term
    pub kernel_1d_size : Term
    pub init_val : Option Term

  -- The number of windows along a dimension.
  unfoldable pub windows : Term → Term → Term → Term
  windows dim stride kernel_dim = udiv (sub (add dim stride) kernel_dim) stride

  unfoldable pub pool : Binders → ℕ → List Term → List Term → Option Tensor → Tensor → Option Pool
  unfolding windows get_optional
  pool B w kernel_dims strides init t = do
    guard (length kernel_dims == 2)
    guard (length strides == 2)
    n ← get_elem? t.dims 0
    height ← get_elem? t.dims 1
    breadth ← get_elem? t.dims 2
    c ← get_elem? t.dims 3
    k0 ← get_elem? kernel_dims 0
    k1 ← get_elem? kernel_dims 1
    s0 ← get_elem? strides 0
    s1 ← get_elem? strides 1
    o0 ← get_elem? B.index_vars 0
    o1 ← get_elem? B.index_vars 1
    o2 ← get_elem? B.index_vars 2
    o3 ← get_elem? B.index_vars 3
    init_val ← get_optional w init B.index_vars
    kernel_idxs ← from_1d_idx B.body_idx kernel_dims
    ki0 ← get_elem? kernel_idxs 0
    ki1 ← get_elem? kernel_idxs 1
    elem ← get w t (o0 ∷ add (mul o1 s0) ki0 ∷ add (mul o2 s1) ki1 ∷ o3 ∷ [])
    some (record {
      output_dims = n ∷ windows height s0 k0 ∷ windows breadth s1 k1 ∷ c ∷ [];
      kernel = lambda_ B.body_idx elem;
      kernel_1d_size = mul k0 k1;
      init_val = init_val;
    })

  unfoldable pub pool_result : Binders → ℕ → Tensor → Pool → Term → Option Tensor
  unfolding mk_initialized_lambda
  pool_result B w t p output =
      mk_initialized_lambda w B.idx B.idx_init t.elem_type p.output_dims B.index_vars output

  unfoldable pub sum_pool :
      Reductions → Binders → ℕ → List Term → List Term → Option Tensor → Tensor → Option Tensor
  unfolding pool pool_result
  sum_pool R B w kernel_dims strides init t = do
    p ← pool B w kernel_dims strides init t
    pool_result B w t p (R.fp_sum t.elem_type p.kernel p.kernel_1d_size p.init_val)

  unfoldable pub avg_pool :
      Reductions → Binders → ℕ → List Term → List Term → Option Tensor → Tensor → Option Tensor
  unfolding pool pool_result
  avg_pool R B w kernel_dims strides init t = do
    p ← pool B w kernel_dims strides init t
    let total = R.fp_sum t.elem_type p.kernel p.kernel_1d_size p.init_val
    let count = R.cast_from_signed_int t.elem_type p.kernel_1d_size
    pool_result B w t p (R.fp_div t.elem_type total count)

  unfoldable pub max_pool :
      Reductions → Binders → ℕ → List Term → List Term → Option Tensor → Tensor → Option Tensor
  unfolding pool pool_result
  max_pool R B w kernel_dims strides init t = do
    p ← pool B w kernel_dims strides init t
    pool_result B w t p (R.fp_max t.elem_type p.kernel p.kernel_1d_size p.init_val)
