-- ===== src/Tensor/Convolve.antt =====
-- src/value.cpp: the convolutions, `ShapedValue::conv`, `Tensor::conv` and `Tensor::depthwiseConv2D`.
-- The dot product is one of the abstract operations, which are a parameter.
use mlir_tv.Base.{
  ℕ, zero, suc, ◌+◌, ◌-◌, Option, none, some, List, [], ◌∷◌, ◌++◌, length, get_elem?, ltb, ◌==◌,
  if◌then◌else◌, ◌>>=◌, ◌>>◌, guard,
}
use mlir_tv.Smt.Terms.{Smt}
use mlir_tv.Smt.Arith.{udiv}
use mlir_tv.Smt.Words.{add, sub, mul}
use mlir_tv.Smt.Index.{from_1d_idx, get_1d_size}
use mlir_tv.Tensor.{Tensor, get, mk_initialized_lambda}
use mlir_tv.Tensor.Reduce.{Reductions, Binders, get_optional}

-- `ShapedValue::ConvLayout`
pub data ConvLayout : Type 0 where
  nhwc_hwcf : ConvLayout
  nchw_fchw : ConvLayout
  nhwc_fhwc : ConvLayout

module _ ⦃S : Smt⦄ where
  open S use {Term, lambda_}

  -- `n` elements from element `i` on.
  unfoldable pub sizes_from : ℕ → ℕ → List Term → Option (List Term)
  sizes_from i zero ds = some []
  sizes_from i (suc n) ds = do d ← get_elem? ds i; rest ← sizes_from (suc i) n ds; some (d ∷ rest)

  -- The last element, and the elements before it.
  unfoldable pub back : List Term → Option Term
  back xs = if length xs == 0 then none else get_elem? xs (length xs - 1)

  unfoldable pub before_back : List Term → Option (List Term)
  unfolding sizes_from
  before_back xs = sizes_from 0 (length xs - 1) xs

  -- The sizes of the cube that an element of the result is the dot product over.
  unfoldable pub cube_sizes : ConvLayout → ℕ → List Term → Option (List Term)
  unfolding sizes_from
  cube_sizes nhwc_hwcf dim filter = do
    ds ← sizes_from 0 dim filter
    c ← get_elem? filter dim
    some (ds ++ (c ∷ []))
  cube_sizes nchw_fchw dim filter = do
    ds ← sizes_from 2 dim filter
    c ← get_elem? filter 1
    some (ds ++ (c ∷ []))
  cube_sizes nhwc_fhwc dim filter = do
    ds ← sizes_from 1 dim filter
    c ← get_elem? filter (dim + 1)
    some (ds ++ (c ∷ []))

  -- `outputIdxs[i + from] * strides[i] + cubeIdxs[i] * dilations[i]`, for `n` of the `i`.
  unfoldable pub window_idxs :
      ℕ → ℕ → ℕ → List Term → List Term → List Term → List Term → Option (List Term)
  window_idxs from i zero outs strides cube dilations = some []
  window_idxs from i (suc n) outs strides cube dilations = do
    o ← get_elem? outs (i + from)
    s ← get_elem? strides i
    c ← get_elem? cube i
    d ← get_elem? dilations i
    rest ← window_idxs from (suc i) n outs strides cube dilations
    some (add (mul o s) (mul c d) ∷ rest)

  unfoldable pub filter_idxs : ConvLayout → List Term → List Term → Option (List Term)
  unfolding back before_back
  filter_idxs nhwc_hwcf outs cube = do f ← back outs; some (cube ++ (f ∷ []))
  filter_idxs nchw_fchw outs cube = do
    f ← get_elem? outs 1
    c ← back cube
    rest ← before_back cube
    some (f ∷ c ∷ rest)
  filter_idxs nhwc_fhwc outs cube = do f ← back outs; some (f ∷ cube)

  unfoldable pub input_idxs :
      ConvLayout → ℕ → List Term → List Term → List Term → List Term → Option (List Term)
  unfolding back window_idxs
  input_idxs nhwc_hwcf dim outs strides cube dilations = do
    b ← get_elem? outs 0
    rest ← window_idxs 1 0 dim outs strides cube dilations
    c ← back cube
    some (b ∷ (rest ++ (c ∷ [])))
  input_idxs nchw_fchw dim outs strides cube dilations = do
    b ← get_elem? outs 0
    c ← back cube
    rest ← window_idxs 2 0 dim outs strides cube dilations
    some (b ∷ c ∷ rest)
  input_idxs nhwc_fhwc dim outs strides cube dilations = do
    b ← get_elem? outs 0
    rest ← window_idxs 1 0 dim outs strides cube dilations
    c ← back cube
    some (b ∷ (rest ++ (c ∷ [])))

  -- `ShapedValue::conv`, by the accesses of the input, the filter and the initial value, which are
  -- `get` of a tensor or of a view: the element of the result at the index variables.
  unfoldable pub conv_element :
      Reductions
      → Binders
      → ℕ
      → ℕ
      → ConvLayout
      → List Term
      → List Term
      → List Term
      → List Term
      → (List Term → Option Term)
      → (List Term → Option Term)
      → (List Term → Option (Option Term))
      → Option Term
  unfolding cube_sizes filter_idxs input_idxs
  conv_element R B w ty layout dims filter_dims strides dilations get_input get_filter get_init = do
    guard (length dims == length filter_dims)
    guard (ltb 2 (length dims))
    let dim = length dims - 2
    cube ← cube_sizes layout dim filter_dims
    cube_idxs ← from_1d_idx B.body_idx cube
    fs ← filter_idxs layout B.index_vars cube_idxs
    is ← input_idxs layout dim B.index_vars strides cube_idxs dilations
    i ← get_input is
    f ← get_filter fs
    init ← get_init B.index_vars
    let input_expr = lambda_ B.body_idx i
    let filter_expr = lambda_ B.body_idx f
    let sz = get_1d_size w cube
    some (
        if R.is_integer ty
        then R.int_dot input_expr filter_expr sz init
        else R.fp_dot ty input_expr filter_expr sz init)

  -- The size of the result along a dimension.
  unfoldable pub conv_size : Term → Term → Term → Term → Term
  conv_size original_size dilation filter_dim stride =
      udiv (add (sub original_size (mul dilation filter_dim)) stride) stride

  -- The sizes along `n` dimensions from `i` on, by where the sizes of the input and of the filter start.
  unfoldable pub conv_sizes :
      ℕ → ℕ → ℕ → ℕ → List Term → List Term → List Term → List Term → Option (List Term)
  unfolding conv_size
  conv_sizes from filter_from i zero dims filter strides dilations = some []
  conv_sizes from filter_from i (suc n) dims filter strides dilations = do
    original_size ← get_elem? dims (i + from)
    dilation ← get_elem? dilations i
    d ← get_elem? filter (i + filter_from)
    s ← get_elem? strides i
    rest ← conv_sizes from filter_from (suc i) n dims filter strides dilations
    some (conv_size original_size dilation d s ∷ rest)

  unfoldable pub conv_dims :
      ConvLayout → List Term → List Term → List Term → List Term → Option (List Term)
  unfolding conv_sizes back
  conv_dims nhwc_hwcf dims filter strides dilations = do
    b ← get_elem? dims 0
    ds ← conv_sizes 1 0 0 (length dims - 2) dims filter strides dilations
    c ← back filter
    some (b ∷ (ds ++ (c ∷ [])))
  conv_dims nchw_fchw dims filter strides dilations = do
    b ← get_elem? dims 0
    c ← get_elem? filter 0
    ds ← conv_sizes 2 2 0 (length dims - 2) dims filter strides dilations
    some (b ∷ c ∷ ds)
  conv_dims nhwc_fhwc dims filter strides dilations = do
    b ← get_elem? dims 0
    ds ← conv_sizes 1 1 0 (length dims - 2) dims filter strides dilations
    c ← get_elem? filter 0
    some (b ∷ (ds ++ (c ∷ [])))

  -- `Tensor::conv`
  unfoldable pub conv :
      Reductions
      → Binders
      → ℕ
      → ConvLayout
      → List Term
      → List Term
      → Option Tensor
      → Tensor
      → Tensor
      → Option Tensor
  unfolding conv_dims conv_element get_optional mk_initialized_lambda
  conv R B w layout strides dilations output filter t = do
    output_dims ← conv_dims layout t.dims filter.dims strides dilations
    res ←
        conv_element R B w t.elem_type layout t.dims filter.dims strides dilations (get w t)
          (get w filter) (get_optional w output)
    mk_initialized_lambda w B.idx B.idx_init t.elem_type output_dims B.index_vars res
