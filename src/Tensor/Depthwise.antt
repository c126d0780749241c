-- ===== src/Tensor/Depthwise.antt =====
-- src/value.cpp: `Tensor::depthwiseConv2D`, which convolves each channel of each image by itself.
use mlir_tv.Base.{ℕ, Option, none, some, List, [], ◌∷◌, length, get_elem?, ◌==◌, ◌>>=◌, ◌>>◌, guard}
use mlir_tv.Smt.Terms.{Smt}
use mlir_tv.Smt.Arith.{mk_bv, urem, udiv}
use mlir_tv.Smt.Words.{mul}
use mlir_tv.Tensor.{Tensor, get, mk_initialized_lambda}
use mlir_tv.Tensor.Reduce.{Reductions, Binders}
use mlir_tv.Tensor.Convolve.{nhwc_hwcf, conv}

module _ ⦃S : Smt⦄ where
  open S use {Term}

  -- The bound variables of the result, of the three slices and of their convolution.
  pub record DepthwiseVars : Type 0 where
    pub out : Binders
    pub input_vars : Binders
    pub weight_vars : Binders
    pub output_vars : Binders
    pub conv_vars : Binders

  -- The image, the channel and the multiplier that an index of the result stands for.
  pub record Place : Type 0 where
    pub n : Term
    pub c : Term
    pub m : Term

  -- With a bias, the last index numbers the channel and the multiplier together.
  unfoldable pub place_of : Option Tensor → Term → List Term → Option Place
  place_of (some bias) M out_ind = do
    n ← get_elem? out_ind 0
    last ← get_elem? out_ind 3
    some (record { n = n; c = udiv last M; m = urem last M })
  place_of none M out_ind = do
    n ← get_elem? out_ind 0
    c ← get_elem? out_ind 3
    m ← get_elem? out_ind 4
    some (record { n = n; c = c; m = m })

  -- The input as 1 x H x W x 1.
  unfoldable pub input_2d : Binders → ℕ → Place → Tensor → Option Tensor
  unfolding mk_initialized_lambda mk_bv
  input_2d B w p t = do
    height ← get_elem? t.dims 1
    breadth ← get_elem? t.dims 2
    y ← get_elem? B.index_vars 1
    x ← get_elem? B.index_vars 2
    elem ← get w t (p.n ∷ y ∷ x ∷ p.c ∷ [])
    mk_initialized_lambda w B.idx B.idx_init t.elem_type
        (mk_bv 1 w ∷ height ∷ breadth ∷ mk_bv 1 w ∷ []) B.index_vars elem

  -- The filter as KH x KW x 1 x 1.
  unfoldable pub weight_2d : Binders → ℕ → ℕ → Place → Tensor → Option Tensor
  unfolding mk_initialized_lambda mk_bv
  weight_2d B w ty p filter = do
    height ← get_elem? filter.dims 0
    breadth ← get_elem? filter.dims 1
    y ← get_elem? B.index_vars 0
    x ← get_elem? B.index_vars 1
    elem ← get w filter (y ∷ x ∷ p.c ∷ p.m ∷ [])
    mk_initialized_lambda w B.idx B.idx_init ty (height ∷ breadth ∷ mk_bv 1 w ∷ mk_bv 1 w ∷ [])
        B.index_vars elem

  -- Where the output is read: at the last index with a bias, at channel and multiplier without.
  unfoldable pub output_place : Option Tensor → Place → List Term → Term → Term → Option (List Term)
  output_place (some bias) p out_ind y x = do
    last ← get_elem? out_ind 3
    some (p.n ∷ y ∷ x ∷ last ∷ [])
  output_place none p out_ind y x = some (p.n ∷ y ∷ x ∷ p.c ∷ p.m ∷ [])

  -- The output that the sums start from, if there is one, as 1 x OH x OW x 1.
  unfoldable pub output_2d :
      Binders → ℕ → ℕ → Option Tensor → Place → List Term → Option Tensor → Option (Option Tensor)
  unfolding mk_initialized_lambda mk_bv output_place
  output_2d B w ty bias p out_ind none = some none
  output_2d B w ty bias p out_ind (some output) = do
    height ← get_elem? output.dims 1
    breadth ← get_elem? output.dims 2
    y ← get_elem? B.index_vars 1
    x ← get_elem? B.index_vars 2
    place ← output_place bias p out_ind y x
    elem ← get w output place
    r ←
        mk_initialized_lambda w B.idx B.idx_init ty (mk_bv 1 w ∷ height ∷ breadth ∷ mk_bv 1 w ∷ [])
          B.index_vars elem
    some (some r)

  -- The result from an element of the convolution: with a bias, N x OH x OW x (C * M) and the bias
  -- added; without, N x OH x OW x C x M.
  unfoldable pub depthwise_result :
      Reductions → Binders → ℕ → ℕ → Option Tensor → List Term → Term → Term → Term → Option Tensor
  unfolding mk_initialized_lambda
  depthwise_result R B w ty (some bias) heads C M acc_val = do
    last ← get_elem? B.index_vars 3
    b ← get w bias (last ∷ [])
    n ← get_elem? heads 0
    height ← get_elem? heads 1
    breadth ← get_elem? heads 2
    mk_initialized_lambda w B.idx B.idx_init ty (n ∷ height ∷ breadth ∷ mul C M ∷ []) B.index_vars
        (R.fp_add ty acc_val b)
  depthwise_result R B w ty none heads C M acc_val = do
    n ← get_elem? heads 0
    height ← get_elem? heads 1
    breadth ← get_elem? heads 2
    mk_initialized_lambda w B.idx B.idx_init ty (n ∷ height ∷ breadth ∷ C ∷ M ∷ []) B.index_vars
        acc_val

  unfoldable pub depthwise_conv_2d :
      Reductions
      → DepthwiseVars
      → ℕ
      → List Term
      → List Term
      → Option Tensor
      → Option Tensor
      → Tensor
      → Tensor
      → Option Tensor
  unfolding place_of input_2d weight_2d output_2d depthwise_result conv mk_bv
  depthwise_conv_2d R V w strides dilations bias output filter t = do
    guard (length t.dims == 4)
    guard (length filter.dims == 4)
    guard (length strides == 2)
    guard (length dilations == 2)
    images ← get_elem? t.dims 0
    C ← get_elem? filter.dims 2
    M ← get_elem? filter.dims 3
    p ← place_of bias M V.out.index_vars
    input ← input_2d V.input_vars w p t
    weight ← weight_2d V.weight_vars w t.elem_type p filter
    start ← output_2d V.output_vars w t.elem_type bias p V.out.index_vars output
    result ← conv R V.conv_vars w nhwc_hwcf strides dilations start weight input
    height ← get_elem? result.dims 1
    breadth ← get_elem? result.dims 2
    y ← get_elem? V.out.index_vars 1
    x ← get_elem? V.out.index_vars 2
    acc_val ← get w result (mk_bv 0 w ∷ y ∷ x ∷ mk_bv 0 w ∷ [])
    depthwise_result R V.out w t.elem_type bias (images ∷ height ∷ breadth ∷ []) C M acc_val
