-- ===== src/Tensor/Shape.antt =====
-- src/value.cpp: the tensor operations that move elements, and those that compute on each element.
use mlir_tv.Base.{
  ℕ, true, false, ◌&&◌, Option, none, some, List, [], ◌∷◌, map, length, set, get_elem?, ltb, ◌==◌,
  if◌then◌else◌, ◌>>=◌, ◌>>◌, guard,
}
use mlir_tv.Smt.Terms.{Smt}
use mlir_tv.Smt.Logic.{mk_bool, and, implies, mk_ite}
use mlir_tv.Smt.Arith.{mk_bv, urem}
use mlir_tv.Smt.Compare.{equal, ult}
use mlir_tv.Smt.Words.{add, sub, mul}
use mlir_tv.Smt.Index.{from_1d_idx, to_1d_idx, get_1d_size, simplify_list}
use mlir_tv.Memory.{select}
use mlir_tv.Tensor.{
  Tensor, all_initialized, less_constant, is_in_bounds, get_raw, get, get_initialized, mk_lambda,
  mk_lambda_from_1d, mk_initialized_lambda,
}

module _ ⦃S : Smt⦄ where
  open S use {Term, width, is_false, simplify, lambda_, substitute}

  unfoldable pub reshape : List Term → Tensor → Option Tensor
  unfolding simplify_list
  reshape [] t = none
  reshape (d ∷ ds) t = some (record t { dims = simplify_list (d ∷ ds) })

  unfoldable pub insert : ℕ → Term → Term → List Term → Tensor → Option (Tensor × Term)
  unfolding mk_bool
  insert w idxvar value indices t = do
    pos ← to_1d_idx w indices t.dims
    idxs ← from_1d_idx idxvar t.dims
    origin_value ← get w t idxs
    org_init ← get_initialized w t idxs
    inbounds ← is_in_bounds t indices
    let cond = equal idxvar pos
    some (
      record t {
        arr = lambda_ idxvar (mk_ite cond value origin_value);
        initialized = lambda_ idxvar (mk_ite cond (mk_bool true) org_init);
      },
      inbounds,
    )

  -- One source index of `affine`: the new variables are replaced one after the other.
  unfoldable pub replace_each : List Term → List Term → Term → Term
  replace_each (x ∷ xs) (i ∷ is) e = replace_each xs is (substitute (x ∷ []) (i ∷ []) e)
  replace_each [] is e = e
  replace_each (x ∷ xs) [] e = e

  unfoldable pub affine : ℕ → Term → List Term → List Term → List Term → Tensor → Option Tensor
  unfolding all_initialized replace_each
  affine w idxvar newidxvars srcidxs newsizes t = do
    indices ← from_1d_idx idxvar newsizes
    elem ← get w t (map (λ e. simplify (replace_each newidxvars indices e)) srcidxs)
    some (record {
      elem_type = t.elem_type;
      dims = newsizes;
      arr = lambda_ idxvar elem;
      initialized = all_initialized;
    })

  -- `Tensor::concat`, by the index variables.
  unfoldable pub concat_along : ℕ → Term → Term → List Term → ℕ → Tensor → Tensor → Option Tensor
  unfolding mk_initialized_lambda
  concat_along w idx idx_init vars axis t t2 = do
    guard
        (length t.dims == length t2.dims && t.elem_type == t2.elem_type && ltb axis (length t.dims))
    v ← get_elem? vars axis
    d ← get_elem? t.dims axis
    d2 ← get_elem? t2.dims axis
    e ← get w t vars
    e2 ← get w t2 (set vars axis (sub v d))
    mk_initialized_lambda w idx idx_init t.elem_type (set t.dims axis (add d d2)) vars
        (mk_ite (ult v d) e e2)

  -- `Tensor::reverse`
  unfoldable pub reverse_along : ℕ → Term → Term → List Term → ℕ → Tensor → Option Tensor
  unfolding mk_initialized_lambda less_constant
  reverse_along w idx idx_init vars axis t = do
    v ← get_elem? vars axis
    d ← get_elem? t.dims axis
    e ← get w t (set vars axis (less_constant (sub d v) 1))
    mk_initialized_lambda w idx idx_init t.elem_type t.dims vars e

  -- `dims[i] * repeat[i]`, and `accessIdx[i].urem(dims[i])`
  unfoldable pub times_each : List Term → List ℕ → List Term
  unfolding mk_bv
  times_each (d ∷ ds) (n ∷ ns) = mul d (mk_bv n (width d)) ∷ times_each ds ns
  times_each [] ns = []
  times_each (d ∷ ds) [] = []

  unfoldable pub urem_each : List Term → List Term → List Term
  urem_each (x ∷ xs) (d ∷ ds) = urem x d ∷ urem_each xs ds
  urem_each [] ds = []
  urem_each (x ∷ xs) [] = []

  unfoldable pub tile : ℕ → Term → Term → List Term → List ℕ → Tensor → Option Tensor
  unfolding mk_initialized_lambda times_each urem_each
  tile w idx idx_init vars repeat t = do
    guard (length repeat == length t.dims)
    e ← get w t (urem_each vars t.dims)
    mk_initialized_lambda w idx idx_init t.elem_type (times_each t.dims repeat) vars e

  unfoldable pub transpose : ℕ → Term → Term → Term → Term → Tensor → Option Tensor
  unfolding mk_initialized_lambda
  transpose w idx idx_init i j t = elim t.dims [
    | [] ↦ none
    | d ∷ ds ↦ elim ds [
      | [] ↦ none
      | e ∷ es ↦ elim es [
        | c ∷ cs ↦ none
        | [] ↦ do
          elem ← get w t (i ∷ j ∷ [])
          mk_initialized_lambda w idx idx_init t.elem_type (e ∷ d ∷ []) (j ∷ i ∷ []) elem
      ]
    ]
  ]

  -- `Tensor::mkIte`, by the condition's term at the index variables.
  unfoldable pub mk_tensor_ite :
      ℕ → Term → Term → List Term → Term → Tensor → Tensor → Option Tensor
  unfolding mk_lambda mk_bv
  mk_tensor_ite w idx idx_init vars cond t f = do
    guard (length t.dims == length f.dims && t.elem_type == f.elem_type)
    let is_true = equal cond (mk_bv 1 1)
    a ← get w t vars
    b ← get w f vars
    a_init ← get_initialized w t vars
    b_init ← get_initialized w f vars
    mk_lambda w idx idx_init t.elem_type t.dims vars (mk_ite is_true a b)
        (mk_ite is_true a_init b_init)

  unfoldable pub elementwise_bin_op :
      ℕ → Term → (Term → Term → Term) → Tensor → Tensor → Option Tensor
  unfolding mk_lambda_from_1d get_raw mk_bool
  elementwise_bin_op result_ty idxvar f t b = do
    guard (length t.dims == length b.dims && t.elem_type == b.elem_type)
    some (
        mk_lambda_from_1d result_ty t.dims idxvar (f (get_raw t idxvar) (get_raw b idxvar))
          (mk_bool true))

  unfoldable pub elementwise_unary_op : ℕ → Term → (Term → Term) → Tensor → Tensor
  unfolding mk_lambda_from_1d get_raw mk_bool
  elementwise_unary_op result_ty idxvar f t =
      mk_lambda_from_1d result_ty t.dims idxvar (f (get_raw t idxvar)) (mk_bool true)

  unfoldable pub add_each : List Term → List Term → List Term
  add_each (x ∷ xs) (y ∷ ys) = simplify (add x y) ∷ add_each xs ys
  add_each [] ys = []
  add_each (x ∷ xs) [] = []

  unfoldable pub to_1d_array_with_ofs : ℕ → Term → List Term → List Term → Tensor → Option Term
  unfolding add_each
  to_1d_array_with_ofs w idxvar offbegins sizes t = do
    guard (length offbegins == length sizes)
    relidxs ← from_1d_idx idxvar sizes
    elem ← get w t (add_each relidxs offbegins)
    some (lambda_ idxvar elem)

  -- The loop of `Tensor::refines` over the sizes, `other`'s first.
  unfoldable pub sizes_match : Term → List Term → List Term → Term
  unfolding and
  sizes_match c (x ∷ xs) (y ∷ ys) = sizes_match (and c (equal y x)) xs ys
  sizes_match c [] ys = c
  sizes_match c (x ∷ xs) [] = c

  -- The body of `Tensor::refines` where the sizes can match; `i` is its variable.
  unfoldable pub refines_at : (Term → Term → Term) → ℕ → Term → Tensor → Tensor → Term
  unfolding and implies select
  refines_at refines_element w i t other = implies (ult i (get_1d_size w t.dims)) (
      implies (select t.initialized i)
        (and (select other.initialized i) (refines_element (select t.arr i) (select other.arr i))))

  -- `Tensor::refines`, by the refinement of two elements; also whether the formula has its variable.
  unfoldable pub refines_tensor :
      (Term → Term → Term) → ℕ → Term → Tensor → Tensor → Option (Term × List Term)
  unfolding and sizes_match refines_at mk_bool
  refines_tensor refines_element w i t other = do
    guard (t.elem_type == other.elem_type)
    let size_match = simplify (sizes_match (mk_bool true) t.dims other.dims)
    some (
        if length other.dims == length t.dims
        then if is_false size_match
          then (size_match, [])
          else (and size_match (refines_at refines_element w i t other), i ∷ [])
        else (mk_bool false, []))
