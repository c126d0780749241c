-- ===== src/MemRef.antt =====
-- src/value.cpp: `MemRef`, a view of a block of the memory through a layout, which maps the indices of
-- several dimensions to an offset in the block. The memory is an argument of the accesses, as the
-- vectors of the element type; the fresh variables, and the uninterpreted functions that invert a
-- layout, are parameters. `none` is a failed assertion or an exception.
pub mod Access
pub mod Alias
pub mod View
use mlir_tv.Base.{
  ℕ, zero, suc, Bool, true, false, ◌&&◌, Option, none, some, List, [], ◌∷◌, map, length, ◌==◌,
  if◌then◌else◌, ◌>>=◌, ◌>>◌, guard,
}
use mlir_tv.Smt.Terms.{Smt}
use mlir_tv.Smt.Logic.{mk_bool, and, or, implies, negate, mk_ite}
use mlir_tv.Smt.Arith.{mk_bv}
use mlir_tv.Smt.Compare.{equal, ule}
use mlir_tv.Smt.Words.{add, sub, mul}
use mlir_tv.Smt.Index.{from_1d_idx, to_1d_idx, get_1d_size, fits_in_dims}
use mlir_tv.Memory.{Blocks, AccessInfo, get_num_elements, load, stored, store}
use mlir_tv.Tensor.{dims_bounded}

module _ ⦃S : Smt⦄ where
  open S use {Term, width, numeral?, is_true, is_false, is_var, simplify, forall_}

  -- `Expr::mkForall` over several variables
  unfoldable pub forall_each : List Term → Term → Term
  forall_each [] body = body
  forall_each (x ∷ xs) body = forall_ x (forall_each xs body)

  unfoldable pub mk_forall_all : List Term → Term → Term
  unfolding forall_each
  mk_forall_all vars body = elim (numeral? body) [
    | some n ↦ body
    | none ↦ if is_true body then body else if is_false body then body else forall_each vars body
  ]

  -- `MemRef::Layout`
  pub record Layout : Type 0 where
    pub ind_vars : List Term
    pub inbounds_of : List Term → Option Term
    pub mapping : List Term → Option Term
    pub inverse_mappings : Term → Option (List Term)
    pub precondition : Term

  pub record MemRef : Type 0 where
    pub elem_ty : ℕ
    pub bid : Term
    pub offset : Term
    pub sizes : List Term
    pub layout : Layout
    pub is_view_ref : Term

  -- `Layout(dims)`, by the index variables.
  unfoldable pub identity_layout : ℕ → List Term → List Term → Layout
  unfolding mk_bool
  identity_layout w vars ds = record {
    ind_vars = vars;
    inbounds_of = λ is. fits_in_dims is ds;
    mapping = λ is. to_1d_idx w is ds;
    inverse_mappings = λ i. from_1d_idx i ds;
    precondition = mk_bool true;
  }

  -- The condition that the functions `inverses` invert the layout at the index variables.
  unfoldable pub inverse_condition : Term → List Term → List (Term → Term) → Term → Term
  unfolding and
  inverse_condition offset_at (x ∷ xs) (f ∷ fs) c =
      inverse_condition offset_at xs fs (and c (equal (f offset_at) x))
  inverse_condition offset_at [] fs c = c
  inverse_condition offset_at (x ∷ xs) [] c = c

  -- `Layout(indVars, layout, inbounds)`, by the uninterpreted functions.
  unfoldable pub inverted_layout :
      List Term
      → (List Term → Option Term)
      → (List Term → Option Term)
      → List (Term → Term)
      → Option Layout
  unfolding mk_bool inverse_condition mk_forall_all implies
  inverted_layout vars layout_fn inbounds_fn inverses = do
    offset_at ← layout_fn vars
    inside ← inbounds_fn vars
    some (record {
      ind_vars = vars;
      inbounds_of = inbounds_fn;
      mapping = layout_fn;
      inverse_mappings = λ i. some (map (λ f. f i) inverses);
      precondition =
          mk_forall_all vars
            (implies inside (inverse_condition offset_at vars inverses (mk_bool true)));
    })

  -- `layoutFn` of `MemRef::getLayout`, from an offset on.
  unfoldable pub strided_from : Term → List Term → List Term → Term
  strided_from acc (s ∷ ss) (i ∷ is) = strided_from (add acc (mul s i)) ss is
  strided_from acc [] is = acc
  strided_from acc (s ∷ ss) [] = acc

  -- `MemRef::getLayout`, with the terms of the strides and of the offset.
  unfoldable pub get_layout :
      ℕ → Bool → List Term → Term → List Term → List Term → List (Term → Term) → Option Layout
  unfolding identity_layout inverted_layout strided_from
  get_layout w is_identity ds offset_expr strides vars inverses =
      if is_identity
      then some (identity_layout w vars ds)
      else inverted_layout vars (λ is. some (strided_from offset_expr strides is))
          (λ is. fits_in_dims is ds) inverses

  -- `MemRef::getWellDefined`
  unfoldable pub memref_well_defined : ℕ → ℕ → MemRef → Term
  unfolding mk_bool dims_bounded mk_bv
  memref_well_defined w max_dim r =
      let size = get_1d_size w r.sizes in
      elim (numeral? size) [
        | some n ↦ mk_bool true
        | none ↦ simplify (dims_bounded max_dim (ule size (mk_bv 1000000 (width size))) r.sizes)
      ]

  -- `to1DIdxWithLayout`; without indices the index is 0.
  unfoldable pub to_1d_idx_with_layout : ℕ → MemRef → List Term → Option (Term × Term)
  unfolding mk_bv
  to_1d_idx_with_layout w r [] = do
    i ← r.layout.mapping (mk_bv 0 w ∷ [])
    inside ← r.layout.inbounds_of (mk_bv 0 w ∷ [])
    some (i, inside)
  to_1d_idx_with_layout w r (i ∷ is) = do
    n ← r.layout.mapping (i ∷ is)
    inside ← r.layout.inbounds_of (i ∷ is)
    some (n, inside)

  unfoldable pub add_inbounds : AccessInfo → Term → AccessInfo
  unfolding and
  add_inbounds info inside = record info { inbounds = and info.inbounds inside }

  -- `MemRef::getWithAccessInfo`, of which `MemRef::get` is the first part.
  unfoldable pub get_with_access_info :
      ℕ → ℕ → Blocks → MemRef → List Term → Option (Term × AccessInfo)
  unfolding to_1d_idx_with_layout add_inbounds
  get_with_access_info w bid_bits m r indices = do
    at_ ← to_1d_idx_with_layout w r indices
    let loaded = load m bid_bits r.bid (add r.offset at_.0)
    some (loaded.0, add_inbounds loaded.1 at_.1)

  -- `MemRef::store`
  unfoldable pub store_through :
      ℕ → Term → List Term → MemRef → Blocks → Option (AccessInfo × Blocks)
  unfolding to_1d_idx_with_layout add_inbounds
  store_through w value indices r m = do
    at_ ← to_1d_idx_with_layout w r indices
    let (info, m') = store value r.bid (add r.offset at_.0) m
    some (add_inbounds info at_.1, m')

  unfoldable pub is_valid_1d_offset : ℕ → MemRef → Term → Option Term
  unfolding to_1d_idx_with_layout and
  is_valid_1d_offset w r ofs0 = do
    let ofs = sub ofs0 r.offset
    indices ← r.layout.inverse_mappings ofs
    at_ ← to_1d_idx_with_layout w r indices
    some (and (equal at_.0 ofs) at_.1)

  -- `MemRef::isInBounds`
  unfoldable pub block_in_bounds : ℕ → Blocks → MemRef → Term
  unfolding and
  block_in_bounds w m r =
      let numelem = get_num_elements m r.bid in
      let size = get_1d_size w r.sizes in and (ule size numelem) (ule r.offset (sub numelem size))

  unfoldable pub is_identity_map : MemRef → Bool
  is_identity_map r = is_true r.layout.precondition

  unfoldable pub noalias : ℕ → MemRef → MemRef → Option Term
  unfolding is_identity_map or and negate
  noalias w r other = do
    guard (is_identity_map r && is_identity_map other)
    let l1 = r.offset
    let r1 = add r.offset (get_1d_size w r.sizes)
    let l2 = other.offset
    let r2 = add other.offset (get_1d_size w other.sizes)
    let same = equal r.bid other.bid
    some (or (negate same) (and same (or (ule r2 l1) (ule r1 l2))))

  -- `MemRef::reshape`, by the new index variables.
  unfoldable pub view_as : ℕ → List Term → List Term → MemRef → Option MemRef
  unfolding is_identity_map identity_layout mk_bool
  view_as w vars new_dims r = do
    guard (is_identity_map r)
    some (record r {
      sizes = new_dims;
      layout = identity_layout w vars new_dims;
      is_view_ref = mk_bool true;
    })

  -- `MemRef::mkIte`; the sizes of the false value are not looked at.
  unfoldable pub mk_memref_ite : Term → MemRef → MemRef → Option MemRef
  unfolding mk_ite mk_bv
  mk_memref_ite cond t f = do
    guard (t.elem_ty == f.elem_ty)
    let is_true_ = equal cond (mk_bv 1 1)
    some (record t {
      bid = mk_ite is_true_ t.bid f.bid;
      offset = mk_ite is_true_ t.offset f.offset;
      is_view_ref = mk_ite is_true_ t.is_view_ref f.is_view_ref;
    })
