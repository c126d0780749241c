-- ===== src/Tensor/Moves.antt =====
-- The elements of the tensors that move the elements of another: `transpose`, `reverse` and `tile` of
-- src/value.cpp.
use native.Mathlib.Nat.{mul-one}
use mlir_tv.Base.{
  ℕ, suc, ◌*◌, ◌%◌, ◌^◌, ◌≤◌, ◌<◌, ◌≡◌, refl, true, some, List, [], ◌∷◌, map, length, All, arith,
  sym, ap, ◌∙◌,
}
use mlir_tv.Smt.Terms.{Smt, IsSmt, AreVars, assign_all}
use mlir_tv.Smt.Logic.{mk_bool, truth-mk_bool}
use mlir_tv.Smt.Index.Digits.{InDims, row_major, product}
use mlir_tv.Tensor.{Tensor, get, mk_initialized_lambda}
use mlir_tv.Tensor.Lambda.{IsBinder, under, element, element_initialized, get_lem, mk_lambda_at}
use mlir_tv.Tensor.Vars.{AreFresh, AreDistinct, SameAt-assign_all, map-assign_all, assigned}
use mlir_tv.Tensor.Shape.{transpose}

swap_two : {a b c d : ℕ} → a ∷ b ∷ [] ≡ c ∷ d ∷ [] → b ∷ a ∷ [] ≡ d ∷ c ∷ []
swap_two h = ground arith

module _ ⦃S : Smt⦄ (L : IsSmt S) (w : ℕ) (s : w ≤ 32) where
  open S use {Term, Valuation, bits, cell, assign}

  -- The variables of an operation on `t` that makes a tensor of the sizes `ds`: they are distinct
  -- variables, which neither the sizes nor the elements of `t` mention.
  pub record AreBinders (idx idx_init : Term) (vars ds : List Term) (t : Tensor) : Type 0 where
    pub variables : AreVars S vars
    pub indices : All (λ x. S.width x ≡ w) vars
    pub distinct : AreDistinct vars
    pub binder : IsBinder L w s idx ds
    pub binder_init : IsBinder L w s idx_init ds
    pub fresh_arr : AreFresh (idx ∷ vars) t.arr
    pub fresh_dims : All (AreFresh (idx ∷ vars)) t.dims
    pub sizes : All (λ d. S.width d ≡ w) t.dims
    pub new_sizes : All (λ d. S.width d ≡ w) ds

  pub all_later :
      (x : Term) (vars : List Term) (ts : List Term)
      → All (AreFresh (x ∷ vars)) ts
      → All (AreFresh vars) ts
  all_later x vars [] h = tt
  all_later x vars (t ∷ ts) (h, k) = (h.1, all_later x vars ts k)

  -- An element of `t` where the variables are changed.
  pub element-fresh :
      (v u : Valuation) (t : Tensor) (ks : List ℕ)
      → ((i : ℕ) → cell u t.arr i ≡ cell v t.arr i)
      → map (bits u) t.dims ≡ map (bits v) t.dims
      → element L w s u t ks ≡ element L w s v t ks
  unfolding element
  element-fresh v u t ks p q =
      p (row_major ks (map (bits u) t.dims) % 2 ^ w)
      ∙ ap (λ (l : List ℕ). cell v t.arr (row_major ks l % 2 ^ w)) q

  -- A tensor whose element at `ns` is read from `t` at the terms `acc`, whose values are `ks` wherever
  -- those of the variables are `ns`.
  pub gather_lem :
      (v : Valuation) (idx idx_init x d : Term) (xs ds acc : List Term) (t : Tensor)
      (ns ks : List ℕ)
      → AreBinders idx idx_init (x ∷ xs) (d ∷ ds) t
      → length ds ≡ length xs
      → InDims ns (map (bits v) (d ∷ ds))
      → product (map (bits v) (d ∷ ds)) ≤ 2 ^ w
      → length acc ≡ length t.dims
      → All (λ i. S.width i ≡ w) acc
      → ((u : Valuation)
          → map (bits u) (x ∷ xs) ≡ ns
          → map (bits u) t.dims ≡ map (bits v) t.dims
          → map (bits u) acc ≡ ks)
      → (e : Term) × (r : Tensor) × (get w t acc ≡ some e)
        × (mk_initialized_lambda w idx idx_init t.elem_type (d ∷ ds) (x ∷ xs) e ≡ some r)
        × (element L w s v r ns ≡ element L w s v t ks)
        × (element_initialized L w s v r ns ≡ true)
  unfolding mk_initialized_lambda
  gather_lem v idx idx_init x d xs ds acc t ns ks b l k p la wa f =
      let vars = x ∷ xs in
      let l' : length (d ∷ ds) ≡ length vars = ap suc l in
      let (e, _, g, _, _, _) = get_lem L w s v t acc la wa b.sizes in
      let given : (u : Valuation) → map (bits (assign_all S u vars ns)) vars ≡ ns = λ u.
        assigned L w s u vars (d ∷ ds) ns b.variables b.indices b.distinct l' v b.new_sizes k in
      let at_ : (u : Valuation)
          → map (bits u) vars ≡ ns
          → ((i : ℕ) → cell u t.arr i ≡ cell v t.arr i)
          → map (bits u) t.dims ≡ map (bits v) t.dims
          → bits u e ≡ element L w s v t ks =
        λ u m q r.
          let (e', _, g', _, c, _) = get_lem L w s u t acc la wa b.sizes in
          let h : e ≡ e' = ground arith in
          ap (bits u) h ∙ c ∙ ap (element L w s u t) (f u m r) ∙ element-fresh v u t ks q r in
      let inner : bits (assign_all S v vars ns) e ≡ element L w s v t ks =
        at_ (assign_all S v vars ns) (given v)
          (SameAt-assign_all v vars ns t.arr b.fresh_arr.1).cell_eq
          (map-assign_all v vars ns t.dims (all_later idx vars t.dims b.fresh_dims)) in
      let outer : (i : ℕ) → bits (under L w s v idx i vars ns) e ≡ element L w s v t ks = λ i.
        at_ (under L w s v idx i vars ns) (given (assign v idx i))
          (SameAt-assign_all v (idx ∷ vars) (i ∷ ns) t.arr b.fresh_arr).cell_eq
          (map-assign_all v (idx ∷ vars) (i ∷ ns) t.dims b.fresh_dims) in
      let (r, m, _, c, c') =
        mk_lambda_at L w s v t.elem_type idx idx_init d x e (mk_bool true) ds xs ns l b.variables
          b.new_sizes b.binder b.binder_init k p (λ i. outer i ∙ sym inner)
          (λ i.
            truth-mk_bool L (under L w s v idx_init i vars ns) true
            ∙ sym (truth-mk_bool L (assign_all S v vars ns) true)) in
      (e, r, g, m, c ∙ inner, c' ∙ truth-mk_bool L (assign_all S v vars ns) true)

  -- The transposed tensor has at (j, i) the element at (i, j), and is initialized there.
  pub transpose_lem :
      (v : Valuation) (idx idx_init i j d e : Term) (t : Tensor) (a b : ℕ)
      → t.dims ≡ d ∷ e ∷ []
      → AreBinders idx idx_init (j ∷ i ∷ []) (e ∷ d ∷ []) t
      → a < bits v d
      → b < bits v e
      → bits v e * bits v d ≤ 2 ^ w
      → (r : Tensor) × (transpose w idx idx_init i j t ≡ some r)
        × (element L w s v r (b ∷ a ∷ []) ≡ element L w s v t (a ∷ b ∷ []))
        × (element_initialized L w s v r (b ∷ a ∷ []) ≡ true)
  unfolding transpose
  transpose_lem v idx idx_init i j d e t a b q h p p' le =
      let n : bits v e * (bits v d * 1) ≤ 2 ^ w = rw (mul-one (bits v d)) le in
      let (wj, (wi, _)) = h.indices in
      let (el, r, g, m, c, c') =
        gather_lem v idx idx_init j e (i ∷ []) (d ∷ []) (i ∷ j ∷ []) t (b ∷ a ∷ []) (a ∷ b ∷ []) h
          refl (p', (p, tt)) n (rw q refl) (wi, (wj, tt)) (λ u m _. swap_two m) in
      (r, rw (q, transpose, g) m, c, c')
