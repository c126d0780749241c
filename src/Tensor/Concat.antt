-- ===== src/Tensor/Concat.antt =====
-- The elements of the tensor that `Tensor::concat` of src/value.cpp makes.
use mathlib.Core.Path.{subst}
use mlir_tv.Base.{
  ℕ, ◌-◌, ◌^◌, ◌≤◌, ◌<◌, ◌≡◌, refl, true, inl, inr, ◌&&◌, some, List, [], ◌∷◌, map, length,
  length-set, map-set, All, All-set, set, get_or, get_elem?, get_elem?-map, ltb, ◌==◌, ==_iff,
  if◌then◌else◌, arith, Bool-cases, sym, ap, ◌∙◌,
}
use mlir_tv.Smt.Terms.{Smt, IsSmt, AreVars, assign_all}
use mlir_tv.Smt.Logic.{mk_bool, mk_ite, truth-mk_bool}
use mlir_tv.Smt.Compare.{ult}
use mlir_tv.Smt.Compare.Less.{truth-ult_var}
use mlir_tv.Smt.Words.{add, sub}
use mlir_tv.Smt.Words.Wrap.{bits-sub}
use mlir_tv.Smt.Words.Width.{width-sub}
use mlir_tv.Smt.Index.Digits.{InDims, product}
use mlir_tv.Tensor.{Tensor, get, mk_initialized_lambda}
use mlir_tv.Tensor.Lambda.{under, element, element_initialized, get_lem, mk_lambda_any}
use mlir_tv.Tensor.Vars.{SameAt-assign_all, map-assign_all, assigned}
use mlir_tv.Tensor.Moves.{AreBinders, all_later, element-fresh}
use mlir_tv.Tensor.Insert.{HasBits, get-sort, bits-pick}
use mlir_tv.Tensor.Repeat.{no_wrap}
use mlir_tv.Tensor.Shape.{concat_along}

module _ ⦃S : Smt⦄ (L : IsSmt S) (w : ℕ) (s : w ≤ 32) where
  open S use {Term, Valuation, bits, truth, cell, assign, width}

  -- A valuation at which the variables are `ns` and the tensor is as at `v`.
  record Reads (v u : Valuation) (vars : List Term) (ns : List ℕ) (t : Tensor) : Type 0 where
    pub given : map (bits u) vars ≡ ns
    pub same_arr : (i : ℕ) → cell u t.arr i ≡ cell v t.arr i
    pub same_dims : map (bits u) t.dims ≡ map (bits v) t.dims

  -- What `get` gives there.
  get-Reads :
      (v u : Valuation) (vars acc : List Term) (ns ks : List ℕ) (t : Tensor) (e : Term)
      → Reads v u vars ns t
      → length acc ≡ length t.dims
      → All (λ i. width i ≡ w) acc
      → All (λ i. width i ≡ w) t.dims
      → get w t acc ≡ some e
      → map (bits u) acc ≡ ks
      → bits u e ≡ element L w s v t ks
  get-Reads v u vars acc ns ks t e r l a b g m =
      let (e', _, g', _, c, _) = get_lem L w s u t acc l a b in
      let h : e ≡ e' = ground arith in
      ap (bits u) h
      ∙ c
      ∙ ap (element L w s u t) m
      ∙ element-fresh L w s v u t ks r.same_arr r.same_dims

  inner-Reads :
      (v : Valuation) (idx idx_init : Term) (vars ds : List Term) (t : Tensor) (ns : List ℕ)
      → AreBinders L w s idx idx_init vars ds t
      → length ds ≡ length vars
      → InDims ns (map (bits v) ds)
      → Reads v (assign_all S v vars ns) vars ns t
  inner-Reads v idx idx_init vars ds t ns b l k = record {
    given = assigned L w s v vars ds ns b.variables b.indices b.distinct l v b.new_sizes k;
    same_arr = (SameAt-assign_all v vars ns t.arr b.fresh_arr.1).cell_eq;
    same_dims = map-assign_all v vars ns t.dims (all_later L w s idx vars t.dims b.fresh_dims);
  }

  outer-Reads :
      (v : Valuation) (idx idx_init : Term) (vars ds : List Term) (t : Tensor) (ns : List ℕ) (i : ℕ)
      → AreBinders L w s idx idx_init vars ds t
      → length ds ≡ length vars
      → InDims ns (map (bits v) ds)
      → Reads v (under L w s v idx i vars ns) vars ns t
  outer-Reads v idx idx_init vars ds t ns i b l k = record {
    given =
        assigned L w s (assign v idx i) vars ds ns b.variables b.indices b.distinct l v b.new_sizes
          k;
    same_arr = (SameAt-assign_all v (idx ∷ vars) (i ∷ ns) t.arr b.fresh_arr).cell_eq;
    same_dims = map-assign_all v (idx ∷ vars) (i ∷ ns) t.dims b.fresh_dims;
  }

  -- The entry of a list at the axis, and its value at a valuation.
  entry-bits :
      (u : Valuation) (xs : List Term) (axis : ℕ) (y : Term) (ns : List ℕ)
      → axis < length xs
      → get_elem? xs axis ≡ some y
      → map (bits u) xs ≡ ns
      → bits u y ≡ get_or ns axis 0
  entry-bits u xs axis y ns h e m =
      let all : All (λ z. Unit {0}) xs = anything xs in
      let (y', g, f, _) = get_elem?-map (λ z. Unit {0}) (bits u) xs axis 0 h all in
      let q : y' ≡ y = ground arith in
      sym (ap (λ z. bits u z) q) ∙ sym f ∙ ap (λ (l : List ℕ). get_or l axis 0) m
    where
      anything : (zs : List Term) → All (λ z. Unit {0}) zs
      anything [] = tt
      anything (z ∷ zs) = (tt, anything zs)

  -- The element of the concatenation at an index, as its body reads it.
  body-Reads :
      (v u : Valuation) (vars : List Term) (ns : List ℕ) (axis : ℕ) (t t2 : Tensor)
      (y d e e2 : Term)
      → Reads v u vars ns t
      → Reads v u vars ns t2
      → axis < length vars
      → length vars ≡ length t.dims
      → length vars ≡ length t2.dims
      → AreVars S vars
      → All (λ i. width i ≡ w) vars
      → All (λ i. width i ≡ w) t.dims
      → All (λ i. width i ≡ w) t2.dims
      → get_elem? vars axis ≡ some y
      → get_elem? t.dims axis ≡ some d
      → get w t vars ≡ some e
      → get w t2 (set vars axis (sub y d)) ≡ some e2
      → HasBits L w s t
      → HasBits L w s t2
      → bits u (mk_ite (ult y d) e e2) ≡ (
          if ltb (get_or ns axis 0) (get_or (map (bits v) t.dims) axis 0)
          then element L w s v t ns
          else element L w s v t2
              (set ns axis (get_or ns axis 0 - get_or (map (bits v) t.dims) axis 0)))
  body-Reads v u vars ns axis t t2 y d e e2 r r2 h l l2 av wv wt wt2 gy gd ge ge2 hb hb2 =
      let i = get_or ns axis 0 in
      let n = get_or (map (bits v) t.dims) axis 0 in
      let (y', gy', _, (vy, wy)) =
        get_elem?-map (λ z. (S.is_var z ≡ true) × (width z ≡ w)) (bits u) vars axis 0 h
          (both vars av wv) in
      let qy : y' ≡ y = ground arith in
      let (d', gd', _, wd) =
        get_elem?-map (λ z. width z ≡ w) (bits u) t.dims axis 0 (rw l at h) wt in
      let qd : d' ≡ d = ground arith in
      let yw : width y ≡ w = subst (λ z. width z ≡ w) qy wy in
      let yv : S.is_var y ≡ true = subst (λ z. S.is_var z ≡ true) qy vy in
      let dw : width d ≡ w = subst (λ z. width z ≡ w) qd wd in
      let by = entry-bits u vars axis y ns h gy r.given in
      let bd = entry-bits u t.dims axis d (map (bits v) t.dims) (rw l at h) gd r.same_dims in
      let ws : width (sub y d) ≡ w = width-sub L y d (yw ∙ sym dw) ∙ yw in
      let first = get-Reads v u vars vars ns ns t e r l wv wt ge r.given in
      let pick =
        bits-pick L w s u (ult y d) e e2 (get-sort L w s t vars e hb ge)
          (get-sort L w s t2 (set vars axis (sub y d)) e2 hb2 ge2) in
      let test : truth u (ult y d) ≡ ltb i n = truth-ult_var L u y d yv ∙ rw (by, bd) refl in
      pick
      ∙ rw test (elim (Bool-cases (ltb i n)) [
        | inl c ↦ rw c first
        | inr c ↦
            let below : n ≤ i = ground arith in
            let lt : i < 2 ^ w = rw (← by, ← yw) (L.bits-lt u y) in
            let bs : bits u (sub y d) ≡ i - n =
              bits-sub L u y d (yw ∙ sym dw) (rw yw (omega arith))
              ∙ rw (by, bd, yw) (no_wrap i n (2 ^ w) below lt) in
            rw c (
              get-Reads v u vars (set vars axis (sub y d)) ns (set ns axis (i - n)) t2 e2 r2
                (length-set vars axis (sub y d) ∙ l2)
                (All-set (λ z. width z ≡ w) vars axis (sub y d) wv ws) wt2 ge2
                (map-set (bits u) vars axis (sub y d)
                  ∙ ap (λ (z : List ℕ). set z axis (bits u (sub y d))) r2.given
                  ∙ ap (λ (m : ℕ). set ns axis m) bs))
      ])
    where
      both :
          (zs : List Term)
          → AreVars S zs
          → All (λ i. width i ≡ w) zs
          → All (λ z. (S.is_var z ≡ true) × (width z ≡ w)) zs
      both [] p q = tt
      both (z ∷ zs) (p, ps) (q, qs) = ((p, q), both zs ps qs)

  concat_along-steps :
      (idx idx_init y d d2 e e2 : Term) (vars : List Term) (axis : ℕ) (t t2 r : Tensor)
      → (length t.dims == length t2.dims && t.elem_type == t2.elem_type && ltb axis (length t.dims))
        ≡ true
      → get_elem? vars axis ≡ some y
      → get_elem? t.dims axis ≡ some d
      → get_elem? t2.dims axis ≡ some d2
      → get w t vars ≡ some e
      → get w t2 (set vars axis (sub y d)) ≡ some e2
      → mk_initialized_lambda w idx idx_init t.elem_type
          (set t.dims axis (add d d2))
          vars
          (mk_ite (ult y d) e e2)
        ≡ some r
      → concat_along w idx idx_init vars axis t t2 ≡ some r
  unfolding concat_along
  concat_along-steps idx idx_init y d d2 e e2 vars axis t t2 r g a b c f f2 h =
      rw (concat_along, g, a, b, c, f, f2) h

  -- `concat` of two tensors of one element type and as many dimensions, with variables that neither
  -- mentions and at most 2 ^ w elements: below the size of the first along the axis the new tensor has
  -- the element of the first at the index, else that of the second at the index less that size; it is
  -- initialized everywhere.
  pub concat_along_lem :
      (v : Valuation) (idx idx_init d d2 : Term) (vars : List Term) (axis : ℕ) (t t2 : Tensor)
      (ns : List ℕ)
      → t.elem_type ≡ t2.elem_type
      → length t2.dims ≡ length t.dims
      → length vars ≡ length t.dims
      → axis < length t.dims
      → get_elem? t.dims axis ≡ some d
      → get_elem? t2.dims axis ≡ some d2
      → AreBinders L w s idx idx_init vars (set t.dims axis (add d d2)) t
      → AreBinders L w s idx idx_init vars (set t.dims axis (add d d2)) t2
      → InDims ns (map (bits v) (set t.dims axis (add d d2)))
      → product (map (bits v) (set t.dims axis (add d d2))) ≤ 2 ^ w
      → HasBits L w s t
      → HasBits L w s t2
      → (r : Tensor) × (concat_along w idx idx_init vars axis t t2 ≡ some r)
        × (element L w s v r ns ≡ (
            if ltb (get_or ns axis 0) (get_or (map (bits v) t.dims) axis 0)
            then element L w s v t ns
            else element L w s v t2
                (set ns axis (get_or ns axis 0 - get_or (map (bits v) t.dims) axis 0))))
        × (element_initialized L w s v r ns ≡ true)
  unfolding mk_initialized_lambda
  concat_along_lem v idx idx_init d d2 vars axis t t2 ns ty l2 l h gd gd2 b b2 k p hb hb2 =
      let ds = set t.dims axis (add d d2) in
      let ld : length ds ≡ length vars = length-set t.dims axis (add d d2) ∙ sym l in
      let lx : axis < length vars = rw l h in
      let (y, gy, _, wy) = get_elem?-map (λ z. width z ≡ w) (bits v) vars axis 0 lx b.indices in
      let (d', gd', _, wd') = get_elem?-map (λ z. width z ≡ w) (bits v) t.dims axis 0 h b.sizes in
      let dw : width d ≡ w = subst (λ z. width z ≡ w) (let q : d' ≡ d = ground arith in q) wd' in
      let ws : width (sub y d) ≡ w = width-sub L y d (wy ∙ sym dw) ∙ wy in
      let l3 : length vars ≡ length t2.dims = l ∙ sym l2 in
      let (e, _, ge, _, _, _) = get_lem L w s v t vars l b.indices b.sizes in
      let (e2, _, ge2, _, _, _) =
        get_lem L w s v t2 (set vars axis (sub y d)) (length-set vars axis (sub y d) ∙ l3)
          (All-set (λ z. width z ≡ w) vars axis (sub y d) b.indices ws) b2.sizes in
      let body = mk_ite (ult y d) e e2 in
      let at_ = λ (u : Valuation) (r : Reads v u vars ns t) (r2 : Reads v u vars ns t2).
        body-Reads v u vars ns axis t t2 y d e e2 r r2 lx l l3 b.variables b.indices b.sizes
          b2.sizes gy gd ge ge2 hb hb2 in
      let inner =
        at_ (assign_all S v vars ns) (inner-Reads v idx idx_init vars ds t ns b ld k)
          (inner-Reads v idx idx_init vars ds t2 ns b2 ld k) in
      let (r, m, _, c, c') =
        mk_lambda_any L w s v t.elem_type idx idx_init body (mk_bool true) ds vars ns (omega arith)
          ld b.variables b.new_sizes b.binder b.binder_init k p
          (λ i.
            at_ (under L w s v idx i vars ns) (outer-Reads v idx idx_init vars ds t ns i b ld k)
              (outer-Reads v idx idx_init vars ds t2 ns i b2 ld k)
            ∙ sym inner)
          (λ i.
            truth-mk_bool L (under L w s v idx_init i vars ns) true
            ∙ sym (truth-mk_bool L (assign_all S v vars ns) true)) in
      let g : (length t.dims == length t2.dims
            && t.elem_type == t2.elem_type
            && ltb axis (length t.dims))
          ≡ true =
        ground (arith, ==_iff (length t.dims) (length t2.dims), ==_iff t.elem_type t2.elem_type) in
      let f = concat_along-steps idx idx_init y d d2 e e2 vars axis t t2 r g gy gd gd2 ge ge2 m in
      (r, f, c ∙ inner, c' ∙ truth-mk_bool L (assign_all S v vars ns) true)
