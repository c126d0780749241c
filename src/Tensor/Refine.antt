-- ===== src/Tensor/Refine.antt =====
-- The formula of `Tensor::refines` of src/value.cpp against the refinement of elements.
use mlir_tv.Base.{
  ℕ, ◌≤◌, ◌<◌, ◌≡◌, ◌↔◌, refl, Bool, true, false, ◌&&◌, imp, inl, inr, some, List, [], ◌∷◌, map,
  length, All, ltb, ==_iff, arith, Bool-cases, sym, ap, ◌∙◌,
}
use mlir_tv.Smt.Terms.{Smt, IsSmt}
use mlir_tv.Smt.Logic.{mk_bool, and, implies, truth-mk_bool, truth-and, truth-implies}
use mlir_tv.Smt.Compare.{equal, ult}
use mlir_tv.Smt.Compare.Equal.{truth-equal}
use mlir_tv.Smt.Compare.Less.{truth-ult_var}
use mlir_tv.Smt.Index.{get_1d_size}
use mlir_tv.Smt.Index.Lists.{same_values, same_values_eq, same_values_self, length-values}
use mlir_tv.Memory.{select}
use mlir_tv.Memory.Heap.{truth-select}
use mlir_tv.Tensor.{Tensor}
use mlir_tv.Tensor.Shape.{sizes_match, refines_at, refines_tensor}

-- The formula read as a statement, both ways.
formula-left : (s q o r : Bool) (n m : ℕ) → (s && imp (ltb n m) (imp q (o && r))) ≡ true → s ≡ true
formula-left s q o r n m h = ground arith

formula-right :
    (s q o r : Bool) (n m : ℕ)
    → (s && imp (ltb n m) (imp q (o && r))) ≡ true
    → n < m
    → q ≡ true
    → (o ≡ true) × (r ≡ true)
formula-right s q o r n m h lt e = (ground arith, ground arith)

formula-of :
    (q o r : Bool) (n m : ℕ)
    → (n < m → q ≡ true → (o ≡ true) × (r ≡ true))
    → imp (ltb n m) (imp q (o && r)) ≡ true
formula-of false o r n m h = ground arith
formula-of true o r n m h = elim (Bool-cases (ltb n m)) [
  | inr e ↦ rw e refl
  | inl e ↦ let (a, b) = h (ground arith) refl in rw (e, a, b) refl
]

module _ ⦃S : Smt⦄ (L : IsSmt S) (v : S.Valuation) where
  open S use {Term, bits, truth, cell, flag, width, is_var, is_false}

  truth-sizes_match :
      (c : Term) (xs ys : List Term)
      → All (λ y. width y ≤ 64) ys
      → truth v (sizes_match c xs ys)
        ≡ (truth v c && same_values (map (bits v) ys) (map (bits v) xs))
  unfolding sizes_match
  truth-sizes_match c [] [] h = ground arith
  truth-sizes_match c [] (y ∷ ys) h = ground arith
  truth-sizes_match c (x ∷ xs) [] h = ground arith
  truth-sizes_match c (x ∷ xs) (y ∷ ys) h = ground (
    arith,
    truth-sizes_match (and c (equal y x)) xs ys h.1,
    truth-and L v c (equal y x),
    truth-equal L v y x h.0,
  )

  -- The refinement at one position: there, an element that `t` has initialized is initialized in
  -- `other` and refined by it.
  abbrev refines_here : Bool → Term → Tensor → Tensor → Bool
  refines_here r i t other =
      imp (flag v t.initialized (bits v i)) (flag v other.initialized (bits v i) && r)

  truth-refines_at :
      (f : Term → Term → Term) (w : ℕ) (i : Term) (t other : Tensor)
      → is_var i ≡ true
      → truth v (refines_at f w i t other)
        ≡ imp
            (ltb (bits v i) (bits v (get_1d_size w t.dims)))
            (refines_here (truth v (f (select t.arr i) (select other.arr i))) i t other)
  unfolding refines_at
  truth-refines_at f w i t other h =
      let r = f (select t.arr i) (select other.arr i) in
      let both = and (select other.initialized i) r in
      let inner = implies (select t.initialized i) both in
      truth-implies L v (ult i (get_1d_size w t.dims)) inner
      ∙ rw
          (
            truth-ult_var L v i (get_1d_size w t.dims) h,
            truth-implies L v (select t.initialized i) both,
            truth-and L v (select other.initialized i) r,
            truth-select L v t.initialized i,
            truth-select L v other.initialized i,
          )
          refl

  refines_tensor-value :
      (f : Term → Term → Term) (w : ℕ) (i : Term) (t other : Tensor)
      → t.elem_type ≡ other.elem_type
      → length other.dims ≡ length t.dims
      → All (λ d. width d ≤ 64) other.dims
      → is_var i ≡ true
      → (e : Term) × (vars : List Term) × (refines_tensor f w i t other ≡ some (e, vars))
        × (truth v e ≡ (
            same_values (map (bits v) other.dims) (map (bits v) t.dims)
            && imp
                (ltb (bits v i) (bits v (get_1d_size w t.dims)))
                (refines_here (truth v (f (select t.arr i) (select other.arr i))) i t other)))
  unfolding refines_tensor
  refines_tensor-value f w i t other a l h k =
      let c = S.simplify (sizes_match (mk_bool true) t.dims other.dims) in
      let m : truth v c ≡ same_values (map (bits v) other.dims) (map (bits v) t.dims) =
        (L.simplify_lem v (sizes_match (mk_bool true) t.dims other.dims)).truth_eq
        ∙ truth-sizes_match (mk_bool true) t.dims other.dims h
        ∙ rw (truth-mk_bool L v true) refl in
      let e = (==_iff t.elem_type other.elem_type).1 a in
      let n = (==_iff (length other.dims) (length t.dims)).1 l in
      elim (Bool-cases (is_false c)) [
        | inl z ↦ (c, [], rw (refines_tensor, e, n, z), m ∙ rw (sym m ∙ L.is_false_lem v c z) refl)
        | inr z ↦ (
          and c (refines_at f w i t other),
          i ∷ [],
          rw (refines_tensor, e, n, z),
          truth-and L v c (refines_at f w i t other)
              ∙ rw (m, truth-refines_at f w i t other k) refl,
        )
      ]

  -- `Tensor::refines` of tensors of one element type, `other`'s sizes of at most 64 bits and as many
  -- as those of `t`: its formula is true exactly where the sizes are equal and the elements at the
  -- position that its variable has, if that is below the number of elements, are refined: one that
  -- `t` has initialized is initialized in `other` and in the relation of elements.
  pub refines_tensor_lem :
      (f : Term → Term → Term) (w : ℕ) (i : Term) (t other : Tensor)
      → t.elem_type ≡ other.elem_type
      → length other.dims ≡ length t.dims
      → All (λ d. width d ≤ 64) other.dims
      → is_var i ≡ true
      → (e : Term) × (vars : List Term) × (refines_tensor f w i t other ≡ some (e, vars))
        × (truth v e ≡ true ↔ (
            (map (bits v) other.dims ≡ map (bits v) t.dims)
            × (bits v i < bits v (get_1d_size w t.dims)
                → flag v t.initialized (bits v i) ≡ true
                → (flag v other.initialized (bits v i) ≡ true)
                  × (truth v (f (select t.arr i) (select other.arr i)) ≡ true))))
  refines_tensor_lem f w i t other a l h k =
      let (e, vars, m, c) = refines_tensor-value f w i t other a l h k in
      let q = flag v t.initialized (bits v i) in
      let o = flag v other.initialized (bits v i) in
      let r = truth v (f (select t.arr i) (select other.arr i)) in
      let m' = bits v (get_1d_size w t.dims) in
      let xs = map (bits v) other.dims in
      let ys = map (bits v) t.dims in
      let lx : length xs ≡ length ys =
        length-values L v other.dims ∙ l ∙ sym (length-values L v t.dims) in
      (
        e,
        vars,
        m,
        (
          (λ g.
              let k = sym c ∙ g in
              (
                same_values_eq xs ys lx (formula-left (same_values xs ys) q o r (bits v i) m' k),
                formula-right (same_values xs ys) q o r (bits v i) m' k,
              )),
          (λ g.
              let e : same_values xs ys ≡ true =
                ap (same_values xs) (sym g.0) ∙ same_values_self xs in
              c ∙ rw e (formula-of q o r (bits v i) m' g.1)),
        ),
      )
