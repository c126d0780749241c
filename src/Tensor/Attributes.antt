-- ===== src/Tensor/Attributes.antt =====
-- src/value.cpp: how `Tensor::fromElemsAttr` finds the tensor of a large constant. A constant with too
-- many elements is a tensor of unknown elements, kept with its attribute; a constant that is one of
-- those, one transposed, or one with more dimensions of size one, is made from that tensor. What the
-- code reads of MLIR's attributes is a record; a number stands for an element.
use mlir_tv.Base.{
  ℕ, zero, suc, ◌-◌, Bool, true, false, ◌&&◌, Option, none, some, List, [], ◌∷◌, ◌++◌, length,
  get_or, ltb, ◌==◌, if◌then◌else◌,
}
use mlir_tv.Smt.Terms.{Smt}
use mlir_tv.Smt.Arith.{mk_bv}
use mlir_tv.Tensor.{Tensor}
use mlir_tv.Tensor.Shape.{affine}

-- An attribute: its identity, the sizes of its type if that is a ranked tensor's, and its elements.
pub record Attribute : Type 0 where
  pub key : ℕ
  pub sizes : Option (List ℕ)
  pub values : List ℕ → ℕ

-- A loop that looks for a counterexample below a number.
unfoldable pub all_below : ℕ → (ℕ → Bool) → Bool
all_below zero p = true
all_below (suc n) p = all_below n p && p n

unfoldable pub transposed_2 : List ℕ → List ℕ → (List ℕ → ℕ) → (List ℕ → ℕ) → Bool
unfolding all_below
transposed_2 ds es f g =
    get_or ds 0 0 == get_or es 1 0
    && get_or ds 1 0 == get_or es 0 0
    && all_below (get_or ds 0 0)
        (λ i. all_below (get_or ds 1 0) (λ j. f (i ∷ j ∷ []) == g (j ∷ i ∷ [])))

unfoldable pub transposed_3 : List ℕ → List ℕ → (List ℕ → ℕ) → (List ℕ → ℕ) → Bool
unfolding all_below
transposed_3 ds es f g =
    get_or ds 0 0 == get_or es 1 0
    && get_or ds 1 0 == get_or es 2 0
    && get_or ds 2 0 == get_or es 0 0
    && all_below (get_or ds 0 0) (λ i.
      all_below (get_or ds 1 0)
        (λ j. all_below (get_or ds 2 0) (λ k. f (i ∷ j ∷ k ∷ []) == g (k ∷ i ∷ j ∷ []))))

unfoldable pub transposed_4 : List ℕ → List ℕ → (List ℕ → ℕ) → (List ℕ → ℕ) → Bool
unfolding all_below
transposed_4 ds es f g =
    get_or ds 0 0 == get_or es 1 0
    && get_or ds 1 0 == get_or es 2 0
    && get_or ds 2 0 == get_or es 3 0
    && get_or ds 3 0 == get_or es 0 0
    && all_below (get_or ds 0 0) (λ i. all_below (get_or ds 1 0) (λ j.
      all_below (get_or ds 2 0)
        (λ k. all_below (get_or ds 3 0) (λ l. f (i ∷ j ∷ k ∷ l ∷ []) == g (l ∷ i ∷ j ∷ k ∷ [])))))

-- `isTransposed` of two ranked tensors, by their sizes and elements.
unfoldable pub transposed_values : List ℕ → List ℕ → (List ℕ → ℕ) → (List ℕ → ℕ) → Bool
unfolding transposed_2 transposed_3 transposed_4
transposed_values ds es f g =
    let by_rank =
      if length ds == 2
      then transposed_2 ds es f g
      else if length ds == 3
      then transposed_3 ds es f g
      else if length ds == 4
      then transposed_4 ds es f g
      else false in
    length ds == length es && by_rank

unfoldable pub all_ones : List ℕ → Bool
all_ones [] = true
all_ones (d ∷ ds) = d == 1 && all_ones ds

unfoldable pub after_first : List ℕ → List ℕ
after_first [] = []
after_first (d ∷ ds) = ds

unfoldable pub repeated : {A : Type 0} → ℕ → A → List A
repeated zero x = []
repeated (suc n) x = x ∷ repeated n x

-- `isSimpleReduction` of two ranked tensors, likewise.
unfoldable pub reduction_values : List ℕ → List ℕ → (List ℕ → ℕ) → (List ℕ → ℕ) → Bool
unfolding all_below all_ones after_first repeated
reduction_values ds es f g =
    ltb (length es) (length ds)
    && length es == 1
    && get_or ds 0 0 == get_or es 0 0
    && all_ones (after_first ds)
    && all_below (get_or es 0 0) (λ i. f (i ∷ repeated (length ds - 1) 0) == g (i ∷ []))

-- The types of both attributes must be ranked tensors'.
unfoldable pub both_ranked :
    (List ℕ → List ℕ → (List ℕ → ℕ) → (List ℕ → ℕ) → Bool) → Attribute → Attribute → Bool
both_ranked test a b = elim a.sizes [
  | none ↦ false
  | some ds ↦ elim b.sizes [ none ↦ false | some es ↦ test ds es a.values b.values ]
]

unfoldable pub is_transposed : Attribute → Attribute → Bool
unfolding both_ranked transposed_values
is_transposed a b = both_ranked transposed_values a b

unfoldable pub is_simple_reduction : Attribute → Attribute → Bool
unfolding both_ranked reduction_values
is_simple_reduction a b = both_ranked reduction_values a b

module _ ⦃S : Smt⦄ where
  open S use {Term}

  -- The first element moved to the end.
  unfoldable pub rotated : List Term → List Term
  rotated [] = []
  rotated (x ∷ xs) = xs ++ (x ∷ [])

  unfoldable pub rank : Attribute → ℕ
  rank a = elim a.sizes [ none ↦ 0 | some ds ↦ length ds ]

  -- The loop over the constants that have a tensor: `none` where it finds nothing, and a new tensor is
  -- made. The variables are those of `affine`, of the indices and of the reduction.
  unfoldable pub encoded_tensor :
      ℕ → Term → List Term → Term → Attribute → List (Attribute × Tensor) → Option (Option Tensor)
  unfolding is_transposed is_simple_reduction affine rotated repeated rank mk_bv
  encoded_tensor w affine_idx ind_vars idx attr [] = none
  encoded_tensor w affine_idx ind_vars idx attr ((a, t) ∷ rest) =
      let later = encoded_tensor w affine_idx ind_vars idx attr rest in
      let more = rank attr - 1 in
      if a.key == attr.key
      then some (some t)
      else if is_transposed attr a
      then some (affine w affine_idx (rotated ind_vars) ind_vars (rotated t.dims) t)
      else if is_simple_reduction attr a
      then some (
          affine w affine_idx (idx ∷ repeated more (mk_bv 0 w)) (idx ∷ [])
            (t.dims ++ repeated more (mk_bv 1 w)) t)
      else later
