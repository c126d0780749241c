-- ===== src/State/Registers.antt =====
-- src/state.h, src/state.cpp: the classes `RegFile` and `ArgInfo`. An MLIR value is a number (its
-- address); `none` stands for a failed assertion or `abort()`.
use mlir_tv.Base.{
  ℕ, ◌≡◌, Bool, true, false, Option, none, some, List, [], ◌∷◌, ◌==◌, if◌then◌else◌, arith,
}

-- The types that `RegFile::add(v, e, ty)` tells apart.
pub data SimpleType : Type 0 where
  float_type integer_type index_type other_type : SimpleType

module _ {ℓ} {V : Type ℓ} where
  -- `llvm::DenseMap::find`
  pub find : ℕ → List (ℕ × V) → Option V
  find k [] = none
  find k ((j, v) ∷ m) = if j == k then some v else find k m

  -- `llvm::DenseMap::insert`: a key that is there keeps its value.
  pub insert : ℕ → V → List (ℕ × V) → List (ℕ × V)
  insert k v [] = (k, v) ∷ []
  insert k v ((j, w) ∷ m) = if j == k then (j, w) ∷ m else (j, w) ∷ insert k v m

  -- `RegFile::contains`
  pub contains : ℕ → List (ℕ × V) → Bool
  unfolding find
  contains k m = elim (find k m) [ none ↦ false | some v ↦ true ]

  -- `RegFile::findOrCrash`
  pub find_or_crash : ℕ → List (ℕ × V) → Option V
  unfolding find
  find_or_crash k m = find k m

  -- `RegFile::add`
  pub add : ℕ → V → List (ℕ × V) → Option (List (ℕ × V))
  unfolding contains insert
  add k v m = if contains k m then none else some (insert k v m)

  -- `RegFile::add` of an expression, wrapped by its type.
  pub add_expr {κ} :
      {E : Type κ} (float integer index : E → V)
      → ℕ
      → E
      → SimpleType
      → List (ℕ × V)
      → Option (List (ℕ × V))
  unfolding contains insert
  add_expr float integer index k e float_type m =
      if contains k m then none else some (insert k (float e) m)
  add_expr float integer index k e integer_type m =
      if contains k m then none else some (insert k (integer e) m)
  add_expr float integer index k e index_type m =
      if contains k m then none else some (insert k (index e) m)
  add_expr float integer index k e other_type m = none

  find-insert :
      (k j : ℕ) (v : V) (m : List (ℕ × V))
      → find j (insert k v m)
        ≡ (if j == k then elim (find k m) [ none ↦ some v | some w ↦ some w ] else find j m)
  unfolding find insert
  find-insert k j v [] = ground arith
  find-insert k j v ((i, w) ∷ m) = ground (arith, find-insert k j v m)

  -- A register that was not set can be set, and then has its value, and the others keep theirs;
  -- a register that was set cannot be set again.
  find_or_crash-add :
      (k j : ℕ) (v : V) (m : List (ℕ × V))
      → (find_or_crash k m ≡ none
          → (r : List (ℕ × V)) × (add k v m ≡ some r)
            × (find_or_crash j r ≡ (if j == k then some v else find_or_crash j m)))
        × ((w : V) → find_or_crash k m ≡ some w → add k v m ≡ none)
  unfolding find_or_crash add contains
  find_or_crash-add k j v m =
      (λ h. (insert k v m, ground arith, ground (arith, find-insert k j v m)), λ w h. ground arith)
