-- ===== src/Smt/Match.antt =====
-- src/smtmatchers.h and the namespace `matchers` of src/smt.cpp: an expression is taken apart by the
-- head of its application. The matchers of z3 and cvc5 differ in whether they count the arguments.
use mlir_tv.Base.{ℕ, ◌≡◌, Option, none, some, List, [], ◌∷◌, arith, if◌then◌else◌}
use mlir_tv.Smt.Terms.{
  Kind, concat_kind, urem_kind, udiv_kind, mul_kind, zero_ext_kind, eq_kind, Smt, IsSmt, SameAt,
}
use mathlib.Core.Logic.{ite}
use mlir_tv.Base.{true, Option-cases, inl, inr}

unfoldable pub Kind-discrete : Discrete Kind
Kind-discrete = hlevel

module _ ⦃S : Smt⦄ where
  open S use {
    Term, Valuation, truth, width, app?, counts_args, bvconcat, bvurem, bvudiv, bvmul, bvzext,
  }

  -- The first two arguments. `Matcher::matchBinaryOp` of cvc5 wants no more, that of z3 takes any.
  unfoldable pub first_two : List Term → Option (Term × Term)
  first_two (a ∷ b ∷ []) = some (a, b)
  first_two (a ∷ b ∷ c ∷ rest) = if counts_args then none else some (a, b)
  first_two _ = none

  unfoldable pub first_one : List Term → Option Term
  first_one (a ∷ rest) = some a
  first_one [] = none

  unfoldable pub args_of : Kind → Term → Option (List Term)
  unfolding Kind-discrete
  args_of k t = elim (app? t) [
    | none ↦ none
    | some (j, args) ↦ ite (Kind-discrete j k) (some args) none
  ]

  unfoldable pub match_binary_op : Kind → Term → Option (Term × Term)
  unfolding args_of first_two
  match_binary_op k t = elim (args_of k t) [ none ↦ none | some args ↦ first_two args ]

  unfoldable pub match_zero_ext : Term → Option Term
  unfolding args_of first_one
  match_zero_ext t = elim (args_of zero_ext_kind t) [ none ↦ none | some args ↦ first_one args ]

  args_of_lem :
      (k : Kind) (t : Term) (args : List Term) → args_of k t ≡ some args → app? t ≡ some (k, args)
  unfolding args_of
  args_of_lem k t args h = ground arith

  match_binary_op_lem :
      (k : Kind) (t : Term) (a b : Term)
      → match_binary_op k t ≡ some (a, b)
      → (args : List Term) × (app? t ≡ some (k, args)) × (first_two args ≡ some (a, b))
  unfolding match_binary_op
  match_binary_op_lem k t a b h = elim (Option-cases (args_of k t)) [
    | inl e ↦ ground arith
    | inr (args, e) ↦ (args, args_of_lem k t args e, ground arith)
  ]

  module _ (L : IsSmt S) where
    two_args :
        (k : Kind) (t a b : Term) (args : List Term)
        → app? t ≡ some (k, args)
        → first_two args ≡ some (a, b)
        → app? t ≡ some (k, a ∷ b ∷ [])
    unfolding first_two
    two_args k t a b [] e h = cc
    two_args k t a b (x ∷ []) e h = cc
    two_args k t a b (x ∷ y ∷ []) e h = ground arith
    two_args k t a b (x ∷ y ∷ z ∷ rest) e h =
        absurd (ground (arith, L.counts-long_app k t x y z rest e))

    -- Where a matcher finds two arguments, they are all that the application has.
    pub match_app :
        (k : Kind) (t a b : Term)
        → match_binary_op k t ≡ some (a, b)
        → app? t ≡ some (k, a ∷ b ∷ [])
    match_app k t a b h =
        let (args, e, f) = match_binary_op_lem k t a b h in two_args k t a b args e f

    pub match_concat :
        (t a b : Term) → match_binary_op concat_kind t ≡ some (a, b) → t ≡ bvconcat a b
    match_concat t a b h = L.app-concat t a b (match_app concat_kind t a b h)

    pub match_urem : (t a b : Term) → match_binary_op urem_kind t ≡ some (a, b) → t ≡ bvurem a b
    match_urem t a b h = L.app-urem t a b (match_app urem_kind t a b h)

    pub match_udiv : (t a b : Term) → match_binary_op udiv_kind t ≡ some (a, b) → t ≡ bvudiv a b
    match_udiv t a b h = (L.app-udiv t a b (match_app udiv_kind t a b h)).0

    pub match_udiv-width :
        (t a b : Term) → match_binary_op udiv_kind t ≡ some (a, b) → width a ≡ width b
    match_udiv-width t a b h = (L.app-udiv t a b (match_app udiv_kind t a b h)).1

    pub match_mul : (t a b : Term) → match_binary_op mul_kind t ≡ some (a, b) → t ≡ bvmul a b
    match_mul t a b h = L.app-mul t a b (match_app mul_kind t a b h)

    pub match_eq :
        (v : Valuation) (t a b : Term)
        → match_binary_op eq_kind t ≡ some (a, b)
        → truth v t ≡ true
        → SameAt S v a v b
    match_eq v t a b h c = L.app-eq v t a b (match_app eq_kind t a b h) c

    pub match_zero_ext_lem : (t a : Term) → match_zero_ext t ≡ some a → (k : ℕ) × (t ≡ bvzext k a)
    unfolding match_zero_ext
    match_zero_ext_lem t a h = elim (Option-cases (args_of zero_ext_kind t)) [
      | inl e ↦ absurd (ground arith)
      | inr (args, e) ↦
          let (x, k, f, g) = L.app-zero_ext t args (args_of_lem zero_ext_kind t args e) in
          (k, ground arith)
    ]
