-- ===== src/Smt/Logic.antt =====
-- src/smt.cpp: the Boolean operations of `Expr`, which fold constants before they build a term,
-- and `mkIte`. An expression's lock (`lockOps`), which only guards assertions, is not modelled.
use mlir_tv.Base.{
  ◌≡◌, ◌⊎◌, Bool, true, false, ◌&&◌, ◌||◌, not, none, some, arith, if◌then◌else◌, imp, Bool-cases,
  Option-cases, inl, inr, refl, &&-eq_true,
}
use mlir_tv.Smt.Terms.{Smt, IsSmt, SameAt, eq_kind}
use mlir_tv.Smt.Same.{SameAt-rfl, SameAt-symm, SameAt-trans, SameAt-of_eq, SameAt-of_identical}
use mlir_tv.Smt.Match.{match_binary_op, match_eq}

module _ ⦃S : Smt⦄ where
  open S use {
    Term, Valuation, bits, truth, is_bool, is_true, is_false, identical, bool_val, and_, or_, not_,
    implies_, ite_,
  }

  -- `Expr::mkBool`
  unfoldable pub mk_bool : Bool → Term
  mk_bool b = bool_val b

  -- `Expr::operator&` at Booleans
  unfoldable pub and : Term → Term → Term
  and a b = if is_false b || is_true a then b else if is_true b || is_false a then a else and_ a b

  -- `Expr::operator|` at Booleans
  unfoldable pub or : Term → Term → Term
  or a b = if is_true b || is_false a then b else if is_false b || is_true a then a else or_ a b

  -- `Expr::operator!`
  unfoldable pub negate : Term → Term
  unfolding mk_bool
  negate a = if is_true a then mk_bool false else if is_false a then mk_bool true else not_ a

  unfoldable pub implies : Term → Term → Term
  unfolding mk_bool negate
  implies a b =
      if is_true b
      then b
      else if is_false b
      then negate a
      else if is_true a
      then b
      else if is_false a
      then mk_bool true
      else implies_ a b

  -- The last step of `Expr::mkIte`: `ite(x == y, x, y)` is `y`.
  unfoldable pub ite_of_eq : Term → Term → Term → Term
  unfolding match_binary_op
  ite_of_eq c a b = elim (match_binary_op eq_kind c) [
    | none ↦ ite_ c a b
    | some (l, r) ↦
        if (identical l a && identical r b) || (identical l b && identical r a)
        then b
        else ite_ c a b
  ]

  unfoldable pub mk_ite : Term → Term → Term → Term
  unfolding or and ite_of_eq
  mk_ite c a b =
      if is_true c
      then a
      else if is_false c
      then b
      else if is_true a
      then or c b
      else if is_false b
      then and c a
      else ite_of_eq c a b

  module _ (L : IsSmt S) (v : Valuation) where
    pub truth-mk_bool : (b : Bool) → truth v (mk_bool b) ≡ b
    unfolding mk_bool
    truth-mk_bool b = L.truth-bool_val v b

    pub truth-and : (a b : Term) → truth v (and a b) ≡ (truth v a && truth v b)
    unfolding and
    truth-and a b = ground (
      arith,
      L.is_true_lem v a,
      L.is_true_lem v b,
      L.is_false_lem v a,
      L.is_false_lem v b,
      L.truth-and_ v a b,
    )

    pub truth-or : (a b : Term) → truth v (or a b) ≡ (truth v a || truth v b)
    unfolding or
    truth-or a b = ground (
      arith,
      L.is_true_lem v a,
      L.is_true_lem v b,
      L.is_false_lem v a,
      L.is_false_lem v b,
      L.truth-or_ v a b,
    )

    pub truth-negate : (a : Term) → truth v (negate a) ≡ not (truth v a)
    unfolding negate
    truth-negate a = ground (
      arith,
      L.is_true_lem v a,
      L.is_false_lem v a,
      L.truth-not_ v a,
      L.truth-bool_val v true,
      L.truth-bool_val v false,
    )

    pub truth-implies : (a b : Term) → truth v (implies a b) ≡ imp (truth v a) (truth v b)
    unfolding implies
    truth-implies a b = ground (
      arith,
      L.is_true_lem v a,
      L.is_true_lem v b,
      L.is_false_lem v a,
      L.is_false_lem v b,
      L.truth-not_ v a,
      L.truth-bool_val v true,
      L.truth-bool_val v false,
      L.truth-implies_ v a b,
    )

    -- Where `l` and `r` mean the same and are `a` and `b`, in either order, `b` means `a`.
    same_branches :
        (l r a b : Term)
        → SameAt S v l v r
        → ((identical l a && identical r b) || (identical l b && identical r a)) ≡ true
        → SameAt S v b v a
    same_branches l r a b e h = elim (Bool-cases (identical l a && identical r b)) [
      | inl k ↦
          let (p, q) = &&-eq_true _ _ k in
          SameAt-trans (SameAt-symm (SameAt-of_identical L v r b q))
            (SameAt-trans (SameAt-symm e) (SameAt-of_identical L v l a p))
      | inr k ↦
          let (p, q) = &&-eq_true (identical l b) (identical r a) (ground arith) in
          SameAt-trans (SameAt-symm (SameAt-of_identical L v l b p))
            (SameAt-trans e (SameAt-of_identical L v r a q))
    ]

    same_if_true :
        (t : Bool) (a b c : Term)
        → SameAt S v a v c
        → (t ≡ true → SameAt S v b v c)
        → SameAt S v (if t then b else a) v c
    same_if_true true a b c p q = q refl
    same_if_true false a b c p q = p

    ite_of_eq-true : (c a b : Term) → truth v c ≡ true → SameAt S v (ite_of_eq c a b) v a
    unfolding ite_of_eq
    ite_of_eq-true c a b h = elim (Option-cases (match_binary_op eq_kind c)) [
      | inl e ↦ rw (e, ite_of_eq) (L.ite__true v c a b h)
      | inr ((l, r), e) ↦
          rw (e, ite_of_eq)
            (same_if_true _ _ b a (L.ite__true v c a b h)
              (same_branches l r a b (match_eq L v c l r e h)))
    ]

    ite_of_eq-false : (c a b : Term) → truth v c ≡ false → SameAt S v (ite_of_eq c a b) v b
    unfolding ite_of_eq
    ite_of_eq-false c a b h = elim (Option-cases (match_binary_op eq_kind c)) [
      | inl e ↦ rw (e, ite_of_eq) (L.ite__false v c a b h)
      | inr ((l, r), e) ↦
          rw (e, ite_of_eq) (same_if_true _ _ b b (L.ite__false v c a b h) (λ _. SameAt-rfl v b))
    ]

    -- At Boolean branches, `mk_ite` is true where the branch that its condition picks is.
    pub truth-mk_ite :
        (c a b : Term) → truth v (mk_ite c a b) ≡ (if truth v c then truth v a else truth v b)
    unfolding mk_ite
    truth-mk_ite c a b = elim (Bool-cases (truth v c)) [
      | inl h ↦ ground (
        arith,
        (ite_of_eq-true c a b h).truth_eq,
        truth-or c b,
        truth-and c a,
        L.is_true_lem v a,
        L.is_false_lem v b,
        L.is_true_lem v c,
        L.is_false_lem v c,
      )
      | inr h ↦ ground (
        arith,
        (ite_of_eq-false c a b h).truth_eq,
        truth-or c b,
        truth-and c a,
        L.is_true_lem v a,
        L.is_false_lem v b,
        L.is_true_lem v c,
        L.is_false_lem v c,
      )
    ]

    mk_ite-true :
        (c a b : Term)
        → is_bool a ≡ false
        → is_bool b ≡ false
        → truth v c ≡ true
        → (mk_ite c a b ≡ a) ⊎ (mk_ite c a b ≡ ite_of_eq c a b)
    unfolding mk_ite
    mk_ite-true c a b ha hb h =
        ground (arith, L.is_bool-is_true a, L.is_bool-is_false b, L.is_false_lem v c)

    mk_ite-false :
        (c a b : Term)
        → is_bool a ≡ false
        → is_bool b ≡ false
        → truth v c ≡ false
        → (mk_ite c a b ≡ b) ⊎ (mk_ite c a b ≡ ite_of_eq c a b)
    unfolding mk_ite
    mk_ite-false c a b ha hb h =
        ground (arith, L.is_bool-is_true a, L.is_bool-is_false b, L.is_true_lem v c)

    -- At branches of another sort than Bool, `mk_ite` means the branch that its condition picks.
    pub mk_ite_branch :
        (c a b : Term)
        → is_bool a ≡ false
        → is_bool b ≡ false
        → SameAt S v (mk_ite c a b) v (if truth v c then a else b)
    mk_ite_branch c a b ha hb = elim (Bool-cases (truth v c)) [
      | inl h ↦ rw h (elim (mk_ite-true c a b ha hb h) [
        | inl e ↦ SameAt-of_eq v e
        | inr e ↦ SameAt-trans (SameAt-of_eq v e) (ite_of_eq-true c a b h)
      ])
      | inr h ↦ rw h (elim (mk_ite-false c a b ha hb h) [
        | inl e ↦ SameAt-of_eq v e
        | inr e ↦ SameAt-trans (SameAt-of_eq v e) (ite_of_eq-false c a b h)
      ])
    ]

  -- The result is of the branches' sort.
  pub is_bool-mk_ite :
      (L : IsSmt S) (c a b : Term)
      → is_bool a ≡ false
      → is_bool b ≡ false
      → is_bool (mk_ite c a b) ≡ false
  unfolding mk_ite
  is_bool-mk_ite L c a b ha hb =
      ground (arith, L.is_bool-is_true a, L.is_bool-is_false b, L.is_bool-ite_ c a b ha)
