-- ===== src/Smt/Same.antt =====
-- Equivalence laws of `SameAt`, the relation of expressions (src/smt.cpp) that mean the same.
use mathlib.Core.Path.{subst}
use mlir_tv.Base.{◌≡◌, refl, sym, ◌∙◌, true}
use mlir_tv.Smt.Terms.{Smt, IsSmt, SameAt}

module _ ⦃S : Smt⦄ where
  open S use {Term, Valuation, identical}

  pub SameAt-rfl : (v : Valuation) (t : Term) → SameAt S v t v t
  SameAt-rfl v t = record {
    bits_eq = refl;
    truth_eq = refl;
    cell_eq = λ i. refl;
    flag_eq = λ i. refl;
  }

  pub SameAt-symm : {v w : Valuation} {s t : Term} → SameAt S v s w t → SameAt S w t v s
  SameAt-symm h = record {
    bits_eq = sym h.bits_eq;
    truth_eq = sym h.truth_eq;
    cell_eq = λ i. sym (h.cell_eq i);
    flag_eq = λ i. sym (h.flag_eq i);
  }

  pub SameAt-trans :
      {u v w : Valuation} {r s t : Term} → SameAt S u r v s → SameAt S v s w t → SameAt S u r w t
  SameAt-trans h k = record {
    bits_eq = h.bits_eq ∙ k.bits_eq;
    truth_eq = h.truth_eq ∙ k.truth_eq;
    cell_eq = λ i. h.cell_eq i ∙ k.cell_eq i;
    flag_eq = λ i. h.flag_eq i ∙ k.flag_eq i;
  }

  pub SameAt-of_eq : (v : Valuation) {s t : Term} → s ≡ t → SameAt S v s v t
  SameAt-of_eq v {s} e = subst (λ t. SameAt S v s v t) e (SameAt-rfl v s)

  pub SameAt-of_identical :
      (L : IsSmt S) (v : Valuation) (s t : Term) → identical s t ≡ true → SameAt S v s v t
  SameAt-of_identical L v s t h = SameAt-of_eq v (L.identical_lem s t h)
