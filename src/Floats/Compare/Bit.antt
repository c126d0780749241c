-- ===== src/Floats/Compare/Bit.antt =====
-- The one-bit results of `AbsFpEncoding::cmp` of src/abstractops.cpp.
use Prim.Native.Nat.{bit_or}
use mathlib.Core.Path.{subst}
use mlir_tv.Base.{
  ◌%◌, ◌≡◌, Bool, true, false, ◌||◌, refl, sym, ◌∙◌, arith, if◌then◌else◌, inl, inr, Option-cases,
}
use mlir_tv.Smt.Terms.{Smt, IsSmt}
use mlir_tv.Smt.Arith.{mk_bv}
use mlir_tv.Smt.Logic.{mk_ite}
use mlir_tv.Floats.Bits.{bits-pick, width-pick}
use mlir_tv.Floats.Compare.{bit_or_terms, true_bv, false_bv}
use mlir_tv.Floats.Compare.Rank.{bit}

module _ ⦃S : Smt⦄ (L : IsSmt S) (v : S.Valuation) where
  open S use {Term, bits, truth, width, numeral?, xor_}

  true_bv-width : width true_bv ≡ 1
  unfolding true_bv mk_bv
  true_bv-width = L.width-bv_val 1 1

  false_bv-width : width false_bv ≡ 1
  unfolding false_bv mk_bv
  false_bv-width = L.width-bv_val 0 1

  bits-true_bv : bits v true_bv ≡ 1
  unfolding true_bv mk_bv
  bits-true_bv = L.bits-bv_val v 1 1

  bits-false_bv : bits v false_bv ≡ 0
  unfolding false_bv mk_bv
  bits-false_bv = L.bits-bv_val v 0 1

  -- A bit-vector of one bit with the value of a test.
  pub record IsBit (t : Bool) (e : Term) : Type 0 where
    pub value : bits v e ≡ bit t
    pub one_bit : width e ≡ 1

  or_digits : (s t : Bool) → bit_or (bit s) (bit t) % 2 ≡ bit (s || t)
  unfolding bit
  or_digits true true = refl
  or_digits true false = refl
  or_digits false true = refl
  or_digits false false = refl

  pub or-IsBit :
      (s t : Bool) (a b : Term) → IsBit s a → IsBit t b → IsBit (s || t) (bit_or_terms a b)
  unfolding bit_or_terms mk_bv
  or-IsBit s t a b p q =
      let plain : IsBit (s || t) (S.bvor a b) = record {
        value = L.bits-bvor v a b ∙ rw (p.value, q.value, p.one_bit) (or_digits s t);
        one_bit = L.width-bvor a b ∙ p.one_bit;
      } in
      elim (Option-cases (numeral? a)) [
        | inl e ↦ rw (e, bit_or_terms) plain
        | inr (x, e) ↦ elim (Option-cases (numeral? b)) [
          | inl g ↦ rw (e, g, bit_or_terms) plain
          | inr (y, g) ↦
              let ex : x ≡ bit s = sym (L.numeral_lem v a x e).0 ∙ p.value in
              let ey : y ≡ bit t = sym (L.numeral_lem v b y g).0 ∙ q.value in
              rw (e, g, bit_or_terms)
                (record {
                  value =
                      L.bits-bv_val v (bit_or x y) (width a)
                      ∙ rw (p.one_bit, ex, ey) (or_digits s t);
                  one_bit = L.width-bv_val _ _ ∙ p.one_bit;
                })
        ]
      ]

  pub choice-IsBit :
      (c a b : Term) (t s u : Bool)
      → truth v c ≡ t
      → IsBit s a
      → IsBit u b
      → IsBit (if t then s else u) (mk_ite c a b)
  choice-IsBit c a b t s u e p q = record {
    value =
        bits-pick L v c a b 1 (omega arith) p.one_bit q.one_bit
        ∙ rw (e, p.value, q.value) (by_test t);
    one_bit = width-pick L v c a b 1 (omega arith) p.one_bit q.one_bit;
  }
    where
      by_test : (t : Bool) → (if t then bit s else bit u) ≡ bit (if t then s else u)
      by_test true = refl
      by_test false = refl

  pub true-IsBit : IsBit true true_bv
  unfolding bit
  true-IsBit = record { value = bits-true_bv; one_bit = true_bv-width }

  pub false-IsBit : IsBit false false_bv
  unfolding bit
  false-IsBit = record { value = bits-false_bv; one_bit = false_bv-width }

  pub IsBit-of_eq : (s t : Bool) (e : Term) → s ≡ t → IsBit s e → IsBit t e
  IsBit-of_eq s t e p q = subst (λ b. IsBit b e) p q
