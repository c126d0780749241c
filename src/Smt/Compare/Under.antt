-- ===== src/Smt/Compare/Under.antt =====
-- The meaning of `ult` of src/smt.cpp at terms without a remainder by the constant zero.
use Prim.Native.Nat.{bit_xor}
use native.Mathlib.Nat.{le_trans, mod-lt, mod-eq_of_lt}
use mlir_tv.Base.{
  ℕ, zero, suc, ◌+◌, ◌*◌, ◌%◌, ◌^◌, ◌≤◌, ◌<◌, ◌≡◌, ◌≢◌, Bool, true, inl, inr, none, some, refl, sym,
  ap, ◌∙◌, arith, ltb, leb, ◌==◌, ==_iff, Bool-cases, Option-cases, if◌then◌else◌,
}
use mlir_tv.Smt.Terms.{Smt, IsSmt, urem_kind, concat_kind}
use mlir_tv.Smt.Match.{match_binary_op, match_concat, match_urem}
use mlir_tv.Smt.Arith.{mk_bv}
use mlir_tv.Smt.Logic.{mk_bool, truth-mk_bool}
use mlir_tv.Smt.Compare.{
  Reduced, plain, settled, parts, shr, shl, fold_test, either, below_divisor, split_ult,
  split_ult_both, split_ult_left, split_ult_right, ult_at, ult,
}
use mlir_tv.Smt.Compare.Equal.{on_numerals-Keeps, ==_of_ne}
use mlir_tv.Smt.Compare.Less.{match_binary_op-none}
use mlir_tv.Smt.Compare.Shift.{shift_same}

-- Comparing numbers with the same high part is comparing their low parts.
less_low : (q l r : ℕ) → ltb (q + l) (q + r) ≡ ltb l r
less_low q l r = ground arith

ltb_lt : (a b : ℕ) → a < b → true ≡ ltb a b
ltb_lt a b h = ground arith

module _ ⦃S : Smt⦄ (L : IsSmt S) (v : S.Valuation) where
  open S use {Term, bits, truth, width, numeral?, bvconcat}

  -- The term is no remainder by the constant zero, nor are the low parts of a concatenation, `n` deep.
  unfoldable pub HasDivisors : ℕ → Term → Type 0
  HasDivisors zero t = Unit
  HasDivisors (suc n) t =
      ((a d : Term) → match_binary_op urem_kind t ≡ some (a, d) → numeral? d ≢ some 0)
      × ((h l : Term) → match_binary_op concat_kind t ≡ some (h, l) → HasDivisors n l)

  pub HasDivisors-no_app : (n : ℕ) (t : Term) → S.app? t ≡ none → HasDivisors n t
  unfolding HasDivisors
  HasDivisors-no_app zero t e = tt
  HasDivisors-no_app (suc n) t e =
      let m = match_binary_op-none L v urem_kind t e in
      let c = match_binary_op-none L v concat_kind t e in
      (λ a d f. absurd (ground arith), λ h l f. absurd (ground arith))

  -- What a reduction promises of the test whose answer is `t`.
  abbrev Keeps : ℕ → Bool → Reduced → Type 0
  Keeps n t plain = Unit
  Keeps n t (settled s) = s ≡ t
  Keeps n t (parts c d) =
      (ltb (bits v c) (bits v d) ≡ t) × (width c ≡ width d) × (width c ≤ 64) × HasDivisors n c

  fold_test-Keeps : (n : ℕ) (a b : Term) → Keeps n (ltb (bits v a) (bits v b)) (fold_test ltb a b)
  unfolding fold_test
  fold_test-Keeps n a b =
      on_numerals-Keeps L v (Keeps n (ltb (bits v a) (bits v b))) a b (λ x y. settled (ltb x y))
        plain (λ x y e g. rw ((L.numeral_lem v a x e).0, (L.numeral_lem v b y g).0)) tt

  below_divisor-Keeps :
      (n : ℕ) (a b : Term)
      → HasDivisors (suc n) a
      → Keeps n (ltb (bits v a) (bits v b)) (below_divisor a b)
  unfolding below_divisor HasDivisors
  below_divisor-Keeps n a b p = elim (Option-cases (match_binary_op urem_kind a)) [
    | inl e ↦ rw (e, below_divisor) tt
    | inr ((m, d), e) ↦
        rw (e, below_divisor)
          (on_numerals-Keeps L v (Keeps n (ltb (bits v a) (bits v b))) d b
            (λ x y. if leb x y then settled true else plain) plain
            (λ x y g h. elim (Bool-cases (leb x y)) [
              | inr k ↦ rw k tt
              | inl k ↦ rw k (
                  let ex = (L.numeral_lem v d x g).0 in
                  let ey = (L.numeral_lem v b y h).0 in
                  let nz : x ≢ 0 = λ z. p.0 m d e (g ∙ ap some z) in
                  let lt : bits v m % x < x = mod-lt (bits v m) (omega (arith, nz)) in
                  let f : bits v a ≡ bits v m % x =
                    ap (bits v) (match_urem L a m d e)
                    ∙ L.bits-bvurem v m d
                    ∙ rw (ex, ==_of_ne x 0 nz) refl in
                  ltb_lt (bits v a) (bits v b) (rw (f, ey) (le_trans lt (ground (arith, k)))))
            ])
            tt)
  ]

  -- A term against a constant that fits, and the same with a high part in front.
  low_word :
      (n a b q r : ℕ) (l : Term)
      → a ≡ q + n
      → b ≡ q + r
      → r < 2 ^ width l
      → ltb n (bits v (mk_bv r (width l))) ≡ ltb a b
  unfolding mk_bv
  low_word n a b q r l e f p =
      rw (L.bits-bv_val v r (width l), mod-eq_of_lt p, e, f) (sym (less_low q n r))

  word_low :
      (n a b q r : ℕ) (l : Term)
      → b ≡ q + n
      → a ≡ q + r
      → r < 2 ^ width l
      → ltb (bits v (mk_bv r (width l))) n ≡ ltb a b
  unfolding mk_bv
  word_low n a b q r l e f p =
      rw (L.bits-bv_val v r (width l), mod-eq_of_lt p, e, f) (sym (less_low q r n))

  -- A concatenation with a constant in front against a constant.
  left-Keeps :
      (n : ℕ) (a b : Term)
      → width a ≡ width b
      → width a ≤ 64
      → HasDivisors (suc n) a
      → Keeps n (ltb (bits v a) (bits v b)) (split_ult_left a b)
  unfolding split_ult_left HasDivisors mk_bv
  left-Keeps n a b w s p = elim (Option-cases (match_binary_op concat_kind a)) [
    | inl e ↦ rw (e, split_ult_left) tt
    | inr ((h, l), e) ↦
        let f = match_concat L a h l e in
        let k = width l in
        rw (e, split_ult_left)
          (on_numerals-Keeps L v (Keeps n (ltb (bits v a) (bits v b))) h b _ plain
            (λ x c g i.
              let ex = (L.numeral_lem v h x g).0 in
              let (ec, lt) = L.numeral_lem v b c i in
              let small : k < 64 =
                omega (arith, rw f at s, L.width-bvconcat h l, L.width-numeral h x g) in
              elim (Bool-cases (shr c k == x)) [
                | inr t ↦ rw t tt
                | inl t ↦
                    let (q, r) = shift_same k c x small lt ((==_iff _ _).0 t) in
                    rw t (
                      low_word (bits v l) (bits v a) (bits v b) (x * 2 ^ k) (bit_xor c (shl x k)) l
                          (ap (bits v) f ∙ L.bits-bvconcat v h l ∙ rw ex refl) (ec ∙ q) r,
                      sym (L.width-bv_val _ k),
                      omega arith,
                      p.1 h l e,
                    )
              ])
            tt)
  ]

  right-Keeps :
      (n : ℕ) (a b : Term)
      → width a ≡ width b
      → width a ≤ 64
      → Keeps n (ltb (bits v a) (bits v b)) (split_ult_right a b)
  unfolding split_ult_right mk_bv
  right-Keeps n a b w s = elim (Option-cases (match_binary_op concat_kind b)) [
    | inl e ↦ rw (e, split_ult_right) tt
    | inr ((h, l), e) ↦
        let f = match_concat L b h l e in
        let k = width l in
        rw (e, split_ult_right)
          (on_numerals-Keeps L v (Keeps n (ltb (bits v a) (bits v b))) a h _ plain
            (λ c x i g.
              let ex = (L.numeral_lem v h x g).0 in
              let (ec, lt) = L.numeral_lem v a c i in
              let small : k < 64 =
                omega (arith, rw (w, f) at s, L.width-bvconcat h l, L.width-numeral h x g) in
              elim (Bool-cases (shr c k == x)) [
                | inr t ↦ rw t tt
                | inl t ↦
                    let (q, r) = shift_same k c x small lt ((==_iff _ _).0 t) in
                    rw t (
                      word_low (bits v l) (bits v a) (bits v b) (x * 2 ^ k) (bit_xor c (shl x k)) l
                          (ap (bits v) f ∙ L.bits-bvconcat v h l ∙ rw ex refl) (ec ∙ q) r,
                      L.width-bv_val _ k,
                      rw (L.width-bv_val _ k) (omega arith),
                      HasDivisors-no_app n _ (L.app?-bv_val _ k),
                    )
              ])
            tt)
  ]

  both-Keeps :
      (n : ℕ) (a b : Term)
      → width a ≡ width b
      → width a ≤ 64
      → HasDivisors (suc n) a
      → Keeps n (ltb (bits v a) (bits v b)) (split_ult_both a b)
  unfolding split_ult_both HasDivisors
  both-Keeps n a b w s p = elim (Option-cases (match_binary_op concat_kind a)) [
    | inl e ↦ rw (e, split_ult_both) tt
    | inr ((h, l), e) ↦ elim (Option-cases (match_binary_op concat_kind b)) [
      | inl g ↦ rw (e, g, split_ult_both) tt
      | inr ((h', l'), g) ↦ elim (Bool-cases (S.identical h h')) [
        | inr i ↦ rw (e, g, i, split_ult_both) tt
        | inl i ↦
            let eh = L.identical_lem h h' i in
            let fa = match_concat L a h l e in
            let fb = match_concat L b h' l' g in
            let wa : width a ≡ width h + width l = ap width fa ∙ L.width-bvconcat h l in
            let wb : width b ≡ width h + width l' =
              ap width fb ∙ L.width-bvconcat h' l' ∙ rw (← eh) refl in
            let wl : width l ≡ width l' = omega (arith, w) in
            let ba : bits v a ≡ bits v h * 2 ^ width l + bits v l =
              ap (bits v) fa ∙ L.bits-bvconcat v h l in
            let bb : bits v b ≡ bits v h * 2 ^ width l + bits v l' =
              ap (bits v) fb ∙ L.bits-bvconcat v h' l' ∙ rw (← eh, ← wl) refl in
            rw (e, g, i, split_ult_both)
              (
                rw (ba, bb) (sym (less_low (bits v h * 2 ^ width l) (bits v l) (bits v l'))),
                wl,
                omega arith,
                p.1 h l e,
              )
      ]
    ]
  ]

  either-Keeps :
      (n : ℕ) (t : Bool) (r s : Reduced) → Keeps n t r → Keeps n t s → Keeps n t (either r s)
  unfolding either
  either-Keeps n t plain s p q = q
  either-Keeps n t (settled b) s p q = p
  either-Keeps n t (parts c d) s p q = p

  split_ult-Keeps :
      (n : ℕ) (a b : Term)
      → width a ≡ width b
      → width a ≤ 64
      → HasDivisors (suc n) a
      → Keeps n (ltb (bits v a) (bits v b)) (split_ult a b)
  unfolding split_ult
  split_ult-Keeps n a b w s p = either-Keeps n _ _ _ (below_divisor-Keeps n a b p) (
      either-Keeps n _ _ _ (both-Keeps n a b w s p)
        (either-Keeps n _ _ _ (left-Keeps n a b w s p) (right-Keeps n a b w s)))

  by_reduced :
      (n : ℕ) (a b : Term)
      → ((c d : Term)
          → width c ≡ width d
          → width c ≤ 64
          → HasDivisors n c
          → truth v (ult_at n c d) ≡ ltb (bits v c) (bits v d))
      → (r : Reduced) → Keeps n (ltb (bits v a) (bits v b)) r
      → truth v (elim r [ plain ↦ S.bvult a b | settled t ↦ mk_bool t | parts c d ↦ ult_at n c d ])
        ≡ ltb (bits v a) (bits v b)
  by_reduced n a b ih plain k = L.truth-bvult v a b
  by_reduced n a b ih (settled t) k = truth-mk_bool L v t ∙ k
  by_reduced n a b ih (parts c d) (e, w, s, p) = ih c d w s p ∙ e

  ult_at-bits :
      (n : ℕ) (a b : Term)
      → width a ≡ width b
      → width a ≤ 64
      → HasDivisors n a
      → truth v (ult_at n a b) ≡ ltb (bits v a) (bits v b)
  unfolding ult_at
  ult_at-bits zero a b w s p = L.truth-bvult v a b
  ult_at-bits (suc n) a b w s p =
      by_reduced n a b (λ c d e f q. ult_at-bits n c d e f q)
        (either (fold_test ltb a b) (split_ult a b))
        (either-Keeps n _ _ _ (fold_test-Keeps n a b) (split_ult-Keeps n a b w s p))

  -- `ult` of two terms of one width of at most 64, where the left one is no remainder by the constant
  -- zero, nor are the low parts of the concatenations in it, is true exactly where the value of its
  -- left side is below that of its right side, if the matchers count arguments as cvc5's do, or meet
  -- no application with three or more, as z3's must not.
  pub truth-ult :
      (a b : Term)
      → width a ≡ width b
      → width a ≤ 64
      → HasDivisors (suc (width a)) a
      → truth v (ult a b) ≡ ltb (bits v a) (bits v b)
  unfolding ult
  truth-ult a b w s p = ult_at-bits (suc (width a)) a b w s p
