-- ===== src/Smt/Compare/Equal.antt =====
-- The meaning of `operator==` of src/smt.cpp at bit-vectors of at most 64 bits.
use Prim.Native.Nat.{bit_xor}
use native.Mathlib.Nat.{mod-eq_of_lt}
use native.Mathlib.Decide.{ℕ_discrete}
use mlir_tv.Base.{
  ℕ, zero, suc, ◌+◌, ◌*◌, ◌/◌, ◌%◌, ◌^◌, ◌≤◌, ◌<◌, ◌≡◌, ◌≢◌, inl, inr, Bool, true, false, some,
  ◌==◌, ==_iff, arith, Option-cases, Bool-cases, sym, ap, ◌∙◌,
}
use mlir_tv.Base.Pow.{split-mod, split-div}
use mlir_tv.Smt.Terms.{Smt, IsSmt, concat_kind}
use mlir_tv.Smt.Match.{match_binary_op, match_concat}
use mlir_tv.Smt.Logic.{mk_bool, truth-mk_bool}
use mlir_tv.Smt.Arith.{mk_bv}
use mlir_tv.Smt.Compare.{
  shr, shl, Reduced, plain, settled, parts, on_numerals, if_same, split_equal_const, split_equal,
  fold_test, either, equal_at, equal,
}
use mlir_tv.Smt.Compare.Shift.{shift_same, shift_differ}

pub ==_of_iff : (a b c d : ℕ) → (a ≡ b → c ≡ d) → (c ≡ d → a ≡ b) → (a == b) ≡ (c == d)
==_of_iff a b c d f g = ground (arith, ==_iff a b, ==_iff c d)

pub ==_of_ne : (a b : ℕ) → a ≢ b → (a == b) ≡ false
==_of_ne a b h = ground (arith, ==_iff a b)

low_eq : (q r m l k : ℕ) → l < m → k < m → q * m + l ≡ r * m + k → l ≡ k
low_eq q r m l k p p' e = sym (split-mod q m l p) ∙ ap (λ (j : ℕ). j % m) e ∙ split-mod r m k p'

high_eq : (q r m l k : ℕ) → l < m → k < m → q * m + l ≡ r * m + k → q ≡ r
high_eq q r m l k p p' e = sym (split-div q m l p) ∙ ap (λ (j : ℕ). j / m) e ∙ split-div r m k p'

-- Two numbers in base `m` are equal where both digits are.
digits_eq_low : (q r m l k : ℕ) → l < m → k < m → l ≡ k → (q == r) ≡ (q * m + l == r * m + k)
digits_eq_low q r m l k p p' e = ==_of_iff q r _ _ (λ f. rw (e, f)) λ g. high_eq q r m l k p p' g

module _ ⦃S : Smt⦄ (L : IsSmt S) (v : S.Valuation) where
  open S use {Term, bits, truth, width, numeral?, bvconcat}

  -- What a reduction promises of the test whose answer is `t`.
  abbrev Keeps : Bool → Reduced → Type 0
  Keeps t plain = Unit
  Keeps t (settled s) = s ≡ t
  Keeps t (parts c d) = ((bits v c == bits v d) ≡ t) × (width c ≤ 64)

  pub on_numerals-Keeps {ℓ} :
      (P : Reduced → Type ℓ) (a b : Term) (f : ℕ → ℕ → Reduced) (d : Reduced)
      → ((x y : ℕ) → numeral? a ≡ some x → numeral? b ≡ some y → P (f x y))
      → P d
      → P (on_numerals a b f d)
  unfolding on_numerals
  on_numerals-Keeps P a b f d p q = elim (Option-cases (numeral? a)) [
    | inl e ↦ rw (e, on_numerals) q
    | inr (x, e) ↦ elim (Option-cases (numeral? b)) [
      | inl g ↦ rw (e, g, on_numerals) q
      | inr (y, g) ↦ rw (e, g, on_numerals) (p x y e g)
    ]
  ]

  pub fold_test-Keeps :
      (f : ℕ → ℕ → Bool) (a b : Term) → Keeps (f (bits v a) (bits v b)) (fold_test f a b)
  unfolding fold_test
  fold_test-Keeps f a b =
      on_numerals-Keeps (Keeps (f (bits v a) (bits v b))) a b (λ x y. settled (f x y)) plain
        (λ x y e g. rw ((L.numeral_lem v a x e).0, (L.numeral_lem v b y g).0)) tt

  high_part-lt :
      (h l : Term) (x : ℕ) → numeral? h ≡ some x → width (bvconcat h l) ≤ 64 → width l < 64
  high_part-lt h l x e w = omega (arith, L.width-bvconcat h l, L.width-numeral h x e)

  -- A term against a constant that fits.
  low_word :
      {m n : ℕ} (l : Term) (r : ℕ)
      → r < 2 ^ width l
      → (bits v l ≡ r → m ≡ n)
      → (m ≡ n → bits v l ≡ r)
      → (bits v l == bits v (mk_bv r (width l))) ≡ (m == n)
  unfolding mk_bv
  low_word {m} {n} l r q f g =
      rw (L.bits-bv_val v r (width l), mod-eq_of_lt q) (==_of_iff (bits v l) r m n f g)

  split_equal_const-Keeps :
      (h l b : Term)
      → width (bvconcat h l) ≤ 64
      → Keeps (bits v (bvconcat h l) == bits v b) (split_equal_const h l b)
  unfolding split_equal_const
  split_equal_const-Keeps h l b w =
      on_numerals-Keeps (Keeps (bits v (bvconcat h l) == bits v b)) h b _ plain
        (λ x c e g.
          let k = width l in
          let ex = (L.numeral_lem v h x e).0 in
          let (ec, lt) = L.numeral_lem v b c g in
          let small = high_part-lt h l x e w in
          rw (L.bits-bvconcat v h l, ex, ec)
            (elim (Bool-cases (shr c k == x)) [
              | inl t ↦
                  let (p, q) = shift_same k c x small lt ((==_iff _ _).0 t) in
                  rw t (
                    low_word l (bit_xor c (shl x k)) q (λ i. omega arith) (λ i. omega arith),
                    omega arith,
                  )
              | inr t ↦ rw t (
                  sym (
                    ==_of_ne _ _ (
                      shift_differ k c x (bits v l) small
                        (λ z. absurd (ground (arith, ==_iff (shr c k) x))) (L.bits-lt v l))))
            ]))
        tt

  narrow : (h l : Term) → width (bvconcat h l) ≤ 64 → (width h ≤ 64) × (width l ≤ 64)
  narrow h l w = (omega (arith, L.width-bvconcat h l), omega (arith, L.width-bvconcat h l))

  -- Two concatenations whose low parts are of one width.
  if_same-Keeps :
      (t : Bool) (c d : Term) (x y : ℕ)
      → (x ≢ y → t ≡ false)
      → (x ≡ y → (bits v c == bits v d) ≡ t)
      → width c ≤ 64
      → Keeps t (if_same (parts c d) x y)
  unfolding if_same
  if_same-Keeps t c d x y f g w = elim (ℕ_discrete x y) [
    | yes e ↦ rw (if_same, (==_iff x y).1 e) (g e, w)
    | no n ↦ rw (if_same, ==_of_ne x y n) (sym (f n))
  ]

  concats-Keeps :
      (h l h' l' b : Term)
      → width (bvconcat h l) ≤ 64
      → width l ≡ width l'
      → b ≡ bvconcat h' l'
      → Keeps (bits v (bvconcat h l) == bits v b) (
          on_numerals l l'
            (if_same (parts h h'))
            (on_numerals h h' (if_same (parts l l')) (split_equal_const h l b)))
  concats-Keeps h l h' l' b w e f =
      let t = bits v (bvconcat h l) == bits v b in
      let m = 2 ^ width l in
      let p = L.bits-lt v l in
      let p' : bits v l' < m = rw e (L.bits-lt v l') in
      let (wh, wl) = narrow h l w in
      let c : bits v b ≡ bits v h' * m + bits v l' = rw (f, e) (L.bits-bvconcat v h' l') in
      let d = L.bits-bvconcat v h l in
      on_numerals-Keeps (Keeps t) l l' _ _
        (λ x y i j.
          let ex = (L.numeral_lem v l x i).0 in
          let ey = (L.numeral_lem v l' y j).0 in
          if_same-Keeps t h h' x y
            (λ n.
              rw (d, c)
                (==_of_ne _ _ λ z.
                  n (sym ex ∙ low_eq (bits v h) (bits v h') m (bits v l) (bits v l') p p' z ∙ ey)))
            (λ z.
              rw (d, c)
                (digits_eq_low (bits v h) (bits v h') m (bits v l) (bits v l') p p' (omega arith)))
            wh)
        (on_numerals-Keeps (Keeps t) h h' _ _
          (λ x y i j.
            let ex = (L.numeral_lem v h x i).0 in
            let ey = (L.numeral_lem v h' y j).0 in
            if_same-Keeps t l l' x y
              (λ n.
                rw (d, c)
                  (==_of_ne _ _ λ z.
                    n (
                      sym ex
                      ∙ high_eq (bits v h) (bits v h') m (bits v l) (bits v l') p p' z
                      ∙ ey)))
              (λ z. rw (d, c, ex, ey, z) (==_of_iff _ _ _ _ (λ k. omega arith) (λ k. omega arith)))
              wl)
          (split_equal_const-Keeps h l b w))

  split_equal-Keeps : (a b : Term) → width a ≤ 64 → Keeps (bits v a == bits v b) (split_equal a b)
  unfolding split_equal
  split_equal-Keeps a b w = elim (Option-cases (match_binary_op concat_kind a)) [
    | inl e ↦ rw (e, split_equal) tt
    | inr ((h, l), e) ↦
        let f = match_concat L a h l e in
        let wc : width (bvconcat h l) ≤ 64 = rw (← f) w in
        elim (Option-cases (match_binary_op concat_kind b)) [
          | inl g ↦ rw (e, g, split_equal, f) (split_equal_const-Keeps h l b wc)
          | inr ((h', l'), g) ↦ elim (Bool-cases (width l == width l')) [
            | inl k ↦
                rw (e, g, k, split_equal, f)
                  (concats-Keeps h l h' l' b wc ((==_iff _ _).0 k) (match_concat L b h' l' g))
            | inr k ↦ rw (e, g, k, split_equal, f) (split_equal_const-Keeps h l b wc)
          ]
        ]
  ]

  either-Keeps : (t : Bool) (r s : Reduced) → Keeps t r → Keeps t s → Keeps t (either r s)
  unfolding either
  either-Keeps t plain s p q = q
  either-Keeps t (settled b) s p q = p
  either-Keeps t (parts c d) s p q = p

  by_reduced :
      (fuel : ℕ) (a b : Term)
      → ((c d : Term) → width c ≤ 64 → truth v (equal_at fuel c d) ≡ (bits v c == bits v d))
      → (r : Reduced) → Keeps (bits v a == bits v b) r
      → truth v
          (elim r [ plain ↦ S.eq a b | settled t ↦ mk_bool t | parts c d ↦ equal_at fuel c d ])
        ≡ (bits v a == bits v b)
  by_reduced fuel a b ih plain k = L.truth-eq v a b
  by_reduced fuel a b ih (settled t) k = truth-mk_bool L v t ∙ k
  by_reduced fuel a b ih (parts c d) k = ih c d k.1 ∙ k.0

  equal_at-bits :
      (fuel : ℕ) (a b : Term) → width a ≤ 64 → truth v (equal_at fuel a b) ≡ (bits v a == bits v b)
  unfolding equal_at
  equal_at-bits zero a b w = L.truth-eq v a b
  equal_at-bits (suc fuel) a b w = elim (Bool-cases (S.identical a b)) [
    | inl e ↦
        rw (e, truth-mk_bool L v true) (sym ((==_iff _ _).1 (ap (bits v) (L.identical_lem a b e))))
    | inr e ↦ rw e (
        by_reduced fuel a b (λ c d k. equal_at-bits fuel c d k)
          (either (fold_test ◌==◌ a b) (split_equal a b))
          (either-Keeps (bits v a == bits v b) _ _ (fold_test-Keeps ◌==◌ a b)
            (split_equal-Keeps a b w)))
  ]

  -- `operator==` of a bit-vector of at most 64 bits and another is true where their values are
  -- equal, whichever of its shortcuts it takes, if the matchers count arguments as cvc5's do, or meet
  -- no application with three or more, as z3's must not.
  pub truth-equal : (a b : Term) → width a ≤ 64 → truth v (equal a b) ≡ (bits v a == bits v b)
  unfolding equal
  truth-equal a b w = equal_at-bits (suc (width a)) a b w
