-- ===== src/Floats/Constants/Sorts.antt =====
-- The sorts of the terms that `AbsFpEncoding::addConstants` of src/abstractops.cpp gives.
use mathlib.Core.Path.{subst}
use mlir_tv.Base.{
  ℕ, zero, suc, ◌+◌, ◌^◌, ◌≤◌, ◌<◌, ◌≡◌, true, false, some, List, [], ◌∷◌, ltb, ◌==◌, refl, sym,
  ◌∙◌, arith, inl, inr, Bool-cases, All, All-append, on_some, OnSome, on_guarded, on_then,
}
use mlir_tv.Smt.Terms.{Smt, IsSmt}
use mlir_tv.Smt.Arith.{mk_bv, concat}
use mlir_tv.Floats.{
  Fpa, FpEncoding, Constant, nan_const, inf_const, zero_const, largest_const, number_const,
  value_bitwidth, find_repr, constant, largest, fp_bitwidth,
}
use mlir_tv.Floats.Bits.{IsAbstract, width-pick, IsFp, nan-IsFp, infinity-IsFp, zero-IsFp}
use mlir_tv.Floats.Constants.{
  ConstSource, AddProgress, next_prec, plain_value, mk_nonzero, large_value, rounded_value,
  exact_value, magnitude_of, add_number, add_from, add_constants,
}

-- Precision bits are counted from 1.
abbrev CountsFromOne : AddProgress → Type 0
CountsFromOne st = (id : ℕ) → 1 ≤ next_prec id st.prec_offset_map

no_prec : (n p : ℕ) → 1 ≤ n → ltb n (2 ^ p) ≡ true → 0 < p
no_prec n zero h e = absurd (ground (arith, h, e))
no_prec n (suc p) h e = omega arith

counted :
    (id k n : ℕ) (m : List (ℕ × ℕ))
    → ((id : ℕ) → 1 ≤ next_prec id m)
    → 1 ≤ next_prec id ((k, n + 1) ∷ m)
unfolding next_prec
counted id k n m c = ground (arith, c id)

module _ ⦃S : Smt⦄ (L : IsSmt S) (v : S.Valuation) where
  open S use {Term, width}

  nonzero-width : (e : Term) (n : ℕ) → 0 < n → width e ≡ n → width (mk_nonzero e) ≡ n
  unfolding mk_nonzero mk_bv
  nonzero-width e n z p = width-pick L v _ (S.bv_val 1 (width e)) e n z (L.width-bv_val _ _ ∙ p) p

  joined-width : (a b : Term) (m n : ℕ) → width a ≡ m → width b ≡ n → width (concat a b) ≡ m + n
  unfolding concat
  joined-width a b m n p q = L.width-bvconcat a b ∙ rw (p, q) refl

  zeros-width : (n w : ℕ) → width (mk_bv n w) ≡ w
  unfolding mk_bv
  zeros-width n w = L.width-bv_val n w

  -- Variables of one bit or more have the sort that they are made with.
  pub record MakesSorts ⦃P : Fpa⦄ (Q : ConstSource) : Type 0 where
    pub width-mk_var : (w i : ℕ) → 0 < w → width (Q.mk_var w i) ≡ w
    pub width-mk_dval_var : (w i : ℕ) → 0 < w → width (Q.mk_dval_var w i) ≡ w
    pub width-mk_fresh_var : (w i : ℕ) → 0 < w → width (Q.mk_fresh_var w i) ≡ w

  module _ ⦃P : Fpa⦄ ⦃Q : ConstSource⦄ (M : MakesSorts Q) where
    open P use {Number}

    -- A magnitude, and what is kept of the variables of the loop.
    abbrev IsMagnitude : FpEncoding → (Term × AddProgress) → Type 0
    IsMagnitude E (e, after) = (width e ≡ value_bitwidth E) × CountsFromOne after

    large-IsMagnitude :
        (E : FpEncoding) (st : AddProgress)
        → 0 < E.limit_bitwidth
        → 0 < E.truncated_bitwidth
        → CountsFromOne st
        → OnSome (IsMagnitude E) (large_value E st)
    unfolding large_value value_bitwidth
    large-IsMagnitude E st l t c =
        let n = E.truncated_bitwidth + E.prec_bitwidth in
        let x = Q.mk_fresh_var E.limit_bitwidth (st.fresh_count + 1) in
        let f = M.width-mk_fresh_var E.limit_bitwidth (st.fresh_count + 1) l in
        on_guarded (IsMagnitude E) (ltb n 31) _ λ _. (
          joined-width _ _ _ n (width-pick L v _ x _ _ l f (nonzero-width x _ l f))
                (M.width-mk_fresh_var n st.fresh_count (omega arith))
              ∙ omega arith,
          c,
        )

    rounded-IsMagnitude :
        (E : FpEncoding) (st : AddProgress)
        → 0 < E.truncated_bitwidth
        → CountsFromOne st
        → OnSome (IsMagnitude E) (rounded_value E st)
    unfolding rounded_value value_bitwidth
    rounded-IsMagnitude E st t c = on_guarded (IsMagnitude E) _ _ λ g.
        let p =
          no_prec (next_prec st.value_id st.prec_offset_map) E.prec_bitwidth (c st.value_id) g in
        (
          joined-width _ _ _ _
              (joined-width _ _ _ _ (zeros-width 0 E.limit_bitwidth)
                (M.width-mk_var E.truncated_bitwidth st.value_id t))
              (nonzero-width _ _ p (M.width-mk_fresh_var E.prec_bitwidth st.fresh_count p)),
          λ id.
              counted id st.value_id (next_prec st.value_id st.prec_offset_map) st.prec_offset_map
                c,
        )

    exact-IsMagnitude :
        (E : FpEncoding) (st : AddProgress)
        → 0 < E.truncated_bitwidth
        → CountsFromOne st
        → IsMagnitude E (exact_value E st)
    unfolding exact_value value_bitwidth
    exact-IsMagnitude E st t c =
        let e =
          joined-width _ _ _ _ (zeros-width 0 E.limit_bitwidth)
            (M.width-mk_var E.truncated_bitwidth (st.value_id + 1) t) in
        (
          elim (Bool-cases (ltb 0 E.prec_bitwidth)) [
            | inl p ↦ rw p (joined-width _ _ _ _ e (zeros-width 0 E.prec_bitwidth))
            | inr p ↦ rw p (let z : E.prec_bitwidth ≡ 0 = ground (arith, p) in e ∙ omega (arith, z))
          ],
          c,
        )

    plain-width :
        (E : FpEncoding) (id : ℕ)
        → 0 < value_bitwidth E
        → width (plain_value E id) ≡ value_bitwidth E
    unfolding plain_value
    plain-width E id h = elim (Bool-cases E.is_double) [
      | inl d ↦ rw (d, plain_value) (M.width-mk_dval_var (value_bitwidth E) id h)
      | inr d ↦ rw (d, plain_value) (M.width-mk_var (value_bitwidth E) id h)
    ]

    magnitude_of-IsMagnitude :
        (E : FpEncoding) (st : AddProgress) (f : Number)
        → 0 < E.truncated_bitwidth
        → CountsFromOne st
        → OnSome (IsMagnitude E) (magnitude_of E st f)
    unfolding magnitude_of value_bitwidth
    magnitude_of-IsMagnitude E st f t c =
        let info = Q.get_casting_info f in
        elim (Bool-cases (E.limit_bitwidth == 0)) [
          | inl z ↦ elim (Bool-cases (E.prec_bitwidth == 0)) [
            | inl p ↦ rw (z, p) (plain-width E (st.value_id + 1) (omega arith), c)
            | inr p ↦ rw (z, p) tt
          ]
          | inr z ↦
              let l : 0 < E.limit_bitwidth = ground (arith, z) in
              rw z (elim (Bool-cases info.zero_limit_bits) [
                | inr i ↦ rw i (large-IsMagnitude E st l t c)
                | inl i ↦ elim (Bool-cases info.zero_prec_bits) [
                  | inr j ↦ rw (i, j) (rounded-IsMagnitude E st t c)
                  | inl j ↦ rw (i, j) (exact-IsMagnitude E st t c)
                ]
              ])
        ]

    -- The terms that an encoding has for its constants.
    abbrev Represents : ℕ → List (Number × Term) → Type 0
    Represents w reprs = All (λ (f, e). width e ≡ 1 + w) reprs

    abbrev Grows : FpEncoding → (FpEncoding × AddProgress) → Type 0
    Grows E (next, after) =
        (record E { absrepr = next.absrepr } ≡ next)
        × Represents (value_bitwidth E) next.absrepr
        × CountsFromOne after

    add_number-Grows :
        (E : FpEncoding) (st : AddProgress) (f : Number)
        → 0 < E.truncated_bitwidth
        → Represents (value_bitwidth E) E.absrepr
        → CountsFromOne st
        → OnSome (Grows E) (add_number E st f)
    unfolding add_number
    add_number-Grows E st f t r c = elim (Bool-cases (Q.is_negative f)) [
      | inl n ↦ rw n tt
      | inr n ↦ rw n (
          on_then (IsMagnitude E) (Grows E) (magnitude_of E st f) _
            (magnitude_of-IsMagnitude E st f t c)
            (λ (e, after) (w, k).
              let s = λ (b : ℕ). joined-width (mk_bv b 1) e 1 _ (zeros-width b 1) w in
              (
                refl,
                All-append (λ (g, d). width d ≡ 1 + value_bitwidth E) E.absrepr _ r
                    (s 0, (s 1, tt)),
                k,
              )))
    ]

    abbrev GrowsAll : FpEncoding → FpEncoding → Type 0
    GrowsAll E last =
        (record E { absrepr = last.absrepr } ≡ last) × Represents (value_bitwidth E) last.absrepr

    add_from-GrowsAll :
        (E : FpEncoding) (st : AddProgress) (consts : List Constant)
        → 0 < E.truncated_bitwidth
        → Represents (value_bitwidth E) E.absrepr
        → CountsFromOne st
        → OnSome (GrowsAll E) (add_from E st consts)
    unfolding add_from value_bitwidth
    add_from-GrowsAll E st [] t r c = (refl, r)
    add_from-GrowsAll E st (number_const f ∷ rest) t r c =
        on_then (Grows E) (GrowsAll E) (add_number E st f) _ (add_number-Grows E st f t r c)
          (λ (next, after) (e, s, k).
            subst (λ x. OnSome (GrowsAll E) (add_from x after rest)) e
              (add_from-GrowsAll (record E { absrepr = next.absrepr }) after rest t s k))
    add_from-GrowsAll E st (zero_const true ∷ rest) t r c = tt
    add_from-GrowsAll E st (zero_const false ∷ rest) t r c = add_from-GrowsAll E st rest t r c
    add_from-GrowsAll E st (largest_const true ∷ rest) t r c = tt
    add_from-GrowsAll E st (largest_const false ∷ rest) t r c = add_from-GrowsAll E st rest t r c
    add_from-GrowsAll E st (inf_const negative ∷ rest) t r c = tt
    add_from-GrowsAll E st (nan_const ∷ rest) t r c = tt

    -- What is found among terms of the sort has the sort.
    find_repr-width :
        (w : ℕ) (f : Number) (reprs : List (Number × Term))
        → Represents w reprs
        → OnSome (λ e. width e ≡ 1 + w) (find_repr f reprs)
    unfolding find_repr
    find_repr-width w f [] r = tt
    find_repr-width w f ((g, d) ∷ rest) (p, r) = elim (Bool-cases (P.same g f)) [
      | inl i ↦ rw i p
      | inr i ↦ rw i (find_repr-width w f rest r)
    ]

    constant-width :
        (E : FpEncoding)
        → IsAbstract L v E
        → Represents (value_bitwidth E) E.absrepr
        → (c : Constant) → OnSome (λ e. width e ≡ 1 + value_bitwidth E) (constant E c)
    unfolding constant largest mk_bv fp_bitwidth
    constant-width E A r nan_const = nan-IsFp L v E A
    constant-width E A r (inf_const s) = infinity-IsFp L v E A s
    constant-width E A r (zero_const s) = zero-IsFp L v E A s
    constant-width E A r (largest_const s) = rw (A.abstract, largest) (L.width-bv_val _ _)
    constant-width E A r (number_const f) =
        rw (A.abstract, constant) (find_repr-width (value_bitwidth E) f E.absrepr r)

    -- After `addConstants` of an abstract encoding that had no constants, whose truncated part has a bit
    -- or more and whose magnitudes have 2 to 63 bits, every constant that `constant` finds has the
    -- encoding's sort, if variables of one bit or more have the sort that they are made with.
    pub constant-add_constants :
        (E after : FpEncoding) (consts : List Constant) (c : Constant) (e : Term)
        → IsAbstract L v E
        → 0 < E.truncated_bitwidth
        → E.absrepr ≡ []
        → add_constants E consts ≡ some after
        → constant after c ≡ some e
        → IsFp L v E e
    unfolding add_constants value_bitwidth next_prec
    constant-add_constants E after consts c e A t z h k =
        let (q, r) =
          on_some (GrowsAll E) (add_constants E consts) after
            (add_from-GrowsAll E _ consts t (rw z tt) (λ id. omega arith)) h in
        let next : FpEncoding = record E { absrepr = after.absrepr } in
        let B : IsAbstract L v next = record {
          abstract = A.abstract;
          enough = A.enough;
          small = A.small;
        } in
        on_some _ (constant next c) e (constant-width next B r c)
          (subst (λ x. constant x c ≡ some e) (sym q) k)

    -- `addConstants` changes nothing but the constants.
    pub add_constants-keeps :
        (E after : FpEncoding) (consts : List Constant)
        → 0 < E.truncated_bitwidth
        → E.absrepr ≡ []
        → add_constants E consts ≡ some after
        → record E { absrepr = after.absrepr } ≡ after
    unfolding add_constants next_prec
    add_constants-keeps E after consts t z h =
        (on_some (GrowsAll E) (add_constants E consts) after
          (add_from-GrowsAll E _ consts t (rw z tt) (λ id. omega arith)) h).0
