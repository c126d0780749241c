-- ===== src/Memory/Pick.antt =====
-- `itebid` and `update` of src/memory.cpp: which block they pick.
use native.Mathlib.Nat.{mod-eq_of_lt}
use native.Mathlib.Decide.{ℕ_discrete}
use mlir_tv.Base.{
  ℕ, zero, suc, ◌+◌, ◌-◌, ◌^◌, ◌≤◌, ◌<◌, ◌≡◌, refl, inl, inr, List, [], ◌∷◌, length, length-set,
  get_or-set_self, get_or-set_ne, if◌then◌else◌, ◌==◌, ==_iff, arith, Option-cases, Bool-cases, sym,
  ap, ◌∙◌,
}
use mlir_tv.Smt.Terms.{Smt, IsSmt}
use mlir_tv.Smt.Logic.{mk_ite}
use mlir_tv.Smt.Arith.{mk_bv}
use mlir_tv.Smt.Compare.{equal}
use mlir_tv.Smt.Compare.Equal.{==_of_ne, truth-equal}
use mlir_tv.Memory.{itebid_from, itebid, update_from, update, entry}

module _ ⦃S : Smt⦄ (bid : S.Term) where
  open S use {Term, numeral?}

  update_from-length :
      (f : ℕ → Term) (i : ℕ) (xs : List Term) → length (update_from bid f i xs) ≡ length xs
  unfolding update_from
  update_from-length f i [] = refl
  update_from-length f i (x ∷ xs) = ap suc (update_from-length f (i + 1) xs)

  pub length-update : (f : ℕ → Term) (xs : List Term) → length (update bid f xs) ≡ length xs
  unfolding update
  length-update f xs = elim (Option-cases (numeral? bid)) [
    | inl e ↦ rw (e, update) (update_from-length f 0 xs)
    | inr (c, e) ↦ rw (e, update) (length-set xs c (f c))
  ]

module _ ⦃S : Smt⦄ (L : IsSmt S) (v : S.Valuation) (bid : S.Term) (narrow : S.width bid ≤ 64) where
  open S use {Term, bits, truth, width, numeral?}

  truth-is_bid :
      (i : ℕ) → i < 2 ^ width bid → truth v (equal bid (mk_bv i (width bid))) ≡ (bits v bid == i)
  unfolding mk_bv
  truth-is_bid i h =
      truth-equal L v bid (mk_bv i (width bid)) narrow
      ∙ rw (L.bits-bv_val v i (width bid), mod-eq_of_lt h)

  -- A choice `ite` between things of type `T`, what they mean, and those at which it is a choice.
  module _ {ℓ κ} {T : Type ℓ} {M : Type κ} (ite : Term → T → T → T) (mean : T → M) (Ok : T → Type 0)
      (ite-Ok : (c : Term) (a b : T) → Ok a → Ok b → Ok (ite c a b))
      (mean-ite : (c : Term) (a b : T)
        → Ok a
        → Ok b
        → mean (ite c a b) ≡ (if truth v c then mean a else mean b))
      (fn : ℕ → T) (fn-Ok : (i : ℕ) → Ok (fn i)) where
    pub itebid_from-pick :
        (i left : ℕ) (acc : T)
        → Ok acc
        → i + left ≤ 2 ^ width bid
        → (bits v bid < i → mean acc ≡ mean (fn (bits v bid)))
        → bits v bid < i + left
        → mean (itebid_from ite bid fn i left acc) ≡ mean (fn (bits v bid))
    unfolding itebid_from
    itebid_from-pick i zero acc ok le before lt = before (omega arith)
    itebid_from-pick i (suc left) acc ok le before lt =
        let c = equal bid (mk_bv i (width bid)) in
        itebid_from-pick (i + 1) left (ite c (fn i) acc) (ite-Ok c (fn i) acc (fn-Ok i) ok)
          (omega arith)
          (λ h.
            mean-ite c (fn i) acc (fn-Ok i) ok
            ∙ (rw (truth-is_bid i (omega arith)) (here i acc before h)))
          (omega arith)
      where
        here :
            (i : ℕ) (acc : T)
            → (bits v bid < i → mean acc ≡ mean (fn (bits v bid)))
            → bits v bid < i + 1
            → (if bits v bid == i then mean (fn i) else mean acc) ≡ mean (fn (bits v bid))
        here i acc before h = elim (Bool-cases (bits v bid == i)) [
          | inl e ↦ rw e (ap (λ (j : ℕ). mean (fn j)) (sym ((==_iff (bits v bid) i).0 e)))
          | inr e ↦ rw e (before (ground (arith, ==_iff (bits v bid) i)))
        ]

    -- `itebid` means what it gives at the block that `bid` is, for a `bid` of at most 64 bits that
    -- is the number of a block.
    pub itebid-pick :
        (n : ℕ)
        → n ≤ 2 ^ width bid
        → bits v bid < n
        → mean (itebid ite n bid fn) ≡ mean (fn (bits v bid))
    unfolding itebid
    itebid-pick n le lt = elim (Option-cases (numeral? bid)) [
      | inl e ↦
          rw (e, itebid)
            (itebid_from-pick 1 (n - 1) (fn 0) (fn-Ok 0) (omega arith)
              (λ h. ap (λ (j : ℕ). mean (fn j)) (omega arith)) (omega arith))
      | inr (c, e) ↦ rw (e, itebid) (ap (λ (j : ℕ). mean (fn j)) (sym (L.numeral_lem v bid c e).0))
    ]

  module _ {κ} {M : Type κ} (mean : Term → M) (Ok : Term → Type 0)
      (mean-ite : (c a b : Term)
        → Ok a
        → Ok b
        → mean (mk_ite c a b) ≡ (if truth v c then mean a else mean b))
      (f : ℕ → Term) (f-Ok : (i : ℕ) → Ok (f i)) where
    update_from-pick :
        (i j : ℕ) (xs : List Term)
        → ((j : ℕ) → Ok (entry xs j))
        → i + length xs ≤ 2 ^ width bid
        → j < length xs
        → mean (entry (update_from bid f i xs) j)
          ≡ (if bits v bid == i + j then mean (f (i + j)) else mean (entry xs j))
    unfolding update_from entry
    update_from-pick i j [] ok le lt = absurd (omega arith)
    update_from-pick i zero (x ∷ xs) ok le lt =
        let e : i + 0 ≡ i = omega arith in
        rw e (
          mean-ite (equal bid (mk_bv i (width bid))) (f i) x (f-Ok i) (ok 0)
          ∙ rw (truth-is_bid i (omega arith)))
    update_from-pick i (suc j) (x ∷ xs) ok le lt =
        let e : i + 1 + j ≡ i + suc j = omega arith in
        rw (← e) (update_from-pick (i + 1) j xs (λ j. ok (suc j)) (omega arith) (omega arith))

    -- `update` changes the block that `bid` is, and no other.
    pub update-pick :
        (j : ℕ) (xs : List Term)
        → ((j : ℕ) → Ok (entry xs j))
        → length xs ≤ 2 ^ width bid
        → j < length xs
        → mean (entry (update bid f xs) j)
          ≡ (if bits v bid == j then mean (f j) else mean (entry xs j))
    unfolding update entry
    update-pick j xs ok le lt = elim (Option-cases (numeral? bid)) [
      | inl e ↦
          let z : 0 + j ≡ j = omega arith in
          let r = update_from-pick 0 j xs ok (omega arith) lt in rw (e, update) (rw z at r)
      | inr (c, e) ↦
          let g = (L.numeral_lem v bid c e).0 in
          rw (e, update, g)
            (elim (ℕ_discrete c j) [
              | yes h ↦ rw (h, (==_iff j j).1 refl) (ap mean (get_or-set_self xs j (f j) _ lt))
              | no h ↦ rw (==_of_ne c j h) (ap mean (get_or-set_ne xs c j (f c) _ h))
            ])
    ]
