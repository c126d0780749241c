-- ===== src/Floats/Ints/Sum.antt =====
-- What `intSum` of src/abstractops.cpp sums where it unrolls.
use native.Mathlib.Nat.{mod-eq_of_lt, mod-add-mod, add-mod_right}
use mlir_tv.Base.{
  ℕ, zero, suc, ◌+◌, ◌-◌, ◌%◌, ◌^◌, ◌≤◌, ◌<◌, ◌≡◌, true, false, some, refl, Bool-cases, inl, inr,
  sym, ap, ◌∙◌, arith, ◌==◌, if◌then◌else◌,
}
use mlir_tv.Base.Pow.{pow-pos}
use mlir_tv.Smt.Terms.{Smt, IsSmt, IsFresh}
use mlir_tv.Smt.Arith.{mk_bv}
use mlir_tv.Smt.Words.{add, sub, is_zero}
use mlir_tv.Smt.Words.Sum.{bits-add}
use mlir_tv.Smt.Words.Wrap.{bits-sub}
use mlir_tv.Smt.Words.Width.{width-add}
use mlir_tv.Memory.{select}
use mlir_tv.Memory.Heap.{bits-select}
use mlir_tv.Smt.Compare.Equal.{truth-equal}
use mlir_tv.Floats.Bits.{bits-pick}
use mlir_tv.Floats.Arrays.{insert_initial_value}
use mlir_tv.Floats.Ints.{IntState, added_from, sum_of_array, int_sum}

-- The sum of `n` numbers from `j` on.
abbrev pub total_from : (ℕ → ℕ) → ℕ → ℕ → ℕ
total_from f zero j = 0
total_from f (suc n) j = f j + total_from f n (j + 1)

total_from-shift :
    (f g : ℕ → ℕ) (n j : ℕ)
    → ((i : ℕ) → i < j + n → g (i + 1) ≡ f i)
    → total_from g n (j + 1) ≡ total_from f n j
total_from-shift f g zero j h = refl
total_from-shift f g (suc n) j h =
    omega (arith, h j (omega arith), total_from-shift f g n (j + 1) (λ i p. h i (omega (arith, p))))

after_first : (x : ℕ) (f : ℕ → ℕ) (j : ℕ) → (if j + 1 == 0 then x else f (j + 1 - 1)) ≡ f j
after_first x f j =
    let e : (j + 1 == 0) ≡ false = ground arith in
    let d : j + 1 - 1 ≡ j = omega arith in rw (e, d) refl

before : (k m : ℕ) → 0 < k → k < m → (k + m - 1) % m ≡ k - 1
before k m p q =
    let e : k + m - 1 ≡ k - 1 + m = omega arith in
    rw e (add-mod_right (k - 1) m ∙ mod-eq_of_lt (omega arith))

module _ ⦃S : Smt⦄ (L : IsSmt S) (v : S.Valuation) (idx : S.Term) (w : ℕ) (s : w ≤ 64) where
  open S use {Term, bits, truth, cell, width, numeral?}

  -- The elements of an array have `w` bits.
  abbrev pub HasElements : Term → Type 0
  HasElements a = (i : Term) → width (select a i) ≡ w

  bits-index : (j : ℕ) → j < 2 ^ width idx → bits v (mk_bv j (width idx)) ≡ j
  unfolding mk_bv
  bits-index j h = L.bits-bv_val v j (width idx) ∙ mod-eq_of_lt h

  added_from-bits :
      (arr : Term) (n j : ℕ) (t : Term)
      → HasElements arr
      → width t ≡ w
      → j + n ≤ 2 ^ width idx
      → bits v (added_from idx arr n j t) ≡ (bits v t + total_from (cell v arr) n j) % 2 ^ w
  unfolding added_from
  added_from-bits arr zero j t e q h = sym (
      ap (λ (m : ℕ). m % 2 ^ w) (let z : bits v t + 0 ≡ bits v t = omega arith in z)
      ∙ mod-eq_of_lt (rw (← q) (L.bits-lt v t)))
  added_from-bits arr (suc n) j t e q h =
      let x = select arr (mk_bv j (width idx)) in
      let m : width t ≡ width x = q ∙ sym (e _) in
      let b : bits v (add t x) ≡ (bits v t + cell v arr j) % 2 ^ w =
        bits-add L v t x m (rw q s)
        ∙ rw (q, bits-select L v arr (mk_bv j (width idx)), bits-index j (omega (arith, h))) refl in
      added_from-bits arr n (j + 1) (add t x) e (width-add L v t x m ∙ q) (omega (arith, h))
      ∙ rw b (
          mod-add-mod (bits v t + cell v arr j) (2 ^ w) (total_from (cell v arr) n (j + 1))
          ∙ ap (λ (m : ℕ). m % 2 ^ w) (omega arith))

  -- The array with an initial value in front of its elements.
  inserted-cell :
      (a n x : Term) (k : ℕ)
      → S.is_var idx ≡ true
      → width idx ≤ 64
      → 0 < w
      → IsFresh S idx a
      → IsFresh S idx x
      → width x ≡ w
      → HasElements a
      → k < 2 ^ width idx
      → cell v (insert_initial_value idx a n x).0 k
        ≡ (if k == 0 then bits v x else cell v a (k - 1))
  unfolding insert_initial_value is_zero mk_bv
  inserted-cell a n x k i b z fa fx q e h =
      let v' = S.assign v idx k in
      let one = mk_bv 1 (width idx) in
      let at : bits v' idx ≡ k = L.bits-assign v idx k i h in
      let t : truth v' (is_zero idx) ≡ (k == 0) =
        truth-equal L v' idx _ b
        ∙ rw (at, L.bits-bv_val v' 0 (width idx), mod-eq_of_lt (pow-pos (width idx))) refl in
      let r : bits v' (select a (sub idx one)) ≡ cell v a (bits v' (sub idx one)) =
        bits-select L v' a (sub idx one) ∙ (fa v k).cell_eq (bits v' (sub idx one)) in
      L.cell-lambda_ v idx _ k
      ∙ bits-pick L v' (is_zero idx) x (select a (sub idx one)) w z q (e _)
      ∙ rw (t, (fx v k).bits_eq, r)
          (elim (Bool-cases (k == 0)) [
            | inl p ↦ rw p refl
            | inr p ↦
                let pos : 0 < k = ground (arith, p) in
                let c : bits v' (sub idx one) ≡ k - 1 =
                  bits-sub L v' idx one (sym (L.width-bv_val 1 (width idx))) b
                  ∙ rw
                      (
                        at,
                        L.bits-bv_val v' 1 (width idx),
                        mod-eq_of_lt (let q : 1 < 2 ^ width idx = omega arith in q),
                      )
                      (before k (2 ^ width idx) pos h) in
                rw (p, c) refl
          ])

  -- Where it unrolls, `intSum` of an array with a constant size of elements of at most 64 bits gives the
  -- initial value plus the elements, modulo 2 ^ w, and does not count as used: for a size with the
  -- initial value that an index of at most 64 bits can number, with a variable of the lambda that
  -- neither the array nor the initial value mentions.
  pub int_sum_lem :
      (st : IntState) (a n x : Term) (len : ℕ)
      → S.is_var idx ≡ true
      → width idx ≤ 64
      → 0 < w
      → IsFresh S idx a
      → IsFresh S idx x
      → width x ≡ w
      → HasElements a
      → HasElements (insert_initial_value idx a n x).0
      → numeral? (insert_initial_value idx a n x).1 ≡ some (suc len)
      → suc len ≤ 2 ^ width idx
      → (bits v (int_sum idx true st a n (some x)).0
          ≡ (bits v x + total_from (cell v a) len 0) % 2 ^ w)
        × ((int_sum idx true st a n (some x)).1 ≡ st)
  unfolding int_sum sum_of_array mk_bv
  int_sum_lem st a n x len i b z fa fx q e e' k h =
      let arr = (insert_initial_value idx a n x).0 in
      let zeros = mk_bv 0 (width (select arr idx)) in
      let cells : (j : ℕ)
          → j < 2 ^ width idx
          → cell v arr j ≡ (if j == 0 then bits v x else cell v a (j - 1)) =
        λ j. inserted-cell a n x j i b z fa fx q e in
      let nothing : bits v zeros ≡ 0 =
        L.bits-bv_val v 0 _ ∙ mod-eq_of_lt (pow-pos (width (select arr idx))) in
      let first : cell v arr 0 ≡ bits v x = cells 0 (omega (arith, h)) in
      let others : total_from (cell v arr) len (0 + 1) ≡ total_from (cell v a) len 0 =
        total_from-shift (cell v a) (cell v arr) len 0
          (λ j p. cells (j + 1) (omega (arith, p, h)) ∙ after_first (bits v x) (cell v a) j) in
      rw (k, int_sum, sum_of_array)
        (
          added_from-bits arr (suc len) 0 zeros e' (L.width-bv_val _ _ ∙ e' idx) (omega (arith, h))
              ∙ ap (λ (m : ℕ). m % 2 ^ w) (omega (arith, nothing, first, others)),
          refl,
        )
