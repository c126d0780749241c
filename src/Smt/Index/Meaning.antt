-- ===== src/Smt/Index/Meaning.antt =====
-- The meaning of `from1DIdx`, `to1DIdx` and `get1DSize` of src/smt.cpp, at indices of one width of at
-- most 32 bits (the width that the program takes unless it is told another).
use mathlib.Core.List.{reverse_aux-reverse_aux-nil}
use native.Mathlib.Nat.{
  le_trans, mod-eq_of_lt, mod-add-mod, mul-one, one-mul, mul_assoc, pow-le-pow_right,
}
use mlir_tv.Base.{
  ℕ, suc, ◌+◌, ◌*◌, ◌%◌, ◌^◌, ◌≤◌, ◌<◌, ◌≡◌, refl, some, List, [], ◌∷◌, map, reverse, length, All,
  All-reverse_onto, length-reverse_onto, map-reverse_onto, uncons, ==_iff, arith, sym, ap, ◌∙◌,
}
use mlir_tv.Smt.Terms.{Smt, IsSmt}
use mlir_tv.Smt.Arith.{mk_bv, urem, udiv}
use mlir_tv.Smt.Arith.Divide.{bits-urem, bits-udiv, urem_value, udiv_value}
use mlir_tv.Smt.Words.{add, mul}
use mlir_tv.Smt.Words.Sum.{bits-add}
use mlir_tv.Smt.Words.Wrap.{bits-mul}
use mlir_tv.Smt.Words.Width.{small_divisor, width-urem, width-udiv, width-add, width-mul}
use mlir_tv.Smt.Index.{from_low, from_1d_idx, to_from, to_1d_idx, size_from, get_1d_size}
use mlir_tv.Smt.Index.Digits.{
  low_digits, horner, row_major, InDims, horner_cut, row_major-digits_of, low_digits-row_major,
  row_major-lt_product, product, mod-mul-cut,
}

pow-gt_one : (w : ℕ) → 0 < w → 1 < 2 ^ w
pow-gt_one w h = let e : 2 ^ 1 ≤ 2 ^ w = pow-le-pow_right {n = 2} (omega arith) h in omega arith

module _ ⦃S : Smt⦄ (L : IsSmt S) (v : S.Valuation) (w : ℕ) (s : w ≤ 32) where
  open S use {Term, bits, width, simplify}

  -- The terms of a list have the width of an index.
  abbrev pub AreIndices : List Term → Type 0
  AreIndices = All λ t. width t ≡ w

  divisor-small : (d : Term) → width d ≡ w → (n : ℕ) → S.numeral? d ≡ some n → n < 2 ^ 32
  divisor-small d e = small_divisor L v d (rw e s)

  rest-AreIndices : (idx d : Term) → width idx ≡ w → width d ≡ w → width (udiv idx d) ≡ w
  rest-AreIndices idx d e f = width-udiv L v idx d (e ∙ sym f) (rw f s) ∙ e

  from_low-bits :
      (idx : Term) (ds : List Term)
      → width idx ≡ w
      → AreIndices ds
      → map (bits v) (from_low idx ds) ≡ low_digits w (bits v idx) (map (bits v) ds)
  unfolding from_low
  from_low-bits idx [] e h = refl
  from_low-bits idx (d ∷ []) e h = refl
  from_low-bits idx (d ∷ c ∷ ds) e (f, h) =
      let p : bits v (urem idx d) ≡ urem_value (bits v idx) (bits v d) =
        bits-urem L v idx d (divisor-small d f) in
      let q : bits v (udiv idx d) ≡ udiv_value w (bits v idx) (bits v d) =
        bits-udiv L v idx d (e ∙ sym f) (divisor-small d f)
        ∙ ap (λ (j : ℕ). udiv_value j (bits v idx) (bits v d)) e in
      ap (λ (j : ℕ). j ∷ map (bits v) (from_low (udiv idx d) (c ∷ ds))) p
      ∙ ap (λ (l : List ℕ). urem_value (bits v idx) (bits v d) ∷ l)
          (from_low-bits (udiv idx d) (c ∷ ds) (rest-AreIndices idx d e f) h
            ∙ ap (λ (j : ℕ). low_digits w j (map (bits v) (c ∷ ds))) q)

  from_low-AreIndices :
      (idx : Term) (ds : List Term) → width idx ≡ w → AreIndices ds → AreIndices (from_low idx ds)
  unfolding from_low
  from_low-AreIndices idx [] e h = tt
  from_low-AreIndices idx (d ∷ []) e h = (e, tt)
  from_low-AreIndices idx (d ∷ c ∷ ds) e (f, h) = (
    width-urem L v idx d (e ∙ sym f) (rw f s) ∙ e,
    from_low-AreIndices (udiv idx d) (c ∷ ds) (rest-AreIndices idx d e f) h,
  )

  length-from_low : (idx : Term) (ds : List Term) → length (from_low idx ds) ≡ length ds
  unfolding from_low
  length-from_low idx [] = refl
  length-from_low idx (d ∷ []) = refl
  length-from_low idx (d ∷ c ∷ ds) = ap suc (length-from_low (udiv idx d) (c ∷ ds))

  to_from-bits :
      (idx : Term) (is ds : List Term)
      → width idx ≡ w
      → AreIndices is
      → AreIndices ds
      → (width (to_from idx is ds) ≡ w)
        × (bits v (to_from idx is ds)
            ≡ horner (bits v idx) (map (bits v) is) (map (bits v) ds) % 2 ^ w)
  unfolding to_from
  to_from-bits idx [] ds e h k = (e, sym (mod-eq_of_lt (rw (← e) (L.bits-lt v idx))))
  to_from-bits idx (i ∷ is) [] e h k = (e, sym (mod-eq_of_lt (rw (← e) (L.bits-lt v idx))))
  to_from-bits idx (i ∷ is) (d ∷ ds) e (f, h) (g, k) =
      let m = mul idx d in
      let wm : width m ≡ w = width-mul L idx d (e ∙ sym g) ∙ e in
      let wa : width (add m i) ≡ w = width-add L v m i (wm ∙ sym f) ∙ wm in
      let (p, q) = to_from-bits (add m i) is ds wa h k in
      let r : bits v (add m i) ≡ (bits v idx * bits v d + bits v i) % 2 ^ w =
        bits-add L v m i (wm ∙ sym f) (rw wm (omega arith))
        ∙ rw (wm, bits-mul L v idx d (e ∙ sym g) (rw e (omega arith)), e)
            (mod-add-mod (bits v idx * bits v d) (2 ^ w) (bits v i)) in
      let xs = map (bits v) is in
      let ys = map (bits v) ds in
      (
        p,
        q
            ∙ ap (λ (j : ℕ). horner j xs ys % 2 ^ w) r
            ∙ horner_cut (2 ^ w) (bits v idx * bits v d + bits v i) xs ys,
      )

  pub length-InDims :
      (is ds : List Term) → InDims (map (bits v) is) (map (bits v) ds) → length is ≡ length ds
  length-InDims [] [] h = refl
  length-InDims [] (d ∷ ds) h = absurd h
  length-InDims (i ∷ is) [] h = absurd h
  length-InDims (i ∷ is) (d ∷ ds) h = ap suc (length-InDims is ds h.1)

  -- `from1DIdx` succeeds at one dimension or more, with the digits of the index.
  pub from_1d_idx_lem :
      (idx d : Term) (ds : List Term)
      → width idx ≡ w
      → AreIndices (d ∷ ds)
      → (i : Term) × (is : List Term) × (from_1d_idx idx (d ∷ ds) ≡ some (i ∷ is))
        × (length is ≡ length ds)
        × AreIndices (i ∷ is)
        × (map (bits v) (i ∷ is)
            ≡ reverse (low_digits w (bits v idx) (reverse (map (bits v) (d ∷ ds)))))
  unfolding from_1d_idx
  from_1d_idx_lem idx d ds e h =
      let low = from_low idx (reverse (d ∷ ds)) in
      let r = All-reverse_onto _ (d ∷ ds) [] h tt in
      let b : map (bits v) (reverse low)
          ≡ reverse (low_digits w (bits v idx) (reverse (map (bits v) (d ∷ ds)))) =
        map-reverse_onto (bits v) low []
        ∙ ap reverse (
            from_low-bits idx (reverse (d ∷ ds)) e r
            ∙ ap (low_digits w (bits v idx)) (map-reverse_onto (bits v) (d ∷ ds) [])) in
      let k : length (reverse low) ≡ suc (length ds) = omega (
        arith,
        length-reverse_onto low [],
        length-from_low idx (reverse (d ∷ ds)),
        length-reverse_onto (d ∷ ds) [],
      ) in
      let a : AreIndices (reverse low) =
        All-reverse_onto _ low [] (from_low-AreIndices idx (reverse (d ∷ ds)) e r) tt in
      let (i, is, f) = uncons (reverse low) (length ds) k in
      let n : length is ≡ length ds = omega (arith, rw f at k) in
      (i, is, ap some f, n, rw f at a, rw f at b)

  -- `to1DIdx` succeeds at as many indices as dimensions, with the row-major offset modulo 2 ^ w.
  pub to_1d_idx_lem :
      (is ds : List Term)
      → length is ≡ length ds
      → AreIndices is
      → AreIndices ds
      → (t : Term) × (to_1d_idx w is ds ≡ some t)
        × (width t ≡ w)
        × (bits v t ≡ row_major (map (bits v) is) (map (bits v) ds) % 2 ^ w)
  unfolding to_1d_idx mk_bv
  to_1d_idx_lem [] ds e h k = (S.bv_val 0 w, refl, L.width-bv_val 0 w, L.bits-bv_val v 0 w)
  to_1d_idx_lem (i ∷ is) [] e h k = absurd (omega arith)
  to_1d_idx_lem (i ∷ is) (d ∷ ds) e (f, h) (g, k) =
      let t = to_from i is ds in
      let (p, q) = to_from-bits i is ds f h k in
      let l : length is ≡ length ds = omega arith in
      (
        simplify t,
        rw (to_1d_idx, (==_iff (length is) (length ds)).1 l),
        L.width-simplify t ∙ p,
        (L.simplify_lem v t).bits_eq ∙ q,
      )

  -- `to1DIdx` undoes `from1DIdx`: at one dimension or more, of which none needs to be positive,
  -- both succeed and the index of the array and the terms it is made of again have one value.
  pub to_1d_idx-from_1d_idx :
      (idx d : Term) (ds : List Term)
      → width idx ≡ w
      → AreIndices (d ∷ ds)
      → (is : List Term) × (t : Term) × (from_1d_idx idx (d ∷ ds) ≡ some is)
        × (to_1d_idx w is (d ∷ ds) ≡ some t)
        × (bits v t ≡ bits v idx)
  to_1d_idx-from_1d_idx idx d ds e h =
      let (i, is, f, n, a, b) = from_1d_idx_lem idx d ds e h in
      let (t, g, wt, c) = to_1d_idx_lem (i ∷ is) (d ∷ ds) (ap suc n) a h in
      let ns = map (bits v) (d ∷ ds) in
      let r : row_major (map (bits v) (i ∷ is)) ns ≡ bits v idx =
        ap (λ (l : List ℕ). row_major l ns) b
        ∙ row_major-digits_of w (bits v idx) ns (omega arith) in
      (i ∷ is, t, f, g, c ∙ ap (λ (j : ℕ). j % 2 ^ w) r ∙ mod-eq_of_lt (rw (← e) (L.bits-lt v idx)))

  -- `from1DIdx` undoes `to1DIdx` at an index in its dimensions, where the number of elements is at
  -- most 2 ^ w.
  pub from_1d_idx-to_1d_idx :
      (is : List Term) (d : Term) (ds : List Term)
      → AreIndices is
      → AreIndices (d ∷ ds)
      → InDims (map (bits v) is) (map (bits v) (d ∷ ds))
      → product (map (bits v) (d ∷ ds)) ≤ 2 ^ w
      → (t : Term) × (js : List Term) × (to_1d_idx w is (d ∷ ds) ≡ some t)
        × (from_1d_idx t (d ∷ ds) ≡ some js)
        × (map (bits v) js ≡ map (bits v) is)
  from_1d_idx-to_1d_idx is d ds a h k p =
      let ms = map (bits v) is in
      let ns = map (bits v) (d ∷ ds) in
      let n : length is ≡ length (d ∷ ds) = length-InDims is (d ∷ ds) k in
      let (t, g, wt, c) = to_1d_idx_lem is (d ∷ ds) n a h in
      let (j, js, f, _, _, b) = from_1d_idx_lem t d ds wt h in
      let c' : bits v t ≡ row_major ms ns =
        c ∙ mod-eq_of_lt (le_trans (row_major-lt_product ms ns (omega arith) k) p) in
      (
        t,
        j ∷ js,
        g,
        f,
        b
            ∙ ap (λ (m : ℕ). reverse (low_digits w m (reverse ns))) c'
            ∙ ap reverse (low_digits-row_major w ms ns (omega arith) k)
            ∙ reverse_aux-reverse_aux-nil ms [],
      )

  size_from-bits :
      (acc : Term) (ds : List Term)
      → width acc ≡ w
      → AreIndices ds
      → bits v (size_from acc ds) ≡ bits v acc * product (map (bits v) ds) % 2 ^ w
  unfolding size_from
  size_from-bits acc [] e h =
      sym (
        ap (λ (j : ℕ). j % 2 ^ w) (mul-one (bits v acc))
        ∙ mod-eq_of_lt (rw (← e) (L.bits-lt v acc)))
  size_from-bits acc (d ∷ ds) e (f, h) =
      let p = product (map (bits v) ds) in
      let q : bits v (mul acc d) ≡ bits v acc * bits v d % 2 ^ w =
        bits-mul L v acc d (e ∙ sym f) (rw e (omega arith))
        ∙ ap (λ (j : ℕ). bits v acc * bits v d % 2 ^ j) e in
      size_from-bits (mul acc d) ds (width-mul L acc d (e ∙ sym f) ∙ e) h
      ∙ ap (λ (j : ℕ). j * p % 2 ^ w) q
      ∙ mod-mul-cut (2 ^ w) (bits v acc * bits v d) p
      ∙ ap (λ (j : ℕ). j % 2 ^ w) (mul_assoc (bits v acc) (bits v d) p)

  -- `get1DSize` is the product of the sizes modulo 2 ^ w, at any number of dimensions.
  pub bits-get_1d_size :
      (ds : List Term)
      → AreIndices ds
      → 0 < w
      → bits v (get_1d_size w ds) ≡ product (map (bits v) ds) % 2 ^ w
  unfolding get_1d_size mk_bv
  bits-get_1d_size ds h p =
      let one : bits v (S.bv_val 1 w) ≡ 1 = L.bits-bv_val v 1 w ∙ mod-eq_of_lt (pow-gt_one w p) in
      (L.simplify_lem v (size_from (S.bv_val 1 w) ds)).bits_eq
      ∙ size_from-bits (S.bv_val 1 w) ds (L.width-bv_val 1 w) h
      ∙ ap (λ (j : ℕ). j * product (map (bits v) ds) % 2 ^ w) one
      ∙ ap (λ (j : ℕ). j % 2 ^ w) (one-mul (product (map (bits v) ds)))

  size_from-width :
      (acc : Term) (ds : List Term) → width acc ≡ w → AreIndices ds → width (size_from acc ds) ≡ w
  unfolding size_from
  size_from-width acc [] e h = e
  size_from-width acc (d ∷ ds) e (f, h) =
      size_from-width (mul acc d) ds (width-mul L acc d (e ∙ sym f) ∙ e) h

  pub width-get_1d_size : (ds : List Term) → AreIndices ds → width (get_1d_size w ds) ≡ w
  unfolding get_1d_size mk_bv
  width-get_1d_size ds h =
      L.width-simplify (size_from (S.bv_val 1 w) ds)
      ∙ size_from-width (S.bv_val 1 w) ds (L.width-bv_val 1 w) h
