-- ===== src/Smt/Index/Digits.antt =====
-- Numbers in a mixed base, which `from1DIdx` and `to1DIdx` of src/smt.cpp compute with.
use mathlib.Core.List.{reverse_aux, reverse_aux-reverse_aux-nil}
use native.Mathlib.Nat.{
  add-mul-mod_self_left, add-mul, mul_assoc, div-add-mod, div-add-mod', mod-mod, one-mul, le_trans,
  mul-le-mul_right,
}
use mlir_tv.Base.{
  ℕ, zero, suc, ◌+◌, ◌-◌, ◌*◌, ◌/◌, ◌%◌, ◌≤◌, ◌<◌, ◌≡◌, refl, List, [], ◌∷◌, length,
  length-reverse_onto, uncons, reverse, arith, sym, ap, ◌∙◌,
}
use mlir_tv.Base.Pow.{split-mod, split-div}
use mlir_tv.Smt.Arith.Divide.{urem_value, udiv_value, urem_value-pos, udiv_value-pos}

-- The digits of a number, the lowest first; the highest takes the rest.
abbrev pub low_digits : ℕ → ℕ → List ℕ → List ℕ
low_digits w n [] = []
low_digits w n (d ∷ []) = n ∷ []
low_digits w n (d ∷ e ∷ ds) = urem_value n d ∷ low_digits w (udiv_value w n d) (e ∷ ds)

-- Horner's rule, the highest digit first.
abbrev pub horner : ℕ → List ℕ → List ℕ → ℕ
horner n (i ∷ is) (d ∷ ds) = horner (n * d + i) is ds
horner n [] ds = n
horner n (i ∷ is) [] = n

-- The offset of an index in row-major order; the size of the highest dimension does not matter.
abbrev pub row_major : List ℕ → List ℕ → ℕ
row_major (i ∷ is) (d ∷ ds) = horner i is ds
row_major [] ds = 0
row_major (i ∷ is) [] = 0

-- Every index is below its dimension.
abbrev pub InDims : List ℕ → List ℕ → Type 0
InDims [] [] = Unit
InDims (i ∷ is) (d ∷ ds) = (i < d) × InDims is ds
InDims [] (d ∷ ds) = ⊥
InDims (i ∷ is) [] = ⊥

pub whole_again : (w n d : ℕ) → udiv_value w n d * d + urem_value n d ≡ n
whole_again w n zero = omega arith
whole_again w n (suc d) =
    let p : 0 < suc d = omega arith in
    ap (λ (q : ℕ). q * suc d + urem_value n (suc d)) (sym (udiv_value-pos w n (suc d) p))
    ∙ ap (λ (r : ℕ). n / suc d * suc d + r) (sym (urem_value-pos n (suc d) p))
    ∙ div-add-mod' n (suc d)

pub length-low_digits : (w n : ℕ) (ds : List ℕ) → length (low_digits w n ds) ≡ length ds
length-low_digits w n [] = refl
length-low_digits w n (d ∷ []) = refl
length-low_digits w n (d ∷ e ∷ ds) = ap suc (length-low_digits w (udiv_value w n d) (e ∷ ds))

-- The digits come together to the number again.
row_major-digits_onto :
    (w n d : ℕ) (ds is es : List ℕ)
    → row_major (reverse_aux (low_digits w n (d ∷ ds)) is) (reverse_aux (d ∷ ds) es)
      ≡ horner n is es
row_major-digits_onto w n d [] is es = refl
row_major-digits_onto w n d (e ∷ ds) is es =
    row_major-digits_onto w (udiv_value w n d) e ds (urem_value n d ∷ is) (d ∷ es)
    ∙ ap (λ (m : ℕ). horner m is es) (whole_again w n d)

row_major-low_digits :
    (w n d : ℕ) (ds : List ℕ)
    → row_major (reverse_aux (low_digits w n (d ∷ ds)) []) (reverse_aux (d ∷ ds) []) ≡ n
row_major-low_digits w n d ds = row_major-digits_onto w n d ds [] []

-- The digits at any dimensions, the highest first.
pub row_major-digits_of :
    (w n : ℕ) (ds : List ℕ)
    → 0 < length ds
    → row_major (reverse (low_digits w n (reverse ds))) ds ≡ n
row_major-digits_of w n ds p =
    let (x, xs, e) =
      uncons (reverse ds) (length ds - 1) (omega (arith, length-reverse_onto ds [])) in
    let f : ds ≡ reverse (x ∷ xs) = sym (reverse_aux-reverse_aux-nil ds []) ∙ ap reverse e in
    let low = reverse (low_digits w n (reverse ds)) in
    ap (row_major low) f
    ∙ ap (λ (l : List ℕ). row_major (reverse (low_digits w n l)) (reverse (x ∷ xs))) e
    ∙ row_major-low_digits w n x xs

-- The digits of a number in Horner's form.
digit_low : (w n i d : ℕ) → i < d → urem_value (n * d + i) d ≡ i
digit_low w n i d h = sym (urem_value-pos (n * d + i) d (omega arith)) ∙ split-mod n d i h

digit_rest : (w n i d : ℕ) → i < d → udiv_value w (n * d + i) d ≡ n
digit_rest w n i d h = sym (udiv_value-pos w (n * d + i) d (omega arith)) ∙ split-div n d i h

digits_onto-horner :
    (w n : ℕ) (is ds : List ℕ) (e : ℕ) (es : List ℕ)
    → InDims is ds
    → low_digits w (horner n is ds) (reverse_aux ds (e ∷ es))
      ≡ reverse_aux is (low_digits w n (e ∷ es))
digits_onto-horner w n [] [] e es h = refl
digits_onto-horner w n (i ∷ is) (d ∷ ds) e es (h, k) =
    digits_onto-horner w (n * d + i) is ds d (e ∷ es) k
    ∙ ap (reverse_aux is) (
        ap (λ (j : ℕ). j ∷ low_digits w (udiv_value w (n * d + i) d) (e ∷ es)) (digit_low w n i d h)
        ∙ ap (λ (m : ℕ). i ∷ low_digits w m (e ∷ es)) (digit_rest w n i d h))
digits_onto-horner w n [] (d ∷ ds) e es h = absurd h
digits_onto-horner w n (i ∷ is) [] e es h = absurd h

pub low_digits-row_major :
    (w : ℕ) (is ds : List ℕ)
    → 0 < length ds
    → InDims is ds
    → low_digits w (row_major is ds) (reverse_aux ds []) ≡ reverse_aux is []
low_digits-row_major w [] [] p h = absurd (omega arith)
low_digits-row_major w (i ∷ is) (d ∷ ds) p (h, k) = digits_onto-horner w i is ds d [] k
low_digits-row_major w [] (d ∷ ds) p h = absurd h
low_digits-row_major w (i ∷ is) [] p h = absurd h

-- Congruence modulo any number.
mul-add-cut : (m x d i : ℕ) → (x % m * d + i) % m ≡ (x * d + i) % m
mul-add-cut m x d i =
    let e : x * d ≡ m * (x / m * d) + x % m * d =
      ap (λ (j : ℕ). j * d) (sym (div-add-mod x m))
      ∙ add-mul (m * (x / m)) (x % m) d
      ∙ ap (λ (j : ℕ). j + x % m * d) (mul_assoc m (x / m) d) in
    let f : x * d + i ≡ x % m * d + i + m * (x / m * d) = omega arith in
    sym (ap (λ (j : ℕ). j % m) f ∙ add-mul-mod_self_left (x % m * d + i) m (x / m * d))

pub mod-mul-cut : (m x d : ℕ) → x % m * d % m ≡ x * d % m
mod-mul-cut m x d =
    let e : x % m * d + 0 ≡ x % m * d = omega arith in
    let f : x * d + 0 ≡ x * d = omega arith in
    ap (λ (j : ℕ). j % m) (sym e) ∙ mul-add-cut m x d 0 ∙ ap (λ (j : ℕ). j % m) f

horner-mod : (m x y : ℕ) (is ds : List ℕ) → x % m ≡ y % m → horner x is ds % m ≡ horner y is ds % m
horner-mod m x y [] ds e = e
horner-mod m x y (i ∷ is) [] e = e
horner-mod m x y (i ∷ is) (d ∷ ds) e =
    horner-mod m (x * d + i) (y * d + i) is ds
      (sym (mul-add-cut m x d i) ∙ ap (λ (r : ℕ). (r * d + i) % m) e ∙ mul-add-cut m y d i)

pub horner_cut : (m x : ℕ) (is ds : List ℕ) → horner (x % m) is ds % m ≡ horner x is ds % m
horner_cut m x is ds = horner-mod m (x % m) x is ds (mod-mod x m)

-- An index in its dimensions stays below the number of elements.
abbrev pub product : List ℕ → ℕ
product [] = 1
product (d ∷ ds) = d * product ds

horner-lt_product : (n : ℕ) (is ds : List ℕ) → InDims is ds → horner n is ds < (n + 1) * product ds
horner-lt_product n [] [] h = omega arith
horner-lt_product n [] (d ∷ ds) h = absurd h
horner-lt_product n (i ∷ is) [] h = absurd h
horner-lt_product n (i ∷ is) (d ∷ ds) (h, k) =
    let p = horner-lt_product (n * d + i) is ds k in
    let e : (n + 1) * d ≡ n * d + d = add-mul n 1 d ∙ ap (λ (j : ℕ). n * d + j) (one-mul d) in
    let q : n * d + i + 1 ≤ (n + 1) * d = omega arith in
    rw (← mul_assoc (n + 1) d (product ds)) (le_trans p (mul-le-mul_right (product ds) q))

pub row_major-lt_product :
    (is ds : List ℕ) → 0 < length ds → InDims is ds → row_major is ds < product ds
row_major-lt_product [] [] p h = absurd (omega arith)
row_major-lt_product [] (d ∷ ds) p h = absurd h
row_major-lt_product (i ∷ is) [] p h = absurd h
row_major-lt_product (i ∷ is) (d ∷ ds) p (h, k) =
    let q : i + 1 ≤ d = omega arith in
    le_trans (horner-lt_product i is ds k) (mul-le-mul_right (product ds) q)
