-- ===== src/Floats/Add.antt =====
-- `AbsFpEncoding::add` of src/abstractops.cpp computes what IEEE 754 says of a sum.
use mlir_tv.Base.{
  ℕ, ◌+◌, ◌-◌, ◌*◌, ◌/◌, ◌%◌, ◌≤◌, ◌<◌, ◌≡◌, Bool, true, false, ◌&&◌, ◌||◌, ap, ◌∙◌, arith, ltb,
  ◌==◌, if◌then◌else◌, inl, inr, Bool-cases,
}
use mlir_tv.Floats.Ieee.{
  Float, not_a_number, infinite, finite, sign_value, signed, decode, encode, IsFloat, same_sign,
  negative_zero, ieee_add, parts-encode, decode-signed, decode-encode,
}

-- The bits of `sum_of` from those of its arguments.
abbrev pub add_value : ℕ → ℕ → ℕ → ℕ → ℕ
add_value p r a b =
    if a == p
    then b
    else if b == p
    then a
    else if a == p - 1
    then a
    else if b == p - 1
    then b
    else if (a == 0 + (p - 2) && b == p + (p - 2)) || (a == p + (p - 2) && b == 0 + (p - 2))
    then p - 1
    else if a == 0 + (p - 2) || a == p + (p - 2)
    then a
    else if b == 0 + (p - 2) || b == p + (p - 2)
    then b
    else if a / p == b / p
    then a / p * p + r
    else if a % p == b % p
    then 0
    else (if ltb (b % p) (a % p) then a / p else b / p) * p + r

-- What the code tests of a number.
abbrev tests_zero : Float → Bool
tests_zero (finite s m) = negative_zero s m
tests_zero _ = false

abbrev tests_nan : Float → Bool
tests_nan not_a_number = true
tests_nan _ = false

abbrev tests_inf : Bool → Float → Bool
tests_inf s (infinite t) = same_sign s t
tests_inf s _ = false

abbrev Tests : ℕ → Float → Type 0
Tests p x =
    ((encode p x == p) ≡ tests_zero x)
    × ((encode p x == p - 1) ≡ tests_nan x)
    × ((encode p x == 0 + (p - 2)) ≡ tests_inf false x)
    × ((encode p x == p + (p - 2)) ≡ tests_inf true x)

tests_lem : (p : ℕ) (x : Float) → 4 ≤ p → IsFloat p x → Tests p x
unfolding encode IsFloat sign_value same_sign negative_zero
tests_lem p not_a_number h k = (ground arith, ground arith, ground arith, ground arith)
tests_lem p (infinite true) h k = (ground arith, ground arith, ground arith, ground arith)
tests_lem p (infinite false) h k = (ground arith, ground arith, ground arith, ground arith)
tests_lem p (finite true m) h k = (ground arith, ground arith, ground arith, ground arith)
tests_lem p (finite false m) h k = (ground arith, ground arith, ground arith, ground arith)

module _ (p r : ℕ) (h : 4 ≤ p) (k : r < p - 1) where
  by_sign : (s : Bool) → decode p ((if s then 1 else 0) * p + r) ≡ signed p s r
  unfolding sign_value
  by_sign true =
      let e : 1 * p + r ≡ p + r = omega arith in ap (decode p) e ∙ decode-signed p true r k
  by_sign false =
      let e : 0 * p + r ≡ 0 + r = omega arith in ap (decode p) e ∙ decode-signed p false r k

  -- Different signs.
  larger :
      (s t : Bool) (m n : ℕ)
      → decode p (
          if m == n
          then 0
          else (if ltb n m then (if s then 1 else 0) else (if t then 1 else 0)) * p + r)
        ≡ (if m == n then finite false 0 else if ltb n m then signed p s r else signed p t r)
  unfolding encode IsFloat sign_value
  larger s t m n = elim (Bool-cases (m == n)) [
    | inl e ↦ rw e (decode-encode p (finite false 0) h (omega (arith, h)))
    | inr e ↦ elim (Bool-cases (ltb n m)) [
      | inl d ↦ rw (e, d) (by_sign s)
      | inr d ↦ rw (e, d) (by_sign t)
    ]
  ]

  by_signs :
      (s t : Bool) (m n : ℕ)
      → decode p (
          if (if s then 1 else 0) == (if t then 1 else 0)
          then (if s then 1 else 0) * p + r
          else if m == n
          then 0
          else (if ltb n m then (if s then 1 else 0) else (if t then 1 else 0)) * p + r)
        ≡ (if same_sign s t
            then signed p s r
            else if m == n
            then finite false 0
            else if ltb n m
            then signed p s r
            else signed p t r)
  unfolding same_sign
  by_signs true true m n = by_sign true
  by_signs true false m n = larger true false m n
  by_signs false true m n = larger false true m n
  by_signs false false m n = by_sign false

  -- The sum of two finite numbers that are no negative zeros.
  finite_sum :
      (s t : Bool) (m n : ℕ)
      → m < p
      → n < p
      → decode p (
          let a = sign_value p s + m in
          let b = sign_value p t + n in
          if a / p == b / p
          then a / p * p + r
          else if a % p == b % p
          then 0
          else (if ltb (b % p) (a % p) then a / p else b / p) * p + r)
        ≡ (if same_sign s t
            then signed p s r
            else if m == n
            then finite false 0
            else if ltb n m
            then signed p s r
            else signed p t r)
  finite_sum s t m n u w =
      let (e, f) = parts-encode p s m u in
      let (e', f') = parts-encode p t n w in rw (e, f, e', f') (by_signs s t m n)

  -- `add_value` by what the code tests.
  abbrev chosen : Float → Float → ℕ
  chosen x y =
      let a = encode p x in
      let b = encode p y in
      if tests_zero x
      then b
      else if tests_zero y
      then a
      else if tests_nan x
      then a
      else if tests_nan y
      then b
      else if (tests_inf false x && tests_inf true y) || (tests_inf true x && tests_inf false y)
      then p - 1
      else if tests_inf false x || tests_inf true x
      then a
      else if tests_inf false y || tests_inf true y
      then b
      else if a / p == b / p
      then a / p * p + r
      else if a % p == b % p
      then 0
      else (if ltb (b % p) (a % p) then a / p else b / p) * p + r

  chosen_lem : (x y : Float) → IsFloat p x → IsFloat p y → decode p (chosen x y) ≡ ieee_add p r x y
  unfolding ieee_add same_sign IsFloat negative_zero encode
  chosen_lem not_a_number not_a_number f g = decode-encode p not_a_number h tt
  chosen_lem not_a_number (infinite t) f g = decode-encode p not_a_number h tt
  chosen_lem not_a_number (finite t n) f g = elim (Bool-cases (negative_zero t n)) [
    | inl e ↦ rw e (decode-encode p not_a_number h tt)
    | inr e ↦ rw e (decode-encode p not_a_number h tt)
  ]
  chosen_lem (infinite s) not_a_number f g = decode-encode p not_a_number h tt
  chosen_lem (infinite true) (infinite true) f g = decode-encode p (infinite true) h tt
  chosen_lem (infinite true) (infinite false) f g = decode-encode p not_a_number h tt
  chosen_lem (infinite false) (infinite true) f g = decode-encode p not_a_number h tt
  chosen_lem (infinite false) (infinite false) f g = decode-encode p (infinite false) h tt
  chosen_lem (infinite true) (finite t n) f g = elim (Bool-cases (negative_zero t n)) [
    | inl e ↦ rw e (decode-encode p (infinite true) h tt)
    | inr e ↦ rw e (decode-encode p (infinite true) h tt)
  ]
  chosen_lem (infinite false) (finite t n) f g = elim (Bool-cases (negative_zero t n)) [
    | inl e ↦ rw e (decode-encode p (infinite false) h tt)
    | inr e ↦ rw e (decode-encode p (infinite false) h tt)
  ]
  chosen_lem (finite s m) not_a_number f g = elim (Bool-cases (negative_zero s m)) [
    | inl e ↦ rw e (decode-encode p not_a_number h tt)
    | inr e ↦ rw e (decode-encode p not_a_number h tt)
  ]
  chosen_lem (finite s m) (infinite true) f g = elim (Bool-cases (negative_zero s m)) [
    | inl e ↦ rw e (decode-encode p (infinite true) h tt)
    | inr e ↦ rw e (decode-encode p (infinite true) h tt)
  ]
  chosen_lem (finite s m) (infinite false) f g = elim (Bool-cases (negative_zero s m)) [
    | inl e ↦ rw e (decode-encode p (infinite false) h tt)
    | inr e ↦ rw e (decode-encode p (infinite false) h tt)
  ]
  chosen_lem (finite s m) (finite t n) f g = elim (Bool-cases (negative_zero s m)) [
    | inl e ↦ rw e (decode-encode p (finite t n) h g)
    | inr e ↦ elim (Bool-cases (negative_zero t n)) [
      | inl d ↦ rw (e, d) (decode-encode p (finite s m) h f)
      | inr d ↦ rw (e, d) (finite_sum s t m n (omega (arith, f)) (omega (arith, g)))
    ]
  ]

  pub add_value_lem :
      (x y : Float)
      → IsFloat p x
      → IsFloat p y
      → decode p (add_value p r (encode p x) (encode p y)) ≡ ieee_add p r x y
  add_value_lem x y f g =
      let (a, b, c, d) = tests_lem p x h f in
      let (a', b', c', d') = tests_lem p y h g in
      rw (a, b, c, d, a', b', c', d') (chosen_lem x y f g)
