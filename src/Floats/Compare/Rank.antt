-- ===== src/Floats/Compare/Rank.antt =====
-- The order of the numbers that `AbsFpEncoding::cmp` of src/abstractops.cpp compares, and what its
-- predicates say.
use mlir_tv.Base.{
  ℕ, ◌+◌, ◌-◌, ◌/◌, ◌%◌, ◌≤◌, ◌<◌, ◌≡◌, Bool, true, false, ◌&&◌, ◌||◌, not, refl, arith, ltb, ◌==◌,
  if◌then◌else◌,
}
use mlir_tv.Floats.Ieee.{sign_value, parts-encode}
use mlir_tv.Floats.Compare.{
  CmpFPredicate, always_false, oeq, ogt, oge, olt, ole, one, ord, ueq, ugt, uge, ult_or_unordered,
  ule, une, uno, always_true,
}

-- The place of a number in the order, above the negative numbers' magnitudes.
unfoldable pub rank : ℕ → ℕ → ℕ
rank p n = if n / p == 1 then p - n % p else p + n % p

-- What a predicate says of numbers, by whether one is a NaN and how they compare.
unfoldable pub holds : CmpFPredicate → Bool → Bool → Bool → Bool → Bool
holds oeq nan eq lt gt = not nan && eq
holds one nan eq lt gt = not nan && not eq
holds ole nan eq lt gt = not nan && (eq || lt)
holds olt nan eq lt gt = not nan && lt
holds oge nan eq lt gt = not nan && (eq || gt)
holds ogt nan eq lt gt = not nan && gt
holds ueq nan eq lt gt = nan || eq
holds une nan eq lt gt = nan || not eq
holds ule nan eq lt gt = nan || (eq || lt)
holds ult_or_unordered nan eq lt gt = nan || lt
holds uge nan eq lt gt = nan || (eq || gt)
holds ugt nan eq lt gt = nan || gt
holds ord nan eq lt gt = not nan
holds uno nan eq lt gt = nan
holds always_true nan eq lt gt = true
holds always_false nan eq lt gt = false

pub same_test : (t : Bool) → (if t then true else false) ≡ t
same_test true = refl
same_test false = refl

pub not_or : (s t : Bool) → (not s && not t) ≡ not (s || t)
not_or true t = refl
not_or false t = refl

pub ordered_test : (n t : Bool) → (if n then false else t) ≡ (not n && t)
ordered_test true t = refl
ordered_test false t = refl

pub unordered_test : (n t : Bool) → (if n then true else t) ≡ (n || t)
unordered_test true t = refl
unordered_test false t = refl

pub and_true : (n : Bool) → (not n && true) ≡ not n
and_true true = refl
and_true false = refl

pub or_false : (n : Bool) → (n || false) ≡ n
or_false true = refl
or_false false = refl

pub zero_no_nan : (p : ℕ) → 4 ≤ p → (0 == p - 1 || 0 == p - 1) ≡ false
zero_no_nan p h = ground arith

unfoldable pub bit : Bool → ℕ
bit t = if t then 1 else 0

pub rank-parts :
    (p : ℕ) (s : Bool) (m : ℕ) → m < p → rank p (sign_value p s + m) ≡ (if s then p - m else p + m)
unfolding rank
rank-parts p s m h = let (e, f) = parts-encode p s m h in rw (rank, e, f) (by_sign s)
  where
    by_sign :
        (s : Bool)
        → (if (if s then 1 else 0) == 1 then p - m else p + m) ≡ (if s then p - m else p + m)
    by_sign true = refl
    by_sign false = refl

-- Comparing the signs, and then the magnitudes, is comparing the ranks, but for two zeros.
pub ranks_less :
    (p : ℕ) (s t : Bool) (m n : ℕ)
    → m < p
    → n < p
    → (m == 0 && n == 0) ≡ false
    → (if ltb (if t then 1 else 0) (if s then 1 else 0)
        then true
        else if ltb (if s then 1 else 0) (if t then 1 else 0)
        then false
        else if m == n
        then false
        else if (if ltb m n
            then not (not ((if s then 1 else 0) == 0))
            else not ((if s then 1 else 0) == 0))
        then true
        else false)
      ≡ ltb (if s then p - m else p + m) (if t then p - n else p + n)
ranks_less p true true m n h k z = ground arith
ranks_less p true false m n h k z = ground arith
ranks_less p false true m n h k z = ground arith
ranks_less p false false m n h k z = ground arith

pub ranks_greater :
    (p : ℕ) (s t : Bool) (m n : ℕ)
    → m < p
    → n < p
    → (m == 0 && n == 0) ≡ false
    → (if ltb (if s then 1 else 0) (if t then 1 else 0)
        then true
        else if ltb (if t then 1 else 0) (if s then 1 else 0)
        then false
        else if m == n
        then false
        else if (if ltb n m
            then not (not ((if s then 1 else 0) == 0))
            else not ((if s then 1 else 0) == 0))
        then true
        else false)
      ≡ ltb (if t then p - n else p + n) (if s then p - m else p + m)
ranks_greater p true true m n h k z = ground arith
ranks_greater p true false m n h k z = ground arith
ranks_greater p false true m n h k z = ground arith
ranks_greater p false false m n h k z = ground arith

pub ranks_equal :
    (p : ℕ) (s t : Bool) (m n : ℕ)
    → m < p
    → n < p
    → ((sign_value p s + m == sign_value p t + n) || (m == 0 && n == 0))
      ≡ ((if s then p - m else p + m) == (if t then p - n else p + n))
unfolding sign_value
ranks_equal p true true m n h k = ground arith
ranks_equal p true false m n h k = ground arith
ranks_equal p false true m n h k = ground arith
ranks_equal p false false m n h k = ground arith
