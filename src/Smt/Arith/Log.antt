-- ===== src/Smt/Arith/Log.antt =====
-- `log2_ceil` (src/utils.h) at powers of two, and the test for them in src/smt.cpp.
use Prim.Native.Nat.{min, bit_and, digits, bit_and-bitwise}
use native.Mathlib.Nat.{pow-suc, pow-le-pow_right}
use native.Mathlib.Decide.{ℕ_discrete, dec_lt}
use mathlib.Core.Path.{subst}
use mlir_tv.Base.{
  ℕ, zero, suc, ◌+◌, ◌-◌, ◌*◌, ◌/◌, ◌%◌, ◌^◌, ◌≤◌, ◌<◌, ◌≡◌, refl, Bool, true, ◌&&◌, arith, ◌==◌,
  ==_iff, ◌∙◌, ap, sym,
}
use mlir_tv.Base.Pow.{pow-pos, mod-two_mul}
use mlir_tv.Smt.Arith.{log2_ceil, is_pow2}

and_fuel : (n m a b : ℕ) → a ≤ n → a ≤ m → digits (λ y. 0) min n a b ≡ digits (λ y. 0) min m a b
and_fuel zero zero a b p q = refl
and_fuel zero (suc m) zero b p q = refl
and_fuel zero (suc m) (suc a) b p q = absurd (omega arith)
and_fuel (suc n) zero zero b p q = refl
and_fuel (suc n) zero (suc a) b p q = absurd (omega arith)
and_fuel (suc n) (suc m) zero b p q = refl
and_fuel (suc n) (suc m) (suc a) b p q =
    rw (and_fuel n m (suc a / 2) (b / 2) (omega arith) (omega arith))

-- The lowest digit of a conjunction.
pub bit_and_digit : (a b : ℕ) → bit_and a b ≡ bit_and (a / 2) (b / 2) * 2 + min (a % 2) (b % 2)
bit_and_digit zero b = simp bit_and-bitwise (omega arith)
bit_and_digit (suc a) b =
    simp bit_and-bitwise
      (omega (arith, and_fuel a (suc a / 2) (suc a / 2) (b / 2) (omega arith) (omega arith)))

bit_and_self : (f n : ℕ) → n ≤ f → bit_and n n ≡ n
bit_and_self f zero h = omega (arith, bit_and-bitwise 0 0)
bit_and_self zero (suc n) h = absurd (omega arith)
bit_and_self (suc f) (suc n) h =
    omega (arith, bit_and_digit (suc n) (suc n), bit_and_self f (suc n / 2) (omega arith))

-- The digit step for `n & (n - 1)`, at an odd and at an even number.
odd_case : (n : ℕ) → n % 2 ≡ 1 → bit_and n (n - 1) ≡ bit_and (n / 2) (n / 2) * 2
odd_case n h =
    let e : (n - 1) / 2 ≡ n / 2 = omega arith in bit_and_digit n (n - 1) ∙ rw e (omega arith)

even_case : (n : ℕ) → n % 2 ≡ 0 → 0 < n → bit_and n (n - 1) ≡ bit_and (n / 2) (n / 2 - 1) * 2
even_case n h p =
    let e : (n - 1) / 2 ≡ n / 2 - 1 = omega arith in bit_and_digit n (n - 1) ∙ rw e (omega arith)

pow2_of_bit_and : (f n : ℕ) → n ≤ f → 0 < n → bit_and n (n - 1) ≡ 0 → (k : ℕ) × (n ≡ 2 ^ k)
pow2_of_bit_and zero n h p e = absurd (omega arith)
pow2_of_bit_and (suc f) n h p e = elim (ℕ_discrete (n % 2) 1) [
  | yes odd ↦ (0, omega (arith, odd_case n odd, bit_and_self n (n / 2) (omega arith)))
  | no not_odd ↦
      let even : n % 2 ≡ 0 = omega arith in
      let (k, g) =
        pow2_of_bit_and f (n / 2) (omega arith) (omega arith) (omega (arith, even_case n even p)) in
      (suc k, omega (arith, pow-suc 2 k, g))
]

pub is_pow2_lem : (n : ℕ) → is_pow2 n ≡ true → (0 < n) × ((k : ℕ) × (n ≡ 2 ^ k))
unfolding is_pow2
is_pow2_lem n h =
    let p : 0 < n = ground arith in (p, pow2_of_bit_and n n (omega arith) p (ground arith))

abbrev all_up_to : ℕ → (ℕ → Bool) → Bool
all_up_to zero p = true
all_up_to (suc n) p = p n && all_up_to n p

all_up_to_lem : (n : ℕ) (p : ℕ → Bool) (k : ℕ) → all_up_to n p ≡ true → k < n → p k ≡ true
all_up_to_lem zero p k h lt = absurd (omega arith)
all_up_to_lem (suc n) p k h lt = ground (arith, all_up_to_lem n p k)

small_table : all_up_to 32 (λ k. log2_ceil (2 ^ k) == k) ≡ true
unfolding log2_ceil
small_table = refl

large_table : all_up_to 32 (λ k. log2_ceil (2 ^ (k + 32)) == 31) ≡ true
unfolding log2_ceil
large_table = refl

pow_table : all_up_to 64 (λ k. is_pow2 (2 ^ k)) ≡ true
unfolding is_pow2
pow_table = refl

pub is_pow2-pow : (k : ℕ) → k < 64 → is_pow2 (2 ^ k) ≡ true
is_pow2-pow k h = all_up_to_lem 64 (λ k. is_pow2 (2 ^ k)) k pow_table h

-- Right up to 2 ^ 31.
pub log2_ceil-pow : (k : ℕ) → k < 32 → log2_ceil (2 ^ k) ≡ k
log2_ceil-pow k h = (==_iff _ _).0 (all_up_to_lem 32 (λ k. log2_ceil (2 ^ k) == k) k small_table h)

-- From 2 ^ 32 on the answer is 31, for the shift `1 << bits` is one of an `int`.
pub log2_ceil-pow_large : (k : ℕ) → 32 ≤ k → k < 64 → log2_ceil (2 ^ k) ≡ 31
log2_ceil-pow_large k h l =
    let e : k - 32 + 32 ≡ k = omega arith in
    subst (λ j. log2_ceil (2 ^ j) ≡ 31) e
      ((==_iff _ _).0
        (all_up_to_lem 32 (λ k. log2_ceil (2 ^ (k + 32)) == 31) (k - 32) large_table (omega arith)))

pub lt_of_pow-lt : (k m : ℕ) → 2 ^ k < 2 ^ m → k < m
lt_of_pow-lt k m h = elim (dec_lt k m) [
  | yes p ↦ p
  | no p ↦
      absurd
        (omega (arith, pow-le-pow_right {n = 2} (omega arith) (let q : m ≤ k = omega arith in q)))
]

-- A power of two below 2 ^ 32 passes the test, and `log2_ceil` is its exponent.
pub log2_ceil_lem :
    (n : ℕ) → is_pow2 n ≡ true → n < 2 ^ 32 → (n ≡ 2 ^ log2_ceil n) × (log2_ceil n < 32)
log2_ceil_lem n h l =
    let (p, (k, e)) = is_pow2_lem n h in
    let s : k < 32 = lt_of_pow-lt k 32 (rw (← e) l) in
    let g : log2_ceil n ≡ k = ap log2_ceil e ∙ log2_ceil-pow k s in
    (e ∙ ap (λ (j : ℕ). 2 ^ j) (sym g), omega arith)

bit_and-zero : (f a : ℕ) → a ≤ f → bit_and a 0 ≡ 0
bit_and-zero f zero h = omega (arith, bit_and-bitwise 0 0)
bit_and-zero zero (suc a) h = absurd (omega arith)
bit_and-zero (suc f) (suc a) h =
    omega (arith, bit_and_digit (suc a) 0, bit_and-zero f (suc a / 2) (omega arith))

-- `u & (2 ^ k - 1)` keeps the low `k` bits.
pub bit_and-mask : (k u : ℕ) → bit_and u (2 ^ k - 1) ≡ u % 2 ^ k
bit_and-mask zero u = omega (arith, bit_and-zero u u (omega arith))
bit_and-mask (suc k) u =
    let m = 2 ^ suc k - 1 in
    let e : m / 2 ≡ 2 ^ k - 1 = omega (arith, pow-suc 2 k) in
    let f : m % 2 ≡ 1 = omega (arith, pow-suc 2 k, pow-pos k) in
    let g : bit_and u m ≡ u / 2 % 2 ^ k * 2 + u % 2 =
      bit_and_digit u m ∙ rw (e, bit_and-mask k (u / 2)) (omega arith) in
    g ∙ sym (mod-two_mul u (2 ^ k) (pow-pos k)) ∙ ap (λ (j : ℕ). u % j) (sym (pow-suc 2 k))

-- The bitwise and is symmetric.
and_comm_fuel : (f a b : ℕ) → a ≤ f → bit_and a b ≡ bit_and b a
and_comm_fuel f zero b h = omega (arith, bit_and-bitwise 0 b, bit_and-zero b b (omega arith))
and_comm_fuel zero (suc a) b h = absurd (omega arith)
and_comm_fuel (suc f) (suc a) b h = omega (
  arith,
  bit_and_digit (suc a) b,
  bit_and_digit b (suc a),
  and_comm_fuel f (suc a / 2) (b / 2) (omega arith),
)

pub bit_and_comm : (a b : ℕ) → bit_and a b ≡ bit_and b a
bit_and_comm a b = and_comm_fuel a a b (omega arith)
