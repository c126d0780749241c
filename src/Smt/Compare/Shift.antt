-- ===== src/Smt/Compare/Shift.antt =====
-- The shifts and the exclusive or that take the high part off a constant (src/smt.cpp).
use Prim.Native.Nat.{bit_xor, differ, digits, bit_xor-bitwise}
use native.Mathlib.Nat.{
  pow-suc, div-div-eq-div-mul, div-add-mod', mod-eq_of_lt, mod-lt, div-one, div-mul-le_self,
  mul_assoc, le_trans,
}
use mlir_tv.Base.{
  ℕ, zero, suc, ◌+◌, ◌*◌, ◌/◌, ◌%◌, ◌^◌, ◌<◌, ◌≤◌, ◌≡◌, ◌≢◌, refl, arith, sym, ap, ◌∙◌,
}
use mlir_tv.Base.Pow.{pow-pos, mod-two_mul, split-div}
use mlir_tv.Smt.Compare.{shr, shl}

xor_fuel :
    (n m a b : ℕ) → a ≤ n → a ≤ m → digits (λ b. b) differ n a b ≡ digits (λ b. b) differ m a b
xor_fuel zero zero a b p q = refl
xor_fuel zero (suc m) zero b p q = refl
xor_fuel zero (suc m) (suc a) b p q = absurd (omega arith)
xor_fuel (suc n) zero zero b p q = refl
xor_fuel (suc n) zero (suc a) b p q = absurd (omega arith)
xor_fuel (suc n) (suc m) zero b p q = refl
xor_fuel (suc n) (suc m) (suc a) b p q =
    rw (xor_fuel n m (suc a / 2) (b / 2) (omega arith) (omega arith))

differ_zero : (n : ℕ) → differ n 0 ≡ n
differ_zero zero = refl
differ_zero (suc n) = refl

differ_self : (n : ℕ) → differ n n ≡ 0
differ_self zero = refl
differ_self (suc n) = differ_self n

-- The lowest digit of an exclusive or.
bit_xor_digit : (a b : ℕ) → bit_xor a b ≡ bit_xor (a / 2) (b / 2) * 2 + differ (a % 2) (b % 2)
bit_xor_digit zero b = simp bit_xor-bitwise (omega arith)
bit_xor_digit (suc a) b =
    simp bit_xor-bitwise
      (omega (arith, xor_fuel a (suc a / 2) (suc a / 2) (b / 2) (omega arith) (omega arith)))

xor_self : (f n : ℕ) → n ≤ f → bit_xor n n ≡ 0
xor_self f zero h = simp bit_xor-bitwise
xor_self zero (suc n) h = absurd (omega arith)
xor_self (suc f) (suc n) h = omega (
  arith,
  bit_xor_digit (suc n) (suc n),
  xor_self f (suc n / 2) (omega arith),
  differ_self (suc n % 2),
)

-- Taking the high part off leaves the low part.
xor_high : (w c x : ℕ) → c / 2 ^ w ≡ x → bit_xor c (x * 2 ^ w) ≡ c % 2 ^ w
xor_high zero c x h =
    let e : x * 1 ≡ c = omega (arith, div-one c) in rw e (omega (arith, xor_self c c (omega arith)))
xor_high (suc w) c x h =
    let two_pow : 2 * 2 ^ w ≡ 2 ^ suc w = omega (arith, pow-suc 2 w) in
    let y = x * 2 ^ suc w in
    let k : y ≡ x * 2 ^ w * 2 = grind (arith, pow-suc 2 w, mul_assoc x (2 ^ w) 2) in
    let e : y / 2 ≡ x * 2 ^ w = omega arith in
    let f : y % 2 ≡ 0 = omega arith in
    let g : c / 2 / 2 ^ w ≡ x =
      div-div-eq-div-mul c 2 (2 ^ w) ∙ ap (λ (j : ℕ). c / j) two_pow ∙ h in
    bit_xor_digit c y
    ∙ rw (e, f, xor_high w (c / 2) x g, differ_zero (c % 2))
        (sym (mod-two_mul c (2 ^ w) (pow-pos w)))
    ∙ ap (λ (j : ℕ). c % j) (sym (pow-suc 2 w))

-- Where the high part of `c` is `x`, the rest is what the exclusive or leaves.
pub shift_same :
    (w c x : ℕ)
    → w < 64
    → c < 2 ^ 64
    → shr c w ≡ x
    → (c ≡ x * 2 ^ w + bit_xor c (shl x w)) × (bit_xor c (shl x w) < 2 ^ w)
unfolding shr shl
shift_same w c x h lt e =
    let m : w % 64 ≡ w = mod-eq_of_lt h in
    let q : c / 2 ^ w ≡ x = rw m at e in
    let d = div-add-mod' c (2 ^ w) in
    let le : x * 2 ^ w < 2 ^ 64 =
      rw (← q) (le_trans (omega (arith, div-mul-le_self c (2 ^ w))) lt) in
    let r : bit_xor c (shl x w) ≡ c % 2 ^ w = rw (shl, m, mod-eq_of_lt le) (xor_high w c x q) in
    (rw (r, ← q) (sym d), rw r (mod-lt c (pow-pos w)))

pub shift_differ : (w c x l : ℕ) → w < 64 → shr c w ≢ x → l < 2 ^ w → x * 2 ^ w + l ≢ c
unfolding shr
shift_differ w c x l h n lt e =
    let m : w % 64 ≡ w = mod-eq_of_lt h in n (rw (shr, m, ← e) (split-div x (2 ^ w) l lt))
