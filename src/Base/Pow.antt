-- ===== src/Base/Pow.antt =====
-- Laws of `2 ^ n`, and of quotient and remainder, that the libraries do not have.
use Prim.Native.Nat.{ℕ, zero, suc, ◌+◌, ◌-◌, ◌*◌, ◌/◌, ◌%◌, ◌^◌, ◌<◌, ◌≤◌, ◌∣◌}
use mathlib.Core.Path.{◌≡◌, ◌∙◌, ap, subst}
use native.Mathlib.Nat.{pow-suc, one-le-pow, add-suc, mul-add-div_right, mul-add-mod_self_right}
use native.Mathlib.Nat.{
  mod-eq_of_lt, div-eq_of_lt, div-add-mod', mod-lt, mod-mod_of_dvd, dvd-mul_right,
}
use native.Mathlib.Omega.{arith}

pub pow-pos : (n : ℕ) → 0 < 2 ^ n
pow-pos n = one-le-pow n 2 (omega arith)

pub pow-add : (m n : ℕ) → 2 ^ (m + n) ≡ 2 ^ m * 2 ^ n
pow-add m zero = grind arith
pow-add m (suc n) = grind (arith, pow-add m n, pow-suc 2 (m + n), pow-suc 2 n, add-suc m n)

-- Quotient and remainder of a number that is written by them.
pub split-mod : (q m r : ℕ) → r < m → (q * m + r) % m ≡ r
split-mod q m r h = mul-add-mod_self_right q m r ∙ mod-eq_of_lt h

pub split-div : (q m r : ℕ) → r < m → (q * m + r) / m ≡ q
split-div q m r h = mul-add-div_right (omega arith) q r ∙ omega (arith, div-eq_of_lt h)

-- The low digit and the rest.
pub mod-two_mul : (u m : ℕ) → 0 < m → u % (m * 2) ≡ u / 2 % m * 2 + u % 2
mod-two_mul u m p =
    let q = u / 2 / m in
    let r = u / 2 % m * 2 + u % 2 in
    let e : u ≡ q * (m * 2) + r = omega (arith, div-add-mod' (u / 2) m) in
    ap (λ (t : ℕ). t % (m * 2)) e ∙ split-mod q (m * 2) r (omega (arith, mod-lt (u / 2) p))

-- A remainder by `2 ^ n` is not changed by one by a larger power first.
pub mod-mod_pow : (a m n : ℕ) → m ≤ n → a % 2 ^ n % 2 ^ m ≡ a % 2 ^ m
mod-mod_pow a m n h =
    let e : m + (n - m) ≡ n = omega arith in
    mod-mod_of_dvd (2 ^ m) {b = 2 ^ n} a (
      subst (λ (j : ℕ). 2 ^ m ∣ 2 ^ j) e
        (rw (pow-add m (n - m)) (dvd-mul_right (2 ^ m) (2 ^ (n - m)))))
