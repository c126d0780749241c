-- ===== src/Tensor/Windows.antt =====
-- How many windows the pools and the convolutions of src/value.cpp make along a dimension.
use native.Mathlib.Nat.{mod-eq_of_lt, le-div_iff_mul-le}
use mlir_tv.Base.{
  ℕ, suc, ◌+◌, ◌-◌, ◌*◌, ◌/◌, ◌%◌, ◌^◌, ◌≤◌, ◌<◌, ◌≡◌, ◌↔◌, inl, inr, refl, leb, Bool-cases, arith,
  sym, ap, ◌∙◌,
}
use mlir_tv.Base.Pow.{split-mod}
use mlir_tv.Smt.Terms.{Smt, IsSmt}
use mlir_tv.Smt.Arith.{udiv}
use mlir_tv.Smt.Arith.Divide.{bits-udiv, udiv_value-pos}
use mlir_tv.Smt.Words.{add, sub, mul}
use mlir_tv.Smt.Words.Sum.{bits-add}
use mlir_tv.Smt.Words.Wrap.{bits-sub, bits-mul}
use mlir_tv.Smt.Words.Width.{width-add, width-sub, width-mul, small_divisor}
use mlir_tv.Tensor.Repeat.{no_wrap}
use mlir_tv.Tensor.Reduce.{windows}
use mlir_tv.Tensor.Convolve.{conv_size}

-- The windows of size `k` at every multiple of `s` that end within `d`.
quotient_lem : (d s k o : ℕ) → 0 < s → k ≤ d + s → (o < (d + s - k) / s) ↔ (o * s + k ≤ d)
quotient_lem d s k o p q = (
  λ h. let e : suc o * s ≤ d + s - k = (le-div_iff_mul-le p).0 h in omega (arith, e),
  λ h. (le-div_iff_mul-le p).1 (omega (arith, h)),
)

-- A sum of a wrapped difference is the wrapped difference of the sum.
wrapped_sum : (d s k m : ℕ) → k < m → d + s < m → k ≤ d + s → ((d + m - k) % m + s) % m ≡ d + s - k
wrapped_sum d s k m p q r = elim (Bool-cases (leb k d)) [
  | inl e ↦
      let h : k ≤ d = ground (arith, e) in
      ap (λ (n : ℕ). (n + s) % m) (no_wrap d k m h (omega arith))
      ∙ mod-eq_of_lt (omega arith)
      ∙ omega (arith, h)
  | inr e ↦
      let h : d < k = ground (arith, e) in
      let f : d + m - k + s ≡ 1 * m + (d + s - k) = omega (arith, h) in
      ap (λ (n : ℕ). (n + s) % m) (mod-eq_of_lt (omega (arith, h)))
      ∙ ap (λ (n : ℕ). n % m) f
      ∙ split-mod 1 m (d + s - k) (omega arith)
]

module _ ⦃S : Smt⦄ (L : IsSmt S) (w : ℕ) (small : w ≤ 32) where
  open S use {Term, Valuation, bits, width}

  bits-quotient :
      (v : Valuation) (a b : Term)
      → width a ≡ w
      → width b ≡ w
      → 0 < bits v b
      → bits v (udiv a b) ≡ bits v a / bits v b
  bits-quotient v a b e f p =
      bits-udiv L v a b (e ∙ sym f) (small_divisor L v b (rw f small))
      ∙ sym (udiv_value-pos (width a) (bits v a) (bits v b) p)

  -- For terms of one width w of at most 32, a stride that is not 0, and sizes that do not wrap, a pool
  -- has a window for each multiple of the stride at which the kernel ends within the dimension.
  windows_lem :
      (v : Valuation) (d s k : Term) (o : ℕ)
      → width d ≡ w
      → width s ≡ w
      → width k ≡ w
      → 0 < bits v s
      → bits v k ≤ bits v d + bits v s
      → bits v d + bits v s < 2 ^ w
      → (o < bits v (windows d s k)) ↔ (o * bits v s + bits v k ≤ bits v d)
  unfolding windows
  windows_lem v d s k o a b c p q r =
      let wa = width-add L v d s (a ∙ sym b) ∙ a in
      let ws = width-sub L (add d s) k (wa ∙ sym c) ∙ wa in
      let ea : bits v (add d s) ≡ bits v d + bits v s =
        bits-add L v d s (a ∙ sym b) (rw a (omega arith)) ∙ rw a (mod-eq_of_lt r) in
      let es : bits v (sub (add d s) k) ≡ bits v d + bits v s - bits v k =
        bits-sub L v (add d s) k (wa ∙ sym c) (rw wa (omega arith))
        ∙ rw (wa, ea) (no_wrap (bits v d + bits v s) (bits v k) (2 ^ w) q r) in
      let e : bits v (windows d s k) ≡ (bits v d + bits v s - bits v k) / bits v s =
        bits-quotient v (sub (add d s) k) s ws b p ∙ ap (λ (n : ℕ). n / bits v s) es in
      rw e (quotient_lem (bits v d) (bits v s) (bits v k) o p q)

  -- The size that `conv` computes along a dimension of d elements, from terms of one width w of at
  -- most 32, for the stride s, which is not 0, the dilation l and the filter's size f: where l * f is
  -- below 2 ^ w and at most d + s, which is below 2 ^ w, it counts the multiples o * s of the stride
  -- with o * s + l * f at most d.
  pub conv_size_lem :
      (v : Valuation) (d l f s : Term) (o : ℕ)
      → width d ≡ w
      → width l ≡ w
      → width f ≡ w
      → width s ≡ w
      → 0 < bits v s
      → bits v l * bits v f < 2 ^ w
      → bits v l * bits v f ≤ bits v d + bits v s
      → bits v d + bits v s < 2 ^ w
      → (o < bits v (conv_size d l f s)) ↔ (o * bits v s + bits v l * bits v f ≤ bits v d)
  unfolding conv_size
  conv_size_lem v d l f s o a al af b p m q r =
      let k = mul l f in
      let wk = width-mul L l f (al ∙ sym af) ∙ al in
      let ek : bits v k ≡ bits v l * bits v f =
        bits-mul L v l f (al ∙ sym af) (rw al (omega arith)) ∙ rw al (mod-eq_of_lt m) in
      let wd = width-sub L d k (a ∙ sym wk) ∙ a in
      let ws = width-add L v (sub d k) s (wd ∙ sym b) ∙ wd in
      let ed : bits v (sub d k) ≡ (bits v d + 2 ^ w - bits v l * bits v f) % 2 ^ w =
        bits-sub L v d k (a ∙ sym wk) (rw a (omega arith)) ∙ rw (a, ek) refl in
      let es : bits v (add (sub d k) s) ≡ bits v d + bits v s - bits v l * bits v f =
        bits-add L v (sub d k) s (wd ∙ sym b) (rw wd (omega arith))
        ∙ rw (wd, ed) (wrapped_sum (bits v d) (bits v s) (bits v l * bits v f) (2 ^ w) m r q) in
      let e : bits v (conv_size d l f s) ≡ (bits v d + bits v s - bits v l * bits v f) / bits v s =
        bits-quotient v (add (sub d k) s) s ws b p ∙ ap (λ (n : ℕ). n / bits v s) es in
      rw e (quotient_lem (bits v d) (bits v s) (bits v l * bits v f) o p q)
