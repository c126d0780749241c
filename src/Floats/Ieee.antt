-- ===== src/Floats/Ieee.antt =====
-- The special cases of IEEE 754's sum that src/abstractops.cpp encodes: NaN, the infinities, -0.0 and
-- the sign. The magnitude is left open elsewhere, also for a sum with 0.0, which the standard fixes.
use native.Mathlib.Nat.{mod-eq_of_lt, div-eq_of_lt}
use mlir_tv.Base.{
  ℕ, ◌+◌, ◌-◌, ◌*◌, ◌/◌, ◌%◌, ◌≤◌, ◌<◌, ◌≡◌, Bool, true, false, ◌&&◌, not, refl, sym, ap, ◌∙◌,
  arith, ltb, ◌==◌, if◌then◌else◌, inl, inr, Bool-cases, ==_iff,
}
use mlir_tv.Base.Pow.{split-mod, split-div}

-- A number: NaN, an infinity, or a finite number by its sign and the rank of its magnitude.
pub data Float : Type 0 where
  not_a_number : Float
  infinite : Bool → Float
  finite : Bool → ℕ → Float

-- The sign bit above magnitudes below `p`.
unfoldable pub sign_value : ℕ → Bool → ℕ
sign_value p s = if s then p else 0

-- A number that is no NaN, by its sign and its magnitude.
unfoldable pub signed : ℕ → Bool → ℕ → Float
signed p s m = if m == p - 2 then infinite s else finite s m

-- The number that the bits stand for.
unfoldable pub decode : ℕ → ℕ → Float
unfolding signed
decode p n = if n % p == p - 1 then not_a_number else signed p (n / p == 1) (n % p)

unfoldable pub encode : ℕ → Float → ℕ
unfolding sign_value
encode p not_a_number = p - 1
encode p (infinite s) = sign_value p s + (p - 2)
encode p (finite s m) = sign_value p s + m

-- The magnitude of a finite number is below the reserved ones.
unfoldable pub IsFloat : ℕ → Float → Type 0
IsFloat p not_a_number = Unit
IsFloat p (infinite s) = Unit
IsFloat p (finite s m) = m < p - 2

unfoldable pub same_sign : Bool → Bool → Bool
same_sign true t = t
same_sign false t = not t

unfoldable pub negative_zero : Bool → ℕ → Bool
negative_zero s m = s && m == 0

-- The sum, by the magnitude `r` where these special cases leave it open.
unfoldable pub ieee_add : ℕ → ℕ → Float → Float → Float
unfolding signed same_sign negative_zero
ieee_add p r not_a_number y = not_a_number
ieee_add p r (infinite s) not_a_number = not_a_number
ieee_add p r (infinite s) (infinite t) = if same_sign s t then infinite s else not_a_number
ieee_add p r (infinite s) (finite t n) = infinite s
ieee_add p r (finite s m) not_a_number = not_a_number
ieee_add p r (finite s m) (infinite t) = infinite t
ieee_add p r (finite s m) (finite t n) =
    if negative_zero s m
    then finite t n
    else if negative_zero t n
    then finite s m
    else if same_sign s t
    then signed p s r
    else if m == n
    then finite false 0
    else if ltb n m
    then signed p s r
    else signed p t r

-- The parts of a number that is written by its sign and its magnitude.
pub parts-encode :
    (p : ℕ) (s : Bool) (m : ℕ)
    → m < p
    → ((sign_value p s + m) % p ≡ m) × ((sign_value p s + m) / p ≡ (if s then 1 else 0))
unfolding sign_value
parts-encode p true m h =
    let e : p + m ≡ 1 * p + m = omega arith in
    (ap (λ (n : ℕ). n % p) e ∙ split-mod 1 p m h, ap (λ (n : ℕ). n / p) e ∙ split-div 1 p m h)
parts-encode p false m h =
    let e : 0 + m ≡ m = omega arith in
    (ap (λ (n : ℕ). n % p) e ∙ mod-eq_of_lt h, ap (λ (n : ℕ). n / p) e ∙ div-eq_of_lt h)

one-sign : (s : Bool) → ((if s then 1 else 0) == 1) ≡ s
one-sign true = refl
one-sign false = refl

pub decode-signed :
    (p : ℕ) (s : Bool) (m : ℕ) → m < p - 1 → decode p (sign_value p s + m) ≡ signed p s m
unfolding decode
decode-signed p s m h =
    let (e, f) = parts-encode p s m (omega (arith, h)) in
    let g : (m == p - 1) ≡ false = ground (arith, h) in rw (decode, e, f, g, one-sign s) refl

decode-nan : (p : ℕ) (s : Bool) → 0 < p → decode p (sign_value p s + (p - 1)) ≡ not_a_number
unfolding decode
decode-nan p s h =
    let (e, f) = parts-encode p s (p - 1) (omega (arith, h)) in
    rw (decode, e, (==_iff (p - 1) (p - 1)).1 refl) refl

signed-finite : (p : ℕ) (s : Bool) (m : ℕ) → m < p - 2 → signed p s m ≡ finite s m
unfolding signed
signed-finite p s m h = ground (arith, h)

signed-infinite : (p : ℕ) (s : Bool) → signed p s (p - 2) ≡ infinite s
unfolding signed
signed-infinite p s = rw (signed, (==_iff (p - 2) (p - 2)).1 refl) refl

pub decode-encode : (p : ℕ) (x : Float) → 4 ≤ p → IsFloat p x → decode p (encode p x) ≡ x
unfolding encode IsFloat sign_value
decode-encode p not_a_number h k =
    let e : p - 1 ≡ 0 + (p - 1) = omega arith in
    ap (decode p) e ∙ decode-nan p false (omega (arith, h))
decode-encode p (infinite s) h k =
    decode-signed p s (p - 2) (omega (arith, h)) ∙ signed-infinite p s
decode-encode p (finite s m) h k = decode-signed p s m (omega (arith, k)) ∙ signed-finite p s m k

-- The sign and the magnitude of bits.
pub split_sign : (p n : ℕ) → n < p + p → (s : Bool) × (m : ℕ) × (n ≡ sign_value p s + m) × (m < p)
unfolding sign_value
split_sign p n h = elim (Bool-cases (ltb n p)) [
  | inl e ↦ (false, n, omega arith, ground (arith, e))
  | inr e ↦
      let k : p ≤ n = ground (arith, e) in (true, n - p, omega (arith, k), omega (arith, k, h))
]

-- Bits that are no NaN, or the one NaN, are those of a number.
pub encode-decode :
    (p n : ℕ)
    → 4 ≤ p
    → n < p + p
    → (n % p ≡ p - 1 → n ≡ p - 1)
    → (encode p (decode p n) ≡ n) × IsFloat p (decode p n)
unfolding encode IsFloat
encode-decode p n h k c =
    let (s, m, e, lt) = split_sign p n k in
    let f : n % p ≡ m = ap (λ (j : ℕ). j % p) e ∙ (parts-encode p s m lt).0 in
    elim (Bool-cases (m == p - 1)) [
      | inl g ↦
          let mp : m ≡ p - 1 = (==_iff _ _).0 g in
          let d : decode p n ≡ not_a_number =
            ap (decode p) e
            ∙ ap (λ (j : ℕ). decode p (sign_value p s + j)) mp
            ∙ decode-nan p s (omega (arith, h)) in
          rw d (sym (c (f ∙ mp)), tt)
      | inr g ↦
          let below : m < p - 1 = ground (arith, g, lt) in
          let d : decode p n ≡ signed p s m = ap (decode p) e ∙ decode-signed p s m below in
          elim (Bool-cases (m == p - 2)) [
            | inl i ↦
                let mp : m ≡ p - 2 = (==_iff _ _).0 i in
                rw (d ∙ ap (signed p s) mp ∙ signed-infinite p s)
                  (ap (λ (j : ℕ). sign_value p s + j) (sym mp) ∙ sym e, tt)
            | inr i ↦
                let fin : m < p - 2 = ground (arith, i, below) in
                rw (d ∙ signed-finite p s m fin) (sym e, fin)
          ]
    ]

-- A NaN in its one form stands for the same number.
pub canonical_number :
    (p n : ℕ)
    → 4 ≤ p
    → n < p + p
    → (decode p (if n % p == p - 1 then p - 1 else n) ≡ decode p n)
      × (encode p (decode p n) ≡ (if n % p == p - 1 then p - 1 else n))
      × IsFloat p (decode p n)
unfolding encode IsFloat decode
canonical_number p n h k = elim (Bool-cases (n % p == p - 1)) [
  | inl e ↦
      let d : decode p n ≡ not_a_number = rw (decode, e) refl in
      rw (d, e) (decode-encode p not_a_number h tt, refl, tt)
  | inr e ↦
      let (f, g) = encode-decode p n h k (λ c. absurd (ground (arith, e, c))) in
      let m : (if n % p == p - 1 then p - 1 else n) ≡ n = rw e refl in
      (ap (decode p) m, f ∙ sym m, g)
]

-- The order of the summands does not matter.
pub ieee_add_comm : (p r : ℕ) (x y : Float) → ieee_add p r x y ≡ ieee_add p r y x
unfolding ieee_add same_sign negative_zero
ieee_add_comm p r not_a_number not_a_number = refl
ieee_add_comm p r not_a_number (infinite t) = refl
ieee_add_comm p r not_a_number (finite t n) = refl
ieee_add_comm p r (infinite s) not_a_number = refl
ieee_add_comm p r (infinite true) (infinite true) = refl
ieee_add_comm p r (infinite true) (infinite false) = refl
ieee_add_comm p r (infinite false) (infinite true) = refl
ieee_add_comm p r (infinite false) (infinite false) = refl
ieee_add_comm p r (infinite s) (finite t n) = refl
ieee_add_comm p r (finite s m) not_a_number = refl
ieee_add_comm p r (finite s m) (infinite t) = refl
ieee_add_comm p r (finite true m) (finite true n) = ground arith
ieee_add_comm p r (finite true m) (finite false n) = ground arith
ieee_add_comm p r (finite false m) (finite true n) = ground arith
ieee_add_comm p r (finite false m) (finite false n) = ground arith
