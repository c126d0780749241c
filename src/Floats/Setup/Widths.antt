-- ===== src/Floats/Setup/Widths.antt =====
-- The bits of the encodings that `setAbstraction` of src/abstractops.cpp makes.
use Prim.Native.Nat.{min}
use mathlib.Core.Path.{subst}
use mlir_tv.Base.{
  ℕ, zero, suc, ◌+◌, ◌-◌, ◌^◌, ◌≤◌, ◌<◌, ◌≡◌, Bool, true, false, not, Option, none, some, List, [],
  ltb, ◌==◌, if◌then◌else◌, refl, ◌∙◌, arith, inl, inr, Bool-cases, OnSome, ==_iff, on_some,
  on_then, guard, ◌>>◌, length, map,
}
use mlir_tv.Smt.Terms.{Smt, IsSmt}
use mlir_tv.Smt.Arith.{int_one_shl, log2_loop, log2_ceil}
use mlir_tv.Floats.{Fpa, FpEncoding, Constant, value_bitwidth}
use mlir_tv.Floats.Bits.{IsAbstract}
use mlir_tv.Floats.Constants.{ConstSource, FpCastingInfo, add_constants}
use mlir_tv.Floats.Constants.Sorts.{MakesSorts, add_constants-keeps}
use mlir_tv.Validate.Loop.{Abstraction, is_fully_abs_cast, can_set_abstraction}
use mlir_tv.Floats.Setup.{
  CastCounts, count_constants, float_bits, min_prec_bitwidth, min_limit_bitwidth, double_prec_bits,
  double_limit_bits, double_bits, FpCounts, Encodings, failed, unused, encoded, emplace_reserved,
  new_encoding, float_encoding, double_encoding, is_unused, encodings_of, set_up, set_abstraction,
}

-- `log2_ceil` stops at 31, where the shifted `int` is negative.
log2_loop-le :
    (left n bits : ℕ) → n ≤ 2 ^ 63 → bits ≤ 31 → 32 ≤ left + bits → log2_loop left n bits ≤ 31
unfolding log2_loop int_one_shl
log2_loop-le zero n bits h b k = absurd (omega arith)
log2_loop-le (suc left) n bits h b k = elim (Bool-cases (bits == 31)) [
  | inl e ↦
      let big : ltb (int_one_shl bits) n ≡ false = ground (arith, h, (==_iff _ _).0 e) in rw big b
  | inr e ↦
      let small : bits < 31 = ground (arith, b, e) in
      let rest = log2_loop-le left n (bits + 1) h (omega arith) (omega arith) in
      ground (arith, b, rest)
]

log2_loop-ge : (left n bits : ℕ) → bits ≤ log2_loop left n bits
unfolding log2_loop
log2_loop-ge zero n bits = omega arith
log2_loop-ge (suc left) n bits = ground (arith, log2_loop-ge left n (bits + 1))

log2_ceil-le : (n : ℕ) → n ≤ 2 ^ 63 → log2_ceil n ≤ 31
unfolding log2_ceil
log2_ceil-le n h = log2_loop-le 64 n 0 h (omega arith) (omega arith)

log2_loop-suc :
    (left n bits : ℕ)
    → ltb (int_one_shl bits) n ≡ true
    → log2_loop (suc left) n bits ≡ log2_loop left n (bits + 1)
unfolding log2_loop
log2_loop-suc left n bits h = rw h refl

log2_ceil-ge : (n : ℕ) → 3 ≤ n → 2 ≤ log2_ceil n
unfolding log2_ceil int_one_shl
log2_ceil-ge n h =
    let e : log2_loop 64 n 0 ≡ log2_loop 62 n 2 =
      log2_loop-suc 63 n 0 (ground (arith, h)) ∙ log2_loop-suc 62 n 1 (ground (arith, h)) in
    rw e (log2_loop-ge 62 n 2)

float_bits-bounds :
    (nonconsts consts : ℕ)
    → 0 < consts
    → (2 ≤ float_bits nonconsts consts) × (float_bits nonconsts consts ≤ 31)
unfolding float_bits
float_bits-bounds nonconsts consts h =
    let g = log2_ceil-ge (nonconsts + consts + 2) (omega arith) in (ground arith, ground arith)

prec-bounds :
    (nonconsts : ℕ) (c : CastCounts)
    → (0 < double_prec_bits nonconsts c) × (double_prec_bits nonconsts c ≤ 29)
unfolding double_prec_bits min_prec_bitwidth
prec-bounds nonconsts c = (ground arith, ground arith)

min-bounds : (a b : ℕ) → 0 < a → 0 < b → (0 < min a b) × (min a b ≤ b)
min-bounds a b p q = (ground arith, ground arith)

min_limit-pos : (bits nonconsts : ℕ) (c : CastCounts) → 0 < min_limit_bitwidth bits nonconsts c
unfolding min_limit_bitwidth
min_limit-pos bits nonconsts c = ground arith

limit-bounds :
    (bits nonconsts : ℕ) (c : CastCounts)
    → (0 < double_limit_bits bits nonconsts c)
      × (double_limit_bits bits nonconsts c + double_prec_bits nonconsts c ≤ 32)
unfolding double_limit_bits
limit-bounds bits nonconsts c =
    let (p, q) = prec-bounds nonconsts c in
    let (r, s) =
      min-bounds (min_limit_bitwidth bits nonconsts c) (32 - double_prec_bits nonconsts c)
        (min_limit-pos bits nonconsts c) (omega arith) in
    (r, omega arith)

double_bits-bounds :
    (bits nonconsts consts : ℕ)
    → bits ≤ 31
    → nonconsts + consts + 2 ≤ 2 ^ 63
    → (bits ≤ double_bits bits nonconsts consts) × (double_bits bits nonconsts consts ≤ 31)
unfolding double_bits
double_bits-bounds bits nonconsts consts b h =
    let g = log2_ceil-le (nonconsts + consts + 2) h in (ground arith, ground arith)

on_self : {A : Type 0} (m : Option A) → OnSome (λ a. m ≡ some a) m
on_self none = tt
on_self (some a) = refl

on_guard :
    {A : Type 0} (P : A → Type 0) (t : Bool) (m : Option A)
    → (t ≡ true → OnSome P m)
    → OnSome P (guard t >> m)
on_guard P true m h = h refl
on_guard P false m h = tt

positive : (n : ℕ) → ltb 0 n ≡ true → 0 < n
positive n h = ground (arith, h)

module _ ⦃S : Smt⦄ (L : IsSmt S) (v : S.Valuation) where
  -- The two encodings are fit for the operations and the casts between them.
  pub record AreFit ⦃P : Fpa⦄ (precise_casts : Bool) (e : Encodings) : Type 0 where
    pub float_fit : IsAbstract L v e.float_enc
    pub double_fit : IsAbstract L v e.double_enc
    pub wider :
        value_bitwidth e.float_enc + (if precise_casts then 2 else 0) ≤ value_bitwidth e.double_enc

  module _ ⦃P : Fpa⦄ ⦃Q : ConstSource⦄ (M : MakesSorts L v Q)
      (emplace : Constant → List Constant → List Constant) (casting_of : Constant → FpCastingInfo)
      (emplace-nonempty : (c : Constant) (cs : List Constant) → 0 < length (emplace c cs)) where
    kept-IsAbstract :
        (E after : FpEncoding) (consts : List Constant)
        → IsAbstract L v E
        → 0 < E.truncated_bitwidth
        → E.absrepr ≡ []
        → add_constants E consts ≡ some after
        → IsAbstract L v after × (value_bitwidth after ≡ value_bitwidth E)
    unfolding value_bitwidth
    kept-IsAbstract E after consts A t z h =
        subst (λ x. IsAbstract L v x × (value_bitwidth x ≡ value_bitwidth E))
          (add_constants-keeps L v M E after consts t z h)
          (record { abstract = A.abstract; enough = A.enough; small = A.small }, refl)

    float-IsAbstract :
        (floats : FpCounts)
        → IsAbstract L v (float_encoding emplace casting_of false floats)
          × (value_bitwidth (float_encoding emplace casting_of false floats) ≤ 31)
    unfolding float_encoding new_encoding value_bitwidth emplace_reserved
    float-IsAbstract floats =
        let (p, q) =
          float_bits-bounds floats.nonconsts
            (length (emplace_reserved emplace casting_of floats.consts)) (emplace-nonempty _ _) in
        (
          record { abstract = refl; enough = omega (arith, p); small = omega (arith, q) },
          omega (arith, q),
        )

    double-IsAbstract :
        (precise_casts : Bool) (bits : ℕ) (doubles : FpCounts)
        → 2 ≤ bits
        → bits ≤ 31
        → doubles.nonconsts + length (emplace_reserved emplace casting_of doubles.consts) + 2
          ≤ 2 ^ 63
        → IsAbstract L v (double_encoding emplace casting_of precise_casts false bits doubles)
          × (bits + (if precise_casts then 2 else 0)
              ≤ value_bitwidth
                  (double_encoding emplace casting_of precise_casts false bits doubles))
    unfolding double_encoding new_encoding value_bitwidth
    double-IsAbstract true bits doubles a b h =
        let c =
          count_constants (map casting_of (emplace_reserved emplace casting_of doubles.consts)) in
        let (p, q) = prec-bounds doubles.nonconsts c in
        let (r, s) = limit-bounds bits doubles.nonconsts c in
        (record { abstract = refl; enough = omega arith; small = omega arith }, omega arith)
    double-IsAbstract false bits doubles a b h =
        let (p, q) =
          double_bits-bounds bits doubles.nonconsts
            (length (emplace_reserved emplace casting_of doubles.consts)) b h in
        (record { abstract = refl; enough = omega arith; small = omega arith }, omega arith)

    double-absrepr :
        (p : Bool) (bits : ℕ) (doubles : FpCounts)
        → (double_encoding emplace casting_of p false bits doubles).absrepr ≡ []
    unfolding double_encoding new_encoding
    double-absrepr true bits doubles = refl
    double-absrepr false bits doubles = refl

    set_up-encoded :
        (able none_used : Bool) (m : Option Encodings) (e : Encodings)
        → (if not able then failed else if none_used then unused else set_up emplace casting_of m)
          ≡ encoded e
        → m ≡ some e
    unfolding set_up
    set_up-encoded false u m e h = absurd (cc h)
    set_up-encoded true true m e h = absurd (cc h)
    set_up-encoded true false none e h = absurd (cc h)
    set_up-encoded true false (some d) e h = cc h

    encodings_of-AreFit :
        (precise_casts : Bool) (floats doubles : FpCounts)
        → doubles.nonconsts + length (emplace_reserved emplace casting_of doubles.consts) + 2
          ≤ 2 ^ 63
        → OnSome
            (AreFit precise_casts)
            (encodings_of emplace casting_of precise_casts false floats doubles)
    unfolding encodings_of
    encodings_of-AreFit p floats doubles h =
        let float_empty = float_encoding emplace casting_of false floats in
        let (A, small) = float-IsAbstract floats in
        on_guard (AreFit p) _ _ (λ g.
          on_then _ (AreFit p)
            (add_constants float_empty (emplace_reserved emplace casting_of floats.consts)) _
            (on_self _)
            (λ f e.
              let (F, same) = kept-IsAbstract float_empty f _ A (positive _ g) refl e in
              let double_empty =
                double_encoding emplace casting_of p false (value_bitwidth f) doubles in
              let (B, wide) =
                double-IsAbstract p (value_bitwidth f) doubles F.enough (omega (arith, same, small))
                  h in
              on_guard (AreFit p) _ _ (λ k.
                on_then _ (AreFit p)
                  (add_constants double_empty (emplace_reserved emplace casting_of doubles.consts))
                  _ (on_self _)
                  (λ d j.
                    let (D, again) =
                      kept-IsAbstract double_empty d _ B (positive _ k)
                        (double-absrepr p (value_bitwidth f) doubles) j in
                    record { float_fit = F; double_fit = D; wider = rw again wide }))))

    -- Where `setAbstraction` without concrete numbers makes encodings, if a set is not empty after
    -- an `emplace`, variables of one bit or more have the sort that they are made with, and the
    -- doubles that are no constants, the constants of the set and 2 more are at most 2 ^ 63, both
    -- encodings are abstract ones with magnitudes of 2 to 63 bits, and doubles have at least the
    -- magnitude bits of floats; with precise casts they have 2 bits more.
    pub set_abstraction-AreFit :
        (abs : Abstraction) (assoc : Bool) (floats doubles : FpCounts) (e : Encodings)
        → doubles.nonconsts + length (emplace_reserved emplace casting_of doubles.consts) + 2
          ≤ 2 ^ 63
        → set_abstraction emplace casting_of abs assoc false floats doubles ≡ encoded e
        → AreFit (not (is_fully_abs_cast abs.fp_cast)) e
    unfolding set_abstraction set_up
    set_abstraction-AreFit abs assoc floats doubles e h k =
        let p = not (is_fully_abs_cast abs.fp_cast) in
        let m = encodings_of emplace casting_of p false floats doubles in
        on_some (AreFit p) m e (encodings_of-AreFit p floats doubles h) (
          set_up-encoded (can_set_abstraction assoc abs)
            (is_unused emplace casting_of floats doubles) m e k)
