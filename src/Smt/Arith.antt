-- ===== src/Smt/Arith.antt =====
-- src/smt.cpp: the bit-vector operations of `Expr`, which fold constants and simplify before they
-- build a term; `log2_ceil` of src/utils.h. A `uint64_t` is a number below 2 ^ 64.
pub mod Log
pub mod Slice
pub mod Divide
pub mod Flattened
use Prim.Native.Nat.{bit_and, bit_xor}
use mlir_tv.Base.{
  ℕ, zero, suc, ◌+◌, ◌-◌, ◌*◌, ◌/◌, ◌%◌, ◌^◌, Bool, true, false, ◌&&◌, ◌||◌, not, Option, none,
  some, if◌then◌else◌, ltb, leb, ◌==◌,
}
use mlir_tv.Smt.Terms.{Smt, concat_kind, urem_kind, udiv_kind, mul_kind}
use mlir_tv.Smt.Match.{match_binary_op, match_zero_ext}
use mlir_tv.Smt.Logic.{mk_bool, negate}

-- `(uint64_t)(1 << bits)`, a shift of an `int`: at 31 it is INT_MIN, sign-extended. From 32 on the
-- shift is undefined; the hardware's answer stands here, and is never used at a power of two.
unfoldable pub int_one_shl : ℕ → ℕ
int_one_shl bits = if bits % 32 == 31 then 2 ^ 64 - 2 ^ 31 else 2 ^ (bits % 32)

-- `while (bits < 64 && count > (1 << bits)) bits += 1`, by the rounds that `bits < 64` leaves.
unfoldable pub log2_loop : ℕ → ℕ → ℕ → ℕ
unfolding int_one_shl
log2_loop zero count bits = bits
log2_loop (suc left) count bits =
    let rest = log2_loop left count (bits + 1) in
    if ltb (int_one_shl bits) count then rest else bits

unfoldable pub log2_ceil : ℕ → ℕ
unfolding log2_loop
log2_ceil count = log2_loop 64 count 0

-- `rhsval > 0 && (rhsval & (rhsval - 1)) == 0`
unfoldable pub is_pow2 : ℕ → Bool
is_pow2 n = ltb 0 n && bit_and n (n - 1) == 0

module _ ⦃S : Smt⦄ where
  open S use {
    Term, width, numeral?, identical, is_true, bv_val, bvadd, bvsub, bvmul, bvurem, bvudiv,
    bvconcat, bvextract, bvzext, bvult, bvule, eq,
  }

  -- `Expr::mkBV`
  unfoldable pub mk_bv : ℕ → ℕ → Term
  mk_bv n w = bv_val n w

  -- `Expr::concat`
  unfoldable pub concat : Term → Term → Term
  concat a b = bvconcat a b

  -- `u & ((1ull << (hbit + 1)) - 1)`, left out at bit 63.
  unfoldable pub mask_to : ℕ → ℕ → ℕ
  mask_to h u = if h == 63 then u else bit_and u (2 ^ (h + 1) - 1)

  unfoldable pub extract_concat : ℕ → ℕ → Term → Option Term
  extract_concat h l t = elim (match_binary_op concat_kind t) [
    | none ↦ elim (match_zero_ext t) [
      | none ↦ none
      | some a ↦ if l == 0 && h + 1 == width a then some a else none
    ]
    | some (a, b) ↦
        if l == 0 && h + 1 == width b
        then some b
        else if l == width b && h + 1 == width t
        then some a
        else none
  ]

  unfoldable pub extract : ℕ → ℕ → Term → Term
  unfolding mk_bv mask_to extract_concat
  extract h l t =
      let plain : Term = elim (extract_concat h l t) [ none ↦ bvextract h l t | some a ↦ a ] in
      elim (numeral? t) [
        | none ↦ plain
        | some u ↦ if ltb h 64 then mk_bv (mask_to h (u / 2 ^ l)) (h - l + 1) else plain
      ]

  unfoldable pub zext : ℕ → Term → Term
  unfolding mk_bv
  zext k t = elim (numeral? t) [ none ↦ bvzext k t | some u ↦ mk_bv u (width t + k) ]

  -- Both sides are constants and the divisor is not zero; or else the plain term.
  unfoldable pub fold_div : (ℕ → ℕ → ℕ) → (Term → Term → Term) → Term → Term → Term
  unfolding mk_bv
  fold_div f plain a b = elim (numeral? a) [
    | none ↦ plain a b
    | some x ↦ elim (numeral? b) [
      | none ↦ plain a b
      | some y ↦ if y == 0 then plain a b else mk_bv (f x y) (width b)
    ]
  ]

  unfoldable pub urem : Term → Term → Term
  urem a b =
      let folded = fold_div ◌%◌ bvurem a b in
      elim (numeral? b) [
        | none ↦ folded
        | some n ↦
            if n == 1
            then mk_bv 0 (width b)
            else if is_pow2 n
            then concat (mk_bv 0 (width a - log2_ceil n)) (extract (log2_ceil n - 1) 0 a)
            else folded
      ]

  unfoldable pub udiv : Term → Term → Term
  udiv a b =
      let folded = fold_div ◌/◌ bvudiv a b in
      elim (numeral? b) [
        | none ↦ folded
        | some n ↦
            if n == 1
            then a
            else if is_pow2 n
            then concat (mk_bv 0 (log2_ceil n)) (extract (width a - 1) (log2_ceil n) a)
            else folded
      ]
