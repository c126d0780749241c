-- ===== src/Smt/Words.antt =====
-- src/smt.cpp: `operator+`, `operator-`, `operator*`, `getMSB` and `mkAddNoOverflow` without sign.
-- A `uint64_t` wraps at 2 ^ 64 before the constant is cut to the width.
pub mod Wrap
pub mod Sum
pub mod Width
use mlir_tv.Base.{
  ℕ, ◌+◌, ◌-◌, ◌*◌, ◌%◌, ◌^◌, Bool, true, false, ◌&&◌, ◌||◌, Option, none, some, if◌then◌else◌,
  ◌==◌,
}
use mlir_tv.Smt.Terms.{Smt, urem_kind, udiv_kind, mul_kind}
use mlir_tv.Smt.Match.{match_binary_op}
use mlir_tv.Smt.Logic.{negate}
use mlir_tv.Smt.Arith.{mk_bv, extract, zext}
use mlir_tv.Smt.Compare.{equal}

module _ ⦃S : Smt⦄ where
  open S use {Term, width, numeral?, identical, is_true, bvadd, bvsub, bvmul}

  -- `Expr::isZero` and `Expr::isNonZero` at bit-vectors
  unfoldable pub is_zero : Term → Term
  is_zero a = equal a (mk_bv 0 (width a))

  unfoldable pub is_non_zero : Term → Term
  is_non_zero a = negate (is_zero a)

  -- `Mul(UDiv(a, b), b2)` or `Mul(b2, UDiv(a, b))`
  unfoldable pub match_quotient : Term → Option ((Term × Term) × Term)
  match_quotient t = elim (match_binary_op mul_kind t) [
    | none ↦ none
    | some (x, y) ↦ elim (match_binary_op udiv_kind x) [
      | some (a, b) ↦ some ((a, b), y)
      | none ↦ elim (match_binary_op udiv_kind y) [ some (a, b) ↦ some ((a, b), x) | none ↦ none ]
    ]
  ]

  -- ((a / b) * b) + (a % b) -> a
  unfoldable pub whole : Term → Term → Option Term
  unfolding match_quotient
  whole s t = elim (match_quotient s) [
    | none ↦ none
    | some ((a, b), b2) ↦ elim (match_binary_op urem_kind t) [
      | none ↦ none
      | some (a2, b3) ↦
          if identical b b2 && is_true (is_non_zero b) && identical a a2 && identical b b3
          then some a
          else none
    ]
  ]

  unfoldable pub add_terms : Term → Term → Term
  unfolding whole
  add_terms a b = elim (whole a b) [ none ↦ bvadd a b | some t ↦ t ]

  unfoldable pub add : Term → Term → Term
  unfolding add_terms mk_bv
  add a b = elim (numeral? a) [
    | none ↦ elim (numeral? b) [
      | none ↦ add_terms a b
      | some y ↦ if y == 0 then a else add_terms a b
    ]
    | some x ↦ elim (numeral? b) [
      | some y ↦ mk_bv ((x + y) % 2 ^ 64) (width b)
      | none ↦ if x == 0 then b else add_terms a b
    ]
  ]

  unfoldable pub sub : Term → Term → Term
  unfolding mk_bv
  sub a b = elim (numeral? b) [
    | none ↦ bvsub a b
    | some y ↦ elim (numeral? a) [
      | some x ↦ mk_bv ((x + 2 ^ 64 - y) % 2 ^ 64) (width b)
      | none ↦ if y == 0 then a else bvsub a b
    ]
  ]

  unfoldable pub mul : Term → Term → Term
  unfolding mk_bv
  mul a b = elim (numeral? b) [
    | some y ↦ elim (numeral? a) [
      | some x ↦ mk_bv ((x * y) % 2 ^ 64) (width b)
      | none ↦ if y == 1 then a else if y == 0 then b else bvmul a b
    ]
    | none ↦ elim (numeral? a) [
      | some x ↦ if x == 1 then b else if x == 0 then a else bvmul a b
      | none ↦ bvmul a b
    ]
  ]

  -- `Expr::getMSB`
  unfoldable pub get_msb : Term → Term
  get_msb a = extract (width a - 1) (width a - 1) a

  pub add_no_overflow : Term → Term → Term
  add_no_overflow a b = let m = get_msb (add (zext 1 a) (zext 1 b)) in equal m (mk_bv 0 (width m))
