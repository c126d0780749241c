-- ===== src/Smt/Compare.antt =====
-- src/smt.cpp: the comparisons of bit-vectors, which fold constants and compare parts of
-- concatenations. `operator==` and `ult` call themselves on the parts: their fuel falls with each
-- call, a part being narrower than the whole, and at no fuel they build the plain term.
pub mod Shift
pub mod Equal
pub mod Less
pub mod Under
use Prim.Native.Nat.{bit_xor}
use mlir_tv.Base.{
  ℕ, zero, suc, ◌+◌, ◌*◌, ◌/◌, ◌%◌, ◌^◌, Bool, true, false, ◌&&◌, Option, none, some, if◌then◌else◌,
  ltb, leb, ◌==◌,
}
use mlir_tv.Smt.Terms.{Smt, concat_kind, urem_kind}
use mlir_tv.Smt.Match.{match_binary_op}
use mlir_tv.Smt.Logic.{mk_bool}
use mlir_tv.Smt.Arith.{mk_bv}

-- Shifts of a `uint64_t`; from 64 on they are undefined, and the hardware's answer stands here.
unfoldable pub shr : ℕ → ℕ → ℕ
shr c w = c / 2 ^ (w % 64)

unfoldable pub shl : ℕ → ℕ → ℕ
shl x w = x * 2 ^ (w % 64) % 2 ^ 64

module _ ⦃S : Smt⦄ where
  open S use {Term, width, numeral?, identical, bvult, bvule, eq}

  -- What the look at the parts of a concatenation comes to: nothing, an answer, or two other terms
  -- to compare.
  pub data Reduced : Type 0 where
    plain : Reduced
    settled : Bool → Reduced
    parts : Term → Term → Reduced

  unfoldable pub on_numerals : Term → Term → (ℕ → ℕ → Reduced) → Reduced → Reduced
  on_numerals a b f d = elim (numeral? a) [
    | none ↦ d
    | some x ↦ elim (numeral? b) [ none ↦ d | some y ↦ f x y ]
  ]

  unfoldable pub if_same : Reduced → ℕ → ℕ → Reduced
  if_same r x y = if x == y then r else settled false

  -- [lhsh_const, lhsl] == rhs_const
  unfoldable pub split_equal_const : Term → Term → Term → Reduced
  unfolding on_numerals mk_bv shr shl
  split_equal_const h l b =
      let w = width l in
      on_numerals h b
        (λ x c. if shr c w == x then parts l (mk_bv (bit_xor c (shl x w)) w) else settled false)
        plain

  -- The block of `operator==` that looks for concatenations.
  unfoldable pub split_equal : Term → Term → Reduced
  unfolding split_equal_const if_same
  split_equal a b = elim (match_binary_op concat_kind a) [
    | none ↦ plain
    | some (h, l) ↦ elim (match_binary_op concat_kind b) [
      | none ↦ split_equal_const h l b
      | some (h', l') ↦
          if width l == width l'
          then on_numerals l l' (if_same (parts h h'))
              (on_numerals h h' (if_same (parts l l')) (split_equal_const h l b))
          else split_equal_const h l b
    ]
  ]

  -- Both sides are constants.
  unfoldable pub fold_test : (ℕ → ℕ → Bool) → Term → Term → Reduced
  unfolding on_numerals
  fold_test f a b = on_numerals a b (λ x y. settled (f x y)) plain

  unfoldable pub either : Reduced → Reduced → Reduced
  either plain r = r
  either (settled b) r = settled b
  either (parts c d) r = parts c d

  -- `Expr::operator==`
  unfoldable pub equal_at : ℕ → Term → Term → Term
  unfolding mk_bool either fold_test split_equal
  equal_at zero a b = eq a b
  equal_at (suc fuel) a b =
      if identical a b then mk_bool true else elim (either (fold_test ◌==◌ a b) (split_equal a b)) [
        | plain ↦ eq a b
        | settled t ↦ mk_bool t
        | parts c d ↦ equal_at fuel c d
      ]

  unfoldable pub equal : Term → Term → Term
  unfolding equal_at
  equal a b = equal_at (suc (width a)) a b

  -- (bvurem _, d) < d -> true
  unfoldable pub below_divisor : Term → Term → Reduced
  below_divisor a b = elim (match_binary_op urem_kind a) [
    | none ↦ plain
    | some (n, d) ↦ on_numerals d b (λ x y. if leb x y then settled true else plain) plain
  ]

  unfoldable pub split_ult_left : Term → Term → Reduced
  unfolding shr shl mk_bv
  split_ult_left a b = elim (match_binary_op concat_kind a) [
    | none ↦ plain
    | some (h, l) ↦
        let w = width l in
        on_numerals h b
          (λ x c. if shr c w == x then parts l (mk_bv (bit_xor c (shl x w)) w) else plain) plain
  ]

  unfoldable pub split_ult_right : Term → Term → Reduced
  unfolding shr shl mk_bv
  split_ult_right a b = elim (match_binary_op concat_kind b) [
    | none ↦ plain
    | some (h, l) ↦
        let w = width l in
        on_numerals a h
          (λ c x. if shr c w == x then parts (mk_bv (bit_xor c (shl x w)) w) l else plain) plain
  ]

  -- [h, l] < [h, l'] -> l < l'
  unfoldable pub split_ult_both : Term → Term → Reduced
  split_ult_both a b = elim (match_binary_op concat_kind a) [
    | none ↦ plain
    | some (h, l) ↦ elim (match_binary_op concat_kind b) [
      | none ↦ plain
      | some (h', l') ↦ if identical h h' then parts l l' else plain
    ]
  ]

  unfoldable pub split_ult : Term → Term → Reduced
  unfolding either below_divisor split_ult_both split_ult_left split_ult_right
  split_ult a b =
      either (below_divisor a b)
        (either (split_ult_both a b) (either (split_ult_left a b) (split_ult_right a b)))

  unfoldable pub ult_at : ℕ → Term → Term → Term
  unfolding mk_bool either fold_test split_ult
  ult_at zero a b = bvult a b
  ult_at (suc fuel) a b = elim (either (fold_test ltb a b) (split_ult a b)) [
    | plain ↦ bvult a b
    | settled t ↦ mk_bool t
    | parts c d ↦ ult_at fuel c d
  ]

  unfoldable pub ult : Term → Term → Term
  unfolding ult_at
  ult a b = ult_at (suc (width a)) a b

  unfoldable pub ule : Term → Term → Term
  unfolding mk_bool
  ule a b = elim (numeral? a) [
    | none ↦ bvule a b
    | some x ↦ elim (numeral? b) [
      | some y ↦ mk_bool (leb x y)
      | none ↦ if x == 0 then mk_bool true else bvule a b
    ]
  ]
