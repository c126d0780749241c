-- ===== src/Floats/Constants.antt =====
-- src/abstractops.cpp: `AbsFpEncoding::addConstants`, which gives the constants of the programs terms in
-- increasing order. The variables of the solver, and what LLVM's `APFloat` says of a constant and of its
-- cast (`getCastingInfo`), are parameters. `none` is a failed assertion, or a shift of an `int` by 31 or
-- more.
pub mod Sorts
pub mod Overflow
use mlir_tv.Base.{
  ℕ, ◌+◌, ◌-◌, ◌^◌, Bool, true, false, ◌&&◌, ◌||◌, not, Option, none, some, List, [], ◌∷◌, ◌++◌,
  ltb, ◌==◌, if◌then◌else◌, ◌>>=◌, ◌>>◌, guard,
}
use mlir_tv.Smt.Terms.{Smt}
use mlir_tv.Smt.Arith.{mk_bv, concat}
use mlir_tv.Smt.Compare.{equal, ule}
use mlir_tv.Smt.Logic.{mk_ite}
use mlir_tv.Floats.{
  Fpa, FpEncoding, Constant, nan_const, inf_const, zero_const, largest_const, number_const,
  value_bitwidth,
}

-- `FPCastingInfo`
pub record FpCastingInfo : Type 0 where
  pub zero_limit_bits : Bool
  pub zero_prec_bits : Bool
  pub is_rounded_upward : Bool

-- The variables of the loop: the number of the smaller values, the next precision bits of those that
-- have some, and how many fresh variables were made.
pub record AddProgress : Type 0 where
  pub value_id : ℕ
  pub prec_offset_map : List (ℕ × ℕ)
  pub fresh_count : ℕ

-- `prec_offset_map.insert({id, 1}).first->second`
unfoldable pub next_prec : ℕ → List (ℕ × ℕ) → ℕ
next_prec id [] = 1
next_prec id ((k, n) ∷ rest) = let later = next_prec id rest in if k == id then n else later

module _ ⦃S : Smt⦄ where
  open S use {Term, width}

  -- `mkVar(sort, "fp_const_sval_" + id)` and `"fp_const_dval_"`, `mkFreshVar(sort, ...)`, the sign of a number and the
  -- number with the other sign, and `getCastingInfo`.
  pub record ConstSource ⦃P : Fpa⦄ : Type 0 where
    pub mk_var : ℕ → ℕ → Term
    pub mk_dval_var : ℕ → ℕ → Term
    pub mk_fresh_var : ℕ → ℕ → Term
    pub is_negative : P.Number → Bool
    pub negated : P.Number → P.Number
    pub get_casting_info : P.Number → FpCastingInfo

  unfoldable pub mk_nonzero : Term → Term
  unfolding mk_bv
  mk_nonzero e = mk_ite (equal e (mk_bv 0 (width e))) (mk_bv 1 (width e)) e

  module _ ⦃P : Fpa⦄ ⦃Q : ConstSource⦄ where
    open P use {Number}
    open Q use {mk_var, mk_dval_var, mk_fresh_var, is_negative, negated, get_casting_info}

    -- A number whose cast to a float is infinite.
    unfoldable pub large_value : FpEncoding → AddProgress → Option (Term × AddProgress)
    unfolding mk_nonzero mk_bv concat
    large_value E st =
        let sv_prec_bitwidth = E.truncated_bitwidth + E.prec_bitwidth in
        let sv_prec_bits = mk_fresh_var sv_prec_bitwidth st.fresh_count in
        let limit_var = mk_fresh_var E.limit_bitwidth (st.fresh_count + 1) in
        let inf_sv_value = 2 ^ sv_prec_bitwidth - 2 ^ E.prec_bitwidth in
        let limit_bits =
          mk_ite (ule (mk_bv inf_sv_value sv_prec_bitwidth) sv_prec_bits) limit_var
            (mk_nonzero limit_var) in
        if ltb sv_prec_bitwidth 31
        then some (
          concat limit_bits sv_prec_bits,
          record st { value_id = st.value_id + 1; fresh_count = st.fresh_count + 2 },
        )
        else none

    -- A number that the cast rounds: the smaller value of the number before, and other precision bits.
    unfoldable pub rounded_value : FpEncoding → AddProgress → Option (Term × AddProgress)
    unfolding mk_nonzero mk_bv concat next_prec
    rounded_value E st =
        let prec = next_prec st.value_id st.prec_offset_map in
        let prec_bits = mk_nonzero (mk_fresh_var E.prec_bitwidth st.fresh_count) in
        let sv_bits = mk_var E.truncated_bitwidth st.value_id in
        if ltb prec (2 ^ E.prec_bitwidth)
        then some (
          concat (concat (mk_bv 0 E.limit_bitwidth) sv_bits) prec_bits,
          record st {
            prec_offset_map = (st.value_id, prec + 1) ∷ st.prec_offset_map;
            fresh_count = st.fresh_count + 1;
          },
        )
        else none

    -- A number that the cast keeps.
    unfoldable pub exact_value : FpEncoding → AddProgress → Term × AddProgress
    unfolding mk_bv concat
    exact_value E st =
        let id = st.value_id + 1 in
        let value = concat (mk_bv 0 E.limit_bitwidth) (mk_var E.truncated_bitwidth id) in
        (
          if ltb 0 E.prec_bitwidth then concat value (mk_bv 0 E.prec_bitwidth) else value,
          record st { value_id = id },
        )

    -- The variable of a number that no cast relates to another.
    unfoldable pub plain_value : FpEncoding → ℕ → Term
    unfolding value_bitwidth
    plain_value E id =
        if E.is_double then mk_dval_var (value_bitwidth E) id else mk_var (value_bitwidth E) id

    -- The magnitude of a number.
    unfoldable pub magnitude_of : FpEncoding → AddProgress → Number → Option (Term × AddProgress)
    unfolding plain_value large_value rounded_value exact_value
    magnitude_of E st f =
        let info = get_casting_info f in
        let id = st.value_id + 1 in
        if E.limit_bitwidth == 0 && E.prec_bitwidth == 0
        then some (plain_value E id, record st { value_id = id })
        else if E.limit_bitwidth == 0
        then none
        else if not info.zero_limit_bits
        then large_value E st
        else if not info.zero_prec_bits
        then rounded_value E st
        else some (exact_value E st)

    -- A number and the same with the other sign, behind the constants that have a term.
    unfoldable pub add_number :
        FpEncoding → AddProgress → Number → Option (FpEncoding × AddProgress)
    unfolding magnitude_of mk_bv concat
    add_number E st f = do
      guard (not (is_negative f))
      (e, after) ← magnitude_of E st f
      some (
        record E {
          absrepr =
              E.absrepr ++ ((f, concat (mk_bv 0 1) e) ∷ (negated f, concat (mk_bv 1 1) e) ∷ []);
        },
        after,
      )

    -- The loop. NaN and the infinities are never in the set, as the comment in `setAbstraction` says.
    unfoldable pub add_from : FpEncoding → AddProgress → List Constant → Option FpEncoding
    unfolding add_number
    add_from E st [] = some E
    add_from E st (number_const f ∷ rest) = do
      (next, after) ← add_number E st f
      add_from next after rest
    add_from E st (zero_const negative ∷ rest) = if negative then none else add_from E st rest
    add_from E st (largest_const negative ∷ rest) = if negative then none else add_from E st rest
    add_from E st (inf_const negative ∷ rest) = none
    add_from E st (nan_const ∷ rest) = none

    unfoldable pub add_constants : FpEncoding → List Constant → Option FpEncoding
    unfolding add_from
    add_constants E consts =
        add_from E (record { value_id = 0; prec_offset_map = []; fresh_count = 0 }) consts
