-- ===== src/Floats/Preconditions.antt =====
-- src/abstractops.cpp: the preconditions on the functions and variables of an encoding, under which a
-- validation asks its queries: those of the constants' order, of truncation, and, without the solver's
-- bags, of associative sums. The constants are taken in the order of `std::map`, a parameter.
use mathlib.Core.Option
use mlir_tv.Base.{
  ℕ, zero, suc, ◌+◌, ◌*◌, ◌%◌, ◌^◌, max, Bool, true, ◌&&◌, not, Option, none, some, List, [], ◌∷◌,
  ◌++◌, length, get_elem?, ◌==◌, if◌then◌else◌, ◌>>=◌,
}
use mlir_tv.Smt.Terms.{Smt, FnDecl, fp_hash_name}
use mlir_tv.Smt.Arith.{mk_bv, log2_ceil}
use mlir_tv.Smt.Compare.{equal, ult}
use mlir_tv.Smt.Logic.{mk_bool, and, implies, negate}
use mlir_tv.Smt.Words.{add}
use mlir_tv.Memory.{select}
use mlir_tv.Floats.{Fpa, FpEncoding, suffix_of, zero as fp_zero, largest, get_magnitude_bits}
use mlir_tv.Floats.Constants.{ConstSource}
use mlir_tv.Floats.Cast.{get_round_dir_fn}
use mlir_tv.Floats.Arrays.{FpSumInfo}
use mlir_tv.Validate.Loop.{AddSumEncoding, is_default}

module _ ⦃S : Smt⦄ where
  open S use {Term, width, is_true, simplify, apply_}

  module _ ⦃P : Fpa⦄ ⦃Q : ConstSource⦄ where
    open P use {Number}
    open Q use {mk_var, is_negative, get_casting_info}

    -- The loop of `getFpConstantPrecondition`, which ends at the first number that is not negative: each
    -- number has a larger bit pattern than the next one.
    unfoldable pub order_from : Term → Term → List (Number × Term) → Term × Term
    order_from precond prev_absrepr [] = (precond, prev_absrepr)
    order_from precond prev_absrepr ((fp, absrepr) ∷ rest) =
        let later = order_from (and precond (ult absrepr prev_absrepr)) absrepr rest in
        if is_negative fp then later else (precond, prev_absrepr)

    unfoldable pub get_fp_constant_precondition :
        (List (Number × Term) → List (Number × Term)) → FpEncoding → Term
    unfolding order_from largest fp_zero mk_bool
    get_fp_constant_precondition in_order E =
        let (precond, prev_absrepr) =
          order_from (mk_bool true) (largest E true) (in_order E.absrepr) in
        if E.use_ieee754
        then mk_bool true
        else if length E.absrepr == 0
        then simplify precond
        else simplify (and precond (ult (fp_zero E true) prev_absrepr))

    -- The variables of the loop of `getFpTruncatePrecondition`.
    pub record TruncateState : Type 0 where
      pub precond : Term
      pub value_id : ℕ
      pub prev_fp : Option Number

    -- Two numbers that the cast keeps and that are neighbours as floats, by `is_epsilon` (which takes no
    -- number for 0.0f), have neighbouring variables; another's rounding goes the way that it does.
    module _ (is_epsilon : Option Number → Number → Bool) where
      unfoldable pub rounding_direction : FpEncoding → Term → Bool → Term
      unfolding get_round_dir_fn get_magnitude_bits mk_bv
      rounding_direction E absrepr upward =
          equal (apply_ (get_round_dir_fn E) (get_magnitude_bits E absrepr ∷ []))
            (mk_bv (if upward then 1 else 0) 1)

      unfoldable pub adjacent_values : FpEncoding → ℕ → Term
      unfolding mk_bv
      adjacent_values E id =
          let prev_var = mk_var E.truncated_bitwidth id in
          equal (mk_var E.truncated_bitwidth (id + 1)) (add prev_var (mk_bv 1 (width prev_var)))

      unfoldable pub truncate_step : FpEncoding → TruncateState → Number → Term → TruncateState
      unfolding rounding_direction adjacent_values
      truncate_step E st fp absrepr =
          let info = get_casting_info fp in
          if is_negative fp
          then st
          else if info.zero_prec_bits
          then record {
            precond =
                if is_epsilon st.prev_fp fp
                then and st.precond (adjacent_values E st.value_id)
                else st.precond;
            value_id = st.value_id + 1;
            prev_fp = some fp;
          }
          else record st {
            precond = and st.precond (rounding_direction E absrepr info.is_rounded_upward);
          }

      unfoldable pub truncate_from :
          FpEncoding → TruncateState → List (Number × Term) → TruncateState
      unfolding truncate_step
      truncate_from E st [] = st
      truncate_from E st ((fp, absrepr) ∷ rest) =
          truncate_from E (truncate_step E st fp absrepr) rest

      unfoldable pub get_fp_truncate_precondition :
          (List (Number × Term) → List (Number × Term)) → FpEncoding → Term
      unfolding truncate_from mk_bool
      get_fp_truncate_precondition in_order E =
          (truncate_from E (record { precond = mk_bool true; value_id = 0; prev_fp = none })
            (in_order E.absrepr)).precond

  -- The largest length of the sums.
  unfoldable pub max_length : List FpSumInfo → ℕ
  max_length [] = 0
  max_length (info ∷ rest) = max info.len (max_length rest)

  unfoldable pub get_hash_range_bits : List FpSumInfo → ℕ
  unfolding log2_ceil max_length
  get_hash_range_bits sums =
      max 1 (log2_ceil (length sums * length sums * max_length sums % 2 ^ 64))

  module _ ⦃P : Fpa⦄ (idx : Term) (E : FpEncoding) where
    -- `getHashFnForAddAssoc`, by the declaration that is cached.
    unfoldable pub get_hash_fn : Option FnDecl → List FpSumInfo → Option FnDecl
    unfolding suffix_of get_hash_range_bits
    get_hash_fn none sums =
        some
          (record { name = fp_hash_name; suffix = suffix_of E; range = get_hash_range_bits sums })
    get_hash_fn (some f) sums = if f.range == get_hash_range_bits sums then some f else none

    -- The hash of the last sum before that is the element itself.
    unfoldable pub known_hash : Term → Option Term → List (FpSumInfo × Term) → Option Term
    known_hash elem current [] = current
    known_hash elem current ((info, hash) ∷ rest) =
        known_hash elem
          (if is_true (simplify (equal info.sum_expr elem)) then some hash else current) rest

    -- An element of a sum. The elements of a sum that has some are as many as its length.
    unfoldable pub summed_elem : FpSumInfo → ℕ → Term
    unfolding select mk_bv
    summed_elem info j = elim (get_elem? info.arr_elems j) [
      | some e ↦ e
      | none ↦ select info.arr (mk_bv j (width idx))
    ]

    unfoldable pub elem_hash : FnDecl → List (FpSumInfo × Term) → Term → Term
    unfolding known_hash
    elem_hash hashfn before elem = elim (known_hash elem none before) [
      | some hash ↦ hash
      | none ↦ apply_ hashfn (elem ∷ [])
    ]

    -- The loop that adds the hashes of the elements from `j` on.
    unfoldable pub hash_from : FnDecl → List (FpSumInfo × Term) → FpSumInfo → ℕ → ℕ → Term → Term
    unfolding elem_hash summed_elem
    hash_from hashfn before info zero j value = value
    hash_from hashfn before info (suc left) j value =
        hash_from hashfn before info left (j + 1)
          (add value (elem_hash hashfn before (summed_elem info j)))

    -- The sums with their hashes, behind those `before`.
    unfoldable pub hash_values :
        FnDecl → List (FpSumInfo × Term) → List FpSumInfo → List (FpSumInfo × Term)
    unfolding hash_from mk_bv
    hash_values hashfn before [] = before
    hash_values hashfn before (info ∷ rest) =
        hash_values hashfn
          (before ++ ((info, hash_from hashfn before info info.len 0 (mk_bv 0 hashfn.range)) ∷ []))
          rest

    -- Sums that differ have different hashes.
    unfoldable pub associate_with :
        AddSumEncoding → FpSumInfo × Term → Term → List (FpSumInfo × Term) → Term
    unfolding is_default
    associate_with level (a, a_val) precond [] = precond
    associate_with level (a, a_val) precond ((b, b_val) ∷ rest) =
        let associativity =
          implies (negate (equal a.sum_expr b.sum_expr)) (negate (equal a_val b_val)) in
        associate_with level (a, a_val)
          (if is_default level && not (a.len == b.len) then precond else and precond associativity)
          rest

    unfoldable pub associate_all : AddSumEncoding → Term → List (FpSumInfo × Term) → Term
    unfolding associate_with
    associate_all level precond [] = precond
    associate_all level precond (a ∷ rest) =
        associate_all level (associate_with level a precond rest) rest

    -- `getFpAssociativePrecondition` without bags
    unfoldable pub get_fp_associative_precondition :
        AddSumEncoding → Option FnDecl → List FpSumInfo → Option Term
    unfolding get_hash_fn hash_values associate_all fp_zero mk_bool mk_bv
    get_fp_associative_precondition level cached sums = do
      hashfn ← get_hash_fn cached sums
      let precond = associate_all level (mk_bool true) (hash_values hashfn [] sums)
      let identity = equal (apply_ hashfn (fp_zero E true ∷ [])) (mk_bv 0 hashfn.range)
      some (simplify (and precond identity))

  -- The functions of the same names outside the class, over the encodings that there are.
  module _ ⦃P : Fpa⦄ ⦃Q : ConstSource⦄ where
    unfoldable pub and_if_some : Term → Option Term → Term
    and_if_some cond none = cond
    and_if_some cond (some e) = and cond e

    unfoldable pub constants_precondition :
        (List (P.Number × Term) → List (P.Number × Term))
        → Option FpEncoding
        → Option FpEncoding
        → Term
    unfolding get_fp_constant_precondition and_if_some mk_bool
    constants_precondition in_order float_enc double_enc = simplify (
        and_if_some
          (and_if_some (mk_bool true)
            (Option.map (get_fp_constant_precondition in_order) float_enc))
          (Option.map (get_fp_constant_precondition in_order) double_enc))
