-- ===== src/Floats/Arrays.antt =====
-- src/abstractops.cpp: the sums, dot products and maxima of arrays of floating-point numbers, and `add`,
-- which may be a sum. The variable of the lambdas, of the width of an index, and the solver's bag of the
-- elements are parameters. `none` is a failed assertion or an unsupported operation.
use mlir_tv.Base.{
  ℕ, zero, suc, ◌+◌, ◌-◌, Bool, true, false, ◌&&◌, not, Option, none, some, List, [], ◌∷◌, ◌++◌,
  length, ltb, ◌==◌, if◌then◌else◌, ◌>>=◌, ◌>>◌, guard,
}
use mlir_tv.Smt.Terms.{
  Smt, FnDecl, fp_sum_name, fp_assoc_sum_name, fp_dot_name, fp_max_name, fp_sint32tofp_name,
}
use mlir_tv.Smt.Arith.{mk_bv}
use mlir_tv.Smt.Compare.{equal, ult}
use mlir_tv.Smt.Logic.{mk_ite}
use mlir_tv.Smt.Words.{add, sub, is_zero}
use mlir_tv.Memory.{select}
use mlir_tv.Floats.{
  Fpa, FpEncoding, suffix_of, fp_bitwidth, nan, infinity, zero as fp_zero, largest, is_nan,
}
use mlir_tv.Floats.Arith.{ArithState, add_terms, mul}
use mlir_tv.Validate.Loop.{
  AddSumEncoding, use_sum_only, default, unroll_to_add, DotLevel, fully_abs_dot, sum_mul,
}

-- What `setAbstraction` and `setEncodingOptions` set.
pub record ArrayOptions : Type 0 where
  pub is_fp_add_associative : Bool
  pub use_multiset : Bool
  pub has_arith_properties : Bool
  pub max_unroll_fp_sum_bound : ℕ
  pub fp_add_sum_encoding : AddSumEncoding
  pub fp_dot : DotLevel

module _ ⦃S : Smt⦄ where
  open S use {Term, width, numeral?, is_true, simplify, apply_, bvand, lambda_}

  -- An array with a value in front of its elements, and its size.
  unfoldable pub insert_initial_value : Term → Term → Term → Term → Term × Term
  unfolding select mk_bv
  insert_initial_value idx a n init_value = (
    lambda_ idx (mk_ite (is_zero idx) init_value (select a (sub idx (mk_bv 1 (width idx))))),
    add n (mk_bv 1 (width n)),
  )

  -- `FpSumInfo`
  pub record FpSumInfo : Type 0 where
    pub arr : Term
    pub arr_elems : List Term
    pub len : ℕ
    pub sum_expr : Term

  module _ ⦃P : Fpa⦄ where
    -- What the operations on arrays change.
    pub record ArrayState : Type 0 where
      pub arith_state : ArithState
      pub used_fp_sum : Bool
      pub used_fp_dot : Bool
      pub fp_sums : List FpSumInfo

    unfoldable pub get_sum_fn : FpEncoding → FnDecl
    unfolding suffix_of fp_bitwidth
    get_sum_fn E = record { name = fp_sum_name; suffix = suffix_of E; range = fp_bitwidth E }

    unfoldable pub get_assoc_sum_fn : FpEncoding → FnDecl
    unfolding suffix_of fp_bitwidth
    get_assoc_sum_fn E = record {
      name = fp_assoc_sum_name;
      suffix = suffix_of E;
      range = fp_bitwidth E;
    }

    unfoldable pub get_dot_fn : FpEncoding → FnDecl
    unfolding suffix_of fp_bitwidth
    get_dot_fn E = record { name = fp_dot_name; suffix = suffix_of E; range = fp_bitwidth E }

    unfoldable pub get_max_fn : FpEncoding → FnDecl
    unfolding suffix_of fp_bitwidth
    get_max_fn E = record { name = fp_max_name; suffix = suffix_of E; range = fp_bitwidth E }

    unfoldable pub get_int32_to_fp_fn : FpEncoding → FnDecl
    unfolding suffix_of fp_bitwidth
    get_int32_to_fp_fn E = record {
      name = fp_sint32tofp_name;
      suffix = suffix_of E;
      range = fp_bitwidth E;
    }

    unfoldable pub cast_from_signed_int : FpEncoding → Term → Option Term
    unfolding get_int32_to_fp_fn
    cast_from_signed_int E integer =
        if width integer == 32 then some (apply_ (get_int32_to_fp_fn E) (integer ∷ [])) else none

    module _ (idx : Term) (mk_bag : List Term → Term) (o : ArrayOptions) (E : FpEncoding) where
      unfoldable pub index : ℕ → Term
      unfolding mk_bv
      index i = mk_bv i (width idx)

      unfoldable pub push_sum : ArrayState → FpSumInfo → ArrayState
      push_sum st info = record st { used_fp_sum = true; fp_sums = st.fp_sums ++ (info ∷ []) }

      -- An element, or the one NaN.
      unfoldable pub element_or_nan : Term → Term → Term
      unfolding select is_nan nan
      element_or_nan a i = mk_ite (is_nan E (select a i)) (nan E) (select a i)

      -- `lambdaSum` of an array
      unfoldable pub lambda_sum : ArrayState → Term → Term → Term × ArrayState
      unfolding get_sum_fn element_or_nan fp_zero push_sum
      lambda_sum st a n =
          let body = mk_ite (ult idx n) (element_or_nan a idx) (fp_zero E true) in
          let result = apply_ (get_sum_fn E) (lambda_ idx body ∷ []) in
          (
            result,
            elim (numeral? n) [
              | none ↦ record st { used_fp_sum = true }
              | some len ↦
                  if o.is_fp_add_associative
                  then push_sum st
                      (record { arr = a; arr_elems = []; len = len; sum_expr = result })
                  else record st { used_fp_sum = true }
            ],
          )

      -- `lambdaSum` of two elements
      unfoldable pub lambda_sum_elems : ArrayState → List Term → Option (Term × ArrayState)
      unfolding get_sum_fn push_sum mk_bv
      lambda_sum_elems st (x ∷ y ∷ []) =
          let lambda = lambda_ idx (mk_ite (equal idx (mk_bv 0 (width idx))) x y) in
          let result = apply_ (get_sum_fn E) (lambda ∷ []) in
          let info : FpSumInfo = record {
            arr = lambda;
            arr_elems = x ∷ y ∷ [];
            len = 2;
            sum_expr = result;
          } in
          some (
            result,
            if o.is_fp_add_associative then push_sum st info else record st { used_fp_sum = true },
          )
      lambda_sum_elems st _ = none

      -- The elements from `i` on that are inserted in the bag.
      unfoldable pub bag_elems : Term → ℕ → ℕ → List Term
      unfolding element_or_nan index
      bag_elems a zero i = []
      bag_elems a (suc left) i = element_or_nan a (index i) ∷ bag_elems a left (i + 1)

      unfoldable pub multiset_sum : ArrayState → Term → Term → Option (Term × ArrayState)
      unfolding get_assoc_sum_fn bag_elems push_sum
      multiset_sum st a n = do
        len ← numeral? n
        let bag = mk_bag (bag_elems a len 0)
        let result = apply_ (get_assoc_sum_fn E) (bag ∷ [])
        some (
          result,
          push_sum st (record { arr = bag; arr_elems = []; len = len; sum_expr = result }),
        )

      -- The loop that adds the elements from `i` on.
      unfoldable pub unrolled_from : Term → ℕ → ℕ → Term → Term
      unfolding add_terms select index
      unrolled_from arr zero i sum = sum
      unrolled_from arr (suc left) i sum =
          unrolled_from arr left (i + 1)
            (simplify (add_terms o.has_arith_properties E sum (select arr (index i))))

      unfoldable pub unrolled : Term → ℕ → Term
      unfolding unrolled_from select index
      unrolled arr len = unrolled_from arr (len - 1) 1 (select arr (index 0))

      -- The sum of two elements or more by the abstract functions.
      unfoldable pub abstract_sum :
          ArrayState → Term → Term → Option (List Term) → Option (Term × ArrayState)
      unfolding multiset_sum lambda_sum_elems lambda_sum
      abstract_sum st arr size elems =
          let by_elems : Option (Term × ArrayState) = elim elems [
            | none ↦ some (lambda_sum st arr size)
            | some es ↦ lambda_sum_elems st es
          ] in
          if o.is_fp_add_associative && o.use_multiset then multiset_sum st arr size else by_elems

      -- `ADD_ONLY`: the sum is unrolled if it is short.
      unfoldable pub added_sum : ArrayState → Term → Term → Term × ArrayState
      unfolding unrolled lambda_sum
      added_sum st arr size = elim (numeral? size) [
        | none ↦ lambda_sum st arr size
        | some len ↦ if ltb o.max_unroll_fp_sum_bound len then lambda_sum st arr size else (
          unrolled arr len,
          if ltb 1 len
              then record st { arith_state = record st.arith_state { used_fp_add = true } }
              else st,
        )
      ]

      unfoldable pub sum_expr_of :
          ArrayState → Term → Term → Option (List Term) → Option (Term × ArrayState)
      unfolding abstract_sum added_sum
      sum_expr_of st arr size elems = elim o.fp_add_sum_encoding [
        | use_sum_only ↦ abstract_sum st arr size elems
        | default ↦ abstract_sum st arr size elems
        | unroll_to_add ↦ some (added_sum st arr size)
      ]

      -- The assertion on the elements that are given.
      unfoldable pub has_elems : Term → Option (List Term) → Bool
      has_elems size none = true
      has_elems size (some es) = elim (numeral? size) [ none ↦ false | some len ↦ len == length es ]

      -- The sum of an array with the initial value in it.
      unfoldable pub sum_of_size :
          ArrayState → Term → Term → Option (List Term) → Option (Term × ArrayState)
      unfolding has_elems sum_expr_of fp_zero select index mk_bv
      sum_of_size st arr size elems = do
        guard (has_elems size elems)
        (e, after) ← sum_expr_of st arr size elems
        some (
          mk_ite (equal size (mk_bv 0 (width idx))) (fp_zero E true)
              (mk_ite (equal size (mk_bv 1 (width idx))) (select arr (index 0)) e),
          after,
        )

      unfoldable pub with_first : Term → Option (List Term) → Option (List Term)
      with_first x none = none
      with_first x (some es) = some (x ∷ es)

      unfoldable pub is_constant : Term → Bool
      is_constant n = elim (numeral? n) [ none ↦ false | some len ↦ true ]

      unfoldable pub sum :
          ArrayState → Term → Term → Option (List Term) → Option Term → Option (Term × ArrayState)
      unfolding sum_of_size insert_initial_value with_first is_constant fp_zero
      sum st a n elems init_value =
          let plain = sum_of_size st a n elems in
          let result : Option (Term × ArrayState) = elim init_value [
            | none ↦ plain
            | some x ↦
                let (arr, size) = insert_initial_value idx a n x in
                if is_true (equal x (fp_zero E true))
                then plain
                else sum_of_size st arr size (with_first x elems)
          ] in
          if o.is_fp_add_associative && not (is_constant n) then none else result

      -- `add`
      unfoldable pub add_fp : ArrayState → Term → Term → Option (Term × ArrayState)
      unfolding sum add_terms index mk_bv
      add_fp st f1 f2 =
          let used = record st { arith_state = record st.arith_state { used_fp_add = true } } in
          let lambda = lambda_ idx (mk_ite (equal idx (mk_bv 0 (width idx))) f1 f2) in
          let plain : Option (Term × ArrayState) =
            some (add_terms o.has_arith_properties E f1 f2, used) in
          elim o.fp_add_sum_encoding [
            | use_sum_only ↦ sum used lambda (index 2) (some (f1 ∷ f2 ∷ [])) none
            | default ↦ plain
            | unroll_to_add ↦ plain
          ]

      -- An array cut off at its size, for dot products.
      unfoldable pub cut_off : Term → Term → Term
      unfolding select fp_zero
      cut_off a n = lambda_ idx (mk_ite (ult idx n) (select a idx) (fp_zero E true))

      unfoldable pub first_or : Option Term → Term → Term
      first_or none d = d
      first_or (some x) d = x

      unfoldable pub dot_function : Term → Term → Term → Option Term → Term
      unfolding get_dot_fn cut_off first_or fp_zero
      dot_function a b n init_value =
          let x = first_or init_value (fp_zero E true) in
          let arr1 = cut_off a n in
          let arr2 = cut_off b n in
          let lhs = apply_ (get_dot_fn E) (x ∷ arr1 ∷ arr2 ∷ []) in
          let rhs = apply_ (get_dot_fn E) (x ∷ arr2 ∷ arr1 ∷ []) in
          if E.use_ieee754 then mk_ite (equal arr1 arr2) lhs (P.fpa_add lhs rhs) else bvand lhs rhs

      -- The products are in the state before the sum.
      unfoldable pub dot :
          ArrayState → Term → Term → Term → Option Term → Option (Term × ArrayState)
      unfolding dot_function mul sum select
      dot st a b n init_value = elim o.fp_dot [
        | fully_abs_dot ↦ some (dot_function a b n init_value, record st { used_fp_dot = true })
        | sum_mul ↦ do
          (product, after) ←
              mul o.has_arith_properties E st.arith_state (select a idx) (select b idx)
          sum (record st { arith_state = after }) (lambda_ idx product) n none init_value
      ]

      -- `max`, by the variables of its two lambdas.
      unfoldable pub max_with : Term → Term → Term → Term → Term
      unfolding select get_max_fn infinity mk_bv
      max_with j arr0 n0 init_value =
          let arr =
            lambda_ j (mk_ite (is_zero j) init_value (select arr0 (sub j (mk_bv 1 (width j))))) in
          let n = add n0 (mk_bv 1 (width n0)) in
          let input = lambda_ idx (mk_ite (ult idx n) (select arr idx) (infinity E true)) in
          apply_ (get_max_fn E) (input ∷ [])

      unfoldable pub max : Term → Term → Term → Option Term → Term
      unfolding max_with largest select index
      max j arr0 n0 (some x) = max_with j arr0 n0 x
      max j arr0 n0 none =
          let general = max_with j arr0 n0 (largest E true) in
          elim (numeral? n0) [
            | none ↦ general
            | some len ↦ if len == 1 then select arr0 (index 0) else general
          ]
