-- ===== src/Validate/Loop.antt =====
-- src/vcgen.cpp: `validate` of one pair of functions, the loop that refines the abstraction; and
-- the enumerations of src/abstractops.h that it reads. One round (encoding and checking under an
-- abstraction) is a parameter; what it prints, the query dumps and `checkIsSrcAlwaysUB`, which only
-- prints, are not modelled. An exception leaves the loop and is not modelled either.
pub mod Laws
pub mod Reach
use mlir_tv.Base.{
  ℕ, zero, suc, ◌+◌, Bool, true, false, ◌&&◌, ◌||◌, List, [], ◌∷◌, ◌++◌, if◌then◌else◌,
}
use mlir_tv.Validate.Results.{Code, success, timeout, inconsistent}

-- `AbsLevelFpDot` and `AbsLevelIntDot`
pub data DotLevel : Type 0 where
  fully_abs_dot sum_mul : DotLevel

-- `AbsLevelFpCast`
pub data CastLevel : Type 0 where
  fully_abs_cast precise : CastLevel

-- `AbsFpAddSumEncoding`
pub data AddSumEncoding : Type 0 where
  use_sum_only default unroll_to_add : AddSumEncoding

pub record Abstraction : Type 0 where
  pub fp_dot : DotLevel
  pub fp_cast : CastLevel
  pub int_dot : DotLevel
  pub fp_add_sum_encoding : AddSumEncoding

-- The fields of `UsedAbstractOps` that the loop reads.
pub record UsedAbstractOps : Type 0 where
  pub used_fp_dot : Bool
  pub used_fp_sum : Bool
  pub used_fp_cast_round : Bool
  pub used_int_dot : Bool
  pub used_int_sum : Bool

pub is_fully_abs : DotLevel → Bool
is_fully_abs fully_abs_dot = true
is_fully_abs sum_mul = false

unfoldable pub is_fully_abs_cast : CastLevel → Bool
is_fully_abs_cast fully_abs_cast = true
is_fully_abs_cast precise = false

unfoldable pub is_default : AddSumEncoding → Bool
is_default default = true
is_default _ = false

unfoldable is_use_sum_only : AddSumEncoding → Bool
is_use_sum_only use_sum_only = true
is_use_sum_only _ = false

-- The abstraction that the queue starts with.
unfoldable pub initial : Bool → Abstraction
initial assoc = record {
  fp_dot = fully_abs_dot;
  fp_cast = fully_abs_cast;
  int_dot = fully_abs_dot;
  fp_add_sum_encoding = if assoc then use_sum_only else default;
}

-- 1. fp dot abstraction level
refines_fp_dot : Bool → UsedAbstractOps → Abstraction → Bool
refines_fp_dot assoc used a = is_fully_abs a.fp_dot && (used.used_fp_dot || assoc)

-- 2. fp cast abstraction level
refines_fp_cast : UsedAbstractOps → Abstraction → Bool
refines_fp_cast used a = is_fully_abs_cast a.fp_cast && used.used_fp_cast_round

-- 3. int dot abstraction level
refines_int_dot : UsedAbstractOps → Abstraction → Bool
refines_int_dot used a = is_fully_abs a.int_dot && (used.used_int_dot && used.used_int_sum)

-- What is pushed to the queue after a round that failed: at most one abstraction.
pub next_abstractions : Bool → UsedAbstractOps → Abstraction → List Abstraction
unfolding is_fully_abs is_fully_abs_cast is_default refines_fp_dot refines_fp_cast refines_int_dot
next_abstractions assoc used a =
    let d = refines_fp_dot assoc used a in
    let c = refines_fp_cast used a in
    let i = refines_int_dot used a in
    if d || c || i
    then record a {
      fp_dot = if d then sum_mul else a.fp_dot;
      fp_cast = if c then precise else a.fp_cast;
      int_dot = if i then sum_mul else a.int_dot;
    }
      ∷ []
    else if is_default a.fp_add_sum_encoding && used.used_fp_sum
    then record a { fp_add_sum_encoding = unroll_to_add } ∷ []
    else []

-- The assertion of `setAbstraction`.
unfoldable pub can_set_abstraction : Bool → Abstraction → Bool
unfolding is_use_sum_only
can_set_abstraction assoc a = if assoc then is_use_sum_only a.fp_add_sum_encoding else true

pub data Outcome : Type 0 where
  verdict : Code → Outcome
  assertion_failed : Outcome
  out_of_fuel : Outcome

-- Whether a round ends the validation.
unfoldable pub is_final : Code → Bool
is_final inconsistent = true
is_final success = true
is_final _ = false

-- What one round gives, by its number and abstraction.
abbrev pub Round : Type 0
Round = ℕ → Abstraction → Code × UsedAbstractOps

-- `while (!queue.empty())`, with the last result and the number of the round.
pub loop : Bool → Round → ℕ → List Abstraction → Code → ℕ → Outcome
unfolding is_final
loop assoc round zero queue result itr = out_of_fuel
loop assoc round (suc fuel) [] result itr = verdict result
loop assoc round (suc fuel) (a ∷ queue) result itr =
    let (code, used) = round itr a in
    let rest = loop assoc round fuel (queue ++ next_abstractions assoc used a) code (suc itr) in
    if can_set_abstraction assoc a
    then if is_final code then verdict code else rest
    else assertion_failed

pub validate : Bool → Round → Outcome
validate assoc round = loop assoc round 6 (initial assoc ∷ []) timeout 0
