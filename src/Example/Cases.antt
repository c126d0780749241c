-- ===== src/Example/Cases.antt =====
-- The theorems at concrete terms of the solver of Example/Solver: a byte and a word that are
-- variables, two functions that agree, and two of which the target has undefined behaviour.
use mlir_tv.Base.{
  ℕ, ◌^◌, ◌<◌, ◌≡◌, refl, Bool, true, false, none, some, List, [], ◌∷◌, ◌==◌, arith, inl, inr,
  Bool-cases, ◌&&◌, ◌||◌, if◌then◌else◌,
}
use mlir_tv.Example.Solver.{
  Tm, Values, num, const, var, bin, ext, splat, fn, concats, bits_of, truth_of, is_const, number?,
  solver,
}
use mlir_tv.Example.Solver.Laws.{solver-IsSmt}
use mlir_tv.Smt.Logic.{and, negate}
use mlir_tv.Smt.Arith.{urem, udiv}
use mlir_tv.Smt.Arith.Divide.{bits-urem, div-pow2_wide}
use mlir_tv.Smt.Compare.{equal}
use mlir_tv.Smt.Compare.Equal.{truth-equal}
use mlir_tv.State.{is_well_defined}
use mlir_tv.Validate.Results.{
  success, ub, retvalue, sat, unsat, CheckResult, has_sat, has_unsat, is_inconsistent,
}
use mlir_tv.Validate.Check.{
  Logic, logic_qf, Checker, stop, go_on, FinalState, refinement_query, query, next, check_memories,
  check_refinement,
}
use mlir_tv.Validate.Check.Sound.{RefinesAt, AllTrue}
use mlir_tv.Validate.Check.Verdict.{check_refinement_success, check_refinement_fails, Refutes}
use mlir_tv.Validate.Check.Memories.{check_memories-first}
use mlir_tv.Validate.Loop.{Round, validate}
use mlir_tv.Validate.Loop.Laws.{validate-IsVerdict, IsVerdict}

-- Every variable is 6.
abbrev six : Values
six x = 6

abbrev byte : Tm
byte = var 0 8

abbrev wide : Tm
wide = var 1 64

four_small : (n : ℕ) → number? (num 4 8) ≡ some n → n < 2 ^ 32
four_small n e = let f : 4 ≡ n = ground arith in omega arith

bits-urem_example : bits_of six (urem byte (num 4 8)) ≡ 2
bits-urem_example = bits-urem solver-IsSmt six byte (num 4 8) four_small

div-pow2_wide_example :
    (bits_of six (urem wide (num (2 ^ 40) 64)) ≡ 6)
    × (bits_of six (udiv wide (num (2 ^ 40) 64)) ≡ 0)
div-pow2_wide_example =
    div-pow2_wide solver-IsSmt six wide (num (2 ^ 40) 64) 40 refl (omega arith) (omega arith)
      (omega arith)

-- The byte between two others, and a constant of the same high part.
abbrev pair : Tm
pair = bin concats (num 2 8) byte

truth-equal_example : truth_of six (equal pair (num 518 16)) ≡ true
truth-equal_example = truth-equal solver-IsSmt six pair (num 518 16) (omega arith)

-- A solver that knows constants only.
abbrev any_false : List Tm → Bool
any_false [] = false
any_false (q ∷ qs) = is_const false q || any_false qs

abbrev all_true : List Tm → Bool
all_true [] = true
all_true (q ∷ qs) = is_const true q && all_true qs

abbrev answer : List Tm → CheckResult
answer qs = record {
  z3 = if any_false qs then some unsat else if all_true qs then some sat else none;
  cvc5 = none;
}

-- Values are numbers that refine themselves; a memory has blocks of one type, which refine.
abbrev checker : Checker solver
checker = record {
  Value = ℕ;
  Mem = Unit;
  run = λ l qs. (answer qs, 1);
  refines = λ a b. const (a == b);
  memory_refines = λ a b. some (const true ∷ []);
  total_num_blocks = λ m. 1;
}

is_false-const : (q : Tm) → is_const false q ≡ true → (v : Values) → truth_of v q ≡ false
is_false-const (const b) h v = ground arith
is_false-const (num n w) h v = refl
is_false-const (var n w) h v = refl
is_false-const (bin o a b) h v = refl
is_false-const (ext k a) h v = refl
is_false-const (splat e) h v = refl
is_false-const (fn m) h v = cc

is_true-const : (q : Tm) → is_const true q ≡ true → truth_of six q ≡ true
is_true-const (const b) h = h
is_true-const (num n w) h = cc
is_true-const (var n w) h = cc
is_true-const (bin o a b) h = cc
is_true-const (ext k a) h = cc
is_true-const (splat e) h = cc
is_true-const (fn m) h = cc

abbrev function : Bool → List ℕ → FinalState checker
function defined values = record {
  state = record {
    precond = const true;
    welldef = (0, ("ub", const defined) ∷ []) ∷ [];
    has_quantifier = false;
    has_const_array = false;
  };
  ret_values = values;
  memory = tt;
}

agree :
    (check_refinement checker false
      (const true)
      (function true (5 ∷ []))
      (function true (5 ∷ []))
      0).0
    ≡ stop success
unfolding check_refinement is_well_defined and negate has_unsat has_sat is_inconsistent
agree = refl

undefined :
    (check_refinement checker false
      (const true)
      (function true (5 ∷ []))
      (function false (5 ∷ []))
      0).0
    ≡ stop ub
unfolding check_refinement is_well_defined and negate has_unsat has_sat is_inconsistent
undefined = refl

unsat_sound :
    (l : Logic) (q : Tm)
    → has_unsat (checker.run l (q ∷ [])).0 ≡ true
    → (v : Values) → truth_of v q ≡ false
unfolding has_unsat
unsat_sound l q h v = is_false-const q (ground arith) v

all_true-AllTrue : (qs : List Tm) → all_true qs ≡ true → AllTrue checker six qs
all_true-AllTrue [] h = tt
all_true-AllTrue (q ∷ qs) h = (is_true-const q (ground arith), all_true-AllTrue qs (ground arith))

sat_sound :
    (l : Logic) (qs : List Tm)
    → has_sat (checker.run l qs).0 ≡ true
    → (v : Values) × AllTrue checker v qs
unfolding has_sat
sat_sound l qs h = (six, all_true-AllTrue qs (ground arith))

stays :
    (q : Tm) (added : List Tm)
    → has_unsat (checker.run logic_qf added).0 ≡ true
    → is_inconsistent (checker.run logic_qf added).0 ≡ false
    → (has_unsat (checker.run logic_qf (q ∷ added)).0 ≡ true)
      × (is_inconsistent (checker.run logic_qf (q ∷ added)).0 ≡ false)
unfolding has_unsat is_inconsistent has_sat
stays q added h c = elim (Bool-cases (is_const false q)) [
  | inl e ↦ (ground arith, ground arith)
  | inr e ↦ (ground arith, ground arith)
]

-- The memories of the second type do not refine, and nobody notices.
check_memories-first_example :
    (check_memories checker logic_qf
      (const true)
      (function true [])
      (function true [])
      []
      (const true ∷ const false ∷ [])
      0).0
    ≡ go_on
unfolding check_memories refinement_query query next is_well_defined and negate has_unsat has_sat
    is_inconsistent
check_memories-first_example =
    check_memories-first checker logic_qf stays (const true) (function true []) (function true [])
      (const true) (const false ∷ []) 0

check_refinement_success_example :
    RefinesAt checker (function true (5 ∷ [])) (function true (5 ∷ [])) six
check_refinement_success_example =
    check_refinement_success checker solver-IsSmt (function true (5 ∷ [])) (function true (5 ∷ []))
      (const true) false 0 unsat_sound agree six refl

check_refinement_fails_example :
    (v : Values) × Refutes checker
      (function true (5 ∷ []))
      (function false (5 ∷ []))
      (const true)
      ub
      v
check_refinement_fails_example =
    check_refinement_fails checker solver-IsSmt (function true (5 ∷ [])) (function false (5 ∷ []))
      (const true) sat_sound false 0 ub (inl refl) undefined

-- Every round fails, and used a sum and a dot product.
abbrev failing : Round
failing itr a = (
  retvalue,
  record {
    used_fp_dot = true;
    used_fp_sum = true;
    used_fp_cast_round = false;
    used_int_dot = false;
    used_int_sum = false;
  },
)

validate-IsVerdict_example : IsVerdict false failing (validate false failing)
validate-IsVerdict_example = validate-IsVerdict false failing
