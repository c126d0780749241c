-- ===== src/Validate/Results.antt =====
-- src/vcgen.h: the class `Results`; src/smt.cpp: the class `CheckResult`.
use mlir_tv.Base.{
  ℕ, ◌≡◌, ◌⊎◌, max, Bool, true, false, ◌&&◌, ◌||◌, not, Option, some, leb, arith, if◌then◌else◌,
}

-- `Results::Code`
pub data Code : Type 0 where
  success timeout retvalue ub inconsistent : Code

unfoldable pub code_value : Code → ℕ
code_value success = 0
code_value timeout = 101
code_value retvalue = 102
code_value ub = 103
code_value inconsistent = 104

-- `Results::merge`, which keeps the larger code.
unfoldable pub merge : Code → Code → Code
unfolding code_value
merge a b = if leb (code_value b) (code_value a) then a else b

-- What one solver answers.
pub data Answer : Type 0 where
  sat unsat unknown : Answer

-- `CheckResult`: the answers of the solvers that are in use.
pub record CheckResult : Type 0 where
  pub z3 : Option Answer
  pub cvc5 : Option Answer

is_sat : Option Answer → Bool
is_sat (some sat) = true
is_sat _ = false

is_unsat : Option Answer → Bool
is_unsat (some unsat) = true
is_unsat _ = false

unfoldable pub has_sat : CheckResult → Bool
unfolding is_sat
has_sat r = is_sat r.z3 || is_sat r.cvc5

unfoldable pub has_unsat : CheckResult → Bool
unfolding is_unsat
has_unsat r = is_unsat r.z3 || is_unsat r.cvc5

unfoldable pub is_inconsistent : CheckResult → Bool
unfolding has_sat has_unsat
is_inconsistent r = has_sat r && has_unsat r

unfoldable pub is_unknown : CheckResult → Bool
unfolding has_sat has_unsat
is_unknown r = not (has_sat r) && not (has_unsat r)

-- The merged code is one of the two codes, and its value is the larger of theirs.
pub code_value-merge :
    (a b : Code)
    → ((merge a b ≡ a) ⊎ (merge a b ≡ b))
      × (code_value (merge a b) ≡ max (code_value a) (code_value b))
unfolding merge
code_value-merge a b = ground arith
