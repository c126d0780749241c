-- ===== src/Validate/Check.antt =====
-- src/vcgen.cpp: `checkRefinement`. The solver, the values and the memories enter as an interface;
-- messages and counterexamples are not modelled. A solver is the list of the formulas that were added
-- to it, the last one first; `solve` does not reset it. `Step.aborted` is a failed assertion.
pub mod Sound
pub mod Verdict
pub mod Memories
use mlir_tv.Base.{
  ℕ, ◌+◌, Bool, ◌||◌, Option, none, some, List, [], ◌∷◌, length, ltb, ◌==◌, if◌then◌else◌, not,
}
use mlir_tv.Smt.Terms.{Smt}
use mlir_tv.Smt.Logic.{and, negate}
use mlir_tv.State.{State, is_well_defined}
use mlir_tv.Validate.Results.{
  Code, success, timeout, retvalue, ub, inconsistent, CheckResult, has_sat, has_unsat,
  is_inconsistent,
}

-- SMT_LOGIC_QF, SMT_LOGIC and SMT_LOGIC_ALL.
pub data Logic : Type 0 where
  logic_qf logic logic_all : Logic

-- What `checkRefinement` calls: `Solver::check` with its running time, by the formulas that were added
-- to the solver, the refinement of two values (target, source) and the refinement of two memories, one
-- formula for each element type, or a failed assertion.
pub record Checker (S : Smt) : Type 1 where
  pub Value : Type 0
  pub Mem : Type 0
  pub run : Logic → List S.Term → CheckResult × ℕ
  pub refines : Value → Value → S.Term
  pub memory_refines : Mem → Mem → Option (List S.Term)
  pub total_num_blocks : Mem → ℕ

-- Whether the validation goes on after a query.
pub data Step : Type 0 where
  go_on : Step
  stop : Code → Step
  aborted : Step

module _ ⦃S : Smt⦄ (C : Checker S) where
  open S use {Term, simplify}
  open C use {Value, Mem, run, refines, memory_refines, total_num_blocks}

  -- The encoded state of a function, with what `checkRefinement` reads of it.
  pub record FinalState : Type 0 where
    pub state : State
    pub ret_values : List Value
    pub memory : Mem

  pub choose_logic : Bool → FinalState → FinalState → Logic
  choose_logic use_all src tgt =
      if use_all || src.state.has_const_array || tgt.state.has_const_array
      then logic_all
      else if src.state.has_quantifier || tgt.state.has_quantifier
      then logic
      else logic_qf

  -- `solve` of a formula by a solver with the formulas `added`, as each of the three steps treats the
  -- answer; the time is added up. The solver then has the formula too.
  unfoldable pub query : Logic → Code → List Term → Term → ℕ → Step × ℕ
  query l bad added q elapsed =
      let (r, t) = run l (q ∷ added) in
      (
        if is_inconsistent r
            then stop inconsistent
            else if not (has_unsat r)
            then stop (if has_sat r then bad else timeout)
            else go_on,
        elapsed + t,
      )

  unfoldable pub next : Step × ℕ → (ℕ → Step × ℕ) → Step × ℕ
  next (go_on, t) k = k t
  next (stop c, t) k = (stop c, t)
  next (aborted, t) k = (aborted, t)

  -- The query of step 1.
  pub ub_query : Term → FinalState → FinalState → Term
  ub_query precond src tgt =
      and precond (simplify (and (is_well_defined src.state) (negate (is_well_defined tgt.state))))

  -- 1. Check UB
  pub check_ub : Logic → Term → FinalState → FinalState → ℕ → Step × ℕ
  unfolding query ub_query
  check_ub l precond src tgt = query l ub [] (ub_query precond src tgt)

  -- The query of steps 2 and 3 for one refinement formula.
  unfoldable pub refinement_query : Term → FinalState → FinalState → Term → Term
  refinement_query precond src tgt r =
      and precond
        (simplify (and (and (is_well_defined src.state) (is_well_defined tgt.state)) (negate r)))

  -- 2. Check the return values, one after the other, each with a solver of its own.
  pub check_rets : Logic → Term → FinalState → FinalState → List Value → List Value → ℕ → Step × ℕ
  unfolding query next refinement_query
  check_rets l precond src tgt [] [] t = (go_on, t)
  check_rets l precond src tgt (a ∷ as') (b ∷ bs) t =
      next (query l retvalue [] (refinement_query precond src tgt (refines b a)) t)
        (check_rets l precond src tgt as' bs)
  check_rets l precond src tgt _ _ t = (aborted, t)

  -- The return values that step 2 compares: none where the source returns none.
  unfoldable pub tgt_values : FinalState → FinalState → List Value
  tgt_values src tgt = if length src.ret_values == 0 then [] else tgt.ret_values

  -- Step 2 first asserts that there are as many values on both sides.
  unfoldable pub check_values : Logic → Term → FinalState → FinalState → ℕ → Step × ℕ
  unfolding check_rets tgt_values
  check_values l precond src tgt t =
      let bs = tgt_values src tgt in
      if length src.ret_values == length bs
      then check_rets l precond src tgt src.ret_values bs t
      else (aborted, t)

  -- 3. Check memory refinement: one solver for all element types.
  unfoldable pub check_memories :
      Logic → Term → FinalState → FinalState → List Term → List Term → ℕ → Step × ℕ
  unfolding query next refinement_query
  check_memories l precond src tgt added [] t = (go_on, t)
  check_memories l precond src tgt added (r ∷ rs) t =
      let q = refinement_query precond src tgt r in
      next (query l retvalue added q t) (check_memories l precond src tgt (q ∷ added) rs)

  -- The formulas of step 3, which is skipped where neither memory has a block.
  pub memory_formulas : FinalState → FinalState → Option (List Term)
  memory_formulas src tgt =
      if ltb 0 (total_num_blocks src.memory) || ltb 0 (total_num_blocks tgt.memory)
      then memory_refines tgt.memory src.memory
      else some []

  pub check_memory : Logic → Term → FinalState → FinalState → Option (List Term) → ℕ → Step × ℕ
  unfolding check_memories
  check_memory l precond src tgt none t = (aborted, t)
  check_memory l precond src tgt (some rs) t = check_memories l precond src tgt [] rs t

  pub finish : Step × ℕ → Step × ℕ
  finish (go_on, t) = (stop success, t)
  finish (stop c, t) = (stop c, t)
  finish (aborted, t) = (aborted, t)

  unfoldable pub check_refinement : Bool → Term → FinalState → FinalState → ℕ → Step × ℕ
  unfolding check_ub check_values check_memory choose_logic memory_formulas next finish
  check_refinement use_all precond src tgt elapsed =
      let l = choose_logic use_all src tgt in
      finish (
        next (check_ub l precond src tgt elapsed) λ t.
          next (check_values l precond src tgt t)
            λ t'. check_memory l precond src tgt (memory_formulas src tgt) t')
