-- ===== src/State.antt =====
-- src/state.h, src/state.cpp: the encoder's state of one function. Operations are numbers (their
-- addresses); a map is an association list without repeated keys, in the order of insertion.
-- The registers are in State/Registers; the return values and the memory are fields of `FinalState` in
-- Validate/Check. The scopes of `linalg.generic` and the printer are not modelled.
pub mod Laws
pub mod Registers
use Prim.Native.String.{String}
use text.Mathlib.Text.{◌==◌ as str_eq}
use mlir_tv.Base.{
  ℕ, Bool, true, false, Option, none, some, List, [], ◌∷◌, ◌++◌, ◌==◌, if◌then◌else◌,
}
use mlir_tv.Smt.Terms.{Smt}
use mlir_tv.Smt.Logic.{mk_bool, and}

-- `std::map<std::string, smt::Expr>`: what an operation needs, by description.
abbrev pub UbMap : Type 0 → Type 0
UbMap T = List (String × T)

module _ ⦃S : Smt⦄ where
  open S use {Term}

  pub record State : Type 0 where
    pub precond : Term
    pub welldef : List (ℕ × UbMap Term)
    pub has_quantifier : Bool
    pub has_const_array : Bool

  -- `State::State`
  unfoldable pub init : State
  unfolding mk_bool
  init = record {
    precond = mk_bool true;
    welldef = [];
    has_quantifier = false;
    has_const_array = false;
  }

  pub add_precondition : Term → State → State
  add_precondition e s = record s { precond = and s.precond e }

  -- The inner map after `wellDefined`: a repeated description gets a conjunction.
  add_ub : String → Term → UbMap Term → UbMap Term
  add_ub d e [] = (d, e) ∷ []
  add_ub d e ((k, f) ∷ m) = if str_eq k d then (k, and f e) ∷ m else (k, f) ∷ add_ub d e m

  -- `welldef.find(val)`, or an empty entry, and then `add_ub` on it.
  add_welldef : ℕ → String → Term → List (ℕ × UbMap Term) → List (ℕ × UbMap Term)
  add_welldef op d e [] = (op, add_ub d e []) ∷ []
  add_welldef op d e ((k, m) ∷ w) =
      if k == op then (k, add_ub d e m) ∷ w else (k, m) ∷ add_welldef op d e w

  pub well_defined : ℕ → Term → String → State → State
  well_defined op e d s = record s { welldef = add_welldef op d e s.welldef }

  -- `e = e & itm.second` over one map.
  conj_ub : Term → UbMap Term → Term
  unfolding and
  conj_ub e [] = e
  conj_ub e ((d, f) ∷ m) = conj_ub (and e f) m

  conj_welldef : Term → List (ℕ × UbMap Term) → Term
  unfolding conj_ub
  conj_welldef e [] = e
  conj_welldef e ((op, m) ∷ w) = conj_welldef (conj_ub e m) w

  unfoldable pub is_well_defined : State → Term
  unfolding conj_welldef mk_bool
  is_well_defined s = conj_welldef (mk_bool true) s.welldef

  find_op : ℕ → List (ℕ × UbMap Term) → Option (UbMap Term)
  find_op op [] = none
  find_op op ((k, m) ∷ w) = if k == op then some m else find_op op w

  pub is_op_well_defined : ℕ → State → Term
  unfolding find_op
  is_op_well_defined op s = elim (find_op op s.welldef) [
    | none ↦ mk_bool true
    | some m ↦ conj_ub (mk_bool true) m
  ]

  pub get_op_well_definedness : ℕ → State → UbMap Term
  unfolding find_op
  get_op_well_definedness op s = elim (find_op op s.welldef) [ none ↦ [] | some m ↦ m ]
