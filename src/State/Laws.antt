-- ===== src/State/Laws.antt =====
-- What `wellDefined`, `isWellDefined` and `isOpWellDefined` of src/state.cpp mean together.
use Prim.Native.String.{String}
use text.Mathlib.Text.{◌==◌ as str_eq}
use mlir_tv.Base.{
  ℕ, ◌≡◌, Bool, true, ◌&&◌, List, [], ◌∷◌, ◌==◌, if◌then◌else◌, arith, Bool-cases, inl, inr, Option,
  none, some, Option-cases,
}
use mlir_tv.Smt.Terms.{Smt, IsSmt}
use mlir_tv.Smt.Logic.{mk_bool, and, truth-mk_bool, truth-and}
use mlir_tv.State.{
  State, UbMap, add_ub, add_welldef, well_defined, conj_ub, conj_welldef, is_well_defined, find_op,
  is_op_well_defined,
}

module _ ⦃S : Smt⦄ (L : IsSmt S) (v : S.Valuation) where
  open S use {Term, truth}

  -- The conjunction of one map.
  abbrev truth_all : UbMap Term → Bool
  truth_all [] = true
  truth_all ((d, f) ∷ m) = truth v f && truth_all m

  abbrev truth_welldef : List (ℕ × UbMap Term) → Bool
  truth_welldef [] = true
  truth_welldef ((op, m) ∷ w) = truth_all m && truth_welldef w

  abbrev truth_found : Option (UbMap Term) → Bool
  truth_found none = true
  truth_found (some m) = truth_all m

  truth-conj_ub : (e : Term) (m : UbMap Term) → truth v (conj_ub e m) ≡ (truth v e && truth_all m)
  unfolding conj_ub
  truth-conj_ub e [] = ground arith
  truth-conj_ub e ((d, f) ∷ m) = ground (arith, truth-conj_ub (and e f) m, truth-and L v e f)

  truth-conj_welldef :
      (e : Term) (w : List (ℕ × UbMap Term))
      → truth v (conj_welldef e w) ≡ (truth v e && truth_welldef w)
  unfolding conj_welldef
  truth-conj_welldef e [] = ground arith
  truth-conj_welldef e ((op, m) ∷ w) =
      ground (arith, truth-conj_welldef (conj_ub e m) w, truth-conj_ub e m)

  truth_all-add_ub :
      (d : String) (e : Term) (m : UbMap Term)
      → truth_all (add_ub d e m) ≡ (truth_all m && truth v e)
  unfolding add_ub
  truth_all-add_ub d e [] = ground arith
  truth_all-add_ub d e ((k, f) ∷ m) = elim (Bool-cases (str_eq k d)) [
    | inl h ↦ ground (arith, truth-and L v f e)
    | inr h ↦ ground (arith, truth_all-add_ub d e m)
  ]

  truth_welldef-add_welldef :
      (op : ℕ) (d : String) (e : Term) (w : List (ℕ × UbMap Term))
      → truth_welldef (add_welldef op d e w) ≡ (truth_welldef w && truth v e)
  unfolding add_welldef
  truth_welldef-add_welldef op d e [] = ground (arith, truth_all-add_ub d e [])
  truth_welldef-add_welldef op d e ((k, m) ∷ w) =
      ground (arith, truth_all-add_ub d e m, truth_welldef-add_welldef op d e w)

  truth_found-add_welldef :
      (op j : ℕ) (d : String) (e : Term) (w : List (ℕ × UbMap Term))
      → truth_found (find_op j (add_welldef op d e w))
        ≡ (if j == op then truth_found (find_op j w) && truth v e else truth_found (find_op j w))
  unfolding add_welldef find_op
  truth_found-add_welldef op j d e [] = ground (arith, truth_all-add_ub d e [])
  truth_found-add_welldef op j d e ((k, m) ∷ w) =
      ground (arith, truth_all-add_ub d e m, truth_found-add_welldef op j d e w)

  truth-is_well_defined : (s : State) → truth v (is_well_defined s) ≡ truth_welldef s.welldef
  unfolding is_well_defined
  truth-is_well_defined s =
      ground (arith, truth-conj_welldef (mk_bool true) s.welldef, truth-mk_bool L v true)

  truth-is_op_well_defined :
      (op : ℕ) (s : State) → truth v (is_op_well_defined op s) ≡ truth_found (find_op op s.welldef)
  unfolding is_op_well_defined
  truth-is_op_well_defined op s = elim (Option-cases (find_op op s.welldef)) [
    | inl e ↦ rw (e, is_op_well_defined) (truth-mk_bool L v true)
    | inr (m, e) ↦
        rw (e, is_op_well_defined)
          (ground (arith, truth-conj_ub (mk_bool true) m, truth-mk_bool L v true))
  ]

  -- After `wellDefined(op, e, d)` the function is well defined exactly where it was and `e` holds;
  -- so is operation `op`, and every other operation `j` is well defined where it was.
  is_well_defined-well_defined :
      (op j : ℕ) (e : Term) (d : String) (s : State)
      → let t = well_defined op e d s in
        (truth v (is_well_defined t) ≡ (truth v (is_well_defined s) && truth v e))
        × (truth v (is_op_well_defined j t) ≡ (
            if j == op
            then truth v (is_op_well_defined j s) && truth v e
            else truth v (is_op_well_defined j s)))
  unfolding well_defined
  is_well_defined-well_defined op j e d s =
      let t = well_defined op e d s in
      (
        rw (truth-is_well_defined t, truth-is_well_defined s)
            (truth_welldef-add_welldef op d e s.welldef),
        rw (truth-is_op_well_defined j t, truth-is_op_well_defined j s)
            (truth_found-add_welldef op j d e s.welldef),
      )
