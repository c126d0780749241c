-- ===== src/Validate/Modules/Worst.antt =====
-- What the result of `validate` of two modules (src/vcgen.cpp) says of their functions.
use Prim.Native.String.{String}
use native.Mathlib.Nat.{le_trans, le-max_left, le-max_right}
use mathlib.Core.Path.{subst}
use mlir_tv.Base.{
  ℕ, ◌≤◌, ◌≡◌, refl, ◌⊎◌, inl, inr, true, false, Option, none, some, List, [], ◌∷◌, arith,
  Option-cases, Bool-cases, sym, ap, ◌∙◌,
}
use mlir_tv.Validate.Results.{Code, success, code_value, merge, code_value-merge}
use mlir_tv.Validate.Modules.{
  find_name, Progress, results, merge_pair, is_selected, check_functions, validate_modules,
}

le_of_eq : {m n : ℕ} → m ≡ n → m ≤ n
le_of_eq e = omega arith

module _ {ℓ} {F : Type ℓ} (check : F → F → Option Code) (only : Option String)
    (tgts : List (String × F)) where
  -- Every selected function that the target has too was checked, with a code of at most `c`.
  abbrev pub AllChecked : Code → List (String × F) → Type ℓ
  AllChecked c [] = Unit
  AllChecked c ((n, f) ∷ srcs) =
      ((g : F)
        → is_selected check only n ≡ true
        → find_name n tgts ≡ some g
        → (d : Code) × (check f g ≡ some d) × (code_value d ≤ code_value c))
      × AllChecked c srcs

  run : List (String × F) → Progress → Progress
  run srcs p = check_functions check only srcs tgts p

  -- Progress only gets worse.
  merge_pair-worse :
      (f g : F) (p : Progress)
      → (merge_pair check f g p).has_unsupported ≡ false
      → (p.has_unsupported ≡ false)
        × (code_value p.result ≤ code_value (merge_pair check f g p).result)
        × ((d : Code) × (check f g ≡ some d)
            × (code_value d ≤ code_value (merge_pair check f g p).result))
  unfolding merge_pair
  merge_pair-worse f g p h = elim (Option-cases (check f g)) [
    | inl e ↦ absurd (ground arith)
    | inr (d, e) ↦
        let m = (code_value-merge p.result d).1 in
        let r : (merge_pair check f g p).result ≡ merge p.result d = rw (e, merge_pair) in
        let u : (merge_pair check f g p).has_unsupported ≡ p.has_unsupported = rw (e, merge_pair) in
        (
          sym u ∙ h,
          rw (r, m) (le-max_left (code_value p.result) (code_value d)),
          (d, e, rw (r, m) (le-max_right (code_value p.result) (code_value d))),
        )
  ]

  run-skipped :
      (n : String) (f : F) (srcs : List (String × F)) (p : Progress)
      → (is_selected check only n ≡ false) ⊎ (find_name n tgts ≡ none)
      → run ((n, f) ∷ srcs) p ≡ run srcs p
  unfolding run check_functions
  run-skipped n f srcs p (inl e) = rw (e, check_functions)
  run-skipped n f srcs p (inr e) = elim (Bool-cases (is_selected check only n)) [
    | inl g ↦ rw (g, e, check_functions)
    | inr g ↦ rw (g, check_functions)
  ]

  run-checked :
      (n : String) (f g : F) (srcs : List (String × F)) (p : Progress)
      → is_selected check only n ≡ true
      → find_name n tgts ≡ some g
      → run ((n, f) ∷ srcs) p ≡ run srcs (merge_pair check f g p)
  unfolding run check_functions
  run-checked n f g srcs p e h = rw (e, h, check_functions)

  -- What holds from `p` on to the end `q` of a run without an unsupported function.
  abbrev Checked : List (String × F) → Progress → Progress → Type ℓ
  Checked srcs p q =
      (p.has_unsupported ≡ false)
      × (code_value p.result ≤ code_value q.result)
      × AllChecked q.result srcs

  Checked-skip :
      (n : String) (f : F) (srcs : List (String × F)) (p q : Progress)
      → (is_selected check only n ≡ false) ⊎ (find_name n tgts ≡ none)
      → Checked srcs p q
      → Checked ((n, f) ∷ srcs) p q
  Checked-skip n f srcs p q reason (u, le, all) =
      (u, le, (λ g s t. absurd (vacuous g s t reason), all))
    where
      vacuous :
          (g : F)
          → is_selected check only n ≡ true
          → find_name n tgts ≡ some g
          → (is_selected check only n ≡ false) ⊎ (find_name n tgts ≡ none)
          → ⊥
      vacuous g s t (inl e) = ground arith
      vacuous g s t (inr e) = ground arith

  Checked-merge_pair :
      (n : String) (f g : F) (srcs : List (String × F)) (p q : Progress)
      → find_name n tgts ≡ some g
      → Checked srcs (merge_pair check f g p) q
      → Checked ((n, f) ∷ srcs) p q
  Checked-merge_pair n f g srcs p q k (u, le, all) =
      let (u', le', (d, c, x)) = merge_pair-worse f g p u in
      (
        u',
        le_trans le' le,
        ((λ g' s t. (d, ap (check f) (same_target g' t) ∙ c, le_trans x le)), all),
      )
    where
      same_target : (g' : F) → find_name n tgts ≡ some g' → g' ≡ g
      same_target g' t = ground arith

  run-AllChecked :
      (srcs : List (String × F)) (p q : Progress)
      → run srcs p ≡ q
      → q.has_unsupported ≡ false
      → Checked srcs p q
  unfolding run check_functions
  run-AllChecked [] p q e h =
      (ap (λ r. r.has_unsupported) e ∙ h, le_of_eq (ap (λ r. code_value r.result) e), tt)
  run-AllChecked ((n, f) ∷ srcs) p q r h = elim (Bool-cases (is_selected check only n)) [
    | inr e ↦
        Checked-skip n f srcs p q (inl e)
          (run-AllChecked srcs p q (sym (run-skipped n f srcs p (inl e)) ∙ r) h)
    | inl e ↦ elim (Option-cases (find_name n tgts)) [
      | inl k ↦
          Checked-skip n f srcs p q (inr k)
            (run-AllChecked srcs p q (sym (run-skipped n f srcs p (inr k)) ∙ r) h)
      | inr (g, k) ↦ Checked-merge_pair n f g srcs p q k (
          run-AllChecked srcs (merge_pair check f g p) q (sym (run-checked n f g srcs p e k) ∙ r) h)
    ]
  ]

  -- A result `c` of the validation of two modules is at least as bad as the code of every function
  -- that was selected and that both modules have; each of these was checked.
  pub validate_modules-AllChecked :
      (srcs : List (String × F)) (c : Code)
      → validate_modules check only srcs tgts ≡ results c
      → AllChecked c srcs
  unfolding validate_modules
  validate_modules-AllChecked srcs c h =
      let p : Progress = record { result = success; has_unsupported = false } in
      elim (Bool-cases (run srcs p).has_unsupported) [
        | inl e ↦ absurd (unfold run in ground arith)
        | inr e ↦
            let r : (run srcs p).result ≡ c = unfold run in ground arith in
            let (_, _, all) = run-AllChecked srcs p (run srcs p) refl e in
            subst (λ c. AllChecked c srcs) r all
      ]
