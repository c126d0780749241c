-- ===== src/Validate/Modules.antt =====
-- src/vcgen.cpp: `validate` of two modules, and `mergeGlobals`. A module is the list of its defined
-- functions by name, in the order of the map; types and initial values are numbers. Validation of one
-- pair, with its analysis and its globals, is a parameter, which is `none` where it throws
-- `UnsupportedException`. Counting blocks and floats before it, and printing, are not modelled.
pub mod Worst
use Prim.Native.String.{String}
use text.Mathlib.Text.{◌==◌ as str_eq}
use mlir_tv.Base.{
  ℕ, Bool, true, false, ◌&&◌, ◌||◌, Option, none, some, List, [], ◌∷◌, ◌==◌, if◌then◌else◌,
}
use mlir_tv.Validate.Results.{Code, success, merge}

-- What `mergeGlobals` reads of a `memref.global`.
pub record Global : Type 0 where
  pub ty : ℕ
  -- `getType().hasStaticShape()`
  pub has_static_shape : Bool
  pub is_private : Bool
  pub constant : Bool
  pub initial_value : ℕ

module _ {ℓ} {A : Type ℓ} where
  -- `std::map::find`
  unfoldable pub find_name : String → List (String × A) → Option A
  find_name n [] = none
  find_name n ((k, x) ∷ m) = if str_eq k n then some x else find_name n m

unfoldable same_bool : Bool → Bool → Bool
same_bool true b = b
same_bool false true = false
same_bool false false = true

unfoldable same_signature : Global → Global → Bool
unfolding same_bool
same_signature a b =
    a.ty == b.ty
    && same_bool a.is_private b.is_private
    && same_bool a.constant b.constant
    && a.initial_value == b.initial_value

unfoldable cons_some {ℓ} : {A : Type ℓ} → A → Option (List A) → Option (List A)
cons_some x none = none
cons_some x (some xs) = some (x ∷ xs)

-- The second loop: the globals that only the target has.
unfoldable merge_new :
    List (String × Global) → List (String × Global) → Option (List (String × Global))
unfolding find_name cons_some
merge_new srcs [] = some []
merge_new srcs ((n, g) ∷ tgts) = elim (find_name n srcs) [
  | some h ↦ merge_new srcs tgts
  | none ↦ if g.constant then cons_some (n, g) (merge_new srcs tgts) else none
]

-- The first loop, and then the second with the source's globals `all`. A global of both modules whose
-- signatures differ (`UnsupportedException`) or whose shape is not static (a failed assertion) is `none`.
unfoldable merge_from :
    List (String × Global)
    → List (String × Global)
    → List (String × Global)
    → Option (List (String × Global))
unfolding merge_new find_name cons_some same_signature
merge_from all [] tgts = merge_new all tgts
merge_from all ((n, g) ∷ srcs) tgts = elim (find_name n tgts) [
  | none ↦ cons_some (n, g) (merge_from all srcs tgts)
  | some h ↦
      if same_signature g h && g.has_static_shape
      then cons_some (n, g) (merge_from all srcs tgts)
      else none
]

-- `mergeGlobals`
unfoldable pub merge_globals :
    List (String × Global) → List (String × Global) → Option (List (String × Global))
unfolding merge_from
merge_globals srcs tgts = merge_from srcs srcs tgts

-- The loop's result so far, and `hasUnsupported`.
pub record Progress : Type 0 where
  pub result : Code
  pub has_unsupported : Bool

-- `exit(UNSUPPORTED_EXIT_CODE)`, or the result.
pub data ModuleResult : Type 0 where
  exit_unsupported : ModuleResult
  results : Code → ModuleResult

module _ {ℓ} {F : Type ℓ} (check : F → F → Option Code) where
  -- One pair of functions.
  unfoldable pub merge_pair : F → F → Progress → Progress
  unfolding merge
  merge_pair f g p = elim (check f g) [
    | none ↦ record p { has_unsupported = true }
    | some c ↦ record p { result = merge p.result c }
  ]

  -- `is_check_single_fn` and the name it asks for.
  unfoldable pub is_selected : Option String → String → Bool
  is_selected none n = true
  is_selected (some k) n = str_eq n k

  unfoldable pub check_functions :
      Option String → List (String × F) → List (String × F) → Progress → Progress
  unfolding merge_pair is_selected find_name
  check_functions only [] tgts p = p
  check_functions only ((n, f) ∷ srcs) tgts p =
      let skipped = check_functions only srcs tgts p in
      if is_selected only n
      then elim (find_name n tgts) [
        | none ↦ skipped
        | some g ↦ check_functions only srcs tgts (merge_pair f g p)
      ]
      else skipped

  unfoldable pub validate_modules :
      Option String → List (String × F) → List (String × F) → ModuleResult
  unfolding check_functions
  validate_modules only srcs tgts =
      let p =
        check_functions only srcs tgts (record { result = success; has_unsupported = false }) in
      if p.has_unsupported then exit_unsupported else results p.result
