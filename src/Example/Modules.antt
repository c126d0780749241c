-- ===== src/Example/Modules.antt =====
-- The theorems on whole modules at two modules of two functions, of which one pair is refuted.
use Prim.Native.String.{String}
use mlir_tv.Base.{ℕ, ◌≡◌, refl, Option, none, some, List, [], ◌∷◌, ◌==◌, if◌then◌else◌}
use mlir_tv.Validate.Results.{Code, success, ub}
use mlir_tv.Validate.Modules.{results, validate_modules}
use mlir_tv.Validate.Modules.Worst.{AllChecked, validate_modules-AllChecked}

-- A function is a number, which refines itself only.
abbrev check : ℕ → ℕ → Option Code
check f g = if f == g then some success else some ub

abbrev src_functions : List (String × ℕ)
src_functions = ("f", 1) ∷ ("g", 2) ∷ ("h", 4) ∷ []

abbrev tgt_functions : List (String × ℕ)
tgt_functions = ("f", 1) ∷ ("g", 3) ∷ []

refuted : validate_modules check none src_functions tgt_functions ≡ results ub
unfolding validate_modules
refuted = refl

validate_modules-AllChecked_example : AllChecked check none tgt_functions ub src_functions
validate_modules-AllChecked_example =
    validate_modules-AllChecked check none tgt_functions src_functions ub refuted
