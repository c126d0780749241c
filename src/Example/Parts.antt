-- ===== src/Example/Parts.antt =====
-- `extract` with a matcher that does not count, at a byte between two other bytes: a solver whose
-- concatenations are taken apart as flat ones.
use mlir_tv.Base.{◌+◌, ◌%◌, ◌^◌, ◌≡◌, refl, false, Option, some, List, [], ◌∷◌, arith}
use mlir_tv.Smt.Terms.{Kind, concat_kind, Smt}
use mlir_tv.Smt.Arith.{extract}
use mlir_tv.Smt.Arith.Flattened.{extract-flattened}
use mlir_tv.Example.Solver.{Tm, var, bin, concats, Values, bits_of, head?, solver}

abbrev flat_head? : Tm → Option (Kind × List Tm)
flat_head? (bin concats (bin concats a b) c) = some (concat_kind, a ∷ b ∷ c ∷ [])
flat_head? t = head? t

abbrev flat : Smt
flat = record solver { counts_args = false; app? = flat_head? }

-- Each variable is its own number plus 5.
abbrev from_five : Values
from_five x = x + 5

abbrev three_bytes : Tm
three_bytes = bin concats (bin concats (var 0 8) (var 1 8)) (var 2 8)

extract-flattened_example :
    (extract ⦃S = flat⦄ 7 0 three_bytes ≡ var 1 8) × (bits_of from_five three_bytes % 2 ^ 8 ≡ 7)
extract-flattened_example =
    extract-flattened ⦃S = flat⦄ from_five three_bytes (var 0 8) (var 1 8) (var 2 8) refl refl refl
      (omega arith) refl refl (omega arith)
