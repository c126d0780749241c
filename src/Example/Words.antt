-- ===== src/Example/Words.antt =====
-- The theorems on operators and indices at concrete terms: a sum that is a quotient and a remainder,
-- and an array of two times three elements.
use mlir_tv.Base.{◌≡◌, refl, some, List, [], ◌∷◌, map, arith}
use mlir_tv.Example.Solver.{Tm, Values, num, var, bin, urems, udivs, muls, bits_of, solver}
use mlir_tv.Example.Solver.Laws.{solver-IsSmt}
use mlir_tv.Smt.Words.{add, sub, mul}
use mlir_tv.Smt.Words.Width.{operators-bits}
use mlir_tv.Smt.Index.{from_1d_idx, to_1d_idx}
use mlir_tv.Smt.Index.Meaning.{to_1d_idx-from_1d_idx, from_1d_idx-to_1d_idx}

abbrev five : Values
five x = 5

abbrev byte : Tm
byte = var 0 8

-- `((byte / 3) * 3) + (byte % 3)`, whose divisor is the constant 3.
abbrev quotient : Tm
quotient = bin muls (bin udivs byte (num 3 8)) (num 3 8)

abbrev rest : Tm
rest = bin urems byte (num 3 8)

operators-bits_example :
    (bits_of five (add quotient rest) ≡ 5)
    × (bits_of five (sub quotient rest) ≡ 1)
    × (bits_of five (mul quotient rest) ≡ 6)
operators-bits_example = operators-bits solver-IsSmt five quotient rest refl (omega arith)

abbrev index : Tm
index = var 1 32

abbrev sizes : List Tm
sizes = num 2 32 ∷ num 3 32 ∷ []

to_1d_idx-from_1d_idx_example :
    (is : List Tm) × (t : Tm) × (from_1d_idx index sizes ≡ some is)
    × (to_1d_idx 32 is sizes ≡ some t)
    × (bits_of five t ≡ 5)
to_1d_idx-from_1d_idx_example =
    to_1d_idx-from_1d_idx solver-IsSmt five 32 (omega arith) index (num 2 32) (num 3 32 ∷ []) refl
      (refl, (refl, tt))

abbrev position : List Tm
position = num 1 32 ∷ num 2 32 ∷ []

from_1d_idx-to_1d_idx_example :
    (t : Tm) × (js : List Tm) × (to_1d_idx 32 position sizes ≡ some t)
    × (from_1d_idx t sizes ≡ some js)
    × (map (bits_of five) js ≡ 1 ∷ 2 ∷ [])
from_1d_idx-to_1d_idx_example =
    from_1d_idx-to_1d_idx solver-IsSmt five 32 (omega arith) position (num 2 32) (num 3 32 ∷ [])
      (refl, (refl, tt)) (refl, (refl, tt)) (omega arith, (omega arith, tt)) (omega arith)
