-- ===== src/Memory/Width.antt =====
-- `calcBidBW` of src/memory.cpp against the numbers of blocks of each element type.
use native.Mathlib.Nat.{
  mod-eq_of_lt, le_trans, pow-le-pow_right, le-max_left, le-max_right, pow-suc,
}
use mlir_tv.Base.{
  ℕ, zero, suc, ◌+◌, ◌%◌, ◌^◌, ◌≤◌, ◌<◌, ◌≡◌, max, inl, inr, some, [], ◌∷◌, leb, ◌==◌, ==_iff,
  arith, Bool-cases,
}
use mlir_tv.Memory.Number.{
  ulog2_from, ulog2, Counts, count_of, or_zero, global_bw, local_bw, calc_bid_bw,
}

lt-pow : (n : ℕ) → n < 2 ^ n
lt-pow zero = omega arith
lt-pow (suc n) = omega (arith, lt-pow n, pow-suc 2 n)

ulog2_from_lem : (left n k : ℕ) → n ≤ left + k → n ≤ 2 ^ ulog2_from left n k
unfolding ulog2_from
ulog2_from_lem zero n k h = omega (arith, lt-pow k)
ulog2_from_lem (suc left) n k h = elim (Bool-cases (leb n (2 ^ k))) [
  | inl e ↦ rw (e, ulog2_from) (ground arith)
  | inr e ↦ rw (e, ulog2_from) (ulog2_from_lem left n (k + 1) (omega arith))
]

ulog2_lem : (n : ℕ) → n < 2 ^ 32 → n ≤ 2 ^ ulog2 n
unfolding ulog2
ulog2_lem n lt =
    let e : n % 2 ^ 32 ≡ n = mod-eq_of_lt lt in
    elim (Bool-cases (n == 0)) [
      | inl z ↦ omega (arith, (==_iff n 0).0 z)
      | inr z ↦
          rw (ulog2, e, z)
            (le_trans (le-max_left n 2) (ulog2_from_lem (max n 2) (max n 2) 0 (omega arith)))
    ]

wider : (n a b : ℕ) → a ≤ b → n ≤ 2 ^ a → n ≤ 2 ^ b
wider n a b h p = le_trans p (pow-le-pow_right {n = 2} (omega arith) h)

global_bw-le : (globals locals : Counts) (bw : ℕ) → bw ≤ global_bw globals locals bw
unfolding global_bw
global_bw-le [] locals bw = omega arith
global_bw-le ((ty, n) ∷ m) locals bw =
    le_trans (le-max_left bw _)
      (global_bw-le m locals (max bw (ulog2 (n + or_zero (count_of ty locals)))))

local_bw-le : (locals : Counts) (bw : ℕ) → bw ≤ local_bw locals bw
unfolding local_bw
local_bw-le [] bw = omega arith
local_bw-le ((ty, n) ∷ m) bw = le_trans (le-max_left bw _) (local_bw-le m (max bw (ulog2 n)))

global_bw_lem :
    (globals locals : Counts) (bw ty g : ℕ)
    → count_of ty globals ≡ some g
    → g + or_zero (count_of ty locals) < 2 ^ 32
    → g + or_zero (count_of ty locals) ≤ 2 ^ global_bw globals locals bw
unfolding global_bw count_of
global_bw_lem [] locals bw ty g h lt = absurd (ground arith)
global_bw_lem ((t, n) ∷ m) locals bw ty g h lt = elim (Bool-cases (t == ty)) [
  | inl e ↦
      let g_eq : n ≡ g = ground arith in
      let t_eq : t ≡ ty = (==_iff t ty).0 e in
      rw (← g_eq, ← t_eq)
        (wider _ _ _
          (le_trans (le-max_right bw _)
            (global_bw-le m locals (max bw (ulog2 (n + or_zero (count_of t locals))))))
          (ulog2_lem (n + or_zero (count_of t locals)) (rw (g_eq, t_eq) lt)))
  | inr e ↦
      global_bw_lem m locals (max bw (ulog2 (n + or_zero (count_of t locals)))) ty g (ground arith)
        lt
]

-- With `calcBidBW` bits every block of an element type has a number: the global ones, of which
-- there are `g`, and as many local ones as the type may have, where these are fewer than 2 ^ 32
-- together, for `ulog2` takes an `unsigned int`.
pub calc_bid_bw-enough :
    (globals locals : Counts) (ty g : ℕ)
    → count_of ty globals ≡ some g
    → g + or_zero (count_of ty locals) < 2 ^ 32
    → g + or_zero (count_of ty locals) ≤ 2 ^ calc_bid_bw globals locals
unfolding calc_bid_bw
calc_bid_bw-enough globals locals ty g h lt =
    wider _ _ _ (local_bw-le locals (global_bw globals locals 0))
      (global_bw_lem globals locals 0 ty g h lt)
