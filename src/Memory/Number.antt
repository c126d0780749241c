-- ===== src/Memory/Number.antt =====
-- src/memory.cpp: the numbers of blocks for each element type, and the bits that a block's number
-- takes.
use mlir_tv.Base.{
  ℕ, zero, suc, ◌+◌, ◌%◌, ◌^◌, max, Option, none, some, List, [], ◌∷◌, if◌then◌else◌, leb, ◌==◌,
}

-- `(unsigned int) ceil(log2(n))`: the least `k` with `n <= 2 ^ k`.
unfoldable pub ulog2_from : ℕ → ℕ → ℕ → ℕ
ulog2_from zero n k = k
ulog2_from (suc left) n k =
    let rest = ulog2_from left n (k + 1) in if leb n (2 ^ k) then k else rest

-- `ulog2` of an `unsigned int`, which cuts a `size_t` to its low 32 bits; it is 1 at 1.
unfoldable pub ulog2 : ℕ → ℕ
unfolding ulog2_from
ulog2 n =
    let num_blocks = n % 2 ^ 32 in
    if num_blocks == 0 then 0 else ulog2_from (max num_blocks 2) (max num_blocks 2) 0

-- A `TypeMap<size_t>`.
abbrev pub Counts : Type 0
Counts = List (ℕ × ℕ)

unfoldable pub count_of : ℕ → Counts → Option ℕ
count_of ty [] = none
count_of ty ((t, n) ∷ m) = if t == ty then some n else count_of ty m

unfoldable pub or_zero : Option ℕ → ℕ
or_zero none = 0
or_zero (some n) = n

-- The two loops of `calcBidBW`.
unfoldable pub global_bw : Counts → Counts → ℕ → ℕ
unfolding ulog2 count_of or_zero
global_bw [] locals bw = bw
global_bw ((ty, n) ∷ m) locals bw =
    global_bw m locals (max bw (ulog2 (n + or_zero (count_of ty locals))))

unfoldable pub local_bw : Counts → ℕ → ℕ
unfolding ulog2
local_bw [] bw = bw
local_bw ((ty, n) ∷ m) bw = local_bw m (max bw (ulog2 n))

unfoldable pub calc_bid_bw : Counts → Counts → ℕ
unfolding global_bw local_bw
calc_bid_bw globals locals = local_bw locals (global_bw globals locals 0)
