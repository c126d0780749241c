-- ===== src/Validate/Loop/Laws.antt =====
-- How the loop over abstractions of src/vcgen.cpp ends.
use mathlib.Core.Path.{subst}
use mlir_tv.Base.{
  sym, ℕ, zero, suc, ◌+◌, ◌≤◌, ◌<◌, ◌≡◌, refl, ◌⊎◌, inl, inr, Bool, true, false, List, [], ◌∷◌,
  arith, Bool-cases, All,
}
use mlir_tv.Validate.Results.{Code, timeout}
use mlir_tv.Validate.Loop.{
  DotLevel, fully_abs_dot, sum_mul, CastLevel, fully_abs_cast, precise, AddSumEncoding, default,
  Abstraction, UsedAbstractOps, initial, next_abstractions, can_set_abstraction, Outcome, verdict,
  is_final, Round, loop, validate,
}

-- How far an abstraction is from the most concrete one.
abbrev dot_rank : DotLevel → ℕ
dot_rank fully_abs_dot = 1
dot_rank sum_mul = 0

abbrev cast_rank : CastLevel → ℕ
cast_rank fully_abs_cast = 1
cast_rank precise = 0

abbrev add_sum_rank : AddSumEncoding → ℕ
add_sum_rank default = 1
add_sum_rank _ = 0

abbrev rank : Abstraction → ℕ
rank a =
    dot_rank a.fp_dot
    + cast_rank a.fp_cast
    + dot_rank a.int_dot
    + add_sum_rank a.fp_add_sum_encoding

abbrev IsBelow : Abstraction → List Abstraction → Type 0
IsBelow a [] = Unit
IsBelow a (b ∷ bs) = (rank b < rank a) × (bs ≡ [])

next_abstractions-IsBelow :
    (assoc : Bool) (used : UsedAbstractOps) (a : Abstraction)
    → IsBelow a (next_abstractions assoc used a)
unfolding next_abstractions
next_abstractions-IsBelow assoc used a = ground arith

abbrev AllCanSet : Bool → List Abstraction → Type 0
AllCanSet assoc = All λ a. can_set_abstraction assoc a ≡ true

next_abstractions-AllCanSet :
    (assoc : Bool) (used : UsedAbstractOps) (a : Abstraction)
    → can_set_abstraction assoc a ≡ true
    → AllCanSet assoc (next_abstractions assoc used a)
unfolding next_abstractions can_set_abstraction
next_abstractions-AllCanSet assoc used a h = ground arith

-- A round, at an abstraction that is allowed, whose code is the loop's verdict, and after which
-- the loop had no reason to go on: the code was final, or no more concrete abstraction was left.
pub record IsVerdict (assoc : Bool) (round : Round) (o : Outcome) : Type 0 where
  pub itr : ℕ
  pub abstraction : Abstraction
  pub allowed : can_set_abstraction assoc abstraction ≡ true
  pub verdict_eq : o ≡ verdict (round itr abstraction).0
  pub ended :
      (is_final (round itr abstraction).0 ≡ true)
      ⊎ (next_abstractions assoc (round itr abstraction).1 abstraction ≡ [])

module _ (assoc : Bool) (round : Round) where
  loop_empty :
      (fuel itr : ℕ) (code : Code) → 0 < fuel → loop assoc round fuel [] code itr ≡ verdict code
  unfolding loop
  loop_empty zero itr code h = absurd (omega arith)
  loop_empty (suc fuel) itr code h = refl

  loop_final :
      (fuel itr : ℕ) (a : Abstraction) (code : Code)
      → can_set_abstraction assoc a ≡ true
      → is_final (round itr a).0 ≡ true
      → loop assoc round (suc fuel) (a ∷ []) code itr ≡ verdict (round itr a).0
  unfolding loop
  loop_final fuel itr a code h k = ground arith

  loop_more :
      (fuel itr : ℕ) (a : Abstraction) (code : Code)
      → can_set_abstraction assoc a ≡ true
      → is_final (round itr a).0 ≡ false
      → loop assoc round (suc fuel) (a ∷ []) code itr
        ≡ loop assoc round fuel
            (next_abstractions assoc (round itr a).1 a)
            (round itr a).0
            (suc itr)
  unfolding loop
  loop_more fuel itr a code h k = ground arith

  -- Rounds numbered from `itr`; the fuel exceeds the rank of the abstraction by two.
  loop-IsVerdict :
      (fuel itr : ℕ) (a : Abstraction) (code : Code)
      → rank a + 2 ≤ fuel
      → can_set_abstraction assoc a ≡ true
      → IsVerdict assoc round (loop assoc round fuel (a ∷ []) code itr)
  loop-IsVerdict zero itr a code f h = absurd (omega arith)
  loop-IsVerdict (suc fuel) itr a code f h = elim (Bool-cases (is_final (round itr a).0)) [
    | inl k ↦ record {
      itr = itr;
      abstraction = a;
      allowed = h;
      verdict_eq = loop_final fuel itr a code h k;
      ended = inl k;
    }
    | inr k ↦ rw (loop_more fuel itr a code h k) (
        go (next_abstractions assoc (round itr a).1 a) refl
          (next_abstractions-IsBelow assoc (round itr a).1 a)
          (next_abstractions-AllCanSet assoc (round itr a).1 a h)
          λ b p q. loop-IsVerdict fuel (suc itr) b (round itr a).0 (omega arith) q)
  ]
    where
      go :
          (bs : List Abstraction)
          → next_abstractions assoc (round itr a).1 a ≡ bs
          → IsBelow a bs
          → AllCanSet assoc bs
          → ((b : Abstraction)
              → rank b < rank a
              → can_set_abstraction assoc b ≡ true
              → IsVerdict assoc round (loop assoc round fuel (b ∷ []) (round itr a).0 (suc itr)))
          → IsVerdict assoc round (loop assoc round fuel bs (round itr a).0 (suc itr))
      go [] e p q ih = record {
        itr = itr;
        abstraction = a;
        allowed = h;
        verdict_eq = loop_empty fuel (suc itr) (round itr a).0 (omega arith);
        ended = inr e;
      }
      go (b ∷ bs) e p q ih =
          subst
            (λ l. IsVerdict assoc round (loop assoc round fuel (b ∷ l) (round itr a).0 (suc itr)))
            (sym p.1) (ih b p.0 q.0)

  -- The validation ends with the code of one of its rounds: a final code (success, inconsistent), or
  -- that of a round after which no more concrete abstraction is left. The assertion of
  -- `setAbstraction` holds in that round.
  pub validate-IsVerdict : IsVerdict assoc round (validate assoc round)
  unfolding validate initial can_set_abstraction
  validate-IsVerdict = loop-IsVerdict 6 0 (initial assoc) timeout (ground arith) (ground arith)
