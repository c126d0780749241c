-- ===== src/Validate/Loop/Reach.antt =====
-- The loop over abstractions of src/vcgen.cpp gets as far as it can.
use mlir_tv.Base.{ℕ, ◌≡◌, inl, inr, Bool, true, false, [], arith, sym, ◌∙◌, ap}
use mlir_tv.Validate.Loop.{
  sum_mul, precise, is_default, Abstraction, UsedAbstractOps, next_abstractions, verdict, is_final,
  Round, validate,
}
use mlir_tv.Validate.Loop.Laws.{validate-IsVerdict}

-- Every abstract operation was used.
abbrev pub all_used : UsedAbstractOps
all_used = record {
  used_fp_dot = true;
  used_fp_sum = true;
  used_fp_cast_round = true;
  used_int_dot = true;
  used_int_sum = true;
}

-- Nothing is abstract any more.
pub record IsConcrete (a : Abstraction) : Type 0 where
  pub fp_dot_concrete : a.fp_dot ≡ sum_mul
  pub fp_cast_concrete : a.fp_cast ≡ precise
  pub int_dot_concrete : a.int_dot ≡ sum_mul
  pub sum_concrete : is_default a.fp_add_sum_encoding ≡ false

next_abstractions-IsConcrete :
    (assoc : Bool) (a : Abstraction) → next_abstractions assoc all_used a ≡ [] → IsConcrete a
unfolding next_abstractions
next_abstractions-IsConcrete assoc a h = record {
  fp_dot_concrete = ground arith;
  fp_cast_concrete = ground arith;
  int_dot_concrete = ground arith;
  sum_concrete = ground arith;
}

-- Where every round uses all abstract operations and every round that leaves nothing abstract ends
-- with a final code, the validation ends with a final code: it gets to such a round, or ends before.
pub validate-final :
    (assoc : Bool) (round : Round)
    → ((itr : ℕ) (a : Abstraction) → (round itr a).1 ≡ all_used)
    → ((itr : ℕ) (a : Abstraction) → IsConcrete a → is_final (round itr a).0 ≡ true)
    → (itr : ℕ) × (a : Abstraction) × (validate assoc round ≡ verdict (round itr a).0)
      × (is_final (round itr a).0 ≡ true)
validate-final assoc round used last =
    let e = validate-IsVerdict assoc round in
    let a = e.abstraction in
    (
      e.itr,
      a,
      e.verdict_eq,
      elim e.ended [
        | inl f ↦ f
        | inr n ↦ last e.itr a (
            next_abstractions-IsConcrete assoc a
              (ap (λ u. next_abstractions assoc u a) (sym (used e.itr a)) ∙ n))
      ],
    )
