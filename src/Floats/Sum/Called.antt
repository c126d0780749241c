-- ===== src/Floats/Sum/Called.antt =====
-- `AbsFpEncoding::add` of src/abstractops.cpp as it is called, with the state that it changes.
use mlir_tv.Base.{suc, ◌^◌, ◌≡◌, ◌≢◌, true, refl, ap, ◌∙◌, some, List}
use mlir_tv.Smt.Terms.{Smt, IsSmt}
use mlir_tv.Smt.Compare.Under.{HasDivisors}
use mlir_tv.Floats.{Fpa, FpEncoding, value_bitwidth, get_magnitude_bits, canonical}
use mlir_tv.Floats.Arith.{add_terms, plain_sum}
use mlir_tv.Floats.Arrays.{ArrayOptions, ArrayState, add_fp}
use mlir_tv.Floats.Bits.{IsAbstract, IsFp, magnitude}
use mlir_tv.Floats.Ieee.{decode, ieee_add}
use mlir_tv.Floats.Sum.{add_lem}
use mlir_tv.Validate.Loop.{AddSumEncoding, use_sum_only, default, unroll_to_add}

not_summed {ℓ} :
    {A : Type ℓ} (e : AddSumEncoding) (s x : A)
    → e ≢ use_sum_only
    → elim e [ use_sum_only ↦ s | default ↦ x | unroll_to_add ↦ x ] ≡ x
not_summed use_sum_only s x n = absurd (n refl)
not_summed default s x n = refl
not_summed unroll_to_add s x n = refl

module _ ⦃S : Smt⦄ ⦃P : Fpa⦄ where
  open S use {Term, bits}

  -- The state after an `add` that is no sum.
  abbrev pub added : ArrayState → ArrayState
  added st = record st { arith_state = record st.arith_state { used_fp_add = true } }

  add_fp-plain :
      (idx : Term) (mk_bag : List Term → Term) (o : ArrayOptions) (E : FpEncoding) (st : ArrayState)
      (f g : Term)
      → o.fp_add_sum_encoding ≢ use_sum_only
      → add_fp idx mk_bag o E st f g ≡ some (add_terms o.has_arith_properties E f g, added st)
  unfolding add_fp
  add_fp-plain idx mk_bag o E st f g n = not_summed o.fp_add_sum_encoding _ _ n

  -- `add` with its arithmetic properties, where the abstraction does not make it a sum, of two numbers
  -- of an abstract encoding whose magnitudes have 2 to 63 bits: it succeeds and notes that it was used,
  -- and in its result NaN and the infinities are as IEEE 754 has them, -0.0 is neutral, a sum of numbers
  -- of one sign has that sign, x + -x is 0.0, and one of other opposite signs has the sign of the larger
  -- magnitude. Where these leave the magnitude open, also where an operand is 0.0, it is what the
  -- uninterpreted function gives. The magnitude of the second number contains no remainder by the
  -- constant 0.
  pub add_fp_lem :
      (L : IsSmt S) (v : S.Valuation) (E : FpEncoding) (A : IsAbstract L v E) (idx : Term)
      (mk_bag : List Term → Term) (o : ArrayOptions) (st : ArrayState) (f g : Term)
      → o.has_arith_properties ≡ true
      → o.fp_add_sum_encoding ≢ use_sum_only
      → IsFp L v E f
      → IsFp L v E g
      → HasDivisors L v (suc (value_bitwidth E)) (get_magnitude_bits E (canonical E g))
      → (let p = 2 ^ value_bitwidth E in
          (t : Term) × (add_fp idx mk_bag o E st f g ≡ some (t, added st))
          × (decode p (bits v t)
              ≡ ieee_add p
                  (magnitude L v E (bits v (plain_sum E (canonical E f) (canonical E g))))
                  (decode p (bits v f))
                  (decode p (bits v g))))
  add_fp_lem L v E A idx mk_bag o st f g h n i j d = (
    add_terms true E f g,
    add_fp-plain idx mk_bag o E st f g n ∙ ap (λ b. some (add_terms b E f g, added st)) h,
    add_lem L v E A f g i j d,
  )
