-- ===== src/Smt/Arith/Flattened.antt =====
-- `extract` of src/smt.cpp on an application with three arguments, which z3's matcher does not count.
use mlir_tv.Base.{◌+◌, ◌-◌, ◌*◌, ◌%◌, ◌^◌, ◌<◌, ◌≡◌, refl, false, none, some, [], ◌∷◌, arith}
use mlir_tv.Base.Pow.{split-mod}
use mlir_tv.Smt.Terms.{Smt, concat_kind}
use mlir_tv.Smt.Match.{match_binary_op, args_of, first_two, Kind-discrete}
use mlir_tv.Smt.Arith.{extract, extract_concat}

module _ ⦃S : Smt⦄ where
  open S use {Term, Valuation, bits, width, numeral?, app?, counts_args}

  match_three :
      (t a b c : Term)
      → counts_args ≡ false
      → app? t ≡ some (concat_kind, a ∷ b ∷ c ∷ [])
      → match_binary_op concat_kind t ≡ some (a, b)
  unfolding match_binary_op args_of first_two Kind-discrete
  match_three t a b c n e = rw (match_binary_op, e, n) refl

  -- With a matcher that does not count, on a concatenation of three parts of which the last two have
  -- one width, extracting as many low bits as these have gives the middle part, while the low bits of
  -- the concatenation's value are those of the last part.
  pub extract-flattened :
      (v : Valuation) (t a b c : Term)
      → counts_args ≡ false
      → app? t ≡ some (concat_kind, a ∷ b ∷ c ∷ [])
      → numeral? t ≡ none
      → 0 < width b
      → width b ≡ width c
      → bits v t ≡ (bits v a * 2 ^ width b + bits v b) * 2 ^ width c + bits v c
      → bits v c < 2 ^ width c
      → (extract (width b - 1) 0 t ≡ b) × (bits v t % 2 ^ width b ≡ bits v c)
  unfolding extract extract_concat
  extract-flattened v t a b c n e u p w m lt = (
    rw (extract, extract_concat, u, match_three t a b c n e) (ground arith),
    rw (m, w) (split-mod (bits v a * 2 ^ width c + bits v b) (2 ^ width c) (bits v c) lt),
  )
