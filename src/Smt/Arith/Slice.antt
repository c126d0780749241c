-- ===== src/Smt/Arith/Slice.antt =====
-- The meaning of `extract`, `concat` and `zext` of src/smt.cpp.
use native.Mathlib.Nat.{mod-eq_of_lt, div-one, le_trans, pow-le-pow_right}
use mlir_tv.Base.{
  ℕ, ◌+◌, ◌-◌, ◌*◌, ◌/◌, ◌%◌, ◌^◌, ◌≤◌, ◌<◌, ◌≡◌, inl, inr, ◌&&◌, arith, ◌==◌, Option-cases,
  Bool-cases, none, some, ltb, sym,
}
use mlir_tv.Base.Pow.{split-mod, split-div, mod-mod_pow}
use mlir_tv.Smt.Terms.{Smt, IsSmt, concat_kind}
use mlir_tv.Smt.Match.{match_binary_op, match_zero_ext, match_concat, match_zero_ext_lem}
use mlir_tv.Smt.Arith.{mk_bv, mask_to, extract_concat, extract, zext}
use mlir_tv.Smt.Arith.Log.{bit_and-mask}

module _ ⦃S : Smt⦄ (L : IsSmt S) (v : S.Valuation) where
  open S use {Term, bits, width, numeral?, bvconcat, bvzext}

  mask_to-mod : (h l u : ℕ) → l ≤ h → mask_to h u % 2 ^ (h - l + 1) ≡ u % 2 ^ (h + 1 - l)
  unfolding mask_to
  mask_to-mod h l u k =
      let e : h - l + 1 ≡ h + 1 - l = omega arith in
      rw e (elim (Bool-cases (h == 63)) [
        | inl p ↦ rw p
        | inr p ↦ rw (p, bit_and-mask (h + 1) u) (mod-mod_pow u (h + 1 - l) (h + 1) (omega arith))
      ])

  -- The low part and the high part of a concatenation.
  low_part :
      (h l : ℕ) (x y : Term)
      → l ≡ 0
      → h + 1 ≡ width y
      → bits v y ≡ bits v (bvconcat x y) / 2 ^ l % 2 ^ (h + 1 - l)
  low_part h l x y p q =
      let e : h + 1 - l ≡ width y = omega arith in
      let n = bits v x * 2 ^ width y + bits v y in
      let d : n / 2 ^ l ≡ n = rw p (div-one n) in
      rw (L.bits-bvconcat v x y, e, d)
        (sym (split-mod (bits v x) (2 ^ width y) (bits v y) (L.bits-lt v y)))

  high_part :
      (h l : ℕ) (x y : Term)
      → l ≡ width y
      → h + 1 ≡ width (bvconcat x y)
      → bits v x ≡ bits v (bvconcat x y) / 2 ^ l % 2 ^ (h + 1 - l)
  high_part h l x y p q =
      let e : h + 1 - l ≡ width x = omega (arith, L.width-bvconcat x y) in
      rw
        (L.bits-bvconcat v x y, e, p, split-div (bits v x) (2 ^ width y) (bits v y) (L.bits-lt v y))
        (sym (mod-eq_of_lt (L.bits-lt v x)))

  low_zext :
      (h l j : ℕ) (x : Term)
      → l ≡ 0
      → h + 1 ≡ width x
      → bits v x ≡ bits v (bvzext j x) / 2 ^ l % 2 ^ (h + 1 - l)
  low_zext h l j x p q =
      let e : h + 1 - l ≡ width x = omega arith in
      let d : bits v x / 2 ^ l ≡ bits v x = rw p (div-one (bits v x)) in
      rw (L.bits-bvzext v j x, e, d) (sym (mod-eq_of_lt (L.bits-lt v x)))

  extract_concat-bits :
      (h l : ℕ) (t a : Term)
      → extract_concat h l t ≡ some a
      → bits v a ≡ bits v t / 2 ^ l % 2 ^ (h + 1 - l)
  unfolding extract_concat
  extract_concat-bits h l t a e = elim (Option-cases (match_binary_op concat_kind t)) [
    | inl m ↦ elim (Option-cases (match_zero_ext t)) [
      | inl n ↦ absurd (ground arith)
      | inr (x, n) ↦
          let (j, f) = match_zero_ext_lem L t x n in
          let p : l ≡ 0 = ground arith in
          let q : h + 1 ≡ width x = ground arith in
          let g : x ≡ a = ground arith in rw (← g, f) (low_zext h l j x p q)
    ]
    | inr ((x, y), m) ↦
        let f = match_concat L t x y m in
        elim (Bool-cases (l == 0 && h + 1 == width y)) [
          | inl c ↦
              let g : y ≡ a = ground arith in
              rw (← g, f) (low_part h l x y (ground arith) (ground arith))
          | inr c ↦
              let p : l ≡ width y = ground arith in
              let q : h + 1 ≡ width t = ground arith in
              let g : x ≡ a = ground arith in rw (← g, f) (high_part h l x y p (rw f at q))
        ]
  ]

  -- `extract(h, l)` is the bits from `l` to `h`, whichever of its shortcuts it takes.
  pub bits-extract :
      (h l : ℕ) (t : Term) → l ≤ h → bits v (extract h l t) ≡ bits v t / 2 ^ l % 2 ^ (h + 1 - l)
  unfolding extract
  bits-extract h l t k = elim (Option-cases (numeral? t)) [
    | inl e ↦ rw (e, extract) plain
    | inr (u, e) ↦ elim (Bool-cases (ltb h 64)) [
      | inl c ↦
          rw (e, c, extract, mk_bv, L.bits-bv_val v, (L.numeral_lem v t u e).0)
            (mask_to-mod h l (u / 2 ^ l) k)
      | inr c ↦ rw (e, c, extract) plain
    ]
  ]
    where
      plain :
          bits v (elim (extract_concat h l t) [ none ↦ S.bvextract h l t | some a ↦ a ])
          ≡ bits v t / 2 ^ l % 2 ^ (h + 1 - l)
      plain = elim (Option-cases (extract_concat h l t)) [
        | inl e ↦ rw e (L.bits-bvextract v h l t)
        | inr (a, e) ↦ rw e (extract_concat-bits h l t a e)
      ]

  -- `zext` keeps the value.
  pub bits-zext : (k : ℕ) (t : Term) → bits v (zext k t) ≡ bits v t
  unfolding zext
  bits-zext k t = elim (Option-cases (numeral? t)) [
    | inl e ↦ rw (e, zext) (L.bits-bvzext v k t)
    | inr (u, e) ↦
        let (p, q) = L.numeral_lem v t u e in
        let lt : bits v t < 2 ^ (width t + k) =
          le_trans (L.bits-lt v t) (pow-le-pow_right {n = 2} (omega arith) (omega arith)) in
        rw (e, zext, mk_bv, L.bits-bv_val v, ← p) (mod-eq_of_lt lt)
  ]
