-- ===== src/MemRef/Alias.antt =====
-- `noalias` of src/value.cpp against the positions that two views of blocks have.
use native.Mathlib.Nat.{mod-eq_of_lt}
use mlir_tv.Base.{
  ℕ, ◌+◌, ◌^◌, ◌≤◌, ◌<◌, ◌≡◌, ◌≢◌, refl, Bool, true, ◌&&◌, ◌||◌, not, some, map, leb, ◌==◌, ==_iff,
  arith, sym, ap, ◌∙◌,
}
use mlir_tv.Smt.Terms.{Smt, IsSmt}
use mlir_tv.Smt.Logic.{and, or, negate, truth-and, truth-or, truth-negate}
use mlir_tv.Smt.Compare.{equal, ule}
use mlir_tv.Smt.Compare.Equal.{truth-equal}
use mlir_tv.Smt.Compare.Less.{truth-ule}
use mlir_tv.Smt.Words.{add}
use mlir_tv.Smt.Words.Sum.{bits-add}
use mlir_tv.Smt.Index.{get_1d_size}
use mlir_tv.Smt.Index.Digits.{product}
use mlir_tv.Smt.Index.Meaning.{AreIndices, bits-get_1d_size, width-get_1d_size}
use mlir_tv.MemRef.{MemRef, is_identity_map, noalias}

-- The two cases of the formula.
apart :
    (same below above : Bool)
    → (not same || (same && (below || above))) ≡ true
    → same ≡ true
    → (below || above) ≡ true
apart same below above h e = ground arith

disjoint :
    (a b l1 r1 l2 r2 : ℕ)
    → l1 ≤ a
    → a < r1
    → l2 ≤ b
    → b < r2
    → (leb r2 l1 || leb r1 l2) ≡ true
    → a ≢ b
disjoint a b l1 r1 l2 r2 p q p' q' h e = ground arith

module _ ⦃S : Smt⦄ (L : IsSmt S) (v : S.Valuation) (w : ℕ) (s : w ≤ 32) (z : 0 < w) where
  open S use {Term, bits, truth, width}

  -- The number of elements of a view.
  unfoldable pub count : MemRef → ℕ
  count r = product (map (bits v) r.sizes)

  -- A view with an identity layout whose last position does not wrap.
  pub record IsSpan (r : MemRef) : Type 0 where
    pub identity : is_identity_map r ≡ true
    pub bid_width : width r.bid ≤ 64
    pub offset_width : width r.offset ≡ w
    pub sizes_width : AreIndices L v w s r.sizes
    pub no_wrap : bits v r.offset + count r < 2 ^ w

  end_lem :
      (r : MemRef)
      → IsSpan r
      → bits v (add r.offset (get_1d_size w r.sizes)) ≡ bits v r.offset + count r
  unfolding count
  end_lem r h =
      let wo = h.offset_width in
      let n : bits v (get_1d_size w r.sizes) ≡ count r =
        bits-get_1d_size L v w s r.sizes h.sizes_width z
        ∙ mod-eq_of_lt (omega (arith, h.no_wrap)) in
      bits-add L v r.offset (get_1d_size w r.sizes)
        (wo ∙ sym (width-get_1d_size L v w s r.sizes h.sizes_width)) (rw wo (omega arith))
      ∙ rw (wo, n) (mod-eq_of_lt h.no_wrap)

  -- The formula that `noalias` gives of two such views.
  abbrev formula : MemRef → MemRef → Term
  formula r other =
      let c = equal r.bid other.bid in
      or (negate c) (
        and c (
          or (ule (add other.offset (get_1d_size w other.sizes)) r.offset)
            (ule (add r.offset (get_1d_size w r.sizes)) other.offset)))

  noalias-formula :
      (r other : MemRef) → IsSpan r → IsSpan other → noalias w r other ≡ some (formula r other)
  unfolding noalias
  noalias-formula r other h k = rw (noalias, h.identity, k.identity) refl

  truth-formula :
      (r other : MemRef)
      → IsSpan r
      → IsSpan other
      → truth v (formula r other) ≡ (
          not (bits v r.bid == bits v other.bid)
          || ((bits v r.bid == bits v other.bid)
              && (leb (bits v other.offset + count other) (bits v r.offset)
                  || leb (bits v r.offset + count r) (bits v other.offset))))
  truth-formula r other h k =
      let r1 = add r.offset (get_1d_size w r.sizes) in
      let r2 = add other.offset (get_1d_size w other.sizes) in
      let c = equal r.bid other.bid in
      let sides = or (ule r2 r.offset) (ule r1 other.offset) in
      truth-or L v (negate c) (and c sides)
      ∙ rw
          (
            truth-negate L v c,
            truth-and L v c sides,
            truth-or L v (ule r2 r.offset) (ule r1 other.offset),
            truth-ule L v r2 r.offset,
            truth-ule L v r1 other.offset,
            truth-equal L v r.bid other.bid h.bid_width,
            end_lem r h,
            end_lem other k,
          )
          refl

  -- Where the formula of `noalias` is true of two views with identity layouts whose ends do not wrap,
  -- a position of the one and a position of the other are never the same position of one block.
  pub noalias_lem :
      (r other : MemRef) (a b : ℕ) (e : Term)
      → IsSpan r
      → IsSpan other
      → noalias w r other ≡ some e
      → truth v e ≡ true
      → bits v r.offset ≤ a
      → a < bits v r.offset + count r
      → bits v other.offset ≤ b
      → b < bits v other.offset + count other
      → bits v r.bid ≡ bits v other.bid
      → a ≢ b
  noalias_lem r other a b e h k n t p q p' q' same eq =
      let f : formula r other ≡ e = ground (arith, noalias-formula r other h k) in
      let g = sym (truth-formula r other h k) ∙ ap (truth v) f ∙ t in
      let l1 = bits v r.offset in
      let l2 = bits v other.offset in
      let r1 = l1 + count r in
      let r2 = l2 + count other in
      let o =
        apart (bits v r.bid == bits v other.bid) (leb r2 l1) (leb r1 l2) g ((==_iff _ _).1 same) in
      disjoint a b l1 r1 l2 r2 p q p' q' o eq
