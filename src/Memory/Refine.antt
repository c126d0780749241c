-- ===== src/Memory/Refine.antt =====
-- The meaning of the formula that `Memory::refines` (src/memory.cpp) builds for an element type.
use mlir_tv.Base.{ℕ, ◌^◌, ◌≤◌, ◌<◌, ◌≡◌, Bool, true, ◌&&◌, imp, arith, ◌∙◌}
use mlir_tv.Smt.Terms.{Smt, IsSmt}
use mlir_tv.Smt.Logic.{mk_bool, and, implies, mk_ite, truth-mk_ite, truth-and, truth-implies}
use mlir_tv.Smt.Arith.{mk_bv}
use mlir_tv.Memory.{Blocks, AccessInfo, load}
use mlir_tv.Memory.Pick.{itebid_from-pick}
use mlir_tv.Memory.Arrays.{refines_block, refines_type}

module _ ⦃S : Smt⦄ (L : IsSmt S) (v : S.Valuation)
    (refines_element : ℕ → S.Term → S.Term → S.Term) where
  open S use {Term, bits, truth, width}

  -- What refinement asks of one access of the two memories.
  abbrev pub refines_access : ℕ → Term × AccessInfo → Term × AccessInfo → Bool
  refines_access ty tgt src = imp (truth v src.1.inbounds && truth v src.1.live) (
      ((truth v tgt.1.inbounds && truth v tgt.1.live)
        && imp (truth v src.1.writable) (truth v tgt.1.writable))
      && truth v (refines_element ty tgt.0 src.0))

  truth-refines_block :
      (ty bid_bits : ℕ) (tgt src : Blocks) (offset : Term) (i : ℕ)
      → truth v (refines_block refines_element ty bid_bits tgt src offset i)
        ≡ refines_access ty
            (load tgt bid_bits (mk_bv i bid_bits) offset)
            (load src bid_bits (mk_bv i bid_bits) offset)
  unfolding refines_block
  truth-refines_block ty bid_bits tgt src offset i =
      let (sv, si) = load src bid_bits (mk_bv i bid_bits) offset in
      let (tv, ti) = load tgt bid_bits (mk_bv i bid_bits) offset in
      let allowed = and si.inbounds si.live in
      let kept = and ti.inbounds ti.live in
      let writes = implies si.writable ti.writable in
      let element = refines_element ty tv sv in
      truth-implies L v allowed (and (and kept writes) element)
      ∙ rw (
        truth-and L v si.inbounds si.live,
        truth-and L v (and kept writes) element,
        truth-and L v kept writes,
        truth-and L v ti.inbounds ti.live,
        truth-implies L v si.writable ti.writable,
      )

  -- The formula for an element type with `n` global blocks is true, where the variable for the block
  -- is the number of one of them, exactly where the accesses of both memories to that block at the
  -- offset refine: an access that the source allows is allowed by the target, which may write where
  -- the source may and whose element refines the source's.
  pub truth-refines_type :
      (ty bid_bits n : ℕ) (tgt src : Blocks) (bid offset : Term)
      → width bid ≤ 64
      → n ≤ 2 ^ width bid
      → bits v bid < n
      → let block = mk_bv (bits v bid) bid_bits in
        truth v (refines_type refines_element ty bid_bits tgt src bid offset n)
        ≡ refines_access ty (load tgt bid_bits block offset) (load src bid_bits block offset)
  unfolding refines_type
  truth-refines_type ty bid_bits n tgt src bid offset narrow le lt =
      itebid_from-pick L v bid narrow mk_ite (truth v) (λ t. Unit) (λ c x y p q. tt)
        (λ c x y p q. truth-mk_ite L v c x y)
        (refines_block refines_element ty bid_bits tgt src offset) (λ i. tt) 0 n (mk_bool true) tt
        (omega arith) (λ h. absurd (omega arith)) (omega arith)
      ∙ truth-refines_block ty bid_bits tgt src offset (bits v bid)
