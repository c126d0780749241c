-- ===== src/Floats/Setup.antt =====
-- src/abstractops.cpp: `setAbstraction`, which chooses the bits of the encodings of floats and doubles.
-- The sets of constants and what LLVM's `APFloat` says of a cast (`getCastingInfo`) are parameters. The
-- counts are those of values in memory, whose sums do not wrap.
pub mod Widths
use Prim.Native.Nat.{min}
use mlir_tv.Base.{
  ℕ, ◌+◌, ◌-◌, max, Bool, true, false, ◌&&◌, ◌||◌, not, Option, none, some, List, [], ◌∷◌, map,
  length, ltb, ◌==◌, if◌then◌else◌, ◌>>=◌, ◌>>◌, guard,
}
use mlir_tv.Smt.Terms.{Smt}
use mlir_tv.Smt.Arith.{log2_ceil}
use mlir_tv.Floats.{
  Fpa, FpEncoding, Constant, zero_const, largest_const, number_const, value_bitwidth,
}
use mlir_tv.Floats.Constants.{FpCastingInfo, ConstSource, add_constants}
use mlir_tv.Validate.Loop.{Abstraction, is_fully_abs_cast, can_set_abstraction}

-- The variables of the loop over the constants that are doubles.
pub record CastCounts : Type 0 where
  pub nonzero_limit : ℕ
  pub nonzero_precs : ℕ
  pub max_nonzero_precs : ℕ

unfoldable pub count_constant : CastCounts → FpCastingInfo → CastCounts
count_constant c info =
    if not info.zero_limit_bits
    then record c { nonzero_limit = c.nonzero_limit + 1 }
    else if not info.zero_prec_bits
    then record c { nonzero_precs = c.nonzero_precs + 1 }
    else record c { max_nonzero_precs = max c.nonzero_precs c.max_nonzero_precs; nonzero_precs = 0 }

unfoldable pub count_from : CastCounts → List FpCastingInfo → CastCounts
unfolding count_constant
count_from c [] = record c { max_nonzero_precs = max c.nonzero_precs c.max_nonzero_precs }
count_from c (info ∷ rest) = count_from (count_constant c info) rest

unfoldable pub count_constants : List FpCastingInfo → CastCounts
unfolding count_from
count_constants infos =
    count_from (record { nonzero_limit = 0; nonzero_precs = 0; max_nonzero_precs = 0 }) infos

unfoldable pub float_bits : ℕ → ℕ → ℕ
unfolding log2_ceil
float_bits nonconsts consts = min 31 (log2_ceil (nonconsts + consts + 2))

unfoldable pub min_prec_bitwidth : ℕ → CastCounts → ℕ
unfolding log2_ceil
min_prec_bitwidth nonconsts c = max 1 (max (log2_ceil c.max_nonzero_precs) (log2_ceil nonconsts))

unfoldable pub min_limit_bitwidth : ℕ → ℕ → CastCounts → ℕ
unfolding log2_ceil min_prec_bitwidth
min_limit_bitwidth bits nonconsts c =
    let nonzero_limits = max (log2_ceil c.nonzero_limit) (log2_ceil nonconsts) in
    let prec = min_prec_bitwidth nonconsts c in
    if ltb (bits + prec) nonzero_limits then nonzero_limits - bits - prec + 1 else 1

unfoldable pub double_prec_bits : ℕ → CastCounts → ℕ
unfolding min_prec_bitwidth
double_prec_bits nonconsts c = min (min_prec_bitwidth nonconsts c) 29

unfoldable pub double_limit_bits : ℕ → ℕ → CastCounts → ℕ
unfolding min_limit_bitwidth double_prec_bits
double_limit_bits bits nonconsts c =
    min (min_limit_bitwidth bits nonconsts c) (32 - double_prec_bits nonconsts c)

-- The bits of the doubles where casts are not precise.
unfoldable pub double_bits : ℕ → ℕ → ℕ → ℕ
unfolding log2_ceil
double_bits bits nonconsts consts = max (log2_ceil (nonconsts + consts + 2)) bits

-- What the analysis found of the numbers of one type: its constants, NaN and the infinities apart, and
-- how many others it has.
pub record FpCounts ⦃S : Smt⦄ ⦃P : Fpa⦄ : Type 0 where
  pub nonconsts : ℕ
  pub consts : List Constant
  pub has_inf_or_nan : Bool

pub record Encodings ⦃S : Smt⦄ ⦃P : Fpa⦄ : Type 0 where
  pub float_enc : FpEncoding
  pub double_enc : FpEncoding

-- What `setAbstraction` does: it fails, finds no numbers, or makes the encodings.
pub data Setup ⦃S : Smt⦄ ⦃P : Fpa⦄ : Type 0 where
  failed unused : Setup
  encoded : Encodings → Setup

module _ ⦃S : Smt⦄ where
  -- `std::set::emplace` of a number in increasing order, and `getCastingInfo` of any constant of a set.
  module _ ⦃P : Fpa⦄ ⦃Q : ConstSource⦄ (emplace : Constant → List Constant → List Constant)
      (casting_of : Constant → FpCastingInfo) where
    unfoldable pub emplace_reserved : List Constant → List Constant
    emplace_reserved consts =
        emplace (largest_const false)
          (emplace (number_const (P.get_one false)) (emplace (zero_const false) consts))

    -- The constructors of `AbsFpEncoding`, but for its assertion.
    unfoldable pub new_encoding : ℕ → ℕ → ℕ → Bool → Bool → FpEncoding
    new_encoding limit_bw smaller_value_bw prec_bw use_ieee754 is_double = record {
      limit_bitwidth = limit_bw;
      truncated_bitwidth = smaller_value_bw;
      prec_bitwidth = prec_bw;
      is_double = is_double;
      use_ieee754 = use_ieee754;
      absrepr = [];
    }

    unfoldable pub float_encoding : Bool → FpCounts → FpEncoding
    unfolding new_encoding float_bits emplace_reserved
    float_encoding use_concrete_fp floats =
        new_encoding 0 (float_bits floats.nonconsts (length (emplace_reserved floats.consts))) 0
          use_concrete_fp false

    -- The encoding of doubles, where that of floats has `bits` bits.
    unfoldable pub double_encoding : Bool → Bool → ℕ → FpCounts → FpEncoding
    unfolding new_encoding count_constants double_prec_bits double_limit_bits double_bits
        emplace_reserved
    double_encoding precise_casts use_concrete_fp bits doubles =
        let consts = emplace_reserved doubles.consts in
        let c = count_constants (map casting_of consts) in
        if precise_casts
        then new_encoding (double_limit_bits bits doubles.nonconsts c) bits
            (double_prec_bits doubles.nonconsts c) use_concrete_fp true
        else new_encoding 0 (double_bits bits doubles.nonconsts (length consts)) 0 use_concrete_fp
            true

    unfoldable pub is_unused : FpCounts → FpCounts → Bool
    is_unused floats doubles =
        floats.nonconsts == 0
        && doubles.nonconsts == 0
        && not floats.has_inf_or_nan
        && length floats.consts == 0
        && length doubles.consts == 0
        && not doubles.has_inf_or_nan

    unfoldable pub encodings_of : Bool → Bool → FpCounts → FpCounts → Option Encodings
    unfolding float_encoding double_encoding emplace_reserved value_bitwidth
    encodings_of precise_casts use_concrete_fp floats doubles = do
      let float_empty = float_encoding use_concrete_fp floats
      guard (ltb 0 float_empty.truncated_bitwidth)
      float_enc ← add_constants float_empty (emplace_reserved floats.consts)
      let double_empty =
          double_encoding precise_casts use_concrete_fp (value_bitwidth float_enc) doubles
      guard (ltb 0 double_empty.truncated_bitwidth)
      double_enc ← add_constants double_empty (emplace_reserved doubles.consts)
      some (record { float_enc = float_enc; double_enc = double_enc })

    -- What becomes of the encodings.
    unfoldable pub set_up : Option Encodings → Setup
    set_up none = failed
    set_up (some encodings) = encoded encodings

    unfoldable pub set_abstraction : Abstraction → Bool → Bool → FpCounts → FpCounts → Setup
    unfolding is_unused encodings_of set_up
    set_abstraction abs add_assoc use_concrete_fp floats doubles =
        let encodings =
          encodings_of (not (is_fully_abs_cast abs.fp_cast)) use_concrete_fp floats doubles in
        if not (can_set_abstraction add_assoc abs)
        then failed
        else if is_unused floats doubles
        then unused
        else set_up encodings
