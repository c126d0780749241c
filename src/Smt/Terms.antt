-- ===== src/Smt/Terms.antt =====
-- What src/smt.cpp uses of the solver (z3 or cvc5, which are not part of the repository): terms,
-- the builders, the observers, and their documented meaning at a valuation of the variables.
-- Sorts are not tracked: `eq` is the equality of two bit-vector terms, `and_` and its like take
-- Boolean terms, and the meaning of a builder is that of SMT-LIB at terms of fitting sorts.
use Prim.Native.Nat.{bit_and, bit_or, bit_xor}
use mlir_tv.Base.{
  ℕ, ◌+◌, ◌-◌, ◌*◌, ◌/◌, ◌%◌, ◌^◌, ◌<◌, ◌≡◌, Bool, true, false, ◌&&◌, ◌||◌, not, Option, none, some,
  List, [], ◌∷◌, map, All, ltb, leb, ◌==◌, if◌then◌else◌, imp,
}

-- The heads of applications that src/smtmatchers.h looks for.
pub data Kind : Type 0 where
  concat_kind urem_kind udiv_kind mul_kind zero_ext_kind eq_kind other_kind : Kind

-- The uninterpreted functions that the program declares, by the names it gives them.
pub data FnName : Type 0 where
  fp_add_name fp_mul_name fp_div_name fp_sum_name fp_assoc_sum_name fp_dot_name fp_extend_name
        fp_truncate_name fp_exp_name fp_hash_name fp_rounddir_name fp_max_name fp_sint32tofp_name
        int_sum_name int_dot_name :
      FnName

-- `FnDecl`: the name with its suffix, and the width of its range.
pub record FnDecl : Type 0 where
  pub name : FnName
  pub suffix : ℕ
  pub range : ℕ

pub record Smt : Type 1 where
  pub Term : Type 0
  pub Valuation : Type 0
  -- The meaning of a bit-vector term, of a Boolean term, and of an array of either.
  pub bits : Valuation → Term → ℕ
  pub truth : Valuation → Term → Bool
  pub cell : Valuation → Term → ℕ → ℕ
  pub flag : Valuation → Term → ℕ → Bool
  -- The valuation with one variable changed.
  pub assign : Valuation → Term → ℕ → Valuation
  -- Observers of a term.
  pub width : Term → ℕ
  pub numeral? : Term → Option ℕ
  pub is_bool : Term → Bool
  pub is_var : Term → Bool
  pub is_true : Term → Bool
  pub is_false : Term → Bool
  pub identical : Term → Term → Bool
  pub app? : Term → Option (Kind × List Term)
  -- Whether `matchBinaryOp` of the solver counts the arguments: that of cvc5 does, that of z3 does not.
  pub counts_args : Bool
  pub splat? : Term → Option Term
  pub lambda_body? : Term → Option Term
  -- Builders.
  pub simplify : Term → Term
  pub bv_val : ℕ → ℕ → Term
  pub bool_val : Bool → Term
  pub bvadd : Term → Term → Term
  pub bvsub : Term → Term → Term
  pub bvmul : Term → Term → Term
  pub bvurem : Term → Term → Term
  pub bvudiv : Term → Term → Term
  pub bvconcat : Term → Term → Term
  pub bvand : Term → Term → Term
  pub bvor : Term → Term → Term
  pub bvxor : Term → Term → Term
  pub bvextract : ℕ → ℕ → Term → Term
  pub bvzext : ℕ → Term → Term
  pub bvult : Term → Term → Term
  pub bvule : Term → Term → Term
  pub eq : Term → Term → Term
  pub and_ : Term → Term → Term
  pub or_ : Term → Term → Term
  pub xor_ : Term → Term → Term
  pub not_ : Term → Term
  pub implies_ : Term → Term → Term
  pub ite_ : Term → Term → Term → Term
  pub select_ : Term → Term → Term
  pub store_ : Term → Term → Term → Term
  pub const_array : Term → Term
  pub lambda_ : Term → Term → Term
  pub forall_ : Term → Term → Term
  pub apply_ : FnDecl → List Term → Term
  -- Terms put for variables, all at once.
  pub substitute : List Term → List Term → Term → Term
  -- The body of a lambda at an argument (z3 substitutes for the de Bruijn index).
  pub instantiate : Term → Term → Term

module _ (S : Smt) where
  open S use {
    Term, Valuation, bits, truth, cell, flag, assign, width, numeral?, is_bool, is_var, is_true,
    is_false, identical, app?, counts_args, splat?, lambda_body?, simplify, bv_val, bool_val, bvadd,
    bvsub, bvmul, bvurem, bvudiv, bvconcat, bvextract, bvzext, bvult, bvule, eq, and_, or_, not_,
    implies_, ite_, select_, store_, const_array, lambda_, forall_, instantiate, substitute, bvand,
    bvor, bvxor, xor_, apply_,
  }

  -- Two terms of any sort mean the same, each at its valuation.
  pub record SameAt (v : Valuation) (s : Term) (w : Valuation) (t : Term) : Type 0 where
    pub bits_eq : bits v s ≡ bits w t
    pub truth_eq : truth v s ≡ truth w t
    pub cell_eq : (i : ℕ) → cell v s i ≡ cell w t i
    pub flag_eq : (i : ℕ) → flag v s i ≡ flag w t i

  -- Two lists of terms mean the same, one by one.
  abbrev pub AllSame : Valuation → List Term → List Term → Type 0
  AllSame v [] [] = Unit
  AllSame v [] (b ∷ ys) = ⊥
  AllSame v (a ∷ xs) [] = ⊥
  AllSame v (a ∷ xs) (b ∷ ys) = SameAt v a v b × AllSame v xs ys

  -- The valuation with several variables changed, one after the other.
  abbrev pub assign_all : Valuation → List Term → List ℕ → Valuation
  assign_all v [] ns = v
  assign_all v (x ∷ xs) [] = v
  assign_all v (x ∷ xs) (n ∷ ns) = assign_all (assign v x n) xs ns

  abbrev pub AreVars : List Term → Type 0
  AreVars = All λ x. is_var x ≡ true

  -- The variable `x` does not matter to `t`.
  abbrev pub IsFresh : Term → Term → Type 0
  IsFresh x t = (v : Valuation) (i : ℕ) → SameAt (assign v x i) t v t

  -- The solver's documentation: SMT-LIB's theories of bit-vectors, arrays and Booleans.
  pub record IsSmt : Type 0 where
    pub bits-lt : (v : Valuation) (t : Term) → bits v t < 2 ^ width t
    pub numeral_lem :
        (v : Valuation) (t : Term) (n : ℕ) → numeral? t ≡ some n → (bits v t ≡ n) × (n < 2 ^ 64)
    -- A bit-vector has at least one bit.
    pub width-numeral : (t : Term) (n : ℕ) → numeral? t ≡ some n → 0 < width t
    pub is_true_lem : (v : Valuation) (t : Term) → is_true t ≡ true → truth v t ≡ true
    pub is_false_lem : (v : Valuation) (t : Term) → is_false t ≡ true → truth v t ≡ false
    pub is_bool-is_true : (t : Term) → is_true t ≡ true → is_bool t ≡ true
    pub is_bool-is_false : (t : Term) → is_false t ≡ true → is_bool t ≡ true
    pub identical_lem : (s t : Term) → identical s t ≡ true → s ≡ t
    -- An application with two arguments is what the builder makes of them.
    pub app-concat : (t a b : Term) → app? t ≡ some (concat_kind, a ∷ b ∷ []) → t ≡ bvconcat a b
    pub app-urem : (t a b : Term) → app? t ≡ some (urem_kind, a ∷ b ∷ []) → t ≡ bvurem a b
    pub app-udiv :
        (t a b : Term)
        → app? t ≡ some (udiv_kind, a ∷ b ∷ [])
        → (t ≡ bvudiv a b) × (width a ≡ width b)
    pub app-mul : (t a b : Term) → app? t ≡ some (mul_kind, a ∷ b ∷ []) → t ≡ bvmul a b
    -- A matcher that does not count meets no application with three or more arguments: an assumption on
    -- z3, whose `simplify` can flatten concatenations and products, and true of cvc5 as it is.
    pub counts-long_app :
        (k : Kind) (t a b c : Term) (rest : List Term)
        → app? t ≡ some (k, a ∷ b ∷ c ∷ rest)
        → counts_args ≡ true
    pub app-zero_ext :
        (t : Term) (args : List Term)
        → app? t ≡ some (zero_ext_kind, args)
        → (a : Term) × (k : ℕ) × (args ≡ a ∷ []) × (t ≡ bvzext k a)
    pub app-eq :
        (v : Valuation) (t a b : Term)
        → app? t ≡ some (eq_kind, a ∷ b ∷ [])
        → truth v t ≡ true
        → SameAt v a v b
    -- The meaning of each builder.
    pub simplify_lem : (v : Valuation) (t : Term) → SameAt v (simplify t) v t
    pub bits-bv_val : (v : Valuation) (n w : ℕ) → bits v (bv_val n w) ≡ n % 2 ^ w
    pub truth-bool_val : (v : Valuation) (b : Bool) → truth v (bool_val b) ≡ b
    pub bits-bvadd :
        (v : Valuation) (a b : Term) → bits v (bvadd a b) ≡ (bits v a + bits v b) % 2 ^ width a
    pub bits-bvsub :
        (v : Valuation) (a b : Term)
        → bits v (bvsub a b) ≡ (bits v a + 2 ^ width a - bits v b) % 2 ^ width a
    pub bits-bvmul :
        (v : Valuation) (a b : Term) → bits v (bvmul a b) ≡ (bits v a * bits v b) % 2 ^ width a
    pub bits-bvurem :
        (v : Valuation) (a b : Term)
        → bits v (bvurem a b) ≡ (if bits v b == 0 then bits v a else bits v a % bits v b)
    pub bits-bvudiv :
        (v : Valuation) (a b : Term)
        → bits v (bvudiv a b) ≡ (if bits v b == 0 then 2 ^ width a - 1 else bits v a / bits v b)
    pub bits-bvconcat :
        (v : Valuation) (a b : Term) → bits v (bvconcat a b) ≡ bits v a * 2 ^ width b + bits v b
    pub bits-bvextract :
        (v : Valuation) (h l : ℕ) (a : Term)
        → bits v (bvextract h l a) ≡ bits v a / 2 ^ l % 2 ^ (h + 1 - l)
    pub bits-bvzext : (v : Valuation) (k : ℕ) (a : Term) → bits v (bvzext k a) ≡ bits v a
    pub bits-bvand :
        (v : Valuation) (a b : Term)
        → bits v (bvand a b) ≡ bit_and (bits v a) (bits v b) % 2 ^ width a
    pub bits-bvor :
        (v : Valuation) (a b : Term)
        → bits v (bvor a b) ≡ bit_or (bits v a) (bits v b) % 2 ^ width a
    pub bits-bvxor :
        (v : Valuation) (a b : Term)
        → bits v (bvxor a b) ≡ bit_xor (bits v a) (bits v b) % 2 ^ width a
    pub truth-bvult : (v : Valuation) (a b : Term) → truth v (bvult a b) ≡ ltb (bits v a) (bits v b)
    pub truth-bvule : (v : Valuation) (a b : Term) → truth v (bvule a b) ≡ leb (bits v a) (bits v b)
    pub truth-eq : (v : Valuation) (a b : Term) → truth v (eq a b) ≡ (bits v a == bits v b)
    pub truth-and_ : (v : Valuation) (a b : Term) → truth v (and_ a b) ≡ (truth v a && truth v b)
    pub truth-or_ : (v : Valuation) (a b : Term) → truth v (or_ a b) ≡ (truth v a || truth v b)
    pub truth-xor_ :
        (v : Valuation) (a b : Term)
        → truth v (xor_ a b) ≡ (if truth v a then not (truth v b) else truth v b)
    pub truth-not_ : (v : Valuation) (a : Term) → truth v (not_ a) ≡ not (truth v a)
    pub truth-implies_ :
        (v : Valuation) (a b : Term) → truth v (implies_ a b) ≡ imp (truth v a) (truth v b)
    pub ite__true : (v : Valuation) (c a b : Term) → truth v c ≡ true → SameAt v (ite_ c a b) v a
    pub ite__false : (v : Valuation) (c a b : Term) → truth v c ≡ false → SameAt v (ite_ c a b) v b
    pub bits-select_ : (v : Valuation) (a i : Term) → bits v (select_ a i) ≡ cell v a (bits v i)
    pub truth-select_ : (v : Valuation) (a i : Term) → truth v (select_ a i) ≡ flag v a (bits v i)
    pub cell-store_ :
        (v : Valuation) (a i x : Term) (j : ℕ)
        → cell v (store_ a i x) j ≡ (if j == bits v i then bits v x else cell v a j)
    pub flag-store_ :
        (v : Valuation) (a i x : Term) (j : ℕ)
        → flag v (store_ a i x) j ≡ (if j == bits v i then truth v x else flag v a j)
    pub splat_lem : (t e : Term) → splat? t ≡ some e → t ≡ const_array e
    pub cell-const_array : (v : Valuation) (e : Term) (i : ℕ) → cell v (const_array e) i ≡ bits v e
    pub flag-const_array : (v : Valuation) (e : Term) (i : ℕ) → flag v (const_array e) i ≡ truth v e
    pub cell-lambda_ :
        (v : Valuation) (x e : Term) (i : ℕ) → cell v (lambda_ x e) i ≡ bits (assign v x i) e
    pub flag-lambda_ :
        (v : Valuation) (x e : Term) (i : ℕ) → flag v (lambda_ x e) i ≡ truth (assign v x i) e
    pub bits-instantiate :
        (v : Valuation) (t e i : Term)
        → lambda_body? t ≡ some e
        → bits v (instantiate e i) ≡ cell v t (bits v i)
    pub truth-instantiate :
        (v : Valuation) (t e i : Term)
        → lambda_body? t ≡ some e
        → truth v (instantiate e i) ≡ flag v t (bits v i)
    -- A function has one result at arguments that mean the same.
    pub apply_-same :
        (v : Valuation) (f : FnDecl) (xs ys : List Term)
        → AllSame v xs ys
        → SameAt v (apply_ f xs) v (apply_ f ys)
    -- A bound variable ranges over the values of its width.
    pub forall_-true :
        (v : Valuation) (x e : Term)
        → truth v (forall_ x e) ≡ true
        → (i : ℕ) → i < 2 ^ width x
        → truth (assign v x i) e ≡ true
    pub true-forall_ :
        (v : Valuation) (x e : Term)
        → ((i : ℕ) → i < 2 ^ width x → truth (assign v x i) e ≡ true)
        → truth v (forall_ x e) ≡ true
    pub bits-assign :
        (v : Valuation) (x : Term) (i : ℕ)
        → is_var x ≡ true
        → i < 2 ^ width x
        → bits (assign v x i) x ≡ i
    -- A variable is neither a constant nor an application that the program looks for; a constant is no
    -- such application.
    pub numeral?-var : (x : Term) → is_var x ≡ true → numeral? x ≡ none
    pub app?-var : (x : Term) → is_var x ≡ true → app? x ≡ none
    pub app?-bv_val : (n w : ℕ) → app? (bv_val n w) ≡ none
    pub substitute_lem :
        (v : Valuation) (xs es : List Term) (t : Term)
        → AreVars xs
        → SameAt v (substitute xs es t) (assign_all v xs (map (bits v) es)) t
    -- Sorts and widths.
    pub width-substitute : (xs es : List Term) (t : Term) → width (substitute xs es t) ≡ width t
    pub is_bool-substitute :
        (xs es : List Term) (t : Term) → is_bool (substitute xs es t) ≡ is_bool t
    pub is_bool-bv_val : (n w : ℕ) → is_bool (bv_val n w) ≡ false
    pub is_bool-const_array : (e : Term) → is_bool (const_array e) ≡ false
    pub is_bool-ite_ : (c a b : Term) → is_bool a ≡ false → is_bool (ite_ c a b) ≡ false
    pub is_bool-store_ : (a i x : Term) → is_bool (store_ a i x) ≡ false
    pub is_bool-lambda_ : (x e : Term) → is_bool (lambda_ x e) ≡ false
    pub is_bool-width : (t : Term) → 0 < width t → is_bool t ≡ false
    pub width-ite_ : (c a b : Term) → width a ≡ width b → width (ite_ c a b) ≡ width a
    pub width-apply_ : (f : FnDecl) (xs : List Term) → width (apply_ f xs) ≡ f.range
    pub width-bvand : (a b : Term) → width (bvand a b) ≡ width a
    pub width-bvor : (a b : Term) → width (bvor a b) ≡ width a
    pub width-bvxor : (a b : Term) → width (bvxor a b) ≡ width a
    pub width-bv_val : (n w : ℕ) → width (bv_val n w) ≡ w
    pub width-bvadd : (a b : Term) → width (bvadd a b) ≡ width a
    pub width-bvsub : (a b : Term) → width (bvsub a b) ≡ width a
    pub width-bvmul : (a b : Term) → width (bvmul a b) ≡ width a
    pub width-bvurem : (a b : Term) → width (bvurem a b) ≡ width a
    pub width-bvudiv : (a b : Term) → width (bvudiv a b) ≡ width a
    pub width-bvconcat : (a b : Term) → width (bvconcat a b) ≡ width a + width b
    pub width-bvextract : (h l : ℕ) (a : Term) → width (bvextract h l a) ≡ h + 1 - l
    pub width-bvzext : (k : ℕ) (a : Term) → width (bvzext k a) ≡ width a + k
    pub width-simplify : (t : Term) → width (simplify t) ≡ width t
