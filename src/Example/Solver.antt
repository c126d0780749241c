-- ===== src/Example/Solver.antt =====
-- A solver that meets the interface of src/smt.cpp's solver: a term is a constant, a variable, an
-- application that the program looks for, or what it means as a function of the valuation.
pub mod Laws
use native.Mathlib.Nat.{le_trans, mod-mod, mod-eq_of_lt, pow-le-pow_right, mod-lt}
use Prim.Native.Nat.{bit_and, bit_or, bit_xor}
use mlir_tv.Base.{
  ℕ, ◌+◌, ◌-◌, ◌*◌, ◌/◌, ◌%◌, ◌^◌, ◌<◌, ◌≤◌, max, ◌≡◌, refl, Bool, true, false, ◌&&◌, ◌||◌, not,
  Option, none, some, List, [], ◌∷◌, map, ltb, leb, ◌==◌, if◌then◌else◌, imp, arith, zero, suc,
}
use mlir_tv.Base.Pow.{pow-pos, pow-add}
use mlir_tv.Smt.Terms.{
  Kind, concat_kind, urem_kind, udiv_kind, mul_kind, zero_ext_kind, eq_kind, other_kind, Smt, IsSmt,
  SameAt, FnDecl,
}

abbrev pub Values : Type 0
Values = ℕ → ℕ

-- The meaning of a term of any sort; `size` is the width, or that of an array's elements.
pub record Meaning : Type 0 where
  pub size : ℕ
  pub boolean : Bool
  pub value : Values → ℕ
  pub holds : Values → Bool
  pub cells : Values → ℕ → ℕ
  pub flags : Values → ℕ → Bool

pub data Bin : Type 0 where
  concats urems udivs muls : Bin

pub data Tm : Type 0 where
  num : ℕ → ℕ → Tm
  const : Bool → Tm
  var : ℕ → ℕ → Tm
  bin : Bin → Tm → Tm → Tm
  ext : ℕ → Tm → Tm
  splat : Tm → Tm
  fn : Meaning → Tm

abbrev pub size_of : Tm → ℕ
size_of (num n w) = w
size_of (const b) = 0
size_of (var x w) = w
size_of (bin concats a b) = size_of a + size_of b
size_of (bin urems a b) = size_of a
size_of (bin udivs a b) = size_of a
size_of (bin muls a b) = size_of a
size_of (ext k a) = size_of a + k
size_of (splat e) = size_of e
size_of (fn m) = m.size

abbrev pub bin_value : Bin → ℕ → ℕ → ℕ → ℕ → ℕ
bin_value concats w u a b = a * 2 ^ u + b
bin_value urems w u a b = if b == 0 then a else a % b
bin_value udivs w u a b = if b == 0 then 2 ^ w - 1 else a / b
bin_value muls w u a b = (a * b) % 2 ^ w

abbrev pub bits_of : Values → Tm → ℕ
bits_of v (num n w) = n % 2 ^ w
bits_of v (const b) = 0
bits_of v (var x w) = v x % 2 ^ w
bits_of v (bin o a b) = bin_value o (size_of a) (size_of b) (bits_of v a) (bits_of v b)
bits_of v (ext k a) = bits_of v a
bits_of v (splat e) = 0
bits_of v (fn m) = m.value v % 2 ^ m.size

abbrev pub truth_of : Values → Tm → Bool
truth_of v (const b) = b
truth_of v (fn m) = m.holds v
truth_of v _ = false

abbrev pub cell_of : Values → Tm → ℕ → ℕ
cell_of v (splat e) i = bits_of v e
cell_of v (fn m) i = m.cells v i % 2 ^ m.size
cell_of v _ i = 0

abbrev pub flag_of : Values → Tm → ℕ → Bool
flag_of v (splat e) i = truth_of v e
flag_of v (fn m) i = m.flags v i
flag_of v _ i = false

-- The builders that are not looked for.
abbrev pub word : ℕ → (Values → ℕ) → Tm
word w f = fn (record {
  size = w;
  boolean = false;
  value = f;
  holds = λ v. false;
  cells = λ v i. 0;
  flags = λ v i. false;
})

abbrev pub prop : (Values → Bool) → Tm
prop f = fn (record {
  size = 0;
  boolean = true;
  value = λ v. 0;
  holds = f;
  cells = λ v i. 0;
  flags = λ v i. false;
})

abbrev pub array : ℕ → (Values → ℕ → ℕ) → (Values → ℕ → Bool) → Tm
array w f g =
    fn (record {
      size = w;
      boolean = false;
      value = λ v. 0;
      holds = λ v. false;
      cells = f;
      flags = g;
    })

abbrev pub is_boolean : Tm → Bool
is_boolean (const b) = true
is_boolean (fn m) = m.boolean && m.size == 0
is_boolean _ = false

abbrev pub choose : Tm → Tm → Tm → Tm
choose c a b = fn (record {
  size = max (size_of a) (size_of b);
  boolean = is_boolean a;
  value = λ v. if truth_of v c then bits_of v a else bits_of v b;
  holds = λ v. if truth_of v c then truth_of v a else truth_of v b;
  cells = λ v i. if truth_of v c then cell_of v a i else cell_of v b i;
  flags = λ v i. if truth_of v c then flag_of v a i else flag_of v b i;
})

abbrev pub written : Tm → Tm → Tm → Tm
written a i x =
    array (max (size_of a) (size_of x))
      (λ v j. if j == bits_of v i then bits_of v x else cell_of v a j)
      (λ v j. if j == bits_of v i then truth_of v x else flag_of v a j)

abbrev pub read : Tm → Tm → Tm
read a i = fn (record {
  size = size_of a;
  boolean = false;
  value = λ v. cell_of v a (bits_of v i);
  holds = λ v. flag_of v a (bits_of v i);
  cells = λ v i. 0;
  flags = λ v i. false;
})

abbrev pub set_var : Values → Tm → ℕ → Values
set_var v (var x w) i = λ y. if y == x then i else v y
set_var v _ i = v

abbrev pub number? : Tm → Option ℕ
number? (num n w) = if ltb 0 w && ltb (n % 2 ^ w) (2 ^ 64) then some (n % 2 ^ w) else none
number? _ = none

abbrev pub is_const : Bool → Tm → Bool
is_const true (const b) = b
is_const false (const b) = not b
is_const _ _ = false

abbrev pub same : Tm → Tm → Bool
same (num n w) (num m u) = n == m && w == u
same (var n w) (var m u) = n == m && w == u
same _ _ = false

abbrev pub head? : Tm → Option (Kind × List Tm)
head? (bin concats a b) = some (concat_kind, a ∷ b ∷ [])
head? (bin urems a b) = some (urem_kind, a ∷ b ∷ [])
head? (bin udivs a b) = if size_of a == size_of b then some (udiv_kind, a ∷ b ∷ []) else none
head? (bin muls a b) = some (mul_kind, a ∷ b ∷ [])
head? (ext k a) = some (zero_ext_kind, a ∷ [])
head? _ = none

abbrev pub splat_elem? : Tm → Option Tm
splat_elem? (splat e) = some e
splat_elem? _ = none

abbrev pub is_variable : Tm → Bool
is_variable (var x w) = true
is_variable _ = false

abbrev pub all_below : ℕ → (ℕ → Bool) → Bool
all_below zero p = true
all_below (suc n) p = p n && all_below n p

abbrev pub set_vars : Values → List Tm → List ℕ → Values
set_vars v [] ns = v
set_vars v (x ∷ xs) [] = v
set_vars v (x ∷ xs) (n ∷ ns) = set_vars (set_var v x n) xs ns

-- The functions add their arguments, and the first entry of an array.
abbrev pub total : Values → List Tm → ℕ
total v [] = 0
total v (a ∷ xs) = bits_of v a + cell_of v a 0 + total v xs

-- The meaning of a substitution, through the valuation that it stands for.
abbrev pub substituted : List Tm → List Tm → Tm → Tm
substituted xs es t = fn (record {
  size = size_of t;
  boolean = is_boolean t;
  value = λ v. bits_of (set_vars v xs (map (bits_of v) es)) t;
  holds = λ v. truth_of (set_vars v xs (map (bits_of v) es)) t;
  cells = λ v i. cell_of (set_vars v xs (map (bits_of v) es)) t i;
  flags = λ v i. flag_of (set_vars v xs (map (bits_of v) es)) t i;
})

instance abbrev pub solver : Smt
solver = record {
  counts_args = true;
  Term = Tm;
  Valuation = Values;
  bits = bits_of;
  truth = truth_of;
  cell = cell_of;
  flag = flag_of;
  assign = set_var;
  width = size_of;
  numeral? = number?;
  is_bool = is_boolean;
  is_var = is_variable;
  is_true = is_const true;
  is_false = is_const false;
  identical = same;
  app? = head?;
  splat? = splat_elem?;
  lambda_body? = λ t. none;
  simplify = λ t. t;
  bv_val = num;
  bool_val = const;
  bvadd = λ a b. word (size_of a) (λ v. bits_of v a + bits_of v b);
  bvsub = λ a b. word (size_of a) (λ v. bits_of v a + 2 ^ size_of a - bits_of v b);
  bvmul = bin muls;
  bvurem = bin urems;
  bvudiv = bin udivs;
  bvconcat = bin concats;
  bvand = λ a b. word (size_of a) (λ v. bit_and (bits_of v a) (bits_of v b));
  bvor = λ a b. word (size_of a) (λ v. bit_or (bits_of v a) (bits_of v b));
  bvxor = λ a b. word (size_of a) (λ v. bit_xor (bits_of v a) (bits_of v b));
  xor_ = λ a b. prop (λ v. if truth_of v a then not (truth_of v b) else truth_of v b);
  apply_ = λ f xs. word f.range (λ v. total v xs);
  bvextract = λ h l a. word (h + 1 - l) (λ v. bits_of v a / 2 ^ l);
  bvzext = ext;
  bvult = λ a b. prop (λ v. ltb (bits_of v a) (bits_of v b));
  bvule = λ a b. prop (λ v. leb (bits_of v a) (bits_of v b));
  eq = λ a b. prop (λ v. bits_of v a == bits_of v b);
  and_ = λ a b. prop (λ v. truth_of v a && truth_of v b);
  or_ = λ a b. prop (λ v. truth_of v a || truth_of v b);
  not_ = λ a. prop (λ v. not (truth_of v a));
  implies_ = λ a b. prop (λ v. imp (truth_of v a) (truth_of v b));
  ite_ = choose;
  select_ = read;
  store_ = written;
  const_array = splat;
  lambda_ = λ x e.
      array (size_of e) (λ v i. bits_of (set_var v x i) e) (λ v i. truth_of (set_var v x i) e);
  forall_ = λ x e. prop (λ v. all_below (2 ^ size_of x) (λ i. truth_of (set_var v x i) e));
  substitute = substituted;
  instantiate = λ e i. e;
}
