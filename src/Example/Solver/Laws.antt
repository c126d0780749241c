-- ===== src/Example/Solver/Laws.antt =====
-- `Example.Solver.solver` meets the laws.
use native.Mathlib.Nat.{le_trans, mod-eq_of_lt, pow-le-pow_right, mod-lt, le-max_left, le-max_right}
use mlir_tv.Base.{
  ℕ, ◌+◌, ◌%◌, ◌^◌, ◌<◌, ◌≤◌, ◌≡◌, refl, Bool, true, false, ◌&&◌, none, some, List, [], ◌∷◌, map,
  ==_iff, ◌==◌, if◌then◌else◌, arith, zero, suc, Bool-cases, inl, inr,
}
use mlir_tv.Base.Pow.{pow-pos, pow-add}
use mlir_tv.Smt.Terms.{
  concat_kind, urem_kind, udiv_kind, mul_kind, zero_ext_kind, eq_kind, IsSmt, SameAt, AllSame,
  FnDecl, assign_all,
}
use mlir_tv.Smt.Same.{SameAt-rfl}
use mlir_tv.Example.Solver.{
  Values, Tm, num, const, var, bin, ext, splat, fn, concats, urems, udivs, muls, size_of, bits_of,
  truth_of, cell_of, choose, written, set_var, number?, is_const, is_boolean, same, head?,
  splat_elem?, is_variable, set_vars, substituted, all_below, total, word, solver,
}

clamp : (n w u : ℕ) → n < 2 ^ w → w ≤ u → n % 2 ^ u ≡ n
clamp n w u h k = mod-eq_of_lt (le_trans h (pow-le-pow_right {n = 2} (omega arith) k))

bits_of-lt : (v : Values) (t : Tm) → bits_of v t < 2 ^ size_of t
bits_of-lt v (num n w) = mod-lt n (pow-pos w)
bits_of-lt v (const b) = omega arith
bits_of-lt v (var x w) = mod-lt (v x) (pow-pos w)
bits_of-lt v (bin concats a b) =
    rw (pow-add (size_of a) (size_of b)) (grind (arith, bits_of-lt v a, bits_of-lt v b))
bits_of-lt v (bin urems a b) = grind (arith, bits_of-lt v a)
bits_of-lt v (bin udivs a b) = grind (arith, bits_of-lt v a, pow-pos (size_of a))
bits_of-lt v (bin muls a b) = mod-lt _ (pow-pos (size_of a))
bits_of-lt v (ext k a) =
    le_trans (bits_of-lt v a) (pow-le-pow_right {n = 2} (omega arith) (omega arith))
bits_of-lt v (splat e) = pow-pos (size_of e)
bits_of-lt v (fn m) = mod-lt (m.value v) (pow-pos m.size)

cell_of-lt : (v : Values) (a : Tm) (i : ℕ) → cell_of v a i < 2 ^ size_of a
cell_of-lt v (splat e) i = bits_of-lt v e
cell_of-lt v (fn m) i = mod-lt (m.cells v i) (pow-pos m.size)
cell_of-lt v (num n w) i = pow-pos _
cell_of-lt v (const b) i = omega arith
cell_of-lt v (var x w) i = pow-pos w
cell_of-lt v (bin o a b) i = pow-pos (size_of (bin o a b))
cell_of-lt v (ext k a) i = pow-pos (size_of a + k)

number?-lem : (v : Values) (t : Tm) (n : ℕ) → number? t ≡ some n → (bits_of v t ≡ n) × (n < 2 ^ 64)
number?-lem v (num m w) n h = ground arith
number?-lem v _ n h = cc

number?-width : (t : Tm) (n : ℕ) → number? t ≡ some n → 0 < size_of t
number?-width (num m w) n h = ground arith
number?-width _ n h = cc

is_const-true : (v : Values) (t : Tm) → is_const true t ≡ true → truth_of v t ≡ true
is_const-true v (const b) h = h
is_const-true v _ h = cc

is_const-false : (v : Values) (t : Tm) → is_const false t ≡ true → truth_of v t ≡ false
is_const-false v (const b) h = ground arith
is_const-false v _ h = cc

is_bool_true : (t : Tm) → is_const true t ≡ true → is_boolean t ≡ true
is_bool_true (const b) h = refl
is_bool_true _ h = cc

is_bool_false : (t : Tm) → is_const false t ≡ true → is_boolean t ≡ true
is_bool_false (const b) h = refl
is_bool_false _ h = cc

same_lem : (s t : Tm) → same s t ≡ true → s ≡ t
same_lem (num n w) (num m u) h = ground arith
same_lem (var n w) (var m u) h = ground arith
same_lem _ _ h = cc

head-concat : (t a b : Tm) → head? t ≡ some (concat_kind, a ∷ b ∷ []) → t ≡ bin concats a b
head-concat (bin concats x y) a b h = ground arith
head-concat _ a b h = absurd (ground arith)

head-urem : (t a b : Tm) → head? t ≡ some (urem_kind, a ∷ b ∷ []) → t ≡ bin urems a b
head-urem (bin urems x y) a b h = ground arith
head-urem _ a b h = absurd (ground arith)

head-udiv :
    (t a b : Tm)
    → head? t ≡ some (udiv_kind, a ∷ b ∷ [])
    → (t ≡ bin udivs a b) × (size_of a ≡ size_of b)
head-udiv (bin udivs x y) a b h = elim (Bool-cases (size_of x == size_of y)) [
  | inl e ↦
      let f : x ≡ a = ground arith in
      let g : y ≡ b = ground arith in rw (← f, ← g) (refl, (==_iff _ _).0 e)
  | inr e ↦ absurd (ground arith)
]
head-udiv _ a b h = absurd (ground arith)

head-mul : (t a b : Tm) → head? t ≡ some (mul_kind, a ∷ b ∷ []) → t ≡ bin muls a b
head-mul (bin muls x y) a b h = ground arith
head-mul _ a b h = absurd (ground arith)

head-zero_ext :
    (t : Tm) (args : List Tm)
    → head? t ≡ some (zero_ext_kind, args)
    → (a : Tm) × (k : ℕ) × (args ≡ a ∷ []) × (t ≡ ext k a)
head-zero_ext (ext k a) args h = (a, k, ground arith, refl)
head-zero_ext _ args h = absurd (ground arith)

head-ne-eq : (t : Tm) (args : List Tm) → ¬ (head? t ≡ some (eq_kind, args))
head-ne-eq (ext k a) args h = ground arith
head-ne-eq (bin concats a b) args h = ground arith
head-ne-eq _ args h = ground arith

none-ne-some : (e : Tm) → ¬ (none ≡ some e)
none-ne-some e h = cc

splat_elem?-lem : (t e : Tm) → splat_elem? t ≡ some e → t ≡ splat e
splat_elem?-lem (splat a) e h = ground arith
splat_elem?-lem _ e h = absurd (ground arith)

set_vars-assign_all :
    (v : Values) (xs : List Tm) (ns : List ℕ) → set_vars v xs ns ≡ assign_all solver v xs ns
set_vars-assign_all v [] ns = refl
set_vars-assign_all v (x ∷ xs) [] = refl
set_vars-assign_all v (x ∷ xs) (n ∷ ns) = set_vars-assign_all (set_var v x n) xs ns

substituted_lem :
    (v : Values) (xs es : List Tm) (t : Tm)
    → SameAt solver v (substituted xs es t) (assign_all solver v xs (map (bits_of v) es)) t
substituted_lem v xs es t = rw (← set_vars-assign_all v xs (map (bits_of v) es)) (record {
  bits_eq = mod-eq_of_lt (bits_of-lt (set_vars v xs (map (bits_of v) es)) t);
  truth_eq = refl;
  cell_eq = λ i. mod-eq_of_lt (cell_of-lt (set_vars v xs (map (bits_of v) es)) t i);
  flag_eq = λ i. refl;
})

module _ (v : Values) (c a b : Tm) where
  choose-true : truth_of v c ≡ true → SameAt solver v (choose c a b) v a
  choose-true h = record {
    bits_eq = rw h (clamp _ _ _ (bits_of-lt v a) (le-max_left _ _));
    truth_eq = rw h;
    cell_eq = λ i. rw h (clamp _ _ _ (cell_of-lt v a i) (le-max_left _ _));
    flag_eq = λ i. rw h;
  }

  choose-false : truth_of v c ≡ false → SameAt solver v (choose c a b) v b
  choose-false h = record {
    bits_eq = rw h (clamp _ _ _ (bits_of-lt v b) (le-max_right _ _));
    truth_eq = rw h;
    cell_eq = λ i. rw h (clamp _ _ _ (cell_of-lt v b i) (le-max_right _ _));
    flag_eq = λ i. rw h;
  }

written-cell :
    (v : Values) (a i x : Tm) (j : ℕ)
    → cell_of v (written a i x) j ≡ (if j == bits_of v i then bits_of v x else cell_of v a j)
written-cell v a i x j = elim (Bool-cases (j == bits_of v i)) [
  | inl h ↦ rw h (clamp _ _ _ (bits_of-lt v x) (le-max_right _ _))
  | inr h ↦ rw h (clamp _ _ _ (cell_of-lt v a j) (le-max_left _ _))
]

all_below-true : (n : ℕ) (p : ℕ → Bool) (i : ℕ) → all_below n p ≡ true → i < n → p i ≡ true
all_below-true zero p i h k = absurd (omega arith)
all_below-true (suc n) p i h k = ground (arith, all_below-true n p i)

true-all_below : (n : ℕ) (p : ℕ → Bool) → ((i : ℕ) → i < n → p i ≡ true) → all_below n p ≡ true
true-all_below zero p h = refl
true-all_below (suc n) p h =
    ground (arith, h n (omega arith), true-all_below n p (λ i k. h i (omega arith)))

set_var-bits :
    (v : Values) (x : Tm) (i : ℕ)
    → is_variable x ≡ true
    → i < 2 ^ size_of x
    → bits_of (set_var v x i) x ≡ i
set_var-bits v (var x w) i h k = ground (arith, mod-eq_of_lt k)
set_var-bits v _ i h k = cc

number?-variable : (t : Tm) → is_variable t ≡ true → number? t ≡ none
number?-variable t h = ground arith

head?-variable : (t : Tm) → is_variable t ≡ true → head? t ≡ none
head?-variable t h = ground arith

total-same : (v : Values) (xs ys : List Tm) → AllSame solver v xs ys → total v xs ≡ total v ys
total-same v [] [] h = refl
total-same v [] (b ∷ ys) h = absurd h
total-same v (a ∷ xs) [] h = absurd h
total-same v (a ∷ xs) (b ∷ ys) (h, k) = rw (h.bits_eq, h.cell_eq 0, total-same v xs ys k) refl

apply-same :
    (v : Values) (f : FnDecl) (xs ys : List Tm)
    → AllSame solver v xs ys
    → SameAt solver v (word f.range (λ u. total u xs)) v (word f.range (λ u. total u ys))
apply-same v f xs ys h = record {
  bits_eq = rw (total-same v xs ys h) refl;
  truth_eq = refl;
  cell_eq = λ i. refl;
  flag_eq = λ i. refl;
}

boolean-size : (t : Tm) → 0 < size_of t → is_boolean t ≡ false
boolean-size (const b) h = absurd (omega arith)
boolean-size (fn m) h = ground arith
boolean-size _ h = refl

choose-size : (c a b : Tm) → size_of a ≡ size_of b → size_of (choose c a b) ≡ size_of a
choose-size c a b e = omega (arith, e)

boolean-again : (t : Tm) → (is_boolean t && size_of t == 0) ≡ is_boolean t
boolean-again (const b) = refl
boolean-again (fn m) = ground arith
boolean-again _ = refl

-- The laws can be met.
pub solver-IsSmt : IsSmt solver
solver-IsSmt = record {
  bits-lt = bits_of-lt;
  numeral_lem = λ v t n h. number?-lem v t n h;
  width-numeral = number?-width;
  is_true_lem = is_const-true;
  is_false_lem = is_const-false;
  is_bool-is_true = is_bool_true;
  is_bool-is_false = is_bool_false;
  identical_lem = same_lem;
  app-concat = head-concat;
  app-urem = head-urem;
  app-udiv = head-udiv;
  app-mul = head-mul;
  counts-long_app = λ k t a b c rest h. refl;
  app-zero_ext = head-zero_ext;
  app-eq = λ v t a b h c. absurd (head-ne-eq t (a ∷ b ∷ []) h);
  simplify_lem = SameAt-rfl;
  bits-bv_val = λ v n w. refl;
  truth-bool_val = λ v b. refl;
  bits-bvadd = λ v a b. refl;
  bits-bvsub = λ v a b. refl;
  bits-bvmul = λ v a b. refl;
  bits-bvurem = λ v a b. refl;
  bits-bvudiv = λ v a b. refl;
  bits-bvconcat = λ v a b. refl;
  bits-bvand = λ v a b. refl;
  bits-bvor = λ v a b. refl;
  bits-bvxor = λ v a b. refl;
  truth-xor_ = λ v a b. refl;
  apply_-same = apply-same;
  is_bool-width = boolean-size;
  width-ite_ = choose-size;
  width-apply_ = λ f xs. refl;
  width-bvand = λ a b. refl;
  width-bvor = λ a b. refl;
  width-bvxor = λ a b. refl;
  bits-bvextract = λ v h l a. refl;
  bits-bvzext = λ v k a. refl;
  truth-bvult = λ v a b. refl;
  truth-bvule = λ v a b. refl;
  truth-eq = λ v a b. refl;
  truth-and_ = λ v a b. refl;
  truth-or_ = λ v a b. refl;
  truth-implies_ = λ v a b. refl;
  truth-not_ = λ v a. refl;
  ite__true = choose-true;
  ite__false = choose-false;
  bits-select_ = λ v a i. mod-eq_of_lt (cell_of-lt v a (bits_of v i));
  truth-select_ = λ v a i. refl;
  cell-store_ = written-cell;
  flag-store_ = λ v a i x j. refl;
  splat_lem = splat_elem?-lem;
  cell-const_array = λ v e i. refl;
  flag-const_array = λ v e i. refl;
  cell-lambda_ = λ v x e i. mod-eq_of_lt (bits_of-lt (set_var v x i) e);
  flag-lambda_ = λ v x e i. refl;
  bits-instantiate = λ v t e i h. absurd (none-ne-some e h);
  truth-instantiate = λ v t e i h. absurd (none-ne-some e h);
  forall_-true =
      λ v x e h i k. all_below-true (2 ^ size_of x) (λ i. truth_of (set_var v x i) e) i h k;
  true-forall_ = λ v x e h. true-all_below (2 ^ size_of x) (λ i. truth_of (set_var v x i) e) h;
  bits-assign = set_var-bits;
  numeral?-var = number?-variable;
  app?-var = head?-variable;
  app?-bv_val = λ n w. refl;
  is_bool-bv_val = λ n w. refl;
  is_bool-const_array = λ e. refl;
  is_bool-ite_ = λ c a b h. rw h refl;
  is_bool-store_ = λ a i x. refl;
  is_bool-lambda_ = λ x e. refl;
  substitute_lem = λ v xs es t h. substituted_lem v xs es t;
  width-substitute = λ xs es t. refl;
  is_bool-substitute = λ xs es t. boolean-again t;
  width-bv_val = λ n w. refl;
  width-bvadd = λ a b. refl;
  width-bvsub = λ a b. refl;
  width-bvmul = λ a b. refl;
  width-bvurem = λ a b. refl;
  width-bvudiv = λ a b. refl;
  width-bvconcat = λ a b. refl;
  width-bvextract = λ h l a. refl;
  width-bvzext = λ k a. refl;
  width-simplify = λ t. refl;
}
