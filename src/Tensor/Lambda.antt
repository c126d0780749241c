-- ===== src/Tensor/Lambda.antt =====
-- The elements of the tensors that `Tensor::mkLambda` of src/value.cpp makes.
use mathlib.Core.Path.{subst}
use mathlib.Core.List.{reverse_aux-reverse_aux-nil}
use native.Mathlib.Nat.{le_trans, mod-eq_of_lt}
use mlir_tv.Base.{
  ℕ, suc, ◌%◌, ◌^◌, ◌≤◌, ◌<◌, ◌≡◌, refl, Bool, true, some, List, [], ◌∷◌, map, reverse, length, All,
  ◌==◌, ==_iff, arith, sym, ap, ◌∙◌,
}
use mlir_tv.Smt.Terms.{Smt, IsSmt, SameAt, IsFresh, AreVars, assign_all}
use mlir_tv.Smt.Index.{from_1d_idx}
use mlir_tv.Smt.Index.Digits.{
  InDims, row_major, product, row_major-lt_product, low_digits, low_digits-row_major,
}
use mlir_tv.Smt.Index.Meaning.{AreIndices, from_1d_idx_lem, to_1d_idx_lem}
use mlir_tv.Memory.{select}
use mlir_tv.Memory.Heap.{bits-select, truth-select}
use mlir_tv.Tensor.{Tensor, all_of, lambda_dims, at_index, get, get_raw, get_initialized, mk_lambda}

module _ ⦃S : Smt⦄ (L : IsSmt S) (w : ℕ) (s : w ≤ 32) where
  open S use {Term, Valuation, bits, truth, cell, flag, assign, width, is_var, lambda_, substitute}

  -- `idx` is a variable of the width of an index that the sizes do not mention.
  pub record IsBinder (idx : Term) (ds : List Term) : Type 0 where
    pub variable : is_var idx ≡ true
    pub index : width idx ≡ w
    pub fresh_dims : All (IsFresh S idx) ds

  pub map-fresh :
      (v : Valuation) (x : Term) (n : ℕ) (ts : List Term)
      → All (IsFresh S x) ts
      → map (bits (assign v x n)) ts ≡ map (bits v) ts
  map-fresh v x n [] h = refl
  map-fresh v x n (t ∷ ts) (h, k) =
      ap (λ (j : ℕ). j ∷ map (bits (assign v x n)) ts) (h v n).bits_eq
      ∙ ap (λ (l : List ℕ). bits v t ∷ l) (map-fresh v x n ts k)

  all_of-AreVars : (xs : List Term) → AreVars S xs → all_of is_var xs ≡ true
  unfolding all_of
  all_of-AreVars [] h = refl
  all_of-AreVars (x ∷ xs) (h, k) = ground (arith, all_of-AreVars xs k)

  -- The index variables changed under the variable `idx`.
  abbrev pub under : Valuation → Term → ℕ → List Term → List ℕ → Valuation
  under v idx n vars ns = assign_all S (assign v idx n) vars ns

  -- At the offset of an index, the indices made of the variable `idx` are that index.
  index_again :
      (v : Valuation) (idx d : Term) (ds : List Term) (ns : List ℕ)
      → is_var idx ≡ true
      → width idx ≡ w
      → AreIndices L v w s (d ∷ ds)
      → All (IsFresh S idx) (d ∷ ds)
      → InDims ns (map (bits v) (d ∷ ds))
      → product (map (bits v) (d ∷ ds)) ≤ 2 ^ w
      → (idxs : List Term) × (from_1d_idx idx (d ∷ ds) ≡ some idxs)
        × (map (bits (assign v idx (row_major ns (map (bits v) (d ∷ ds))))) idxs ≡ ns)
  index_again v idx d ds ns h e a f k p =
      let ms = map (bits v) (d ∷ ds) in
      let n = row_major ns ms in
      let v' = assign v idx n in
      let lt : n < 2 ^ width idx = rw e (le_trans (row_major-lt_product ns ms (omega arith) k) p) in
      let (i, is, g, _, _, b) = from_1d_idx_lem L v' w s idx d ds e a in
      (
        i ∷ is,
        g,
        b
            ∙ ap (λ (l : List ℕ). reverse (low_digits w (bits v' idx) (reverse l)))
                (map-fresh v idx n (d ∷ ds) f)
            ∙ ap (λ (m : ℕ). reverse (low_digits w m (reverse ms))) (L.bits-assign v idx n h lt)
            ∙ ap reverse (low_digits-row_major w ns ms (omega arith) k)
            ∙ reverse_aux-reverse_aux-nil ns [],
      )

  -- The same at any sizes, with what is known of the indices.
  pub indices_again :
      (v : Valuation) (idx : Term) (ds : List Term) (ns : List ℕ)
      → 0 < length ds
      → IsBinder idx ds
      → AreIndices L v w s ds
      → InDims ns (map (bits v) ds)
      → product (map (bits v) ds) ≤ 2 ^ w
      → (idxs : List Term) × (from_1d_idx idx ds ≡ some idxs)
        × (length idxs ≡ length ds)
        × AreIndices L v w s idxs
        × (map (bits (assign v idx (row_major ns (map (bits v) ds)))) idxs ≡ ns)
  indices_again v idx [] ns z b a k p = absurd (omega arith)
  indices_again v idx (d ∷ ds) ns z b a k p =
      let v' = assign v idx (row_major ns (map (bits v) (d ∷ ds))) in
      let (i, is, g, l, c, _) = from_1d_idx_lem L v' w s idx d ds b.index a in
      let (js, f, e) = index_again v idx d ds ns b.variable b.index a b.fresh_dims k p in
      let q : js ≡ i ∷ is = ground arith in (i ∷ is, g, ap suc l, c, ap (map (bits v')) (sym q) ∙ e)

  -- A body under the variable `idx` at an offset is the body with the index for its variables.
  body_again :
      (v : Valuation) (idx d x body : Term) (ds xs idxs : List Term) (ns : List ℕ)
      → IsBinder idx (d ∷ ds)
      → AreVars S (x ∷ xs)
      → AreIndices L v w s (d ∷ ds)
      → InDims ns (map (bits v) (d ∷ ds))
      → product (map (bits v) (d ∷ ds)) ≤ 2 ^ w
      → from_1d_idx idx (d ∷ ds) ≡ some idxs
      → SameAt S
          (assign v idx (row_major ns (map (bits v) (d ∷ ds))))
          (at_index (x ∷ xs) idxs body)
          (under v idx (row_major ns (map (bits v) (d ∷ ds))) (x ∷ xs) ns)
          body
  unfolding at_index
  body_again v idx d x body ds xs idxs ns b r a k p g =
      let v' = assign v idx (row_major ns (map (bits v) (d ∷ ds))) in
      let (js, f, e) = index_again v idx d ds ns b.variable b.index a b.fresh_dims k p in
      let q : js ≡ idxs = ground arith in
      let e' : map (bits v') idxs ≡ ns = ap (map (bits v')) (sym q) ∙ e in
      subst (λ l. SameAt S v' (substitute (x ∷ xs) idxs body) (assign_all S v' (x ∷ xs) l) body) e'
        (L.substitute_lem v' (x ∷ xs) idxs body r)

  -- What `mkLambda` makes once its assertions hold.
  abbrev made :
      ℕ → Term → Term → List Term → List Term → List Term → List Term → Term → Term → Tensor
  made ty idx idx_init ds vars idxs idxs_init body init = record {
    elem_type = ty;
    dims = ds;
    arr = lambda_ idx (at_index vars idxs body);
    initialized = lambda_ idx_init (at_index vars idxs_init init);
  }

  -- The element of a tensor at an index, in row-major order.
  unfoldable pub element : Valuation → Tensor → List ℕ → ℕ
  element v t ns = cell v t.arr (row_major ns (map (bits v) t.dims) % 2 ^ w)

  unfoldable pub element_initialized : Valuation → Tensor → List ℕ → Bool
  element_initialized v t ns = flag v t.initialized (row_major ns (map (bits v) t.dims) % 2 ^ w)

  -- `get` and `isInitialized` succeed at as many indices as dimensions, and read the element there.
  pub get_lem :
      (v : Valuation) (t : Tensor) (is : List Term)
      → length is ≡ length t.dims
      → AreIndices L v w s is
      → AreIndices L v w s t.dims
      → (e : Term) × (i : Term) × (get w t is ≡ some e)
        × (get_initialized w t is ≡ some i)
        × (bits v e ≡ element v t (map (bits v) is))
        × (truth v i ≡ element_initialized v t (map (bits v) is))
  unfolding get get_raw get_initialized element element_initialized
  get_lem v t is e a b =
      let (p, f, _, c) = to_1d_idx_lem L v w s is t.dims e a b in
      (
        select t.arr p,
        select t.initialized p,
        rw f,
        rw f,
        bits-select L v t.arr p ∙ ap (cell v t.arr) c,
        truth-select L v t.initialized p ∙ ap (flag v t.initialized) c,
      )

  -- An element, where the variable `idx` does not matter to the body at the index.
  pub mk_lambda_at :
      (v : Valuation) (ty : ℕ) (idx idx_init d x body init : Term) (ds xs : List Term) (ns : List ℕ)
      → length ds ≡ length xs
      → AreVars S (x ∷ xs)
      → AreIndices L v w s (d ∷ ds)
      → IsBinder idx (d ∷ ds)
      → IsBinder idx_init (d ∷ ds)
      → InDims ns (map (bits v) (d ∷ ds))
      → product (map (bits v) (d ∷ ds)) ≤ 2 ^ w
      → ((i : ℕ) → bits (under v idx i (x ∷ xs) ns) body ≡ bits (assign_all S v (x ∷ xs) ns) body)
      → ((i : ℕ)
          → truth (under v idx_init i (x ∷ xs) ns) init ≡ truth (assign_all S v (x ∷ xs) ns) init)
      → (t : Tensor) × (mk_lambda w idx idx_init ty (d ∷ ds) (x ∷ xs) body init ≡ some t)
        × (t.dims ≡ d ∷ ds)
        × (element v t ns ≡ bits (assign_all S v (x ∷ xs) ns) body)
        × (element_initialized v t ns ≡ truth (assign_all S v (x ∷ xs) ns) init)
  unfolding mk_lambda lambda_dims element element_initialized
  mk_lambda_at v ty idx idx_init d x body init ds xs ns l r a b b' k p fb fi =
      let ms = map (bits v) (d ∷ ds) in
      let n = row_major ns ms in
      let lt : n < 2 ^ w = le_trans (row_major-lt_product ns ms (omega arith) k) p in
      let (js, f, _) = index_again v idx d ds ns b.variable b.index a b.fresh_dims k p in
      let (js', f', _) = index_again v idx_init d ds ns b'.variable b'.index a b'.fresh_dims k p in
      let e : (suc (length ds) == suc (length xs)) ≡ true =
        (==_iff (suc (length ds)) (suc (length xs))).1 (ap suc l) in
      let t = made ty idx idx_init (d ∷ ds) (x ∷ xs) js js' body init in
      (
        t,
        rw (mk_lambda, lambda_dims, e, all_of-AreVars (x ∷ xs) r, f, f'),
        refl,
        ap (cell v t.arr) (mod-eq_of_lt lt)
            ∙ L.cell-lambda_ v idx (at_index (x ∷ xs) js body) n
            ∙ (body_again v idx d x body ds xs js ns b r a k p f).bits_eq
            ∙ fb n,
        ap (flag v t.initialized) (mod-eq_of_lt lt)
            ∙ L.flag-lambda_ v idx_init (at_index (x ∷ xs) js' init) n
            ∙ (body_again v idx_init d x init ds xs js' ns b' r a k p f').truth_eq
            ∙ fi n,
      )

  -- The same at any number of variables but none.
  pub mk_lambda_any :
      (v : Valuation) (ty : ℕ) (idx idx_init body init : Term) (ds vars : List Term) (ns : List ℕ)
      → 0 < length vars
      → length ds ≡ length vars
      → AreVars S vars
      → AreIndices L v w s ds
      → IsBinder idx ds
      → IsBinder idx_init ds
      → InDims ns (map (bits v) ds)
      → product (map (bits v) ds) ≤ 2 ^ w
      → ((i : ℕ) → bits (under v idx i vars ns) body ≡ bits (assign_all S v vars ns) body)
      → ((i : ℕ) → truth (under v idx_init i vars ns) init ≡ truth (assign_all S v vars ns) init)
      → (t : Tensor) × (mk_lambda w idx idx_init ty ds vars body init ≡ some t)
        × (t.dims ≡ ds)
        × (element v t ns ≡ bits (assign_all S v vars ns) body)
        × (element_initialized v t ns ≡ truth (assign_all S v vars ns) init)
  mk_lambda_any v ty idx idx_init body init ds [] ns z l r a b b' k p fb fi = absurd (omega arith)
  mk_lambda_any v ty idx idx_init body init [] (x ∷ xs) ns z l r a b b' k p fb fi =
      absurd (omega arith)
  mk_lambda_any v ty idx idx_init body init (d ∷ ds) (x ∷ xs) ns z l r a b b' k p fb fi =
      let l' : length ds ≡ length xs = omega arith in
      mk_lambda_at v ty idx idx_init d x body init ds xs ns l' r a b b' k p fb fi
