-- ===== src/Tensor/Pointwise.antt =====
-- The elements of the tensors that `elementwiseBinOp` and `elementwiseUnaryOp` of src/value.cpp
-- make.
use mlir_tv.Base.{ℕ, ◌^◌, ◌<◌, ◌≡◌, refl, true, some, length, ==_iff, ap, ◌∙◌}
use mlir_tv.Smt.Terms.{Smt, IsSmt, IsFresh}
use mlir_tv.Smt.Logic.{mk_bool, truth-mk_bool}
use mlir_tv.Memory.Heap.{bits-select}
use mlir_tv.Tensor.{Tensor, get_raw, mk_lambda_from_1d}
use mlir_tv.Tensor.Shape.{elementwise_bin_op}

module _ ⦃S : Smt⦄ (L : IsSmt S) (v : S.Valuation) where
  open S use {Term, Valuation, bits, cell, flag, assign, width, is_var, lambda_}

  -- A tensor's element at a variable that has a number for its value.
  raw-bits :
      (t : Tensor) (x : Term) (k : ℕ)
      → is_var x ≡ true
      → k < 2 ^ width x
      → IsFresh S x t.arr
      → bits (assign v x k) (get_raw t x) ≡ cell v t.arr k
  unfolding get_raw
  raw-bits t x k h lt f =
      bits-select L (assign v x k) t.arr x
      ∙ ap (cell (assign v x k) t.arr) (L.bits-assign v x k h lt)
      ∙ (f v k).cell_eq k

  -- The result of an elementwise operation on two tensors of as many dimensions and one element
  -- type, by a function on terms that means `g`, has at each position `g` of their elements there.
  elementwise_bin_op_lem :
      (ty : ℕ) (x : Term) (f : Term → Term → Term) (g : ℕ → ℕ → ℕ) (t b : Tensor) (k : ℕ)
      → ((u : Valuation) (a c : Term) → bits u (f a c) ≡ g (bits u a) (bits u c))
      → length t.dims ≡ length b.dims
      → t.elem_type ≡ b.elem_type
      → is_var x ≡ true
      → k < 2 ^ width x
      → IsFresh S x t.arr
      → IsFresh S x b.arr
      → (r : Tensor) × (elementwise_bin_op ty x f t b ≡ some r)
        × (r.dims ≡ t.dims)
        × (r.elem_type ≡ ty)
        × (cell v r.arr k ≡ g (cell v t.arr k) (cell v b.arr k))
        × (flag v r.initialized k ≡ true)
  unfolding elementwise_bin_op mk_lambda_from_1d
  elementwise_bin_op_lem ty x f g t b k m e e' h lt p q = (
    mk_lambda_from_1d ty t.dims x (f (get_raw t x) (get_raw b x)) (mk_bool true),
    rw (
      elementwise_bin_op,
      (==_iff (length t.dims) (length b.dims)).1 e,
      (==_iff t.elem_type b.elem_type).1 e',
    ),
    refl,
    refl,
    L.cell-lambda_ v x (f (get_raw t x) (get_raw b x)) k
        ∙ m (assign v x k) (get_raw t x) (get_raw b x)
        ∙ ap (λ (n : ℕ). g n (bits (assign v x k) (get_raw b x))) (raw-bits t x k h lt p)
        ∙ ap (g (cell v t.arr k)) (raw-bits b x k h lt q),
    L.flag-lambda_ v x (mk_bool true) k ∙ truth-mk_bool L (assign v x k) true,
  )
