-- ===== src/Tensor/Repeat.antt =====
-- The elements of the tensors that `reverse` and `tile` of src/value.cpp make.
use native.Mathlib.Nat.{mod-eq_of_lt}
use mlir_tv.Base.{
  ℕ, zero, suc, ◌+◌, ◌-◌, ◌*◌, ◌%◌, ◌^◌, ◌≤◌, ◌<◌, ◌≡◌, refl, true, some, List, [], ◌∷◌, map,
  length, All, arith, sym, ap, ◌∙◌, set, get_or, get_elem?, get_elem?-map, All-set, map-set,
  length-set, ==_iff,
}
use mlir_tv.Base.Pow.{split-mod}
use mlir_tv.Smt.Terms.{Smt, IsSmt}
use mlir_tv.Smt.Arith.{mk_bv}
use mlir_tv.Smt.Arith.Divide.{bits-urem, urem_value}
use mlir_tv.Smt.Words.{sub, mul}
use mlir_tv.Smt.Words.Wrap.{bits-sub}
use mlir_tv.Smt.Words.Width.{width-sub, width-urem, small_divisor}
use mlir_tv.Smt.Index.Digits.{InDims, product}
use mlir_tv.Tensor.{Tensor, less_constant, get, mk_initialized_lambda}
use mlir_tv.Tensor.Lambda.{element, element_initialized}
use mlir_tv.Tensor.Moves.{AreBinders, gather_lem}
use mlir_tv.Tensor.Shape.{reverse_along, times_each, urem_each, tile}

-- An index that fits its dimensions has as many, and each is below its dimension.
InDims-length : (ns ms : List ℕ) → InDims ns ms → length ns ≡ length ms
InDims-length [] [] h = refl
InDims-length [] (m ∷ ms) h = absurd h
InDims-length (n ∷ ns) [] h = absurd h
InDims-length (n ∷ ns) (m ∷ ms) h = ap suc (InDims-length ns ms h.1)

InDims-at : (ns ms : List ℕ) (i : ℕ) → i < length ms → InDims ns ms → get_or ns i 0 < get_or ms i 0
InDims-at ns [] i p h = absurd (omega arith)
InDims-at [] (m ∷ ms) i p h = absurd h
InDims-at (n ∷ ns) (m ∷ ms) zero p h = h.0
InDims-at (n ∷ ns) (m ∷ ms) (suc i) p h = InDims-at ns ms i (omega arith) h.1

-- A difference that does not wrap.
pub no_wrap : (x y m : ℕ) → y ≤ x → x < m → (x + m - y) % m ≡ x - y
no_wrap x y m p q =
    let e : x + m - y ≡ 1 * m + (x - y) = omega arith in
    ap (λ (j : ℕ). j % m) e ∙ split-mod 1 m (x - y) (omega arith)

length-map {ℓ κ} :
    {A : Type ℓ} {B : Type κ} (f : A → B) (xs : List A) → length (map f xs) ≡ length xs
length-map f [] = refl
length-map f (x ∷ xs) = ap suc (length-map f xs)

-- The remainders of an index by the sizes, as the solver has them.
abbrev pub rem_each : List ℕ → List ℕ → List ℕ
rem_each (n ∷ ns) (m ∷ ms) = urem_value n m ∷ rem_each ns ms
rem_each [] ms = []
rem_each (n ∷ ns) [] = []

module _ ⦃S : Smt⦄ (L : IsSmt S) (w : ℕ) (s : w ≤ 32) where
  open S use {Term, Valuation, bits, width}

  mirrored-width : (d i : Term) → width d ≡ w → width i ≡ w → width (less_constant (sub d i) 1) ≡ w
  unfolding less_constant mk_bv
  mirrored-width d i a b =
      let c = sub d i in
      width-sub L c (S.bv_val 1 (width c)) (sym (L.width-bv_val 1 (width c)))
      ∙ width-sub L d i (a ∙ sym b)
      ∙ a

  -- `d - i - 1` below `d`.
  mirrored :
      (u : Valuation) (d i : Term)
      → width d ≡ w
      → width i ≡ w
      → bits u i < bits u d
      → bits u (less_constant (sub d i) 1) ≡ bits u d - bits u i - 1
  unfolding less_constant mk_bv
  mirrored u d i a b p =
      let c = sub d i in
      let wc : width c ≡ w = width-sub L d i (a ∙ sym b) ∙ a in
      let one = S.bv_val 1 (width c) in
      let lt : bits u d < 2 ^ w = rw (← a) (L.bits-lt u d) in
      let bc : bits u c ≡ bits u d - bits u i =
        bits-sub L u d i (a ∙ sym b) (rw a (omega arith))
        ∙ rw a (no_wrap (bits u d) (bits u i) (2 ^ w) (omega arith) lt) in
      let bo : bits u one ≡ 1 = L.bits-bv_val u 1 (width c) ∙ rw wc (mod-eq_of_lt (omega arith)) in
      bits-sub L u c one (sym (L.width-bv_val 1 (width c))) (rw wc (omega arith))
      ∙ rw (bo, bc, wc) (no_wrap (bits u d - bits u i) 1 (2 ^ w) (omega arith) (omega arith))

  reverse_along-steps :
      (idx idx_init y c e : Term) (vars : List Term) (axis : ℕ) (t r : Tensor)
      → get_elem? vars axis ≡ some y
      → get_elem? t.dims axis ≡ some c
      → get w t (set vars axis (less_constant (sub c y) 1)) ≡ some e
      → mk_initialized_lambda w idx idx_init t.elem_type t.dims vars e ≡ some r
      → reverse_along w idx idx_init vars axis t ≡ some r
  unfolding reverse_along
  reverse_along-steps idx idx_init y c e vars axis t r a b g h = rw (reverse_along, a, b, g) h

  -- The reversed tensor has at an index the element that is as far from the other end of the axis.
  pub reverse_along_lem :
      (v : Valuation) (idx idx_init x d : Term) (xs ds : List Term) (axis : ℕ) (t : Tensor)
      (ns : List ℕ)
      → t.dims ≡ d ∷ ds
      → AreBinders L w s idx idx_init (x ∷ xs) (d ∷ ds) t
      → length ds ≡ length xs
      → axis < length (d ∷ ds)
      → InDims ns (map (bits v) (d ∷ ds))
      → product (map (bits v) (d ∷ ds)) ≤ 2 ^ w
      → (r : Tensor) × (reverse_along w idx idx_init (x ∷ xs) axis t ≡ some r)
        × (element L w s v r ns
            ≡ element L w s v t
                (set ns axis (get_or (map (bits v) (d ∷ ds)) axis 0 - get_or ns axis 0 - 1)))
        × (element_initialized L w s v r ns ≡ true)
  reverse_along_lem v idx idx_init x d xs ds axis t ns q b l lt k p =
      let ms = map (bits v) (d ∷ ds) in
      let vars = x ∷ xs in
      let lx : axis < length vars = omega arith in
      let (y, gy, _, wy) = get_elem?-map (λ z. width z ≡ w) (bits v) vars axis 0 lx b.indices in
      let (c, gc, mc, wc) =
        get_elem?-map (λ z. width z ≡ w) (bits v) (d ∷ ds) axis 0 lt b.new_sizes in
      let m = less_constant (sub c y) 1 in
      let acc = set vars axis m in
      let read : (u : Valuation)
          → map (bits u) vars ≡ ns
          → map (bits u) t.dims ≡ map (bits v) t.dims
          → bits u m ≡ get_or ms axis 0 - get_or ns axis 0 - 1 =
        λ u e f.
          let (y', gy', my, _) =
            get_elem?-map (λ z. width z ≡ w) (bits u) vars axis 0 lx b.indices in
          let (c', gc', mc', _) =
            get_elem?-map (λ z. width z ≡ w) (bits u) (d ∷ ds) axis 0 lt b.new_sizes in
          let hy : y' ≡ y = ground arith in
          let hc : c' ≡ c = ground arith in
          let ey : bits u y ≡ get_or ns axis 0 =
            sym (ap (λ z. bits u z) hy) ∙ sym my ∙ ap (λ (z : List ℕ). get_or z axis 0) e in
          let f' : map (bits u) (d ∷ ds) ≡ ms = rw q at f in
          let ec : bits u c ≡ get_or ms axis 0 =
            sym (ap (λ z. bits u z) hc) ∙ sym mc' ∙ ap (λ (z : List ℕ). get_or z axis 0) f' in
          let below : bits u y < bits u c =
            rw (ey, ec) (InDims-at ns ms axis (rw (length-map (bits v) (d ∷ ds)) lt) k) in
          mirrored u c y wc wy below
          ∙ ap (λ (n : ℕ). n - bits u y - 1) ec
          ∙ ap (λ (n : ℕ). get_or ms axis 0 - n - 1) ey in
      let (el, r, g, h, e, e') =
        gather_lem L w s v idx idx_init x d xs ds acc t ns
          (set ns axis (get_or ms axis 0 - get_or ns axis 0 - 1)) b l k p
          (length-set vars axis m ∙ rw q (ap suc (sym l)))
          (All-set (λ z. width z ≡ w) vars axis m b.indices (mirrored-width c y wc wy))
          (λ u e f.
            map-set (bits u) vars axis m
            ∙ ap (λ (z : List ℕ). set z axis (bits u m)) e
            ∙ ap (λ (n : ℕ). set ns axis n) (read u e f)) in
      let f = reverse_along-steps idx idx_init y c el vars axis t r gy (rw q gc) g (rw q h) in
      (r, f, e, e')

  urem_each-bits :
      (u : Valuation) (xs ds : List Term)
      → All (λ z. width z ≡ w) ds
      → map (bits u) (urem_each xs ds) ≡ rem_each (map (bits u) xs) (map (bits u) ds)
  unfolding urem_each
  urem_each-bits u [] ds b = refl
  urem_each-bits u (x ∷ xs) [] b = refl
  urem_each-bits u (x ∷ xs) (d ∷ ds) (h, k) =
      ap (λ (n : ℕ). n ∷ map (bits u) (urem_each xs ds))
        (bits-urem L u x d (small_divisor L u d (rw h s)))
      ∙ ap (λ (l : List ℕ). urem_value (bits u x) (bits u d) ∷ l) (urem_each-bits u xs ds k)

  urem_each-width :
      (v : Valuation) (xs ds : List Term)
      → All (λ z. width z ≡ w) xs
      → All (λ z. width z ≡ w) ds
      → All (λ z. width z ≡ w) (urem_each xs ds)
  unfolding urem_each
  urem_each-width v [] ds a b = tt
  urem_each-width v (x ∷ xs) [] a b = tt
  urem_each-width v (x ∷ xs) (d ∷ ds) (e, a) (f, b) =
      (width-urem L v x d (e ∙ sym f) (rw f s) ∙ e, urem_each-width v xs ds a b)

  length-urem_each :
      (xs ds : List Term) → length xs ≡ length ds → length (urem_each xs ds) ≡ length ds
  unfolding urem_each
  length-urem_each [] [] e = refl
  length-urem_each [] (d ∷ ds) e = absurd (omega arith)
  length-urem_each (x ∷ xs) [] e = absurd (omega arith)
  length-urem_each (x ∷ xs) (d ∷ ds) e = ap suc (length-urem_each xs ds (omega arith))

  length-times_each :
      (ds : List Term) (ns : List ℕ) → length ns ≡ length ds → length (times_each ds ns) ≡ length ds
  unfolding times_each
  length-times_each [] [] e = refl
  length-times_each [] (n ∷ ns) e = absurd (omega arith)
  length-times_each (d ∷ ds) [] e = absurd (omega arith)
  length-times_each (d ∷ ds) (n ∷ ns) e = ap suc (length-times_each ds ns (omega arith))

  tile-steps :
      (idx idx_init e : Term) (vars : List Term) (repeat : List ℕ) (t r : Tensor)
      → length repeat ≡ length t.dims
      → get w t (urem_each vars t.dims) ≡ some e
      → mk_initialized_lambda w idx idx_init t.elem_type (times_each t.dims repeat) vars e ≡ some r
      → tile w idx idx_init vars repeat t ≡ some r
  unfolding tile
  tile-steps idx idx_init e vars repeat t r a g h =
      rw (tile, (==_iff (length repeat) (length t.dims)).1 a, g) h

  -- The tiled tensor repeats the tensor along each axis: at an index it has the element at the
  -- remainders by the sizes.
  pub tile_lem :
      (v : Valuation) (idx idx_init x d : Term) (xs ds : List Term) (n : ℕ) (repeat : List ℕ)
      (t : Tensor) (ns : List ℕ)
      → t.dims ≡ d ∷ ds
      → AreBinders L w s idx idx_init (x ∷ xs) (times_each (d ∷ ds) (n ∷ repeat)) t
      → length ds ≡ length xs
      → length repeat ≡ length ds
      → InDims ns (map (bits v) (times_each (d ∷ ds) (n ∷ repeat)))
      → product (map (bits v) (times_each (d ∷ ds) (n ∷ repeat))) ≤ 2 ^ w
      → (r : Tensor) × (tile w idx idx_init (x ∷ xs) (n ∷ repeat) t ≡ some r)
        × (element L w s v r ns ≡ element L w s v t (rem_each ns (map (bits v) (d ∷ ds))))
        × (element_initialized L w s v r ns ≡ true)
  unfolding times_each
  tile_lem v idx idx_init x d xs ds n repeat t ns q b l lr k p =
      let vars = x ∷ xs in
      let ms = map (bits v) (d ∷ ds) in
      let sizes : All (λ z. width z ≡ w) (d ∷ ds) = rw q at b.sizes in
      let acc = urem_each vars (d ∷ ds) in
      let head = mul d (mk_bv n (width d)) in
      let ln : length (times_each ds repeat) ≡ length xs = length-times_each ds repeat lr ∙ l in
      let (el, r, g, h, e, e') =
        gather_lem L w s v idx idx_init x head xs (times_each ds repeat) acc t ns (rem_each ns ms) b
          ln k p (length-urem_each vars (d ∷ ds) (ap suc (sym l)) ∙ rw q refl)
          (urem_each-width v vars (d ∷ ds) b.indices sizes)
          (λ u i f.
            urem_each-bits u vars (d ∷ ds) sizes
            ∙ ap (λ (z : List ℕ). rem_each z (map (bits u) (d ∷ ds))) i
            ∙ ap (rem_each ns) (rw q at f)) in
      let f =
        tile-steps idx idx_init el vars (n ∷ repeat) t r (rw q (ap suc lr))
          (ap (λ l. get w t (urem_each vars l)) q ∙ g)
          (ap
              (λ l.
                mk_initialized_lambda w idx idx_init t.elem_type (times_each l (n ∷ repeat)) vars
                  el)
              q
            ∙ h) in
      (r, f, e, e')
