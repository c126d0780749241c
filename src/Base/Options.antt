-- ===== src/Base/Options.antt =====
-- Chains of steps that can fail, for `do` blocks.
use mathlib.Core.Path.{◌≡◌, refl, subst}
use mathlib.Core.Bool.{Bool, true, false}
use mathlib.Core.Option.{Option, none, some}
use mlir_tv.Base.Tests.{if◌then◌else◌}

infixl 5 ◌>>=◌ ◌>>◌
abbrev pub ◌>>=◌ {ℓ κ} : {A : Type ℓ} {B : Type κ} → Option A → (A → Option B) → Option B
some a >>= f = f a
none >>= f = none

abbrev pub ◌>>◌ {ℓ} : {B : Type ℓ} → Option (Unit {0}) → Option B → Option B
some a >> m = m
none >> m = none

-- An assertion.
abbrev pub guard : Bool → Option (Unit {0})
guard true = some tt
guard false = none

-- What holds of a result, if there is one.
abbrev pub OnSome {ℓ κ} : {A : Type ℓ} → (A → Type κ) → Option A → Type κ
OnSome P none = Unit
OnSome P (some a) = P a

pub on_guarded {ℓ κ} :
    {A : Type ℓ} (P : A → Type κ) (t : Bool) (a : A)
    → (t ≡ true → P a)
    → OnSome P (if t then some a else none)
on_guarded P true a h = h refl
on_guarded P false a h = tt

pub on_then {ℓ κ μ ν} :
    {A : Type ℓ} {B : Type κ} (P : A → Type μ) (Q : B → Type ν) (m : Option A) (f : A → Option B)
    → OnSome P m
    → ((a : A) → P a → OnSome Q (f a))
    → OnSome Q (m >>= f)
on_then P Q none f p q = tt
on_then P Q (some a) f p q = q a p

pub on_some {ℓ κ} :
    {A : Type ℓ} (P : A → Type κ) (m : Option A) (a : A) → OnSome P m → m ≡ some a → P a
on_some P none a p e = absurd (cc e)
on_some P (some b) a p e = subst P (cc e) p
