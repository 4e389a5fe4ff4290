-- ===== src/Base/Outcome.antt =====
-- How a Go call ends: with a value, with an error, or by a panic.
use mathlib.Core.Path.{◌≡◌, refl}
use Prim.Native.String.{String}

pub data Outcome {ℓ} (A : Type ℓ) : Type ℓ where
  ok : A → Outcome A
  err : String → Outcome A
  panic : Outcome A

infixl 5 ◌>>=◌
abbrev pub ◌>>=◌ {ℓ κ} : {A : Type ℓ} {B : Type κ} → Outcome A → (A → Outcome B) → Outcome B
ok a >>= f = f a
err e >>= f = err e
panic >>= f = panic

-- A call that gives no value, or one that has the property.
abbrev pub Gives {ℓ κ} : {A : Type ℓ} → (A → Type κ) → Outcome A → Type κ
Gives P (ok a) = P a
Gives P (err e) = Unit
Gives P panic = Unit

pub Gives-bind {ℓ κ μ} :
    {A : Type ℓ} {B : Type κ} (P : B → Type μ) (f : A → Outcome B) (r : Outcome A)
    → ((a : A) → r ≡ ok a → Gives P (f a))
    → Gives P (r >>= f)
Gives-bind P f (ok a) h = h a refl
Gives-bind P f (err e) h = tt
Gives-bind P f panic h = tt
