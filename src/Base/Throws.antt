-- ===== src/Base/Throws.antt =====
-- What an async function that may throw gives, with the state that it leaves behind.
use mathlib.Core.Path.{◌≡◌, refl}
use mathlib.Core.Logic.{◌⊎◌, inl, inr}
use mathlib.Core.Option.{Option, none, some}

pub data Outcome {ℓ κ} (E : Type ℓ) (A : Type κ) : Type (ℓ ⊔ κ) where
  ok : A → Outcome E A
  thrown : E → Outcome E A

pub Outcome-cases {ℓ κ} :
    {E : Type ℓ} {A : Type κ} (o : Outcome E A)
    → ((a : A) × (o ≡ ok a)) ⊎ ((x : E) × (o ≡ thrown x))
Outcome-cases (ok a) = inl (a, refl)
Outcome-cases (thrown x) = inr (x, refl)

-- `await` of a step that may throw, and the steps after it.
infixl 5 ◌>>=◌
abbrev pub ◌>>=◌ {ℓ κ ι} :
    {E : Type ℓ} {A : Type κ} {B : Type ι} → Outcome E A → (A → Outcome E B) → Outcome E B
ok a >>= next = next a
thrown x >>= next = thrown x

-- `if (!value) throw x`.
abbrev pub or_throw {ℓ κ} : {E : Type ℓ} {A : Type κ} → Option A → E → Outcome E A
or_throw none x = thrown x
or_throw (some a) x = ok a

-- A chain that returns has returned from its first step.
pub bind_returned {ℓ κ ι} :
    {E : Type ℓ} {A : Type κ} {B : Type ι} (o : Outcome E A) (next : A → Outcome E B) {b : B}
    → (o >>= next) ≡ ok b
    → (a : A) × (o ≡ ok a) × (next a ≡ ok b)
bind_returned (ok a) next e = (a, refl, e)
bind_returned (thrown x) next e = cc
