-- ===== src/Prelude/Options.antt =====
-- Chains of steps that may fail.
use mathlib.Core.Path.{◌≡◌, ap, ◌∙◌}
use mathlib.Core.Option.{Option, none, some}

infixl 5 ◌>>=◌
abbrev pub ◌>>=◌ {ℓ κ} : {A : Type ℓ} {B : Type κ} → Option A → (A → Option B) → Option B
none >>= f = none
some a >>= f = f a

pub bind-some {ℓ κ} :
    {A : Type ℓ} {B : Type κ} {o : Option A} {a : A} {r : Option B} (f : A → Option B)
    → o ≡ some a
    → f a ≡ r
    → (o >>= f) ≡ r
bind-some {A} {B} {o} {a} {r} f e h = ap (λ t. t >>= f) e ∙ h

-- What holds of a result, if there is one.
pub data After {A : Type 0} (P : A → Type 0) : Option A → Type 0 where
  nothing : After P none
  just : {a : A} → P a → After P (some a)

pub from_just : {A : Type 0} {P : A → Type 0} {a : A} → After P (some a) → P a
from_just (just h) = h

pub After-bind :
    {A B : Type 0} (P : A → Type 0) (Q : B → Type 0) (o : Option A) (f : A → Option B)
    → After P o
    → ((a : A) → P a → After Q (f a))
    → After Q (o >>= f)
After-bind P Q _ f nothing k = nothing
After-bind P Q _ f (just {a} h) k = k a h
