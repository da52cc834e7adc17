-- ===== src/Common/Options.antt =====
-- Chains of steps that may return nothing.
use mathlib.Core.Option.{Option, none, some}

infixl 5 ◌>>=◌
abbrev pub ◌>>=◌ {ℓ κ} : {A : Type ℓ} {B : Type κ} → Option A → (A → Option B) → Option B
none >>= f = none
some a >>= f = f a

-- What holds of a result, when there is one.
abbrev pub IfSome {ℓ κ} : {A : Type ℓ} → (A → Type κ) → Option A → Type κ
IfSome P none = Unit
IfSome P (some a) = P a

-- A step keeps what holds of the results before it.
pub IfSome->>= {ℓ κ ι} :
    {A : Type ℓ} {B : Type κ} {P : A → Type ι} (Q : B → Type ι) (o : Option A) (f : A → Option B)
    → IfSome P o
    → ((a : A) → P a → IfSome Q (f a))
    → IfSome Q (o >>= f)
IfSome->>= Q none f h k = tt
IfSome->>= Q (some a) f h k = k a h
