-- ===== src/Prelude/Options.antt =====
-- Calls that may fail without saying why, one after the other.
use mathlib.Core.Option.{Option, none, some}

infixl 5 ◌>>=◌
abbrev pub ◌>>=◌ {ℓ κ} : {A : Type ℓ} {B : Type κ} → Option A → (A → Option B) → Option B
some a >>= f = f a
none >>= f = none

-- It gives a result, which has the property.
abbrev pub Goes {ℓ} : {A : Type ℓ} → (A → Type 0) → Option A → Type 0
Goes P none = ⊥
Goes P (some a) = P a

pub Goes-bind {ℓ κ} :
    {A : Type ℓ} {B : Type κ} (P : A → Type 0) (Q : B → Type 0) (r : Option A) (f : A → Option B)
    → Goes P r
    → ((a : A) → P a → Goes Q (f a))
    → Goes Q (r >>= f)
Goes-bind P Q (some a) f h k = k a h
Goes-bind P Q none f h k = elim h [ ]

pub Goes-mono {ℓ} :
    {A : Type ℓ} (P Q : A → Type 0) (r : Option A) → ((a : A) → P a → Q a) → Goes P r → Goes Q r
Goes-mono P Q (some a) f h = f a h
Goes-mono P Q none f h = elim h [ ]
