-- ===== src/Prelude/Outcome.antt =====
-- The outcome of a run: a value, undefined behaviour (`fault`: an access out of range), or a loop
-- that has used up the rounds it was given (`waiting`).
use mathlib.Core.Path.{◌≡◌, refl}
use mathlib.Core.Option.{Option, none, some}

pub data Result {ℓ} (A : Type ℓ) : Type ℓ where
  ok : A → Result A
  fault : Result A
  waiting : Result A

infixl 5 ◌>>=◌
abbrev pub ◌>>=◌ {κ ℓ} : {B : Type κ} {A : Type ℓ} → Result A → (A → Result B) → Result B
fault >>= after = fault
waiting >>= after = waiting
ok value >>= after = after value

abbrev pub or_fault {ℓ} : {A : Type ℓ} → Option A → Result A
or_fault none = fault
or_fault (some a) = ok a

-- A chain that returns has got a value from its first part.
pub bind_ok {κ ℓ} :
    {A : Type ℓ} {B : Type κ} (r : Result A) (f : A → Result B) (b : B)
    → (r >>= f) ≡ ok b
    → (a : A) × (r ≡ ok a) × (f a ≡ ok b)
bind_ok fault f b h = absurd cc
bind_ok waiting f b h = absurd cc
bind_ok (ok a) f b h = (a, refl, h)
