-- ===== src/Base/Outcome.antt =====
-- A C++ function that may throw: `err` holds the text of the exception.
use mathlib.Core.Path.{◌≡◌, refl}
use mathlib.Core.Bool.{Bool, true, false}
use did_vc.Base.Strings.{Str}

pub data Result {ℓ} (A : Type ℓ) : Type ℓ where
  err : Str → Result A
  ok : A → Result A

infixl 5 ◌>>=◌ ◌>>◌
-- The exception ends the sequence.
abbrev pub ◌>>=◌ {ℓ ℓ'} : {A : Type ℓ} {B : Type ℓ'} → Result A → (A → Result B) → Result B
err thrown >>= next = err thrown
ok a >>= next = next a

abbrev pub ◌>>◌ {ℓ ℓ'} : {A : Type ℓ} {B : Type ℓ'} → Result A → Result B → Result B
first >> second = first >>= λ _. second

-- A guard that throws when the test fails.
abbrev pub require : Bool → Str → Result (Unit {0})
require false reason = err reason
require true reason = ok tt

-- A sequence that succeeds has succeeded in its first step.
pub bind-ok {ℓ ℓ'} :
    {A : Type ℓ} {B : Type ℓ'} (first : Result A) (next : A → Result B) {b : B}
    → (first >>= next) ≡ ok b
    → (a : A) × (first ≡ ok a) × (next a ≡ ok b)
bind-ok (err thrown) next h = absurd (cc)
bind-ok (ok a) next h = (a, refl, h)

pub require-ok : (b : Bool) (e : Str) {u : Unit {0}} → require b e ≡ ok u → b ≡ true
require-ok true e h = refl
require-ok false e h = absurd (cc)
