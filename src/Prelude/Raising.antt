-- ===== src/Prelude/Raising.antt =====
-- A function that may raise: its value, or the error that it raises.
use mathlib.Core.Path.{◌≡◌, refl}
use mathlib.Core.Logic.{◌⊎◌, inl, inr}
use mathlib.Core.Bool.{Bool, true, false}
use mathlib.Core.Option.{Option, none, some}

pub data Outcome {ℓ} (E A : Type ℓ) : Type ℓ where
  ok : A → Outcome E A
  raise : E → Outcome E A

pub ok-injective {ℓ} : {E A : Type ℓ} {a b : A} → ◌≡◌ {A = Outcome E A} (ok a) (ok b) → a ≡ b
ok-injective e = cc

-- Either is the outcome, and not both.
pub ok-ne-raise {ℓ κ} :
    {E A : Type ℓ} {a : A} {x : E} {B : Type κ} → ◌≡◌ {A = Outcome E A} (ok a) (raise x) → B
ok-ne-raise e = cc

-- `if value is None: raise error`, where the value is used below
abbrev pub require_some : {E A : Type 0} → Option A → E → Outcome E A
require_some (some value) error = ok value
require_some none error = raise error

-- `if not test: raise error`
abbrev pub require : {E : Type 0} → Bool → E → Outcome E (Unit {0})
require false error = raise error
require true error = ok tt

-- What a call and the code after it do.
infixl 5 ◌>>=◌
abbrev pub ◌>>=◌ {ℓ} : {E A B : Type ℓ} → Outcome E A → (A → Outcome E B) → Outcome E B
raise error >>= next = raise error
ok value >>= next = next value

pub Outcome-cases {ℓ} :
    {E A : Type ℓ} (m : Outcome E A) → ((a : A) × (m ≡ ok a)) ⊎ ((e : E) × (m ≡ raise e))
Outcome-cases (raise error) = inr (error, refl)
Outcome-cases (ok value) = inl (value, refl)

pub >>=-eq-ok {ℓ} :
    {E A B : Type ℓ} (call : Outcome E A) (next : A → Outcome E B) {b : B}
    → (call >>= next) ≡ ok b
    → (a : A) × (call ≡ ok a) × (next a ≡ ok b)
>>=-eq-ok (raise error) next h = cc
>>=-eq-ok (ok value) next h = (value, refl, h)

infixl 5 ◌>>◌
abbrev pub ◌>>◌ : {E B : Type 0} → Outcome E (Unit {0}) → Outcome E B → Outcome E B
check >> rest = check >>= λ u. rest
