-- ===== src/Prelude/Outcome.antt =====
-- What a call ends with: a value, an exception, behaviour that C++ leaves undefined, or, in a model
-- that counts its turns, no turn left.
use mathlib.Core.Path.{◌≡◌, refl}
use mathlib.Core.Logic.{◌≢◌}
use mathlib.Core.Option.{Option, none, some}
use mathlib.Core.Bool.{Bool, true, false}
use oos.Prelude.Tests.{if◌then◌else◌}

pub data Outcome {ℓ} (A : Type ℓ) : Type ℓ where
  ok : A → Outcome A
  thrown undefined out_of_fuel : Outcome A

infixl 5 ◌>>=◌
abbrev pub ◌>>=◌ {ℓ κ} : {A : Type ℓ} {B : Type κ} → Outcome A → (A → Outcome B) → Outcome B
ok a >>= f = f a
thrown >>= f = thrown
undefined >>= f = undefined
out_of_fuel >>= f = out_of_fuel

-- The call does not run out of fuel, and a value that it returns has the property.
pub data Ends {ℓ κ} {A : Type ℓ} (P : A → Type κ) : Outcome A → Type (ℓ ⊔ κ) where
  returns : {a : A} → P a → Ends P (ok a)
  throws : Ends P thrown
  leaves : Ends P undefined

module _ {ℓ κ} {A : Type ℓ} {P : A → Type κ} where
  pub Ends-out_of_fuel : {r : Outcome A} → Ends P r → r ≢ out_of_fuel
  Ends-out_of_fuel (returns h) = cc
  Ends-out_of_fuel throws = cc
  Ends-out_of_fuel leaves = cc

  pub Ends-if : (b : Bool) {x y : Outcome A} → Ends P x → Ends P y → Ends P (if b then x else y)
  Ends-if true h g = h
  Ends-if false h g = g

  pub Ends-bind {ℓ' κ'} :
      {B : Type ℓ'} {Q : B → Type κ'} {r : Outcome A} {f : A → Outcome B}
      → Ends P r
      → ((a : A) → P a → Ends Q (f a))
      → Ends Q (r >>= f)
  Ends-bind (returns h) k = k _ h
  Ends-bind throws k = throws
  Ends-bind leaves k = leaves

pub Ends-weaken {ℓ κ κ'} :
    {A : Type ℓ} {P : A → Type κ} {Q : A → Type κ'} {r : Outcome A}
    → ((a : A) → P a → Q a)
    → Ends P r
    → Ends Q r
Ends-weaken k (returns h) = returns (k _ h)
Ends-weaken k throws = throws
Ends-weaken k leaves = leaves

pub Ends-option {ℓ κ ℓ'} :
    {A : Type ℓ} {P : A → Type κ} {B : Type ℓ'} (o : Option B) {x : Outcome A} {f : B → Outcome A}
    → Ends P x
    → ((b : B) → o ≡ some b → Ends P (f b))
    → Ends P (elim o [ none ↦ x | some b ↦ f b ])
Ends-option none h k = h
Ends-option (some b) h k = k b refl
