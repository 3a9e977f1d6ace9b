-- ===== src/Base/Results.antt =====
-- The result of C++ code: a value, an exception, or undefined behaviour (a read or a write outside
-- the memory that the code was given).
use mathlib.Core.Path.{◌≡◌, refl}
use mathlib.Core.Option.{Option, none, some}

pub data Outcome {κ ℓ} (E : Type κ) (A : Type ℓ) : Type (κ ⊔ ℓ) where
  ok : A → Outcome E A
  throws : E → Outcome E A
  fault : Outcome E A

infixl 5 ◌>>=◌
abbrev pub ◌>>=◌ {ε ℓ κ} :
    {E : Type ε} {A : Type ℓ} {B : Type κ} → Outcome E A → (A → Outcome E B) → Outcome E B
ok a >>= f = f a
throws e >>= f = throws e
fault >>= f = fault

-- A checked read: no element means that the index is out of range.
abbrev pub checked {ε ℓ} : {E : Type ε} {A : Type ℓ} → Option A → Outcome E A
checked none = fault
checked (some a) = ok a

-- A chain that succeeds has a first step that succeeds.
pub >>=-eq-ok {ε ℓ κ} :
    {E : Type ε} {B : Type κ} {A : Type ℓ} (first : Outcome E A) (rest : A → Outcome E B)
    → {result : B} → (first >>= rest) ≡ ok result
    → (mid : A) × (first ≡ ok mid) × (rest mid ≡ ok result)
>>=-eq-ok fault rest e = cc
>>=-eq-ok (throws x) rest e = cc
>>=-eq-ok (ok mid) rest e = (mid, refl, e)

-- No undefined behaviour.
abbrev pub IsSafe {ε ℓ} : {E : Type ε} {A : Type ℓ} → Outcome E A → Type 0
IsSafe (ok a) = Unit
IsSafe (throws e) = Unit
IsSafe fault = ⊥
