-- ===== src/Channel/Monad.antt =====
-- Code that changes an object and may throw: what was changed before an exception stays changed.
-- `M E W A` runs on the objects `W`, throws an `E` or returns an `A`.
use ez.Base.{Outcome, ok, throws, fault}

abbrev pub M : Type 0 → Type 0 → Type 0 → Type 0
M E W A = W → Outcome E A × W

module _ {E W : Type 0} where
  abbrev pub follow : {A B : Type 0} → Outcome E A × W → (A → M E W B) → Outcome E B × W
  follow (ok a, w) f = f a w
  follow (throws e, w) f = (throws e, w)
  follow (fault, w) f = (fault, w)

  infixl 5 ◌>>=◌ ◌>>◌
  abbrev pub ◌>>=◌ : {A B : Type 0} → M E W A → (A → M E W B) → M E W B
  ◌>>=◌ m f w = follow (m w) f

  abbrev pub ◌>>◌ : {B : Type 0} → M E W (Unit {0}) → M E W B → M E W B
  ◌>>◌ m k w = follow (m w) (λ _. k)

  abbrev pub pure : {A : Type 0} → A → M E W A
  pure a w = (ok a, w)

  abbrev pub throw : {A : Type 0} → E → M E W A
  throw e w = (throws e, w)

  abbrev pub lift : {A : Type 0} → Outcome E A → M E W A
  lift r w = (r, w)

  abbrev pub gets : {A : Type 0} → (W → A) → M E W A
  gets f w = (ok (f w), w)

  abbrev pub modify : (W → W) → M E W (Unit {0})
  modify f w = (ok tt, f w)
