-- ===== src/Socket/Ends.antt =====
-- How an operation of source/socket.cpp may end: with a value, with an exception, or with undefined
-- behaviour, and what then holds of the socket and the world.
use ez.Base.{Outcome, ok, throws, fault, Option, none, some}
use ez.Channel.Monad.{M, follow}

pub record IsPreorder {W : Type 0} (R : W → W → Type 0) : Type 0 where
  pub same : (x : W) → R x x
  pub then_ : {x y z : W} → R x y → R y z → R x z

module _ {E W : Type 0} where
  -- `Q` of a value, `X` of an exception; `X none` of undefined behaviour.
  abbrev pub Ends :
      {A : Type 0} → (A → W → Type 0) → (Option E → W → Type 0) → Outcome E A × W → Type 0
  Ends Q X (ok a, w) = Q a w
  Ends Q X (throws e, w) = X (some e) w
  Ends Q X (fault, w) = X none w

  pub follow-Ends :
      {A B : Type 0} (P : A → W → Type 0) (Q : B → W → Type 0) (X : Option E → W → Type 0)
      (r : Outcome E A × W) (f : A → M E W B)
      → Ends P X r
      → ((a : A) (w : W) → P a w → Ends Q X (f a w))
      → Ends Q X (follow r f)
  follow-Ends P Q X (ok a, w) f p k = k a w p
  follow-Ends P Q X (throws e, w) f p k = p
  follow-Ends P Q X (fault, w) f p k = p

  pub Ends-weaken :
      {A : Type 0} (P Q : A → W → Type 0) (X Y : Option E → W → Type 0) (r : Outcome E A × W)
      → Ends P X r
      → ((a : A) (w : W) → P a w → Q a w)
      → ((e : Option E) (w : W) → X e w → Y e w)
      → Ends Q Y r
  Ends-weaken P Q X Y (ok a, w) p q x = q a w p
  Ends-weaken P Q X Y (throws e, w) p q x = x (some e) w p
  Ends-weaken P Q X Y (fault, w) p q x = x none w p

  -- `R` holds between the objects before and after, however the operation ends.
  abbrev pub Respects : {A : Type 0} → (W → W → Type 0) → M E W A → Type 0
  Respects R m = (x : W) → R x (m x).1

module _ {E W : Type 0} {R : W → W → Type 0} (pre : IsPreorder R) where
  pub follow-Respects :
      {A B : Type 0} (x : W) (r : Outcome E A × W) (f : A → M E W B)
      → R x r.1
      → ((a : A) → Respects R (f a))
      → R x (follow r f).1
  follow-Respects x (ok a, w) f p k = pre.then_ p (k a w)
  follow-Respects x (throws e, w) f p k = p
  follow-Respects x (fault, w) f p k = p
