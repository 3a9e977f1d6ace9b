-- ===== src/Socket/Connecting.antt =====
-- How `connect` of source/socket.cpp may end.
use ez.Base.{
  arith, ltb, ◌≤◌, ◌≡◌, ◌≢◌, ◌⊎◌, ◌==◌, ℕ, not, refl, inl, inr, Bool, true, false, Bool-cases,
  Option, none, some, Outcome, ok, throws, fault,
}
use mathlib.Core.Path.{subst}
use ez.Channel.Monad.{lift, ◌>>◌, follow, ◌>>=◌}
use ez.Socket.{
  Socket, State, connecting, connected, Error, error, cant_get_options, cant_set_options,
  runtime_error, cant_bind, when_open, Objects, Op, sys, set_nonblocking, flags_set, change_flags,
}
use ez.Socket.Ends.{Ends, Ends-weaken}
use ez.Socket.Setup.{
  fd_set, open_fd, created, when, or_throw, connect, after_connect, selected, socket_error,
}
use ez.Socket.System.{
  would_block, Call, returned, minus_one, Fd, Flags, Domain, af_inet, inet, Address, Kernel,
}

module _ (k : Kernel) where
  abbrev pub HasFd : Socket → Type 0
  HasFd s = (d : ℕ) × (s.fd ≡ some d)

  abbrev InState : State → Objects k → Type 0
  InState st y = y.0.state ≡ st

  abbrev Opened : State → Objects k → Type 0
  Opened st y = (y.0.state ≡ st) × HasFd y.0

  -- Values with which there is a descriptor, and exceptions; both leave the state as it was, and there
  -- is no undefined behaviour.
  abbrev Kept : State → {A : Type 0} → Outcome Error A × Objects k → Type 0
  Kept st r = Ends (λ a. Opened st) (λ e y. (e ≢ none) × InState st y) r

  open_fd-Kept :
      (domain : Domain) (s : Socket) (w : k.World) → Kept s.state (open_fd k domain s.fd (s, w))
  open_fd-Kept domain s w = go s.fd refl
    where
      made : (r : Call) (w' : k.World) → Kept s.state (created k r (s, w'))
      made (returned d) w' = (refl, (d, refl))
      made (minus_one e) w' = ((λ q. cc), refl)

      go : (f : Fd) → s.fd ≡ f → Kept s.state (open_fd k domain f (s, w))
      go (some d) e = (refl, (d, e))
      go none e = made (k.socket w domain).0 (k.socket w domain).1

  abbrev IsFlagError : Option Error → Type 0
  IsFlagError e = (e ≡ some (error cant_get_options)) ⊎ (e ≡ some (error cant_set_options))

  -- The state is kept, and an exception is one of two.
  abbrev Flagged : State → Outcome Error (Unit {0}) × Objects k → Type 0
  Flagged st r = Ends (λ a. Opened st) (λ e y. IsFlagError e × InState st y) r

  flags_set-Flagged :
      (flag : Bool) (r : Call) (s : Socket) (w : k.World)
      → HasFd s
      → Flagged s.state (flags_set k flag r (s, w))
  flags_set-Flagged flag (returned n) s w h = (refl, h)
  flags_set-Flagged flag (minus_one e) s w h = (inr refl, refl)

  change_flags-Flagged :
      (flag : Bool) (o : Option Flags) (s : Socket) (w : k.World)
      → HasFd s
      → Flagged s.state (change_flags k flag o (s, w))
  change_flags-Flagged flag none s w h = (inl refl, refl)
  change_flags-Flagged flag (some o) s w h =
      let r = k.set_flags w s.fd (record o { nonblock = flag }) in
      flags_set-Flagged flag r.0 s r.1 h

  set_nonblocking-Flagged :
      (flag : Bool) (s : Socket) (w : k.World)
      → HasFd s
      → Flagged s.state (set_nonblocking k flag (s, w))
  unfolding set_nonblocking
  set_nonblocking-Flagged flag s w (n, h) = go s.fd h
    where
      go :
          (d : Fd)
          → d ≡ some n
          → Flagged s.state (when_open k d (do o ← sys k k.get_flags; change_flags k flag o) (s, w))
      go none e = cc
      go (some d) e =
          change_flags-Flagged flag (k.get_flags w s.fd).0 s (k.get_flags w s.fd).1 (n, h)

  Flagged-Kept : (st : State) (r : Outcome Error (Unit {0}) × Objects k) → Flagged st r → Kept st r
  Flagged-Kept st r = λ p.
      Ends-weaken (λ a. Opened st) (λ a. Opened st) (λ e y. IsFlagError e × InState st y)
        (λ e y. (e ≢ none) × InState st y) r p (λ a y q. q) λ e y q. (named e q.0, q.1)
    where
      named : (e : Option Error) → IsFlagError e → e ≢ none
      named e (inl q) z = cc
      named e (inr q) z = cc

  -- How `connect` may end, of a socket that was in the state `before`.
  abbrev pub Connects : State → Outcome Error (Unit {0}) × Objects k → Type 0
  Connects before (ok a, (s, w)) = (s.state ≡ connected) × HasFd s
  Connects before (throws e, (s, w)) =
      (s.state ≡ before)
      ⊎ (s.state ≡ connecting)
      ⊎ ((s.state ≡ connected) × ((e ≡ error cant_get_options) ⊎ (e ≡ error cant_set_options)))
  Connects before (fault, (s, w)) = (d : ℕ) × (s.fd ≡ some d) × (1024 ≤ d)

  -- Going on after what kept the state.
  Kept-Connects :
      {A : Type 0} (before : State) (r : Outcome Error A × Objects k) (f : A → Op k (Unit {0}))
      → Kept before r
      → ((a : A) (y : Objects k) → Opened before y → Connects before (f a y))
      → Connects before (follow r f)
  Kept-Connects before (ok a, y) f p more = more a y p
  Kept-Connects before (throws e, y) f p more = inl p.1
  Kept-Connects before (fault, y) f p more = absurd (p.0 refl)

  waiting-Connects :
      (before : State) (r : Call) (s : Socket) (w : k.World)
      → Opened connecting (s, w)
      → Connects before (follow (selected k r (s, w)) λ _. set_nonblocking k false)
  waiting-Connects before (minus_one x) s w (e, h) = inr (inl e)
  waiting-Connects before (returned n) s w (e, h) = elim (Bool-cases (n == 0)) [
    | inl z ↦ rw z (inr (inl e))
    | inr z ↦ rw z (checked (k.pending_error w s.fd).0 (k.pending_error w s.fd).1)
  ]
    where
      freed : (r : Outcome Error (Unit {0}) × Objects k) → Flagged connected r → Connects before r
      freed (ok a, y) p = p
      freed (throws x, y) (inl q, p) = inr (inr (p, inl cc))
      freed (throws x, y) (inr q, p) = inr (inr (p, inr cc))
      freed (fault, y) (inl q, p) = cc
      freed (fault, y) (inr q, p) = cc

      checked :
          (o : Option ℕ) (w' : k.World)
          → Connects before (follow (socket_error k o (s, w')) λ _. set_nonblocking k false)
      checked none w' = inr (inl e)
      checked (some m) w' = elim (Bool-cases (m == 0)) [
        | inl z ↦ rw z (
            freed (set_nonblocking k false (record s { state = connected }, w'))
              (set_nonblocking-Flagged false (record s { state = connected }) w' h))
        | inr z ↦ rw z (inr (inl e))
      ]

  watched-Connects :
      (before : State) (seconds : ℕ) (s : Socket) (w : k.World)
      → Opened connecting (s, w)
      → Connects before (
          follow
            (lift (fd_set s.fd) (s, w))
            λ _. (do r ← sys k λ w d. k.select w d seconds; selected k r; set_nonblocking k false))
  watched-Connects before seconds s w (e, (d, h)) = go s.fd refl
    where
      rest : Op k (Unit {0})
      rest = do r ← sys k λ w d. k.select w d seconds; selected k r; set_nonblocking k false

      go : (f : Fd) → s.fd ≡ f → Connects before (follow (lift (fd_set f) (s, w)) λ _. rest)
      go none q = cc
      go (some n) q = elim (Bool-cases (ltb n 1024)) [
        | inl b ↦ rw b (
            waiting-Connects before (k.select w s.fd seconds).0 s (k.select w s.fd seconds).1
              (e, (d, h)))
        | inr b ↦ rw b (n, q, ground (arith, b))
      ]

  after_connect-Connects :
      (before : State) (seconds : ℕ) (r : Call) (s : Socket) (w : k.World)
      → Opened connecting (s, w)
      → Connects before (after_connect k seconds r (s, w))
  after_connect-Connects before seconds (returned n) s w (e, h) = (refl, h)
  after_connect-Connects before seconds (minus_one x) s w (e, h) =
      elim (Bool-cases (would_block x)) [
        | inl b ↦ rw b (watched-Connects before seconds s w (e, h))
        | inr b ↦ rw b (inr (inl e))
      ]

  bind-Kept :
      (b : Bool) (a : Address) (x : Error) (s : Socket) (w : k.World)
      → HasFd s
      → Kept s.state (when k b (do r ← sys k λ w d. k.bind w d a; or_throw k (λ _. x) r) (s, w))
  bind-Kept false a x s w h = (refl, h)
  bind-Kept true a x s w h = bound (k.bind w s.fd a).0
    where
      bound : (r : Call) → Kept s.state (or_throw k (λ _. x) r (s, (k.bind w s.fd a).1))
      bound (returned n) = (refl, h)
      bound (minus_one e) = ((λ q. cc), refl)

  -- `connect` returns only with the socket connected and with a descriptor. Where it throws, the socket
  -- is in the state in which it was, or connecting, or, where the exception says that the descriptor
  -- could not be made to block again, connected. It runs into undefined behaviour only with a
  -- descriptor, and that is 1024 or more.
  pub connect-Connects :
      (address port seconds bind_to : ℕ) (s : Socket) (w : k.World)
      → Connects s.state (connect k address port seconds bind_to (s, w))
  unfolding connect
  connect-Connects address port seconds bind_to s w =
      Kept-Connects s.state (open_fd k af_inet s.fd (s, w)) _ (open_fd-Kept af_inet s w)
        λ a y (e, h).
          Kept-Connects s.state _ _ (subst (λ st. Kept st (bound y)) e (bind-Kept _ _ _ y.0 y.1 h))
            λ b z (f, i).
              Kept-Connects s.state (set_nonblocking k true z) _
                (subst (λ st. Kept st (set_nonblocking k true z)) f
                  (Flagged-Kept z.0.state _ (set_nonblocking-Flagged true z.0 z.1 i)))
                λ c v (g, j). after_connect-Connects s.state seconds _ _ _ (refl, j)
    where
      bound : Objects k → Outcome Error (Unit {0}) × Objects k
      bound y =
          when k (not (bind_to == 0))
            (do
              r ← sys k λ w d. k.bind w d (inet bind_to 0)
              or_throw k (λ _. runtime_error cant_bind) r)
            y
