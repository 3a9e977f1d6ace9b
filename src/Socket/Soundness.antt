-- ===== src/Socket/Soundness.antt =====
-- The state and the descriptor of each socket of a process that uses source/socket.cpp.
use ez.Base.{
  ◌≡◌, ◌⊎◌, ◌∷◌, ℕ, zero, suc, refl, inl, inr, Bool, true, false, Bool-cases, none, some, Option,
  List, [], Outcome, ok, throws, fault, All, All-append, All-get_elem?, get_elem?,
}
use ez.Socket.{
  Socket, Error, error, again_on_blocking, new, from_fd, disconnected, listening, same_state,
  Objects, Op,
}
use ez.Socket.Io.{accept, accept_loop, after_accept, would_have_to_wait}
use ez.Socket.Process.{
  Action, Event, constructs, adopts, moves, destroys, accepts, acts, replaced, perform, Process,
  taken_in, on_socket, step, run,
}
use ez.Socket.System.{would_block, interrupted, Call, returned, minus_one, Kernel}
use ez.Socket.Validity.{IsSound, perform-IsSound}

-- No socket is moved away, and one that is made around no descriptor is made disconnected.
abbrev pub IsPlain : Event → Type 0
IsPlain (moves i) = ⊥
IsPlain (adopts none st) = st ≡ disconnected
IsPlain _ = Unit

replaced-IsSound :
    (ss : List Socket) (i : ℕ) (ts : List Socket)
    → All IsSound ss
    → All IsSound ts
    → All IsSound (replaced ss i ts)
replaced-IsSound [] i ts h g = tt
replaced-IsSound (s ∷ ss) zero ts (h, hs) g = All-append IsSound ts ss g hs
replaced-IsSound (s ∷ ss) (suc i) ts (h, hs) g = (h, replaced-IsSound ss i ts hs g)

module _ (k : Kernel) where
  -- The old socket and, where one is made, the new one.
  abbrev Accepted : Outcome Error Socket × Objects k → Type 0
  Accepted (ok n, (s, w)) = IsSound n × IsSound s
  Accepted (throws e, (s, w)) = IsSound s
  Accepted (fault, (s, w)) = IsSound s

  wait-Accepted :
      (s : Socket) (w : k.World)
      → IsSound s
      → Accepted (would_have_to_wait k new (error again_on_blocking) (s, w))
  wait-Accepted s w h = go s.nonblocking refl
    where
      go :
          (b : Bool)
          → s.nonblocking ≡ b
          → Accepted (would_have_to_wait k new (error again_on_blocking) (s, w))
      go true e = rw e ((λ z. refl), h)
      go false e = rw e h

  after_accept-Accepted :
      (again : Op k Socket) (s : Socket) (w : k.World) (r : Call)
      → IsSound s
      → Accepted (again (s, w))
      → Accepted (after_accept k again r (s, w))
  unfolding from_fd
  after_accept-Accepted again s w (returned d) h more = ((λ z. cc), h)
  after_accept-Accepted again s w (minus_one x) h more = elim (Bool-cases (would_block x)) [
    | inl b ↦ rw b (wait-Accepted s w h)
    | inr b ↦ elim (Bool-cases (interrupted x)) [ inl i ↦ rw (b, i) more | inr i ↦ rw (b, i) h ]
  ]

  accept_loop-Accepted :
      (fuel : ℕ) (s : Socket) (w : k.World) → IsSound s → Accepted (accept_loop k fuel (s, w))
  unfolding accept_loop
  accept_loop-Accepted zero s w h = h
  accept_loop-Accepted (suc fuel) s w h =
      let (r, w') = k.accept w s.fd in
      after_accept-Accepted (accept_loop k fuel) s w' r h (accept_loop-Accepted fuel s w' h)

  accept-Accepted :
      (fuel : ℕ) (s : Socket) (w : k.World) → IsSound s → Accepted (accept k fuel (s, w))
  unfolding accept
  accept-Accepted fuel s w h = elim (Bool-cases (same_state s.state listening)) [
    | inl b ↦ rw b (accept_loop-Accepted fuel s w h)
    | inr b ↦ rw b h
  ]

  abbrev AreSound : Process k → Type 0
  AreSound p = All IsSound p.0

  module _ (ss : List Socket) (h : All IsSound ss) (i : ℕ) where
    taken_in-AreSound :
        (r : Outcome Error Socket × Objects k) → Accepted r → AreSound (taken_in k i ss r)
    taken_in-AreSound (ok n, (s, w)) (a, b) = replaced-IsSound ss i (n ∷ s ∷ []) h (a, (b, tt))
    taken_in-AreSound (throws e, (s, w)) a = replaced-IsSound ss i (s ∷ []) h (a, tt)
    taken_in-AreSound (fault, (s, w)) a = replaced-IsSound ss i (s ∷ []) h (a, tt)

    on_socket-AreSound :
        (ev : Event) (o : Option Socket) (w : k.World)
        → get_elem? ss i ≡ o
        → (ev ≡ destroys i)
          ⊎ ((fuel : ℕ) × (ev ≡ accepts i fuel))
          ⊎ ((a : Action) × (ev ≡ acts i a))
        → AreSound (on_socket k ev o (ss, w))
    on_socket-AreSound ev none w e q = h
    on_socket-AreSound ev (some s) w e (inl q) = rw q (replaced-IsSound ss i [] h tt)
    on_socket-AreSound ev (some s) w e (inr (inl (fuel, q))) = rw q (
        taken_in-AreSound (accept k fuel (s, w))
          (accept-Accepted fuel s w (All-get_elem? IsSound ss i s h e)))
    on_socket-AreSound ev (some s) w e (inr (inr (a, q))) = rw q (
        replaced-IsSound ss i ((perform k a (s, w)).1.0 ∷ []) h
          (perform-IsSound k a s w (All-get_elem? IsSound ss i s h e), tt))

  step-AreSound : (ev : Event) (p : Process k) → IsPlain ev → AreSound p → AreSound (step k ev p)
  unfolding step
  step-AreSound constructs (ss, w) q h = ((λ z. refl), h)
  step-AreSound (adopts none st) (ss, w) q h = unfold from_fd in ((λ z. q), h)
  step-AreSound (adopts (some d) st) (ss, w) q h = unfold from_fd in ((λ z. cc), h)
  step-AreSound (moves i) (ss, w) q h = absurd q
  step-AreSound (destroys i) (ss, w) q h =
      on_socket-AreSound ss h i (destroys i) (get_elem? ss i) w refl (inl refl)
  step-AreSound (accepts i fuel) (ss, w) q h =
      on_socket-AreSound ss h i (accepts i fuel) (get_elem? ss i) w refl (inr (inl (fuel, refl)))
  step-AreSound (acts i a) (ss, w) q h =
      on_socket-AreSound ss h i (acts i a) (get_elem? ss i) w refl (inr (inr (a, refl)))

  -- In a process where no socket is moved away, and none is made around no descriptor in another state
  -- than disconnected: whatever sockets are made, empty or around descriptors, destroyed, accepted
  -- with and operated on, in any order and however the calls end, each socket that is connecting,
  -- connected or listening has a descriptor, if that was so of the sockets in the beginning.
  pub run-IsSound :
      (es : List Event) (ss : List Socket) (w : k.World)
      → All IsPlain es
      → All IsSound ss
      → All IsSound (run k es (ss, w)).0
  unfolding run
  run-IsSound [] ss w q h = h
  run-IsSound (e ∷ es) ss w (q, qs) h =
      let p = step k e (ss, w) in run-IsSound es p.0 p.1 qs (step-AreSound e (ss, w) q h)
