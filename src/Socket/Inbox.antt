-- ===== src/Socket/Inbox.antt =====
-- `recv` of source/socket.cpp over a kernel that keeps what arrives in order.
use ez.Base.{
  ◌≤◌, ◌<◌, ◌≡◌, ◌⊎◌, ◌++◌, ◌==◌, if◌then◌else◌, ℕ, zero, suc, refl, sym, ap, ◌∙◌, inl, inr, Bool,
  true, false, Bool-cases, none, List, [], ◌∷◌, arith, ltb, length, Outcome, ok, throws, fault,
}
use mathlib.Core.Path.{subst}
use ez.Channel.{got, broken}
use ez.Channel.Monad.{follow, pure, throw}
use ez.Http.Safety.{IsBounded}
use ez.Socket.{Socket, Error, error, timeout, Objects, Op, same_state, connected, peer_gone}
use ez.Socket.Closing.{closed, shut, close_lem}
use ez.Socket.Io.{Ssize, count, minus, recv, recv_loop, after_recv, hang_up, would_have_to_wait}
use ez.Socket.Stream.{socket_channel, as_received}
use ez.Socket.System.{would_block, interrupted, Errno, Fetch, stored, nothing_stored, Fd, Kernel}

-- What is documented of `recv`: it stores no more than is asked for, from the first byte that
-- arrived and was not read; where it says -1, it takes nothing.
pub record IsInbox (k : Kernel) : Type 0 where
  pub inbox : k.World → Fd → List ℕ
  pub gives :
      (w w' : k.World) (d : Fd) (n : ℕ) (bytes : List ℕ)
      → k.recv w d n ≡ (stored bytes, w')
      → (length bytes ≤ n) × (inbox w d ≡ bytes ++ inbox w' d)
  pub keeps :
      (w w' : k.World) (d : Fd) (n : ℕ) (e : Errno)
      → k.recv w d n ≡ (nothing_stored e, w')
      → inbox w' d ≡ inbox w d

abbrev pub asked : (size desired : ℕ) → ℕ
asked size desired = if ltb 0 desired then desired else size

module _ (k : Kernel) (net : IsInbox k) where
  -- How `recv` may end, where `before` was the inbox of the descriptor `d`.
  abbrev pub Fetches :
      (limit : ℕ) (d : Fd) (before : List ℕ) → Outcome Error (Ssize (List ℕ)) × Objects k → Type 0
  Fetches limit d before (ok (count (b ∷ bytes)), (s, w)) =
      (length (b ∷ bytes) ≤ limit) × (before ≡ b ∷ bytes ++ net.inbox w d) × (s.fd ≡ d)
  Fetches limit d before (ok (count []), (s, w)) = (s.nonblocking ≡ true) × (s.fd ≡ none)
  Fetches limit d before (ok (minus c), (s, w)) =
      (s.nonblocking ≡ true) × (net.inbox w d ≡ before) × (s.fd ≡ d)
  Fetches limit d before (throws e, (s, w)) =
      ((s.fd ≡ d) × (net.inbox w d ≡ before)) ⊎ ((e ≡ error peer_gone) × (s.fd ≡ none))
  Fetches limit d before (fault, x) = ⊥

  wait-Fetches :
      (limit : ℕ) (before : List ℕ) (w : k.World) (s : Socket)
      → net.inbox w s.fd ≡ before
      → Fetches limit s.fd before (would_have_to_wait k (minus 2) timeout (s, w))
  wait-Fetches limit before w s e = go s.nonblocking refl
    where
      go :
          (b : Bool)
          → s.nonblocking ≡ b
          → Fetches limit s.fd before (would_have_to_wait k (minus 2) timeout (s, w))
      go true q = rw q (refl, e, refl)
      go false q = rw q (inl (refl, e))

  hang_up-Fetches :
      (limit : ℕ) (before : List ℕ) (w : k.World) (s : Socket)
      → Fetches limit s.fd before (hang_up k (count []) (s, w))
  hang_up-Fetches limit before w s = rw (close_lem k s w, follow) (go s.nonblocking refl)
    where
      go :
          (b : Bool)
          → s.nonblocking ≡ b
          → Fetches limit s.fd before (
              (if s.nonblocking then pure (count []) else throw (error peer_gone))
                (closed s, shut k s.fd w))
      go true q = rw q (refl, refl)
      go false q = rw q (inr (refl, refl))

  after_recv-Fetches :
      (size desired : ℕ) (again : Op k (Ssize (List ℕ))) (w w' : k.World) (s : Socket) (r : Fetch)
      → k.recv w s.fd (asked size desired) ≡ (r, w')
      → (net.inbox w' s.fd ≡ net.inbox w s.fd
          → Fetches (asked size desired) s.fd (net.inbox w s.fd) (again (s, w')))
      → Fetches (asked size desired) s.fd (net.inbox w s.fd) (after_recv k again r (s, w'))
  after_recv-Fetches size desired again w w' s (stored (b ∷ bytes)) eq more =
      let (fits, first) = net.gives w w' s.fd (asked size desired) (b ∷ bytes) eq in
      (fits, first, refl)
  after_recv-Fetches size desired again w w' s (stored []) eq more =
      hang_up-Fetches (asked size desired) (net.inbox w s.fd) w' s
  after_recv-Fetches size desired again w w' s (nothing_stored e) eq more =
      let kept = net.keeps w w' s.fd (asked size desired) e eq in
      elim (Bool-cases (would_block e)) [
        | inl b ↦ rw b (wait-Fetches (asked size desired) (net.inbox w s.fd) w' s kept)
        | inr b ↦ elim (Bool-cases (interrupted e)) [
          | inl i ↦ rw (b, i) (more kept)
          | inr i ↦ rw (b, i) (inl (refl, kept))
        ]
      ]

  recv_loop-Fetches :
      (fuel size desired : ℕ) (w : k.World) (s : Socket)
      → Fetches (asked size desired) s.fd (net.inbox w s.fd) (recv_loop k fuel size desired (s, w))
  unfolding recv_loop
  recv_loop-Fetches zero size desired w s = inl (refl, refl)
  recv_loop-Fetches (suc fuel) size desired w s =
      let (r, w') = k.recv w s.fd (asked size desired) in
      after_recv-Fetches size desired (recv_loop k fuel size desired) w w' s r refl λ kept.
        subst
          (λ before.
            Fetches (asked size desired) s.fd before (recv_loop k fuel size desired (s, w')))
          kept (recv_loop-Fetches fuel size desired w' s)

  -- The bytes that `recv` returns are the first ones of those that arrived and were not read, no
  -- more of them than were asked for, or than fit where no number was asked for, and the rest stays
  -- to be read; where it returns -2 (only on a nonblocking socket) nothing is lost. It returns 0
  -- only on a nonblocking socket, and then the socket is closed. Where it throws, nothing is lost
  -- and the socket keeps its descriptor, or the other side is gone and the socket is closed. It never
  -- runs into undefined behaviour.
  pub recv-Fetches :
      (fuel size desired : ℕ) (w : k.World) (s : Socket)
      → Fetches (asked size desired) s.fd (net.inbox w s.fd) (recv k fuel size desired (s, w))
  unfolding recv
  recv-Fetches fuel size desired w s = elim (Bool-cases (same_state s.state connected)) [
    | inr c ↦ rw c (inl (refl, refl))
    | inl c ↦ elim (Bool-cases (size == 0)) [
      | inl z ↦ rw (c, z) (inl (refl, refl))
      | inr z ↦ elim (Bool-cases (ltb size desired)) [
        | inl l ↦ rw (c, z, l) (inl (refl, refl))
        | inr l ↦ rw (c, z, l) (recv_loop-Fetches fuel size desired w s)
      ]
    ]
  ]

module _ (k : Kernel) (net : IsInbox k) (fuel : ℕ) where
  too_small_broken :
      (x : Objects k) (size desired : ℕ)
      → size < desired
      → as_received (recv k fuel size desired x).0 ≡ broken
  unfolding recv
  too_small_broken (s, w) size desired lt =
      let l : ltb size desired ≡ true = ground arith in
      elim (Bool-cases (same_state s.state connected)) [
        | inr c ↦ rw c refl
        | inl c ↦ elim (Bool-cases (size == 0)) [
          | inl z ↦ rw (c, z) refl
          | inr z ↦ rw (c, z, l) refl
        ]
      ]

  Fetches-fits :
      (limit : ℕ) (d : Fd) (before bytes : List ℕ) (r : Outcome Error (Ssize (List ℕ)))
      (y : Objects k)
      → Fetches k net limit d before (r, y)
      → as_received r ≡ got bytes
      → length bytes ≤ limit
  Fetches-fits limit d before bytes (ok (count [])) y f e = cc
  Fetches-fits limit d before bytes (ok (count (b ∷ bs))) y f e = ground (arith, e, f)
  Fetches-fits limit d before bytes (ok (minus c)) y f e = cc
  Fetches-fits limit d before bytes (throws x) y f e = cc
  Fetches-fits limit d before bytes fault y f e = absurd f

  pub socket_fits :
      (x y : Objects k) (size desired : ℕ) (bytes : List ℕ)
      → (socket_channel k fuel).recv x size desired ≡ (got bytes, y)
      → length bytes ≤ size
  socket_fits (s, w) y size desired bytes e = elim (Bool-cases (ltb size desired)) [
    | inl l ↦
        let b = too_small_broken (s, w) size desired (ground arith) in
        absurd (got≢broken (sym (ap (λ p. p.0) e) ∙ b))
    | inr l ↦
        let r = recv k fuel size desired (s, w) in
        let n =
          Fetches-fits (asked size desired) s.fd (net.inbox w s.fd) bytes r.0 r.1
            (recv-Fetches k net fuel size desired w s) (ap (λ p. p.0) e) in
        ground arith
  ]
    where
      got≢broken : got bytes ≡ broken → ⊥
      got≢broken q = cc

  -- A socket stores no more than there is room for, which is what the protocols rely on.
  abbrev pub socket_bounded : IsBounded (socket_channel k fuel)
  socket_bounded = record { fits = socket_fits }
