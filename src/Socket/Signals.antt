-- ===== src/Socket/Signals.antt =====
-- The loops of `send`, `recv` and `accept` of source/socket.cpp, which go on when a signal
-- interrupts the call.
use ez.Base.{
  ◌<◌, ◌≡◌, ◌≢◌, ◌==◌, if◌then◌else◌, ltb, ℕ, zero, suc, refl, inl, inr, true, Bool-cases, List, [],
  ◌∷◌, arith, length, Outcome, throws,
}
use ez.Channel.Monad.{follow, throw}
use ez.Socket.{
  Socket, new, again_on_blocking, accept_unknown, unknown_error, Error, timeout, error, stuck,
  Objects, Op, same_state, connected, listening,
}
use ez.Socket.Closing.{close_lem}
use ez.Socket.Inbox.{asked}
use ez.Socket.Io.{
  Ssize, count, minus, send, send_loop, after_send, recv, recv_loop, after_recv, accept,
  accept_loop, after_accept, hang_up, would_have_to_wait,
}
use ez.Socket.System.{
  would_block, connection_reset, interrupted, Errno, Call, returned, minus_one, Fetch, stored,
  nothing_stored, Fd, Kernel,
}

-- Only so many more signals interrupt the process: each interrupted call uses one up.
pub record IsPatient (k : Kernel) : Type 0 where
  pub signals : k.World → ℕ
  pub sending :
      (w w' : k.World) (d : Fd) (bytes : List ℕ) (e : Errno)
      → k.send w d bytes ≡ (minus_one e, w')
      → interrupted e ≡ true
      → signals w' < signals w
  pub receiving :
      (w w' : k.World) (d : Fd) (n : ℕ) (e : Errno)
      → k.recv w d n ≡ (nothing_stored e, w')
      → interrupted e ≡ true
      → signals w' < signals w
  pub accepting :
      (w w' : k.World) (d : Fd) (e : Errno)
      → k.accept w d ≡ (minus_one e, w')
      → interrupted e ≡ true
      → signals w' < signals w

module _ (k : Kernel) where
  abbrev pub IsDone : {A : Type 0} → Outcome Error A × Objects k → Type 0
  IsDone r = r.0 ≢ throws stuck

  wait-IsDone :
      {A : Type 0} (code : A) (e : Error) (x : Objects k)
      → e ≢ stuck
      → IsDone (would_have_to_wait k code e x)
  wait-IsDone code e (s, w) ne = elim (Bool-cases s.nonblocking) [
    | inl b ↦ rw b (λ q. cc)
    | inr b ↦ rw b (λ q. ne cc)
  ]

  hang_up-IsDone : {A : Type 0} (nothing : A) (x : Objects k) → IsDone (hang_up k nothing x)
  hang_up-IsDone nothing (s, w) =
      rw (close_lem k s w, follow)
        (elim (Bool-cases s.nonblocking) [ inl b ↦ rw b (λ q. cc) | inr b ↦ rw b (λ q. cc) ])

  -- The tests on `errno` that the three loops begin with.
  errno-IsDone :
      {A : Type 0} (code : A) (late : Error) (again last : Op k A) (e : Errno) (x : Objects k)
      → late ≢ stuck
      → (interrupted e ≡ true → IsDone (again x))
      → IsDone (last x)
      → IsDone (
          (if would_block e
              then would_have_to_wait k code late
              else if interrupted e
              then again
              else last)
            x)
  errno-IsDone code late again last e x ne more end_ = elim (Bool-cases (would_block e)) [
    | inl b ↦ rw b (wait-IsDone code late x ne)
    | inr b ↦ elim (Bool-cases (interrupted e)) [
      | inl i ↦ rw (b, i) (more i)
      | inr i ↦ rw (b, i) end_
    ]
  ]

  abbrev nobody : Ssize ℕ
  nobody = count 0

  lost-IsDone :
      (e : Errno) (x : Objects k)
      → IsDone ((if connection_reset e then hang_up k nobody else throw (error unknown_error)) x)
  lost-IsDone e x = elim (Bool-cases (connection_reset e)) [
    | inl c ↦ rw c (hang_up-IsDone nobody x)
    | inr c ↦ rw c (λ q. cc)
  ]

module _ (k : Kernel) (patient : IsPatient k) where
  after_send-IsDone :
      (again : Op k (Ssize ℕ)) (bytes : List ℕ) (s : Socket) (w w' : k.World) (r : Call)
      → k.send w s.fd bytes ≡ (r, w')
      → (patient.signals w' < patient.signals w → IsDone k (again (s, w')))
      → IsDone k (after_send k again r (s, w'))
  after_send-IsDone again bytes s w w' (returned n) eq more = λ q. cc
  after_send-IsDone again bytes s w w' (minus_one e) eq more =
      errno-IsDone k (minus 3) timeout again
        (if connection_reset e then hang_up k (nobody k) else throw (error unknown_error)) e (s, w')
        (λ q. cc) (λ i. more (patient.sending w w' s.fd bytes e eq i)) (lost-IsDone k e (s, w'))

  send_loop-IsDone :
      (fuel : ℕ) (bytes : List ℕ) (s : Socket) (w : k.World)
      → patient.signals w < fuel
      → IsDone k (send_loop k fuel bytes (s, w))
  unfolding send_loop
  send_loop-IsDone zero bytes s w lt = absurd (omega arith)
  send_loop-IsDone (suc fuel) bytes s w lt =
      let (r, w') = k.send w s.fd bytes in
      after_send-IsDone (send_loop k fuel bytes) bytes s w w' r refl
        λ fewer. send_loop-IsDone fuel bytes s w' (omega arith)

  after_recv-IsDone :
      (again : Op k (Ssize (List ℕ))) (n : ℕ) (s : Socket) (w w' : k.World) (r : Fetch)
      → k.recv w s.fd n ≡ (r, w')
      → (patient.signals w' < patient.signals w → IsDone k (again (s, w')))
      → IsDone k (after_recv k again r (s, w'))
  after_recv-IsDone again n s w w' (stored (b ∷ bytes)) eq more = λ q. cc
  after_recv-IsDone again n s w w' (stored []) eq more = hang_up-IsDone k (count []) (s, w')
  after_recv-IsDone again n s w w' (nothing_stored e) eq more =
      errno-IsDone k (minus 2) timeout again (throw (error unknown_error)) e (s, w') (λ q. cc)
        (λ i. more (patient.receiving w w' s.fd n e eq i)) (λ q. cc)

  recv_loop-IsDone :
      (fuel size desired : ℕ) (s : Socket) (w : k.World)
      → patient.signals w < fuel
      → IsDone k (recv_loop k fuel size desired (s, w))
  unfolding recv_loop
  recv_loop-IsDone zero size desired s w lt = absurd (omega arith)
  recv_loop-IsDone (suc fuel) size desired s w lt =
      let (r, w') = k.recv w s.fd (asked size desired) in
      after_recv-IsDone (recv_loop k fuel size desired) (asked size desired) s w w' r refl
        λ fewer. recv_loop-IsDone fuel size desired s w' (omega arith)

  after_accept-IsDone :
      (again : Op k Socket) (s : Socket) (w w' : k.World) (r : Call)
      → k.accept w s.fd ≡ (r, w')
      → (patient.signals w' < patient.signals w → IsDone k (again (s, w')))
      → IsDone k (after_accept k again r (s, w'))
  after_accept-IsDone again s w w' (returned d) eq more = λ q. cc
  after_accept-IsDone again s w w' (minus_one e) eq more =
      errno-IsDone k new (error again_on_blocking) again (throw (error accept_unknown)) e (s, w')
        (λ q. cc) (λ i. more (patient.accepting w w' s.fd e eq i)) (λ q. cc)

  accept_loop-IsDone :
      (fuel : ℕ) (s : Socket) (w : k.World)
      → patient.signals w < fuel
      → IsDone k (accept_loop k fuel (s, w))
  unfolding accept_loop
  accept_loop-IsDone zero s w lt = absurd (omega arith)
  accept_loop-IsDone (suc fuel) s w lt =
      let (r, w') = k.accept w s.fd in
      after_accept-IsDone (accept_loop k fuel) s w w' r refl
        λ fewer. accept_loop-IsDone fuel s w' (omega arith)

  send-IsDone :
      (fuel : ℕ) (bytes : List ℕ) (s : Socket) (w : k.World)
      → patient.signals w < fuel
      → IsDone k (send k fuel bytes (s, w))
  unfolding send
  send-IsDone fuel bytes s w lt = elim (Bool-cases (length bytes == 0)) [
    | inl z ↦ rw z (λ q. cc)
    | inr z ↦ elim (Bool-cases (same_state s.state connected)) [
      | inl c ↦ rw (z, c) (send_loop-IsDone fuel bytes s w lt)
      | inr c ↦ rw (z, c) (λ q. cc)
    ]
  ]

  recv-IsDone :
      (fuel size desired : ℕ) (s : Socket) (w : k.World)
      → patient.signals w < fuel
      → IsDone k (recv k fuel size desired (s, w))
  unfolding recv
  recv-IsDone fuel size desired s w lt = elim (Bool-cases (same_state s.state connected)) [
    | inr c ↦ rw c (λ q. cc)
    | inl c ↦ elim (Bool-cases (size == 0)) [
      | inl z ↦ rw (c, z) (λ q. cc)
      | inr z ↦ elim (Bool-cases (ltb size desired)) [
        | inl l ↦ rw (c, z, l) (λ q. cc)
        | inr l ↦ rw (c, z, l) (recv_loop-IsDone fuel size desired s w lt)
      ]
    ]
  ]

  accept-IsDone :
      (fuel : ℕ) (s : Socket) (w : k.World)
      → patient.signals w < fuel
      → IsDone k (accept k fuel (s, w))
  unfolding accept
  accept-IsDone fuel s w lt = elim (Bool-cases (same_state s.state listening)) [
    | inl c ↦ rw c (accept_loop-IsDone fuel s w lt)
    | inr c ↦ rw c (λ q. cc)
  ]

  -- `send`, `recv` and `accept` end: where signals interrupt the process only so many more times,
  -- one more round than that is enough for each of their loops, whatever the system says.
  pub loops-IsDone :
      (fuel : ℕ) (s : Socket) (w : k.World)
      → patient.signals w < fuel
      → ((bytes : List ℕ) → (send k fuel bytes (s, w)).0 ≢ throws stuck)
        × ((size desired : ℕ) → (recv k fuel size desired (s, w)).0 ≢ throws stuck)
        × ((accept k fuel (s, w)).0 ≢ throws stuck)
  loops-IsDone fuel s w lt = (
    λ bytes. send-IsDone fuel bytes s w lt,
    λ size desired. recv-IsDone fuel size desired s w lt,
    accept-IsDone fuel s w lt,
  )
