-- ===== src/Socket/Closers.antt =====
-- `send`, `recv` and `accept` of source/socket.cpp change the socket only by closing it: what a
-- relation between the objects before and after needs, to hold of them.
use ez.Base.{
  ◌≡◌, ◌==◌, if◌then◌else◌, ℕ, zero, suc, inl, inr, Bool, true, false, Bool-cases, List, [], ◌∷◌,
  length, ltb,
}
use ez.Channel.Monad.{throw, pure}
use ez.Socket.{
  Socket, Error, error, timeout, unknown_error, Objects, Op, close, same_state, connected,
}
use ez.Socket.Ends.{IsPreorder, Respects, follow-Respects}
use ez.Socket.Inbox.{asked}
use ez.Socket.Io.{
  Ssize, count, minus, send, send_loop, after_send, recv, recv_loop, after_recv, hang_up,
  would_have_to_wait,
}
use ez.Socket.Quiet.{IsStill}
use ez.Socket.System.{
  would_block, connection_reset, interrupted, Errno, Call, returned, minus_one, Fetch, stored,
  nothing_stored, Kernel,
}

-- The relation allows what leaves the socket as it is, and `close`.
pub record IsCloser (k : Kernel) {V : Type 0} (view : k.World → V)
    (R : Objects k → Objects k → Type 0) : Type 0 where
  pub preorder : IsPreorder R
  pub untouched : (s : Socket) (w w' : k.World) → view w' ≡ view w → R (s, w) (s, w')
  pub closing : Respects R (close k)

module _ (k : Kernel) {V : Type 0} (view : k.World → V) (still : IsStill k view)
    (R : Objects k → Objects k → Type 0) (c : IsCloser k view R) where
  stays : (x : Objects k) → R x x
  stays = c.preorder.same

  -- Saying something or throwing, as `m_nonblocking` tells.
  answer : {A : Type 0} (b : Bool) (a : A) (e : Error) → Respects R (if b then pure a else throw e)
  answer true a e = stays
  answer false a e = stays

  wait-R : {A : Type 0} (code : A) (e : Error) → Respects R (would_have_to_wait k code e)
  wait-R code e x = answer x.0.nonblocking code e x

  hang_up-R : {A : Type 0} (nothing : A) → Respects R (hang_up k nothing)
  hang_up-R nothing x =
      follow-Respects c.preorder x (close k x) _ (c.closing x)
        λ _ y. answer y.0.nonblocking nothing _ y

  errno-R :
      {A : Type 0} (code : A) (late : Error) (again last : Op k A) (e : Errno)
      → Respects R again
      → Respects R last
      → Respects R (
          if would_block e
          then would_have_to_wait k code late
          else if interrupted e
          then again
          else last)
  errno-R code late again last e p q x = elim (Bool-cases (would_block e)) [
    | inl b ↦ rw b (wait-R code late x)
    | inr b ↦ elim (Bool-cases (interrupted e)) [
      | inl i ↦ rw (b, i) (p x)
      | inr i ↦ rw (b, i) (q x)
    ]
  ]

  after_send-R :
      (again : Op k (Ssize ℕ)) (r : Call) → Respects R again → Respects R (after_send k again r)
  after_send-R again (returned n) p = stays
  after_send-R again (minus_one e) p = errno-R (minus 3) timeout again _ e p λ x.
      elim (Bool-cases (connection_reset e)) [
        | inl b ↦ rw b (hang_up-R (count 0) x)
        | inr b ↦ rw b (stays x)
      ]

  send_loop-R : (fuel : ℕ) (bytes : List ℕ) → Respects R (send_loop k fuel bytes)
  unfolding send_loop
  send_loop-R zero bytes = stays
  send_loop-R (suc fuel) bytes = λ x.
      c.preorder.then_
        (c.untouched x.0 x.1 (k.send x.1 x.0.fd bytes).1 (still.send x.1 x.0.fd bytes))
        (after_send-R (send_loop k fuel bytes) (k.send x.1 x.0.fd bytes).0 (send_loop-R fuel bytes)
          (x.0, (k.send x.1 x.0.fd bytes).1))

  pub send-R : (fuel : ℕ) (bytes : List ℕ) → Respects R (send k fuel bytes)
  unfolding send
  send-R fuel bytes x = elim (Bool-cases (length bytes == 0)) [
    | inl z ↦ rw z (stays x)
    | inr z ↦ elim (Bool-cases (same_state x.0.state connected)) [
      | inl s ↦ rw (z, s) (send_loop-R fuel bytes x)
      | inr s ↦ rw (z, s) (stays x)
    ]
  ]

  after_recv-R :
      (again : Op k (Ssize (List ℕ))) (r : Fetch)
      → Respects R again
      → Respects R (after_recv k again r)
  after_recv-R again (stored (b ∷ bytes)) p = stays
  after_recv-R again (stored []) p = hang_up-R (count [])
  after_recv-R again (nothing_stored e) p =
      errno-R (minus 2) timeout again (throw (error unknown_error)) e p stays

  recv_loop-R : (fuel size desired : ℕ) → Respects R (recv_loop k fuel size desired)
  unfolding recv_loop
  recv_loop-R zero size desired = stays
  recv_loop-R (suc fuel) size desired = λ x.
      let r = k.recv x.1 x.0.fd (asked size desired) in
      c.preorder.then_ (c.untouched x.0 x.1 r.1 (still.recv x.1 x.0.fd (asked size desired))) (
        after_recv-R (recv_loop k fuel size desired) r.0 (recv_loop-R fuel size desired) (x.0, r.1))

  pub recv-R : (fuel size desired : ℕ) → Respects R (recv k fuel size desired)
  unfolding recv
  recv-R fuel size desired x = elim (Bool-cases (same_state x.0.state connected)) [
    | inr s ↦ rw s (stays x)
    | inl s ↦ elim (Bool-cases (size == 0)) [
      | inl z ↦ rw (s, z) (stays x)
      | inr z ↦ elim (Bool-cases (ltb size desired)) [
        | inl l ↦ rw (s, z, l) (stays x)
        | inr l ↦ rw (s, z, l) (recv_loop-R fuel size desired x)
      ]
    ]
  ]
