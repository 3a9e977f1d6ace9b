-- ===== src/Socket/Stream.antt =====
-- `send` and `recv` of source/socket.cpp over a kernel that keeps the promises of a stream socket.
use ez.Base.{
  ◌≤◌, ◌≡◌, ◌∙◌, ◌++◌, ◌==◌, if◌then◌else◌, inl, inr, ℕ, zero, suc, refl, sym, Bool, true, false,
  Bool-cases, none, some, List, [], ◌∷◌, arith, length, take, Outcome, ok, throws, fault,
}
use mathlib.Core.List.{append-nil}
use mathlib.Core.Path.{subst}
use ez.Channel.{Channel, Sent, took, blocked, failed, Received, got, idle, broken, IsStream}
use ez.Socket.{Socket, Error, error, timeout, Objects, Op, same_state, connected, peer_gone}
use ez.Channel.Monad.{follow, pure, throw}
use ez.Socket.Closing.{closed, shut, close_lem}
use ez.Socket.Io.{
  Ssize, count, minus, send, send_loop, after_send, recv, hang_up, would_have_to_wait,
}
use ez.Socket.System.{
  would_block, connection_reset, interrupted, Errno, Call, returned, minus_one, Fd, Kernel,
}

-- What is documented of a stream socket, with the bytes that the process handed over, in order.
pub record IsWire (k : Kernel) : Type 0 where
  pub wire : k.World → List ℕ
  pub takes :
      (w w' : k.World) (d : Fd) (bytes : List ℕ) (n : ℕ)
      → k.send w d bytes ≡ (returned n, w')
      → (n ≤ length bytes) × (wire w' ≡ wire w ++ take n bytes)
  pub refuses :
      (w w' : k.World) (d : Fd) (bytes : List ℕ) (e : Errno)
      → k.send w d bytes ≡ (minus_one e, w')
      → wire w' ≡ wire w
  pub shuts : (w : k.World) (d : Fd) → wire (k.shutdown w d) ≡ wire w
  pub closes : (w : k.World) (d : Fd) → wire (k.close w d) ≡ wire w

module _ (k : Kernel) (net : IsWire k) where
  shut-wire : (d : Fd) (w : k.World) → net.wire (shut k d w) ≡ net.wire w
  shut-wire none w = refl
  shut-wire (some d) w = net.closes (k.shutdown w (some d)) (some d) ∙ net.shuts w (some d)

  -- How `send` may end, where `before` is what the wire had.
  abbrev pub Accounts : (bytes before : List ℕ) → Outcome Error (Ssize ℕ) × Objects k → Type 0
  Accounts bytes before (ok (count n), (s, w)) =
      (n ≤ length bytes) × (net.wire w ≡ before ++ take n bytes)
  Accounts bytes before (ok (minus c), (s, w)) = (s.nonblocking ≡ true) × (net.wire w ≡ before)
  Accounts bytes before (throws e, (s, w)) = net.wire w ≡ before
  Accounts bytes before (fault, x) = ⊥

  wait-Accounts :
      (bytes : List ℕ) (w w' : k.World) (s : Socket)
      → net.wire w' ≡ net.wire w
      → Accounts bytes (net.wire w) (would_have_to_wait k (minus 3) timeout (s, w'))
  wait-Accounts bytes w w' s e = go s.nonblocking refl
    where
      go :
          (b : Bool)
          → s.nonblocking ≡ b
          → Accounts bytes (net.wire w) (would_have_to_wait k (minus 3) timeout (s, w'))
      go true q = rw q (refl, e)
      go false q = rw q e

  hang_up-Accounts :
      (bytes : List ℕ) (w w' : k.World) (s : Socket)
      → net.wire w' ≡ net.wire w
      → Accounts bytes (net.wire w) (hang_up k (count 0) (s, w'))
  hang_up-Accounts bytes w w' s e = rw (close_lem k s w', follow) (go s.nonblocking refl)
    where
      kept : net.wire (shut k s.fd w') ≡ net.wire w
      kept = shut-wire s.fd w' ∙ e

      go :
          (b : Bool)
          → s.nonblocking ≡ b
          → Accounts bytes (net.wire w) (
              (if s.nonblocking then pure (count 0) else throw (error peer_gone))
                (closed s, shut k s.fd w'))
      go true q = rw q (omega arith, kept ∙ sym (append-nil (net.wire w)))
      go false q = rw q kept

  after_send-Accounts :
      (bytes : List ℕ) (again : Op k (Ssize ℕ)) (w w' : k.World) (s : Socket) (r : Call)
      → k.send w s.fd bytes ≡ (r, w')
      → (net.wire w' ≡ net.wire w → Accounts bytes (net.wire w) (again (s, w')))
      → Accounts bytes (net.wire w) (after_send k again r (s, w'))
  after_send-Accounts bytes again w w' s (returned n) eq k' = net.takes w w' s.fd bytes n eq
  after_send-Accounts bytes again w w' s (minus_one e) eq more =
      let kept = net.refuses w w' s.fd bytes e eq in
      elim (Bool-cases (would_block e)) [
        | inl b ↦ rw b (wait-Accounts bytes w w' s kept)
        | inr b ↦ elim (Bool-cases (interrupted e)) [
          | inl i ↦ rw (b, i) (more kept)
          | inr i ↦ elim (Bool-cases (connection_reset e)) [
            | inl c ↦ rw (b, i, c) (hang_up-Accounts bytes w w' s kept)
            | inr c ↦ rw (b, i, c) kept
          ]
        ]
      ]

  send_loop-Accounts :
      (fuel : ℕ) (bytes : List ℕ) (w : k.World) (s : Socket)
      → Accounts bytes (net.wire w) (send_loop k fuel bytes (s, w))
  unfolding send_loop
  send_loop-Accounts zero bytes w s = refl
  send_loop-Accounts (suc fuel) bytes w s =
      let (r, w') = k.send w s.fd bytes in
      after_send-Accounts bytes (send_loop k fuel bytes) w w' s r refl λ kept.
        subst (λ before. Accounts bytes before (send_loop k fuel bytes (s, w'))) kept
          (send_loop-Accounts fuel bytes w' s)

  -- Of what `send` is given, it hands over to the wire as many bytes as it says, from the first one
  -- on, and none where it says that it would block or throws; and it never runs into undefined
  -- behaviour. It says that it would block only on a nonblocking socket.
  pub send-Accounts :
      (fuel : ℕ) (bytes : List ℕ) (w : k.World) (s : Socket)
      → Accounts bytes (net.wire w) (send k fuel bytes (s, w))
  unfolding send
  send-Accounts fuel bytes w s = elim (Bool-cases (length bytes == 0)) [
    | inl z ↦ rw z (omega arith, sym (append-nil (net.wire w)))
    | inr some_ ↦ elim (Bool-cases (same_state s.state connected)) [
      | inl c ↦ rw (some_, c) (send_loop-Accounts fuel bytes w s)
      | inr c ↦ rw (some_, c) refl
    ]
  ]

-- The socket as a channel, with the fuel of its loops.
abbrev pub as_sent : Outcome Error (Ssize ℕ) → Sent
as_sent (ok (count n)) = took n
as_sent (ok (minus c)) = blocked
as_sent (throws e) = failed
as_sent fault = failed

abbrev pub as_received : Outcome Error (Ssize (List ℕ)) → Received
as_received (ok (count [])) = idle
as_received (ok (count (b ∷ bytes))) = got (b ∷ bytes)
as_received (ok (minus c)) = idle
as_received (throws e) = broken
as_received fault = broken

abbrev pub socket_channel : Kernel → ℕ → Channel
socket_channel k fuel = record {
  State = Objects k;
  send = λ x bytes. let r = send k fuel bytes x in (as_sent r.0, r.1);
  recv = λ x size desired. let r = recv k fuel size desired x in (as_received r.0, r.1);
}

module _ (k : Kernel) (net : IsWire k) (fuel : ℕ) where
  abbrev pub Said : (bytes before : List ℕ) → Sent × Objects k → Type 0
  Said bytes before (took n, y) = (n ≤ length bytes) × (net.wire y.1 ≡ before ++ take n bytes)
  Said bytes before (blocked, y) = net.wire y.1 ≡ before
  Said bytes before (failed, y) = net.wire y.1 ≡ before

  as_sent-Said :
      (bytes before : List ℕ) (r : Outcome Error (Ssize ℕ)) (y : Objects k)
      → Accounts k net bytes before (r, y)
      → Said bytes before (as_sent r, y)
  as_sent-Said bytes before (ok (count n)) y a = a
  as_sent-Said bytes before (ok (minus c)) y a = a.1
  as_sent-Said bytes before (throws e) y a = a
  as_sent-Said bytes before fault y a = absurd a

  pub send-Said :
      (x : Objects k) (bytes : List ℕ)
      → Said bytes (net.wire x.1) ((socket_channel k fuel).send x bytes)
  send-Said (s, w) bytes =
      let r = send k fuel bytes (s, w) in
      as_sent-Said bytes (net.wire w) r.0 r.1 (send-Accounts k net fuel bytes w s)

  -- A socket is a byte stream: what was sent is what the kernel has on the wire.
  abbrev pub socket_stream : IsStream (socket_channel k fuel)
  socket_stream = record {
    sent = λ x. net.wire x.1;
    taken = λ x y bytes n e. subst (Said bytes (net.wire x.1)) e (send-Said x bytes);
    refused = λ x y bytes e. subst (Said bytes (net.wire x.1)) e (send-Said x bytes);
    lost = λ x y bytes e. subst (Said bytes (net.wire x.1)) e (send-Said x bytes);
  }
