-- ===== src/Socket/Io.antt =====
-- `send`, `recv` and `accept` of source/socket.cpp. Their loops go on when a signal interrupts the
-- call, so they run on fuel, one unit for each call of the system.
use ez.Base.{◌==◌, some, if◌then◌else◌, ℕ, zero, suc, List, [], ◌∷◌, ltb, length}
use ez.Channel.Monad.{◌>>=◌, ◌>>◌, pure, throw}
use ez.Socket.{
  Socket, Error, error, timeout, stuck, Op, sys, state, is_nonblocking, close, same_state,
  connected, listening, from_fd, new, send_not_connected, recv_not_connected, full_or_empty,
  too_small, not_listening, peer_gone, unknown_error, again_on_blocking, accept_unknown,
}
use ez.Socket.System.{
  would_block, connection_reset, interrupted, Call, returned, minus_one, Fetch, stored,
  nothing_stored, Kernel,
}

-- `ssize_t`
pub data Ssize {ℓ} (A : Type ℓ) : Type ℓ where
  count : A → Ssize A
  minus : ℕ → Ssize A

module _ (k : Kernel) where
  -- Where the other side is gone: nothing is said without blocking, for the event loop reports it.
  abbrev pub hang_up : {A : Type 0} → A → Op k A
  hang_up nothing = do
    close k
    quiet ← is_nonblocking k
    if quiet then pure nothing else throw (error peer_gone)

  abbrev pub would_have_to_wait : {A : Type 0} → A → Error → Op k A
  would_have_to_wait code e = do quiet ← is_nonblocking k; if quiet then pure code else throw e

  abbrev pub after_send : Op k (Ssize ℕ) → Call → Op k (Ssize ℕ)
  after_send again (returned n) = pure (count n)
  after_send again (minus_one e) =
      if would_block e
      then would_have_to_wait (minus 3) timeout
      else if interrupted e
      then again
      else if connection_reset e
      then hang_up (count 0)
      else throw (error unknown_error)

  unfoldable pub send_loop : ℕ → List ℕ → Op k (Ssize ℕ)
  send_loop zero bytes = throw stuck
  send_loop (suc fuel) bytes = do
    r ← sys k λ w d. k.send w d bytes
    after_send (send_loop fuel bytes) r

  unfoldable pub send : ℕ → List ℕ → Op k (Ssize ℕ)
  send fuel bytes = if length bytes == 0 then pure (count 0) else do
    st ← state k
    if same_state st connected then send_loop fuel bytes else throw (error send_not_connected)

  abbrev pub after_recv : Op k (Ssize (List ℕ)) → Fetch → Op k (Ssize (List ℕ))
  after_recv again (stored (b ∷ bytes)) = pure (count (b ∷ bytes))
  after_recv again (stored []) = hang_up (count [])
  after_recv again (nothing_stored e) =
      if would_block e
      then would_have_to_wait (minus 2) timeout
      else if interrupted e
      then again
      else throw (error unknown_error)

  unfoldable pub recv_loop : ℕ → (size desired : ℕ) → Op k (Ssize (List ℕ))
  recv_loop zero size desired = throw stuck
  recv_loop (suc fuel) size desired = do
    r ← sys k λ w d. k.recv w d (if ltb 0 desired then desired else size)
    after_recv (recv_loop fuel size desired) r

  unfoldable pub recv : ℕ → (size desired : ℕ) → Op k (Ssize (List ℕ))
  recv fuel size desired = do
    st ← state k
    if same_state st connected
        then if size == 0
          then throw (error full_or_empty)
          else if ltb size desired
          then throw (error too_small)
          else recv_loop fuel size desired
        else throw (error recv_not_connected)

  abbrev pub after_accept : Op k Socket → Call → Op k Socket
  after_accept again (returned d) = pure (from_fd (some d) connected)
  after_accept again (minus_one e) =
      if would_block e
      then would_have_to_wait new (error again_on_blocking)
      else if interrupted e
      then again
      else throw (error accept_unknown)

  unfoldable pub accept_loop : ℕ → Op k Socket
  accept_loop zero = throw stuck
  accept_loop (suc fuel) = do r ← sys k k.accept; after_accept (accept_loop fuel) r

  unfoldable pub accept : ℕ → Op k Socket
  accept fuel = do
    st ← state k
    if same_state st listening then accept_loop fuel else throw (error not_listening)
