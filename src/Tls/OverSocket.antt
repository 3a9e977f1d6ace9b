-- ===== src/Tls/OverSocket.antt =====
-- source/tls.cpp over a socket of source/socket.cpp.
use ez.Base.{◌≡◌, ◌≢◌, ◌∙◌, ℕ, suc, sym, false, Option, List, ok}
use mathlib.Core.Bool.{false≢true}
use mathlib.Core.Path.{subst}
use ez.Socket
use ez.Socket.{Objects}
use ez.Socket.Closers.{IsCloser, send-R, recv-R}
use ez.Socket.Closing.{close_lem}
use ez.Socket.Inbox.{IsInbox, asked, Fetches, recv-Fetches}
use ez.Socket.Io
use ez.Socket.Io.{Ssize, count, minus}
use ez.Socket.Stream.{IsWire, Accounts, send-Accounts}
use ez.Socket.System.{Kernel}
use ez.Socket.Validity.{nothing_seen, still}
use ez.Tls.{Lower, Library, send, impl_recv}
use ez.Tls.Blocking.{IsHonest, Blocks, IsPlain, send-IsPlain, recv-IsPlain}

-- A socket as the channel below.
abbrev pub socket_below : Kernel → ℕ → Lower
socket_below k fuel = record {
  Error = Socket.Error;
  State = Objects k;
  send = λ x bytes. Io.send k fuel bytes x;
  recv = λ x size. Io.recv k fuel size 0 x;
  can_read = λ x. Socket.can_read k x.0 x.1;
  is_nonblocking = λ x. x.0.nonblocking;
}

module _ (k : Kernel) (net : IsWire k) (box : IsInbox k) (fuel : ℕ) where
  abbrev pub IsBlocking : Objects k → Type 0
  IsBlocking x = x.0.nonblocking ≡ false

  abbrev Stays : Objects k → Objects k → Type 0
  Stays x y = IsBlocking x → IsBlocking y

  closer : IsCloser k (nothing_seen k) Stays
  closer = record {
    preorder = record { same = λ x p. p; then_ = λ p q h. q (p h) };
    untouched = λ s w w' e p. p;
    closing = closing;
  }
    where
      closing : (x : Objects k) → Stays x (Socket.close k x).1
      closing (s, w) p = rw (close_lem k s w) p

  send-says :
      (x : Objects k) (bytes : List ℕ)
      → IsBlocking x
      → IsBlocking (Io.send k fuel bytes x).1
        × ((n : ℕ) → (Io.send k fuel bytes x).0 ≢ ok (minus n))
  send-says (s, w) bytes p =
      let r = Io.send k fuel bytes (s, w) in
      let b = send-R k (nothing_seen k) (still k) Stays closer fuel bytes (s, w) p in
      (
        b,
        λ n e.
            let a =
              subst (λ o. Accounts k net bytes (net.wire w) (o, r.1)) e
                (send-Accounts k net fuel bytes w s) in
            false≢true (sym b ∙ a.0),
      )

  recv-says :
      (x : Objects k) (size : ℕ)
      → IsBlocking x
      → IsBlocking (Io.recv k fuel size 0 x).1
        × ((n : ℕ) → (Io.recv k fuel size 0 x).0 ≢ ok (minus n))
  recv-says (s, w) size p =
      let r = Io.recv k fuel size 0 (s, w) in
      let b = recv-R k (nothing_seen k) (still k) Stays closer fuel size 0 (s, w) p in
      (
        b,
        λ n e.
            let a =
              subst (λ o. Fetches k box (asked size 0) s.fd (box.inbox w s.fd) (o, r.1)) e
                (recv-Fetches k box fuel size 0 w s) in
            false≢true (sym b ∙ a.0),
      )

  abbrev below : Blocks (socket_below k fuel) IsBlocking
  below = record { sending = send-says; receiving = recv-says }

  -- Over a socket that blocks, `send` and `recv` of the TLS object end with the first call of the
  -- library: they do not go round while the library wants to wait for the socket, for it never does;
  -- and they never say that they would block.
  pub blocking-IsPlain :
      (lib : Library (socket_below k fuel)) (rounds : ℕ) (c : Option lib.Context)
      (s : Socket.Socket) (w : k.World)
      → IsHonest (socket_below k fuel) lib
      → s.nonblocking ≡ false
      → ((bytes : List ℕ)
          → IsPlain
              (socket_below k fuel)
              (send (socket_below k fuel) lib (suc rounds) bytes (c, (s, w))).0)
        × ((size desired : ℕ)
            → IsPlain
                (socket_below k fuel)
                (impl_recv (socket_below k fuel) lib (suc rounds) size desired (c, (s, w))).0)
  blocking-IsPlain lib rounds c s w honest p = (
    λ bytes. send-IsPlain (socket_below k fuel) IsBlocking below lib honest rounds c (s, w) bytes p,
    λ size desired.
        recv-IsPlain (socket_below k fuel) IsBlocking below lib honest rounds c (s, w) size desired
          p,
  )
