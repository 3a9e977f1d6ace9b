-- ===== src/Tls.antt =====
-- source/tls.cpp: a channel over a channel. The TLS library is a parameter: it moves its bytes by the
-- two callbacks that it is given. The loops of `send` and `recv`, which go on while the library wants
-- to wait and the channel blocks, run on fuel, one unit for each call of the library.
pub mod Blocking
pub mod OverSocket
pub mod Lifetime
pub mod Release
use ez.Base.{
  ◌==◌, if◌then◌else◌, ℕ, zero, suc, Bool, true, false, Option, none, some, List, ltb, Outcome, ok,
  throws, fault,
}
use ez.Channel.Monad.{M, ◌>>=◌, ◌>>◌, pure, throw, gets, modify}
use ez.Socket.Io.{Ssize, count, minus}

-- The channel below, as `channel&` of the source: the wrapper always asks for no certain size.
pub record Lower : Type 1 where
  pub Error : Type 0
  pub State : Type 0
  pub send : State → List ℕ → Outcome Error (Ssize ℕ) × State
  pub recv : State → (size : ℕ) → Outcome Error (Ssize (List ℕ)) × State
  pub can_read : State → Outcome Error Bool
  pub is_nonblocking : State → Bool

-- What a callback or a call of the library says.
pub data Reply {ℓ} (A : Type ℓ) : Type ℓ where
  done : A → Reply A
  want_pollin want_pollout minus_one : Reply A

module _ (ch : Lower) where
  abbrev pub Answer : Type 0 → Type 0
  Answer A = Outcome ch.Error (Reply A) × ch.State

  abbrev pub read_answer : Ssize (List ℕ) → Reply (List ℕ)
  read_answer (count bytes) = done bytes
  read_answer (minus n) = if n == 2 then want_pollin else minus_one

  abbrev pub write_answer : Ssize ℕ → Reply ℕ
  write_answer (count n) = done n
  write_answer (minus n) = if n == 3 then want_pollout else minus_one

  abbrev pub answered : {A B : Type 0} → (A → Reply B) → Outcome ch.Error A × ch.State → Answer B
  answered f (ok a, s) = (ok (f a), s)
  answered f (throws e, s) = (throws e, s)
  answered f (fault, s) = (fault, s)

  unfoldable pub read_cb : ch.State → ℕ → Answer (List ℕ)
  read_cb s size = answered read_answer (ch.recv s size)

  unfoldable pub write_cb : ch.State → List ℕ → Answer ℕ
  write_cb s bytes = answered write_answer (ch.send s bytes)

  pub record Callbacks : Type 0 where
    pub read : ch.State → ℕ → Answer (List ℕ)
    pub write : ch.State → List ℕ → Answer ℕ

  -- `read_cb` and `write_cb` with `this`, as `connect` and `listen` pass them.
  abbrev pub callbacks : Callbacks
  callbacks = record { read = read_cb; write = write_cb }

  -- The calls of the library; the configuration is the context's own matter. Of `tls_handshake` the
  -- number is 0 where it succeeds.
  pub record Library : Type 1 where
    pub Context : Type 0
    pub tls_write :
        Callbacks
        → Option Context
        → ch.State
        → List ℕ
        → Outcome ch.Error (Reply ℕ) × (Option Context × ch.State)
    pub tls_read :
        Callbacks
        → Option Context
        → ch.State
        → ℕ
        → Outcome ch.Error (Reply (List ℕ)) × (Option Context × ch.State)
    pub tls_handshake : Callbacks → Context → ch.State → Outcome ch.Error ℕ × (Context × ch.State)
    pub tls_error : Option Context → Option (List ℕ)
    pub handshake_complete : Context → Bool
    pub tls_reset : Context → Context
    pub tls_close : Context → Context

  pub data Failure : Type 0 where
    lower : ch.Error → Failure
    tls_says : List ℕ → Failure
    unknown_error : Failure
    too_small : Failure
    stuck : Failure

  module _ (lib : Library) where
    -- The context, which is null before `connect` or `listen`, and the channel.
    abbrev pub Objects : Type 0
    Objects = Option lib.Context × ch.State

    abbrev pub Op : Type 0 → Type 0
    Op A = M Failure Objects A

    abbrev pub raised : {A : Type 0} → Outcome ch.Error A → Outcome Failure A
    raised (ok a) = ok a
    raised (throws e) = throws (lower e)
    raised fault = fault

    abbrev pub call :
        {A : Type 0} → (Option lib.Context → ch.State → Outcome ch.Error A × Objects) → Op A
    call f (c, s) = let (r, x) = f c s in (raised r, x)

    unfoldable pub can_read : Objects → Outcome Failure Bool
    can_read x = raised (ch.can_read x.1)

    unfoldable pub is_nonblocking : Objects → Bool
    is_nonblocking x = ch.is_nonblocking x.1

    abbrev pub with_context : (lib.Context → lib.Context) → Objects → Objects
    with_context f (none, s) = (none, s)
    with_context f (some c, s) = (some (f c), s)

    unfoldable pub reset : Objects → Objects
    reset x = with_context lib.tls_reset x

    unfoldable pub close : Objects → Objects
    close x = with_context lib.tls_close x

    abbrev pub shaken :
        Outcome ch.Error ℕ × (lib.Context × ch.State) → Outcome Failure Bool × Objects
    shaken (ok n, (c, s)) = (ok (n == 0), (some c, s))
    shaken (throws e, (c, s)) = (throws (lower e), (some c, s))
    shaken (fault, (c, s)) = (fault, (some c, s))

    unfoldable pub handshake : Op Bool
    handshake (none, s) = (ok false, (none, s))
    handshake (some c, s) = shaken (lib.tls_handshake callbacks c s)

    unfoldable pub is_handshake_complete : Objects → Bool
    is_handshake_complete (none, s) = false
    is_handshake_complete (some c, s) = lib.handshake_complete c

    abbrev pub tls_failure : Option (List ℕ) → Failure
    tls_failure none = unknown_error
    tls_failure (some text) = tls_says text

    abbrev pub fail : {A : Type 0} → Op A
    fail x = (throws (tls_failure (lib.tls_error x.0)), x)

    -- Saying the code where the channel does not block, and once more where it does.
    abbrev pub wait : {A : Type 0} → A → Op A → Op A
    wait code again = do quiet ← gets λ x. ch.is_nonblocking x.1; if quiet then pure code else again

    abbrev pub after_write : Op (Ssize ℕ) → Reply ℕ → Op (Ssize ℕ)
    after_write again (done n) = pure (count n)
    after_write again want_pollout = wait (minus 3) again
    after_write again want_pollin = fail
    after_write again minus_one = fail

    unfoldable pub send : ℕ → List ℕ → Op (Ssize ℕ)
    send zero bytes = throw stuck
    send (suc fuel) bytes = do
      r ← call λ c s. lib.tls_write callbacks c s bytes
      after_write (send fuel bytes) r

    abbrev pub after_read : Op (Ssize (List ℕ)) → Reply (List ℕ) → Op (Ssize (List ℕ))
    after_read again (done bytes) = pure (count bytes)
    after_read again want_pollin = wait (minus 2) again
    after_read again want_pollout = fail
    after_read again minus_one = fail

    unfoldable pub recv_loop : ℕ → (size desired : ℕ) → Op (Ssize (List ℕ))
    recv_loop zero size desired = throw stuck
    recv_loop (suc fuel) size desired = do
      r ← call λ c s. lib.tls_read callbacks c s (if ltb 0 desired then desired else size)
      after_read (recv_loop fuel size desired) r

    -- `impl::recv`, and `tls::recv` of an area, which leaves the desired size out.
    unfoldable pub impl_recv : ℕ → (size desired : ℕ) → Op (Ssize (List ℕ))
    impl_recv fuel size desired =
        if ltb size desired then throw too_small else recv_loop fuel size desired

    unfoldable pub recv_area : ℕ → (size desired : ℕ) → Op (Ssize (List ℕ))
    recv_area fuel size desired = impl_recv fuel size 0
