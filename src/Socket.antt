-- ===== src/Socket.antt =====
-- include/ez/socket.hpp and the parts of source/socket.cpp that make, move, close and configure a
-- socket. The system calls are those of a `Kernel`; an operation runs on the socket and the world.
pub mod System
pub mod Io
pub mod Setup
pub mod Ends
pub mod Closing
pub mod Stream
pub mod Inbox
pub mod Quiet
pub mod Closers
pub mod Validity
pub mod Soundness
pub mod Process
pub mod Performing
pub mod Owners
pub mod Ownership
pub mod Delivery
pub mod Connecting
pub mod Signals
use ez.Base.{
  ◌<◌, ◌≡◌, ℕ, Bool, true, false, Option, none, some, List, ltb, Outcome, ok, throws, fault,
}
use ez.Channel.Monad.{M, ◌>>=◌, ◌>>◌, pure, throw, gets, modify}
use ez.Socket.System.{
  Errno, Call, returned, minus_one, Fd, Flags, Setting, close_on_exec, receive_timeout,
  send_timeout, Kernel,
}

pub data State : Type 0 where
  disconnected connecting connected listening : State

pub record Socket : Type 0 where
  pub fd : Fd
  pub port : ℕ
  pub state : State
  pub nonblocking : Bool

-- The texts of the exceptions.
pub data Message : Type 0 where
  cant_get_options cant_set_options cant_create cant_bind select_error : Message
  send_not_connected recv_not_connected full_or_empty too_small not_listening : Message
  peer_gone unknown_error again_on_blocking accept_unknown : Message
  cant_listen connect_failed async_refused : Errno → Message
  async_failed : ℕ → Message

-- `channel::error`, `channel::timeout` and `std::runtime_error`; `stuck` says that the model's fuel
-- is used up.
pub data Error : Type 0 where
  error : Message → Error
  timeout : Error
  runtime_error : Message → Error
  stuck : Error

-- `socket()` and `socket(_fd, _state)`
abbrev pub new : Socket
new = record { fd = none; port = 0; state = disconnected; nonblocking = false }

unfoldable pub from_fd : Fd → State → Socket
from_fd fd st = record new { fd = fd; state = st }

-- `socket(socket&& _right)`: the socket made, and `_right` after it.
unfoldable pub move : Socket → Socket × Socket
move right = (right, record right { fd = none })

abbrev pub same_state : State → State → Bool
same_state disconnected disconnected = true
same_state connecting connecting = true
same_state connected connected = true
same_state listening listening = true
same_state _ _ = false

unfoldable pub is : Socket → State → Bool
is s st = same_state s.state st

module _ (k : Kernel) where
  abbrev pub Objects : Type 0
  Objects = Socket × k.World

  abbrev pub Op : Type 0 → Type 0
  Op A = M Error Objects A

  abbrev pub fd : Op Fd
  fd = gets λ x. x.0.fd

  abbrev pub state : Op State
  state = gets λ x. x.0.state

  abbrev pub is_nonblocking : Op Bool
  is_nonblocking = gets λ x. x.0.nonblocking

  abbrev pub assign : (Socket → Socket) → Op (Unit {0})
  assign f = modify λ x. (f x.0, x.1)

  -- A system call on the descriptor `m_fd`, with and without a result.
  abbrev pub sys : {A : Type 0} → (k.World → Fd → A × k.World) → Op A
  sys f (s, w) = let (a, w') = f w s.fd in (ok a, (s, w'))

  abbrev pub effect : (k.World → Fd → k.World) → Op (Unit {0})
  effect f (s, w) = (ok tt, (s, f w s.fd))

  abbrev pub when_open : Fd → Op (Unit {0}) → Op (Unit {0})
  when_open none m = pure tt
  when_open (some d) m = m

  unfoldable pub close : Op (Unit {0})
  close = do
    d ← fd
    when_open d (do effect k.shutdown; effect k.close; assign λ s. record s { fd = none })
    assign λ s. record s { state = disconnected }

  -- `~socket()`
  unfoldable pub destroy : Op (Unit {0})
  destroy = close

  abbrev pub flags_set : Bool → Call → Op (Unit {0})
  flags_set flag (minus_one e) = throw (error cant_set_options)
  flags_set flag (returned n) = assign λ s. record s { nonblocking = flag }

  abbrev pub change_flags : Bool → Option Flags → Op (Unit {0})
  change_flags flag none = throw (error cant_get_options)
  change_flags flag (some opts) = do
    r ← sys λ w d. k.set_flags w d (record opts { nonblock = flag })
    flags_set flag r

  unfoldable pub set_nonblocking : Bool → Op (Unit {0})
  set_nonblocking flag = do d ← fd; when_open d (do opts ← sys k.get_flags; change_flags flag opts)

  unfoldable pub set_timeout : ℕ → Op (Unit {0})
  set_timeout seconds = do
    d ← fd
    when_open d (do
      effect λ w f. k.set_option w f (receive_timeout seconds)
      effect λ w f. k.set_option w f (send_timeout seconds))

  unfoldable pub set_close_on_exec : Op (Unit {0})
  set_close_on_exec = do d ← fd; when_open d (effect λ w f. k.set_option w f close_on_exec)

  -- Where `FIONREAD` stores nothing, the number that is tested has no value.
  abbrev pub any_waiting : Option ℕ → Outcome Error Bool
  any_waiting none = fault
  any_waiting (some n) = ok (ltb 0 n)

  unfoldable pub can_read : Socket → k.World → Outcome Error Bool
  can_read s w = elim s.fd [ none ↦ ok false | some d ↦ any_waiting (k.waiting w (some d)) ]
