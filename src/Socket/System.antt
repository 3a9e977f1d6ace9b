-- ===== src/Socket/System.antt =====
-- The operating system under source/socket.cpp: the calls that it makes, as parameters, and the
-- tests that it does on `errno`.
use ez.Base.{ℕ, Bool, true, false, Option, List}

pub data Errno : Type 0 where
  eagain ewouldblock einprogress eintr epipe econnreset : Errno
  other : ℕ → Errno

unfoldable pub would_block : Errno → Bool
would_block eagain = true
would_block ewouldblock = true
would_block einprogress = true
would_block _ = false

unfoldable pub connection_reset : Errno → Bool
connection_reset epipe = true
connection_reset econnreset = true
connection_reset _ = false

-- `errno == EINTR`
unfoldable pub interrupted : Errno → Bool
interrupted eintr = true
interrupted _ = false

-- What a call says: a number, or -1 and `errno`.
pub data Call : Type 0 where
  returned : ℕ → Call
  minus_one : Errno → Call

-- What `::recv` says: the bytes stored (none: closed by the other side), or -1 and `errno`.
pub data Fetch : Type 0 where
  stored : List ℕ → Fetch
  nothing_stored : Errno → Fetch

-- A descriptor; `none` is -1.
abbrev pub Fd : Type 0
Fd = Option ℕ

-- What `F_GETFL` and `F_SETFL` transfer: the bit `O_NONBLOCK`, and the other bits.
pub record Flags : Type 0 where
  pub nonblock : Bool
  pub rest : ℕ

-- `sockaddr_in` with address and port, or the bytes of `sun_path` and the length that is passed.
pub data Address : Type 0 where
  inet : (address port : ℕ) → Address
  unix : (sun_path : List ℕ) → (size : ℕ) → Address

pub data Domain : Type 0 where
  af_inet af_unix : Domain

pub data Setting : Type 0 where
  reuse_address reuse_port close_on_exec : Setting
  receive_timeout send_timeout : (seconds : ℕ) → Setting

-- `none` of `get_flags` and of `pending_error` is a result below 0 and one that is not 0; `none` of
-- `waiting` says that `FIONREAD` stored nothing.
pub record Kernel : Type 1 where
  pub World : Type 0
  pub socket : World → Domain → Call × World
  pub accept : World → Fd → Call × World
  pub bind : World → Fd → Address → Call × World
  pub listen : World → Fd → ℕ → Call × World
  pub connect : World → Fd → Address → Call × World
  pub send : World → Fd → List ℕ → Call × World
  pub recv : World → Fd → ℕ → Fetch × World
  pub select : World → Fd → ℕ → Call × World
  pub pending_error : World → Fd → Option ℕ × World
  pub get_flags : World → Fd → Option Flags × World
  pub set_flags : World → Fd → Flags → Call × World
  pub set_option : World → Fd → Setting → World
  pub unlink : World → List ℕ → World
  pub waiting : World → Fd → Option ℕ
  pub shutdown : World → Fd → World
  pub close : World → Fd → World
