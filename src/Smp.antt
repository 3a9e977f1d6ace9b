-- ===== src/Smp.antt =====
-- source/smp.cpp: messages of a header and a body behind twelve bytes of meta data, over a channel.
-- Hosts are little-endian, and `size_t` has 64 bits.
pub mod Frame
pub mod Receive
pub mod Sending
pub mod Delivery
pub mod Reads
pub mod Parts
pub mod RoundTrip
pub mod Fragments
use ez.Base.{
  ◌+◌, ◌||◌, ◌==◌, if◌then◌else◌, ℕ, Bool, true, false, not, List, ltb, u32, Outcome, ok, throws,
  fault,
}
use ez.Buffer
use ez.Buffer.{Buffer}
use ez.Channel.{Channel, transmit}
use ez.Smp.Frame.{magic, max_size}
use ez.Base.{le32}
use ez.Channel.Monad.{◌>>=◌, ◌>>◌, M, gets, modify, pure, throw, lift}

pub data State : Type 0 where
  waiting_meta waiting_header waiting_body sending_data send_complete : State

-- The exceptions of `recv` and `send`, and those of the channel, by their texts.
pub data Error : Type 0 where
  cannot_recv_while_sending wrong_data_format body_too_big invalid_header_size : Error
  invalid_body_size never_come_here from_channel : Error

-- `m_meta` is filled and read in one go, so it is a local value below.
pub record Impl : Type 0 where
  pub state : State
  pub header : Buffer
  pub body : Buffer
  pub send_buffer : Buffer
  pub new_header : Bool
  pub header_size : ℕ
  pub body_size : ℕ

-- A message, or nothing yet.
pub record Message : Type 0 where
  pub header : Buffer
  pub body : Buffer

pub reset : Impl → Impl
reset m =
    let fresh = m.new_header || ltb (Buffer.remaining m.header) 12 in
    let header = if fresh then Buffer.make 4096 else m.header in
    record m {
      state = waiting_meta;
      header = Buffer.set_position header 0;
      new_header = false;
      body = Buffer.empty;
      header_size = 0;
      body_size = 0;
    }

pub have_body : Impl → Bool
have_body m = not (m.body_size == 0)

module _ (ch : Channel) where
  abbrev pub World : Type 0
  World = Impl × ch.State

  abbrev pub impl : M Error World Impl
  impl = gets (λ w. w.0)

  abbrev pub assign : (Impl → Impl) → M Error World (Unit {0})
  assign f = modify (λ w. (f w.0, w.1))

  -- `if (test) throw error(...)`
  abbrev pub refuse : Bool → Error → M Error World (Unit {0})
  refuse test e = if test then throw e else pure tt

  -- `m_channel.send(m_send_buffer)` and what both callers do with the result.
  flushed : Impl → Outcome Error (Bool × Buffer) × ch.State → Outcome Error (Unit {0}) × World
  flushed m (ok (true, b), t) = (ok tt, (record m { state = send_complete; send_buffer = b }, t))
  flushed m (ok (false, b), t) = (ok tt, (record m { send_buffer = b }, t))
  flushed m (throws e, t) = (throws e, (m, t))
  flushed m (fault, t) = (fault, (m, t))

  unfoldable pub flush : M Error World (Unit {0})
  unfolding flushed
  flush (m, s) = flushed m (transmit ch from_channel m.send_buffer s)

  unfoldable pub send_more : M Error World (Unit {0})
  send_more (m, s) = elim m.state [ sending_data ↦ flush (m, s) | _ ↦ (ok tt, (m, s)) ]

  -- `memcpy(m_send_buffer.ptr() + off, ...)`
  unfoldable pub store : ℕ → List ℕ → M Error World (Unit {0})
  store off bytes (m, s) = elim (Buffer.write {E = Error} m.send_buffer off bytes) [
    | ok b ↦ (ok tt, (record m { send_buffer = b }, s))
    | throws e ↦ (throws e, (m, s))
    | fault ↦ (fault, (m, s))
  ]

  unfoldable pub store_body : ℕ → ℕ → Buffer → M Error World (Unit {0})
  store_body header_size body_size body =
      if ltb 0 body_size
      then (do
        bytes ← lift (Buffer.read body (Buffer.remaining body))
        store (12 + header_size) bytes)
      else pure tt

  unfoldable pub send : Buffer → Buffer → M Error World (Unit {0})
  send header body = do
    assign (λ m. record m { state = sending_data })
    let header_size = u32 (Buffer.remaining header)
    let body_size = u32 (Buffer.remaining body)
    refuse (header_size == 0 || ltb max_size header_size) invalid_header_size
    refuse (ltb max_size body_size) invalid_body_size
    assign (λ m. record m { send_buffer = Buffer.make (u32 (12 + header_size + body_size)) })
    store 0 magic
    store 4 (le32 header_size)
    store 8 (le32 body_size)
    header_bytes ← lift (Buffer.read header (Buffer.remaining header))
    store 12 header_bytes
    store_body header_size body_size body
    flush
