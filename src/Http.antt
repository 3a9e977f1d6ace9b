-- ===== src/Http.antt =====
-- source/http.cpp: HTTP messages over a channel. The parser of source/picohttpparser.c is another
-- project's and is a parameter where messages are received.
pub mod Text
pub mod Receive
pub mod Loops
pub mod Safety
pub mod Ends
pub mod Whole
pub mod Requests
pub mod RoundTrip
pub mod Pieces
pub mod Large
pub mod Digits
pub mod Delivery
use ez.Base.{
  ◌+◌, ◌*◌, ◌==◌, if◌then◌else◌, ℕ, Bool, true, false, List, [], length, u64, Outcome, ok, throws,
  fault,
}
use ez.Buffer
use ez.Buffer.{Buffer}
use ez.Channel.{Channel, transmit}
use ez.Channel.Monad.{◌>>=◌, ◌>>◌, M, gets, modify, lift}
use ez.Http.Text.{Headers, request_text, response_text}

pub data State : Type 0 where
  waiting_header waiting_body sending_body send_complete : State

-- The exceptions by their texts, those of the channel, and `stuck` where a loop of the model runs out
-- of fuel.
pub data Error : Type 0 where
  cannot_recv_while_sending bad_content_length body_too_big bad_headers request_too_big : Error
  bad_chunk from_channel stuck : Error

-- `phr_chunked_decoder`
pub record Decoder : Type 0 where
  pub bytes_left_in_chunk : ℕ
  pub consume_trailer : ℕ
  pub hex_count : ℕ
  pub state : ℕ

-- The members that only hold a result of the parser for a moment are local values.
pub record Impl : Type 0 where
  pub state : State
  pub headers : Headers
  pub status : ℕ
  pub body_size : ℕ
  pub header_size : ℕ
  pub method : List ℕ
  pub path : List ℕ
  pub message : List ℕ
  pub new_body_buffer : Bool
  pub chunked : Bool
  pub decoder : Decoder
  pub buffer : Buffer
  pub body : Buffer
  pub send_buffer : Buffer

-- `m_recv_buffer_size` and `m_max_request_body_size`
abbrev pub recv_buffer_size : ℕ
recv_buffer_size = 8192

abbrev pub max_body_size : ℕ
max_body_size = 10 * 1024 * 1024

abbrev pub new_decoder : Decoder
new_decoder = record { bytes_left_in_chunk = 0; consume_trailer = 0; hex_count = 0; state = 0 }

pub reset : Impl → Impl
reset m = record m {
  state = waiting_header;
  body_size = 0;
  buffer = Buffer.set_size (Buffer.set_position m.buffer 0) recv_buffer_size;
  body = Buffer.empty;
  send_buffer = Buffer.empty;
  headers = [];
  new_body_buffer = false;
  chunked = false;
  decoder = new_decoder;
}

module _ (ch : Channel) where
  abbrev pub World : Type 0
  World = Impl × ch.State

  abbrev pub impl : M Error World Impl
  impl = gets (λ w. w.0)

  abbrev pub assign : (Impl → Impl) → M Error World (Unit {0})
  assign f = modify (λ w. (f w.0, w.1))

  -- `m_channel.send(m_send_buffer)` and what is done with the result.
  flushed : Impl → Outcome Error (Bool × Buffer) × ch.State → Outcome Error (Unit {0}) × World
  flushed m (ok (true, b), t) = (ok tt, (record m { state = send_complete; send_buffer = b }, t))
  flushed m (ok (false, b), t) = (ok tt, (record m { send_buffer = b }, t))
  flushed m (throws e, t) = (throws e, (m, t))
  flushed m (fault, t) = (fault, (m, t))

  pub flush : M Error World (Unit {0})
  unfolding flushed
  flush (m, s) = flushed m (transmit ch from_channel m.send_buffer s)

  pub send_more : M Error World (Unit {0})
  send_more (m, s) = elim m.state [ sending_body ↦ flush (m, s) | _ ↦ (ok tt, (m, s)) ]

  -- `memcpy(m_send_buffer.ptr() + off, ...)`
  pub store : ℕ → List ℕ → M Error World (Unit {0})
  store off bytes (m, s) = elim (Buffer.write {E = Error} m.send_buffer off bytes) [
    | ok b ↦ (ok tt, (record m { send_buffer = b }, s))
    | throws e ↦ (throws e, (m, s))
    | fault ↦ (fault, (m, s))
  ]

  -- The text and the body in one buffer, handed to the channel.
  pub put : List ℕ → Buffer → M Error World (Unit {0})
  put text body = do
    assign (λ m. record m { send_buffer = Buffer.make (u64 (length text + Buffer.remaining body)) })
    store 0 text
    bytes ← lift (Buffer.read body (Buffer.remaining body))
    store (length text) bytes
    flush

  pub send_request : List ℕ → List ℕ → Headers → Buffer → M Error World (Unit {0})
  send_request method path hdrs body = do
    assign (λ m. record m { state = sending_body })
    put (request_text method path hdrs (Buffer.remaining body)) body

  pub send_response : ℕ → List ℕ → Headers → Buffer → M Error World (Unit {0})
  send_response code message hdrs body = do
    assign (λ m. record m { state = sending_body })
    put (response_text code message hdrs (Buffer.remaining body)) body
