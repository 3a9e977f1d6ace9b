-- ===== src/Http/Receive.antt =====
-- `recv_request` and `recv_response` of source/http.cpp. Both go through the same cases; what differs
-- is a parameter: the start line, and whose position is moved when a part of the body has come.
use ez.Base.{
  ◌+◌, ◌-◌, ◌^◌, ◌∷◌, ◌++◌, ◌==◌, if◌then◌else◌, ℕ, true, Option, none, some, List, [], ltb, leb,
  length, u32, u64, same_bytes, Outcome, ok, throws, fault,
}
use ez.Buffer
use ez.Buffer.{Buffer}
use ez.Channel.{Channel, Received, got, idle, broken}
use ez.Channel.Monad.{◌>>=◌, ◌>>◌, M, gets, pure, throw, lift}
use ez.Http.{
  waiting_body, Error, bad_content_length, body_too_big, from_channel, Decoder, Impl, max_body_size,
  World, impl, assign,
}
use ez.Http.Text.{codes, Headers, from_chars, isequal, content_length}

-- `phr_parse_request` and `phr_parse_response`: how many bytes the start line and the headers have,
-- or what their negative results mean.
pub data Parsed (A : Type 0) : Type 0 where
  parsed : ℕ → A → Headers → Parsed A
  invalid : Parsed A
  partial_ : Parsed A

pub data Chunk : Type 0 where
  left : ℕ → Chunk
  malformed : Chunk
  incomplete : Chunk

-- `phr_decode_chunked`, which rewrites the bytes and says how many of them are decoded.
pub record Decoded : Type 0 where
  pub chunk : Chunk
  pub bytes : List ℕ
  pub size : ℕ
  pub decoder : Decoder

-- The parser gets the bytes so far, and how many of them it has seen before.
pub record Parser : Type 0 where
  pub parse_request : List ℕ → ℕ → Parsed (List ℕ × List ℕ)
  pub parse_response : List ℕ → ℕ → Parsed (ℕ × List ℕ)
  pub decode_chunked : Decoder → List ℕ → Decoded

-- What the two functions do differently.
pub record Side (A : Type 0) : Type 0 where
  pub parse : List ℕ → ℕ → Parsed A
  pub keep : A → Impl → Impl
  pub new_moved : ℕ → Impl → Impl
  pub old_moved : ℕ → Impl → Impl

-- `m_buffer.set_position(m_buffer.position()+sz)`, and the same of `m_body`.
abbrev pub move_buffer : ℕ → Impl → Impl
move_buffer n m = record m { buffer = Buffer.set_position m.buffer (u64 (m.buffer.position + n)) }

abbrev pub move_body : ℕ → Impl → Impl
move_body n m = record m { body = Buffer.set_position m.body (u64 (m.body.position + n)) }

-- A request moves the position of `m_body` in both cases, a response that of `m_buffer`. The
-- status, which the parser writes to while it reads, is kept once the head is whole.
abbrev pub request_side : Parser → Side (List ℕ × List ℕ)
request_side p = record {
  parse = p.parse_request;
  keep = λ start m. record m { method = start.0; path = start.1 };
  new_moved = move_body;
  old_moved = move_body;
}

abbrev pub response_side : Parser → Side (ℕ × List ℕ)
response_side p = record {
  parse = p.parse_response;
  keep = λ start m. record m { status = start.0; message = start.1 };
  new_moved = move_buffer;
  old_moved = move_buffer;
}

-- What the loop for the headers ends with: a message with this body, a body to wait for, or nothing
-- yet.
pub data Next : Type 0 where
  message : Buffer → Next
  body_follows : Next
  would_block : Next

module _ (ch : Channel) where
  -- `m_channel.recv(buffer)`: how many bytes were stored at the position, if any.
  unfoldable pub received :
      Buffer → Received × ch.State → Outcome Error (Option ℕ × Buffer) × ch.State
  received b (got bytes, t) = elim (Buffer.write {E = Error} b 0 bytes) [
    | ok b' ↦ (ok (some (length bytes), b'), t)
    | throws e ↦ (throws e, t)
    | fault ↦ (fault, t)
  ]
  received b (idle, t) = (ok (none, b), t)
  received b (broken, t) = (throws from_channel, t)

  -- The member that the result goes to is given by its setter.
  unfoldable pub into :
      Impl
      → (Buffer → Impl)
      → Outcome Error (Option ℕ × Buffer) × ch.State
      → Outcome Error (Option ℕ) × World ch
  into m f (ok (sz, b), t) = (ok sz, (f b, t))
  into m f (throws e, t) = (throws e, (m, t))
  into m f (fault, t) = (fault, (m, t))

  unfoldable pub recv_buffer : M Error (World ch) (Option ℕ)
  unfolding received into
  recv_buffer (m, s) =
      into m (λ b. record m { buffer = b })
        (received m.buffer (ch.recv s (Buffer.remaining m.buffer) 0))

  unfoldable pub recv_body : M Error (World ch) (Option ℕ)
  unfolding received into
  recv_body (m, s) =
      into m (λ b. record m { body = b }) (received m.body (ch.recv s (Buffer.remaining m.body) 0))

  -- `if (sz == need) full else if (sz > 0) part else wait`. A negative `sz` is no `need`.
  abbrev pub by_size :
      {A : Type 0}
      → Option ℕ
      → ℕ
      → M Error (World ch) A
      → (ℕ → M Error (World ch) A)
      → M Error (World ch) A
      → M Error (World ch) A
  by_size none need full part wait = wait
  by_size (some sz) need full part wait =
      if sz == need then full else if ltb 0 sz then part sz else wait

  -- One pass of the loop over the headers.
  unfoldable pub take_header : List ℕ × List ℕ → M Error (World ch) (Unit {0})
  take_header (field, value) = do
    assign ch (λ m. record m { headers = m.headers ++ ((field, value) ∷ []) })
    if isequal field content_length
        then elim (from_chars value) [
          | some size ↦ assign ch (λ m. record m { body_size = size })
          | none ↦ throw bad_content_length
        ]
        else if isequal field (codes "Transfer-Encoding")
        then (if same_bytes value (codes "chunked")
            then assign ch (λ m. record m { chunked = true; body_size = max_body_size })
            else pure tt)
        else pure tt

  unfoldable pub take_headers : Headers → M Error (World ch) (Unit {0})
  take_headers [] = pure tt
  take_headers (h ∷ hs) = do take_header h; take_headers hs

  -- The tail behind the headers goes to a new buffer: `memcpy(m_body.ptr(), m_buffer.ptr(), tail_size)`.
  unfoldable pub move_tail : ℕ → M Error (World ch) (Unit {0})
  move_tail tail_size = do
    m ← impl ch
    bytes ← lift (Buffer.read m.buffer tail_size)
    body ← lift (Buffer.write m.body 0 bytes)
    assign ch (λ m. record m {
      body =
          if m.chunked
          then Buffer.set_size (Buffer.set_position body 0) tail_size
          else Buffer.set_position body tail_size;
    })

  -- Where the body is to go, once the headers are known and not all of it is there.
  unfoldable pub await_body : ℕ → M Error (World ch) (Unit {0})
  await_body data_size = do
    assign ch (λ m. record m { state = waiting_body })
    m ← impl ch
    if ltb (Buffer.remaining m.buffer) m.body_size
        then (do
          assign ch (λ m. record m { new_body_buffer = true; body = Buffer.make m.body_size })
          let tail_size = u64 (data_size + 2 ^ 64 - m.buffer.position)
          if ltb 0 tail_size then move_tail tail_size else pure tt)
        else assign ch (λ m. record m { buffer = Buffer.set_position m.buffer data_size })

  -- The code behind the headers.
  unfoldable pub after_headers : ℕ → M Error (World ch) Next
  after_headers data_size = do
    m ← impl ch
    if m.body_size == 0
        then pure (message Buffer.empty)
        else if leb m.body_size (u64 (data_size + 2 ^ 64 - m.header_size))
        then (do
          assign ch (λ m. record m {
            buffer = Buffer.set_size m.buffer (u32 (m.header_size + m.body_size));
          })
          gets (λ w. message w.0.buffer))
        else if leb m.body_size max_body_size
        then (do await_body data_size; pure body_follows)
        else throw body_too_big
