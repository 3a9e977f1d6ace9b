-- ===== src/Http/Loops.antt =====
-- The loops and the `switch` of `recv_request` and `recv_response` in source/http.cpp. The loops run
-- on fuel.
use ez.Base.{
  ◌+◌, ◌-◌, ◌^◌, ◌==◌, if◌then◌else◌, ℕ, zero, suc, Option, none, some, List, ltb, u32, u64,
}
use ez.Buffer
use ez.Buffer.{Buffer}
use ez.Channel.{Channel}
use ez.Channel.Monad.{◌>>=◌, ◌>>◌, M, gets, pure, throw, lift}
use ez.Http.{
  State, waiting_header, waiting_body, sending_body, send_complete, Error,
  cannot_recv_while_sending, bad_headers, request_too_big, bad_chunk, stuck, Impl, max_body_size,
  reset, World, impl, assign,
}
use ez.Http.Text.{Headers}
use ez.Http.Receive.{
  Parsed, parsed, invalid, partial_, Chunk, left, malformed, incomplete, Parser, Side, Next,
  message, body_follows, would_block, recv_buffer, recv_body, by_size, take_headers, after_headers,
  request_side, response_side,
}

-- The result, or nothing yet.
pub record Request : Type 0 where
  pub method : List ℕ
  pub path : List ℕ
  pub headers : Headers
  pub body : Buffer

pub record Response : Type 0 where
  pub status : ℕ
  pub message : List ℕ
  pub headers : Headers
  pub body : Buffer

abbrev pub as_request : Impl → Option Buffer → Option Request
as_request m none = none
as_request m (some b) =
    some (record { method = m.method; path = m.path; headers = m.headers; body = b })

abbrev pub as_response : Impl → Option Buffer → Option Response
as_response m none = none
as_response m (some b) =
    some (record { status = m.status; message = m.message; headers = m.headers; body = b })

module _ (ch : Channel) where
  module _ {A : Type 0} (side : Side A) where
    -- Behind an incomplete head.
    unfoldable pub more_head : ℕ → M Error (World ch) Next → M Error (World ch) Next
    more_head data_size again = do
      m ← impl ch
      if data_size == Buffer.remaining m.buffer then throw request_too_big else (do
        assign ch (λ m. record m { buffer = Buffer.set_position m.buffer data_size })
        again)

    unfoldable pub whole_head : ℕ → A → Headers → ℕ → M Error (World ch) Next
    whole_head ret start headers data_size = do
      assign ch (λ m.
          side.keep start
            (record m { header_size = u32 ret; buffer = Buffer.set_position m.buffer (u32 ret) }))
      take_headers ch headers
      after_headers ch data_size

    -- What the parser says of the bytes so far.
    unfoldable pub on_head : Parsed A → ℕ → M Error (World ch) Next → M Error (World ch) Next
    on_head (parsed ret start headers) data_size again =
        if ltb 0 ret then whole_head ret start headers data_size else more_head data_size again
    on_head invalid data_size again = throw bad_headers
    on_head partial_ data_size again = more_head data_size again

    -- A block has come behind the `data_size` bytes that were there.
    unfoldable pub take_block : ℕ → ℕ → M Error (World ch) Next → M Error (World ch) Next
    take_block data_size block_size again = do
      assign ch (λ m. record m { buffer = Buffer.set_position m.buffer 0 })
      m ← impl ch
      bytes ← lift (Buffer.read m.buffer (data_size + block_size))
      on_head (side.parse bytes data_size) (data_size + block_size) again

    -- The loop for the headers.
    unfoldable pub head_loop : ℕ → ℕ → M Error (World ch) Next
    head_loop zero data_size = throw stuck
    head_loop (suc fuel) data_size = do
      sz ← recv_buffer ch
      by_size ch sz 0 (pure would_block)
          (λ block_size. take_block data_size block_size (head_loop fuel (data_size + block_size)))
          (pure would_block)

    -- A part of the body for a new buffer.
    unfoldable pub new_pass :
        M Error (World ch) (Option Buffer) → M Error (World ch) (Option Buffer)
    new_pass again = do
      m ← impl ch
      let need = u64 (m.body_size + 2 ^ 64 - m.body.position)
      sz ← recv_body ch
      by_size ch sz need
          (do
            assign ch (λ m. record m { body = Buffer.set_position m.body 0 })
            gets (λ w. some w.0.body))
          (λ n. do assign ch (side.new_moved n); again) (pure none)

    -- A part of the body behind the headers, in their buffer.
    unfoldable pub old_pass :
        M Error (World ch) (Option Buffer) → M Error (World ch) (Option Buffer)
    old_pass again = do
      m ← impl ch
      let need = u64 (u32 (m.body_size + m.header_size) + 2 ^ 64 - m.buffer.position)
      sz ← recv_buffer ch
      by_size ch sz need
          (do
            assign ch (λ m. record m {
              buffer =
                  Buffer.set_size (Buffer.set_position m.buffer m.header_size)
                    (u32 (m.header_size + m.body_size));
            })
            gets (λ w. some w.0.buffer))
          (λ n. do assign ch (side.old_moved n); again) (pure none)

    -- The decoder says that more is to come.
    unfoldable pub more_chunks :
        ℕ → M Error (World ch) (Option Buffer) → M Error (World ch) (Option Buffer)
    more_chunks size again = do
      assign ch (λ m.
          let body = Buffer.set_size m.body max_body_size in
          record m { body = Buffer.set_position body (u64 (body.position + size)) })
      sz ← recv_body ch
      by_size ch sz 0
          (do
            assign ch (λ m. record m { body = Buffer.set_size m.body m.body.position })
            pure none)
          (λ n. do
            assign ch (λ m. record m { body = Buffer.set_size m.body (u64 (m.body.position + n)) })
            again)
          (do
            assign ch (λ m. record m { body = Buffer.set_size m.body m.body.position })
            pure none)

    -- With nothing left behind the last chunk the loop goes on.
    unfoldable pub on_chunk :
        Chunk → ℕ → M Error (World ch) (Option Buffer) → M Error (World ch) (Option Buffer)
    on_chunk incomplete size again = more_chunks size again
    on_chunk malformed size again = throw bad_chunk
    on_chunk (left rest) size again =
        if ltb 0 rest
        then (do
          assign ch (λ m. record m {
            body = Buffer.set_position (Buffer.set_size m.body (u64 (m.body.position + size))) 0;
          })
          gets (λ w. some w.0.body))
        else again

    unfoldable pub chunk_pass :
        Parser → M Error (World ch) (Option Buffer) → M Error (World ch) (Option Buffer)
    chunk_pass p again = do
      m ← impl ch
      bytes ← lift (Buffer.read m.body (Buffer.remaining m.body))
      let d = p.decode_chunked m.decoder bytes
      body ← lift (Buffer.write m.body 0 d.bytes)
      assign ch (λ m. record m { body = body; decoder = d.decoder })
      on_chunk d.chunk d.size again

    -- `case state_e::waiting_body`
    unfoldable pub body_loop : Parser → ℕ → M Error (World ch) (Option Buffer)
    body_loop p zero = throw stuck
    body_loop p (suc fuel) = do
      m ← impl ch
      if m.chunked
          then chunk_pass p (body_loop p fuel)
          else if m.new_body_buffer
          then new_pass (body_loop p fuel)
          else old_pass (body_loop p fuel)

    -- Behind the loop for the headers.
    unfoldable pub on_next : Parser → ℕ → Next → M Error (World ch) (Option Buffer)
    on_next p fuel (message b) = pure (some b)
    on_next p fuel would_block = pure none
    on_next p fuel body_follows = body_loop p fuel

    -- `case state_e::waiting_header`. The loop for the headers takes in at least a byte in each pass.
    unfoldable pub at_header : Parser → ℕ → M Error (World ch) (Option Buffer)
    at_header p fuel = do m ← impl ch; next ← head_loop (suc m.buffer.size) 0; on_next p fuel next

    -- `switch (m_state)`; the fuel is that of the loop for the body.
    unfoldable pub recv_in : Parser → ℕ → State → M Error (World ch) (Option Buffer)
    recv_in p fuel sending_body w = throw cannot_recv_while_sending w
    recv_in p fuel send_complete (m, s) = at_header p fuel (reset m, s)
    recv_in p fuel waiting_header w = at_header p fuel w
    recv_in p fuel waiting_body w = body_loop p fuel w

  unfoldable pub recv_request : Parser → ℕ → M Error (World ch) (Option Request)
  recv_request p fuel = do
    m ← impl ch
    b ← recv_in (request_side p) p fuel m.state
    gets (λ w. as_request w.0 b)

  unfoldable pub recv_response : Parser → ℕ → M Error (World ch) (Option Response)
  recv_response p fuel = do
    m ← impl ch
    b ← recv_in (response_side p) p fuel m.state
    gets (λ w. as_response w.0 b)
