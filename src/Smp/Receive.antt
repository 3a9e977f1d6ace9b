-- ===== src/Smp/Receive.antt =====
-- The receiving half of source/smp.cpp: `recv` with the cases of its `switch`, which fall through.
use ez.Base.{
  ◌+◌, ◌-◌, ◌^◌, ◌&&◌, ◌||◌, ◌==◌, if◌then◌else◌, ℕ, true, not, Option, none, some, List, ltb, leb,
  length, take, drop, u64, Outcome, ok, throws, fault,
}
use ez.Buffer
use ez.Buffer.{Buffer}
use ez.Channel.{Received, Channel, got, idle, broken}
use ez.Smp.Frame.{magic, max_size}
use ez.Base.{of_le32, same_bytes}
use ez.Channel.Monad.{◌>>=◌, ◌>>◌, M, gets, pure, throw, lift}
use ez.Smp.{
  waiting_meta, waiting_header, waiting_body, sending_data, send_complete, Error,
  cannot_recv_while_sending, wrong_data_format, body_too_big, never_come_here, from_channel,
  Message, reset, World, impl, assign, refuse, Impl, State,
}

module _ (ch : Channel) where
  -- `m_channel.recv(buffer, desired)`: how many bytes were stored at the position, if any.
  unfoldable pub received :
      Buffer → Received × ch.State → Outcome Error (Option ℕ × Buffer) × ch.State
  received b (got bytes, t) = elim (Buffer.write {E = Error} b 0 bytes) [
    | ok b' ↦ (ok (some (length bytes), b'), t)
    | throws e ↦ (throws e, t)
    | fault ↦ (fault, t)
  ]
  received b (idle, t) = (ok (none, b), t)
  received b (broken, t) = (throws from_channel, t)

  -- The member that the result goes to is given by its setter.
  unfoldable pub into :
      Impl
      → (Buffer → Impl)
      → Outcome Error (Option ℕ × Buffer) × ch.State
      → Outcome Error (Option ℕ) × World ch
  into m f (ok (sz, b), t) = (ok sz, (f b, t))
  into m f (throws e, t) = (throws e, (m, t))
  into m f (fault, t) = (fault, (m, t))

  unfoldable pub recv_header : ℕ → M Error (World ch) (Option ℕ)
  unfolding received into
  recv_header desired (m, s) =
      into m (λ b. record m { header = b })
        (received m.header (ch.recv s (Buffer.remaining m.header) desired))

  unfoldable pub recv_body : ℕ → M Error (World ch) (Option ℕ)
  unfolding received into
  recv_body desired (m, s) =
      into m (λ b. record m { body = b })
        (received m.body (ch.recv s (Buffer.remaining m.body) desired))

  -- `if (sz == need) full else if (sz > 0) part else wait`. A negative `sz` is no `need`.
  abbrev pub by_size :
      {A : Type 0}
      → Option ℕ
      → ℕ
      → M Error (World ch) A
      → (ℕ → M Error (World ch) A)
      → M Error (World ch) A
      → M Error (World ch) A
  by_size none need full part wait = wait
  by_size (some sz) need full part wait =
      if sz == need then full else if ltb 0 sz then part sz else wait

  -- `return message_t();`
  abbrev pub nothing_yet : M Error (World ch) (Option Message)
  nothing_yet = pure none

  -- `case waiting_body`. After a part of the body the `switch` ends and the code behind it throws.
  unfoldable pub at_body : M Error (World ch) (Option Message)
  at_body = do
    m ← impl ch
    let need = u64 (m.body_size + 2 ^ 64 - m.body.position)
    sz ← recv_body need
    by_size sz need
        (do
          assign ch (λ m. record m { body = Buffer.set_position m.body 0; state = waiting_meta })
          gets (λ w. some (record { header = w.0.header; body = w.0.body })))
        (λ n. do
          assign ch
              (λ m. record m { body = Buffer.set_position m.body (u64 (m.body.position + n)) })
          throw never_come_here)
        nothing_yet

  -- The code of `case waiting_header` behind the read.
  unfoldable pub after_header : M Error (World ch) (Option Message)
  after_header = do
    m ← impl ch
    if ltb 0 m.body_size && leb m.body_size max_size
        then (do
          assign ch (λ m. record m { body = Buffer.make m.body_size; state = waiting_body })
          at_body)
        else if ltb 0 m.body_size
        then throw body_too_big
        else gets (λ w. some (record { header = w.0.header; body = Buffer.empty }))

  -- `case waiting_header`
  unfoldable pub at_header : M Error (World ch) (Option Message)
  at_header = do
    m ← impl ch
    let need = u64 (m.header_size + 2 ^ 64 - m.header.position)
    sz ← recv_header need
    by_size sz need
        (do
          assign ch (λ m. record m {
            header = Buffer.set_size (Buffer.set_position m.header 0) m.header_size;
          })
          after_header)
        (λ n. do
          assign ch (λ m. record m {
            header = Buffer.set_position m.header (u64 (m.header.position + n));
          })
          after_header)
        nothing_yet

  -- The checks of `case waiting_meta` on the twelve bytes.
  unfoldable pub parse_meta : List ℕ → M Error (World ch) (Unit {0})
  parse_meta meta = do
    refuse ch (not (same_bytes (take 4 meta) magic)) wrong_data_format
    assign ch (λ m. record m {
      header_size = of_le32 (take 4 (drop 4 meta));
      body_size = of_le32 (take 4 (drop 8 meta));
    })
    m ← impl ch
    refuse ch (m.header_size == 0 || ltb max_size m.header_size) wrong_data_format
    if ltb (Buffer.remaining m.header) m.header_size
        then assign ch (λ m. record m { new_header = true; header = Buffer.make m.header_size })
        else pure tt
    assign ch (λ m. record m { state = waiting_header })

  -- `case waiting_meta`. After a part of the meta data the code goes on with the header.
  unfoldable pub at_meta : M Error (World ch) (Option Message)
  at_meta = do
    m ← impl ch
    let need = u64 (12 + 2 ^ 64 - m.header.position)
    sz ← recv_header need
    by_size sz need
        (do
          assign ch (λ m. record m { header = Buffer.set_position m.header 0 })
          m ← impl ch
          meta ← lift (Buffer.read m.header 12)
          parse_meta meta
          at_header)
        (λ n. do
          assign ch (λ m. record m {
            header = Buffer.set_position m.header (u64 (m.header.position + n));
          })
          at_header)
        nothing_yet

  -- `switch (m_state)`
  unfoldable pub recv_in : State → M Error (World ch) (Option Message)
  recv_in sending_data w = throw cannot_recv_while_sending w
  recv_in send_complete (m, s) = at_meta (reset m, s)
  recv_in waiting_meta w = at_meta w
  recv_in waiting_header w = at_header w
  recv_in waiting_body w = at_body w

  unfoldable pub recv : M Error (World ch) (Option Message)
  unfolding recv_in
  recv (m, s) = recv_in m.state (m, s)
