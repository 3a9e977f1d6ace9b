-- ===== src/Smp/Fragments.antt =====
-- What source/smp.cpp does where a part of a message arrives in pieces, or is refused.
use ez.Base.{
  ◌+◌, ◌-◌, ◌^◌, ◌≤◌, ◌<◌, ◌≡◌, ◌∙◌, ◌⊎◌, ◌&&◌, ◌||◌, ◌==◌, ℕ, refl, ap, true, false, List, arith,
  ltb, leb, length, u32, u64, throws,
}
use ez.Smp.Frame.{max_size}
use ez.Buffer.Over.{over, over-IsValid}
use ez.Smp.Reads.{recv_header-over, recv_waiting, recv_dispatch}
use ez.Channel.{Channel, broken, got}
use ez.Smp.{
  Impl, from_channel, waiting_meta, waiting_header, waiting_body, sending_data,
  cannot_recv_while_sending, invalid_header_size, send,
}
use ez.Buffer.Area.{IsValid, set_position-IsValid, remaining_lem}
use ez.Smp.Receive.{at_header, at_meta, recv, recv_header, at_body, after_header, recv_in}
use ez.Buffer
use ez.Buffer.{Buffer}

module _ (ch : Channel) where
  -- include/ez/channel.hpp is implemented by source/socket.cpp, whose `recv` throws where more is
  -- desired than the buffer takes.
  abbrev pub RefusesTooMuch : Type 0
  RefusesTooMuch =
      (s : ch.State) (size desired : ℕ)
      → size < desired
      → (t : ch.State) × (ch.recv s size desired ≡ (broken, t))

  at_header_refused :
      (m : Impl) (s : ch.State)
      → RefusesTooMuch
      → m.header_size ≡ 0
      → IsValid m.header
      → 1 ≤ m.header.position
      → (at_header ch (m, s)).0 ≡ throws from_channel
  unfolding at_header recv_header
  at_header_refused m s refuses size v moved =
      let need = u64 (m.header_size + 2 ^ 64 - m.header.position) in
      let huge : Buffer.remaining m.header < need =
        omega (arith, remaining_lem v, v.addressed, v.sized, v.placed) in
      let (t, e) = refuses s (Buffer.remaining m.header) need huge in rw e refl

  advanced : (b : Buffer) (n : ℕ) → IsValid b → n ≤ b.size → (Buffer.set_position b n).position ≡ n
  unfolding Buffer.set_position
  advanced b n v h = ground arith

  -- On a channel that throws where more is desired than there is room for: if the first read of a
  -- message brings fewer than the twelve bytes of the meta data, `recv` does
  -- not wait for the others: it goes on to the header, asks for an enormous number of bytes, and
  -- throws.
  pub recv_part_of_meta :
      (m : Impl) (s t : ch.State) (bytes : List ℕ)
      → RefusesTooMuch
      → m.state ≡ waiting_meta
      → m.header_size ≡ 0
      → IsValid m.header
      → m.header.position ≡ 0
      → 12 ≤ Buffer.remaining m.header
      → 1 ≤ length bytes
      → length bytes < 12
      → ch.recv s (Buffer.remaining m.header) 12 ≡ (got bytes, t)
      → (recv ch (m, s)).0 ≡ throws from_channel
  unfolding at_meta at_header
  recv_part_of_meta m s t bytes refuses st size v z room some_ few e =
      let n = length bytes in
      let need : u64 (12 + 2 ^ 64 - m.header.position) ≡ 12 = omega arith in
      let r = recv_header-over ch m s t 12 bytes v (omega arith) e in
      let old = over m.header bytes in
      let v1 = over-IsValid m.header bytes v (omega arith) in
      let not_all : (n == 12) ≡ false = ground arith in
      let some_more : ltb 0 n ≡ true = ground arith in
      ap (λ x. x.0) (recv_waiting ch m s st)
      ∙ rw (need, r)
          (rw (not_all, some_more)
            (at_header_refused
              (record m { header = Buffer.set_position old (u64 (m.header.position + n)) }) t
              refuses size (set_position-IsValid (u64 (m.header.position + n)) v1)
              (omega (
                arith,
                advanced old (u64 (m.header.position + n)) v1 (omega (arith, remaining_lem v)),
              ))))

  -- If a read of the header, of an allowed size and with a body to come, brings only a first part of
  -- it, `recv` takes that for the whole header, goes on to the body, and reads the body from what is
  -- still the header.
  pub recv_part_of_header :
      (m : Impl) (s t : ch.State) (bytes : List ℕ)
      → m.state ≡ waiting_header
      → IsValid m.header
      → m.header.position ≡ 0
      → m.header_size ≤ Buffer.remaining m.header
      → m.header_size ≤ max_size
      → 1 ≤ length bytes
      → length bytes < m.header_size
      → 1 ≤ m.body_size
      → m.body_size ≤ max_size
      → ch.recv s (Buffer.remaining m.header) m.header_size ≡ (got bytes, t)
      → (h : Buffer) × (recv ch (m, s)
          ≡ at_body ch
              (record m { header = h; body = Buffer.make m.body_size; state = waiting_body }, t))
  unfolding at_header after_header recv_in
  recv_part_of_header m s t bytes st v z room small some_ few b1 b2 e =
      let n = length bytes in
      let need : u64 (m.header_size + 2 ^ 64 - m.header.position) ≡ m.header_size = omega arith in
      let r = recv_header-over ch m s t m.header_size bytes v (omega arith) e in
      let not_all : (n == m.header_size) ≡ false = ground arith in
      let some_more : ltb 0 n ≡ true = ground arith in
      let body : (ltb 0 m.body_size && leb m.body_size max_size) ≡ true = ground arith in
      (
        Buffer.set_position (over m.header bytes) (u64 (m.header.position + n)),
        recv_dispatch ch m s waiting_header st
            ∙ rw (need, r) (rw (not_all, some_more) (rw body refl)),
      )

  -- A message of a header size that is not allowed is refused, but only after the state was set: the
  -- object then takes itself to be sending, and can receive nothing more until `reset`.
  pub send_refused :
      (m : Impl) (s : ch.State) (header body : Buffer)
      → (Buffer.remaining header ≡ 0) ⊎ (max_size < Buffer.remaining header)
      → Buffer.remaining header < 2 ^ 32
      → let sent = send ch header body (m, s) in
        (sent.0 ≡ throws invalid_header_size)
        × ((recv ch sent.1).0 ≡ throws cannot_recv_while_sending)
  unfolding send recv_in
  send_refused m s header body bad fits =
      let e : u32 (Buffer.remaining header) ≡ Buffer.remaining header = omega arith in
      let t : (Buffer.remaining header == 0 || ltb max_size (Buffer.remaining header)) ≡ true =
        ground arith in
      rw (e, t)
        (
          refl,
          ap (λ x. x.0) (recv_dispatch ch (record m { state = sending_data }) s sending_data refl),
        )
