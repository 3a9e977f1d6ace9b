-- ===== src/Http/Ends.antt =====
-- The loop for the headers in `recv_request` and `recv_response` of source/http.cpp ends, and reads
-- nothing out of range.
use ez.Base.{
  ◌+◌, ◌-◌, ◌^◌, ◌≤◌, ◌<◌, ◌≡◌, ◌∙◌, ◌≢◌, ◌==◌, ℕ, zero, suc, refl, sym, ap, Option, none, some,
  true, false, List, arith, ltb, leb, Bool-cases, inl, inr, length, take, length-take, u32, Outcome,
  ok, throws, fault,
}
use mathlib.Core.Path.{subst}
use ez.Buffer
use ez.Buffer.{Buffer}
use ez.Buffer.Area.{IsValid}
use ez.Channel.{Channel}
use ez.Channel.Monad.{M, pure}
use ez.Http.{Error, stuck, Impl, World}
use ez.Http.Text.{Headers}
use ez.Http.Receive.{
  Parsed, parsed, invalid, partial_, Side, Next, would_block, by_size, recv_buffer, take_headers,
}
use ez.Http.Safety.{
  IsBounded, Post, follow-Post, recv_buffer-Post, Got, Kept, take_headers-Post, after_headers-Post,
}
use ez.Http.Loops.{more_head, whole_head, on_head, take_block, head_loop}

-- Documented of the parser: what it has taken in is part of what it was given. And the start line is
-- kept apart from the buffer.
pub record IsReading {A : Type 0} (side : Side A) : Type 0 where
  pub within :
      (bytes : List ℕ) (seen ret : ℕ) (start : A) (hs : Headers)
      → side.parse bytes seen ≡ parsed ret start hs
      → ret ≤ length bytes
  pub buffer_kept : (start : A) (m : Impl) → (side.keep start m).buffer ≡ m.buffer
  pub header_size_kept : (start : A) (m : Impl) → (side.keep start m).header_size ≡ m.header_size

pub set_position_fits :
    (b : Buffer) (pos : ℕ) → pos ≤ b.size → Buffer.set_position b pos ≡ record b { position = pos }
unfolding Buffer.set_position
set_position_fits b pos h = let t : ltb b.size pos ≡ false = ground arith in rw t refl

pub moved-IsValid :
    {b : Buffer} (pos : ℕ) → pos ≤ b.size → IsValid b → IsValid (record b { position = pos })
moved-IsValid pos h v = record {
  owned = v.owned;
  sized = v.sized;
  placed = h;
  addressed = v.addressed;
}

module _ (ch : Channel) {A : Type 0} (side : Side A) (r : IsReading side) where
  more_head-Post :
      (d : ℕ) (again : M Error (World ch) Next) (m : Impl) (s : ch.State)
      → IsValid m.buffer
      → m.buffer.position ≡ 0
      → d ≤ m.buffer.size
      → Post (λ _ w. Unit) (again (record m { buffer = record m.buffer { position = d } }, s))
      → Post (λ _ w. Unit) (more_head ch side d again (m, s))
  unfolding more_head
  more_head-Post d again m s v z h k = elim (Bool-cases (d == Buffer.remaining m.buffer)) [
    | inl all ↦ rw all (λ x. cc)
    | inr part ↦ rw (part, set_position_fits m.buffer d h) k
  ]

  whole_head-Post :
      (ret : ℕ) (start : A) (hs : Headers) (d : ℕ) (m : Impl) (s : ch.State)
      → IsValid m.buffer
      → m.buffer.size < 2 ^ 32
      → ret ≤ d
      → d ≤ m.buffer.size
      → Post (λ _ w. Unit) (whole_head ch side ret start hs d (m, s))
  unfolding whole_head
  whole_head-Post ret start hs d m s v small h1 h2 =
      let e : u32 ret ≡ ret = omega arith in
      let b = record m.buffer { position = ret } in
      let m0 : Impl = record m { header_size = ret; buffer = b } in
      let m1 = side.keep start m0 in
      let vb : IsValid b = moved-IsValid ret (omega arith) v in
      rw (e, set_position_fits m.buffer ret (omega arith))
        (follow-Post (λ _ w. Kept m1 w.0) (λ _ w. Unit) (take_headers ch hs (m1, s)) _
          (take_headers-Post ch hs m1 s)
          (λ _ w k.
            let same : w.0.buffer ≡ b = k.buffer ∙ r.buffer_kept start m0 in
            let size : w.0.header_size ≡ ret = k.header_size ∙ r.header_size_kept start m0 in
            after_headers-Post ch d w.0 w.1 (subst IsValid (sym same) vb)
              (ap (λ x. x.position) same ∙ sym size) (omega (arith, size))
              (omega (arith, ap (λ x. x.size) same))))

  on_head-Post :
      (p : Parsed A) (bytes : List ℕ) (seen d : ℕ) (again : M Error (World ch) Next)
      → side.parse bytes seen ≡ p
      → length bytes ≡ d
      → (m : Impl) (s : ch.State) → IsValid m.buffer
      → m.buffer.size < 2 ^ 32
      → m.buffer.position ≡ 0
      → d ≤ m.buffer.size
      → Post (λ _ w. Unit) (again (record m { buffer = record m.buffer { position = d } }, s))
      → Post (λ _ w. Unit) (on_head ch side p d again (m, s))
  unfolding on_head
  on_head-Post (parsed ret start hs) bytes seen d again e l m s v small z h k =
      elim (Bool-cases (ltb 0 ret)) [
        | inl some_ ↦ rw some_ (
            whole_head-Post ret start hs d m s v small
              (omega (arith, l, r.within bytes seen ret start hs e)) h)
        | inr none_ ↦ rw none_ (more_head-Post d again m s v z h k)
      ]
  on_head-Post invalid bytes seen d again e l m s v small z h k = λ x. cc
  on_head-Post partial_ bytes seen d again e l m s v small z h k =
      more_head-Post d again m s v z h k

  take_block-Post :
      (d n : ℕ) (again : M Error (World ch) Next) (m : Impl) (s : ch.State)
      → IsValid m.buffer
      → m.buffer.size < 2 ^ 32
      → d + n ≤ m.buffer.size
      → Post (λ _ w. Unit) (again (record m { buffer = record m.buffer { position = d + n } }, s))
      → Post (λ _ w. Unit) (take_block ch side d n again (m, s))
  unfolding take_block Buffer.read
  take_block-Post d n again m s v small h k =
      let b = record m.buffer { position = 0 } in
      let bytes = take (d + n) m.buffer.mem in
      let e : leb (0 + (d + n)) (length m.buffer.mem) ≡ true = ground (arith, v.owned, v.sized) in
      rw (set_position_fits m.buffer 0 (omega arith), e)
        (on_head-Post (side.parse bytes d) bytes d (d + n) again refl
          (omega (arith, length-take (d + n) m.buffer.mem, v.owned, v.sized))
          (record m { buffer = b }) s (moved-IsValid 0 (omega arith) v) small refl h k)

  head_loop-Post :
      (fuel d : ℕ) (m : Impl) (s : ch.State)
      → IsBounded ch
      → IsValid m.buffer
      → m.buffer.size < 2 ^ 32
      → d ≤ m.buffer.position
      → m.buffer.size - d < fuel
      → Post (λ _ w. Unit) (head_loop ch side fuel d (m, s))
  unfolding head_loop
  head_loop-Post zero d m s bound v small h f = absurd (omega arith)
  head_loop-Post (suc fuel) d m s bound v small h f =
      follow-Post (λ sz w. Got m sz w.0) (λ _ w. Unit) (recv_buffer ch (m, s)) _
        (recv_buffer-Post ch bound m s v) (go (λ k w. head_loop-Post fuel k w.0 w.1 bound))
    where
      go :
          ((k : ℕ) (w : World ch)
            → IsValid w.0.buffer
            → w.0.buffer.size < 2 ^ 32
            → k ≤ w.0.buffer.position
            → w.0.buffer.size - k < fuel
            → Post (λ _ w. Unit) (head_loop ch side fuel k w))
          → (sz : Option ℕ) (w : World ch) → Got m sz w.0
          → Post
              (λ _ w. Unit)
              (by_size ch sz 0
                (pure would_block)
                (λ n. take_block ch side d n (head_loop ch side fuel (d + n)))
                (pure would_block)
                w)
      go rest none w g = tt
      go rest (some n) (m', t) (fits, same, _) = elim (Bool-cases (n == 0)) [
        | inl none_ ↦ rw none_ tt
        | inr more ↦
            let e : ltb 0 n ≡ true = ground (arith, more) in
            let all : d + n ≤ m'.buffer.size = omega (arith, same.size) in
            rw (more, e)
              (take_block-Post d n _ m' t same.valid (omega (arith, same.size)) all (
                rest (d + n) _ (moved-IsValid (d + n) all same.valid) (omega (arith, same.size))
                  (omega arith)
                  (let positive : 1 ≤ n = ground (arith, more) in omega (arith, same.size))))
      ]

  unstuck :
      {B : Type 0} (x : Outcome Error B × World ch)
      → Post (λ _ w. Unit) x
      → (x.0 ≢ throws stuck) × (x.0 ≢ fault)
  unstuck (ok a, w) k = (λ e. cc, λ e. cc)
  unstuck (throws e, w) k = (λ f. k (cc), λ f. cc)
  unstuck (fault, w) k = absurd k

  -- Over a channel that stores no more than fits, with a parser that takes in no more than it was
  -- given, and a valid buffer of less than 2 ^ 32 bytes: the loop for the headers, with the fuel that
  -- it is started with, ends by a result or by one of the source's exceptions, and reads and writes
  -- nothing out of range.
  pub head_loop-ends :
      (m : Impl) (s : ch.State)
      → IsBounded ch
      → IsValid m.buffer
      → m.buffer.size < 2 ^ 32
      → let x = head_loop ch side (suc m.buffer.size) 0 (m, s) in
        (x.0 ≢ throws stuck) × (x.0 ≢ fault)
  head_loop-ends m s bound v small =
      unstuck (head_loop ch side (suc m.buffer.size) 0 (m, s))
        (head_loop-Post (suc m.buffer.size) 0 m s bound v small (omega arith) (omega arith))
