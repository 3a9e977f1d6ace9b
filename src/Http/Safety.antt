-- ===== src/Http/Safety.antt =====
-- The parts of `recv_request` and `recv_response` in source/http.cpp, over a channel that stores no
-- more than fits: what holds after each of them, and that none reads or writes out of range.
use ez.Base.{
  ◌+◌, ◌-◌, ◌^◌, ◌≤◌, ◌<◌, ◌≡◌, ◌≢◌, ◌∙◌, ◌∷◌, ◌==◌, ℕ, refl, sym, Option, none, some, true, List,
  [], arith, ltb, leb, Bool-cases, Option-cases, inl, inr, length, take, drop, length-take,
  length-drop, length-replicate, u64, same_bytes, Outcome, ok, throws, fault,
}
use mathlib.Core.Path.{subst}
use ez.Buffer
use ez.Buffer.{Buffer}
use ez.Buffer.Area.{IsValid, remaining_lem}
use ez.Buffer.Over.{over, write-over, over-IsValid}
use ez.Channel.{Channel, Received, got, idle, broken}
use ez.Channel.Monad.{M, follow}
use ez.Http.{Error, stuck, Impl, max_body_size, World, waiting_body}
use ez.Http.Text.{Headers, codes, from_chars, isequal, content_length}
use ez.Http.Receive.{
  received, into, recv_buffer, take_header, take_headers, move_tail, await_body, after_headers,
}

-- Documented of `recv`: it stores no more than the buffer has room for.
pub record IsBounded (ch : Channel) : Type 0 where
  pub fits :
      (s t : ch.State) (size desired : ℕ) (bytes : List ℕ)
      → ch.recv s size desired ≡ (got bytes, t)
      → length bytes ≤ size

module _ {W : Type 0} where
  -- A result that satisfies `Q`, or an exception of the source.
  abbrev pub Post : {A : Type 0} → (A → W → Type 0) → Outcome Error A × W → Type 0
  Post Q (ok a, w) = Q a w
  Post Q (throws e, w) = e ≢ stuck
  Post Q (fault, w) = ⊥

  pub follow-Post :
      {A B : Type 0} (P : A → W → Type 0) (Q : B → W → Type 0) (r : Outcome Error A × W)
      (f : A → M Error W B)
      → Post P r
      → ((a : A) (w : W) → P a w → Post Q (f a w))
      → Post Q (follow r f)
  follow-Post P Q (ok a, w) f p k = k a w p
  follow-Post P Q (throws e, w) f p k = p
  follow-Post P Q (fault, w) f p k = absurd p

-- The buffer as before, but for its bytes.
pub record Stored (b b' : Buffer) : Type 0 where
  pub valid : IsValid b'
  pub size : b'.size ≡ b.size
  pub position : b'.position ≡ b.position

abbrev pub Got : Impl → Option ℕ → Impl → Type 0
Got m none m' = Unit
Got m (some n) m' =
    (n ≤ m.buffer.size - m.buffer.position)
    × Stored m.buffer m'.buffer
    × ((b : Buffer) × (m' ≡ record m { buffer = b }))

module _ (ch : Channel) (bound : IsBounded ch) where
  pub recv_buffer-Post :
      (m : Impl) (s : ch.State)
      → IsValid m.buffer
      → Post (λ sz w. Got m sz w.0) (recv_buffer ch (m, s))
  unfolding recv_buffer received into
  recv_buffer-Post m s v =
      go (ch.recv s (Buffer.remaining m.buffer) 0).0 (ch.recv s (Buffer.remaining m.buffer) 0).1
        refl
    where
      go :
          (r : Received) (t : ch.State)
          → ch.recv s (Buffer.remaining m.buffer) 0 ≡ (r, t)
          → Post
              (λ sz w. Got m sz w.0)
              (into ch m (λ b. record m { buffer = b }) (received ch m.buffer (r, t)))
      go (got bytes) t e =
          let f = bound.fits s t (Buffer.remaining m.buffer) 0 bytes e in
          let stored : received ch m.buffer (got bytes, t)
              ≡ (ok (some (length bytes), over m.buffer bytes), t) =
            rw (write-over m.buffer bytes v f {E = Error}, received) refl in
          subst (λ r. Post (λ sz w. Got m sz w.0) (into ch m (λ b. record m { buffer = b }) r))
            (sym stored)
            (
              omega (arith, remaining_lem v),
              record { valid = over-IsValid m.buffer bytes v f; size = refl; position = refl },
              (over m.buffer bytes, refl),
            )
      go idle t e = tt
      go broken t e = λ x. cc

-- What the headers leave alone.
pub record Kept (m m' : Impl) : Type 0 where
  pub buffer : m'.buffer ≡ m.buffer
  pub header_size : m'.header_size ≡ m.header_size

module _ (ch : Channel) where
  take_header-Post :
      (h : List ℕ × List ℕ) (m : Impl) (s : ch.State)
      → Post (λ _ w. Kept m w.0) (take_header ch h (m, s))
  unfolding take_header
  take_header-Post (field, value) m s = elim (Bool-cases (isequal field content_length)) [
    | inl e ↦ rw e (elim (Option-cases (from_chars value)) [
      | inl f ↦ rw f (λ x. cc)
      | inr (n, f) ↦ rw f (record { buffer = refl; header_size = refl })
    ])
    | inr e ↦ elim (Bool-cases (isequal field (codes "Transfer-Encoding"))) [
      | inl e' ↦ elim (Bool-cases (same_bytes value (codes "chunked"))) [
        | inl c ↦ rw (e, e', c) (record { buffer = refl; header_size = refl })
        | inr c ↦ rw (e, e', c) (record { buffer = refl; header_size = refl })
      ]
      | inr e' ↦ rw (e, e') (record { buffer = refl; header_size = refl })
    ]
  ]

  pub take_headers-Post :
      (hs : Headers) (m : Impl) (s : ch.State)
      → Post (λ _ w. Kept m w.0) (take_headers ch hs (m, s))
  unfolding take_headers
  take_headers-Post [] m s = record { buffer = refl; header_size = refl }
  take_headers-Post (h ∷ hs) m s =
      follow-Post (λ _ w. Kept m w.0) (λ _ w. Kept m w.0) (take_header ch h (m, s))
        (λ _. take_headers ch hs) (take_header-Post h m s)
        (λ _ w k. weaken w k (take_headers ch hs w) (take_headers-Post hs w.0 w.1))
    where
      weaken :
          (w : World ch)
          → Kept m w.0
          → (r : Outcome Error (Unit {0}) × World ch) → Post (λ _ w'. Kept w.0 w'.0) r
          → Post (λ _ w'. Kept m w'.0) r
      weaken w k (ok a, w') k' = record {
        buffer = k'.buffer ∙ k.buffer;
        header_size = k'.header_size ∙ k.header_size;
      }
      weaken w k (throws e, w') k' = k'
      weaken w k (fault, w') k' = k'

  -- The bytes behind the headers fit the new buffer.
  move_tail-Post :
      (n : ℕ) (m : Impl) (s : ch.State)
      → m.buffer.position + n ≤ length m.buffer.mem
      → m.body.position + n ≤ length m.body.mem
      → Post (λ _ w. Unit) (move_tail ch n (m, s))
  unfolding move_tail Buffer.read Buffer.write
  move_tail-Post n m s h k =
      let bytes = take n (drop m.buffer.position m.buffer.mem) in
      let count : length bytes ≡ n = omega (
        arith,
        length-take n (drop m.buffer.position m.buffer.mem),
        length-drop m.buffer.position m.buffer.mem,
      ) in
      let e : leb (m.buffer.position + n) (length m.buffer.mem) ≡ true = ground arith in
      let e' : leb (m.body.position + 0 + length bytes) (length m.body.mem) ≡ true =
        ground (arith, count) in
      rw (e, e') tt

  await_body-Post :
      (data_size : ℕ) (m : Impl) (s : ch.State)
      → IsValid m.buffer
      → m.buffer.position ≤ data_size
      → data_size ≤ m.buffer.size
      → data_size - m.buffer.position < m.body_size
      → Post (λ _ w. Unit) (await_body ch data_size (m, s))
  unfolding await_body Buffer.make
  await_body-Post d m s v h1 h2 h3 =
      let tail = d - m.buffer.position in
      let e : u64 (d + 2 ^ 64 - m.buffer.position) ≡ tail = omega (arith, v.sized, v.addressed) in
      elim (Bool-cases (ltb (Buffer.remaining m.buffer) m.body_size)) [
        | inr small ↦ rw small tt
        | inl large ↦ elim (Bool-cases (ltb 0 tail)) [
          | inr none_ ↦ rw (large, e, none_) tt
          | inl some_ ↦
              rw (large, e, some_)
                (move_tail-Post tail
                  (record m {
                    state = waiting_body;
                    new_body_buffer = true;
                    body = Buffer.make m.body_size;
                  })
                  s (omega (arith, v.owned, v.sized))
                  (omega (arith, length-replicate {A = ℕ} m.body_size 0)))
        ]
      ]

  pub after_headers-Post :
      (data_size : ℕ) (m : Impl) (s : ch.State)
      → IsValid m.buffer
      → m.buffer.position ≡ m.header_size
      → m.header_size ≤ data_size
      → data_size ≤ m.buffer.size
      → Post (λ _ w. Unit) (after_headers ch data_size (m, s))
  unfolding after_headers
  after_headers-Post d m s v p h1 h2 =
      let e : u64 (d + 2 ^ 64 - m.header_size) ≡ d - m.header_size =
        omega (arith, v.sized, v.addressed) in
      elim (Bool-cases (m.body_size == 0)) [
        | inl none_ ↦ rw none_ tt
        | inr some_ ↦ elim (Bool-cases (leb m.body_size (d - m.header_size))) [
          | inl there ↦ rw (some_, e, there) tt
          | inr away ↦ elim (Bool-cases (leb m.body_size max_body_size)) [
            | inr large ↦ rw (some_, e, away, large) (λ x. cc)
            | inl fits ↦
                rw (some_, e, away, fits)
                  (follow-Post (λ _ w. Unit) (λ _ w. Unit) (await_body ch d (m, s)) _
                    (await_body-Post d m s v (omega arith) h2 (ground (arith, away))) (λ _ w k. tt))
          ]
        ]
      ]
