-- ===== src/Smp/Parts.antt =====
-- The parts of `recv` of source/smp.cpp on a channel that delivers each part whole: the meta data,
-- the header and the body.
use ez.Base.{
  ◌+◌, ◌-◌, ◌^◌, ◌≤◌, ◌≡◌, ◌∙◌, ◌||◌, ◌++◌, ◌==◌, if◌then◌else◌, ℕ, refl, sym, ap, inl, inr, true,
  false, some, List, arith, ltb, ==_iff, Bool-cases, length, take, drop, length-append, u64,
  take-append, drop-append, ok,
}
use ez.Smp.Reads.{recv_body-over, recv_header-over}
use ez.Buffer.Laws.{contents, set_position_start}
use ez.Smp.Frame.{max_size, magic}
use ez.Base.{le32, of_le32}
use ez.Buffer.Over.{over, contents-over_all, read-over}
use ez.Channel.{Channel, IsPrompt, got}
use ez.Smp.{Error, Impl, waiting_meta, waiting_header}
use ez.Buffer.Area.{IsValid, make-IsValid, remaining-make}
use ez.Smp.Receive.{at_body, after_header, at_header, parse_meta, at_meta}
use ez.Base.{same_bytes}
use ez.Buffer
use ez.Buffer.{Buffer}

module _ (ch : Channel) (pr : IsPrompt ch) where
  pub served :
      (s : ch.State) (size n : ℕ) (bytes rest : List ℕ)
      → n ≡ length bytes
      → 1 ≤ n
      → n ≤ size
      → pr.pending s ≡ bytes ++ rest
      → (t : ch.State) × (ch.recv s size n ≡ (got bytes, t)) × (pr.pending t ≡ rest)
  served s size n bytes rest en some_ room p =
      let there : n ≤ length (pr.pending s) = rw p (omega (arith, length-append bytes rest)) in
      let (t, e, q) = pr.serves s size n some_ room there in
      let got_all : take n (pr.pending s) ≡ bytes = rw p (take-append n bytes rest en) in
      let left : drop n (pr.pending s) ≡ rest = rw p (drop-append n bytes rest en) in
      (t, e ∙ ap (λ x. (got x, t)) got_all, q ∙ left)

  -- The last part: `m_body` is fresh, and the stream has the body next.
  pub at_body-over :
      (m : Impl) (s t : ch.State) (bytes : List ℕ)
      → m.body ≡ Buffer.make m.body_size
      → m.body_size ≡ length bytes
      → 1 ≤ length bytes
      → length bytes ≤ max_size
      → ch.recv s (length bytes) (length bytes) ≡ (got bytes, t)
      → (body : Buffer) × (contents body ≡ bytes)
        × (at_body ch (m, s) ≡ (
          ok (some (record { header = m.header; body = body })),
          (record m { body = body; state = waiting_meta }, t),
        ))
  unfolding at_body Buffer.make
  at_body-over m s t bytes em en some_ small e =
      let n = length bytes in
      let fresh = Buffer.make n in
      let v = make-IsValid n (omega arith) in
      let room = remaining-make n (omega arith) in
      let need : u64 (n + 2 ^ 64 - 0) ≡ n = omega arith in
      let full : (n == n) ≡ true = ground arith in
      let m1 = record m { body = fresh; body_size = n } in
      let r = recv_body-over ch m1 s t n bytes v (omega arith) (rw room e) in
      (
        Buffer.set_position (over fresh bytes) 0,
        contents-over_all fresh bytes v (omega arith) refl refl,
        rw (em, en, need, r) (rw full refl),
      )

  -- The header, and then the body if there is one.
  pub at_header-over :
      (m : Impl) (s t : ch.State) (bytes : List ℕ)
      → IsValid m.header
      → m.header.position ≡ 0
      → length bytes ≤ Buffer.remaining m.header
      → m.header_size ≡ length bytes
      → length bytes ≤ max_size
      → ch.recv s (Buffer.remaining m.header) (length bytes) ≡ (got bytes, t)
      → at_header ch (m, s)
        ≡ after_header ch (
          record m {
            header = Buffer.set_size (Buffer.set_position (over m.header bytes) 0) m.header_size;
          },
          t,
        )
  unfolding at_header
  at_header-over m s t bytes v z fits size small e =
      let n = length bytes in
      let need : u64 (m.header_size + 2 ^ 64 - m.header.position) ≡ n = omega arith in
      let full : (n == n) ≡ true = ground arith in
      let r = recv_header-over ch m s t n bytes v fits e in rw (need, r) (rw full refl)

  abbrev pub meta_of : ℕ → ℕ → List ℕ
  meta_of h b = magic ++ (le32 h ++ le32 b)

  -- The header buffer once the meta data is read: a new one if the header does not fit.
  abbrev pub header_buffer : Buffer → ℕ → Buffer
  header_buffer old size = if ltb (Buffer.remaining old) size then Buffer.make size else old

  parse_meta-meta_of :
      (m : Impl) (t : ch.State) (h b : ℕ)
      → 1 ≤ h
      → h ≤ max_size
      → b ≤ max_size
      → parse_meta ch (meta_of h b) (m, t) ≡ (
        ok tt,
        (
          record m {
            state = waiting_header;
            header = header_buffer m.header h;
            new_header = ltb (Buffer.remaining m.header) h || m.new_header;
            header_size = h;
            body_size = b;
          },
          t,
        ),
      )
  unfolding parse_meta same_bytes
  parse_meta-meta_of m t h b h1 h2 b2 =
      let eh : of_le32 (take 4 (drop 4 (meta_of h b))) ≡ h = unfold of_le32 le32 in omega arith in
      let eb : of_le32 (take 4 (drop 8 (meta_of h b))) ≡ b = unfold of_le32 le32 in omega arith in
      let size : (h == 0 || ltb max_size h) ≡ false = ground arith in
      elim (Bool-cases (ltb (Buffer.remaining m.header) h)) [
        | inl new ↦ rw (eh, eb, size, new) refl
        | inr old ↦ rw (eh, eb, size, old) refl
      ]

  pub at_meta-over :
      (m : Impl) (s t : ch.State) (h b : ℕ)
      → IsValid m.header
      → m.header.position ≡ 0
      → 12 ≤ Buffer.remaining m.header
      → 1 ≤ h
      → h ≤ max_size
      → b ≤ max_size
      → ch.recv s (Buffer.remaining m.header) 12 ≡ (got (meta_of h b), t)
      → at_meta ch (m, s)
        ≡ at_header ch (
          record m {
            state = waiting_header;
            header = header_buffer (over m.header (meta_of h b)) h;
            new_header = ltb (Buffer.remaining (over m.header (meta_of h b))) h || m.new_header;
            header_size = h;
            body_size = b;
          },
          t,
        )
  unfolding at_meta
  at_meta-over m s t h b v z room h1 h2 b2 e =
      let meta = meta_of h b in
      let l : length meta ≡ 12 = unfold le32 in refl in
      let need : u64 (12 + 2 ^ 64 - m.header.position) ≡ 12 = omega arith in
      let r = recv_header-over ch m s t 12 meta v (omega arith) e in
      let start = set_position_start (over m.header meta) z in
      let back : Buffer.read {E = Error} (over m.header meta) 12 ≡ ok meta =
        ap (λ n. Buffer.read (over m.header meta) n) (sym l)
        ∙ read-over m.header meta v (omega arith) in
      let parsed = parse_meta-meta_of (record m { header = over m.header meta }) t h b h1 h2 b2 in
      let full : (length meta == 12) ≡ true = (==_iff _ _).1 l in
      rw (need, r) (rw (full, start, back, parsed) refl)
