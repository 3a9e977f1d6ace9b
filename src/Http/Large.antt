-- ===== src/Http/Large.antt =====
-- A request of source/http.cpp whose body does not fit behind its headers.
use ez.Base.{
  ◌+◌, ◌-◌, ◌^◌, ◌≤◌, ◌<◌, ◌≡◌, ◌∙◌, ◌∷◌, ◌==◌, ℕ, refl, true, false, List, [], arith, ltb, leb,
  Bool-cases, inl, inr, length, replicate, length-replicate, take-append, splice, length-splice,
  u64, ok,
}
use ez.Buffer
use ez.Buffer.{Buffer}
use ez.Channel.{Channel}
use ez.Http.{Error, Impl, max_body_size, waiting_body}
use ez.Http.Receive.{body_follows, move_tail, await_body, after_headers}
use ez.Http.Ends.{set_position_fits}
use ez.Http.Pieces.{IsFilling}

eq_nil : (xs : List ℕ) → length xs ≡ 0 → xs ≡ []
eq_nil [] e = refl
eq_nil (x ∷ xs) e = absurd (omega arith)

-- A new buffer with the first bytes of the body.
abbrev pub begun : ℕ → List ℕ → Buffer
begun size tail = record {
  mem = splice 0 tail (replicate size 0);
  size = size;
  orig_size = size;
  position = length tail;
}

abbrev pub awaiting : Impl → List ℕ → Impl
awaiting m tail = record m {
  state = waiting_body;
  new_body_buffer = true;
  body = begun m.body_size tail;
}

pub awaiting-IsFilling :
    (m : Impl) (tail : List ℕ)
    → m.chunked ≡ false
    → length tail ≤ m.body_size
    → m.body_size < 2 ^ 63
    → IsFilling tail (awaiting m tail)
awaiting-IsFilling m tail c h small = record {
  plain = c;
  own = refl;
  valid = record {
    owned =
        length-splice 0 tail (replicate m.body_size 0)
          (omega (arith, length-replicate {A = ℕ} m.body_size 0))
        ∙ length-replicate m.body_size 0;
    sized = omega arith;
    placed = h;
    addressed = small;
  };
  whole = refl;
  position = refl;
  bytes = take-append (length tail) tail _ refl;
}

module _ (ch : Channel) where
  -- What stands behind the headers goes to the new buffer.
  move_tail_lem :
      (m : Impl) (s : ch.State) (tail : List ℕ)
      → Buffer.read {E = Error} m.buffer (length tail) ≡ ok tail
      → m.chunked ≡ false
      → length tail ≤ m.body_size
      → m.body ≡ Buffer.make m.body_size
      → move_tail ch (length tail) (m, s) ≡ (ok tt, (record m { body = begun m.body_size tail }, s))
  unfolding move_tail Buffer.write Buffer.make
  move_tail_lem m s tail r c h fresh =
      let e : leb (0 + 0 + length tail) (length (replicate {A = ℕ} m.body_size 0)) ≡ true =
        ground (arith, length-replicate {A = ℕ} m.body_size 0) in
      rw (r, fresh, e, c)
        (rw (set_position_fits (record (begun m.body_size tail) { position = 0 }) (length tail) h)
          refl)

  await_body_lem :
      (d : ℕ) (m : Impl) (s : ch.State) (tail : List ℕ)
      → Buffer.read {E = Error} m.buffer (length tail) ≡ ok tail
      → m.chunked ≡ false
      → d ≡ m.buffer.position + length tail
      → d < 2 ^ 63
      → length tail ≤ m.body_size
      → Buffer.remaining m.buffer < m.body_size
      → await_body ch d (m, s) ≡ (ok tt, (awaiting m tail, s))
  unfolding await_body
  await_body_lem d m s tail r c e small h large =
      let e1 : ltb (Buffer.remaining m.buffer) m.body_size ≡ true = ground arith in
      let e2 : u64 (d + 2 ^ 64 - m.buffer.position) ≡ length tail = omega arith in
      let m1 = record m {
        state = waiting_body;
        new_body_buffer = true;
        body = Buffer.make m.body_size;
      } in
      elim (Bool-cases (ltb 0 (length tail))) [
        | inl some_ ↦ rw (e1, e2, some_) (move_tail_lem m1 s tail r c h refl)
        | inr none_ ↦
            let z : tail ≡ [] = eq_nil tail (ground (arith, none_)) in
            rw (e1, e2, none_) (unfold Buffer.make in rw z refl)
      ]

  -- More of the body than a first part is to come, and it does not fit behind the headers.
  pub after_headers-awaiting :
      (d : ℕ) (m : Impl) (s : ch.State) (tail : List ℕ)
      → Buffer.read {E = Error} m.buffer (length tail) ≡ ok tail
      → m.chunked ≡ false
      → m.buffer.position ≡ m.header_size
      → d ≡ m.header_size + length tail
      → d < 2 ^ 63
      → length tail < m.body_size
      → m.body_size ≤ max_body_size
      → Buffer.remaining m.buffer < m.body_size
      → after_headers ch d (m, s) ≡ (ok body_follows, (awaiting m tail, s))
  unfolding after_headers
  after_headers-awaiting d m s tail r c p e small h allowed large =
      let e0 : (m.body_size == 0) ≡ false = ground arith in
      let e1 : u64 (d + 2 ^ 64 - m.header_size) ≡ length tail = omega arith in
      let e2 : leb m.body_size (length tail) ≡ false = ground arith in
      let e3 : leb m.body_size max_body_size ≡ true = ground arith in
      rw (e0, e1, e2, e3)
        (rw (await_body_lem d m s tail r c (omega arith) small (omega arith) large) refl)
