-- ===== src/Http/Pieces.antt =====
-- The body of a request that `recv_request` of source/http.cpp collects in a buffer of its own, piece
-- by piece.
use ez.Base.{
  ◌+◌, ◌-◌, ◌^◌, ◌≤◌, ◌<◌, ◌≡◌, ◌∙◌, ◌∷◌, ◌++◌, ◌==◌, ℕ, zero, suc, refl, sym, ap, some, true,
  false, List, [], arith, ltb, length, take, All, length-append, take_past-splice, u64, ok,
}
use mathlib.Core.List.{append-nil, append_assoc}
use ez.Feed.{join}
use ez.Buffer
use ez.Buffer.{Buffer}
use ez.Buffer.Area.{IsValid, remaining_lem}
use ez.Buffer.Laws.{contents}
use ez.Buffer.Over.{over, write-over, over-IsValid}
use ez.Channel.{Channel, got}
use ez.Http.{Error, Impl}
use ez.Http.Receive.{Parser, request_side, recv_body, received}
use ez.Http.Loops.{new_pass, body_loop}
use ez.Http.Ends.{set_position_fits, moved-IsValid}

-- The channel brings these pieces, one in each call that has room for it.
abbrev pub Brings : (ch : Channel) → ch.State → List (List ℕ) → ch.State → Type 0
Brings ch s [] t = s ≡ t
Brings ch s (p ∷ ps) t =
    (s' : ch.State) × ((size : ℕ) → length p ≤ size → ch.recv s size 0 ≡ (got p, s'))
    × Brings ch s' ps t

-- `done` is in the buffer, which is as large as the body.
pub record IsFilling (done : List ℕ) (m : Impl) : Type 0 where
  pub plain : m.chunked ≡ false
  pub own : m.new_body_buffer ≡ true
  pub valid : IsValid m.body
  pub whole : m.body.size ≡ m.body_size
  pub position : m.body.position ≡ length done
  pub bytes : take m.body.position m.body.mem ≡ done

module _ (ch : Channel) (parser : Parser) where
  recv_body-over :
      (m : Impl) (s t : ch.State) (bytes : List ℕ)
      → IsValid m.body
      → length bytes ≤ Buffer.remaining m.body
      → ch.recv s (Buffer.remaining m.body) 0 ≡ (got bytes, t)
      → recv_body ch (m, s) ≡ (ok (some (length bytes)), (record m { body = over m.body bytes }, t))
  unfolding recv_body
  recv_body-over m s t bytes v fits e =
      rw e (rw (write-over m.body bytes v fits {E = Error}, received) refl)

  -- The buffer with the body, from its start.
  abbrev filled_with : Buffer → List ℕ → Buffer
  filled_with b bytes = record (over b bytes) { position = 0 }

  last_piece :
      (done bytes : List ℕ) (m : Impl) (s t : ch.State)
      → IsFilling done m
      → length done + length bytes ≡ m.body_size
      → ((size : ℕ) → length bytes ≤ size → ch.recv s size 0 ≡ (got bytes, t))
      → (again : _)
      → new_pass ch (request_side parser) again (m, s)
        ≡ (ok (some (filled_with m.body bytes)), (record m { body = filled_with m.body bytes }, t))
  unfolding new_pass
  last_piece done bytes m s t f e brings again =
      let room : length bytes ≤ Buffer.remaining m.body =
        omega (arith, remaining_lem f.valid, f.whole, f.position) in
      let need : u64 (m.body_size + 2 ^ 64 - m.body.position) ≡ length bytes =
        omega (arith, f.position, f.whole, f.valid.sized, f.valid.addressed) in
      let full : (length bytes == length bytes) ≡ true = ground arith in
      rw (need, recv_body-over m s t bytes f.valid room (brings _ room))
        (rw (full, set_position_fits (over m.body bytes) 0 (omega arith)) refl)

  contents-filled_with :
      (done bytes : List ℕ) (m : Impl)
      → IsFilling done m
      → length done + length bytes ≡ m.body_size
      → contents (filled_with m.body bytes) ≡ done ++ bytes
  contents-filled_with done bytes m f e =
      let n : m.body.size - 0 ≡ m.body.position + length bytes =
        omega (arith, f.whole, f.position) in
      rw n (
        take_past-splice m.body.position bytes m.body.mem
          (omega (arith, f.whole, f.position, f.valid.sized, f.valid.owned))
        ∙ ap (λ x. x ++ bytes) f.bytes)

  -- A piece that does not end the body.
  abbrev moved : Impl → List ℕ → Impl
  moved m bytes = record m {
    body = record (over m.body bytes) { position = m.body.position + length bytes };
  }

  next_piece :
      (done bytes : List ℕ) (m : Impl) (s t : ch.State)
      → IsFilling done m
      → 1 ≤ length bytes
      → length done + length bytes < m.body_size
      → ((size : ℕ) → length bytes ≤ size → ch.recv s size 0 ≡ (got bytes, t))
      → (again : _) → new_pass ch (request_side parser) again (m, s) ≡ again (moved m bytes, t)
  unfolding new_pass
  next_piece done bytes m s t f some_ h brings again =
      let room : length bytes ≤ Buffer.remaining m.body =
        omega (arith, remaining_lem f.valid, f.whole, f.position) in
      let need : u64 (m.body_size + 2 ^ 64 - m.body.position) ≡ m.body_size - m.body.position =
        omega (arith, f.position, f.whole, f.valid.sized, f.valid.addressed) in
      let part : (length bytes == m.body_size - m.body.position) ≡ false =
        ground (arith, f.position) in
      let more : ltb 0 (length bytes) ≡ true = ground arith in
      let to : u64 (m.body.position + length bytes) ≡ m.body.position + length bytes =
        omega (arith, f.position, f.whole, f.valid.sized, f.valid.addressed) in
      rw (need, recv_body-over m s t bytes f.valid room (brings _ room))
        (rw (part, more)
          (rw
            (
              to,
              set_position_fits (over m.body bytes) (m.body.position + length bytes)
                  (omega (arith, f.position, f.whole)),
            )
            refl))

  moved-IsFilling :
      (done bytes : List ℕ) (m : Impl)
      → IsFilling done m
      → length done + length bytes < m.body_size
      → IsFilling (done ++ bytes) (moved m bytes)
  moved-IsFilling done bytes m f h = record {
    plain = f.plain;
    own = f.own;
    valid = moved-IsValid (m.body.position + length bytes) (omega (arith, f.position, f.whole)) (
        over-IsValid m.body bytes f.valid
          (omega (arith, remaining_lem f.valid, f.position, f.whole)));
    whole = f.whole;
    position = omega (arith, f.position, length-append done bytes);
    bytes =
        take_past-splice m.body.position bytes m.body.mem
          (omega (arith, f.whole, f.position, f.valid.sized, f.valid.owned))
        ∙ ap (λ x. x ++ bytes) f.bytes;
  }

  one_pass :
      (fuel : ℕ) (done : List ℕ) (m : Impl) (s : ch.State)
      → IsFilling done m
      → body_loop ch (request_side parser) parser (suc fuel) (m, s)
        ≡ new_pass ch (request_side parser) (body_loop ch (request_side parser) parser fuel) (m, s)
  unfolding body_loop
  one_pass fuel done m s f = rw (f.plain, f.own) refl

  pub loop_pieces :
      (fuel : ℕ) (done p : List ℕ) (ps : List (List ℕ)) (m : Impl) (s t : ch.State)
      → IsFilling done m
      → All (λ x. 1 ≤ length x) (p ∷ ps)
      → Brings ch s (p ∷ ps) t
      → length done + length (join (p ∷ ps)) ≡ m.body_size
      → length (p ∷ ps) ≤ fuel
      → (b : Buffer) × (body_loop ch (request_side parser) parser fuel (m, s)
          ≡ (ok (some b), (record m { body = b }, t)))
        × (contents b ≡ done ++ join (p ∷ ps))
  loop_pieces zero done p ps m s t f some_ brings e h = absurd (omega arith)
  loop_pieces (suc fuel) done p [] m s t f some_ (s', now, last) e h =
      let n : length done + length p ≡ m.body_size = omega (arith, ap length (append-nil p)) in
      (
        filled_with m.body p,
        one_pass fuel done m s f
            ∙ last_piece done p m s s' f n now _
            ∙ ap
                (λ x.
                  (ok (some (filled_with m.body p)), (record m { body = filled_with m.body p }, x)))
                last,
        contents-filled_with done p m f n ∙ ap (λ x. done ++ x) (sym (append-nil p)),
      )
  loop_pieces (suc fuel) done p (q ∷ qs) m s t f (some_, more) (s', now, rest) e h =
      let all : length (join (p ∷ q ∷ qs)) ≡ length p + length (join (q ∷ qs)) =
        length-append p (join (q ∷ qs)) in
      let left : 1 ≤ length (join (q ∷ qs)) = omega (arith, more.0, length-append q (join qs)) in
      let less : length done + length p < m.body_size = omega (arith, e, all, left) in
      let (b, r, c) =
        loop_pieces fuel (done ++ p) q qs (moved m p) s' t (moved-IsFilling done p m f less) more
          rest (omega (arith, e, all, length-append done p)) (omega arith) in
      (
        b,
        one_pass fuel done m s f ∙ next_piece done p m s s' f some_ less now _ ∙ r,
        c ∙ append_assoc done p (join (q ∷ qs)),
      )
