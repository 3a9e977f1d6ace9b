-- ===== src/Cipher/Poly1305/Stream.antt =====
-- `update` of source/poly1305.cpp evaluates the polynomial of the message's blocks, however the
-- message is cut into pieces.
use ez.Base.{
  ◌+◌, ◌-◌, ◌*◌, ◌%◌, ◌≤◌, ◌<◌, ◌≡◌, ◌∙◌, ◌∷◌, ◌++◌, ◌==◌, ℕ, zero, suc, min, refl, sym, ap, true,
  false, List, [], arith, length, take, drop, All, length-take, length-drop, take-append-drop,
  All-take, All-drop, All-append, IsByte, splice, length-splice, take_past-splice,
}
use native.Mathlib.Decide.{dec_lt}
use ez.Cipher.Poly1305.Block.{number, padded-IsBlock, padded-bytes, step}
use ez.Feed.{feed_block, feed_short, feed-append}
use mathlib.Core.Path.{subst}
use ez.Cipher.Poly1305.Carry.{IsClamped, value_of, value}
use ez.Cipher.Poly1305.Field.{Words}
use ez.Cipher.Poly1305.{Impl, padded, transform, take_in, full, update_loop, update}
use ez.Feed
use ez.Cipher.Poly1305.Passes.{prime, IsReduced}
use ez.Cipher.Poly1305.Reduce.{absorb-mod, times-mod}

-- The key: the multiplier is clamped, and the words that the tag adds are kept.
pub record Runs (key : ℕ) (secret : Words) (m : Impl) : Type 0 where
  pub clamp : IsClamped m.r
  pub known : value_of m.r ≡ key
  pub kept_words : m.s ≡ secret

-- Where the object stands: its polynomial has the value `h`, and `pending` is not taken in yet.
pub record IsAt (key : ℕ) (secret : Words) (at : ℕ × List ℕ) (m : Impl) : Type 0 where
  pub runs : Runs key secret m
  pub block : length m.buffer ≡ 17
  pub bytes : All IsByte m.buffer
  pub reduced : IsReduced m.a
  pub polynomial : value m.a % prime ≡ at.0
  pub room : m.size < 16
  pub pending : take m.size m.buffer ≡ at.1

-- `transform` takes a step of the polynomial.
pub transform_lem :
    (key h : ℕ) (secret : Words) (m : Impl)
    → Runs key secret m
    → length m.buffer ≡ 17
    → All IsByte m.buffer
    → IsReduced m.a
    → value m.a % prime ≡ h
    → m.size ≤ 16
    → IsReduced (transform m).a
      × (value (transform m).a % prime ≡ step key h (take m.size m.buffer))
unfolding transform
transform_lem key h secret m r l bytes v e small =
    let (block, n) = padded-IsBlock m.size m.buffer l bytes small in
    let (v', e') = absorb-mod m.r (padded m.size m.buffer) m.a r.clamp block v in
    (
      v',
      e'
          ∙ ap (λ b. (value m.a + b) * value_of m.r % prime) n
          ∙ times-mod (value m.a) (number (take m.size m.buffer ++ (1 ∷ []))) (value_of m.r)
          ∙ ap (λ a. (a + number (take m.size m.buffer ++ (1 ∷ []))) * value_of m.r % prime) e
          ∙ ap (λ k. (h + number (take m.size m.buffer ++ (1 ∷ []))) * k % prime) r.known,
    )

-- What is left in the block after a copy.
splice-IsByte :
    (n : ℕ) (xs mem : List ℕ) → All IsByte xs → All IsByte mem → All IsByte (splice n xs mem)
splice-IsByte n xs mem hx hm =
    All-append IsByte (take n mem) (xs ++ drop (n + length xs) mem) (All-take IsByte n mem hm)
      (All-append IsByte xs (drop (n + length xs) mem) hx (All-drop IsByte (n + length xs) mem hm))

abbrev pub feed : ℕ → List ℕ → ℕ × List ℕ → ℕ × List ℕ
feed key = Feed.feed 16 (step key)

kept :
    (key : ℕ) (secret : Words) (at : ℕ × List ℕ) (xs : List ℕ) (m : Impl)
    → IsAt key secret at m
    → All IsByte xs
    → m.size + length xs < 16
    → IsAt key secret (feed key xs at) (full (take_in xs m))
unfolding full take_in
kept key secret at xs m v hx small =
    let e : (m.size + length xs == 16) ≡ false = ground arith in
    let fits : m.size + length xs ≤ length m.buffer = omega (arith, v.block) in
    let more =
      feed_short 16 (step key) xs at.0 at.1
        (omega (arith, ap length v.pending, length-take m.size m.buffer)) in
    rw e (record {
      runs = record { clamp = v.runs.clamp; known = v.runs.known; kept_words = v.runs.kept_words };
      block = length-splice m.size xs m.buffer fits ∙ v.block;
      bytes = splice-IsByte m.size xs m.buffer hx v.bytes;
      reduced = v.reduced;
      polynomial = v.polynomial ∙ ap (λ a. a.0) (sym more);
      room = small;
      pending =
          take_past-splice m.size xs m.buffer fits
          ∙ ap (λ p. p ++ xs) v.pending
          ∙ ap (λ a. a.1) (sym more);
    })

filled_up :
    (key : ℕ) (secret : Words) (at : ℕ × List ℕ) (xs : List ℕ) (m : Impl)
    → IsAt key secret at m
    → All IsByte xs
    → 1 ≤ length xs
    → m.size + length xs ≡ 16
    → IsAt key secret (feed key xs at) (full (take_in xs m))
unfolding full take_in
filled_up key secret at xs m v hx some_ whole =
    let e : (m.size + length xs == 16) ≡ true = ground arith in
    let fits : m.size + length xs ≤ length m.buffer = omega (arith, v.block) in
    let m' : Impl = record m { buffer = splice m.size xs m.buffer; size = m.size + length xs } in
    let runs' : Runs key secret m' = record {
      clamp = v.runs.clamp;
      known = v.runs.known;
      kept_words = v.runs.kept_words;
    } in
    let l : length m'.buffer ≡ 17 = length-splice m.size xs m.buffer fits ∙ v.block in
    let b = splice-IsByte m.size xs m.buffer hx v.bytes in
    let taken : take m'.size m'.buffer ≡ at.1 ++ xs =
      take_past-splice m.size xs m.buffer fits ∙ ap (λ p. p ++ xs) v.pending in
    let (r, p) = transform_lem key at.0 secret m' runs' l b v.reduced v.polynomial (omega arith) in
    let more =
      feed_block 16 (step key) xs at.0 at.1 some_
        (omega (arith, ap length v.pending, length-take m.size m.buffer)) in
    rw e (record {
      runs =
          unfold transform in
          record { clamp = v.runs.clamp; known = v.runs.known; kept_words = v.runs.kept_words };
      block = unfold transform in (padded-bytes m'.size m'.buffer l b (omega arith)).0;
      bytes = unfold transform in (padded-bytes m'.size m'.buffer l b (omega arith)).1;
      reduced = r;
      polynomial = p ∙ ap (step key at.0) taken ∙ ap (λ a. a.0) (sym more);
      room = omega arith;
      pending = ap (λ a. a.1) (sym more);
    })

pass :
    (key : ℕ) (secret : Words) (at : ℕ × List ℕ) (xs : List ℕ) (m : Impl)
    → IsAt key secret at m
    → All IsByte xs
    → 1 ≤ length xs
    → m.size + length xs ≤ 16
    → IsAt key secret (feed key xs at) (full (take_in xs m))
pass key secret at xs m v hx some_ h = elim (dec_lt (m.size + length xs) 16) [
  | yes less ↦ kept key secret at xs m v hx less
  | no enough ↦ filled_up key secret at xs m v hx some_ (omega arith)
]

update_loop-IsAt :
    (fuel key : ℕ) (secret : Words) (at : ℕ × List ℕ) (xs : List ℕ) (m : Impl)
    → IsAt key secret at m
    → All IsByte xs
    → length xs ≤ fuel
    → IsAt key secret (feed key xs at) (update_loop fuel xs m)
unfolding update_loop Feed.feed
update_loop-IsAt zero key secret at [] m v hx h = v
update_loop-IsAt zero key secret at (x ∷ xs) m v hx h = absurd (omega arith)
update_loop-IsAt (suc fuel) key secret at [] m v hx h = v
update_loop-IsAt (suc fuel) key secret at (x ∷ xs) m v hx h =
    let n = min (length (x ∷ xs)) (16 - m.size) in
    let l = length-take n (x ∷ xs) in
    let l' = length-drop n (x ∷ xs) in
    let first =
      pass key secret at (take n (x ∷ xs)) m v (All-take IsByte n (x ∷ xs) hx)
        (omega (arith, v.room)) (omega (arith, v.room)) in
    let rest =
      update_loop-IsAt fuel key secret _ (drop n (x ∷ xs)) _ first (All-drop IsByte n (x ∷ xs) hx)
        (omega (arith, v.room)) in
    subst (λ a. IsAt key secret a (update_loop (suc fuel) (x ∷ xs) m))
      (sym (feed-append 16 (step key) (take n (x ∷ xs)) (drop n (x ∷ xs)) at)
        ∙ ap (λ b. feed key b at) (take-append-drop n (x ∷ xs)))
      rest

-- However many bytes are given, `update` takes them in one by one.
pub update-IsAt :
    (key : ℕ) (secret : Words) (at : ℕ × List ℕ) (xs : List ℕ) (m : Impl)
    → IsAt key secret at m
    → All IsByte xs
    → IsAt key secret (feed key xs at) (update xs m)
unfolding update
update-IsAt key secret at xs m v hx =
    update_loop-IsAt (length xs) key secret at xs m v hx (omega arith)

-- Nothing given changes nothing.
pub update_nothing : (m : Impl) → update [] m ≡ m
unfolding update update_loop
update_nothing m = refl
