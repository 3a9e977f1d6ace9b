-- ===== src/Cipher/Chacha/Stream.antt =====
-- The key stream of source/chacha20.cpp one byte at a time, and that `crypt` puts out the input xor
-- the key stream, whatever part of a block is left over from before.
use ez.Base.{
  ◌+◌, ◌/◌, ◌≤◌, ◌<◌, ◌≡◌, ◌∙◌, ◌||◌, ◌∷◌, ◌++◌, ◌==◌, ℕ, zero, suc, refl, sym, ap, inl, inr, false,
  List, [], arith, leb, Bool-cases, length, get_or, take, drop, All, length-set, u32, IsByte,
}
use ez.Sha.Words.{add_words, bytes_of-IsByte, length-add_words, length-bytes_of}
use ez.Cipher.Chacha.{
  Chacha, refill, quarter_round, double_round, double_rounds, transform, bump, quarter_round,
  double_round, double_rounds, transform, bump,
}

-- The next byte of the key stream.
abbrev pub next : Chacha → ℕ × Chacha
next c = let c1 = refill c in (get_or c1.block c1.pos 0, record c1 { pos = c1.pos + 1 })

unfoldable pub stream : ℕ → Chacha → List ℕ × Chacha
stream zero c = ([], c)
stream (suc n) c = let rest = stream n (next c).1 in ((next c).0 ∷ rest.0, rest.1)

-- The state has sixteen words, and the block 64 bytes.
pub record IsReady (c : Chacha) : Type 0 where
  pub words : length c.state ≡ 16
  pub block : length c.block ≡ 64
  pub bytes : All IsByte c.block

pub stream-add :
    (m n : ℕ) (c : Chacha)
    → stream (m + n) c
      ≡ ((stream m c).0 ++ (stream n (stream m c).1).0, (stream n (stream m c).1).1)
unfolding stream
stream-add zero n c = let e : 0 + n ≡ n = omega arith in ap (λ k. stream k c) e
stream-add (suc m) n c =
    let e : suc m + n ≡ suc (m + n) = omega arith in
    ap (λ k. stream k c) e ∙ ap (λ r. ((next c).0 ∷ r.0, r.1)) (stream-add m n (next c).1)

drop_at : (i : ℕ) (xs : List ℕ) → i < length xs → drop i xs ≡ get_or xs i 0 ∷ drop (suc i) xs
drop_at i [] h = absurd (omega arith)
drop_at zero (x ∷ xs) h = refl
drop_at (suc i) (x ∷ xs) h = drop_at i xs (omega arith)

refill_kept : (c : Chacha) → 1 ≤ c.pos → c.pos < 64 → refill c ≡ c
unfolding refill
refill_kept c h1 h2 = let e : (c.pos == 0 || leb 64 c.pos) ≡ false = ground arith in rw e refl

-- Inside a block that was begun.
inside :
    (n : ℕ) (c : Chacha)
    → length c.block ≡ 64
    → 1 ≤ c.pos
    → c.pos + n ≤ 64
    → stream n c ≡ (take n (drop c.pos c.block), record c { pos = c.pos + n })
unfolding stream
inside zero c b h1 h2 =
    let e : c.pos ≡ c.pos + 0 = omega arith in ap (λ p. ([], record c { pos = p })) e
inside (suc n) c b h1 h2 =
    let e : c.pos + 1 + n ≡ c.pos + suc n = omega arith in
    let s : c.pos + 1 ≡ suc c.pos = omega arith in
    ap
      (λ d.
        (let d1 = record d { pos = d.pos + 1 } in
          (get_or d.block d.pos 0 ∷ (stream n d1).0, (stream n d1).1)))
      (refill_kept c h1 (omega arith))
    ∙ ap (λ r. (get_or c.block c.pos 0 ∷ r.0, r.1))
        (inside n (record c { pos = c.pos + 1 }) b (omega arith) (omega arith))
    ∙ ap (λ p. (get_or c.block c.pos 0 ∷ take n (drop (c.pos + 1) c.block), record c { pos = p })) e
    ∙ ap (λ p. (get_or c.block c.pos 0 ∷ take n (drop p c.block), record c { pos = c.pos + suc n }))
        s
    ∙ ap (λ ks. (take (suc n) ks, record c { pos = c.pos + suc n }))
        (sym (drop_at c.pos c.block (omega arith)))

-- What a pass of `crypt` starts from.
pub record Refilled (c : Chacha) : Type 0 where
  pub ready : IsReady c
  pub room : c.pos < 64

length-quarter_round : (a b c d : ℕ) (w : List ℕ) → length (quarter_round a b c d w) ≡ length w
unfolding quarter_round
length-quarter_round a b c d w =
    length-set _ d _ ∙ length-set _ c _ ∙ length-set _ b _ ∙ length-set w a _

length-double_round : (w : List ℕ) → length (double_round w) ≡ length w
unfolding double_round
length-double_round w =
    length-quarter_round 3 4 9 14 _
    ∙ length-quarter_round 2 7 8 13 _
    ∙ length-quarter_round 1 6 11 12 _
    ∙ length-quarter_round 0 5 10 15 _
    ∙ length-quarter_round 3 7 11 15 _
    ∙ length-quarter_round 2 6 10 14 _
    ∙ length-quarter_round 1 5 9 13 _
    ∙ length-quarter_round 0 4 8 12 w

length-double_rounds : (n : ℕ) (w : List ℕ) → length (double_rounds n w) ≡ length w
unfolding double_rounds
length-double_rounds zero w = refl
length-double_rounds (suc n) w = length-double_rounds n (double_round w) ∙ length-double_round w

length-transform : (rounds : ℕ) (w : List ℕ) → length w ≡ 16 → length (transform rounds w) ≡ 64
unfolding transform
length-transform rounds w h =
    let mixed_up = double_rounds ((rounds + 1) / 2) w in
    omega (
      arith,
      length-bytes_of (add_words mixed_up w),
      length-add_words mixed_up w,
      length-double_rounds ((rounds + 1) / 2) w,
    )

length-bump : (w : List ℕ) → length (bump w) ≡ length w
unfolding bump
length-bump w = elim (Bool-cases (u32 (get_or w 12 0 + 1) == 0)) [
  | inl wraps ↦ rw wraps (length-set _ 13 _ ∙ length-set w 12 _)
  | inr small ↦ rw small (length-set w 12 _)
]

pub refill-Refilled : (c : Chacha) → IsReady c → Refilled (refill c)
unfolding refill transform
refill-Refilled c v = elim (Bool-cases (c.pos == 0 || leb 64 c.pos)) [
  | inl used ↦ rw used (record {
    ready = record {
      words = length-bump c.state ∙ v.words;
      block = length-transform c.rounds c.state v.words;
      bytes = bytes_of-IsByte _;
    };
    room = omega arith;
  })
  | inr begun ↦
      let e : c.pos < 64 = ground (arith, begun) in rw begun (record { ready = v; room = e })
]

-- A step forward in the block does not change it.
pub moved : {c : Chacha} (p : ℕ) → IsReady c → IsReady (record c { pos = p })
moved p v = record { words = v.words; block = v.block; bytes = v.bytes }

byte_of : (i : ℕ) (xs : List ℕ) → All IsByte xs → get_or xs i 0 < 256
byte_of i [] h = omega arith
byte_of zero (x ∷ xs) (hx, h) = hx
byte_of (suc i) (x ∷ xs) (hx, h) = byte_of i xs h

pub stream-IsByte :
    (n : ℕ) (c : Chacha) → IsReady c → All IsByte (stream n c).0 × IsReady (stream n c).1
unfolding stream
stream-IsByte zero c v = (tt, v)
stream-IsByte (suc n) c v =
    let r = (refill-Refilled c v).ready in
    let (bs, v') = stream-IsByte n (next c).1 (moved ((refill c).pos + 1) r) in
    ((byte_of (refill c).pos (refill c).block r.bytes, bs), v')

pub length-stream : (n : ℕ) (c : Chacha) → length (stream n c).0 ≡ n
unfolding stream
length-stream zero c = refl
length-stream (suc n) c = ap suc (length-stream n (next c).1)

-- The key stream of one pass.
pass :
    (n : ℕ) (c : Chacha)
    → Refilled (refill c)
    → (refill c).pos + suc n ≤ 64
    → stream (suc n) c ≡ (
      take (suc n) (drop (refill c).pos (refill c).block),
      record (refill c) { pos = (refill c).pos + suc n },
    )
unfolding stream
pass n c v h =
    let c1 = refill c in
    let e : c1.pos + 1 + n ≡ c1.pos + suc n = omega arith in
    let s : c1.pos + 1 ≡ suc c1.pos = omega arith in
    ap (λ r. (get_or c1.block c1.pos 0 ∷ r.0, r.1))
      (inside n (record c1 { pos = c1.pos + 1 }) v.ready.block (omega arith) (omega arith))
    ∙ ap
        (λ p.
          (get_or c1.block c1.pos 0 ∷ take n (drop (c1.pos + 1) c1.block), record c1 { pos = p }))
        e
    ∙ ap
        (λ p.
          (get_or c1.block c1.pos 0 ∷ take n (drop p c1.block), record c1 { pos = c1.pos + suc n }))
        s
    ∙ ap (λ ks. (take (suc n) ks, record c1 { pos = c1.pos + suc n }))
        (sym (drop_at c1.pos c1.block (omega (arith, v.ready.block, v.room))))

pub pass_of :
    (n : ℕ) (c : Chacha)
    → Refilled (refill c)
    → 1 ≤ n
    → (refill c).pos + n ≤ 64
    → stream n c ≡ (
      take n (drop (refill c).pos (refill c).block),
      record (refill c) { pos = (refill c).pos + n },
    )
pass_of zero c v some_ h = absurd (omega arith)
pass_of (suc n) c v some_ h = pass n c v h
