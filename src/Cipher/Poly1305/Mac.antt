-- ===== src/Cipher/Poly1305/Mac.antt =====
-- source/poly1305.cpp computes the authenticator of RFC 8439: the polynomial of the message at the
-- clamped key, modulo 2 ^ 130 - 5, plus the rest of the key, modulo 2 ^ 128.
use ez.Base.{
  ◌+◌, ◌*◌, ◌/◌, ◌%◌, ◌^◌, ◌<◌, ◌≡◌, ◌∙◌, ◌∷◌, ◌++◌, ◌==◌, ℕ, bit_and, refl, sym, ap, true, false,
  List, [], arith, low32, low28, middle26, length, drop, All, length-take, All-drop, IsByte, le32,
  of_le32,
}
use mathlib.Core.Path.{subst}
use ez.Feed
use ez.Feed.{feed-append, join}
use mathlib.Core.List.{append-nil}
use ez.Cipher.Poly1305.Field.{Words, tag_words, Limbs}
use ez.Cipher.Poly1305.Carry.{IsClamped, value, value_of}
use ez.Cipher.Poly1305.Passes.{prime, IsReduced}
use ez.Cipher.Poly1305.Tag.{IsKey, tag_words-mod}
use ez.Cipher.Poly1305.Block.{number, step}
use ez.Cipher.Poly1305.Stream.{IsAt, transform_lem, feed, update-IsAt}
use ez.Cipher.Poly1305.{
  Impl, load_words, clamped, set_key, transform, update, last_block, complete, copy_to,
}

-- What is left of the message makes a last, shorter block.
abbrev pub ended : ℕ → ℕ × List ℕ → ℕ
ended key (h, []) = h
ended key (h, x ∷ xs) = step key h (x ∷ xs)

-- The pieces of a message, one call of `update` for each.
abbrev pub updates : List (List ℕ) → Impl → Impl
updates [] m = m
updates (c ∷ cs) m = updates cs (update c m)

-- The clamped multiplier and the words to add, as numbers.
abbrev pub multiplier : List ℕ → ℕ
multiplier key =
    of_le32 key % 2 ^ 28
    + of_le32 (drop 4 key) % 2 ^ 28 / 4 * 4 * 2 ^ 32
    + of_le32 (drop 8 key) % 2 ^ 28 / 4 * 4 * 2 ^ 64
    + of_le32 (drop 12 key) % 2 ^ 28 / 4 * 4 * 2 ^ 96

abbrev pub addend : List ℕ → ℕ
addend key = value_of (load_words (drop 16 key))

number-le32 :
    (w : ℕ) (rest : List ℕ) → w < 2 ^ 32 → number (le32 w ++ rest) ≡ w + number rest * 2 ^ 32
unfolding le32
number-le32 w rest h = omega arith

word_small : (x : ℕ) → bit_and x 0xffffffff < 2 ^ 32
word_small x = omega (arith, low32 x)

tag-IsKey : (s : Words) (a : Limbs) → IsKey (tag_words s a)
unfolding tag_words
tag-IsKey s a = record {
  s0 = word_small _;
  s1 = word_small _;
  s2 = word_small _;
  s3 = word_small _;
}

number-words :
    (w : Words)
    → IsKey w
    → number (le32 w.w0 ++ (le32 w.w1 ++ (le32 w.w2 ++ le32 w.w3))) ≡ value_of w
number-words w k =
    let n3 = number-le32 w.w3 [] k.s3 in
    let n2 = number-le32 w.w2 (le32 w.w3) k.s2 in
    let n1 = number-le32 w.w1 (le32 w.w2 ++ le32 w.w3) k.s1 in
    let n0 = number-le32 w.w0 (le32 w.w1 ++ (le32 w.w2 ++ le32 w.w3)) k.s0 in
    omega (arith, n0, n1, n2, n3, ap number (append-nil (le32 w.w3)))

-- The last block, if there is one.
last_block_lem :
    (key : ℕ) (secret : Words) (at : ℕ × List ℕ) (m : Impl)
    → IsAt key secret at m
    → IsReduced (last_block m).a
      × (value (last_block m).a % prime ≡ ended key at)
      × ((last_block m).s ≡ secret)
unfolding last_block
last_block_lem key secret (h, []) m v =
    let e : (m.size == 0) ≡ true =
      ground (arith, ap length v.pending, length-take m.size m.buffer, v.block, v.room) in
    rw e (v.reduced, v.polynomial, v.runs.kept_words)
last_block_lem key secret (h, x ∷ xs) m v =
    let e : (m.size == 0) ≡ false =
      ground (arith, ap length v.pending, length-take m.size m.buffer, v.block) in
    let (r, p) =
      transform_lem key h secret m v.runs v.block v.bytes v.reduced v.polynomial
        (omega (arith, v.room)) in
    rw e (r, p ∙ ap (step key h) v.pending, (unfold transform in v.runs.kept_words))

complete_lem :
    (key : ℕ) (secret : Words) (at : ℕ × List ℕ) (m : Impl)
    → IsAt key secret at m
    → IsKey secret
    → number (copy_to (complete m)) ≡ (ended key at + value_of secret) % 2 ^ 128
unfolding complete copy_to
complete_lem key secret at m v k =
    let m' = last_block m in
    let (r, p, s) = last_block_lem key secret at m v in
    number-words (tag_words m'.s m'.a) (tag-IsKey m'.s m'.a)
    ∙ ap (λ w. value_of (tag_words w m'.a)) s
    ∙ tag_words-mod secret m'.a k r
    ∙ ap (λ n. (n + value_of secret) % 2 ^ 128) p

updates-IsAt :
    (key : ℕ) (secret : Words) (at : ℕ × List ℕ) (chunks : List (List ℕ)) (m : Impl)
    → IsAt key secret at m
    → All (All IsByte) chunks
    → IsAt key secret (feed key (join chunks) at) (updates chunks m)
unfolding Feed.feed
updates-IsAt key secret at [] m v h = v
updates-IsAt key secret at (c ∷ cs) m v (hc, h) =
    subst (λ a. IsAt key secret a (updates (c ∷ cs) m))
      (sym (feed-append 16 (step key) c (join cs) at))
      (updates-IsAt key secret (feed key c at) cs (update c m) (update-IsAt key secret at c m v hc)
        h)

-- Four bytes make a word.
word_lem : (bytes : List ℕ) → All IsByte bytes → of_le32 bytes < 2 ^ 32
unfolding of_le32
word_lem [] h = omega arith
word_lem (a ∷ []) h = omega arith
word_lem (a ∷ b ∷ []) h = omega arith
word_lem (a ∷ b ∷ c ∷ []) h = omega arith
word_lem (a ∷ b ∷ c ∷ d ∷ rest) h = omega arith

load_words-IsKey : (bytes : List ℕ) → All IsByte bytes → IsKey (load_words bytes)
unfolding load_words
load_words-IsKey bytes h = record {
  s0 = word_lem bytes h;
  s1 = word_lem (drop 4 bytes) (All-drop IsByte 4 bytes h);
  s2 = word_lem (drop 8 bytes) (All-drop IsByte 8 bytes h);
  s3 = word_lem (drop 12 bytes) (All-drop IsByte 12 bytes h);
}

clamped_lem :
    (key : List ℕ)
    → IsClamped (clamped (load_words key)) × (value_of (clamped (load_words key)) ≡ multiplier key)
unfolding clamped load_words
clamped_lem key =
    let w0 = of_le32 key in
    let w1 = of_le32 (drop 4 key) in
    let w2 = of_le32 (drop 8 key) in
    let w3 = of_le32 (drop 12 key) in
    rw (low28 w0, middle26 w1, middle26 w2, middle26 w3)
      (record { k0 = omega arith; k1 = omega arith; k2 = omega arith; k3 = omega arith }, refl)

set_key-IsAt :
    (key : List ℕ) (m : Impl)
    → length m.buffer ≡ 17
    → All IsByte m.buffer
    → IsAt (multiplier key) (load_words (drop 16 key)) (0, []) (set_key key m)
unfolding set_key
set_key-IsAt key m l h =
    let (c, e) = clamped_lem key in
    record {
      runs = record { clamp = c; known = e; kept_words = refl };
      block = l;
      bytes = h;
      reduced = record {
        c0 = omega arith;
        c1 = omega arith;
        c2 = omega arith;
        c3 = omega arith;
        c4 = omega arith;
      };
      polynomial = refl;
      room = omega arith;
      pending = refl;
    }

-- A message of bytes, in whatever pieces it is given after the key, has as its tag the number of
-- RFC 8439: the polynomial of its blocks of 16 bytes at the clamped first half of the key, modulo
-- 2 ^ 130 - 5, plus the second half of the key, modulo 2 ^ 128. The object's block is one of 17
-- bytes, as declared, and nothing else is asked of what the object held before.
pub complete-mac :
    (m : Impl) (key : List ℕ) (chunks : List (List ℕ))
    → length m.buffer ≡ 17
    → All IsByte m.buffer
    → All IsByte key
    → All (All IsByte) chunks
    → number (copy_to (complete (updates chunks (set_key key m))))
      ≡ (ended (multiplier key) (feed (multiplier key) (join chunks) (0, [])) + addend key)
        % 2 ^ 128
complete-mac m key chunks l h k c =
    let secret = load_words (drop 16 key) in
    let start = set_key-IsAt key m l h in
    complete_lem (multiplier key) secret _ _
      (updates-IsAt (multiplier key) secret (0, []) chunks (set_key key m) start c)
      (load_words-IsKey (drop 16 key) (All-drop IsByte 16 key k))

-- A tag has sixteen bytes.
pub complete-bytes :
    (m : Impl) → (length (copy_to (complete m)) ≡ 16) × All IsByte (copy_to (complete m))
unfolding complete copy_to le32
complete-bytes m = (refl, omega arith)
