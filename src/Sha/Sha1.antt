-- ===== src/Sha/Sha1.antt =====
-- source/sha1.cpp: the constants and the block function of SHA-1.
use ez.Base.{
  ◌+◌, ◌≡◌, ◌∙◌, ◌∷◌, if◌then◌else◌, ℕ, zero, suc, bit_and, bit_xor, refl, inl, inr, List, [], map,
  arith, ltb, leb, Bool-cases, length, set, length-set, length-map, u32,
}
use ez.Sha.Words.{
  add_words, bytes_of, choose, majority, parity, rol32, swap32, word, words, length-bytes_of,
  length-words, length-add_words,
}

abbrev pub initial : List ℕ
initial = 0x67452301 ∷ 0xefcdab89 ∷ 0x98badcfe ∷ 0x10325476 ∷ 0xc3d2e1f0 ∷ []

-- `if(i >= 16) W(i) = ROL32(...)`
schedule : ℕ → List ℕ → List ℕ
schedule i w =
    if leb 16 i
    then (set w (bit_and i 0x0f) (
        rol32
          (bit_xor (bit_xor (bit_xor (word w (i + 13)) (word w (i + 8))) (word w (i + 2)))
            (word w i))
          1))
    else w

-- What round `i` mixes of `b`, `c` and `d`, with its constant of `k`.
mix : ℕ → ℕ → ℕ → ℕ → ℕ × ℕ
mix i b c d =
    if ltb i 20
    then (choose b c d, 0x5a827999)
    else if ltb i 40
    then (parity b c d, 0x6ed9eba1)
    else if ltb i 60
    then (majority b c d, 0x8f1bbcdc)
    else (parity b c d, 0xca62c1d6)

-- One round on the variables `a` to `e`.
round : ℕ → ℕ → List ℕ → List ℕ
round i wi (a ∷ b ∷ c ∷ d ∷ e ∷ []) =
    let m = mix i b c d in u32 (rol32 a 5 + m.0 + e + wi + m.1) ∷ a ∷ rol32 b 30 ∷ c ∷ d ∷ []
round i wi other = other

-- `left` rounds from round `i` on: the variables and the words.
rounds : ℕ → ℕ → List ℕ → List ℕ → List ℕ × List ℕ
rounds zero i vars w = (vars, w)
rounds (suc left) i vars w =
    let w' = schedule i w in rounds left (i + 1) (round i (word w' i) vars) w'

-- `transform`: the new digest, and what it leaves in `m_buffer`.
pub transform : List ℕ → List ℕ → List ℕ × List ℕ
transform digest buffer =
    let done = rounds 80 0 digest (map swap32 (words 16 buffer)) in
    (add_words digest done.0, bytes_of done.1)

length-schedule : (i : ℕ) (w : List ℕ) → length (schedule i w) ≡ length w
unfolding schedule
length-schedule i w = elim (Bool-cases (leb 16 i)) [
  | inl later ↦ rw later (length-set w (bit_and i 0x0f) _)
  | inr first ↦ rw first refl
]

length-rounds : (left i : ℕ) (vars w : List ℕ) → length (rounds left i vars w).1 ≡ length w
unfolding rounds
length-rounds zero i vars w = refl
length-rounds (suc left) i vars w =
    length-rounds left (i + 1) (round i (word (schedule i w) i) vars) (schedule i w)
    ∙ length-schedule i w

-- Sixteen words go back to the buffer.
pub length-transform : (digest buffer : List ℕ) → length (transform digest buffer).1 ≡ 64
unfolding transform
length-transform digest buffer =
    let w = map swap32 (words 16 buffer) in
    omega (
      arith,
      length-bytes_of (rounds 80 0 digest w).1,
      length-rounds 80 0 digest w,
      length-map swap32 (words 16 buffer),
      length-words 16 buffer,
    )

pub length-digest : (digest buffer : List ℕ) → length (transform digest buffer).0 ≡ length digest
unfolding transform
length-digest digest buffer = length-add_words digest _
