-- ===== src/Sha/Sha2.antt =====
-- source/sha2.cpp: the constants and the block function of SHA-256.
use ez.Base.{
  ◌+◌, ◌≡◌, ◌∙◌, ◌∷◌, if◌then◌else◌, ℕ, zero, suc, bit_and, bit_xor, refl, inl, inr, List, [], map,
  arith, leb, Bool-cases, length, get_or, set, length-set, length-map, u32,
}
use ez.Sha.Words.{
  add_words, bytes_of, choose, majority, ror32, shr32, swap32, word, words, length-bytes_of,
  length-words, length-add_words,
}

abbrev pub initial : List ℕ
initial =
    0x6a09e667 ∷ 0xbb67ae85 ∷ 0x3c6ef372 ∷ 0xa54ff53a ∷ 0x510e527f ∷ 0x9b05688c ∷ 0x1f83d9ab
    ∷ 0x5be0cd19 ∷ []

abbrev k : List ℕ
k =
    0x428a2f98 ∷ 0x71374491 ∷ 0xb5c0fbcf ∷ 0xe9b5dba5 ∷ 0x3956c25b ∷ 0x59f111f1 ∷ 0x923f82a4
    ∷ 0xab1c5ed5 ∷ 0xd807aa98 ∷ 0x12835b01 ∷ 0x243185be ∷ 0x550c7dc3 ∷ 0x72be5d74 ∷ 0x80deb1fe
    ∷ 0x9bdc06a7 ∷ 0xc19bf174 ∷ 0xe49b69c1 ∷ 0xefbe4786 ∷ 0x0fc19dc6 ∷ 0x240ca1cc ∷ 0x2de92c6f
    ∷ 0x4a7484aa ∷ 0x5cb0a9dc ∷ 0x76f988da ∷ 0x983e5152 ∷ 0xa831c66d ∷ 0xb00327c8 ∷ 0xbf597fc7
    ∷ 0xc6e00bf3 ∷ 0xd5a79147 ∷ 0x06ca6351 ∷ 0x14292967 ∷ 0x27b70a85 ∷ 0x2e1b2138 ∷ 0x4d2c6dfc
    ∷ 0x53380d13 ∷ 0x650a7354 ∷ 0x766a0abb ∷ 0x81c2c92e ∷ 0x92722c85 ∷ 0xa2bfe8a1 ∷ 0xa81a664b
    ∷ 0xc24b8b70 ∷ 0xc76c51a3 ∷ 0xd192e819 ∷ 0xd6990624 ∷ 0xf40e3585 ∷ 0x106aa070 ∷ 0x19a4c116
    ∷ 0x1e376c08 ∷ 0x2748774c ∷ 0x34b0bcb5 ∷ 0x391c0cb3 ∷ 0x4ed8aa4a ∷ 0x5b9cca4f ∷ 0x682e6ff3
    ∷ 0x748f82ee ∷ 0x78a5636f ∷ 0x84c87814 ∷ 0x8cc70208 ∷ 0x90befffa ∷ 0xa4506ceb ∷ 0xbef9a3f7
    ∷ 0xc67178f2 ∷ []

sigma1 : ℕ → ℕ
sigma1 x = bit_xor (bit_xor (ror32 x 2) (ror32 x 13)) (ror32 x 22)

sigma2 : ℕ → ℕ
sigma2 x = bit_xor (bit_xor (ror32 x 6) (ror32 x 11)) (ror32 x 25)

sigma3 : ℕ → ℕ
sigma3 x = bit_xor (bit_xor (ror32 x 7) (ror32 x 18)) (shr32 x 3)

sigma4 : ℕ → ℕ
sigma4 x = bit_xor (bit_xor (ror32 x 17) (ror32 x 19)) (shr32 x 10)

-- `if(t >= 16) W(t) += ...`
schedule : ℕ → List ℕ → List ℕ
schedule t w =
    if leb 16 t
    then (set w (bit_and t 0x0f)
        (u32 (word w t + (sigma4 (word w (t + 14)) + word w (t + 9) + sigma3 (word w (t + 1))))))
    else w

-- One round on the variables `a` to `h`.
round : ℕ → ℕ → List ℕ → List ℕ
round t wt (a ∷ b ∷ c ∷ d ∷ e ∷ f ∷ g ∷ h ∷ []) =
    let temp1 = u32 (h + sigma2 e + choose e f g + get_or k t 0 + wt) in
    let temp2 = u32 (sigma1 a + majority a b c) in
    u32 (temp1 + temp2) ∷ a ∷ b ∷ c ∷ u32 (d + temp1) ∷ e ∷ f ∷ g ∷ []
round t wt other = other

-- `left` rounds from round `t` on: the variables and the words.
rounds : ℕ → ℕ → List ℕ → List ℕ → List ℕ × List ℕ
rounds zero t vars w = (vars, w)
rounds (suc left) t vars w =
    let w' = schedule t w in rounds left (t + 1) (round t (word w' t) vars) w'

-- `transform`: the new digest, and what it leaves in `m_buffer`.
pub transform : List ℕ → List ℕ → List ℕ × List ℕ
transform digest buffer =
    let done = rounds 64 0 digest (map swap32 (words 16 buffer)) in
    (add_words digest done.0, bytes_of done.1)

length-schedule : (t : ℕ) (w : List ℕ) → length (schedule t w) ≡ length w
unfolding schedule
length-schedule t w = elim (Bool-cases (leb 16 t)) [
  | inl later ↦ rw later (length-set w (bit_and t 0x0f) _)
  | inr first ↦ rw first refl
]

length-rounds : (left t : ℕ) (vars w : List ℕ) → length (rounds left t vars w).1 ≡ length w
unfolding rounds
length-rounds zero t vars w = refl
length-rounds (suc left) t vars w =
    length-rounds left (t + 1) (round t (word (schedule t w) t) vars) (schedule t w)
    ∙ length-schedule t w

-- Sixteen words go back to the buffer.
pub length-transform : (digest buffer : List ℕ) → length (transform digest buffer).1 ≡ 64
unfolding transform
length-transform digest buffer =
    let w = map swap32 (words 16 buffer) in
    omega (
      arith,
      length-bytes_of (rounds 64 0 digest w).1,
      length-rounds 64 0 digest w,
      length-map swap32 (words 16 buffer),
      length-words 16 buffer,
    )

pub length-digest : (digest buffer : List ℕ) → length (transform digest buffer).0 ≡ length digest
unfolding transform
length-digest digest buffer = length-add_words digest _
