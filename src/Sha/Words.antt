-- ===== src/Sha/Words.antt =====
-- The macros on 32-bit words of include/ez/common.hpp, source/sha1.cpp and source/sha2.cpp.
use ez.Base.{
  ◌+◌, ◌-◌, ◌*◌, ◌^◌, ◌≡◌, ◌∷◌, ◌++◌, ◌<<<◌, ◌>>>◌, ℕ, zero, suc, bit_and, bit_or, bit_xor, refl,
  ap, List, [], arith, length, get_or, drop, All, length-append, u32, IsByte, le32, of_le32,
  length-le32,
}

-- `ROL32`, `ROR32` and `SHR32` on a `uint32_t`.
pub rol32 : ℕ → ℕ → ℕ
rol32 a n = bit_or (u32 (a <<< n)) (a >>> (32 - n))

pub ror32 : ℕ → ℕ → ℕ
ror32 a n = bit_or (a >>> n) (u32 (a <<< (32 - n)))

pub shr32 : ℕ → ℕ → ℕ
shr32 a n = a >>> n

-- `SWAPINT32`
pub swap32 : ℕ → ℕ
swap32 x =
    let a = bit_and x 0x000000ff <<< 24 in
    let b = bit_and x 0x0000ff00 <<< 8 in
    let c = bit_and x 0x00ff0000 >>> 8 in
    let d = bit_and x 0xff000000 >>> 24 in bit_or (bit_or (bit_or a b) c) d

-- `~x` of a `uint32_t`.
pub not32 : ℕ → ℕ
not32 x = 2 ^ 32 - 1 - u32 x

-- `CH`, `MAJ` and `PARITY`.
pub choose : ℕ → ℕ → ℕ → ℕ
choose x y z = bit_or (bit_and x y) (bit_and (not32 x) z)

pub majority : ℕ → ℕ → ℕ → ℕ
majority x y z = bit_or (bit_or (bit_and x y) (bit_and x z)) (bit_and y z)

pub parity : ℕ → ℕ → ℕ → ℕ
parity x y z = bit_xor (bit_xor x y) z

-- The sixteen words that `m_buffer` is read as, and the bytes of a list of words.
pub words : ℕ → List ℕ → List ℕ
words zero bytes = []
words (suc n) bytes = of_le32 bytes ∷ words n (drop 4 bytes)

pub bytes_of : List ℕ → List ℕ
bytes_of [] = []
bytes_of (w ∷ ws) = le32 w ++ bytes_of ws

pub length-bytes_of : (ws : List ℕ) → length (bytes_of ws) ≡ 4 * length ws
unfolding bytes_of
length-bytes_of [] = refl
length-bytes_of (w ∷ ws) =
    omega (arith, length-append (le32 w) (bytes_of ws), length-le32 w, length-bytes_of ws)

pub length-words : (n : ℕ) (bytes : List ℕ) → length (words n bytes) ≡ n
unfolding words
length-words zero bytes = refl
length-words (suc n) bytes = ap suc (length-words n (drop 4 bytes))

-- `w[t & 15]`; the index is below 16.
pub word : List ℕ → ℕ → ℕ
word w t = get_or w (bit_and t 0x0f) 0

-- `m_digest[i] += x[i]`
pub add_words : List ℕ → List ℕ → List ℕ
add_words [] ys = []
add_words (x ∷ xs) [] = x ∷ xs
add_words (x ∷ xs) (y ∷ ys) = u32 (x + y) ∷ add_words xs ys

pub length-add_words : (xs ys : List ℕ) → length (add_words xs ys) ≡ length xs
unfolding add_words
length-add_words [] ys = refl
length-add_words (x ∷ xs) [] = refl
length-add_words (x ∷ xs) (y ∷ ys) = ap suc (length-add_words xs ys)

pub bytes_of-IsByte : (ws : List ℕ) → All IsByte (bytes_of ws)
unfolding bytes_of le32
bytes_of-IsByte [] = tt
bytes_of-IsByte (w ∷ ws) =
    (omega arith, (omega arith, (omega arith, (omega arith, bytes_of-IsByte ws))))
