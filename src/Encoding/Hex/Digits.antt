-- ===== src/Encoding/Hex/Digits.antt =====
-- The digit tables of source/hex.cpp, value by value.
use ez.Base.{
  ◌/◌, ◌%◌, ◌<◌, ◌≡◌, ◌||◌, ◌∷◌, ◌>>>◌, if◌then◌else◌, ℕ, bit_and, refl, Bool, true, false, [],
  arith, between, agree_below, agree_below→eq, ok,
}
use ez.Encoding.Hex.{
  digit, set_high, set_low, encode, decode_loop, decode_into, encode, decode_loop, decode_into,
}

-- `(isdigit or a..f or A..F)`, the characters that stand for a value.
abbrev pub is_hex : ℕ → Bool
is_hex c = between b'0' b'9' c || between b'a' b'f' c || between b'A' b'F' c

pub high_nibble : (d : ℕ) → d < 256 → bit_and d 0xf0 >>> 4 ≡ d / 16
unfolding agree_below
high_nibble = agree_below→eq (λ d. bit_and d 0xf0 >>> 4) (λ d. d / 16) 256 refl

pub low_nibble : (d : ℕ) → d < 256 → bit_and d 0x0f ≡ d % 16
unfolding agree_below
low_nibble = agree_below→eq (λ d. bit_and d 0x0f) (λ d. d % 16) 256 refl

-- Both digits of a byte, read back over any memory.
abbrev byte_back : Bool → ℕ → ℕ
byte_back up d = set_low (digit up (d % 16)) (set_high (digit up (d / 16)) 0)

byte_back_lower : (d : ℕ) → d < 256 → byte_back false d ≡ d
unfolding agree_below set_low set_high digit
byte_back_lower = agree_below→eq (byte_back false) (λ d. d) 256 refl

byte_back_upper : (d : ℕ) → d < 256 → byte_back true d ≡ d
unfolding agree_below set_low set_high digit
byte_back_upper = agree_below→eq (byte_back true) (λ d. d) 256 refl

pub set_low-set_high-digit :
    (up : Bool) (d : ℕ) → d < 256 → set_low (digit up (d % 16)) (set_high (digit up (d / 16)) 0) ≡ d
set_low-set_high-digit true d h = byte_back_upper d h
set_low-set_high-digit false d h = byte_back_lower d h

-- One byte encoded, and one pair of characters decoded, for source/url.cpp.
pub encode_byte :
    (d : ℕ)
    → d < 256
    → (up : Bool) → encode (d ∷ []) up ≡ digit up (d / 16) ∷ digit up (d % 16) ∷ []
unfolding encode
encode_byte d h up = rw (high_nibble d h, low_nibble d h) refl

pub decode_pair :
    (s1 s2 old : ℕ) → decode_into (s1 ∷ s2 ∷ []) (old ∷ []) ≡ ok (set_low s2 (set_high s1 old) ∷ [])
unfolding decode_into decode_loop
decode_pair s1 s2 old = refl

upper_range : ℕ → ℕ
upper_range n = let c = digit true n in if between b'0' b'9' c || between b'A' b'F' c then 1 else 0

upper_range_lem : (n : ℕ) → n < 16 → upper_range n ≡ 1
unfolding agree_below upper_range digit
upper_range_lem = agree_below→eq upper_range (λ n. 1) 16 refl

-- An upper-case digit is a decimal digit or a letter from A to F.
pub digit_upper :
    (n : ℕ) → n < 16 → (between b'0' b'9' (digit true n) || between b'A' b'F' (digit true n)) ≡ true
unfolding upper_range
digit_upper n h = ground (arith, upper_range_lem n h)
