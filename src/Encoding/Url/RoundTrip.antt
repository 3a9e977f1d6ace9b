-- ===== src/Encoding/Url/RoundTrip.antt =====
-- Decoding a URL-encoded text gives the text back, and the encoding is safe to put into a URL.
use ez.Base.{
  ◌*◌, ◌/◌, ◌%◌, ◌≤◌, ◌<◌, ◌≡◌, ◌∙◌, ◌||◌, ◌∷◌, ◌==◌, ℕ, refl, inl, inr, true, List, [], arith,
  Bool-cases, length, All, length-append, All-append, IsByte, ok,
}
use ez.Encoding.Hex
use ez.Encoding.Hex.Digits.{encode_byte, digit_upper}
use ez.Encoding.Url.{encode_char, encode, decode, is_plain}
use ez.Encoding.Url.Chars.{decode-encode_char}

-- Decoding undoes encoding, for every sequence of bytes.
pub decode-encode_url : (src : List ℕ) → All IsByte src → decode (encode src) ≡ ok src
unfolding encode
decode-encode_url [] h = unfold decode in refl
decode-encode_url (c ∷ src) (hc, h) =
    decode-encode_char c (encode src) hc ∙ rw (decode-encode_url src h) refl

-- Letters, digits, the marks that `is_plain` lists, and the two signs of the encoding itself.
abbrev pub IsUrlSafe : ℕ → Type 0
IsUrlSafe c = (is_plain c || c == b'%' || c == b'+') ≡ true

upper_digit-IsUrlSafe : (n : ℕ) → n < 16 → IsUrlSafe (Hex.digit true n)
unfolding is_plain
upper_digit-IsUrlSafe n h = ground (arith, digit_upper n h)

encode_char-IsUrlSafe :
    (c : ℕ)
    → IsByte c
    → All IsUrlSafe (encode_char c) × (1 ≤ length (encode_char c)) × (length (encode_char c) ≤ 3)
unfolding encode_char
encode_char-IsUrlSafe c h = elim (Bool-cases (is_plain c)) [
  | inl plain ↦ rw plain ((rw plain refl, tt), omega arith, omega arith)
  | inr other ↦ elim (Bool-cases (c == b' ')) [
    | inl blank ↦ rw (other, blank) ((unfold is_plain in refl, tt), omega arith, omega arith)
    | inr special ↦
        rw (other, special, encode_byte c h true)
          (
            (
              unfold is_plain in refl,
              (
                upper_digit-IsUrlSafe (c / 16) (omega arith),
                (upper_digit-IsUrlSafe (c % 16) (omega arith), tt),
              ),
            ),
            omega arith,
            omega arith,
          )
  ]
]

-- The encoding holds only characters that are safe in a URL, and the source's length to three
-- times that, which is what the caller sets aside.
pub encode-IsUrlSafe :
    (src : List ℕ)
    → All IsByte src
    → All IsUrlSafe (encode src)
      × (length src ≤ length (encode src))
      × (length (encode src) ≤ length src * 3)
unfolding encode
encode-IsUrlSafe [] h = (tt, omega arith, omega arith)
encode-IsUrlSafe (c ∷ src) (hc, h) =
    let (s, lo, hi) = encode_char-IsUrlSafe c hc in
    let (t, lo', hi') = encode-IsUrlSafe src h in
    let n = length-append (encode_char c) (encode src) in
    (All-append IsUrlSafe _ _ s t, omega arith, omega arith)
