-- ===== src/Encoding/Url/Chars.antt =====
-- One character of source/url.cpp: what is written for it, and how it is read back.
use ez.Base.{
  ◌/◌, ◌%◌, ◌≡◌, ◌∙◌, ◌≢◌, ◌∷◌, ◌++◌, ◌==◌, ◌>>=◌, if◌then◌else◌, ℕ, refl, inl, inr, true, false,
  List, [], arith, Bool-cases, IsByte, ok,
}
use ez.Encoding.Hex
use ez.Encoding.Hex.{digit}
use ez.Encoding.Hex.Digits.{encode_byte, decode_pair, set_low-set_high-digit}
use ez.Encoding.Url.{is_plain, encode_char, decode}

pub plain_not_marked : (c : ℕ) → is_plain c ≡ true → (c ≢ b'%') × (c ≢ b'+')
unfolding is_plain
plain_not_marked c h = (λ e. cc (rw e at h), λ e. cc (rw e at h))

-- A character other than '%' is read alone.
pub decode_plain :
    (c : ℕ) (rest : List ℕ)
    → c ≢ b'%'
    → decode (c ∷ rest) ≡ (decode rest >>= λ r. ok ((if c == b'+' then b' ' else c) ∷ r))
unfolding decode
decode_plain c [] h = ground arith
decode_plain c (x ∷ []) h = let e : (c == b'%') ≡ false = ground arith in rw e refl
decode_plain c (x ∷ y ∷ rest) h = let e : (c == b'%') ≡ false = ground arith in rw e refl

-- An escape is two hexadecimal digits read over a zero.
pub decode_escape :
    (s1 s2 : ℕ) (rest : List ℕ)
    → decode (b'%' ∷ s1 ∷ s2 ∷ rest)
      ≡ (decode rest >>= λ r. ok (Hex.set_low s2 (Hex.set_high s1 0) ∷ r))
unfolding decode
decode_escape s1 s2 rest = rw (decode_pair s1 s2 0) refl

-- Whatever stands behind it, an encoded character is read back as itself.
pub decode-encode_char :
    (c : ℕ) (rest : List ℕ)
    → IsByte c
    → decode (encode_char c ++ rest) ≡ (decode rest >>= λ r. ok (c ∷ r))
unfolding encode_char
decode-encode_char c rest h = elim (Bool-cases (is_plain c)) [
  | inl plain ↦
      let (n, m) = plain_not_marked c plain in
      let e : (c == b'+') ≡ false = ground arith in rw plain (decode_plain c rest n ∙ rw e refl)
  | inr other ↦ elim (Bool-cases (c == b' ')) [
    | inl blank ↦
        let e : c ≡ b' ' = ground arith in
        rw (other, blank) (decode_plain b'+' rest (omega arith) ∙ rw e refl)
    | inr special ↦
        rw (other, special, encode_byte c h true)
          (decode_escape (digit true (c / 16)) (digit true (c % 16)) rest
            ∙ rw (set_low-set_high-digit true c h) refl)
  ]
]
