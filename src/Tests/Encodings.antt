-- ===== src/Tests/Encodings.antt =====
-- source/hex.cpp, source/base64.cpp and source/url.cpp at concrete inputs.
use ez.Base.{◌≤◌, ◌≡◌, ◌⊎◌, ◌∷◌, ℕ, true, List, [], arith, length, All, ok, fault}
use ez.Encoding.Hex
use ez.Encoding.Base64
use ez.Encoding.Url
use ez.Encoding.Hex.RoundTrip.{decode-encode_hex}
use ez.Encoding.Base64.RoundTrip.{decode-encode_base64}
use ez.Encoding.Base64.Rfc4648.{rfc4648, encode-rfc4648}
use ez.Encoding.Base64.Bounds.{IsAscii, decode_iff_IsAscii}
use ez.Encoding.Url.RoundTrip.{decode-encode_url}
use ez.Encoding.Url.Bounds.{Complete, decode_iff_Complete}

abbrev sample : List ℕ
sample = 0 ∷ 77 ∷ 171 ∷ 255 ∷ []

decode-encode_hex_example : Hex.decode (Hex.encode sample true) ≡ ok sample
decode-encode_hex_example = decode-encode_hex sample true (omega arith)

abbrev one_digit : List ℕ
one_digit = b'a' ∷ []

decode-encode_base64_example : Base64.decode (Base64.encode sample) ≡ ok sample
decode-encode_base64_example = decode-encode_base64 sample (omega arith) (omega arith)

encode-rfc4648_example : Base64.encode sample ≡ rfc4648 sample
encode-rfc4648_example = encode-rfc4648 sample (omega arith) (omega arith)

decode_iff_IsAscii_example :
    (All IsAscii (b'T' ∷ 200 ∷ [])
      × ((v : List ℕ) × (Base64.decode (b'T' ∷ 200 ∷ []) ≡ ok v)
          × (length v ≤ Base64.decoded_size 2)))
    ⊎ ((¬ All IsAscii (b'T' ∷ 200 ∷ [])) × (Base64.decode (b'T' ∷ 200 ∷ []) ≡ fault))
decode_iff_IsAscii_example = decode_iff_IsAscii (b'T' ∷ 200 ∷ []) (omega arith)

decode-encode_url_example : Url.decode (Url.encode sample) ≡ ok sample
decode-encode_url_example = decode-encode_url sample (omega arith)

abbrev cut_short : List ℕ
cut_short = b'a' ∷ b'%' ∷ b'4' ∷ []

decode_iff_Complete_example :
    (Complete cut_short × ((v : List ℕ) × (Url.decode cut_short ≡ ok v) × (length v ≤ 3)))
    ⊎ ((¬ Complete cut_short) × (Url.decode cut_short ≡ fault))
decode_iff_Complete_example = decode_iff_Complete cut_short
