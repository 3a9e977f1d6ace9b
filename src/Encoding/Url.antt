-- ===== src/Encoding/Url.antt =====
-- source/url.cpp, over source/hex.cpp. Characters are numbers below 256; a `char` above 127, which
-- is negative, fails the tests of `encode` either way and is escaped by its byte.
pub mod Chars
pub mod RoundTrip
pub mod Bounds
use ez.Base.{
  ◌||◌, ◌∷◌, ◌++◌, ◌==◌, ◌>>=◌, if◌then◌else◌, ℕ, Bool, true, List, [], between, Outcome, ok, fault,
}
use ez.Encoding.Hex

-- `c` is written as it is.
pub is_plain : ℕ → Bool
is_plain c =
    between b'0' b'9' c
    || between b'a' b'z' c
    || between b'A' b'Z' c
    || c == b'-'
    || c == b'_'
    || c == b'.'
    || c == b'!'
    || c == b'~'
    || c == b'*'
    || c == 39
    || c == b'('
    || c == b')'

-- The characters that one character is written as.
pub encode_char : ℕ → List ℕ
encode_char c =
    if is_plain c then c ∷ [] else if c == b' ' then b'+' ∷ [] else b'%' ∷ Hex.encode (c ∷ []) true

pub encode : List ℕ → List ℕ
encode [] = []
encode (c ∷ src) = encode_char c ++ encode src

-- `hex::decode(data+i+1, 2, buf)` reads two characters, which must be there; `buf` holds a zero.
-- The result string is as long as the source, so the writes stay inside it.
pub decode : List ℕ → Outcome Hex.Error (List ℕ)
decode [] = ok []
decode (c ∷ []) = if c == b'%' then fault else ok ((if c == b'+' then b' ' else c) ∷ [])
decode (c ∷ s1 ∷ []) =
    if c == b'%'
    then fault
    else (do rest ← decode (s1 ∷ []); ok ((if c == b'+' then b' ' else c) ∷ rest))
decode (c ∷ s1 ∷ s2 ∷ src) =
    let escaped = decode src in
    let plain = decode (s1 ∷ s2 ∷ src) in
    if c == b'%'
    then (do out ← Hex.decode_into (s1 ∷ s2 ∷ []) (0 ∷ []); rest ← escaped; ok (out ++ rest))
    else (do rest ← plain; ok ((if c == b'+' then b' ' else c) ∷ rest))
