-- ===== src/Encoding/Hex.antt =====
-- source/hex.cpp. Bytes and characters are numbers below 256. A C++ `char` above 127 is negative
-- where `char` is signed; it fails every range test of `decode` either way.
pub mod Digits
pub mod RoundTrip
use ez.Base.{
  ◌+◌, ◌-◌, ◌*◌, ◌/◌, ◌%◌, ◌∷◌, ◌==◌, ◌<<<◌, ◌>>>◌, ◌>>=◌, if◌then◌else◌, ℕ, bit_and, bit_or, Bool,
  List, [], between, length, get_or, replicate, u8, Outcome, ok, throws, fault,
}

-- "0123456789abcdef" and "0123456789ABCDEF".
abbrev hex : List ℕ
hex = 48 ∷ 49 ∷ 50 ∷ 51 ∷ 52 ∷ 53 ∷ 54 ∷ 55 ∷ 56 ∷ 57 ∷ 97 ∷ 98 ∷ 99 ∷ 100 ∷ 101 ∷ 102 ∷ []

abbrev hex_up : List ℕ
hex_up = 48 ∷ 49 ∷ 50 ∷ 51 ∷ 52 ∷ 53 ∷ 54 ∷ 55 ∷ 56 ∷ 57 ∷ 65 ∷ 66 ∷ 67 ∷ 68 ∷ 69 ∷ 70 ∷ []

-- The index is a masked nibble, so it is never out of range.
pub digit : Bool → ℕ → ℕ
digit upper n = if upper then get_or hex_up n 0 else get_or hex n 0

pub encoded_size : ℕ → ℕ
encoded_size src_size = src_size * 2

-- The characters written from `_result` on.
pub encode : List ℕ → Bool → List ℕ
encode [] upper = []
encode (d ∷ src) upper =
    digit upper (bit_and d 0xf0 >>> 4) ∷ digit upper (bit_and d 0x0f) ∷ encode src upper

pub data Error : Type 0 where
  invalid_source : Error

-- What `*bfr` holds after the assignments for `s1`, and then for `s2`.
pub set_high : ℕ → ℕ → ℕ
set_high s1 old =
    if between b'0' b'9' s1
    then u8 ((s1 - b'0') <<< 4)
    else if between b'a' b'f' s1
    then u8 ((s1 - b'a' + 10) <<< 4)
    else if between b'A' b'F' s1
    then u8 ((s1 - b'A' + 10) <<< 4)
    else old

pub set_low : ℕ → ℕ → ℕ
set_low s2 old =
    if between b'0' b'9' s2
    then bit_or old (s2 - b'0')
    else if between b'a' b'f' s2
    then bit_or old (s2 - b'a' + 10)
    else if between b'A' b'F' s2
    then bit_or old (s2 - b'A' + 10)
    else old

-- The loop over the source, with what `_result` holds from the current `bfr` on.
pub decode_loop : List ℕ → List ℕ → Outcome Error (List ℕ)
decode_loop [] out = ok out
decode_loop (s1 ∷ []) out = fault
decode_loop (s1 ∷ s2 ∷ src) [] = fault
decode_loop (s1 ∷ s2 ∷ src) (old ∷ out) = do
  rest ← decode_loop src out
  ok (set_low s2 (set_high s1 old) ∷ rest)

-- `decode(const char*, size_t, uint8_t*)`: the memory at `_result` before and after.
pub decode_into : List ℕ → List ℕ → Outcome Error (List ℕ)
decode_into src out = if length src % 2 == 0 then decode_loop src out else throws invalid_source

-- `decode(std::string_view)`: the vector starts as zeros.
pub decode : List ℕ → Outcome Error (List ℕ)
decode src =
    if length src % 2 == 0
    then decode_into src (replicate (length src / 2) 0)
    else throws invalid_source
