-- ===== src/Encoding/Base64.antt =====
-- source/base64.cpp. `size_t` has 64 bits; `char` is signed, as on x86, so that a character above
-- 127 passes the test `<= 'z'` and indexes the table with its unsigned value.
pub mod Sextets
pub mod Rfc4648
pub mod RoundTrip
pub mod Bounds
use ez.Base.{
  ◌+◌, ◌-◌, ◌*◌, ◌/◌, ◌%◌, ◌||◌, ◌∷◌, ◌++◌, ◌==◌, ◌<<<◌, ◌>>>◌, ◌>>=◌, if◌then◌else◌, ℕ, zero, suc,
  bit_and, List, [], ltb, leb, length, get_elem?, get_or, set, u8, u64, Outcome, checked, ok,
}

-- The 64 characters "A..Za..z0..9+/".
abbrev to_base64 : List ℕ
to_base64 =
    65 ∷ 66 ∷ 67 ∷ 68 ∷ 69 ∷ 70 ∷ 71 ∷ 72 ∷ 73 ∷ 74 ∷ 75 ∷ 76 ∷ 77 ∷ 78 ∷ 79 ∷ 80 ∷ 81 ∷ 82 ∷ 83
    ∷ 84 ∷ 85 ∷ 86 ∷ 87 ∷ 88 ∷ 89 ∷ 90 ∷ 97 ∷ 98 ∷ 99 ∷ 100 ∷ 101 ∷ 102 ∷ 103 ∷ 104 ∷ 105 ∷ 106
    ∷ 107 ∷ 108 ∷ 109 ∷ 110 ∷ 111 ∷ 112 ∷ 113 ∷ 114 ∷ 115 ∷ 116 ∷ 117 ∷ 118 ∷ 119 ∷ 120 ∷ 121 ∷ 122
    ∷ 48 ∷ 49 ∷ 50 ∷ 51 ∷ 52 ∷ 53 ∷ 54 ∷ 55 ∷ 56 ∷ 57 ∷ 43 ∷ 47 ∷ []

-- `to_base64[index]`
pub letter : ℕ → ℕ
letter index = get_or to_base64 index 0

abbrev from_base64 : List ℕ
from_base64 =
    255 ∷ 255 ∷ 255 ∷ 255 ∷ 255 ∷ 255 ∷ 255 ∷ 255 ∷ 255 ∷ 255 ∷ 255 ∷ 255 ∷ 255 ∷ 255 ∷ 255 ∷ 255
    ∷ 255 ∷ 255 ∷ 255 ∷ 255 ∷ 255 ∷ 255 ∷ 255 ∷ 255 ∷ 255 ∷ 255 ∷ 255 ∷ 255 ∷ 255 ∷ 255 ∷ 255 ∷ 255
    ∷ 255 ∷ 255 ∷ 255 ∷ 255 ∷ 255 ∷ 255 ∷ 255 ∷ 255 ∷ 255 ∷ 255 ∷ 255 ∷ 62 ∷ 255 ∷ 62 ∷ 255 ∷ 63
    ∷ 52 ∷ 53 ∷ 54 ∷ 55 ∷ 56 ∷ 57 ∷ 58 ∷ 59 ∷ 60 ∷ 61 ∷ 255 ∷ 255 ∷ 0 ∷ 255 ∷ 255 ∷ 255 ∷ 255 ∷ 0
    ∷ 1 ∷ 2 ∷ 3 ∷ 4 ∷ 5 ∷ 6 ∷ 7 ∷ 8 ∷ 9 ∷ 10 ∷ 11 ∷ 12 ∷ 13 ∷ 14 ∷ 15 ∷ 16 ∷ 17 ∷ 18 ∷ 19 ∷ 20 ∷ 21
    ∷ 22 ∷ 23 ∷ 24 ∷ 25 ∷ 255 ∷ 255 ∷ 255 ∷ 255 ∷ 63 ∷ 255 ∷ 26 ∷ 27 ∷ 28 ∷ 29 ∷ 30 ∷ 31 ∷ 32 ∷ 33
    ∷ 34 ∷ 35 ∷ 36 ∷ 37 ∷ 38 ∷ 39 ∷ 40 ∷ 41 ∷ 42 ∷ 43 ∷ 44 ∷ 45 ∷ 46 ∷ 47 ∷ 48 ∷ 49 ∷ 50 ∷ 51 ∷ 255
    ∷ 255 ∷ 255 ∷ 255 ∷ 255 ∷ []

-- `while ((size % k) != 0) { ++size; ++missing; }`, on fuel.
pub round_up : ℕ → ℕ → ℕ → ℕ → ℕ × ℕ
round_up k zero size missing = (size, missing)
round_up k (suc fuel) size missing =
    let more = round_up k fuel (u64 (size + 1)) (missing + 1) in
    if size % k == 0 then (size, missing) else more

-- Three rounds of the loop are enough for a multiple of 3, and four for one of 4.
pub encoded_size : ℕ → ℕ
encoded_size src_size = u64 (4 * (round_up 3 3 src_size 0).0) / 3

pub decoded_size : ℕ → ℕ
decoded_size src_size = u64 (3 * (round_up 4 4 src_size 0).0) / 4

-- `(index < _src_size) ? _src[index] : 0`
pub byte_at : List ℕ → ℕ → ℕ
byte_at src index = if ltb index (length src) then get_or src index 0 else 0

-- The four characters for three bytes; the sextets are below 64, so no read is out of range.
pub quad : ℕ → ℕ → ℕ → List ℕ
quad b3_0 b3_1 b3_2 =
    let b4_0 = u8 (bit_and b3_0 0xfc >>> 2) in
    let b4_1 = u8 ((bit_and b3_0 0x03 <<< 4) + (bit_and b3_1 0xf0 >>> 4)) in
    let b4_2 = u8 ((bit_and b3_1 0x0f <<< 2) + (bit_and b3_2 0xc0 >>> 6)) in
    let b4_3 = u8 (bit_and b3_2 0x3f <<< 0) in
    letter b4_0 ∷ letter b4_1 ∷ letter b4_2 ∷ letter b4_3 ∷ []

-- The loop at group `i`, with `left` groups to go.
pub encode_loop : ℕ → ℕ → List ℕ → List ℕ
encode_loop zero i src = []
encode_loop (suc left) i src =
    let index = i * 3 in
    quad (byte_at src (index + 0)) (byte_at src (index + 1)) (byte_at src (index + 2))
    ++ encode_loop left (i + 1) src

-- `for (i = 0; i < missing; ++i) _result[ret_size - i - 1] = '=';`
pub set_padding : ℕ → ℕ → ℕ → List ℕ → List ℕ
set_padding zero i ret_size result = result
set_padding (suc left) i ret_size result =
    set_padding left (i + 1) ret_size (set result (ret_size - i - 1) b'=')

-- The characters written from `_result` on.
pub encode : List ℕ → List ℕ
encode src =
    let (size, missing) = round_up 3 3 (length src) 0 in
    let ret_size = u64 (4 * size) / 3 in
    set_padding missing 0 ret_size (encode_loop (ret_size / 4) 0 src)

-- The source throws nothing here.
abbrev pub Result : Type 0 → Type 0
Result A = Outcome ⊥ A

-- `(c <= 'z') ? from_base64[(uint8_t) c] : 0xff` on a signed `char`.
pub sextet : ℕ → Result ℕ
sextet c = if leb c b'z' || leb 128 c then checked (get_elem? from_base64 c) else ok 0xff

-- `b4_0` reads `_src[i]` unguarded, the others only below `N`.
pub sextet_at : List ℕ → ℕ → Result ℕ
sextet_at src j = do c ← checked (get_elem? src j); sextet c

pub guarded_sextet_at : List ℕ → ℕ → Result ℕ
guarded_sextet_at src j = if ltb j (length src) then sextet_at src j else ok 0xff

-- The bytes that one group writes.
pub triple : ℕ → ℕ → ℕ → ℕ → List ℕ
triple b4_0 b4_1 b4_2 b4_3 =
    let b3_0 = u8 ((bit_and b4_0 0x3f <<< 2) + (bit_and b4_1 0x30 >>> 4)) in
    let b3_1 = u8 ((bit_and b4_1 0x0f <<< 4) + (bit_and b4_2 0x3c >>> 2)) in
    let b3_2 = u8 ((bit_and b4_2 0x03 <<< 6) + (bit_and b4_3 0x3f >>> 0)) in
    (if b4_1 == 0xff then [] else b3_0 ∷ [])
    ++ ((if b4_2 == 0xff then [] else b3_1 ∷ []) ++ (if b4_3 == 0xff then [] else b3_2 ∷ []))

-- The loop at index `i`, with `left` groups to go.
pub decode_loop : ℕ → ℕ → List ℕ → Result (List ℕ)
decode_loop zero i src = ok []
decode_loop (suc left) i src = do
  b4_0 ← sextet_at src (i + 0)
  b4_1 ← guarded_sextet_at src (i + 1)
  b4_2 ← guarded_sextet_at src (i + 2)
  b4_3 ← guarded_sextet_at src (i + 3)
  rest ← decode_loop left (i + 4) src
  ok (triple b4_0 b4_1 b4_2 b4_3 ++ rest)

-- `decode(std::string_view)`: the bytes written, cut to their number.
pub decode : List ℕ → Result (List ℕ)
decode src = decode_loop ((round_up 4 4 (length src) 0).0 / 4) 0 src
