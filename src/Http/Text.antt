-- ===== src/Http/Text.antt =====
-- The text of source/http.cpp: strings as lists of character codes, the start lines and headers that
-- it sends, and the standard functions that it reads a header with.
use Prim.Native.Char.{code}
use Prim.Native.String.{String}
use ez.Base.{
  ◌+◌, ◌-◌, ◌*◌, ◌/◌, ◌%◌, ◌^◌, ◌&&◌, ◌∷◌, ◌++◌, if◌then◌else◌, ℕ, zero, suc, Bool, true, false,
  not, Option, none, some, List, [], map, ltb, between, same_bytes,
}

abbrev pub codes : String → List ℕ
codes String.[] = []
codes (String.◌∷◌ c s) = code c ∷ codes s

-- `headers_t`, in the order in which it is gone through.
abbrev pub Headers : Type 0
Headers = List (List ℕ × List ℕ)

-- `std::to_string` of a number, on fuel; each step takes off a digit.
unfoldable pub digits_of : ℕ → ℕ → List ℕ
digits_of zero n = []
digits_of (suc fuel) n =
    if ltb n 10 then (48 + n) ∷ [] else digits_of fuel (n / 10) ++ ((48 + n % 10) ∷ [])

abbrev pub to_string : ℕ → List ℕ
to_string n = digits_of (suc n) n

-- `std::from_chars` for an `unsigned`: the digits in front, `none` where there is none or the number
-- is too large.
unfoldable pub digits_value : ℕ → List ℕ → ℕ
digits_value n [] = n
digits_value n (c ∷ cs) = if between 48 57 c then digits_value (n * 10 + (c - 48)) cs else n

unfoldable pub from_chars : List ℕ → Option ℕ
from_chars [] = none
from_chars (c ∷ cs) =
    let n = digits_value 0 (c ∷ cs) in if between 48 57 c && ltb n (2 ^ 32) then some n else none

-- `std::tolower`
unfoldable pub tolower : ℕ → ℕ
tolower c = if between 65 90 c then c + 32 else c

unfoldable pub isequal : List ℕ → List ℕ → Bool
isequal a b = same_bytes (map tolower a) (map tolower b)

abbrev pub crlf : List ℕ
crlf = 13 ∷ 10 ∷ []

abbrev pub content_length : List ℕ
content_length = codes "Content-Length"

unfoldable pub header_line : List ℕ × List ℕ → List ℕ
header_line (key, value) = key ++ (codes ": " ++ (value ++ crlf))

-- `if (value.empty()) continue;`
unfoldable pub request_headers : Headers → List ℕ
request_headers [] = []
request_headers ((key, []) ∷ hs) = request_headers hs
request_headers ((key, c ∷ cs) ∷ hs) = header_line (key, c ∷ cs) ++ request_headers hs

unfoldable pub response_headers : Headers → List ℕ
response_headers [] = []
response_headers (h ∷ hs) = header_line h ++ response_headers hs

-- `_hdrs.count(key)`, as whether it is zero.
unfoldable pub has : List ℕ → Headers → Bool
has key [] = false
has key ((k, v) ∷ hs) = if same_bytes key k then true else has key hs

unfoldable pub length_line : ℕ → List ℕ
length_line size = codes "Content-Length: " ++ (to_string size ++ crlf)

-- `_body.size() > 0 && !_hdrs.count("Content-Length")`
unfoldable pub request_text : List ℕ → List ℕ → Headers → ℕ → List ℕ
request_text method path hdrs size =
    let start = method ++ (codes " " ++ (path ++ (codes " HTTP/1.1" ++ crlf))) in
    let added = if ltb 0 size && not (has content_length hdrs) then length_line size else [] in
    start ++ (request_headers hdrs ++ (added ++ crlf))

-- The length is added whether or not the headers have it.
unfoldable pub response_text : ℕ → List ℕ → Headers → ℕ → List ℕ
response_text code message hdrs size =
    let start = codes "HTTP/1.1 " ++ (to_string code ++ (codes " " ++ (message ++ crlf))) in
    let added = if ltb 0 size then length_line size else [] in
    start ++ (response_headers hdrs ++ (added ++ crlf))
