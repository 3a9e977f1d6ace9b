-- ===== src/Tests/Exchange.antt =====
-- What the tests of source/http.cpp share: a channel that brings pieces, a parser that knows the texts
-- that come up, and an object.
use ez.Base.{
  ap, ◌≤◌, ◌≡◌, ◌∷◌, ◌++◌, if◌then◌else◌, ℕ, refl, Bool, false, true, List, [], arith, leb, length,
  same_bytes, same_bytes_refl, same_bytes-eq, length-append,
}
use ez.Buffer
use ez.Buffer.{Buffer}
use ez.Buffer.Area.{IsValid, make-IsValid}
use ez.Channel.{Channel, Received, got, idle, took}
use ez.Http.{Impl, waiting_header, new_decoder}
use ez.Http.Text
use ez.Http.Text.{
  codes, Headers, content_length, from_chars, to_string, request_text, response_text,
}
use ez.Http.Receive.{Parser, Parsed, parsed, partial_, malformed, request_side, response_side}
use ez.Http.Ends.{IsReading}
use ez.Http.Safety.{IsBounded}
use ez.Http.Whole
use ez.Http.Whole.{body_of}
use ez.Http.Requests.{IsFresh}
use ez.Http.RoundTrip.{head_text, with_size}

-- A channel that brings one piece at each call, where there is room for it.
abbrev piece : List (List ℕ) → ℕ → ℕ → Received × List (List ℕ)
piece [] size desired = (idle, [])
piece (p ∷ ps) size desired = if leb (length p) size then (got p, ps) else (idle, p ∷ ps)

abbrev pub pieces : Channel
pieces = record { State = List (List ℕ); send = λ s bytes. (took 0, s); recv = piece }

abbrev count : Received → ℕ
count (got bytes) = length bytes
count _ = 0

piece_fits :
    (s t : List (List ℕ)) (size desired : ℕ) (bytes : List ℕ)
    → piece s size desired ≡ (got bytes, t)
    → length bytes ≤ size
piece_fits [] t size desired bytes e = cc
piece_fits (p ∷ ps) t size desired bytes e = go (leb (length p) size) refl e
  where
    go :
        (b : Bool)
        → leb (length p) size ≡ b
        → ◌≡◌ {A = Received × List (List ℕ)}
            (if b then (got p, ps) else (idle, p ∷ ps))
            (got bytes, t)
        → length bytes ≤ size
    go true f e =
        let same : length p ≡ length bytes = ap (λ x. count x.0) e in ground (arith, f, same)
    go false f e = cc

pub pieces-IsBounded : IsBounded pieces
pieces-IsBounded = record { fits = piece_fits }

abbrev pub body_bytes : List ℕ
body_bytes = 1 ∷ 2 ∷ 3 ∷ []

abbrev pub host : Headers
host = (codes "Host", codes "a") ∷ []

abbrev pub head_bytes : List ℕ
head_bytes = head_text (codes "PUT") (codes "/x") (with_size host 3)

abbrev pub status_bytes : List ℕ
status_bytes = codes "HTTP/1.1 200 OK" ++ (13 ∷ 10 ∷ 13 ∷ 10 ∷ [])

abbrev known_request : Parsed (List ℕ × List ℕ)
known_request = parsed (length head_bytes) (codes "PUT", codes "/x") (with_size host 3)

-- It knows one request and one response.
abbrev pub parser : Parser
parser = record {
  parse_request =
      λ bytes seen. if same_bytes bytes (head_bytes ++ body_bytes) then known_request else partial_;
  parse_response = λ bytes seen.
      if same_bytes bytes (status_bytes ++ body_bytes)
      then parsed (length status_bytes) (200, codes "OK") (with_size [] 3)
      else partial_;
  decode_chunked = λ d bytes. record { chunk = malformed; bytes = bytes; size = 0; decoder = d };
}

abbrev pub object : Impl
object = record {
  state = waiting_header;
  headers = [];
  status = 0;
  body_size = 0;
  header_size = 0;
  method = [];
  path = [];
  message = [];
  new_body_buffer = false;
  chunked = false;
  decoder = new_decoder;
  buffer = Buffer.make 200;
  body = Buffer.empty;
  send_buffer = Buffer.empty;
}

pub three : Buffer.remaining (Buffer.of_bytes body_bytes) ≡ 3
unfolding Buffer.of_bytes Buffer.remaining
three = refl

pub text_size : length (request_text (codes "PUT") (codes "/x") host 3) ≤ 60
unfolding request_text Text.request_headers Text.header_line Text.has Text.length_line
    Text.digits_of same_bytes
text_size = omega arith

abbrev returned : {A : Type 0} → Parsed A → ℕ
returned (parsed ret start hs) = ret
returned _ = 0

-- What it returns is part of what it was given.
pub within :
    {A : Type 0} (known bytes : List ℕ) (size ret : ℕ) (start start' : A) (hs hs' : Headers)
    → size ≤ length known
    → (if same_bytes bytes known then parsed size start hs else partial_) ≡ parsed ret start' hs'
    → ret ≤ length bytes
within {A} known bytes size ret start start' hs hs' h e = go (same_bytes bytes known) refl e
  where
    go :
        (b : Bool)
        → same_bytes bytes known ≡ b
        → ◌≡◌ {A = Parsed A} (if b then parsed size start hs else partial_) (parsed ret start' hs')
        → ret ≤ length bytes
    go true f e = omega (arith, ap returned e, ap length (same_bytes-eq bytes known f))
    go false f e = cc

pub request_side-IsReading : IsReading (request_side parser)
request_side-IsReading = record {
  within = λ bytes seen ret start hs e.
      within (head_bytes ++ body_bytes) bytes (length head_bytes) ret (codes "PUT", codes "/x")
        start (with_size host 3) hs (omega (arith, length-append head_bytes body_bytes)) e;
  buffer_kept = λ start m. refl;
  header_size_kept = λ start m. refl;
}

pub response_side-IsReading : IsReading (response_side parser)
response_side-IsReading = record {
  within = λ bytes seen ret start hs e.
      within (status_bytes ++ body_bytes) bytes (length status_bytes) ret (200, codes "OK") start
        (with_size [] 3) hs (omega arith) e;
  buffer_kept = λ start m. refl;
  header_size_kept = λ start m. refl;
}

pub object_buffer : IsValid object.buffer
object_buffer = make-IsValid 200 (omega arith)

pub sizes :
    (object.buffer.size ≡ 200)
    × (object.buffer.position ≡ 0)
    × (Buffer.remaining object.buffer ≡ 200)
unfolding Buffer.make Buffer.remaining
sizes = (refl, refl, refl)

pub object-IsFresh : IsFresh object
object-IsFresh = record {
  state = refl;
  headers = refl;
  valid = object_buffer;
  start = sizes.1;
  small = omega (arith, sizes);
}

pub one_piece :
    (p : List ℕ) (ps : List (List ℕ)) (size : ℕ)
    → length p ≤ size
    → piece (p ∷ ps) size 0 ≡ (got p, ps)
one_piece p ps size h = let e : leb (length p) size ≡ true = ground arith in rw e refl

pub brought :
    (bytes : List ℕ)
    → length bytes ≤ 200
    → piece (bytes ∷ []) (Buffer.remaining object.buffer) 0 ≡ (got bytes, [])
brought bytes h = one_piece bytes [] _ (omega (arith, sizes))

pub request_read :
    parser.parse_request (head_bytes ++ body_bytes) 0
    ≡ parsed (length head_bytes) (codes "PUT", codes "/x") (with_size host 3)
request_read =
    ap (λ b. if b then known_request else partial_) (same_bytes_refl (head_bytes ++ body_bytes))

pub head_size : (1 ≤ length head_bytes) × (length head_bytes ≤ 60)
unfolding Text.response_headers Text.header_line Text.digits_of
head_size = (omega arith, omega arith)

pub host-IsPlain : Whole.IsPlain (codes "Host", codes "a")
unfolding Text.isequal Text.tolower same_bytes
host-IsPlain = (refl, refl)
