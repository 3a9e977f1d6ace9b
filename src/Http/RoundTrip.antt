-- ===== src/Http/RoundTrip.antt =====
-- What `send_request` of source/http.cpp writes, `recv_request` returns.
use ez.Base.{
  ◌+◌, ◌^◌, ◌≤◌, ◌<◌, ◌≡◌, ◌≢◌, ◌∙◌, ◌&&◌, ◌∷◌, ◌++◌, ℕ, refl, sym, ap, not, some, true, false,
  List, [], arith, ltb, Bool-cases, inl, inr, length, All, same_bytes, same_bytes-eq, length-append,
  ok,
}
use mathlib.Core.List.{append-nil, append_assoc}
use mathlib.Core.Path.{subst}
use mathlib.Core.Bool.{false≢true}
use ez.Buffer
use ez.Buffer.{Buffer}
use ez.Buffer.Area.{IsValid, remaining_lem}
use ez.Buffer.Laws.{contents, length-contents}
use ez.Channel.{Channel, got}
use ez.Http.{Impl}
use ez.Http.Text.{
  codes, Headers, crlf, to_string, tolower, isequal, content_length, has, header_line, length_line,
  request_headers, response_headers, request_text,
}
use ez.Http.Digits.{from_chars-to_string}
use ez.Http.Receive.{Parser, parsed, request_side}
use ez.Http.Loops.{recv_request}
use ez.Http.Ends.{IsReading}
use ez.Http.Whole.{IsPlain, body_of}
use ez.Http.Requests.{IsFresh, recv_request-whole}

-- A request line and headers, each in a line of its own.
abbrev pub head_text : List ℕ → List ℕ → Headers → List ℕ
head_text method path hs =
    (method ++ (codes " " ++ (path ++ (codes " HTTP/1.1" ++ crlf))))
    ++ (response_headers hs ++ crlf)

abbrev pub HasValue : List ℕ × List ℕ → Type 0
HasValue (field, value) = value ≢ []

abbrev pub with_size : Headers → ℕ → Headers
with_size hdrs size = hdrs ++ ((content_length, to_string size) ∷ [])

none_plain : (hs : Headers) → All IsPlain hs → has content_length hs ≡ false
unfolding has isequal tolower same_bytes
none_plain [] h = refl
none_plain ((field, value) ∷ hs) ((a, b), h) = elim (Bool-cases (same_bytes content_length field)) [
  | inr e ↦ rw e (none_plain hs h)
  | inl e ↦ absurd (
      false≢true
        (sym a ∙ ap (λ f. isequal f content_length) (sym (same_bytes-eq content_length field e))))
]

lines_lem :
    (hs : Headers) (size : ℕ)
    → All HasValue hs
    → request_headers hs ++ (length_line size ++ crlf)
      ≡ response_headers (with_size hs size) ++ crlf
unfolding request_headers response_headers header_line length_line
lines_lem [] size h = ap (λ x. x ++ crlf) (sym (append-nil (length_line size)))
lines_lem ((k, []) ∷ hs) size (v, h) = absurd (v refl)
lines_lem ((k, c ∷ cs) ∷ hs) size (v, h) =
    let line = header_line (k, c ∷ cs) in
    append_assoc line (request_headers hs) (length_line size ++ crlf)
    ∙ ap (λ x. line ++ x) (lines_lem hs size h)
    ∙ sym (append_assoc line (response_headers (with_size hs size)) crlf)

-- The length of a body is written as one more header.
request_text-head :
    (method path : List ℕ) (hdrs : Headers) (size : ℕ)
    → All IsPlain hdrs
    → All HasValue hdrs
    → 1 ≤ size
    → request_text method path hdrs size ≡ head_text method path (with_size hdrs size)
unfolding request_text
request_text-head method path hdrs size plain valued h =
    let e : (ltb 0 size && not (has content_length hdrs)) ≡ true =
      ap (λ b. ltb 0 size && not b) (none_plain hdrs plain) ∙ ground arith in
    rw e (
      ap (λ x. (method ++ (codes " " ++ (path ++ (codes " HTTP/1.1" ++ crlf)))) ++ x)
        (lines_lem hdrs size valued))

pub size_read : isequal content_length content_length ≡ true
unfolding isequal tolower same_bytes
size_read = refl

-- A request with a body, whose headers have values and say nothing of the body, as `send_request`
-- writes it: where it comes in one block into a fresh object whose buffer has room for it, and the
-- parser reads the head that is written with these headers and the size, `recv_request` returns the
-- method, the path, the headers with the size behind them, and the body.
pub recv_request-sent :
    (ch : Channel) (p : Parser) (fuel : ℕ) (m : Impl) (s t : ch.State) (method path : List ℕ)
    (hdrs : Headers) (body : Buffer)
    → IsFresh m
    → IsReading (request_side p)
    → IsValid body
    → All IsPlain hdrs
    → All HasValue hdrs
    → 1 ≤ Buffer.remaining body
    → Buffer.remaining body < 2 ^ 32
    → let size = Buffer.remaining body in
      let text = request_text method path hdrs size in
      let head = head_text method path (with_size hdrs size) in
      length text + size ≤ m.buffer.size
      → ch.recv s (Buffer.remaining m.buffer) 0 ≡ (got (text ++ contents body), t)
      → p.parse_request (head ++ contents body) 0
        ≡ parsed (length head) (method, path) (with_size hdrs size)
      → ((recv_request ch p fuel (m, s)).0
          ≡ ok (
              some (record {
                method = method;
                path = path;
                headers = with_size hdrs size;
                body = body_of m.buffer text (contents body);
              })))
        × (contents (body_of m.buffer text (contents body)) ≡ contents body)
recv_request-sent ch p fuel m s t method path hdrs body v r vb plain valued some_ small fits comes
      reads =
    let size = Buffer.remaining body in
    let head = head_text method path (with_size hdrs size) in
    let same : request_text method path hdrs size ≡ head =
      request_text-head method path hdrs size plain valued some_ in
    let l : length (contents body) ≡ size = omega (arith, length-contents vb, remaining_lem vb) in
    subst
      (λ text.
        ((recv_request ch p fuel (m, s)).0
          ≡ ok (
              some (record {
                method = method;
                path = path;
                headers = with_size hdrs size;
                body = body_of m.buffer text (contents body);
              })))
        × (contents (body_of m.buffer text (contents body)) ≡ contents body))
      (sym same)
      (recv_request-whole ch p fuel m s t v head (contents body) hdrs [] content_length
        (to_string size) (omega (arith, l, ap length same))
        (omega (
          arith,
          length-append (method ++ (codes " " ++ (path ++ (codes " HTTP/1.1" ++ crlf))))
              (response_headers (with_size hdrs size) ++ crlf),
          length-append (response_headers (with_size hdrs size)) crlf,
        ))
        (omega (arith, l))
        (subst (λ text. ch.recv s (Buffer.remaining m.buffer) 0 ≡ (got (text ++ contents body), t))
          same comes)
        plain tt size_read (from_chars-to_string size small ∙ ap some (sym l)) method path r reads)
