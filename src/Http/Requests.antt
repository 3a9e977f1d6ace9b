-- ===== src/Http/Requests.antt =====
-- Requests and responses of source/http.cpp that come in one block, and those that the other end sent.
use ez.Base.{◌+◌, ◌^◌, ◌≤◌, ◌<◌, ◌≡◌, ◌∙◌, ◌∷◌, ◌++◌, ℕ, ap, some, true, List, [], length, All, ok}
use ez.Buffer
use ez.Buffer.{Buffer}
use ez.Buffer.Area.{IsValid}
use ez.Buffer.Laws.{contents}
use ez.Channel.{Channel, got}
use ez.Channel.Monad.{follow, gets}
use ez.Http.{Impl, waiting_header}
use ez.Http.Text.{Headers, from_chars, isequal, content_length}
use ez.Http.Receive.{Parser, parsed, request_side, response_side}
use ez.Http.Loops.{
  at_header, recv_in, on_next, recv_request, recv_response, as_request, as_response,
}
use ez.Http.Ends.{IsReading}
use ez.Http.Whole.{IsPlain, body_of, contents-body_of, head_loop-whole}

-- An object that waits for a message, with nothing left of an earlier one.
pub record IsFresh (m : Impl) : Type 0 where
  pub state : m.state ≡ waiting_header
  pub headers : m.headers ≡ []
  pub valid : IsValid m.buffer
  pub start : m.buffer.position ≡ 0
  pub small : m.buffer.size < 2 ^ 32

module _ (ch : Channel) (p : Parser) (fuel : ℕ) (m : Impl) (s t : ch.State) (v : IsFresh m)
    (head body : List ℕ) (before after : Headers) (field value : List ℕ)
    (fits : length head + length body ≤ m.buffer.size) (some_head : 1 ≤ length head)
    (some_body : 1 ≤ length body)
    (comes : ch.recv s (Buffer.remaining m.buffer) 0 ≡ (got (head ++ body), t))
    (plain_before : All IsPlain before) (plain_after : All IsPlain after)
    (sized : isequal field content_length ≡ true)
    (read : from_chars value ≡ some (length body)) where
  abbrev headers : Headers
  headers = before ++ ((field, value) ∷ after)

  -- A request that comes whole in one block into a fresh object, with one header that gives the size
  -- of its body: it is returned at once, with the parser's method, path and headers, and its body is
  -- what stands behind the headers.
  pub recv_request-whole :
      (method path : List ℕ)
      → IsReading (request_side p)
      → p.parse_request (head ++ body) 0 ≡ parsed (length head) (method, path) headers
      → ((recv_request ch p fuel (m, s)).0
          ≡ ok (
              some (record {
                method = method;
                path = path;
                headers = headers;
                body = body_of m.buffer head body;
              })))
        × (contents (body_of m.buffer head body) ≡ body)
  unfolding recv_request recv_in at_header on_next
  recv_request-whole method path r e = (
    ap
          (λ st.
            (follow (recv_in ch (request_side p) p fuel st (m, s))
              (λ b. gets (λ w. as_request w.0 b))).0)
          v.state
        ∙ ap
            (λ x.
              (follow (follow x (on_next ch (request_side p) p fuel))
                (λ b. gets (λ w. as_request w.0 b))).0)
            (head_loop-whole ch (request_side p) r m.buffer.size m s t head body (method, path)
              before after field value v.valid v.start v.small fits some_head some_body comes e
              plain_before plain_after sized read)
        ∙ ap
            (λ hs. ok (
              some (record {
                method = method;
                path = path;
                headers = hs ++ headers;
                body = body_of m.buffer head body;
              })))
            v.headers,
    contents-body_of m.buffer head body v.start,
  )

  -- The same of a response, with the parser's status and text.
  pub recv_response-whole :
      (status : ℕ) (text : List ℕ)
      → IsReading (response_side p)
      → p.parse_response (head ++ body) 0 ≡ parsed (length head) (status, text) headers
      → ((recv_response ch p fuel (m, s)).0
          ≡ ok (
              some (record {
                status = status;
                message = text;
                headers = headers;
                body = body_of m.buffer head body;
              })))
        × (contents (body_of m.buffer head body) ≡ body)
  unfolding recv_response recv_in at_header on_next
  recv_response-whole status text r e = (
    ap
          (λ st.
            (follow (recv_in ch (response_side p) p fuel st (m, s))
              (λ b. gets (λ w. as_response w.0 b))).0)
          v.state
        ∙ ap
            (λ x.
              (follow (follow x (on_next ch (response_side p) p fuel))
                (λ b. gets (λ w. as_response w.0 b))).0)
            (head_loop-whole ch (response_side p) r m.buffer.size m s t head body (status, text)
              before after field value v.valid v.start v.small fits some_head some_body comes e
              plain_before plain_after sized read)
        ∙ ap
            (λ hs. ok (
              some (record {
                status = status;
                message = text;
                headers = hs ++ headers;
                body = body_of m.buffer head body;
              })))
            v.headers,
    contents-body_of m.buffer head body v.start,
  )
