-- ===== src/Tests/Requests.antt =====
-- source/http.cpp: messages that are sent, and that come in one block.
use ez.Base.{
  ap, ◌≤◌, ◌≡◌, ◌≢◌, ◌∷◌, ◌++◌, if◌then◌else◌, ℕ, some, suc, List, [], arith, length,
  same_bytes_refl, length-append, ok, throws, fault,
}
use ez.Buffer
use ez.Buffer.{Buffer}
use ez.Buffer.Area.{of_bytes-IsValid}
use ez.Buffer.Laws.{contents}
use ez.Tests.Pipe.{pipe, pipe_stream}
use ez.Http.{stuck, send_request, send_response}
use ez.Http.Text
use ez.Http.Text.{
  codes, Headers, content_length, from_chars, to_string, request_text, response_text,
}
use ez.Http.Receive.{parsed, partial_, request_side}
use ez.Http.Loops.{head_loop, recv_request, recv_response}
use ez.Http.Ends.{head_loop-ends}
use ez.Http.Digits.{from_chars-to_string}
use ez.Http.Delivery.{OnTheWire, again, send_request-OnTheWire, send_response-OnTheWire}
use ez.Http.Whole.{body_of}
use ez.Http.Requests.{recv_response-whole}
use ez.Http.RoundTrip.{with_size, size_read, recv_request-sent}
use ez.Tests.Exchange.{
  pieces, pieces-IsBounded, body_bytes, host, head_bytes, status_bytes, parser, object, three,
  text_size, request_side-IsReading, response_side-IsReading, object_buffer, sizes, object-IsFresh,
  brought, request_read, host-IsPlain,
}

answer_size : length (response_text 200 (codes "OK") [] 3) ≤ 60
unfolding response_text Text.response_headers Text.length_line Text.digits_of
answer_size = omega arith

send_request-OnTheWire_example :
    OnTheWire
      (pipe 7)
      (pipe_stream 7)
      []
      (request_text (codes "PUT") (codes "/x") host (Buffer.remaining (Buffer.of_bytes body_bytes))
        ++ contents (Buffer.of_bytes body_bytes))
      (again
        (pipe 7)
        (pipe_stream 7)
        4
        (send_request
          (pipe 7)
          (codes "PUT")
          (codes "/x")
          host
          (Buffer.of_bytes body_bytes)
          (object, ([], []))).1)
send_request-OnTheWire_example =
    send_request-OnTheWire (pipe 7) (pipe_stream 7) (codes "PUT") (codes "/x") host
      (Buffer.of_bytes body_bytes) object ([], []) 4 (of_bytes-IsValid body_bytes (omega arith))
      (rw three (omega (arith, text_size)))

send_response-OnTheWire_example :
    OnTheWire
      (pipe 7)
      (pipe_stream 7)
      []
      (response_text 200 (codes "OK") [] (Buffer.remaining (Buffer.of_bytes body_bytes))
        ++ contents (Buffer.of_bytes body_bytes))
      (again
        (pipe 7)
        (pipe_stream 7)
        4
        (send_response
          (pipe 7)
          200
          (codes "OK")
          []
          (Buffer.of_bytes body_bytes)
          (object, ([], []))).1)
send_response-OnTheWire_example =
    send_response-OnTheWire (pipe 7) (pipe_stream 7) 200 (codes "OK") []
      (Buffer.of_bytes body_bytes) object ([], []) 4 (of_bytes-IsValid body_bytes (omega arith))
      (rw three (omega (arith, answer_size)))

head_loop-ends_example :
    let x =
      head_loop pieces
        (request_side parser)
        (suc object.buffer.size)
        0
        (object, (head_bytes ∷ body_bytes ∷ [])) in
    (x.0 ≢ throws stuck) × (x.0 ≢ fault)
head_loop-ends_example =
    head_loop-ends pieces (request_side parser) request_side-IsReading object
      (head_bytes ∷ body_bytes ∷ []) pieces-IsBounded object_buffer (omega (arith, sizes))

recv_response-whole_example :
    ((recv_response pieces parser 5 (object, ((status_bytes ++ body_bytes) ∷ []))).0
      ≡ ok (
          some (record {
            status = 200;
            message = codes "OK";
            headers = with_size [] 3;
            body = body_of object.buffer status_bytes body_bytes;
          })))
    × (contents (body_of object.buffer status_bytes body_bytes) ≡ body_bytes)
recv_response-whole_example =
    recv_response-whole pieces parser 5 object ((status_bytes ++ body_bytes) ∷ []) [] object-IsFresh
      status_bytes body_bytes [] [] content_length (to_string 3) (omega (arith, sizes))
      (omega arith) (omega arith) (brought _ (omega arith)) tt tt size_read
      (from_chars-to_string 3 (omega arith)) 200 (codes "OK") response_side-IsReading
      (ap
        (λ b.
          if b then parsed (length status_bytes) (200, codes "OK") (with_size [] 3) else partial_)
        (same_bytes_refl (status_bytes ++ body_bytes)))

abbrev text_bytes : List ℕ
text_bytes = request_text (codes "PUT") (codes "/x") host 3

recv_request-sent_example :
    ((recv_request pieces parser 5 (object, ((text_bytes ++ body_bytes) ∷ []))).0
      ≡ ok (
          some (record {
            method = codes "PUT";
            path = codes "/x";
            headers = with_size host 3;
            body = body_of object.buffer text_bytes body_bytes;
          })))
    × (contents (body_of object.buffer text_bytes body_bytes) ≡ body_bytes)
unfolding Buffer.of_bytes Buffer.remaining
recv_request-sent_example =
    recv_request-sent pieces parser 5 object ((text_bytes ++ body_bytes) ∷ []) [] (codes "PUT")
      (codes "/x") host (Buffer.of_bytes body_bytes) object-IsFresh request_side-IsReading
      (of_bytes-IsValid body_bytes (omega arith)) (host-IsPlain, tt) ((λ e. cc), tt) (omega arith)
      (omega arith) (omega (arith, text_size, sizes))
      (brought (text_bytes ++ body_bytes)
        (omega (arith, text_size, length-append text_bytes body_bytes)))
      request_read
