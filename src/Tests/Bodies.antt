-- ===== src/Tests/Bodies.antt =====
-- source/http.cpp: bodies that come in pieces.
use ez.Base.{◌∷◌, ◌++◌, if◌then◌else◌, ℕ, true, List, [], length, same_bytes, replicate}
use ez.Buffer.{Buffer}
use ez.Http.{Impl, waiting_body}
use ez.Http.Text
use ez.Http.Text.{codes, Headers, from_chars, request_text, response_text}
use ez.Http.Receive.{Parser, Parsed, parsed, partial_}
use ez.Http.RoundTrip.{head_text, with_size}
use ez.Tests.Exchange.{host, parser, object}

abbrev filling : Impl
filling = record object {
  state = waiting_body;
  method = codes "PUT";
  path = codes "/x";
  body_size = 5;
  new_body_buffer = true;
  body = record { mem = 9 ∷ 8 ∷ 0 ∷ 0 ∷ 0 ∷ []; size = 5; orig_size = 5; position = 2 };
}

-- A body of 300 bytes, of which two come with the headers.
abbrev large_head : List ℕ
large_head = head_text (codes "PUT") (codes "/x") (with_size host 300)

abbrev large_request : Parsed (List ℕ × List ℕ)
large_request = parsed (length large_head) (codes "PUT", codes "/x") (with_size host 300)

abbrev large_parser : Parser
large_parser = record parser {
  parse_request = λ bytes seen.
      if same_bytes bytes (large_head ++ (1 ∷ 2 ∷ [])) then large_request else partial_;
}

abbrev rest_bytes : List ℕ
rest_bytes = replicate 298 7
