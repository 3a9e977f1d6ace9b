-- ===== src/Http/Delivery.antt =====
-- The senders of source/http.cpp over a byte stream: at every moment what was sent and what the send
-- buffer still holds make up the message.
use ez.Base.{
  ◌+◌, ◌^◌, ◌≤◌, ◌<◌, ◌≡◌, ◌∙◌, ◌≢◌, ◌⊎◌, ◌&&◌, ◌∷◌, ◌++◌, if◌then◌else◌, ℕ, not, zero, suc, refl,
  sym, ap, inl, inr, Bool, true, false, List, [], arith, ltb, length, length-append, u64, Outcome,
  ok, throws, fault,
}
use mathlib.Core.Bool.{false≢true}
use ez.Buffer
use ez.Buffer.{Buffer}
use ez.Buffer.Area.{IsValid, remaining_lem}
use ez.Buffer.Laws.{contents, read_all, length-contents}
use ez.Buffer.Fill.{filled, write-filled, make-filled, contents-filled, filled-IsValid}
use ez.Channel.{Channel, IsStream, transmit}
use ez.Channel.Transmit.{Delivers, transmit-Delivers}
use ez.Http.{
  Impl, sending_body, send_complete, Error, from_channel, World, flushed, flush, send_more, store,
  put, send_request, send_response,
}
use ez.Http.Text.{
  Headers, codes, to_string, crlf, content_length, has, length_line, request_headers,
  response_headers, request_text, response_text,
}

pos_length : (xs : List ℕ) → xs ≢ [] → 0 < length xs
pos_length [] h = absurd (h refl)
pos_length (x ∷ xs) h = omega arith

store-filled :
    (ch : Channel) (m : Impl) (s : ch.State) (n off : ℕ) (done bytes : List ℕ)
    → off ≡ length done
    → off + length bytes ≤ n
    → store ch off bytes (record m { send_buffer = filled n done }, s)
      ≡ (ok tt, (record m { send_buffer = filled n (done ++ bytes) }, s))
unfolding store
store-filled ch m s n off done bytes e h =
    rw e (rw (write-filled {E = Error} n done bytes (omega arith), store) refl)

-- The whole message is packed before anything is handed to the channel.
put-flush :
    (ch : Channel) (text : List ℕ) (body : Buffer) (m : Impl) (s : ch.State)
    → IsValid body
    → length text + Buffer.remaining body < 2 ^ 63
    → put ch text body (m, s)
      ≡ flush ch (
        record m {
          send_buffer = filled (length text + Buffer.remaining body) (text ++ contents body);
        },
        s,
      )
unfolding put
put-flush ch text body m s v small =
    let n = length text + Buffer.remaining body in
    let en : u64 n ≡ n = omega arith in
    let l : length (contents body) ≡ Buffer.remaining body =
      omega (arith, length-contents v, remaining_lem v) in
    rw (en, make-filled n)
      (rw (store-filled ch m s n 0 [] text refl (omega arith)) (
        rw (read_all {E = Error} v) (
          rw (store-filled ch m s n (length text) text (contents body) refl (omega (arith, l)))
            refl)))

-- A text that ends its lines is not empty.
ends : (start lines added : List ℕ) → 1 ≤ length (start ++ (lines ++ (added ++ crlf)))
ends start lines added = omega (
  arith,
  length-append start (lines ++ (added ++ crlf)),
  length-append lines (added ++ crlf),
  length-append added crlf,
)

request_some :
    (method path : List ℕ) (hdrs : Headers) (size : ℕ)
    → 1 ≤ length (request_text method path hdrs size)
unfolding request_text
request_some method path hdrs size =
    ends (method ++ (codes " " ++ (path ++ (codes " HTTP/1.1" ++ crlf)))) (request_headers hdrs)
      (if ltb 0 size && not (has content_length hdrs) then length_line size else [])

response_some :
    (code : ℕ) (message : List ℕ) (hdrs : Headers) (size : ℕ)
    → 1 ≤ length (response_text code message hdrs size)
unfolding response_text
response_some code message hdrs size =
    ends (codes "HTTP/1.1 " ++ (to_string code ++ (codes " " ++ (message ++ crlf))))
      (response_headers hdrs) (if ltb 0 size then length_line size else [])

module _ (ch : Channel) (st : IsStream ch) where
  -- `before` was on the wire when the message `bytes` was handed over.
  pub record OnTheWire (before bytes : List ℕ) (w : World ch) : Type 0 where
    pub valid : IsValid w.0.send_buffer
    pub delivered : st.sent w.1 ++ contents w.0.send_buffer ≡ before ++ bytes
    pub status :
        ((w.0.state ≡ send_complete) × (contents w.0.send_buffer ≡ []))
        ⊎ ((w.0.state ≡ sending_body) × (contents w.0.send_buffer ≢ []))

  -- Whatever part of the send buffer the channel takes.
  flush-OnTheWire :
      (before bytes : List ℕ) (m : Impl) (s : ch.State)
      → IsValid m.send_buffer
      → st.sent s ++ contents m.send_buffer ≡ before ++ bytes
      → m.state ≡ sending_body
      → contents m.send_buffer ≢ []
      → let r = flush ch (m, s) in OnTheWire before bytes r.1 × (r.0 ≢ fault)
  unfolding flush
  flush-OnTheWire before bytes m s v d sending more =
      let pos : 0 < Buffer.remaining m.send_buffer =
        omega
          (arith, remaining_lem v, length-contents v, pos_length (contents m.send_buffer) more) in
      go (transmit ch from_channel m.send_buffer s)
        (transmit-Delivers ch st from_channel m.send_buffer s v pos)
    where
      go :
          (r : Outcome Error (Bool × Buffer) × ch.State)
          → Delivers st s m.send_buffer from_channel r
          → let f = flushed ch m r in OnTheWire before bytes f.1 × (f.0 ≢ fault)
      go (ok (true, b), t) (vb, grown, end) =
          (record { valid = vb; delivered = grown ∙ d; status = inl (refl, end.0 refl) }, λ f. cc)
      go (ok (false, b), t) (vb, grown, end) = (
        record {
          valid = vb;
          delivered = grown ∙ d;
          status = inr (sending, λ z. false≢true (end.1 z));
        },
        λ f. cc,
      )
      go (throws x, t) (_, same) = (
        record {
          valid = v;
          delivered = ap (λ l. l ++ contents m.send_buffer) same ∙ d;
          status = inr (sending, more);
        },
        λ f. cc,
      )
      go (fault, t) h = absurd h

  pub send_more-OnTheWire :
      (before bytes : List ℕ) (w : World ch)
      → OnTheWire before bytes w
      → let r = send_more ch w in OnTheWire before bytes r.1 × (r.0 ≢ fault)
  unfolding send_more
  send_more-OnTheWire before bytes (m, s) o = elim o.status [
    | inl (complete, z) ↦ rw (complete, send_more) (o, λ f. cc)
    | inr (sending, more) ↦
        rw (sending, send_more) (flush-OnTheWire before bytes m s o.valid o.delivered sending more)
  ]

  -- `send_more` called `n` times, an exception of the channel being caught.
  abbrev pub again : ℕ → World ch → World ch
  again zero w = w
  again (suc n) w = again n (send_more ch w).1

  again-OnTheWire :
      (n : ℕ) (before bytes : List ℕ) (w : World ch)
      → OnTheWire before bytes w
      → OnTheWire before bytes (again n w)
  again-OnTheWire zero before bytes w o = o
  again-OnTheWire (suc n) before bytes w o =
      again-OnTheWire n before bytes (send_more ch w).1 (send_more-OnTheWire before bytes w o).0

  put-OnTheWire :
      (text : List ℕ) (body : Buffer) (m : Impl) (s : ch.State)
      → IsValid body
      → 1 ≤ length text
      → length text + Buffer.remaining body < 2 ^ 63
      → m.state ≡ sending_body
      → let r = put ch text body (m, s) in
        OnTheWire (st.sent s) (text ++ contents body) r.1 × (r.0 ≢ fault)
  put-OnTheWire text body m s v some_ small sending =
      let whole = text ++ contents body in
      let n = length text + Buffer.remaining body in
      let total : length whole ≡ n =
        omega (arith, length-append text (contents body), length-contents v, remaining_lem v) in
      let c = contents-filled n whole total in
      rw (put-flush ch text body m s v small) (
        flush-OnTheWire (st.sent s) whole (record m { send_buffer = filled n whole }) s
          (filled-IsValid n whole total small) (ap (λ x. st.sent s ++ x) c) sending
          (λ z. absurd (omega (arith, ap length (sym c ∙ z), total))))

  -- On a byte stream, after `send_request` with a valid body that fits into memory with the text, and
  -- any number of `send_more`, whatever part the channel took each time and whether or not it threw:
  -- what was sent and what the send buffer holds make up the request's text and body behind what was
  -- sent before, and the state says whether anything is left.
  pub send_request-OnTheWire :
      (method path : List ℕ) (hdrs : Headers) (body : Buffer) (m : Impl) (s : ch.State) (n : ℕ)
      → IsValid body
      → length (request_text method path hdrs (Buffer.remaining body)) + Buffer.remaining body
        < 2 ^ 63
      → OnTheWire
          (st.sent s)
          (request_text method path hdrs (Buffer.remaining body) ++ contents body)
          (again n (send_request ch method path hdrs body (m, s)).1)
  unfolding send_request
  send_request-OnTheWire method path hdrs body m s n v small =
      again-OnTheWire n _ _ _
        (put-OnTheWire (request_text method path hdrs (Buffer.remaining body)) body
          (record m { state = sending_body }) s v (request_some method path hdrs _) small refl).0

  -- The same of `send_response`.
  pub send_response-OnTheWire :
      (code : ℕ) (message : List ℕ) (hdrs : Headers) (body : Buffer) (m : Impl) (s : ch.State)
      (n : ℕ)
      → IsValid body
      → length (response_text code message hdrs (Buffer.remaining body)) + Buffer.remaining body
        < 2 ^ 63
      → OnTheWire
          (st.sent s)
          (response_text code message hdrs (Buffer.remaining body) ++ contents body)
          (again n (send_response ch code message hdrs body (m, s)).1)
  unfolding send_response
  send_response-OnTheWire code message hdrs body m s n v small =
      again-OnTheWire n _ _ _
        (put-OnTheWire (response_text code message hdrs (Buffer.remaining body)) body
          (record m { state = sending_body }) s v (response_some code message hdrs _) small refl).0
