-- ===== src/Http/Whole.antt =====
-- A message that comes in one block, as `recv_request` and `recv_response` of source/http.cpp take it.
use ez.Base.{
  ◌+◌, ◌-◌, ◌^◌, ◌≤◌, ◌<◌, ◌≡◌, ◌∙◌, ◌∷◌, ◌++◌, ◌==◌, ℕ, suc, refl, sym, ap, some, true, false,
  List, [], arith, ltb, leb, length, take, drop, All, length-append, take-append, drop-append,
  splice, length-splice, u32, u64, ok,
}
use mathlib.Core.List.{append-nil, append_assoc}
use ez.Buffer
use ez.Buffer.{Buffer}
use ez.Buffer.Area.{IsValid, remaining_lem}
use ez.Buffer.Laws.{contents}
use ez.Buffer.Over.{over, write-over}
use ez.Channel.{Channel, got}
use ez.Channel.Monad.{follow}
use ez.Http.{Error, Impl}
use ez.Http.Text.{codes, Headers, from_chars, isequal, content_length}
use ez.Http.Receive.{
  parsed, Side, message, recv_buffer, received, take_header, take_headers, after_headers,
}
use ez.Http.Loops.{whole_head, on_head, take_block, head_loop}
use ez.Http.Ends.{IsReading, set_position_fits}

-- A header that says nothing of the body.
abbrev pub IsPlain : List ℕ × List ℕ → Type 0
IsPlain (field, value) =
    (isequal field content_length ≡ false) × (isequal field (codes "Transfer-Encoding") ≡ false)

module _ (ch : Channel) where
  plain_lem :
      (hs : Headers) (m : Impl) (s : ch.State)
      → All IsPlain hs
      → take_headers ch hs (m, s) ≡ (ok tt, (record m { headers = m.headers ++ hs }, s))
  unfolding take_headers take_header
  plain_lem [] m s h = ap (λ x. (ok tt, (record m { headers = x }, s))) (sym (append-nil m.headers))
  plain_lem ((field, value) ∷ hs) m s ((a, b), h) =
      rw (a, b)
        (plain_lem hs (record m { headers = m.headers ++ ((field, value) ∷ []) }) s h
          ∙ ap (λ x. (ok tt, (record m { headers = x }, s)))
              (append_assoc m.headers ((field, value) ∷ []) hs))

  -- One header gives the size.
  sized_lem :
      (before after : Headers) (field value : List ℕ) (size : ℕ) (m : Impl) (s : ch.State)
      → All IsPlain before
      → All IsPlain after
      → isequal field content_length ≡ true
      → from_chars value ≡ some size
      → take_headers ch (before ++ ((field, value) ∷ after)) (m, s) ≡ (
        ok tt,
        (
          record m {
            headers = m.headers ++ (before ++ ((field, value) ∷ after));
            body_size = size;
          },
          s,
        ),
      )
  unfolding take_headers take_header
  sized_lem [] after field value size m s hb ha f e =
      rw (f, e)
        (plain_lem after
            (record m { headers = m.headers ++ ((field, value) ∷ []); body_size = size }) s ha
          ∙ ap (λ x. (ok tt, (record m { headers = x; body_size = size }, s)))
              (append_assoc m.headers ((field, value) ∷ []) after))
  sized_lem ((k, v) ∷ before) after field value size m s ((a, b), hb) ha f e =
      rw (a, b)
        (sized_lem before after field value size (record m { headers = m.headers ++ ((k, v) ∷ []) })
            s hb ha f e
          ∙ ap (λ x. (ok tt, (record m { headers = x; body_size = size }, s)))
              (append_assoc m.headers ((k, v) ∷ []) (before ++ ((field, value) ∷ after))))

  recv_buffer-over :
      (m : Impl) (s t : ch.State) (bytes : List ℕ)
      → IsValid m.buffer
      → length bytes ≤ Buffer.remaining m.buffer
      → ch.recv s (Buffer.remaining m.buffer) 0 ≡ (got bytes, t)
      → recv_buffer ch (m, s)
        ≡ (ok (some (length bytes)), (record m { buffer = over m.buffer bytes }, t))
  unfolding recv_buffer
  recv_buffer-over m s t bytes v fits e =
      rw e (rw (write-over m.buffer bytes v fits {E = Error}, received) refl)

  -- All of the body is behind the headers.
  there :
      (d : ℕ) (m : Impl) (s : ch.State)
      → 1 ≤ m.body_size
      → m.header_size + m.body_size ≤ d
      → d < 2 ^ 32
      → let b = Buffer.set_size m.buffer (m.header_size + m.body_size) in
        after_headers ch d (m, s) ≡ (ok (message b), (record m { buffer = b }, s))
  unfolding after_headers
  there d m s some_ h small =
      let e0 : (m.body_size == 0) ≡ false = ground arith in
      let e1 : u64 (d + 2 ^ 64 - m.header_size) ≡ d - m.header_size = omega arith in
      let e2 : leb m.body_size (d - m.header_size) ≡ true = ground arith in
      let e3 : u32 (m.header_size + m.body_size) ≡ m.header_size + m.body_size = omega arith in
      rw (e0, e1, e2, e3) refl

set_size_fits : (b : Buffer) (n : ℕ) → n ≤ b.orig_size → Buffer.set_size b n ≡ record b { size = n }
unfolding Buffer.set_size
set_size_fits b n h = let t : leb n b.orig_size ≡ true = ground arith in rw t refl

read_start :
    (b : Buffer) (bytes : List ℕ)
    → IsValid b
    → b.position ≡ 0
    → length bytes ≤ b.size
    → Buffer.read {E = Error} (record (over b bytes) { position = 0 }) (0 + length bytes) ≡ ok bytes
unfolding Buffer.read
read_start b bytes v z h =
    let l : length (splice b.position bytes b.mem) ≡ length b.mem =
      length-splice b.position bytes b.mem (omega (arith, v.owned, v.sized)) in
    let e : leb (0 + (0 + length bytes)) (length (splice b.position bytes b.mem)) ≡ true =
      ground (arith, l, v.owned, v.sized) in
    rw e (
      ap (λ p. ok (take (0 + length bytes) (splice p bytes b.mem))) z
      ∙ ap ok (take-append (0 + length bytes) bytes _ (omega arith)))

-- The buffer that shows the body behind the headers.
abbrev pub body_of : Buffer → List ℕ → List ℕ → Buffer
body_of b head body = record (over b (head ++ body)) {
  position = length head;
  size = length head + length body;
}

pub contents-body_of :
    (b : Buffer) (head body : List ℕ) → b.position ≡ 0 → contents (body_of b head body) ≡ body
contents-body_of b head body z =
    let n : length head + length body - length head ≡ length body = omega arith in
    let rest = drop (b.position + length (head ++ body)) b.mem in
    rw n (
      ap (λ p. take (length body) (drop (length head) (take p b.mem ++ ((head ++ body) ++ rest)))) z
      ∙ ap (λ x. take (length body) (drop (length head) x)) (append_assoc head body rest)
      ∙ ap (take (length body)) (drop-append (length head) head (body ++ rest) refl)
      ∙ take-append (length body) body rest refl)

module _ (ch : Channel) {A : Type 0} (side : Side A) (r : IsReading side) where
  -- The loop takes the headers and goes on behind them.
  pub head_loop-head :
      (fuel size : ℕ) (m : Impl) (s t : ch.State) (head body : List ℕ) (start : A)
      (before after : Headers) (field value : List ℕ)
      → IsValid m.buffer
      → m.buffer.position ≡ 0
      → m.buffer.size < 2 ^ 32
      → length head + length body ≤ m.buffer.size
      → 1 ≤ length head
      → ch.recv s (Buffer.remaining m.buffer) 0 ≡ (got (head ++ body), t)
      → side.parse (head ++ body) 0
        ≡ parsed (length head) start (before ++ ((field, value) ∷ after))
      → All IsPlain before
      → All IsPlain after
      → isequal field content_length ≡ true
      → from_chars value ≡ some size
      → let m1 = side.keep start (record m {
        header_size = length head;
        buffer = record (over m.buffer (head ++ body)) { position = length head };
      }) in
        head_loop ch side (suc fuel) 0 (m, s)
        ≡ after_headers ch (0 + length (head ++ body)) (
          record m1 {
            headers = m1.headers ++ (before ++ ((field, value) ∷ after));
            body_size = size;
          },
          t,
        )
  unfolding head_loop take_block on_head whole_head
  head_loop-head fuel size m s t head body start before after field value v z small fits hh e p pb
        pa f g =
      let block = head ++ body in
      let n : length block ≡ length head + length body = length-append head body in
      let m1 = side.keep start (record m {
        header_size = length head;
        buffer = record (over m.buffer block) { position = length head };
      }) in
      let e0 : (length block == 0) ≡ false = ground (arith, n) in
      let e1 : ltb 0 (length block) ≡ true = ground (arith, n) in
      let e2 : ltb 0 (length head) ≡ true = ground arith in
      let e3 : u32 (length head) ≡ length head = omega arith in
      rw (recv_buffer-over ch m s t block v (omega (arith, n, remaining_lem v)) e, e0, e1)
        (rw
          (
            set_position_fits (over m.buffer block) 0 (omega arith),
            read_start m.buffer block v z (omega (arith, n)),
          )
          (rw (p, e2, e3)
            (rw
              (set_position_fits (record (over m.buffer block) { position = 0 }) (length head)
                (omega arith))
              (ap (λ x. follow x (λ _. after_headers ch (0 + length block)))
                (sized_lem ch before after field value size m1 t pb pa f g)))))

  pub head_loop-whole :
      (fuel : ℕ) (m : Impl) (s t : ch.State) (head body : List ℕ) (start : A)
      (before after : Headers) (field value : List ℕ)
      → IsValid m.buffer
      → m.buffer.position ≡ 0
      → m.buffer.size < 2 ^ 32
      → length head + length body ≤ m.buffer.size
      → 1 ≤ length head
      → 1 ≤ length body
      → ch.recv s (Buffer.remaining m.buffer) 0 ≡ (got (head ++ body), t)
      → side.parse (head ++ body) 0
        ≡ parsed (length head) start (before ++ ((field, value) ∷ after))
      → All IsPlain before
      → All IsPlain after
      → isequal field content_length ≡ true
      → from_chars value ≡ some (length body)
      → let m1 = side.keep start (record m {
        header_size = length head;
        buffer = record (over m.buffer (head ++ body)) { position = length head };
      }) in
        head_loop ch side (suc fuel) 0 (m, s) ≡ (
          ok (message (body_of m.buffer head body)),
          (
            record m1 {
              headers = m1.headers ++ (before ++ ((field, value) ∷ after));
              body_size = length body;
              buffer = body_of m.buffer head body;
            },
            t,
          ),
        )
  head_loop-whole fuel m s t head body start before after field value v z small fits hh hb e p pb pa
        f g =
      let block = head ++ body in
      let n : length block ≡ length head + length body = length-append head body in
      let b1 = record (over m.buffer block) { position = length head } in
      let m1 = side.keep start (record m { header_size = length head; buffer = b1 }) in
      let kb : m1.buffer ≡ b1 = r.buffer_kept start _ in
      let kh : m1.header_size ≡ length head = r.header_size_kept start _ in
      let m2 = record m1 {
        headers = m1.headers ++ (before ++ ((field, value) ∷ after));
        body_size = length body;
      } in
      let shown : Buffer.set_size m1.buffer (m1.header_size + length body)
          ≡ body_of m.buffer head body =
        ap (λ b. Buffer.set_size b (m1.header_size + length body)) kb
        ∙ ap (λ k. Buffer.set_size b1 (k + length body)) kh
        ∙ set_size_fits b1 (length head + length body) (omega (arith, v.sized)) in
      head_loop-head fuel (length body) m s t head body start before after field value v z small
        fits hh e p pb pa f g
      ∙ there ch (0 + length block) m2 t hb (omega (arith, kh, n)) (omega (arith, n))
      ∙ ap (λ b. (ok (message b), (record m2 { buffer = b }, t))) shown
