-- ===== src/Tests/Pipe.antt =====
-- A channel for the tests: it takes at most `k` bytes at a time, and delivers from a list of bytes.
use ez.Base.{
  ◌≤◌, ◌<◌, ◌≡◌, ◌∙◌, ◌∷◌, ◌++◌, ◌==◌, if◌then◌else◌, ℕ, min, refl, sym, ap, true, false, List, [],
  arith, ltb, length, take, drop,
}
use ez.Channel.{
  Channel, Sent, took, blocked, failed, Received, got, idle, broken, IsStream, IsPrompt,
}

-- What was sent, and what is still to be received.
abbrev pub Pipe : Type 0
Pipe = List ℕ × List ℕ

abbrev pub pipe_send : ℕ → Pipe → List ℕ → Sent × Pipe
pipe_send k (out, inp) bytes =
    (took (min k (length bytes)), (out ++ take (min k (length bytes)) bytes, inp))

abbrev pub deliver : List ℕ → ℕ → Pipe → Received × Pipe
deliver [] n (out, inp) = (idle, (out, inp))
deliver (x ∷ xs) n (out, inp) = (got (take n (x ∷ xs)), (out, drop n (x ∷ xs)))

abbrev pub pipe_recv : Pipe → ℕ → ℕ → Received × Pipe
pipe_recv (out, inp) size desired =
    if ltb size desired
    then (broken, (out, inp))
    else deliver inp (if desired == 0 then size else desired) (out, inp)

abbrev pub pipe : ℕ → Channel
pipe k = record { State = Pipe; send = pipe_send k; recv = pipe_recv }

pub pipe_taken :
    (k : ℕ) (s t : Pipe) (bytes : List ℕ) (n : ℕ)
    → pipe_send k s bytes ≡ (took n, t)
    → (n ≤ length bytes) × (t.0 ≡ s.0 ++ take n bytes)
pipe_taken k (out, inp) (out', inp') bytes n e =
    let a : min k (length bytes) ≡ n = ground (arith, e) in
    let b : out ++ take (min k (length bytes)) bytes ≡ out' = ap (λ x. x.1.0) e in
    (omega arith, sym b ∙ ap (λ m. out ++ take m bytes) a)

pub pipe_never_blocks :
    (k : ℕ) (s t : Pipe) (bytes : List ℕ) → pipe_send k s bytes ≡ (blocked, t) → t.0 ≡ s.0
pipe_never_blocks k s t bytes e = cc

pub pipe_never_fails :
    (k : ℕ) (s t : Pipe) (bytes : List ℕ) → pipe_send k s bytes ≡ (failed, t) → t.0 ≡ s.0
pipe_never_fails k s t bytes e = cc

abbrev pub pipe_stream : (k : ℕ) → IsStream (pipe k)
pipe_stream k = record {
  sent = λ s. s.0;
  taken = pipe_taken k;
  refused = pipe_never_blocks k;
  lost = pipe_never_fails k;
}

pub pipe_serves :
    (s : Pipe) (size desired : ℕ)
    → 1 ≤ desired
    → desired ≤ size
    → desired ≤ length s.1
    → (t : Pipe) × (pipe_recv s size desired ≡ (got (take desired s.1), t))
      × (t.1 ≡ drop desired s.1)
pipe_serves (out, []) size desired some_ room there = absurd (omega arith)
pipe_serves (out, x ∷ xs) size desired some_ room there =
    let a : ltb size desired ≡ false = ground arith in
    let b : (desired == 0) ≡ false = ground arith in
    ((out, drop desired (x ∷ xs)), rw (a, b) refl, refl)

abbrev pub pipe_prompt : (k : ℕ) → IsPrompt (pipe k)
pipe_prompt k = record { pending = λ s. s.1; serves = pipe_serves }

pub pipe_refuses :
    (k : ℕ) (s : Pipe) (size desired : ℕ)
    → size < desired
    → (t : Pipe) × (pipe_recv s size desired ≡ (broken, t))
pipe_refuses k (out, inp) size desired h =
    let a : ltb size desired ≡ true = ground arith in ((out, inp), rw a refl)
