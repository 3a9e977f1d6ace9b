-- ===== src/Channel/Transmit.antt =====
-- Handing a send buffer to a byte stream loses nothing and repeats nothing.
use ez.Base.{
  ◌+◌, ◌≤◌, ◌<◌, ◌≡◌, ◌∙◌, ◌↔◌, ◌++◌, ◌==◌, ℕ, refl, sym, ap, inl, inr, Bool, true, false, List, [],
  arith, ltb, ==_iff, Bool-cases, length, take, length-drop, take-append-drop, take_all, u64,
  Outcome, ok, throws, fault,
}
use mathlib.Core.List.{append_assoc}
use mathlib.Core.List.{append-nil}
use mathlib.Core.Bool.{false≢true}
use ez.Buffer
use ez.Buffer.{Buffer}
use ez.Buffer.Area.{IsValid, empty-IsValid, set_position-IsValid, remaining_lem}
use ez.Buffer.Laws.{contents, length-contents, contents-set_position, read_all}
use ez.Channel.{
  took, after_send, Sent, Channel, IsStream, transmit, Sent, blocked, failed, Channel, IsStream,
  transmit,
}

-- What holds of the buffer that is left when `taken` was taken of `b`.
pub record Left (b : Buffer) (taken : List ℕ) (done : Bool) (b' : Buffer) : Type 0 where
  pub valid : IsValid b'
  pub split : taken ++ contents b' ≡ contents b
  pub finished : (done ≡ true) ↔ (contents b' ≡ [])

all_taken :
    {b : Buffer} (n : ℕ)
    → IsValid b
    → n ≡ Buffer.remaining b
    → Left b (take n (contents b)) true Buffer.empty
all_taken {b} n v e = record {
  valid = empty-IsValid;
  split =
      append-nil (take n (contents b))
      ∙ take_all n (contents b) (omega (arith, remaining_lem v, length-contents v));
  finished = (λ _. refl, λ _. refl);
}

some_taken :
    {b : Buffer} (n : ℕ)
    → IsValid b
    → n < Buffer.remaining b
    → Left b (take n (contents b)) false (Buffer.set_position b (b.position + n))
some_taken {b} n v lt =
    let r = remaining_lem v in
    let c = contents-set_position n v (omega arith) in
    record {
      valid = set_position-IsValid (b.position + n) v;
      split = rw c (take-append-drop n (contents b));
      finished = (
        λ f. absurd (false≢true f),
        λ z.
            absurd
              (omega (arith, ap length (sym c ∙ z), length-drop n (contents b), length-contents v)),
      );
    }

none_taken : {b : Buffer} → IsValid b → 0 < Buffer.remaining b → Left b [] false b
none_taken {b} v lt = record {
  valid = v;
  split = refl;
  finished = (
    λ f. absurd (false≢true f),
    λ z. absurd (omega (arith, ap length z, remaining_lem v, length-contents v)),
  );
}

module _ {E : Type 0} (e : E) where
  -- Whatever number of bytes is taken, the rest stays in the send buffer.
  after_send-took :
      (b : Buffer) (n : ℕ)
      → IsValid b
      → n ≤ length (contents b)
      → (done : Bool) × (b' : Buffer) × (after_send e b (took n) ≡ ok (done, b'))
        × Left b (take n (contents b)) done b'
  unfolding after_send
  after_send-took b n v le = elim (Bool-cases (n == Buffer.remaining b)) [
    | inl all ↦ (true, Buffer.empty, rw all refl, all_taken n v ((==_iff _ _).0 all))
    | inr part ↦
        let r = remaining_lem v in
        let lt : n < Buffer.remaining b = ground (arith, length-contents v) in
        elim (Bool-cases (ltb 0 n)) [
          | inl some_ ↦
              let fits : u64 (b.position + n) ≡ b.position + n =
                omega (arith, v.addressed, v.sized, v.placed) in
              (
                false,
                Buffer.set_position b (b.position + n),
                rw (part, some_, fits) refl,
                some_taken n v lt,
              )
          | inr zero_ ↦
              let z : n ≡ 0 = ground arith in
              (false, b, rw (part, zero_) refl, rw z (none_taken v (omega arith)))
        ]
  ]

-- What may come of one `send` on a stream, in terms of all bytes sent so far.
abbrev pub Delivers :
    {E : Type 0} {ch : Channel}
    → IsStream ch
    → ch.State
    → Buffer
    → E
    → Outcome E (Bool × Buffer) × ch.State
    → Type 0
Delivers st s b e (ok (done, b'), t) =
    IsValid b'
    × (st.sent t ++ contents b' ≡ st.sent s ++ contents b)
    × ((done ≡ true) ↔ (contents b' ≡ []))
Delivers {E} st s b e (throws x, t) = (x ≡ e) × (st.sent t ≡ st.sent s)
Delivers st s b e (fault, t) = ⊥

-- On a byte stream, handing over a valid send buffer that is not used up keeps what was sent and
-- what the buffer shows together the same, whatever part the stream took, and says that it is
-- through exactly when the buffer is used up; where the stream throws, nothing was sent.
pub transmit-Delivers :
    {E : Type 0} (ch : Channel) (st : IsStream ch) (e : E) (b : Buffer) (s : ch.State)
    → IsValid b
    → 0 < Buffer.remaining b
    → Delivers st s b e (transmit ch e b s)
unfolding transmit after_send
transmit-Delivers ch st e b s v more =
    rw (read_all v, transmit) (go (ch.send s (contents b)).0 (ch.send s (contents b)).1 refl)
  where
    go :
        (r : Sent) (t : ch.State)
        → ch.send s (contents b) ≡ (r, t)
        → Delivers st s b e (after_send e b r, t)
    go (took n) t eq =
        let (le, grown) = st.taken s t (contents b) n eq in
        let (done, b', res, l) = after_send-took e b n v le in
        rw res (
          l.valid,
          rw grown (append_assoc (st.sent s) (take n (contents b)) (contents b'))
              ∙ ap (λ x. st.sent s ++ x) l.split,
          l.finished,
        )
    go blocked t eq = (
      v,
      ap (λ x. x ++ contents b) (st.refused s t (contents b) eq),
      (none_taken v more).finished,
    )
    go failed t eq = (refl, st.lost s t (contents b) eq)
