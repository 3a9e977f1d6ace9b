-- ===== src/Smp/Delivery.antt =====
-- `send` and `send_more` of source/smp.cpp over a byte stream: at every moment what was sent and
-- what the send buffer still holds make up the frame.
use ez.Base.{
  ◌+◌, ◌≤◌, ◌<◌, ◌≡◌, ◌∙◌, ◌≢◌, ◌⊎◌, ◌∷◌, ◌++◌, ℕ, zero, suc, refl, sym, ap, inl, inr, Bool, true,
  false, List, [], arith, length, length-append, Outcome, ok, throws, fault,
}
use ez.Smp.Sending.{packed, send-flush}
use ez.Buffer.Fill.{contents-filled, filled-IsValid}
use ez.Smp.Frame.{frame, max_size}
use ez.Base.{le32}
use mathlib.Core.Bool.{false≢true}
use ez.Buffer.Laws.{contents, length-contents}
use ez.Channel.{Channel, IsStream, transmit}
use ez.Channel.Transmit.{Delivers, transmit-Delivers}
use ez.Buffer.Area.{IsValid, remaining_lem}
use ez.Smp.{
  flush, send_complete, sending_data, Error, Impl, Error, from_channel, Impl, World, send_more,
  send,
}
use ez.Smp.{flushed}
use ez.Buffer
use ez.Buffer.{Buffer}

pos_length : (xs : List ℕ) → xs ≢ [] → 0 < length xs
pos_length [] h = absurd (h refl)
pos_length (x ∷ xs) h = omega arith

length-frame :
    (header body : Buffer)
    → IsValid header
    → IsValid body
    → length (frame (contents header) (contents body))
      ≡ 12 + Buffer.remaining header + Buffer.remaining body
unfolding frame le32
length-frame header body vh vb = omega (
  arith,
  length-append (contents header) (contents body),
  length-contents vh,
  length-contents vb,
  remaining_lem vh,
  remaining_lem vb,
)

module _ (ch : Channel) (st : IsStream ch) where
  -- `before` was on the wire when the message `bytes` was handed over.
  pub record OnTheWire (before bytes : List ℕ) (w : World ch) : Type 0 where
    pub valid : IsValid w.0.send_buffer
    pub delivered : st.sent w.1 ++ contents w.0.send_buffer ≡ before ++ bytes
    pub status :
        ((w.0.state ≡ send_complete) × (contents w.0.send_buffer ≡ []))
        ⊎ ((w.0.state ≡ sending_data) × (contents w.0.send_buffer ≢ []))

  flush-OnTheWire :
      (before bytes : List ℕ) (m : Impl) (s : ch.State)
      → IsValid m.send_buffer
      → st.sent s ++ contents m.send_buffer ≡ before ++ bytes
      → m.state ≡ sending_data
      → contents m.send_buffer ≢ []
      → let r = flush ch (m, s) in OnTheWire before bytes r.1 × (r.0 ≢ fault)
  unfolding flush
  flush-OnTheWire before bytes m s v d sending more =
      let pos : 0 < Buffer.remaining m.send_buffer =
        omega
          (arith, remaining_lem v, length-contents v, pos_length (contents m.send_buffer) more) in
      go (transmit ch from_channel m.send_buffer s)
        (transmit-Delivers ch st from_channel m.send_buffer s v pos)
    where
      go :
          (r : Outcome Error (Bool × Buffer) × ch.State)
          → Delivers st s m.send_buffer from_channel r
          → let f = flushed ch m r in OnTheWire before bytes f.1 × (f.0 ≢ fault)
      go (ok (true, b), t) (vb, grown, end) =
          (record { valid = vb; delivered = grown ∙ d; status = inl (refl, end.0 refl) }, λ f. cc)
      go (ok (false, b), t) (vb, grown, end) = (
        record {
          valid = vb;
          delivered = grown ∙ d;
          status = inr (sending, λ z. false≢true (end.1 z));
        },
        λ f. cc,
      )
      go (throws x, t) (_, same) = (
        record {
          valid = v;
          delivered = ap (λ l. l ++ contents m.send_buffer) same ∙ d;
          status = inr (sending, more);
        },
        λ f. cc,
      )
      go (fault, t) h = absurd h

  -- Handing on what is left, as often as wanted, whatever the channel does each time.
  pub send_more-OnTheWire :
      (before bytes : List ℕ) (w : World ch)
      → OnTheWire before bytes w
      → let r = send_more ch w in OnTheWire before bytes r.1 × (r.0 ≢ fault)
  unfolding send_more
  send_more-OnTheWire before bytes (m, s) o = elim o.status [
    | inl (complete, z) ↦ rw (complete, send_more) (o, λ f. cc)
    | inr (sending, more) ↦
        rw (sending, send_more) (flush-OnTheWire before bytes m s o.valid o.delivered sending more)
  ]

  -- `send_more` called `n` times, an exception of the channel being caught.
  abbrev pub again : ℕ → World ch → World ch
  again zero w = w
  again (suc n) w = again n (send_more ch w).1

  again-OnTheWire :
      (n : ℕ) (before bytes : List ℕ) (w : World ch)
      → OnTheWire before bytes w
      → OnTheWire before bytes (again n w)
  again-OnTheWire zero before bytes w o = o
  again-OnTheWire (suc n) before bytes w o =
      again-OnTheWire n before bytes (send_more ch w).1 (send_more-OnTheWire before bytes w o).0

  -- On a byte stream, after `send` of a message of an allowed size and any number of `send_more`, whatever part the
  -- channel took each time and whether or not it threw: what was sent and what the send buffer
  -- holds make up exactly the message's frame behind what was sent before, and the state is
  -- `send_complete` when nothing is left and `sending_data` when something is.
  pub send-OnTheWire :
      (header body : Buffer) (m : Impl) (s : ch.State) (n : ℕ)
      → IsValid header
      → IsValid body
      → 1 ≤ Buffer.remaining header
      → Buffer.remaining header ≤ max_size
      → Buffer.remaining body ≤ max_size
      → OnTheWire
          (st.sent s)
          (frame (contents header) (contents body))
          (again n (send ch header body (m, s)).1)
  send-OnTheWire header body m s n vh vb h1 h2 h3 =
      let total : length (frame (contents header) (contents body))
          ≡ 12 + Buffer.remaining header + Buffer.remaining body =
        length-frame header body vh vb in
      rw (send-flush ch header body vh vb h1 h2 h3 m s) (
        again-OnTheWire n _ _ _
          (flush-OnTheWire (st.sent s) (frame (contents header) (contents body))
            (packed ch header body vh vb h1 h2 h3 m) s (filled-IsValid _ _ total (omega arith))
            (ap (λ x. st.sent s ++ x) (contents-filled _ _ total)) refl
            (λ z.
              absurd (omega (arith, ap length (sym (contents-filled _ _ total) ∙ z), total)))).0)
