-- ===== src/Smp/RoundTrip.antt =====
-- `recv` of source/smp.cpp on a channel that delivers each part whole: it returns the message whose
-- frame stands next in the stream, and takes exactly that frame.
use ez.Base.{◌≤◌, ◌≡◌, ◌==◌, if◌then◌else◌, ℕ, Option, some, List, length, Outcome, ok}
use ez.Smp.{World}
use ez.Buffer.Laws.{contents}
use ez.Channel.{Channel, IsPrompt}
use ez.Smp.{Error, Impl, waiting_meta, waiting_header, Message, Message}
use ez.Buffer.Area.{IsValid}
use ez.Buffer
use ez.Buffer.{Buffer}

module _ (ch : Channel) (pr : IsPrompt ch) where
  -- `recv` on an object that waits for a message and whose header buffer is as `reset` leaves it.
  pub record IsWaiting (m : Impl) : Type 0 where
    pub ready : m.state ≡ waiting_meta
    pub header_valid : IsValid m.header
    pub at_start : m.header.position ≡ 0
    pub meta_fits : 12 ≤ Buffer.remaining m.header

  -- What a call that returns a message has to show.
  abbrev pub Returned :
      Outcome Error (Option Message) × World ch → List ℕ → List ℕ → List ℕ → Type 0
  Returned r header body rest =
      (msg : Message) × (m' : Impl) × (t : ch.State) × (r ≡ (ok (some msg), (m', t)))
      × (contents msg.header ≡ header)
      × (contents msg.body ≡ body)
      × (pr.pending t ≡ rest)
      × (m'.state ≡ (if length body == 0 then waiting_header else waiting_meta))
