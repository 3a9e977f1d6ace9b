-- ===== src/Socket/Delivery.antt =====
-- Messages of source/smp.cpp over a socket of source/socket.cpp.
use ez.Base.{◌≤◌, ◌≡◌, ◌∙◌, ◌++◌, ℕ, sym, ap, inl, inr}
use mathlib.Core.List.{append-nil}
use ez.Buffer
use ez.Buffer.{Buffer}
use ez.Buffer.Area.{IsValid}
use ez.Buffer.Laws.{contents}
use ez.Smp.{Impl, World, send, send_complete, sending_data}
use ez.Smp.Delivery.{again, send-OnTheWire}
use ez.Smp.Frame.{frame, max_size}
use ez.Socket.{Objects}
use ez.Socket.Stream.{IsWire, socket_channel, socket_stream}
use ez.Socket.System.{Kernel}

-- `send` and then `n` times `send_more`, over the socket `s`.
abbrev pub sent_over :
    (k : Kernel) (net : IsWire k) (fuel n : ℕ) (header body : Buffer)
    → Impl
    → Objects k
    → World (socket_channel k fuel)
sent_over k net fuel n header body m x =
    again (socket_channel k fuel) (socket_stream k net fuel) n
      (send (socket_channel k fuel) header body (m, x)).1

-- When an object that sends over a socket says that a message of an allowed size is sent, after
-- `send` and any number of `send_more`, then the kernel has taken exactly the frame of the message
-- behind what it had, however few bytes it took at a time, and whatever would have blocked, was
-- interrupted or threw on the way.
pub send-reaches_wire :
    (k : Kernel) (net : IsWire k) (fuel n : ℕ) (header body : Buffer) (m : Impl) (x : Objects k)
    → IsValid header
    → IsValid body
    → 1 ≤ Buffer.remaining header
    → Buffer.remaining header ≤ max_size
    → Buffer.remaining body ≤ max_size
    → (sent_over k net fuel n header body m x).0.state ≡ send_complete
    → net.wire (sent_over k net fuel n header body m x).1.1
      ≡ net.wire x.1 ++ frame (contents header) (contents body)
send-reaches_wire k net fuel n header body m x vh vb h1 h2 h3 done =
    let o =
      send-OnTheWire (socket_channel k fuel) (socket_stream k net fuel) header body m x n vh vb h1
        h2 h3 in
    let r = sent_over k net fuel n header body m x in
    elim o.status [
      | inl (complete, used_up) ↦
          sym (append-nil (net.wire r.1.1))
          ∙ ap (λ l. net.wire r.1.1 ++ l) (sym used_up)
          ∙ o.delivered
      | inr (sending, more) ↦ absurd (complete≢sending (sym done ∙ sending))
    ]
  where
    complete≢sending : send_complete ≡ sending_data → ⊥
    complete≢sending e = cc
