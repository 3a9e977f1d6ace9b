-- ===== src/Smp/Reads.antt =====
-- The reads of source/smp.cpp, where the channel brings bytes that fit the buffer.
use ez.Base.{◌≤◌, ◌≡◌, ℕ, refl, ap, some, List, length, ok}
use ez.Smp.{State, State}
use ez.Buffer.Over.{over, write-over}
use ez.Channel.{Channel, got}
use ez.Smp.{Error, Impl, waiting_meta}
use ez.Buffer.Area.{IsValid}
use ez.Smp.Receive.{recv_body, recv_header, received, at_meta, recv, recv_in}
use ez.Buffer
use ez.Buffer.{Buffer}

module _ (ch : Channel) where
  pub recv_header-over :
      (m : Impl) (s t : ch.State) (desired : ℕ) (bytes : List ℕ)
      → IsValid m.header
      → length bytes ≤ Buffer.remaining m.header
      → ch.recv s (Buffer.remaining m.header) desired ≡ (got bytes, t)
      → recv_header ch desired (m, s)
        ≡ (ok (some (length bytes)), (record m { header = over m.header bytes }, t))
  unfolding recv_header
  recv_header-over m s t desired bytes v fits e =
      rw e (rw (write-over m.header bytes v fits {E = Error}, received) refl)

  pub recv_body-over :
      (m : Impl) (s t : ch.State) (desired : ℕ) (bytes : List ℕ)
      → IsValid m.body
      → length bytes ≤ Buffer.remaining m.body
      → ch.recv s (Buffer.remaining m.body) desired ≡ (got bytes, t)
      → recv_body ch desired (m, s)
        ≡ (ok (some (length bytes)), (record m { body = over m.body bytes }, t))
  unfolding recv_body
  recv_body-over m s t desired bytes v fits e =
      rw e (rw (write-over m.body bytes v fits {E = Error}, received) refl)

  -- `recv` goes by the state.
  pub recv_dispatch :
      (m : Impl) (s : ch.State) (st : State) → m.state ≡ st → recv ch (m, s) ≡ recv_in ch st (m, s)
  unfolding recv
  recv_dispatch m s st e = ap (λ x. recv_in ch x (m, s)) e

  pub recv_waiting :
      (m : Impl) (s : ch.State) → m.state ≡ waiting_meta → recv ch (m, s) ≡ at_meta ch (m, s)
  unfolding recv_in
  recv_waiting m s e = recv_dispatch m s waiting_meta e
