-- ===== src/Tests/Wires.antt =====
-- source/smp.cpp and source/tls.cpp over a socket of source/socket.cpp.
use ez.Base.{◌≤◌, ◌≡◌, ◌∷◌, ◌++◌, ℕ, refl, true, false, none, some, ok, List, [], arith}
use mathlib.Core.List.{Nodup-nil}
use ez.Buffer
use ez.Buffer.{Buffer}
use ez.Buffer.Area.{of_bytes-IsValid}
use ez.Smp.{Impl, waiting_meta, send_complete, flush, send_more, store, store_body}
use ez.Smp.Frame.{frame}
use ez.Socket.{Socket, connected}
use ez.Socket.Delivery.{sent_over, send-reaches_wire}
use ez.Tests.Machine.{Machine, machine}
use ez.Tests.Promises.{machine_wire, machine_inbox}
use ez.Tls
use ez.Tls.{Lower, Library}
use ez.Tls.Blocking.{IsHonest, IsPlain}
use ez.Tls.OverSocket.{socket_below, blocking-IsPlain}

abbrev idle : Machine
idle = record { table = []; distinct = Nodup-nil; wire = 9 ∷ []; inbox = []; signals = 1 }

abbrev client : Socket
client = record { fd = some 7; port = 0; state = connected; nonblocking = false }

abbrev impl : Impl
impl = record {
  state = waiting_meta;
  header = Buffer.empty;
  body = Buffer.empty;
  send_buffer = Buffer.empty;
  new_header = false;
  header_size = 0;
  body_size = 0;
}

abbrev letter : List ℕ
letter = b'h' ∷ []

sent_all :
    (sent_over machine machine_wire 2 4
      (Buffer.of_bytes letter)
      (Buffer.of_bytes [])
      impl
      (client, idle)).0.state
    ≡ send_complete
unfolding Buffer.of_bytes flush send_more store store_body ez.Smp.send Buffer.remaining Buffer.write
    Buffer.make ez.Base.le32 Buffer.read ez.Channel.transmit ez.Channel.after_send
    Buffer.set_position ez.Socket.Io.send ez.Socket.Io.send_loop ez.Socket.System.would_block
    ez.Socket.System.interrupted
sent_all = refl

sizes :
    (Buffer.remaining (Buffer.of_bytes letter) ≡ 1) × (Buffer.remaining (Buffer.of_bytes []) ≡ 0)
unfolding Buffer.of_bytes Buffer.remaining
sizes = (refl, refl)

send-reaches_wire_example :
    (sent_over machine machine_wire 2 4
      (Buffer.of_bytes letter)
      (Buffer.of_bytes [])
      impl
      (client, idle)).1.1.wire
    ≡ 9 ∷ frame letter []
unfolding Buffer.of_bytes
send-reaches_wire_example =
    send-reaches_wire machine machine_wire 2 4 (Buffer.of_bytes letter) (Buffer.of_bytes []) impl
      (client, idle) (of_bytes-IsValid letter (omega arith)) (of_bytes-IsValid [] (omega arith))
      (omega (arith, sizes)) (omega (arith, sizes)) (omega (arith, sizes)) sent_all

-- A library that passes the bytes on as they are.
abbrev plain : (ch : Lower) → Library ch
plain ch = record {
  Context = Unit {0};
  tls_write = λ cb c s bytes. let (r, t) = cb.write s bytes in (r, (c, t));
  tls_read = λ cb c s n. let (r, t) = cb.read s n in (r, (c, t));
  tls_handshake = λ cb c s. (ok 0, (c, s));
  tls_error = λ c. none;
  handshake_complete = λ c. true;
  tls_reset = λ c. c;
  tls_close = λ c. c;
}

plain-IsHonest : (ch : Lower) → IsHonest ch (plain ch)
plain-IsHonest ch = record {
  writing = λ P cb r w c s bytes p. w s bytes p;
  reading = λ P cb w r c s n p. r s n p;
}

blocking-IsPlain_example :
    ((bytes : List ℕ)
      → IsPlain
          (socket_below machine 2)
          (Tls.send
            (socket_below machine 2)
            (plain (socket_below machine 2))
            1
            bytes
            (some tt, (client, idle))).0)
    × ((size desired : ℕ)
        → IsPlain
            (socket_below machine 2)
            (Tls.impl_recv
              (socket_below machine 2)
              (plain (socket_below machine 2))
              1
              size
              desired
              (some tt, (client, idle))).0)
blocking-IsPlain_example =
    blocking-IsPlain machine machine_wire machine_inbox 2 (plain (socket_below machine 2)) 0
      (some tt) client idle (plain-IsHonest (socket_below machine 2)) refl
