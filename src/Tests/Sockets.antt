-- ===== src/Tests/Sockets.antt =====
-- source/socket.cpp on a small operating system.
use ez.Base.{◌≡◌, ◌≢◌, ◌∷◌, ◌++◌, ℕ, All, refl, false, none, some, List, [], arith, ok, throws}
use mathlib.Core.List.Perm
use mathlib.Core.List.{Nodup, Nodup-cons, Nodup-nil, not-mem-nil, Perm}
use ez.Socket.{Socket, new, move, connected, disconnected, listening, stuck}
use ez.Socket.Connecting.{Connects, connect-Connects}
use ez.Socket.Inbox.{Fetches, recv-Fetches}
use ez.Socket.Io.{count, send, send_loop, recv, recv_loop, accept}
use ez.Socket.System.{would_block, interrupted}
use ez.Socket.Ownership.{all_held, run-descriptors}
use ez.Socket.Process.{
  Event, constructs, moves, destroys, accepts, acts, closes, connects, listens, run, adopts,
}
use ez.Socket.Setup.{connect}
use ez.Socket.Signals.{loops-IsDone}
use ez.Socket.Stream.{Accounts, send-Accounts}
use ez.Socket.Validity.{IsSound}
use ez.Socket.Soundness.{run-IsSound}
use ez.Tests.Machine.{Machine, machine, large_not_in}
use ez.Tests.Promises.{machine_wire, machine_inbox, machine_patient, machine_table}

-- One descriptor is open, four bytes have arrived, and two signals will come.
abbrev busy : Machine
busy = record {
  table = 7 ∷ [];
  distinct = Nodup-cons.1 (not-mem-nil, Nodup-nil);
  wire = 9 ∷ [];
  inbox = 1 ∷ 2 ∷ 3 ∷ 4 ∷ [];
  signals = 2;
}

abbrev client : Socket
client = record { fd = some 7; port = 0; state = connected; nonblocking = false }

abbrev five : List ℕ
five = 10 ∷ 11 ∷ 12 ∷ 13 ∷ 14 ∷ []

-- Two interruptions, and then three of the five bytes are taken.
send_five : (send machine 3 five (client, busy)).0 ≡ ok (count 3)
unfolding send send_loop would_block interrupted
send_five = refl

-- With less fuel than that, the model stops.
send_short : (send machine 2 five (client, busy)).0 ≡ throws stuck
unfolding send send_loop would_block interrupted
send_short = refl

recv_three : (recv machine 3 8 3 (client, busy)).0 ≡ ok (count (1 ∷ 2 ∷ 3 ∷ []))
unfolding recv recv_loop would_block interrupted
recv_three = refl

send-Accounts_example :
    Accounts machine machine_wire five (9 ∷ []) (send machine 3 five (client, busy))
send-Accounts_example = send-Accounts machine machine_wire 3 five busy client

recv-Fetches_example :
    Fetches machine machine_inbox 3
      (some 7)
      (1 ∷ 2 ∷ 3 ∷ 4 ∷ [])
      (recv machine 3 8 3 (client, busy))
recv-Fetches_example = recv-Fetches machine machine_inbox 3 8 3 busy client

loops-IsDone_example :
    ((bytes : List ℕ) → (send machine 3 bytes (client, busy)).0 ≢ throws stuck)
    × ((size desired : ℕ) → (recv machine 3 size desired (client, busy)).0 ≢ throws stuck)
    × ((accept machine 3 (client, busy)).0 ≢ throws stuck)
loops-IsDone_example = loops-IsDone machine machine_patient 3 client busy (omega arith)

-- The descriptors 7, around which a socket is made, and 4, which no socket has.
abbrev shared : Machine
shared = record busy {
  table = 7 ∷ 4 ∷ [];
  distinct =
      Nodup-cons.1 (large_not_in (4 ∷ []) 7 (omega arith), Nodup-cons.1 (not-mem-nil, Nodup-nil));
}

abbrev life : List Event
life =
    adopts (some 7) connected
    ∷ constructs
    ∷ acts 0 (connects 1 80 5 0)
    ∷ constructs
    ∷ acts 0 (listens 1 8080 4 false)
    ∷ accepts 0 3
    ∷ moves 1
    ∷ destroys 2
    ∷ acts 0 closes
    ∷ []

run-descriptors_example :
    let p = run machine life ([], shared) in
    Perm p.1.table (all_held p.0 ++ 4 ∷ []) × Nodup (all_held p.0 ++ 4 ∷ [])
run-descriptors_example =
    run-descriptors machine machine_table life (4 ∷ []) shared (Perm.refl (7 ∷ 4 ∷ []))

client-IsSound : IsSound client
client-IsSound e = cc

abbrev quiet_life : List Event
quiet_life =
    adopts (some 9) listening
    ∷ acts 1 closes
    ∷ accepts 0 3
    ∷ adopts none disconnected
    ∷ acts 0 (connects 1 80 5 0)
    ∷ destroys 1
    ∷ []

run-IsSound_example : All IsSound (run machine quiet_life (client ∷ [], busy)).0
run-IsSound_example =
    run-IsSound machine quiet_life (client ∷ []) busy (tt, (tt, (tt, (refl, (tt, (tt, tt))))))
      (client-IsSound, tt)

connect-Connects_example : Connects machine disconnected (connect machine 1 80 5 0 (new, busy))
connect-Connects_example = connect-Connects machine 1 80 5 0 new busy

-- A socket that was moved away keeps its state without its descriptor.
moved_away : ((move client).1.fd ≡ none) × ((move client).1.state ≡ connected)
unfolding move
moved_away = (refl, refl)
