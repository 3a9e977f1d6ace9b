-- ===== src/Tests/Loops.antt =====
-- source/smp.cpp over a socket, and the event loops of source/epoll.cpp and source/kqueue.cpp.
use ez.Base.{◌+◌, ◌≡◌, ◌∷◌, ◌++◌, ◌*◌, ◌<◌, ℕ, arith, refl, true, false, none, some, List, [], ok}
use ez.Events.{
  event, timeout, read, write, closed, function, Wait, ready, nothing, wait_failed, eintr, stopped,
  running, Worker, wait_for_workers,
}
use ez.Events.Epoll.{Ready, process_fd, is_stop, process_events}
use ez.Events.Kqueue
use ez.Events.Order.{epoll_order, timespec_lem}
use ez.Events.Workers.{wait_for_workers-ends}

abbrev readable_at : ℕ → Ready
readable_at fd = record {
  fd = fd;
  rdhup = false;
  err = false;
  hup = false;
  readable = true;
  writable = true;
  counter = none;
}

abbrev hung_up : ℕ → Ready
hung_up fd = record (readable_at fd) { rdhup = true }

abbrev stop_event : Ready
stop_event = record (readable_at 5) { writable = false; counter = some 1 }

abbrev first_waits : List (Wait Ready)
first_waits = ready (readable_at 8 ∷ []) ∷ nothing ∷ wait_failed eintr ∷ []

epoll_order_example :
    process_events 5 function function
      (first_waits ++ ready (hung_up 9 ∷ stop_event ∷ readable_at 8 ∷ []) ∷ [])
    ≡ (event 8 read ∷ event 8 write ∷ timeout ∷ event 9 closed ∷ [], ok stopped)
epoll_order_example =
    epoll_order 5 first_waits [] (hung_up 9 ∷ []) stop_event (readable_at 8 ∷ [])
      (((λ s. omega (arith, s.1)), tt), (tt, (((λ e. cc), (λ e. cc), (λ e. cc)), tt)))
      ((λ s. omega (arith, s.1)), tt) (omega arith, refl, refl, refl)

-- Two calls of `stop` before the loop reads the counter: the loop takes 2 for an event like others.
stopped_twice :
    process_events 5 function function (ready (record stop_event { counter = some 2 } ∷ []) ∷ [])
    ≡ (event 5 read ∷ [], ok running)
unfolding process_events process_fd is_stop
stopped_twice = refl

-- The other side has sent its last bytes and closed: epoll.cpp reports the end only.
last_bytes : process_fd function (hung_up 9) ≡ ok (event 9 closed ∷ [])
unfolding process_fd
last_bytes = refl

last_bytes_kqueue :
    Kqueue.process_fd function (record {
      fd = 9;
      filter = Kqueue.evfilt_read;
      ev_error = false;
      known = false;
      ev_eof = true;
    })
    ≡ ok (event 9 read ∷ event 9 closed ∷ [])
unfolding Kqueue.process_fd
last_bytes_kqueue = refl

abbrev two_workers : List Worker
two_workers =
    record { running = false; stopping = false } ∷ record { running = false; stopping = false } ∷ []

wait_for_workers-ends_example :
    (wait_for_workers ((false ∷ false ∷ []) ∷ (true ∷ false ∷ []) ∷ []) two_workers).1 ≡ true
wait_for_workers-ends_example =
    wait_for_workers-ends ((false ∷ false ∷ []) ∷ (true ∷ false ∷ []) ∷ []) two_workers
      (refl, (refl, tt))

timespec_lem_example :
    let (sec, nsec) = Kqueue.timespec 1500 in
    (sec * 1000000000 + nsec ≡ 1500 * 1000000) × (nsec < 1000000000)
timespec_lem_example = timespec_lem 1500
