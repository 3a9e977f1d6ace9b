-- ===== src/Events/Order.antt =====
-- The order of the calls that the event loop of source/epoll.cpp and of source/kqueue.cpp makes, and
-- where it ends.
use ez.Base.{
  ◌∷◌, ◌++◌, ◌≡◌, ◌≢◌, ◌∙◌, ◌==◌, ◌&&◌, none, some, refl, sym, ap, ℕ, Bool, true, false, List, [],
  All, Outcome, ok, ◌+◌, ◌*◌, ◌<◌, ltb, inl, inr, Bool-cases, arith, map, Option,
}
use mathlib.Core.List.{append_assoc}
use ez.Events.{
  Kind, error, read, write, closed, event, Called, timeout, function, WaitErrno, eintr, efault,
  ebadf, einval, eacces, enoent, enomem, esrch, other, Wait, ready, nothing, wait_failed, Failure,
  stopped, Trace, before, process_batch, process_waits,
}
use ez.Events.Epoll
use ez.Events.Kqueue

-- The calls of events in the order of the events.
abbrev pub batch_calls : {R : Type 0} → (R → List Called) → List R → List Called
batch_calls calls [] = []
batch_calls calls (e ∷ es) = calls e ++ batch_calls calls es

abbrev pub all_calls : {R : Type 0} → (R → List Called) → List (Wait R) → List Called
all_calls calls [] = []
all_calls calls (ready es ∷ waits) = batch_calls calls es ++ all_calls calls waits
all_calls calls (nothing ∷ waits) = timeout ∷ all_calls calls waits
all_calls calls (wait_failed e ∷ waits) = all_calls calls waits

-- Waits without a stop event and without an error that is thrown.
abbrev pub IsCalm : {R : Type 0} → (R → Bool) → (WaitErrno → Bool) → Wait R → Type 0
IsCalm is_stop fatal (ready es) = All (λ e. is_stop e ≡ false) es
IsCalm is_stop fatal nothing = Unit
IsCalm is_stop fatal (wait_failed e) = fatal e ≡ false

before-before : (xs ys : List Called) (t : Trace) → before xs (before ys t) ≡ before (xs ++ ys) t
before-before xs ys (cs, e) = ap (λ l. (l, e)) (sym (append_assoc xs ys cs))

-- What the callback is to be told of the flags of an event, as a table: that the other side has
-- closed comes before all else, an error or a hang-up before reading and writing, and reading
-- before writing.
abbrev pub kinds : (rdhup err hup readable writable : Bool) → List Kind
kinds true err hup r w = closed ∷ []
kinds false true hup r w = error ∷ []
kinds false false true r w = error ∷ []
kinds false false false true true = read ∷ write ∷ []
kinds false false false true false = read ∷ []
kinds false false false false true = write ∷ []
kinds false false false false false = []

abbrev pub told : Epoll.Ready → List Called
told e = map (event e.fd) (kinds e.rdhup e.err e.hup e.readable e.writable)

calls_table :
    (fd : ℕ) (c : Option ℕ) (d e h r w : Bool)
    → Epoll.calls
        (record { fd = fd; rdhup = d; err = e; hup = h; readable = r; writable = w; counter = c })
      ≡ map (event fd) (kinds d e h r w)
calls_table fd c true e h r w = refl
calls_table fd c false true h r w = refl
calls_table fd c false false true r w = refl
calls_table fd c false false false true true = refl
calls_table fd c false false false true false = refl
calls_table fd c false false false false true = refl
calls_table fd c false false false false false = refl

module _ {R : Type 0} (is_stop : R → Bool) (report : R → Outcome Failure (List Called))
    (calls : R → List Called) (reports : (e : R) → report e ≡ ok (calls e))
    (fatal : WaitErrno → Bool) where
  abbrev loop : List (Wait R) → Trace
  loop = process_waits is_stop report fatal function

  abbrev batch : List R → Trace → Trace
  batch = process_batch is_stop report fatal function

  batch-before :
      (es : List R) (rest : Trace)
      → All (λ e. is_stop e ≡ false) es
      → batch es rest ≡ before (batch_calls calls es) rest
  batch-before [] rest h = refl
  batch-before (e ∷ es) rest (h, hs) =
      rw (h, reports e, batch-before es rest hs)
        (before-before (calls e) (batch_calls calls es) rest)

  loop-before :
      (pre post : List (Wait R))
      → All (IsCalm is_stop fatal) pre
      → loop (pre ++ post) ≡ before (all_calls calls pre) (loop post)
  loop-before [] post h = refl
  loop-before (ready es ∷ pre) post (h, hs) =
      batch-before es (loop (pre ++ post)) h
      ∙ ap (before (batch_calls calls es)) (loop-before pre post hs)
      ∙ before-before (batch_calls calls es) (all_calls calls pre) (loop post)
  loop-before (nothing ∷ pre) post (h, hs) =
      ap (before (timeout ∷ [])) (loop-before pre post hs)
      ∙ before-before (timeout ∷ []) (all_calls calls pre) (loop post)
  loop-before (wait_failed e ∷ pre) post (h, hs) = rw h (loop-before pre post hs)

  batch-stop :
      (es : List R) (stop : R) (late : List R) (rest : Trace)
      → All (λ e. is_stop e ≡ false) es
      → is_stop stop ≡ true
      → batch (es ++ stop ∷ late) rest ≡ (batch_calls calls es, ok stopped)
  batch-stop [] stop late rest h s = rw s refl
  batch-stop (e ∷ es) stop late rest (h, hs) s =
      rw (h, reports e, batch-stop es stop late rest hs s) refl

  loop-order :
      (pre post : List (Wait R)) (es : List R) (stop : R) (late : List R)
      → All (IsCalm is_stop fatal) pre
      → All (λ e. is_stop e ≡ false) es
      → is_stop stop ≡ true
      → process_waits is_stop report fatal function (pre ++ ready (es ++ stop ∷ late) ∷ post)
        ≡ (all_calls calls pre ++ batch_calls calls es, ok stopped)
  loop-order pre post es stop late calm h s =
      loop-before pre (ready (es ++ stop ∷ late) ∷ post) calm
      ∙ ap (before (all_calls calls pre)) (batch-stop es stop late (loop post) h s)

-- The event by which `stop` ends the loop: the descriptor is that of `stop`, and a read from it
-- gives the count 1.
abbrev pub IsStop : ℕ → Epoll.Ready → Type 0
IsStop stop_fd e = (0 < e.fd) × (e.fd ≡ stop_fd) × (e.readable ≡ true) × (e.counter ≡ some 1)

-- Waits without such an event, and without an error of the three that are thrown.
abbrev pub IsPassed : ℕ → Wait Epoll.Ready → Type 0
IsPassed stop_fd (ready es) = All (λ e. IsStop stop_fd e → ⊥) es
IsPassed stop_fd nothing = Unit
IsPassed stop_fd (wait_failed e) = (e ≢ efault) × (e ≢ ebadf) × (e ≢ einval)

stop_seen : (stop_fd : ℕ) (e : Epoll.Ready) → IsStop stop_fd e → Epoll.is_stop stop_fd e ≡ true
unfolding Epoll.is_stop
stop_seen stop_fd e (pos, same, readable, one) = rw (readable, one) (ground (arith, pos, same))

is_stop-IsStop : (stop_fd : ℕ) (e : Epoll.Ready) → Epoll.is_stop stop_fd e ≡ true → IsStop stop_fd e
unfolding Epoll.is_stop
is_stop-IsStop stop_fd e h = go e.readable e.counter refl refl h
  where
    go :
        (r : Bool) (c : Option ℕ)
        → e.readable ≡ r
        → e.counter ≡ c
        → (ltb 0 e.fd && (e.fd == stop_fd) && r && Epoll.is_one c) ≡ true
        → IsStop stop_fd e
    go true (some n) f g b =
        let one : n ≡ 1 = ground (arith, b) in
        (ground (arith, b), ground (arith, b), f, g ∙ ap some one)
    go true none f g b = ground (arith, b)
    go false c f g b = ground (arith, b)

not_stop :
    (stop_fd : ℕ) (es : List Epoll.Ready)
    → All (λ e. IsStop stop_fd e → ⊥) es
    → All (λ e. Epoll.is_stop stop_fd e ≡ false) es
not_stop stop_fd [] h = tt
not_stop stop_fd (e ∷ es) (h, hs) = elim (Bool-cases (Epoll.is_stop stop_fd e)) [
  | inl b ↦ absurd (h (is_stop-IsStop stop_fd e b))
  | inr b ↦ (b, not_stop stop_fd es hs)
]

not_fatal : (e : WaitErrno) → e ≢ efault → e ≢ ebadf → e ≢ einval → Epoll.fatal e ≡ false
unfolding Epoll.fatal
not_fatal efault a b c = absurd (a refl)
not_fatal ebadf a b c = absurd (b refl)
not_fatal einval a b c = absurd (c refl)
not_fatal eintr a b c = refl
not_fatal eacces a b c = refl
not_fatal enoent a b c = refl
not_fatal enomem a b c = refl
not_fatal esrch a b c = refl
not_fatal (other n) a b c = refl

passed-IsCalm :
    (stop_fd : ℕ) (waits : List (Wait Epoll.Ready))
    → All (IsPassed stop_fd) waits
    → All (IsCalm (Epoll.is_stop stop_fd) Epoll.fatal) waits
passed-IsCalm stop_fd [] h = tt
passed-IsCalm stop_fd (ready es ∷ waits) (h, hs) =
    (not_stop stop_fd es h, passed-IsCalm stop_fd waits hs)
passed-IsCalm stop_fd (nothing ∷ waits) (h, hs) = (tt, passed-IsCalm stop_fd waits hs)
passed-IsCalm stop_fd (wait_failed e ∷ waits) ((a, b, c), hs) =
    (not_fatal e a b c, passed-IsCalm stop_fd waits hs)

-- With both callbacks set, the loop of source/epoll.cpp makes, for every event of every wait up to
-- the stop event and in the order in which the system gave them, the calls that the table of the
-- flags has for it (closed alone, else error alone, else read and then write), and one call for each
-- wait that ran out of time; waits that fail by an interruption, or by another error than EFAULT,
-- EBADF and EINVAL, are passed over. At the stop event (readable, with the descriptor of `stop`, and
-- a count of 1 to read) it ends, and makes no call for the events behind it.
pub epoll_order :
    (stop_fd : ℕ) (pre post : List (Wait Epoll.Ready)) (es : List Epoll.Ready) (stop : Epoll.Ready)
    (late : List Epoll.Ready)
    → All (IsPassed stop_fd) pre
    → All (λ e. IsStop stop_fd e → ⊥) es
    → IsStop stop_fd stop
    → Epoll.process_events stop_fd function function (pre ++ ready (es ++ stop ∷ late) ∷ post)
      ≡ (all_calls told pre ++ batch_calls told es, ok stopped)
unfolding Epoll.process_events Epoll.process_fd
epoll_order stop_fd pre post es stop late calm h s =
    loop-order (Epoll.is_stop stop_fd) (Epoll.process_fd function) told
      (λ e. ap ok (calls_table e.fd e.counter e.rdhup e.err e.hup e.readable e.writable))
      Epoll.fatal pre post es stop late (passed-IsCalm stop_fd pre calm) (not_stop stop_fd es h)
      (stop_seen stop_fd stop s)

-- The same of source/kqueue.cpp, with the calls that its `process_fd` makes of an event.
pub kqueue_order :
    (stop_fd : ℕ) (pre post : List (Wait Kqueue.Ready)) (es : List Kqueue.Ready)
    (stop : Kqueue.Ready) (late : List Kqueue.Ready)
    → All (IsCalm (Kqueue.is_stop stop_fd) Kqueue.fatal) pre
    → All (λ e. Kqueue.is_stop stop_fd e ≡ false) es
    → Kqueue.is_stop stop_fd stop ≡ true
    → Kqueue.process_events stop_fd function function (pre ++ ready (es ++ stop ∷ late) ∷ post)
      ≡ (all_calls Kqueue.calls pre ++ batch_calls Kqueue.calls es, ok stopped)
unfolding Kqueue.process_events Kqueue.process_fd
kqueue_order stop_fd =
    loop-order (Kqueue.is_stop stop_fd) (Kqueue.process_fd function) Kqueue.calls (λ e. refl)
      Kqueue.fatal

-- The timeout of `kevent` is the one that was given, in seconds and less than a second of nanoseconds.
pub timespec_lem :
    (ms : ℕ)
    → let (sec, nsec) = Kqueue.timespec ms in
      (sec * 1000000000 + nsec ≡ ms * 1000000) × (nsec < 1000000000)
unfolding Kqueue.timespec
timespec_lem ms = elim (Bool-cases (ltb ms 1000)) [
  | inl b ↦ rw b (omega arith, ground arith)
  | inr b ↦ rw b (omega arith, omega arith)
]
