-- ===== src/Events.antt =====
-- include/ez/events.hpp, and what source/epoll.cpp and source/kqueue.cpp have in common: the loop that
-- waits for events and calls back, and the loop in which `start` waits for its workers. What the
-- system's waits say is a list, in order; what the loops do is the list of the calls that they make.
pub mod Epoll
pub mod Kqueue
pub mod Order
pub mod Workers
use ez.Base.{
  ◌∷◌, ◌++◌, if◌then◌else◌, ℕ, zero, suc, Bool, true, false, ◌||◌, not, Option, none, some, List,
  [], Outcome, ok, throws, fault, ◌>>=◌,
}

-- `event_e`
pub data Kind : Type 0 where
  error read write closed : Kind

-- A callback: `m_event_fn(m_param, fd, kind, worker)` or `m_timeout_fn(m_param, worker)`.
pub data Called : Type 0 where
  event : (fd : ℕ) → Kind → Called
  timeout : Called

-- A pointer to a callback: before `on_event` or `on_timeout` its value is not determined.
pub data Handler : Type 0 where
  undetermined null function : Handler

pub data WaitErrno : Type 0 where
  eintr efault ebadf einval eacces enoent enomem esrch : WaitErrno
  other : ℕ → WaitErrno

-- What one wait says: events, that the time is over, or -1.
pub data Wait (R : Type 0) : Type 0 where
  ready : List R → Wait R
  nothing : Wait R
  wait_failed : WaitErrno → Wait R

pub data Failure : Type 0 where
  wait_error : WaitErrno → Failure
  cant_add wrong_worker : Failure

-- How the loop ends: at the stop event, or not within the waits given.
pub data Ending : Type 0 where
  stopped running : Ending

-- The calls made, and how it ended: by itself, by an exception, or by undefined behaviour.
abbrev pub Trace : Type 0
Trace = List Called × Outcome Failure Ending

abbrev pub before : List Called → Trace → Trace
before calls (later, e) = (calls ++ later, e)

-- The calls of one event, and then the rest, unless the event ends it all.
abbrev pub after_event : Outcome Failure (List Called) → Trace → Trace
after_event (ok calls) rest = before calls rest
after_event (throws x) rest = ([], throws x)
after_event fault rest = ([], fault)

-- `if (m_timeout_fn) m_timeout_fn(m_param, _worker)`
abbrev pub on_time_over : Handler → Outcome Failure (List Called)
on_time_over undetermined = fault
on_time_over null = ok []
on_time_over function = ok (timeout ∷ [])

-- The errors that the loop throws, as the system it stands on names them.
module _ {R : Type 0} (is_stop : R → Bool) (report : R → Outcome Failure (List Called))
    (fatal : WaitErrno → Bool) (timeout_fn : Handler) where
  -- `for (int i = 0; i < result; ++i)`, and what comes after it.
  abbrev pub process_batch : List R → Trace → Trace
  process_batch [] rest = rest
  process_batch (e ∷ es) rest =
      let later = process_batch es rest in
      if is_stop e then ([], ok stopped) else after_event (report e) later

  abbrev pub process_waits : List (Wait R) → Trace
  process_waits [] = ([], ok running)
  process_waits (ready events ∷ waits) = process_batch events (process_waits waits)
  process_waits (nothing ∷ waits) = after_event (on_time_over timeout_fn) (process_waits waits)
  process_waits (wait_failed e ∷ waits) =
      let later = process_waits waits in if fatal e then ([], throws (wait_error e)) else later

-- `if (running) { found = true; ... }` for the workers from the first one on: whether one was found,
-- and the numbers of those that are told to stop. A worker is told once.
pub record Worker : Type 0 where
  pub running : Bool
  pub stopping : Bool

unfoldable pub tell_workers : ℕ → List Worker → Bool × List ℕ × List Worker
tell_workers i [] = (false, [], [])
tell_workers i (w ∷ ws) =
    let (found, told, ws') = tell_workers (suc i) ws in
    if w.running
    then (true, (if w.stopping then told else i ∷ told), record w { stopping = true } ∷ ws')
    else (found, told, w ∷ ws')

-- Between two passes, the threads may have ended or begun.
abbrev pub with_running : List Bool → List Worker → List Worker
with_running [] ws = ws
with_running (r ∷ rs) [] = []
with_running (r ∷ rs) (w ∷ ws) = record w { running = r } ∷ with_running rs ws

-- `while (!found)`, over what `running` is at each pass: the workers told, and whether the loop ends.
unfoldable pub await_workers : List (List Bool) → List Worker → List ℕ × Bool
await_workers [] ws = ([], false)
await_workers (now ∷ passes) ws =
    let (found, told, ws') = tell_workers 0 (with_running now ws) in
    let (told', ended) = await_workers passes ws' in
    if found then (told, true) else (told ++ told', ended)

-- `if (m_workers == 0) return;`, and the loop behind it.
unfoldable pub wait_for_workers : List (List Bool) → List Worker → List ℕ × Bool
wait_for_workers passes [] = ([], true)
wait_for_workers passes (w ∷ ws) = await_workers passes (w ∷ ws)
