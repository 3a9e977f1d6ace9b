-- ===== src/Events/Kqueue.antt =====
-- source/kqueue.cpp: what an event of `kevent` is reported as, and the loop over them.
use ez.Base.{
  ◌∷◌, ◌++◌, ◌-◌, ◌*◌, ◌/◌, ◌==◌, if◌then◌else◌, ℕ, Bool, true, false, ◌&&◌, Option, List, [], ltb,
  get_elem?, Outcome, ok, throws, fault, checked, ◌>>=◌,
}
use ez.Events.{
  error, read, write, closed, Called, event, Handler, undetermined, null, function, WaitErrno,
  efault, ebadf, einval, eacces, enoent, enomem, esrch, Wait, Failure, cant_add, Trace,
  process_waits,
}

pub data Filter : Type 0 where
  evfilt_read evfilt_write evfilt_other : Filter

-- `EV_ERROR` and `EV_EOF` of the flags; `known` says that `data` is one of the errors of the switch.
pub record Ready : Type 0 where
  pub fd : ℕ
  pub filter : Filter
  pub ev_error : Bool
  pub known : Bool
  pub ev_eof : Bool

abbrev pub of_filter : ℕ → Filter → List Called
of_filter fd evfilt_read = event fd read ∷ []
of_filter fd evfilt_write = event fd write ∷ []
of_filter fd evfilt_other = []

abbrev pub calls : Ready → List Called
calls e =
    if e.ev_error && e.known
    then event e.fd error ∷ []
    else of_filter e.fd e.filter ++ (if e.ev_eof then event e.fd closed ∷ [] else [])

-- The callback is called without a test of the pointer.
abbrev pub through : Handler → List Called → Outcome Failure (List Called)
through function cs = ok cs
through h [] = ok []
through undetermined (c ∷ cs) = fault
through null (c ∷ cs) = fault

unfoldable pub process_fd : Handler → Ready → Outcome Failure (List Called)
process_fd event_fn e = through event_fn (calls e)

unfoldable pub is_stop : (stop_fd : ℕ) → Ready → Bool
is_stop stop_fd e = e.fd == stop_fd

unfoldable pub fatal : WaitErrno → Bool
fatal eacces = true
fatal efault = true
fatal ebadf = true
fatal einval = true
fatal enoent = true
fatal enomem = true
fatal esrch = true
fatal _ = false

unfoldable pub process_events :
    (stop_fd : ℕ) (event_fn timeout_fn : Handler) → List (Wait Ready) → Trace
process_events stop_fd event_fn timeout_fn =
    process_waits (is_stop stop_fd) (process_fd event_fn) fatal timeout_fn

-- `timespec`: seconds and nanoseconds of a timeout in milliseconds that is above 0.
unfoldable pub timespec : ℕ → ℕ × ℕ
timespec timeout =
    if ltb timeout 1000
    then (0, timeout * 1000000)
    else (timeout / 1000, (timeout - (timeout / 1000) * 1000) * 1000000)

-- `kevent` that adds the descriptor is a parameter: whether it succeeds.
module _ (kqueue_add : Option ℕ → ℕ → Bool) where
  unfoldable pub add_fd : (kqueue : Option ℕ) → ℕ → Outcome Failure (Unit {0})
  add_fd kqueue fd = if kqueue_add kqueue fd then ok tt else throws cant_add

  -- A worker that does not exist is passed over.
  unfoldable pub add_fd_to :
      (workers : ℕ) → List (Option ℕ) → ℕ → (worker : ℕ) → Outcome Failure (Unit {0})
  add_fd_to workers kqueue_fds fd worker =
      if ltb worker workers
      then (checked (get_elem? kqueue_fds worker) >>= λ kfd. add_fd kfd fd)
      else ok tt
