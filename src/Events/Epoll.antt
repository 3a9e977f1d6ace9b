-- ===== src/Events/Epoll.antt =====
-- source/epoll.cpp: what an event of `epoll_wait` is reported as, and the loop over them.
use ez.Base.{
  ◌∷◌, ◌++◌, ◌==◌, if◌then◌else◌, ℕ, Bool, true, false, ◌&&◌, ◌||◌, Option, none, some, List, [],
  ltb, get_elem?, Outcome, ok, throws, fault, checked, ◌>>=◌,
}
use ez.Events.{
  error, read, write, closed, Called, event, Handler, undetermined, null, function, WaitErrno,
  efault, ebadf, einval, Wait, Failure, cant_add, wrong_worker, Trace, process_waits,
}

-- The bits of `epoll_event::events` that are tested, the descriptor, and the counter that a `read` of
-- 8 bytes from it would give.
pub record Ready : Type 0 where
  pub fd : ℕ
  pub rdhup : Bool
  pub err : Bool
  pub hup : Bool
  pub readable : Bool
  pub writable : Bool
  pub counter : Option ℕ

abbrev pub if_set : Bool → Called → List Called
if_set true c = c ∷ []
if_set false c = []

abbrev pub calls : Ready → List Called
calls e =
    if e.rdhup
    then event e.fd closed ∷ []
    else if e.err || e.hup
    then event e.fd error ∷ []
    else if_set e.readable (event e.fd read) ++ if_set e.writable (event e.fd write)

unfoldable pub process_fd : Handler → Ready → Outcome Failure (List Called)
process_fd undetermined e = fault
process_fd null e = ok []
process_fd function e = ok (calls e)

-- `read(fd, &c, 8) == 8 && c == 1`
abbrev pub is_one : Option ℕ → Bool
is_one none = false
is_one (some c) = c == 1

unfoldable pub is_stop : (stop_fd : ℕ) → Ready → Bool
is_stop stop_fd e = ltb 0 e.fd && (e.fd == stop_fd) && e.readable && is_one e.counter

unfoldable pub fatal : WaitErrno → Bool
fatal efault = true
fatal ebadf = true
fatal einval = true
fatal _ = false

unfoldable pub process_events :
    (stop_fd : ℕ) (event_fn timeout_fn : Handler) → List (Wait Ready) → Trace
process_events stop_fd event_fn timeout_fn =
    process_waits (is_stop stop_fd) (process_fd event_fn) fatal timeout_fn

-- `epoll_ctl` is a parameter: whether the descriptor is added.
module _ (epoll_add : Option ℕ → ℕ → Bool) where
  unfoldable pub add_fd : (epoll : Option ℕ) → ℕ → Outcome Failure (Unit {0})
  add_fd epoll fd = if epoll_add epoll fd then ok tt else throws cant_add

  -- `m_worker[_worker].epoll_fd`, for the first `m_workers`.
  unfoldable pub add_fd_to :
      (workers : ℕ) → List (Option ℕ) → ℕ → (worker : ℕ) → Outcome Failure (Unit {0})
  add_fd_to workers epoll_fds fd worker =
      if ltb worker workers
      then (checked (get_elem? epoll_fds worker) >>= λ efd. add_fd efd fd)
      else throws wrong_worker
