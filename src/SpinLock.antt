-- ===== src/SpinLock.antt =====
-- include/ez/spin_lock.hpp: the flag, and threads that take turns in any order. A step is one atomic
-- operation on the flag; the thread that unlocks is one that has the lock.
pub mod Exclusion
pub mod Progress
use ez.Base.{◌≡◌, ℕ, Bool, true, false, not, some, List, get_elem?, set, replicate}

-- `locked.test_and_set()`: what the flag was, and what it is then.
unfoldable pub test_and_set : Bool → Bool × Bool
test_and_set locked = (locked, true)

-- One test of the loop in `lock`: whether the loop goes on.
unfoldable pub lock_pass : Bool → Bool × Bool
lock_pass locked = test_and_set locked

unfoldable pub try_lock : Bool → Bool × Bool
try_lock locked = let r = test_and_set locked in (not r.0, r.1)

-- `locked.clear()`
unfoldable pub unlock : Bool → Bool
unlock locked = false

-- A thread is outside, in the loop of `lock`, or has the lock.
pub data Phase : Type 0 where
  outside waiting inside : Phase

pub record System : Type 0 where
  pub locked : Bool
  pub threads : List Phase

abbrev pub start : ℕ → System
start n = record { locked = false; threads = replicate n outside }

-- Where a thread is behind a test of the loop, and behind `try_lock`.
abbrev pub passed : Bool → Phase
passed true = waiting
passed false = inside

abbrev pub tried : Bool → Phase
tried true = inside
tried false = outside

abbrev pub called : ℕ → System → System
called i t = record t { threads = set t.threads i waiting }

abbrev pub looped : ℕ → System → System
looped i t =
    let r = lock_pass t.locked in record { locked = r.1; threads = set t.threads i (passed r.0) }

abbrev pub attempted : ℕ → System → System
attempted i t =
    let r = try_lock t.locked in record { locked = r.1; threads = set t.threads i (tried r.0) }

abbrev pub released : ℕ → System → System
released i t = record { locked = unlock t.locked; threads = set t.threads i outside }

-- What may happen next, to the thread of this number.
pub data Step (t u : System) : Type 0 where
  call : (i : ℕ) → get_elem? t.threads i ≡ some outside → u ≡ called i t → Step t u
  loop : (i : ℕ) → get_elem? t.threads i ≡ some waiting → u ≡ looped i t → Step t u
  attempt : (i : ℕ) → get_elem? t.threads i ≡ some outside → u ≡ attempted i t → Step t u
  release : (i : ℕ) → get_elem? t.threads i ≡ some inside → u ≡ released i t → Step t u

pub data Reach (s : System) : System → Type 0 where
  here : Reach s s
  next : {t u : System} → Reach s t → Step t u → Reach s u
