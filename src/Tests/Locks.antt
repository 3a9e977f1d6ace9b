-- ===== src/Tests/Locks.antt =====
-- include/ez/spin_lock.hpp with two threads.
use ez.Base.{◌≤◌, ◌≡◌, ◌↔◌, ◌∷◌, refl, true, some, [], get_elem?}
use ez.SpinLock
use ez.SpinLock.{
  System, start, inside, waiting, called, attempted, Reach, here, next, call, attempt,
}
use ez.SpinLock.Exclusion.{inside_count, mutual_exclusion}
use ez.SpinLock.Progress.{Soon, waiting_thread_lem}

-- The first thread got the lock, and the second one waits.
abbrev contended : System
contended = record { locked = true; threads = inside ∷ waiting ∷ [] }

contended-Reach : Reach (start 2) contended
unfolding SpinLock.try_lock SpinLock.test_and_set
contended-Reach = next (next here (attempt 0 refl refl)) (call 1 refl refl)

mutual_exclusion_example :
    (inside_count contended.threads ≤ 1)
    × ((contended.locked ≡ true) ↔ (inside_count contended.threads ≡ 1))
mutual_exclusion_example = mutual_exclusion 2 contended contended-Reach

waiting_thread_example : (u : System) × Soon contended u × (get_elem? u.threads 1 ≡ some inside)
waiting_thread_example = waiting_thread_lem 2 1 contended contended-Reach refl
