-- ===== src/SpinLock/Progress.antt =====
-- A thread in the loop of `lock` of include/ez/spin_lock.hpp can get the lock.
use ez.Base.{
  ◌≤◌, ◌≡◌, ◌≢◌, ◌⊎◌, inl, inr, ◌∙◌, ◌∷◌, if◌then◌else◌, Bool, ℕ, zero, suc, refl, sym, ap, true,
  false, Option, some, List, [], arith, get_elem?, set,
}
use ez.SpinLock.{
  lock_pass, test_and_set, unlock, Phase, outside, waiting, inside, System, start, looped, released,
  loop, release, Step, Reach,
}
use ez.SpinLock.Exclusion.{inside_count, Reach-IsExclusive}

get-set :
    (ps : List Phase) (i : ℕ) (p q : Phase)
    → get_elem? ps i ≡ some p
    → get_elem? (set ps i q) i ≡ some q
get-set [] i p q e = cc
get-set (x ∷ ps) zero p q e = refl
get-set (x ∷ ps) (suc i) p q e = get-set ps i p q e

get-set_other :
    (ps : List Phase) (i j : ℕ) (q : Phase) → i ≢ j → get_elem? (set ps j q) i ≡ get_elem? ps i
get-set_other [] i j q h = refl
get-set_other (x ∷ ps) zero zero q h = absurd (h refl)
get-set_other (x ∷ ps) zero (suc j) q h = refl
get-set_other (x ∷ ps) (suc i) zero q h = refl
get-set_other (x ∷ ps) (suc i) (suc j) q h = get-set_other ps i j q (λ e. h (ap suc e))

-- Where the count says so, there is a thread that has the lock.
holder : (ps : List Phase) → 1 ≤ inside_count ps → (j : ℕ) × (get_elem? ps j ≡ some inside)
holder [] h = absurd (omega arith)
holder (inside ∷ ps) h = (0, refl)
holder (outside ∷ ps) h = let (j, e) = holder ps (omega arith) in (suc j, e)
holder (waiting ∷ ps) h = let (j, e) = holder ps (omega arith) in (suc j, e)

waits : ◌≢◌ {A = Option Phase} (some waiting) (some inside)
waits e = cc

-- In one step or two.
abbrev pub Soon : System → System → Type 0
Soon t u = Step t u ⊎ ((v : System) × Step t v × Step v u)

-- With the lock free or taken.
gets_lock :
    (b : Bool) (ps : List Phase) (i : ℕ)
    → inside_count ps ≡ (if b then 1 else 0)
    → get_elem? ps i ≡ some waiting
    → (u : System) × Soon (record { locked = b; threads = ps }) u
      × (get_elem? u.threads i ≡ some inside)
unfolding lock_pass test_and_set unlock
gets_lock false ps i h g =
    let t : System = record { locked = false; threads = ps } in
    (looped i t, inl (loop i g refl), get-set ps i waiting inside g)
gets_lock true ps i h g =
    let t : System = record { locked = true; threads = ps } in
    let (j, e) = holder ps (omega arith) in
    let other : i ≢ j = λ same. waits (sym g ∙ ap (λ k. get_elem? ps k) same ∙ e) in
    let free = released j t in
    let still : get_elem? (set ps j outside) i ≡ some waiting =
      get-set_other ps i j outside other ∙ g in
    (
      looped i free,
      inr (free, release j e refl, loop i still refl),
      get-set (set ps j outside) i waiting inside still,
    )

-- From every state that is reached, a thread that waits can have the lock in one step or two: the thread that has it, if there is one, gives it back, and the waiting one tests the flag.
pub waiting_thread_lem :
    (n i : ℕ) (t : System)
    → Reach (start n) t
    → get_elem? t.threads i ≡ some waiting
    → (u : System) × Soon t u × (get_elem? u.threads i ≡ some inside)
waiting_thread_lem n i t r g = gets_lock t.locked t.threads i (Reach-IsExclusive n r) g
