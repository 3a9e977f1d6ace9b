-- ===== src/SpinLock/Exclusion.antt =====
-- At most one thread has the lock of include/ez/spin_lock.hpp.
use ez.Base.{
  ◌+◌, ◌≤◌, ◌≡◌, ◌↔◌, ◌∷◌, if◌then◌else◌, ℕ, zero, suc, refl, sym, ap, Bool, true, false, Option,
  none, some, List, [], arith, get_elem?, set,
}
use mathlib.Core.Path.{subst}
use mathlib.Core.Bool.{false≢true}
use ez.SpinLock.{
  test_and_set, lock_pass, try_lock, unlock, Phase, outside, waiting, inside, System, start, looped,
  attempted, released, Step, call, loop, attempt, release, Reach, here, next,
}

abbrev weight : Phase → ℕ
weight inside = 1
weight _ = 0

abbrev weight_of : Option Phase → ℕ
weight_of none = 0
weight_of (some p) = weight p

abbrev pub inside_count : List Phase → ℕ
inside_count [] = 0
inside_count (p ∷ ps) = weight p + inside_count ps

-- The flag is set exactly where a thread has the lock, and then one has.
abbrev pub IsExclusive : System → Type 0
IsExclusive t = inside_count t.threads ≡ (if t.locked then 1 else 0)

count-set :
    (ps : List Phase) (i : ℕ) (p q : Phase)
    → get_elem? ps i ≡ some p
    → inside_count (set ps i q) + weight p ≡ inside_count ps + weight q
count-set [] i p q e = cc
count-set (x ∷ ps) zero p q e = let same : weight x ≡ weight p = ap weight_of e in omega arith
count-set (x ∷ ps) (suc i) p q e = omega (arith, count-set ps i p q e)

looped-IsExclusive :
    (b : Bool) (ps : List Phase) (i : ℕ)
    → get_elem? ps i ≡ some waiting
    → inside_count ps ≡ (if b then 1 else 0)
    → IsExclusive (looped i (record { locked = b; threads = ps }))
unfolding lock_pass try_lock unlock test_and_set
looped-IsExclusive false ps i g h = omega (arith, count-set ps i waiting inside g, h)
looped-IsExclusive true ps i g h = omega (arith, count-set ps i waiting waiting g, h)

attempted-IsExclusive :
    (b : Bool) (ps : List Phase) (i : ℕ)
    → get_elem? ps i ≡ some outside
    → inside_count ps ≡ (if b then 1 else 0)
    → IsExclusive (attempted i (record { locked = b; threads = ps }))
unfolding lock_pass try_lock unlock test_and_set
attempted-IsExclusive false ps i g h = omega (arith, count-set ps i outside inside g, h)
attempted-IsExclusive true ps i g h = omega (arith, count-set ps i outside outside g, h)

released-IsExclusive :
    (b : Bool) (ps : List Phase) (i : ℕ)
    → get_elem? ps i ≡ some inside
    → inside_count ps ≡ (if b then 1 else 0)
    → IsExclusive (released i (record { locked = b; threads = ps }))
unfolding lock_pass try_lock unlock test_and_set
released-IsExclusive false ps i g h = absurd (omega (arith, count-set ps i inside outside g, h))
released-IsExclusive true ps i g h = omega (arith, count-set ps i inside outside g, h)

Step-IsExclusive : {t u : System} → Step t u → IsExclusive t → IsExclusive u
Step-IsExclusive {t} (call i g e) h =
    subst IsExclusive (sym e) (omega (arith, count-set t.threads i outside waiting g, h))
Step-IsExclusive {t} (loop i g e) h =
    subst IsExclusive (sym e) (looped-IsExclusive t.locked t.threads i g h)
Step-IsExclusive {t} (attempt i g e) h =
    subst IsExclusive (sym e) (attempted-IsExclusive t.locked t.threads i g h)
Step-IsExclusive {t} (release i g e) h =
    subst IsExclusive (sym e) (released-IsExclusive t.locked t.threads i g h)

start-IsExclusive : (n : ℕ) → IsExclusive (start n)
start-IsExclusive zero = refl
start-IsExclusive (suc n) = omega (arith, start-IsExclusive n)

pub Reach-IsExclusive : (n : ℕ) {t : System} → Reach (start n) t → IsExclusive t
Reach-IsExclusive n here = start-IsExclusive n
Reach-IsExclusive n (next r s) = Step-IsExclusive s (Reach-IsExclusive n r)

flag_count : (b : Bool) (k : ℕ) → k ≡ (if b then 1 else 0) → (k ≤ 1) × ((b ≡ true) ↔ (k ≡ 1))
flag_count true k h = (omega arith, (λ e. h, λ e. refl))
flag_count false k h = (omega arith, (λ e. absurd (false≢true e), λ e. absurd (omega arith)))

-- However the atomic operations of any number of threads interleave, with the lock free at first and
-- given back only by a thread that has it: never more than one thread has the lock, and one has it
-- exactly where the flag is set.
pub mutual_exclusion :
    (n : ℕ) (t : System)
    → Reach (start n) t
    → (inside_count t.threads ≤ 1) × ((t.locked ≡ true) ↔ (inside_count t.threads ≡ 1))
mutual_exclusion n t r = flag_count t.locked _ (Reach-IsExclusive n r)
