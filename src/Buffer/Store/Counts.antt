-- ===== src/Buffer/Store/Counts.antt =====
-- How many handles refer to an address, and the reference count that stands there.
use ez.Base.{
  ◌+◌, ◌≤◌, ◌<◌, ◌≡◌, ◌≢◌, ◌∷◌, ◌==◌, if◌then◌else◌, ℕ, zero, suc, refl, ap, inl, inr, Bool, true,
  false, Option, none, some, List, [], arith, Bool-cases, Option-cases, length, get_elem?, set,
}
use native.Mathlib.Decide.{dec_lt}
use ez.Buffer.Store.{Impl, Area, null, made, foreign, Heap, remove, put}

abbrev pub hit : ℕ → Option ℕ → ℕ
hit q none = 0
hit q (some p) = if q == p then 1 else 0

abbrev pub count : ℕ → List (Option ℕ) → ℕ
count q [] = 0
count q (x ∷ xs) = hit q x + count q xs

abbrev pub refs_of : Option Impl → ℕ
refs_of none = 0
refs_of (some c) = c.refs

abbrev pub refs_at : Heap → ℕ → ℕ
refs_at h q = refs_of (h.cells q)

pub count-set :
    (q i : ℕ) (hs : List (Option ℕ)) (old new : Option ℕ)
    → get_elem? hs i ≡ some old
    → count q (set hs i new) + hit q old ≡ count q hs + hit q new
count-set q i [] old new e = cc
count-set q zero (x ∷ hs) old new e = let s : x ≡ old = ground arith in rw s (omega arith)
count-set q (suc i) (x ∷ hs) old new e = omega (arith, count-set q i hs old new e)

pub count-remove :
    (q i : ℕ) (hs : List (Option ℕ)) (old : Option ℕ)
    → get_elem? hs i ≡ some old
    → count q (remove i hs) + hit q old ≡ count q hs
count-remove q i [] old e = cc
count-remove q zero (x ∷ hs) old e = let s : x ≡ old = ground arith in rw s (omega arith)
count-remove q (suc i) (x ∷ hs) old e = omega (arith, count-remove q i hs old e)

-- A handle is counted, and two handles are counted twice.
pub hit-le-count :
    (q i : ℕ) (hs : List (Option ℕ)) (x : Option ℕ) → get_elem? hs i ≡ some x → hit q x ≤ count q hs
hit-le-count q i hs x e = omega (arith, count-remove q i hs x e)

pub two_hits :
    (q i j : ℕ) (hs : List (Option ℕ)) (x y : Option ℕ)
    → i ≢ j
    → get_elem? hs i ≡ some x
    → get_elem? hs j ≡ some y
    → hit q x + hit q y ≤ count q hs
two_hits q i j [] x y n e f = cc
two_hits q zero zero (z ∷ hs) x y n e f = absurd (n refl)
two_hits q zero (suc j) (z ∷ hs) x y n e f =
    let s : z ≡ x = ground arith in rw s (omega (arith, hit-le-count q j hs y f))
two_hits q (suc i) zero (z ∷ hs) x y n e f =
    let s : z ≡ y = ground arith in rw s (omega (arith, hit-le-count q i hs x e))
two_hits q (suc i) (suc j) (z ∷ hs) x y n e f =
    omega (arith, two_hits q i j hs x y (λ k. n (ap suc k)) e f)

pub count-le-length : (q : ℕ) (hs : List (Option ℕ)) → count q hs ≤ length hs
count-le-length q [] = omega arith
count-le-length q (none ∷ hs) = omega (arith, count-le-length q hs)
count-le-length q (some p ∷ hs) = ground (arith, count-le-length q hs)

-- `m_own_data` stands in an object without data or with the area of its own number, and not in one
-- with the area of a caller.
abbrev pub IsPlaced : ℕ → Bool → Area → Type 0
IsPlaced p true null = Unit
IsPlaced p true (made a) = a ≡ p
IsPlaced p true (foreign a) = ⊥
IsPlaced p false null = ⊥
IsPlaced p false (made a) = ⊥
IsPlaced p false (foreign a) = Unit

abbrev pub is_made : Area → Bool
is_made null = false
is_made (made a) = true
is_made (foreign a) = false

abbrev pub has_area : Option Impl → Bool
has_area none = false
has_area (some c) = is_made c.area

-- Every object that is there has a reference, nothing lies at an address not given out, and an area
-- is allocated exactly as long as the object that owns it is there.
pub record IsTight (h : Heap) : Type 0 where
  pub positive : (p : ℕ) (c : Impl) → h.cells p ≡ some c → 1 ≤ c.refs
  pub fresh : (p : ℕ) → h.next ≤ p → h.cells p ≡ none
  pub placed : (p : ℕ) (c : Impl) → h.cells p ≡ some c → IsPlaced p c.own_data c.area
  pub areas : (p : ℕ) → h.areas p ≡ has_area (h.cells p)

pub cell_of_refs : (h : Heap) (p : ℕ) → 1 ≤ refs_at h p → (c : Impl) × (h.cells p ≡ some c)
cell_of_refs h p le = elim (Option-cases (h.cells p)) [
  | inl e ↦ absurd (omega (arith, ap refs_of e))
  | inr (c, e) ↦ (c, e)
]

pub refs_at-put :
    (h : Heap) (p : ℕ) (v : Option Impl) (q : ℕ)
    → refs_at (put h p v) q ≡ (if q == p then refs_of v else refs_at h q)
refs_at-put h p v q = elim (Bool-cases (q == p)) [ inl e ↦ rw e refl | inr e ↦ rw e refl ]

pub lt_next : (h : Heap) (p : ℕ) (c : Impl) → IsTight h → h.cells p ≡ some c → p < h.next
lt_next h p c t e = elim (dec_lt p h.next) [
  | yes lt ↦ lt
  | no ge ↦ let n = t.fresh p (omega arith) in absurd (cc)
]
