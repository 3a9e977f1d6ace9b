-- ===== src/Buffer/Store.antt =====
-- source/buffer.cpp: the handles, the shared `impl` objects and their reference counts.
-- An address is a number; a freed address is never given out again, so that a use after the
-- `delete` shows as a fault.
pub mod Counts
pub mod Areas
pub mod Refs
pub mod Balance
use ez.Base.{
  ◌+◌, ◌-◌, ◌^◌, ◌∷◌, ◌==◌, ◌>>=◌, if◌then◌else◌, ℕ, zero, suc, Bool, true, false, Option, none,
  some, List, [], get_elem?, set, u32, Outcome, ok, fault,
}
use ez.Buffer.{Buffer}

-- `m_data`: null, an area that a constructor has allocated, or one of the caller.
pub data Area : Type 0 where
  null : Area
  made foreign : ℕ → Area

-- `impl`, with `m_refs` a 32-bit `unsigned`; `buf` is what is seen through it.
pub record Impl : Type 0 where
  pub area : Area
  pub buf : Buffer
  pub own_data : Bool
  pub refs : ℕ

-- The `impl` objects, and the areas of `new []` that are allocated. The area that the constructor of
-- an `impl` allocates has the number of that `impl`.
pub record Heap : Type 0 where
  pub cells : ℕ → Option Impl
  pub areas : ℕ → Bool
  pub next : ℕ

abbrev pub update : (ℕ → Option Impl) → ℕ → Option Impl → ℕ → Option Impl
update cells p v q = if q == p then v else cells q

abbrev pub mark : (ℕ → Bool) → ℕ → Bool → ℕ → Bool
mark areas p b q = if q == p then b else areas q

abbrev pub put : Heap → ℕ → Option Impl → Heap
put h p v = record h { cells = update h.cells p v }

-- `delete []`: of a null pointer it does nothing, and the area of a caller is not one of `new []`.
unfoldable pub delete_area : Area → Heap → Outcome ⊥ Heap
delete_area null h = ok h
delete_area (made a) h = if h.areas a then ok (record h { areas = mark h.areas a false }) else fault
delete_area (foreign a) h = fault

-- `if (m_own_data) delete [] m_data; delete this;`
unfoldable pub freed : ℕ → Impl → Heap → Outcome ⊥ Heap
freed p c h = do h' ← if c.own_data then delete_area c.area h else ok h; ok (put h' p none)

-- `--m_refs; if (m_refs == 0) { ... }`
unfoldable pub released : ℕ → Impl → Heap → Outcome ⊥ Heap
released p c h =
    let refs = u32 (c.refs + 2 ^ 32 - 1) in
    if refs == 0 then freed p c h else ok (put h p (some (record c { refs = refs })))

pub dec_ref : ℕ → Heap → Outcome ⊥ Heap
dec_ref p h = elim (h.cells p) [ none ↦ fault | some c ↦ released p c h ]

-- `++m_refs;`
pub retained : Impl → Impl
retained c = record c { refs = u32 (c.refs + 1) }

pub inc_ref : ℕ → Heap → Outcome ⊥ Heap
inc_ref p h = elim (h.cells p) [ none ↦ fault | some c ↦ ok (put h p (some (retained c))) ]

-- What a constructor does for its data: nothing, an area of its own, or the area of the caller.
pub data Given : Type 0 where
  no_area new_area : Given
  area_of : ℕ → Given

pub constructed : Given → ℕ → Buffer → Impl
constructed no_area p b = record { area = null; buf = b; own_data = true; refs = 1 }
constructed new_area p b = record { area = made p; buf = b; own_data = true; refs = 1 }
constructed (area_of a) p b = record { area = foreign a; buf = b; own_data = false; refs = 1 }

abbrev pub is_new : Given → Bool
is_new new_area = true
is_new _ = false

-- A constructor: a new `impl` with one reference.
pub allocate : Given → Buffer → Heap → ℕ × Heap
allocate g b h = (
  h.next,
  record {
    cells = update h.cells h.next (some (constructed g h.next b));
    areas = mark h.areas h.next (is_new g);
    next = h.next + 1;
  },
)

-- `left = right`: `same` is `this == &_right`. The result is the new `m_impl` of `left`.
pub assign : Bool → Option ℕ → Option ℕ → Heap → Outcome ⊥ (Option ℕ × Heap)
assign true left right h = ok (left, h)
assign false left none h = ok (left, h)
assign false none (some r) h = do h' ← inc_ref r h; ok (some r, h')
assign false (some l) (some r) h = do h' ← dec_ref l h; h'' ← inc_ref r h'; ok (some r, h'')

-- `~buffer()`: the pointer is used without a test.
pub destroy : Option ℕ → Heap → Outcome ⊥ Heap
destroy none h = fault
destroy (some p) h = dec_ref p h

-- The `m_impl` of each `buffer` object that is alive.
pub record World : Type 0 where
  pub heap : Heap
  pub handles : List (Option ℕ)

-- A copy construction is an assignment to an object whose pointer is null.
pub data Op : Type 0 where
  construct : Given → Buffer → Op
  copy : ℕ → Op
  assigns : ℕ → ℕ → Op
  destroys : ℕ → Op

abbrev remove : ℕ → List (Option ℕ) → List (Option ℕ)
remove i [] = []
remove zero (x ∷ xs) = xs
remove (suc i) (x ∷ xs) = x ∷ remove i xs

-- One operation on the live objects; there is none on an object that is not alive.
pub step : World → Op → Outcome ⊥ World
step w (construct g b) =
    let (p, h) = allocate g b w.heap in ok (record { heap = h; handles = some p ∷ w.handles })
step w (copy i) = elim (get_elem? w.handles i) [
  | none ↦ ok w
  | some right ↦ (do
    (p, h) ← assign false none right w.heap
    ok (record { heap = h; handles = p ∷ w.handles }))
]
step w (assigns i j) = elim (get_elem? w.handles i) [
  | none ↦ ok w
  | some left ↦ elim (get_elem? w.handles j) [
    | none ↦ ok w
    | some right ↦ (do
      (p, h) ← assign (i == j) left right w.heap
      ok (record { heap = h; handles = set w.handles i p }))
  ]
]
step w (destroys i) = elim (get_elem? w.handles i) [
  | none ↦ ok w
  | some p ↦ (do h ← destroy p w.heap; ok (record { heap = h; handles = remove i w.handles }))
]

pub run : World → List Op → Outcome ⊥ World
run w [] = ok w
run w (op ∷ ops) = do w' ← step w op; run w' ops

pub start : World
start = record { heap = record { cells = λ p. none; areas = λ p. false; next = 0 }; handles = [] }
