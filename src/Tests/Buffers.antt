-- ===== src/Tests/Buffers.antt =====
-- source/buffer.cpp at concrete inputs.
use ez.Base.{◌≡◌, ◌∷◌, ℕ, none, List, [], arith, ok, some, false}
use ez.Buffer
use ez.Buffer.{Buffer}
use ez.Buffer.Store.{
  Impl, World, new_area, area_of, Op, run, start, construct, copy, assigns, destroys,
}
use ez.Buffer.Store.Counts.{refs_at, count, IsPlaced, is_made}
use ez.Buffer.Store.Balance.{run-IsBalanced}

-- Two buffers and a copy; the copy is assigned, which drops a reference, and all but one go.
abbrev history : List Op
history =
    construct new_area (Buffer.make 4)
    ∷ construct (area_of 77) (Buffer.make 9)
    ∷ copy 0
    ∷ assigns 0 2
    ∷ assigns 1 1
    ∷ destroys 1
    ∷ []

run-IsBalanced_example :
    (w : World) × (run start history ≡ ok w)
    × ((q : ℕ) → refs_at w.heap q ≡ count q w.handles)
    × ((q : ℕ) → count q w.handles ≡ 0 → (w.heap.cells q ≡ none) × (w.heap.areas q ≡ false))
    × ((q : ℕ) (c : Impl)
        → w.heap.cells q ≡ some c
        → IsPlaced q c.own_data c.area × (w.heap.areas q ≡ is_made c.area))
run-IsBalanced_example = run-IsBalanced history (omega arith)

abbrev advanced : Buffer
advanced = Buffer.set_position (Buffer.make 10) 8
