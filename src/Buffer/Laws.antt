-- ===== src/Buffer/Laws.antt =====
-- What is written into a buffer of source/buffer.cpp is read back, and what a move of the position
-- leaves.
use ez.Base.{
  ◌+◌, ◌-◌, ◌^◌, ◌≤◌, ◌<◌, ◌≡◌, ℕ, refl, sym, ap, inl, inr, true, false, List, [], arith, ltb, leb,
  Bool-cases, length, take, drop, length-take, length-drop, take_all, drop-drop, drop-take, ok,
}
use ez.Buffer.{Buffer, of_bytes, remaining, set_size, set_position, read}
use ez.Buffer.Area.{IsValid, remaining_lem}

-- The bytes that a handle shows: from the position to the size.
abbrev pub contents : Buffer → List ℕ
contents b = take (b.size - b.position) (drop b.position b.mem)

pub length-contents : {b : Buffer} → IsValid b → length (contents b) ≡ b.size - b.position
length-contents {b} v =
    omega (
      arith,
      length-take (b.size - b.position) (drop b.position b.mem),
      length-drop b.position b.mem,
    )

pub contents-of_bytes : (bytes : List ℕ) → contents (of_bytes bytes) ≡ bytes
unfolding of_bytes
contents-of_bytes bytes = take_all _ bytes (omega arith)

-- A copy out of a buffer of all that is left succeeds, and gives its contents.
pub read_all :
    {E : Type 0} {b : Buffer} → IsValid b → read {E = E} b (remaining b) ≡ ok (contents b)
unfolding read
read_all {b} v =
    let e = remaining_lem v in
    let t : leb (b.position + (b.size - b.position)) (length b.mem) ≡ true = ground arith in
    rw (e, t) refl

-- Advancing by a number of bytes that are there drops them from the contents.
pub contents-set_position :
    {b : Buffer} (n : ℕ)
    → IsValid b
    → n ≤ b.size - b.position
    → contents (set_position b (b.position + n)) ≡ drop n (contents b)
unfolding set_position
contents-set_position {b} n v h =
    let t : ltb b.size (b.position + n) ≡ false = ground (arith, v.placed) in
    let e : b.size - b.position - n ≡ b.size - (b.position + n) = omega arith in
    rw
      (
        t,
        drop-take n (b.size - b.position) (drop b.position b.mem),
        drop-drop n b.position b.mem,
        e,
      )
      refl

-- Beyond the end the position stops at the size: the contents are used up.
pub contents-set_position_end :
    (b : Buffer) (pos : ℕ) → b.size ≤ pos → contents (set_position b pos) ≡ []
unfolding set_position
contents-set_position_end b pos h = elim (Bool-cases (ltb b.size pos)) [
  | inl e ↦ let z : b.size - b.size ≡ 0 = omega arith in rw (e, z) refl
  | inr e ↦ let z : b.size - pos ≡ 0 = omega arith in rw (e, z) refl
]

-- Where a size below the position of a valid buffer is set, the unsigned `size()` wraps to an enormous number.
pub remaining_wraps :
    {b : Buffer} (size : ℕ) → IsValid b → size < b.position → 2 ^ 63 < remaining (set_size b size)
unfolding remaining set_size
remaining_wraps size v h = ground arith

-- At the start already, moving there changes nothing.
pub set_position_start : (b : Buffer) → b.position ≡ 0 → set_position b 0 ≡ b
unfolding set_position
set_position_start b z =
    let t : ltb b.size 0 ≡ false = ground arith in
    rw t (ap (λ (p : ℕ). record b { position = p }) (sym z))
