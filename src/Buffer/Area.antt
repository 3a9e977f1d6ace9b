-- ===== src/Buffer/Area.antt =====
-- The well-formed buffers, and that every operation of source/buffer.cpp keeps them so.
use ez.Base.{◌-◌, ◌^◌, ◌≤◌, ◌<◌, ◌≡◌, ℕ, refl, List, arith, length, length-replicate}
use ez.Buffer.{Buffer, empty, make, of_bytes, remaining, set_size, set_position}

-- The sizes describe the memory, and the position is not past the size.
pub record IsValid (b : Buffer) : Type 0 where
  pub owned : length b.mem ≡ b.orig_size
  pub sized : b.size ≤ b.orig_size
  pub placed : b.position ≤ b.size
  pub addressed : b.orig_size < 2 ^ 63

pub empty-IsValid : IsValid empty
empty-IsValid = record {
  owned = refl;
  sized = omega arith;
  placed = omega arith;
  addressed = omega arith;
}

pub make-IsValid : (n : ℕ) → n < 2 ^ 63 → IsValid (make n)
unfolding make
make-IsValid n h = record {
  owned = length-replicate n 0;
  sized = omega arith;
  placed = omega arith;
  addressed = h;
}

pub of_bytes-IsValid : (bytes : List ℕ) → length bytes < 2 ^ 63 → IsValid (of_bytes bytes)
unfolding of_bytes
of_bytes-IsValid bytes h = record {
  owned = refl;
  sized = omega arith;
  placed = omega arith;
  addressed = h;
}

pub set_position-IsValid : {b : Buffer} (pos : ℕ) → IsValid b → IsValid (set_position b pos)
unfolding set_position
set_position-IsValid pos v = ground arith

pub set_size-IsValid :
    {b : Buffer} (size : ℕ) → b.position ≤ size → IsValid b → IsValid (set_size b size)
unfolding set_size
set_size-IsValid size h v = ground arith

-- A valid buffer has what lies between its position and its size.
pub remaining_lem : {b : Buffer} → IsValid b → remaining b ≡ b.size - b.position
unfolding remaining
remaining_lem v = omega arith

pub remaining-make : (n : ℕ) → n < 2 ^ 63 → remaining (make n) ≡ n
unfolding make
remaining-make n h = omega (arith, remaining_lem (make-IsValid n h))
