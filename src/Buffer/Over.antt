-- ===== src/Buffer/Over.antt =====
-- Bytes received into a buffer of source/buffer.cpp at its position.
use ez.Base.{
  ◌+◌, ◌-◌, ◌≤◌, ◌≡◌, ◌∙◌, ℕ, refl, sym, true, false, List, arith, ltb, leb, length, take, splice,
  take-append, length-splice, drop-splice, ok,
}
use mathlib.Core.Path.{subst}
use ez.Buffer.{Buffer, write, read, set_position, set_size, remaining}
use ez.Buffer.Laws.{contents}
use ez.Buffer.Area.{IsValid, remaining_lem}

abbrev pub over : Buffer → List ℕ → Buffer
over b bytes = record b { mem = splice b.position bytes b.mem }

module _ (b : Buffer) (bytes : List ℕ) (v : IsValid b) (fits : length bytes ≤ remaining b) where
  inside : b.position + length bytes ≤ length b.mem
  inside = omega (arith, remaining_lem v)

  pub write-over : {E : Type 0} → write {E = E} b 0 bytes ≡ ok (over b bytes)
  unfolding write
  write-over =
      let z : b.position + 0 ≡ b.position = omega arith in
      let t : leb (b.position + length bytes) (length b.mem) ≡ true = ground (arith, inside) in
      rw (z, t) refl

  pub over-IsValid : IsValid (over b bytes)
  over-IsValid = record {
    owned = length-splice b.position bytes b.mem inside ∙ v.owned;
    sized = v.sized;
    placed = v.placed;
    addressed = v.addressed;
  }

  -- What was received can be read where it was put.
  pub read-over : {E : Type 0} → read {E = E} (over b bytes) (length bytes) ≡ ok bytes
  unfolding read
  read-over =
      let len = length-splice b.position bytes b.mem inside in
      let t : leb (b.position + length bytes) (length (splice b.position bytes b.mem)) ≡ true =
        ground (arith, inside) in
      rw (t, drop-splice b.position bytes b.mem inside, take-append (length bytes) bytes _ refl)
        refl

  -- Received at the start, and the buffer cut to it: that is all it shows.
  pub contents-over :
      b.position ≡ 0 → contents (set_size (set_position (over b bytes) 0) (length bytes)) ≡ bytes
  unfolding set_size set_position
  contents-over z =
      let t1 : ltb b.size 0 ≡ false = ground arith in
      let t2 : leb (length bytes) b.orig_size ≡ true = ground (arith, remaining_lem v) in
      rw (t1, t2)
        (subst (λ p. take (length bytes - 0) (splice p bytes b.mem) ≡ bytes) (sym z)
          (take-append (length bytes - 0) bytes _ (omega arith)))

  -- The same where the bytes are all that the buffer takes.
  pub contents-over_all :
      b.position ≡ 0 → b.size ≡ length bytes → contents (set_position (over b bytes) 0) ≡ bytes
  unfolding set_position
  contents-over_all z all =
      let t1 : ltb b.size 0 ≡ false = ground arith in
      rw t1 (
        subst (λ p. take (b.size - 0) (splice p bytes b.mem) ≡ bytes) (sym z)
          (take-append (b.size - 0) bytes _ (omega arith)))
