-- ===== src/Cipher/Poly1305/Field.antt =====
-- The arithmetic of `transform` and `complete` in source/poly1305.cpp, on limbs of 32 bits that are
-- kept in 64.
use ez.Base.{
  ◌+◌, ◌-◌, ◌*◌, ◌^◌, ◌<<<◌, ◌>>>◌, ℕ, List, bit_and, bit_or, get_or, drop, u32, u64, of_le32,
}

-- `m_a[0]` to `m_a[4]`. The other three are written before they are read.
pub record Limbs : Type 0 where
  pub a0 : ℕ
  pub a1 : ℕ
  pub a2 : ℕ
  pub a3 : ℕ
  pub a4 : ℕ

-- `m_r`, and `m_s`.
pub record Words : Type 0 where
  pub w0 : ℕ
  pub w1 : ℕ
  pub w2 : ℕ
  pub w3 : ℕ

-- All of `m_a`, where it holds a product.
pub record Wide : Type 0 where
  pub p0 : ℕ
  pub p1 : ℕ
  pub p2 : ℕ
  pub p3 : ℕ
  pub p4 : ℕ
  pub p5 : ℕ
  pub p6 : ℕ
  pub p7 : ℕ

-- The block of 17 bytes is added.
unfoldable pub add_block : List ℕ → Limbs → Limbs
add_block block a = record {
  a0 = u64 (a.a0 + of_le32 block);
  a1 = u64 (a.a1 + of_le32 (drop 4 block));
  a2 = u64 (a.a2 + of_le32 (drop 8 block));
  a3 = u64 (a.a3 + of_le32 (drop 12 block));
  a4 = u64 (a.a4 + get_or block 16 0);
}

-- "Propagate the carry"
unfoldable pub carried : Limbs → Limbs
carried a =
    let a1 = u64 (a.a1 + (a.a0 >>> 32)) in
    let a2 = u64 (a.a2 + (a1 >>> 32)) in
    let a3 = u64 (a.a3 + (a2 >>> 32)) in
    let a4 = u64 (a.a4 + (a3 >>> 32)) in record { a0 = a.a0; a1 = a1; a2 = a2; a3 = a3; a4 = a4 }

-- "We only consider the least significant bits"; the mask of the last limb is given.
unfoldable pub masked : ℕ → Limbs → Limbs
masked top a = record {
  a0 = bit_and a.a0 0xffffffff;
  a1 = bit_and a.a1 0xffffffff;
  a2 = bit_and a.a2 0xffffffff;
  a3 = bit_and a.a3 0xffffffff;
  a4 = bit_and a.a4 top;
}

-- "Multiply the accumulator by r"
unfoldable pub times : Limbs → Words → Wide
times a r = record {
  p0 = u64 (a.a0 * r.w0);
  p1 = u64 (a.a0 * r.w1 + a.a1 * r.w0);
  p2 = u64 (a.a0 * r.w2 + a.a1 * r.w1 + a.a2 * r.w0);
  p3 = u64 (a.a0 * r.w3 + a.a1 * r.w2 + a.a2 * r.w1 + a.a3 * r.w0);
  p4 = u64 (a.a1 * r.w3 + a.a2 * r.w2 + a.a3 * r.w1 + a.a4 * r.w0);
  p5 = u64 (a.a2 * r.w3 + a.a3 * r.w2 + a.a4 * r.w1);
  p6 = u64 (a.a3 * r.w3 + a.a4 * r.w2);
  p7 = u64 (a.a4 * r.w3);
}

unfoldable pub carried_wide : Wide → Wide
carried_wide p =
    let p1 = u64 (p.p1 + (p.p0 >>> 32)) in
    let p2 = u64 (p.p2 + (p1 >>> 32)) in
    let p3 = u64 (p.p3 + (p2 >>> 32)) in
    let p4 = u64 (p.p4 + (p3 >>> 32)) in
    let p5 = u64 (p.p5 + (p4 >>> 32)) in
    let p6 = u64 (p.p6 + (p5 >>> 32)) in
    let p7 = u64 (p.p7 + (p6 >>> 32)) in
    record { p0 = p.p0; p1 = p1; p2 = p2; p3 = p3; p4 = p4; p5 = p5; p6 = p6; p7 = p7 }

-- "Save the high part of the accumulator"
unfoldable pub high_part : Wide → Words
high_part p = record {
  w0 = bit_and p.p4 0xfffffffc;
  w1 = bit_and p.p5 0xffffffff;
  w2 = bit_and p.p6 0xffffffff;
  w3 = bit_and p.p7 0xffffffff;
}

abbrev pub low_part : Wide → Limbs
low_part p = record { a0 = p.p0; a1 = p.p1; a2 = p.p2; a3 = p.p3; a4 = p.p4 }

-- "Perform fast modular reduction (first pass)"; `a[1] << 30` has 32 bits.
unfoldable pub first_pass : Words → Limbs → Limbs
first_pass h a = record a {
  a0 = u64 (u64 (a.a0 + h.w0) + bit_or (h.w0 >>> 2) (u32 (h.w1 <<< 30)));
  a1 = u64 (u64 (a.a1 + h.w1) + bit_or (h.w1 >>> 2) (u32 (h.w2 <<< 30)));
  a2 = u64 (u64 (a.a2 + h.w2) + bit_or (h.w2 >>> 2) (u32 (h.w3 <<< 30)));
  a3 = u64 (u64 (a.a3 + h.w3) + (h.w3 >>> 2));
}

-- "Perform fast modular reduction (second pass)"
unfoldable pub second_pass : ℕ → Limbs → Limbs
second_pass h a = record a { a0 = u64 (u64 (a.a0 + h) + (h >>> 2)) }

-- `transform` behind the padding of the block.
unfoldable pub absorb : Words → List ℕ → Limbs → Limbs
absorb r block a =
    let x = masked 0xffffffff (carried (add_block block a)) in
    let p = carried_wide (times x r) in
    let a' = carried (first_pass (high_part p) (masked 3 (low_part p))) in
    masked 3 (carried (second_pass (bit_and a'.a4 0xfffffffc) (masked 3 a')))

-- `mask` of `complete`: zero where a + 5 has the bit 130.
unfoldable pub mask_of : ℕ → ℕ
mask_of a4 = u32 ((bit_and a4 4 >>> 2) + 2 ^ 64 - 1)

-- "Select between ((a - (2^130 - 5)) % 2^128) and (a % 2^128)"
unfoldable pub select : ℕ → ℕ → ℕ → ℕ
select mask a b = bit_or (bit_and a (2 ^ 32 - 1 - mask)) (bit_and b mask)

-- The words of the tag; the last limb takes the carry, and is not read.
unfoldable pub tag_words : Words → Limbs → Words
tag_words s a =
    let plus5 = carried (record a { a0 = u64 (a.a0 + 5) }) in
    let mask = mask_of plus5.a4 in
    let chosen = record plus5 {
      a0 = select mask plus5.a0 (bit_and a.a0 0xffffffff);
      a1 = select mask plus5.a1 (bit_and a.a1 0xffffffff);
      a2 = select mask plus5.a2 (bit_and a.a2 0xffffffff);
      a3 = select mask plus5.a3 (bit_and a.a3 0xffffffff);
    } in
    let sum = carried (record chosen {
      a0 = u64 (chosen.a0 + s.w0);
      a1 = u64 (chosen.a1 + s.w1);
      a2 = u64 (chosen.a2 + s.w2);
      a3 = u64 (chosen.a3 + s.w3);
    }) in
    record {
      w0 = bit_and sum.a0 0xffffffff;
      w1 = bit_and sum.a1 0xffffffff;
      w2 = bit_and sum.a2 0xffffffff;
      w3 = bit_and sum.a3 0xffffffff;
    }
