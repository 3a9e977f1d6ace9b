-- ===== src/Cipher/Poly1305/Passes.antt =====
-- The stretches of `transform` of source/poly1305.cpp that add a block, cut off what is above
-- 2 ^ 130, and add it in again, as numbers.
use ez.Base.{
  ◌+◌, ◌-◌, ◌*◌, ◌/◌, ◌%◌, ◌^◌, ◌≤◌, ◌<◌, ◌≡◌, ◌<<<◌, ◌>>>◌, ℕ, bit_or, refl, List, arith,
  bit_or-fields, low32, low2, top30, get_or, drop, u32, of_le32,
}
use native.Mathlib.Nat.{mul-le-mul}
use ez.Cipher.Poly1305.Field.{Limbs, Words, Wide, add_block, carried, masked, high_part, first_pass}
use ez.Cipher.Poly1305.Carry.{value, value_of, HasRoom, value-carried, IsCut, IsClamped}

abbrev pub prime : ℕ
prime = 2 ^ 130 - 5

-- The limbs between two blocks.
pub record IsReduced (a : Limbs) : Type 0 where
  pub c0 : a.a0 < 2 ^ 32
  pub c1 : a.a1 < 2 ^ 32
  pub c2 : a.a2 < 2 ^ 32
  pub c3 : a.a3 < 2 ^ 32
  pub c4 : a.a4 < 4

-- A block as a number.
abbrev pub value_of_block : List ℕ → ℕ
value_of_block b =
    of_le32 b
    + of_le32 (drop 4 b) * 2 ^ 32
    + of_le32 (drop 8 b) * 2 ^ 64
    + of_le32 (drop 12 b) * 2 ^ 96
    + get_or b 16 0 * 2 ^ 128

pub record IsBlock (b : List ℕ) : Type 0 where
  pub b0 : of_le32 b < 2 ^ 32
  pub b1 : of_le32 (drop 4 b) < 2 ^ 32
  pub b2 : of_le32 (drop 8 b) < 2 ^ 32
  pub b3 : of_le32 (drop 12 b) < 2 ^ 32
  pub b4 : get_or b 16 0 ≤ 1

abbrev pub cut : ℕ → Limbs → Limbs
cut top a = record {
  a0 = a.a0 % 2 ^ 32;
  a1 = a.a1 % 2 ^ 32;
  a2 = a.a2 % 2 ^ 32;
  a3 = a.a3 % 2 ^ 32;
  a4 = a.a4 % top;
}

pub masked_words : (a : Limbs) → masked 0xffffffff a ≡ cut (2 ^ 32) a
unfolding masked
masked_words a = rw (low32 a.a0, low32 a.a1, low32 a.a2, low32 a.a3, low32 a.a4) refl

pub masked_top : (a : Limbs) → masked 3 a ≡ cut 4 a
unfolding masked
masked_top a = rw (low32 a.a0, low32 a.a1, low32 a.a2, low32 a.a3, low2 a.a4) refl

-- What stands above the bit 130, times four, and its quotient by four.
abbrev pub above : Wide → Words
above p = record {
  w0 = p.p4 % 2 ^ 32 / 4 * 4;
  w1 = p.p5 % 2 ^ 32;
  w2 = p.p6 % 2 ^ 32;
  w3 = p.p7 % 2 ^ 32;
}

pub high_part_lem : (p : Wide) → high_part p ≡ above p
unfolding high_part
high_part_lem p = rw (top30 p.p4, low32 p.p5, low32 p.p6, low32 p.p7) refl

-- The block is added to the accumulator.
pub added :
    (a : Limbs) (b : List ℕ)
    → IsReduced a
    → IsBlock b
    → let x = masked 0xffffffff (carried (add_block b a)) in
      IsCut x × (value x ≡ value a + value_of_block b)
unfolding add_block
added a b r k =
    let s = add_block b a in
    let room : HasRoom s = record {
      r0 = omega (arith, r.c0, k.b0);
      r1 = omega (arith, r.c1, k.b1);
      r2 = omega (arith, r.c2, k.b2);
      r3 = omega (arith, r.c3, k.b3);
      r4 = omega (arith, r.c4, k.b4);
    } in
    let kept = value-carried s room in
    rw (masked_words (carried s)) (
      record {
        c0 = omega arith;
        c1 = omega arith;
        c2 = omega arith;
        c3 = omega arith;
        c4 = omega (arith, kept);
      },
      omega (arith, kept),
    )

pub shifted_or : (x y : ℕ) → x < 2 ^ 32 → bit_or (x >>> 2) (u32 (y <<< 30)) ≡ y % 4 * 2 ^ 30 + x / 4
shifted_or x y h =
    let e : u32 (y <<< 30) ≡ y % 4 * 2 ^ 30 = omega arith in
    rw e (bit_or-fields 30 (y % 4) (x / 4) (omega arith))

pub first :
    (h : Words) (a : Limbs)
    → IsCut a
    → h.w0 < 2 ^ 32
    → h.w0 % 4 ≡ 0
    → h.w1 < 2 ^ 32
    → h.w2 < 2 ^ 32
    → h.w3 < 2 ^ 32
    → HasRoom (first_pass h a) × (value (first_pass h a) ≡ value a + value_of h + value_of h / 4)
unfolding first_pass
first h a c h0 z h1 h2 h3 =
    let s0 = shifted_or h.w0 h.w1 h0 in
    let s1 = shifted_or h.w1 h.w2 h1 in
    let s2 = shifted_or h.w2 h.w3 h2 in
    rw (s0, s1, s2)
      (
        record {
          r0 = omega (arith, c.c0);
          r1 = omega (arith, c.c1);
          r2 = omega (arith, c.c2);
          r3 = omega (arith, c.c3);
          r4 = omega (arith, c.c4);
        },
        omega (arith, c.c0, c.c1, c.c2, c.c3, c.c4),
      )

-- The key stays below 2 ^ 124, the accumulator below 2 ^ 131, so the product below 2 ^ 255.
pub product_small : (x : Limbs) (r : Words) → IsCut x → IsClamped r → value x * value_of r < 2 ^ 255
product_small x r c k =
    let hx : value x ≤ 2 ^ 131 - 1 = omega (arith, c.c0, c.c1, c.c2, c.c3, c.c4) in
    let hr : value_of r ≤ 2 ^ 124 - 1 = omega (arith, k.k0, k.k1, k.k2, k.k3) in
    omega (arith, mul-le-mul hx hr)
