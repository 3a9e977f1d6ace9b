-- ===== src/Cipher/Poly1305/Carry.antt =====
-- The limbs of source/poly1305.cpp as numbers: what the carries, the masks and the product keep.
use ez.Base.{◌-◌, ◌+◌, ◌*◌, ◌%◌, ◌^◌, ◌≤◌, ◌<◌, ◌≡◌, ℕ, arith}
use native.Mathlib.Nat.{mul-le-mul}
use ez.Cipher.Poly1305.Field.{Limbs, Words, Wide, carried, times, carried_wide}

abbrev pub value : Limbs → ℕ
value a = a.a0 + a.a1 * 2 ^ 32 + a.a2 * 2 ^ 64 + a.a3 * 2 ^ 96 + a.a4 * 2 ^ 128

abbrev pub value_of : Words → ℕ
value_of w = w.w0 + w.w1 * 2 ^ 32 + w.w2 * 2 ^ 64 + w.w3 * 2 ^ 96

abbrev pub value_wide : Wide → ℕ
value_wide p =
    p.p0
    + p.p1 * 2 ^ 32
    + p.p2 * 2 ^ 64
    + p.p3 * 2 ^ 96
    + p.p4 * 2 ^ 128
    + p.p5 * 2 ^ 160
    + p.p6 * 2 ^ 192
    + p.p7 * 2 ^ 224

-- Every limb leaves room for a carry.
pub record HasRoom (a : Limbs) : Type 0 where
  pub r0 : a.a0 < 2 ^ 63
  pub r1 : a.a1 < 2 ^ 63
  pub r2 : a.a2 < 2 ^ 63
  pub r3 : a.a3 < 2 ^ 63
  pub r4 : a.a4 < 2 ^ 31

-- The carries keep the value, with each limb below cut to its 32 bits.
pub value-carried :
    (a : Limbs)
    → HasRoom a
    → (value (record (carried a) {
      a0 = (carried a).a0 % 2 ^ 32;
      a1 = (carried a).a1 % 2 ^ 32;
      a2 = (carried a).a2 % 2 ^ 32;
      a3 = (carried a).a3 % 2 ^ 32;
    })
        ≡ value a)
unfolding carried
value-carried a v = omega (arith, v.r0, v.r1, v.r2, v.r3, v.r4)

product_below : {x y : ℕ} → x < 2 ^ 32 → y < 2 ^ 28 → x * y < 2 ^ 60
product_below {x} {y} hx hy =
    let h : x ≤ 2 ^ 32 - 1 = omega arith in
    let k : y ≤ 2 ^ 28 - 1 = omega arith in omega (arith, mul-le-mul h k)

-- The limbs are words of 32 bits.
pub record IsCut (a : Limbs) : Type 0 where
  pub c0 : a.a0 < 2 ^ 32
  pub c1 : a.a1 < 2 ^ 32
  pub c2 : a.a2 < 2 ^ 32
  pub c3 : a.a3 < 2 ^ 32
  pub c4 : a.a4 < 8

-- The key has four bits of each word cleared.
pub record IsClamped (r : Words) : Type 0 where
  pub k0 : r.w0 < 2 ^ 28
  pub k1 : r.w1 < 2 ^ 28
  pub k2 : r.w2 < 2 ^ 28
  pub k3 : r.w3 < 2 ^ 28

pub record WideRoom (p : Wide) : Type 0 where
  pub q0 : p.p0 < 2 ^ 62
  pub q1 : p.p1 < 2 ^ 62
  pub q2 : p.p2 < 2 ^ 62
  pub q3 : p.p3 < 2 ^ 62
  pub q4 : p.p4 < 2 ^ 62
  pub q5 : p.p5 < 2 ^ 62
  pub q6 : p.p6 < 2 ^ 62
  pub q7 : p.p7 < 2 ^ 31

-- The products fit, and together they are the product.
pub times_lem :
    (a : Limbs) (r : Words)
    → IsCut a
    → IsClamped r
    → WideRoom (times a r) × (value_wide (times a r) ≡ value a * value_of r)
unfolding times
times_lem a r c k =
    let b00 = product_below c.c0 k.k0 in
    let b01 = product_below c.c0 k.k1 in
    let b02 = product_below c.c0 k.k2 in
    let b03 = product_below c.c0 k.k3 in
    let b10 = product_below c.c1 k.k0 in
    let b11 = product_below c.c1 k.k1 in
    let b12 = product_below c.c1 k.k2 in
    let b13 = product_below c.c1 k.k3 in
    let b20 = product_below c.c2 k.k0 in
    let b21 = product_below c.c2 k.k1 in
    let b22 = product_below c.c2 k.k2 in
    let b23 = product_below c.c2 k.k3 in
    let b30 = product_below c.c3 k.k0 in
    let b31 = product_below c.c3 k.k1 in
    let b32 = product_below c.c3 k.k2 in
    let b33 = product_below c.c3 k.k3 in
    let h4 : a.a4 < 2 ^ 32 = omega (arith, c.c4) in
    let b40 = product_below h4 k.k0 in
    let b41 = product_below h4 k.k1 in
    let b42 = product_below h4 k.k2 in
    let le4 : a.a4 ≤ 7 = omega (arith, c.c4) in
    let le3 : r.w3 ≤ 2 ^ 28 - 1 = omega (arith, k.k3) in
    let b43 = mul-le-mul le4 le3 in
    (
      record {
        q0 = omega arith;
        q1 = omega arith;
        q2 = omega arith;
        q3 = omega arith;
        q4 = omega arith;
        q5 = omega arith;
        q6 = omega arith;
        q7 = omega arith;
      },
      omega arith,
    )

-- The carries of the product keep its value, and leave words.
pub record IsWords (p : Wide) (total : ℕ) : Type 0 where
  pub whole : value_wide p ≡ total
  pub d0 : p.p0 < 2 ^ 32
  pub d1 : p.p1 < 2 ^ 32
  pub d2 : p.p2 < 2 ^ 32
  pub d3 : p.p3 < 2 ^ 32
  pub d4 : p.p4 < 2 ^ 32
  pub d5 : p.p5 < 2 ^ 32
  pub d6 : p.p6 < 2 ^ 32
  pub d7 : p.p7 < 2 ^ 32

abbrev pub cut_wide : Wide → Wide
cut_wide p = record {
  p0 = p.p0 % 2 ^ 32;
  p1 = p.p1 % 2 ^ 32;
  p2 = p.p2 % 2 ^ 32;
  p3 = p.p3 % 2 ^ 32;
  p4 = p.p4 % 2 ^ 32;
  p5 = p.p5 % 2 ^ 32;
  p6 = p.p6 % 2 ^ 32;
  p7 = p.p7 % 2 ^ 32;
}

pub carried_wide-IsWords :
    (p : Wide) → WideRoom p → IsWords (cut_wide (carried_wide p)) (value_wide p)
unfolding carried_wide
carried_wide-IsWords p v = record {
  whole = omega (arith, v.q0, v.q1, v.q2, v.q3, v.q4, v.q5, v.q6, v.q7);
  d0 = omega arith;
  d1 = omega arith;
  d2 = omega arith;
  d3 = omega arith;
  d4 = omega arith;
  d5 = omega arith;
  d6 = omega arith;
  d7 = omega arith;
}
