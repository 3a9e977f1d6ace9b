-- ===== src/Cipher/Poly1305/Tag.antt =====
-- `complete` of source/poly1305.cpp: the accumulator modulo the prime, and the key added to it.
use ez.Base.{
  ◌+◌, ◌*◌, ◌%◌, ◌^◌, ◌<◌, ◌≡◌, ◌∙◌, ℕ, bit_and, refl, arith, bit_and-zero, bit_or-zero,
  zero-bit_or, low32, bit2, u64,
}
use ez.Cipher.Poly1305.Field.{Limbs, Words, carried, mask_of, select, tag_words}
use ez.Cipher.Poly1305.Carry.{value, value_of, HasRoom, value-carried}
use ez.Cipher.Poly1305.Passes.{prime, IsReduced}
use native.Mathlib.Decide.{dec_lt}

mask_all : (t : ℕ) → t < 4 → mask_of t ≡ 0xffffffff
unfolding mask_of
mask_all t h = omega (arith, bit2 t)

mask_none : mask_of 4 ≡ 0
unfolding mask_of
mask_none = refl

select_first : (a b : ℕ) → select 0 a b ≡ a % 2 ^ 32
unfolding select
select_first a b = rw (bit_and-zero b, bit_or-zero (bit_and a 0xffffffff)) (low32 a)

select_second : (a b : ℕ) → select 0xffffffff a b ≡ b % 2 ^ 32
unfolding select
select_second a b = rw (bit_and-zero a, zero-bit_or (bit_and b 0xffffffff)) (low32 b)

pub record IsKey (s : Words) : Type 0 where
  pub s0 : s.w0 < 2 ^ 32
  pub s1 : s.w1 < 2 ^ 32
  pub s2 : s.w2 < 2 ^ 32
  pub s3 : s.w3 < 2 ^ 32

-- Adding the key to the chosen words and cutting to 128 bits.
abbrev summed : Words → Limbs → Words
summed s c =
    let sum = carried (record c {
      a0 = u64 (c.a0 + s.w0);
      a1 = u64 (c.a1 + s.w1);
      a2 = u64 (c.a2 + s.w2);
      a3 = u64 (c.a3 + s.w3);
    }) in
    record {
      w0 = bit_and sum.a0 0xffffffff;
      w1 = bit_and sum.a1 0xffffffff;
      w2 = bit_and sum.a2 0xffffffff;
      w3 = bit_and sum.a3 0xffffffff;
    }

abbrev low128 : Limbs → ℕ
low128 c = c.a0 + c.a1 * 2 ^ 32 + c.a2 * 2 ^ 64 + c.a3 * 2 ^ 96

summed_lem :
    (s : Words) (c : Limbs)
    → IsKey s
    → c.a0 < 2 ^ 32
    → c.a1 < 2 ^ 32
    → c.a2 < 2 ^ 32
    → c.a3 < 2 ^ 32
    → c.a4 < 8
    → value_of (summed s c) ≡ (low128 c + value_of s) % 2 ^ 128
summed_lem s c k h0 h1 h2 h3 h4 =
    let t : Limbs = record c {
      a0 = u64 (c.a0 + s.w0);
      a1 = u64 (c.a1 + s.w1);
      a2 = u64 (c.a2 + s.w2);
      a3 = u64 (c.a3 + s.w3);
    } in
    let room : HasRoom t = record {
      r0 = omega (arith, k.s0);
      r1 = omega (arith, k.s1);
      r2 = omega (arith, k.s2);
      r3 = omega (arith, k.s3);
      r4 = omega arith;
    } in
    let sum = carried t in
    let kept = value-carried t room in
    rw (low32 sum.a0, low32 sum.a1, low32 sum.a2, low32 sum.a3)
      (omega (arith, kept, k.s0, k.s1, k.s2, k.s3))

-- The tag is the accumulator modulo the prime, plus the key, modulo 2 ^ 128.
pub tag_words-mod :
    (s : Words) (a : Limbs)
    → IsKey s
    → IsReduced a
    → value_of (tag_words s a) ≡ (value a % prime + value_of s) % 2 ^ 128
unfolding tag_words carried
tag_words-mod s a k v =
    let t : Limbs = record a { a0 = u64 (a.a0 + 5) } in
    let room : HasRoom t = record {
      r0 = omega (arith, v.c0);
      r1 = omega (arith, v.c1);
      r2 = omega (arith, v.c2);
      r3 = omega (arith, v.c3);
      r4 = omega (arith, v.c4);
    } in
    let plus5 = carried t in
    let kept = value-carried t room in
    elim (dec_lt plus5.a4 4) [
      | yes below ↦
          rw
            (
              mask_all plus5.a4 below,
              select_second plus5.a0 (bit_and a.a0 0xffffffff),
              select_second plus5.a1 (bit_and a.a1 0xffffffff),
              select_second plus5.a2 (bit_and a.a2 0xffffffff),
              select_second plus5.a3 (bit_and a.a3 0xffffffff),
              low32 a.a0,
              low32 a.a1,
              low32 a.a2,
              low32 a.a3,
            )
            (let c : Limbs = record plus5 {
              a0 = a.a0 % 2 ^ 32 % 2 ^ 32;
              a1 = a.a1 % 2 ^ 32 % 2 ^ 32;
              a2 = a.a2 % 2 ^ 32 % 2 ^ 32;
              a3 = a.a3 % 2 ^ 32 % 2 ^ 32;
            } in
              let e =
                summed_lem s c k (omega arith) (omega arith) (omega arith) (omega arith)
                  (omega arith) in
              e
              ∙ (let same : value a % prime ≡ low128 c + a.a4 * 2 ^ 128 =
                    omega (arith, kept, v.c0, v.c1, v.c2, v.c3) in
                  omega (arith, same)))
      | no above ↦
          let e : plus5.a4 ≡ 4 = omega (arith, kept, v.c0, v.c1, v.c2, v.c3, v.c4) in
          rw
            (
              e,
              mask_none,
              select_first plus5.a0 (bit_and a.a0 0xffffffff),
              select_first plus5.a1 (bit_and a.a1 0xffffffff),
              select_first plus5.a2 (bit_and a.a2 0xffffffff),
              select_first plus5.a3 (bit_and a.a3 0xffffffff),
            )
            (let c : Limbs = record plus5 {
              a0 = plus5.a0 % 2 ^ 32;
              a1 = plus5.a1 % 2 ^ 32;
              a2 = plus5.a2 % 2 ^ 32;
              a3 = plus5.a3 % 2 ^ 32;
            } in
              let sum =
                summed_lem s c k (omega arith) (omega arith) (omega arith) (omega arith)
                  (omega arith) in
              sum
              ∙ (let same : value a % prime ≡ low128 c =
                    omega (arith, kept, v.c0, v.c1, v.c2, v.c3, v.c4) in
                  omega (arith, same)))
    ]
