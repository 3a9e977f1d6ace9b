-- ===== src/Cipher/Poly1305/Reduce.antt =====
-- `transform` of source/poly1305.cpp multiplies modulo 2 ^ 130 - 5.
use ez.Base.{◌+◌, ◌*◌, ◌/◌, ◌%◌, ◌^◌, ◌≤◌, ◌<◌, ◌≡◌, ◌∙◌, ℕ, bit_and, sym, ap, List, arith, top30}
use ez.Cipher.Poly1305.Field.{
  Limbs, Words, Wide, add_block, carried, masked, high_part, first_pass, low_part, second_pass,
  times, carried_wide, absorb,
}
use ez.Cipher.Poly1305.Carry.{
  value, value_of, HasRoom, value-carried, IsCut, IsClamped, IsWords, cut_wide, value_wide,
  times_lem, carried_wide-IsWords,
}
use ez.Cipher.Poly1305.Passes.{
  prime, IsReduced, value_of_block, IsBlock, cut, masked_top, above, high_part_lem, added, first,
  product_small,
}

-- The two passes of the reduction, on a product below 2 ^ 255.
abbrev reduced : Wide → Limbs
reduced p =
    let a' = carried (first_pass (high_part p) (masked 3 (low_part p))) in
    masked 3 (carried (second_pass (bit_and a'.a4 0xfffffffc) (masked 3 a')))

abbrev last_pass : Limbs → Limbs
last_pass a = masked 3 (carried (second_pass (bit_and a.a4 0xfffffffc) (masked 3 a)))

second :
    (t : ℕ) (a : Limbs)
    → t ≤ 4
    → IsCut a
    → HasRoom (second_pass t a) × (value (second_pass t a) ≡ value a + t + t / 4)
unfolding second_pass
second t a small c = (
  record {
    r0 = omega (arith, c.c0);
    r1 = omega (arith, c.c1);
    r2 = omega (arith, c.c2);
    r3 = omega (arith, c.c3);
    r4 = omega (arith, c.c4);
  },
  omega (arith, c.c0),
)

cut-IsCut : (a : Limbs) → IsCut (cut 4 a)
cut-IsCut a = record {
  c0 = omega arith;
  c1 = omega arith;
  c2 = omega arith;
  c3 = omega arith;
  c4 = omega arith;
}

last_pass_lem :
    (a : Limbs) (total : ℕ)
    → value (record a {
      a0 = a.a0 % 2 ^ 32;
      a1 = a.a1 % 2 ^ 32;
      a2 = a.a2 % 2 ^ 32;
      a3 = a.a3 % 2 ^ 32;
    })
      ≡ total
    → total < 2 ^ 130 + 2 ^ 128
    → IsReduced (last_pass a) × ((k : ℕ) × (value (last_pass a) + prime * k ≡ total))
last_pass_lem a total e small =
    let s = second_pass (a.a4 % 2 ^ 32 / 4 * 4) (cut 4 a) in
    let top : a.a4 ≤ 4 = omega (arith, e) in
    let (room, v) = second (a.a4 % 2 ^ 32 / 4 * 4) (cut 4 a) (omega arith) (cut-IsCut a) in
    let kept = value-carried s room in
    rw (top30 a.a4, masked_top a, masked_top (carried s))
      (
        record {
          c0 = omega arith;
          c1 = omega arith;
          c2 = omega arith;
          c3 = omega arith;
          c4 = omega arith;
        },
        (a.a4 / 4, omega (arith, kept, v, e)),
      )

reduced_lem :
    (p : Wide) (total : ℕ)
    → IsWords (cut_wide p) total
    → total < 2 ^ 255
    → IsReduced (reduced p) × ((k : ℕ) × (value (reduced p) + prime * k ≡ total))
reduced_lem p total w small =
    let h = above p in
    let low = cut 4 (low_part p) in
    let c : IsCut low = cut-IsCut (low_part p) in
    let (room, v) =
      first h low c (omega arith) (omega arith) (omega arith) (omega arith) (omega arith) in
    let f = first_pass h low in
    let kept = value-carried f room in
    let split : value low + value_of h / 4 * 2 ^ 130 ≡ total = omega (arith, w.whole) in
    let (r, (k, l)) = last_pass_lem (carried f) (value f) kept (omega arith) in
    rw (high_part_lem p, masked_top (low_part p)) (r, (k + value_of h / 4, omega (arith, l, v)))

pub mod_of : (v q w : ℕ) → v + prime * q ≡ w → v % prime ≡ w % prime
mod_of v q w e = omega arith

-- With a clamped key and a reduced accumulator, `transform` adds the block and multiplies by the key
-- modulo 2 ^ 130 - 5: nothing is lost in a limb, and the accumulator is reduced again.
pub absorb-mod :
    (r : Words) (block : List ℕ) (a : Limbs)
    → IsClamped r
    → IsBlock block
    → IsReduced a
    → IsReduced (absorb r block a)
      × (value (absorb r block a) % prime ≡ (value a + value_of_block block) * value_of r % prime)
unfolding absorb
absorb-mod r block a k b v =
    let x = masked 0xffffffff (carried (add_block block a)) in
    let (c, sum) = added a block v b in
    let (room, product) = times_lem x r c k in
    let words = carried_wide-IsWords (times x r) room in
    let (done, (q, e)) =
      reduced_lem (carried_wide (times x r)) (value_wide (times x r)) words
        (omega (arith, product, product_small x r c k)) in
    (done, mod_of (value (absorb r block a)) q _ (e ∙ product ∙ ap (λ n. n * value_of r) sum))

-- The accumulator counts only modulo the prime.
pub times-mod : (v b r : ℕ) → (v + b) * r % prime ≡ (v % prime + b) * r % prime
times-mod v b r =
    let split : v % prime + prime * (v / prime) ≡ v = omega arith in
    sym (
      mod_of ((v % prime + b) * r) (v / prime * r) ((v + b) * r)
        (omega (arith, ap (λ (n : ℕ). n * r) split)))
