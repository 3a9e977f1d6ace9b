-- ===== src/Cipher/Aead/Compare.antt =====
-- The loop of `decrypt` in source/chacha20_poly1305.cpp that compares the tag without stopping at the
-- first difference.
use ez.Base.{
  ◌+◌, ◌/◌, ◌≤◌, ◌<◌, ◌≡◌, ◌∙◌, ◌&&◌, ◌∷◌, ◌==◌, ℕ, zero, suc, bit_or, bit_xor, refl, sym, ap, Bool,
  true, false, some, List, [], arith, length, take, All, IsByte, same_bytes, or_lowest, Bool-cases,
  inl, inr, agree_below, agree_below→eq,
}
use native.Mathlib.Decide.{ℕ_discrete}
use ez.Cipher.Chacha.Xor.{xor_twice}
use ez.Cipher.Aead.{compared, verdict}

and_assoc : (a b c : Bool) → ((a && b) && c) ≡ (a && (b && c))
and_assoc true b c = refl
and_assoc false b c = refl

or_none : (k a b : ℕ) → a ≤ k → b ≤ k → bit_or a b ≡ 0 → (a ≡ 0) × (b ≡ 0)
or_none zero a b ha hb e = (omega arith, omega arith)
or_none (suc k) a b ha hb e =
    let split = or_lowest a b in
    let (ea, eb) = or_none k (a / 2) (b / 2) (omega arith) (omega arith) (omega (arith, split)) in
    (omega (arith, split, ea), omega (arith, split, eb))

xor_self : (a : ℕ) → a < 256 → bit_xor a a ≡ 0
unfolding agree_below
xor_self a h = agree_below→eq (λ a. bit_xor a a) (λ a. 0) 256 refl a h

xor_zero : (a : ℕ) → a < 256 → bit_xor 0 a ≡ a
unfolding agree_below
xor_zero a h = agree_below→eq (λ a. bit_xor 0 a) (λ a. a) 256 refl a h

xor_same : (a b : ℕ) → a < 256 → b < 256 → bit_xor a b ≡ 0 → a ≡ b
xor_same a b ha hb e = sym (xor_twice a b ha hb) ∙ ap (λ x. bit_xor x b) e ∙ xor_zero b hb

-- The mask stays zero exactly where the bytes agree.
mask_step :
    (mask a b : ℕ) → a < 256 → b < 256 → (bit_or mask (bit_xor a b) == 0) ≡ (mask == 0 && b == a)
mask_step mask a b ha hb =
    let x = bit_xor a b in
    let m = bit_or mask x in
    elim (ℕ_discrete m 0) [
      | yes clean ↦
          let (z, none_) = or_none (mask + x) mask x (omega arith) (omega arith) clean in
          let same = xor_same a b ha hb none_ in ground (arith, clean, z, same)
      | no dirty ↦ elim (Bool-cases (mask == 0 && b == a)) [
        | inl e ↦
            let z : mask ≡ 0 = ground (arith, e) in
            let same : a ≡ b = ground (arith, e) in
            absurd (
              dirty (
                ap (λ y. bit_or y x) z
                ∙ ap (bit_or 0) (ap (λ y. bit_xor y b) same ∙ xor_self b hb)))
        | inr e ↦ ground (arith, dirty, e)
      ]
    ]

-- Where the tag is no longer than the authenticator, the loop reads nothing out of range, and its
-- verdict is whether the mask was zero and the tag is a beginning of the authenticator.
pub compared_lem :
    (mac tag : List ℕ) (mask : ℕ)
    → All IsByte mac
    → All IsByte tag
    → length tag ≤ length mac
    → verdict (compared mac tag mask) ≡ some (mask == 0 && same_bytes tag (take (length tag) mac))
unfolding compared verdict same_bytes
compared_lem mac [] mask hm ht h = ground arith
compared_lem [] (t ∷ ts) mask hm ht h = absurd (omega arith)
compared_lem (b ∷ mac) (t ∷ ts) mask (hb, hm) (ht, hts) h =
    let rest = compared_lem mac ts (bit_or mask (bit_xor b t)) hm hts (omega arith) in
    rest
    ∙ ap (λ z. some (z && same_bytes ts (take (length ts) mac))) (mask_step mask b t hb ht)
    ∙ ap some (and_assoc (mask == 0) (t == b) (same_bytes ts (take (length ts) mac)))
