-- ===== src/Cipher/Chacha/Xor.antt =====
-- Xor with a byte undoes itself, which is what source/chacha20.cpp rests on.
use ez.Base.{
  ◌<◌, ◌≡◌, ◌&&◌, ℕ, zero, suc, bit_xor, refl, sym, Bool, true, arith, agree_below, agree_below→eq,
}
use native.Mathlib.Decide.{dec_lt}
use mathlib.Core.Path.{subst}

-- Whether it does for every value and this byte of the key stream.
undone : ℕ → Bool
undone k = agree_below (λ a. bit_xor (bit_xor a k) k) (λ a. a) 256

every_below : ℕ → Bool
every_below zero = true
every_below (suc n) = undone n && every_below n

every : every_below 256 ≡ true
unfolding every_below undone agree_below
every = refl

at_each : (n : ℕ) → every_below n ≡ true → (k : ℕ) → k < n → undone k ≡ true
unfolding every_below
at_each zero e k h = absurd (omega arith)
at_each (suc n) e k h = elim (dec_lt k n) [
  | yes less ↦ at_each n (ground (arith, e)) k less
  | no last ↦
      (let same : k ≡ n = omega arith in
        subst (λ m. undone m ≡ true) (sym same) (ground (arith, e)))
]

pub xor_twice : (a k : ℕ) → a < 256 → k < 256 → bit_xor (bit_xor a k) k ≡ a
unfolding undone
xor_twice a k ha hk =
    agree_below→eq (λ a. bit_xor (bit_xor a k) k) (λ a. a) 256 (at_each 256 every k hk) a ha
