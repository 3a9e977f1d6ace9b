-- ===== src/Encoding/Base64/Sextets.antt =====
-- The masks and tables of source/base64.cpp, value by value, and its rounding loops.
use ez.Base.{
  ◌+◌, ◌-◌, ◌*◌, ◌/◌, ◌%◌, ◌^◌, ◌<◌, ◌≡◌, ◌∷◌, ◌++◌, ◌==◌, ◌<<<◌, ◌>>>◌, if◌then◌else◌, ℕ, bit_and,
  refl, List, [], arith, u8, agree_below, agree_below→eq, ok,
}
use ez.Encoding.Base64.{round_up, sextet, letter, quad, triple}
use ez.Encoding.Base64.{letter, quad}

-- The masks of `encode` on a byte.
pub mask_fc : (b : ℕ) → b < 256 → bit_and b 0xfc >>> 2 ≡ b / 4
unfolding agree_below
mask_fc = agree_below→eq (λ b. bit_and b 0xfc >>> 2) (λ b. b / 4) 256 refl

pub mask_f0 : (b : ℕ) → b < 256 → bit_and b 0xf0 >>> 4 ≡ b / 16
unfolding agree_below
mask_f0 = agree_below→eq (λ b. bit_and b 0xf0 >>> 4) (λ b. b / 16) 256 refl

pub mask_c0 : (b : ℕ) → b < 256 → bit_and b 0xc0 >>> 6 ≡ b / 64
unfolding agree_below
mask_c0 = agree_below→eq (λ b. bit_and b 0xc0 >>> 6) (λ b. b / 64) 256 refl

pub mask_03 : (b : ℕ) → b < 256 → bit_and b 0x03 ≡ b % 4
unfolding agree_below
mask_03 = agree_below→eq (λ b. bit_and b 0x03) (λ b. b % 4) 256 refl

pub mask_0f : (b : ℕ) → b < 256 → bit_and b 0x0f ≡ b % 16
unfolding agree_below
mask_0f = agree_below→eq (λ b. bit_and b 0x0f) (λ b. b % 16) 256 refl

pub mask_3f : (b : ℕ) → b < 256 → bit_and b 0x3f ≡ b % 64
unfolding agree_below
mask_3f = agree_below→eq (λ b. bit_and b 0x3f) (λ b. b % 64) 256 refl

-- The masks of `decode` on a table entry.
pub mask_30 : (b : ℕ) → b < 256 → bit_and b 0x30 >>> 4 ≡ b / 16 % 4
unfolding agree_below
mask_30 = agree_below→eq (λ b. bit_and b 0x30 >>> 4) (λ b. b / 16 % 4) 256 refl

pub mask_3c : (b : ℕ) → b < 256 → bit_and b 0x3c >>> 2 ≡ b / 4 % 16
unfolding agree_below
mask_3c = agree_below→eq (λ b. bit_and b 0x3c >>> 2) (λ b. b / 4 % 16) 256 refl

abbrev sextet_or : ℕ → ℕ
sextet_or c = elim (sextet c) [ ok v ↦ v | _ ↦ 256 ]

ok_of_sextet_or : (c v : ℕ) → sextet_or c ≡ v → v < 256 → sextet c ≡ ok v
ok_of_sextet_or c v e h = ground arith

-- Reading the character of a sextet gives the sextet back.
pub sextet-letter : (s : ℕ) → s < 64 → sextet (letter s) ≡ ok s
unfolding agree_below sextet letter
sextet-letter s h =
    ok_of_sextet_or (letter s) s (agree_below→eq (λ s. sextet_or (letter s)) (λ s. s) 64 refl s h)
      (omega arith)

pub sextet_padding : sextet b'=' ≡ ok 0xff
unfolding sextet
sextet_padding = refl

pub quad_lem :
    (a b c : ℕ)
    → a < 256
    → b < 256
    → c < 256
    → quad a b c
      ≡ letter (a / 4)
        ∷ letter (a % 4 * 16 + b / 16)
        ∷ letter (b % 16 * 4 + c / 64)
        ∷ letter (c % 64)
        ∷ []
unfolding quad
quad_lem a b c ha hb hc =
    let e0 : u8 (bit_and a 0xfc >>> 2) ≡ a / 4 = omega (arith, mask_fc a ha) in
    let e1 : u8 ((bit_and a 0x03 <<< 4) + (bit_and b 0xf0 >>> 4)) ≡ a % 4 * 16 + b / 16 =
      omega (arith, mask_03 a ha, mask_f0 b hb) in
    let e2 : u8 ((bit_and b 0x0f <<< 2) + (bit_and c 0xc0 >>> 6)) ≡ b % 16 * 4 + c / 64 =
      omega (arith, mask_0f b hb, mask_c0 c hc) in
    let e3 : u8 (bit_and c 0x3f <<< 0) ≡ c % 64 = omega (arith, mask_3f c hc) in
    rw (e0, e1, e2, e3) refl

-- The bytes of a group of four table entries; 255 stands for no sextet.
abbrev pub keep : ℕ → ℕ → List ℕ
keep s b = if s == 0xff then [] else b ∷ []

pub triple_lem :
    (p q r s : ℕ)
    → p < 256
    → q < 256
    → r < 256
    → s < 256
    → triple p q r s
      ≡ keep q (p % 64 * 4 + q / 16 % 4)
        ++ (keep r (q % 16 * 16 + r / 4 % 16) ++ keep s (r % 4 * 64 + s % 64))
unfolding triple
triple_lem p q r s hp hq hr hs =
    let e0 : u8 ((bit_and p 0x3f <<< 2) + (bit_and q 0x30 >>> 4)) ≡ p % 64 * 4 + q / 16 % 4 =
      omega (arith, mask_3f p hp, mask_30 q hq) in
    let e1 : u8 ((bit_and q 0x0f <<< 4) + (bit_and r 0x3c >>> 2)) ≡ q % 16 * 16 + r / 4 % 16 =
      omega (arith, mask_0f q hq, mask_3c r hr) in
    let e2 : u8 ((bit_and r 0x03 <<< 6) + (bit_and s 0x3f >>> 0)) ≡ r % 4 * 64 + s % 64 =
      omega (arith, mask_03 r hr, mask_3f s hs) in
    rw (e0, e1, e2) refl

pub round_up_three :
    (n : ℕ) → n < 2 ^ 63 → round_up 3 3 n 0 ≡ (n + (3 - n % 3) % 3, (3 - n % 3) % 3)
unfolding round_up
round_up_three n h = ground arith

pub round_up_four : (n : ℕ) → n < 2 ^ 63 → (round_up 4 4 n 0).0 ≡ n + (4 - n % 4) % 4
unfolding round_up
round_up_four n h = ground arith
