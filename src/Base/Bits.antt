-- ===== src/Base/Bits.antt =====
-- The bit operations at variables, as arithmetic: masks are remainders, and `|` of fields that do not
-- meet is a sum.
use Prim.Native.Nat.{
  ℕ, zero, suc, ◌+◌, ◌-◌, ◌*◌, ◌/◌, ◌%◌, ◌^◌, ◌≤◌, ◌<◌, min, max, digits, bitwise, bit_and, bit_or,
  bit_xor, differ, bit_and-bitwise, bit_or-bitwise, bit_xor-bitwise,
}
use mathlib.Core.Path.{◌≡◌, refl, ap}
use native.Mathlib.Nat.{pow-suc, one-le-pow}
use native.Mathlib.Omega.{arith}

-- The count of digits to go does not matter, once it is enough.
module _ (end : ℕ → ℕ) (digit : ℕ → ℕ → ℕ) where
  counts_agree : (k l y x : ℕ) → x ≤ k → x ≤ l → digits end digit k x y ≡ digits end digit l x y
  counts_agree zero l y (suc x) hk hl = absurd (omega arith)
  counts_agree (suc k) zero y (suc x) hk hl = absurd (omega arith)
  counts_agree (suc k) (suc l) y (suc x) hk hl =
      let halves = counts_agree k l (y / 2) (suc x / 2) (omega arith) (omega arith) in
      ap (λ (h : ℕ). h * 2 + digit (suc x % 2) (y % 2)) halves
  counts_agree (suc k) (suc l) y zero hk hl = refl
  counts_agree (suc k) zero y zero hk hl = refl
  counts_agree zero (suc l) y zero hk hl = refl
  counts_agree zero zero y zero hk hl = refl

  lowest :
      (x y : ℕ)
      → bitwise end digit (suc x) y
        ≡ bitwise end digit (suc x / 2) (y / 2) * 2 + digit (suc x % 2) (y % 2)
  lowest x y =
      ap (λ (h : ℕ). h * 2 + digit (suc x % 2) (y % 2))
        (counts_agree x (suc x / 2) (y / 2) (suc x / 2) (omega arith) (omega arith))

pub or_lowest : (x y : ℕ) → bit_or x y ≡ bit_or (x / 2) (y / 2) * 2 + max (x % 2) (y % 2)
or_lowest zero y = omega (arith, bit_or-bitwise 0 y, bit_or-bitwise 0 (y / 2))
or_lowest (suc x) y =
    omega
      (arith, bit_or-bitwise (suc x) y, bit_or-bitwise (suc x / 2) (y / 2), lowest (λ b. b) max x y)

pub and_lowest : (x y : ℕ) → bit_and x y ≡ bit_and (x / 2) (y / 2) * 2 + min (x % 2) (y % 2)
and_lowest zero y = omega (arith, bit_and-bitwise 0 y, bit_and-bitwise 0 (y / 2))
and_lowest (suc x) y = omega (
  arith,
  bit_and-bitwise (suc x) y,
  bit_and-bitwise (suc x / 2) (y / 2),
  lowest (λ b. zero) min x y,
)

-- Below a bound, for the induction.
and_none : (n x : ℕ) → x ≤ n → bit_and x 0 ≡ 0
and_none n zero h = bit_and-bitwise 0 0
and_none zero (suc x) h = absurd (omega arith)
and_none (suc n) (suc x) h =
    omega (arith, and_lowest (suc x) 0, and_none n (suc x / 2) (omega arith))

or_none : (n x : ℕ) → x ≤ n → bit_or x 0 ≡ x
or_none n zero h = bit_or-bitwise 0 0
or_none zero (suc x) h = absurd (omega arith)
or_none (suc n) (suc x) h = omega (arith, or_lowest (suc x) 0, or_none n (suc x / 2) (omega arith))

pub bit_and-zero : (x : ℕ) → bit_and x 0 ≡ 0
bit_and-zero x = and_none x x (omega arith)

pub bit_or-zero : (x : ℕ) → bit_or x 0 ≡ x
bit_or-zero x = or_none x x (omega arith)

pub zero-bit_or : (x : ℕ) → bit_or 0 x ≡ x
zero-bit_or x = bit_or-bitwise 0 x

double : (q k : ℕ) → q * 2 ^ suc k ≡ q * 2 ^ k * 2
double q k = omega (arith, ap (λ (p : ℕ). q * p) (pow-suc 2 k))

-- A mask of the `k` lowest bits cuts off what lies above them.
pub bit_and-ones : (k high low : ℕ) → low < 2 ^ k → bit_and (high * 2 ^ k + low) (2 ^ k - 1) ≡ low
bit_and-ones zero high low h = omega (arith, bit_and-zero (high * 2 ^ 0 + low))
bit_and-ones (suc k) high low h =
    let p = pow-suc 2 k in
    let d = double high k in
    let pos = one-le-pow k 2 (omega arith) in
    let mask : (2 ^ suc k - 1) / 2 ≡ 2 ^ k - 1 = omega arith in
    let rest : (high * 2 ^ suc k + low) / 2 ≡ high * 2 ^ k + low / 2 = omega arith in
    let ih = bit_and-ones k high (low / 2) (omega arith) in
    omega (
      arith,
      and_lowest (high * 2 ^ suc k + low) (2 ^ suc k - 1),
      ap (bit_and ((high * 2 ^ suc k + low) / 2)) mask,
      ap (λ x. bit_and x (2 ^ k - 1)) rest,
    )

-- Two fields that do not meet.
pub bit_or-fields : (k high low : ℕ) → low < 2 ^ k → bit_or low (high * 2 ^ k) ≡ high * 2 ^ k + low
bit_or-fields zero high low h =
    let none_low : low ≡ 0 = omega arith in rw none_low (omega (arith, zero-bit_or (high * 2 ^ 0)))
bit_or-fields (suc k) high low h =
    let p = pow-suc 2 k in
    let d = double high k in
    let rest : high * 2 ^ suc k / 2 ≡ high * 2 ^ k = omega arith in
    let ih = bit_or-fields k high (low / 2) (omega arith) in
    omega (arith, or_lowest low (high * 2 ^ suc k), ap (bit_or (low / 2)) rest)

pub low32 : (x : ℕ) → bit_and x 0xffffffff ≡ x % 2 ^ 32
low32 x =
    let split : x / 2 ^ 32 * 2 ^ 32 + x % 2 ^ 32 ≡ x = omega arith in
    omega (
      arith,
      bit_and-ones 32 (x / 2 ^ 32) (x % 2 ^ 32) (omega arith),
      ap (λ y. bit_and y 0xffffffff) split,
    )

pub low2 : (x : ℕ) → bit_and x 3 ≡ x % 4
low2 x =
    let split : x / 4 * 4 + x % 4 ≡ x = omega arith in
    omega (arith, bit_and-ones 2 (x / 4) (x % 4) (omega arith), ap (λ y. bit_and y 3) split)

-- A mask with two zeros below.
shifted : (x m : ℕ) → bit_and x (m * 4) ≡ bit_and (x / 4) m * 4
shifted x m =
    let m2 : m * 4 / 2 ≡ m * 2 = omega arith in
    let m1 : m * 2 / 2 ≡ m = omega arith in
    let x4 : x / 2 / 2 ≡ x / 4 = omega arith in
    omega (
      arith,
      and_lowest x (m * 4),
      ap (bit_and (x / 2)) m2,
      and_lowest (x / 2) (m * 2),
      ap (bit_and (x / 2 / 2)) m1,
      ap (λ y. bit_and y m) x4,
    )

pub top30 : (x : ℕ) → bit_and x 0xfffffffc ≡ x % 2 ^ 32 / 4 * 4
top30 x =
    let split : x / 4 / 2 ^ 30 * 2 ^ 30 + x / 4 % 2 ^ 30 ≡ x / 4 = omega arith in
    omega (
      arith,
      shifted x 0x3fffffff,
      bit_and-ones 30 (x / 4 / 2 ^ 30) (x / 4 % 2 ^ 30) (omega arith),
      ap (λ y. bit_and y 0x3fffffff) split,
    )

pub bit2 : (x : ℕ) → bit_and x 4 ≡ x / 4 % 2 * 4
bit2 x =
    let split : x / 4 / 2 * 2 + x / 4 % 2 ≡ x / 4 = omega arith in
    omega (
      arith,
      shifted x 1,
      bit_and-ones 1 (x / 4 / 2) (x / 4 % 2) (omega arith),
      ap (λ y. bit_and y 1) split,
    )

pub low28 : (x : ℕ) → bit_and x 0x0fffffff ≡ x % 2 ^ 28
low28 x =
    let split : x / 2 ^ 28 * 2 ^ 28 + x % 2 ^ 28 ≡ x = omega arith in
    omega (
      arith,
      bit_and-ones 28 (x / 2 ^ 28) (x % 2 ^ 28) (omega arith),
      ap (λ y. bit_and y 0x0fffffff) split,
    )

pub middle26 : (x : ℕ) → bit_and x 0x0ffffffc ≡ x % 2 ^ 28 / 4 * 4
middle26 x =
    let split : x / 4 / 2 ^ 26 * 2 ^ 26 + x / 4 % 2 ^ 26 ≡ x / 4 = omega arith in
    omega (
      arith,
      shifted x 0x03ffffff,
      bit_and-ones 26 (x / 4 / 2 ^ 26) (x / 4 % 2 ^ 26) (omega arith),
      ap (λ y. bit_and y 0x03ffffff) split,
    )

pub xor_lowest : (x y : ℕ) → bit_xor x y ≡ bit_xor (x / 2) (y / 2) * 2 + differ (x % 2) (y % 2)
xor_lowest zero y = omega (arith, bit_xor-bitwise 0 y, bit_xor-bitwise 0 (y / 2))
xor_lowest (suc x) y = omega (
  arith,
  bit_xor-bitwise (suc x) y,
  bit_xor-bitwise (suc x / 2) (y / 2),
  lowest (λ b. b) differ x y,
)

differ_le : (x y : ℕ) → x ≤ 1 → y ≤ 1 → differ x y ≤ 1
differ_le zero y hx hy = hy
differ_le (suc x) zero hx hy = hx
differ_le (suc x) (suc y) hx hy = differ_le x y (omega arith) (omega arith)

pub xor-small : (k x y : ℕ) → x < 2 ^ k → y < 2 ^ k → bit_xor x y < 2 ^ k
xor-small zero x y hx hy =
    let zx : x ≡ 0 = omega arith in
    let zy : y ≡ 0 = omega arith in rw (zx, zy) (omega (arith, bit_xor-bitwise 0 0))
xor-small (suc k) x y hx hy =
    let p = pow-suc 2 k in
    let halves = xor-small k (x / 2) (y / 2) (omega (arith, p)) (omega (arith, p)) in
    omega (arith, p, halves, xor_lowest x y, differ_le (x % 2) (y % 2) (omega arith) (omega arith))
