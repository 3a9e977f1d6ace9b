-- ===== src/Cipher/Chacha.antt =====
-- source/chacha20.cpp: the cipher with its state of sixteen words, and the block of key stream that it
-- hands out.
pub mod Xor
pub mod Stream
pub mod Pieces
use ez.Base.{
  ◌+◌, ◌-◌, ◌/◌, ◌&&◌, ◌||◌, ◌∷◌, ◌++◌, ◌==◌, if◌then◌else◌, ℕ, zero, suc, min, bit_xor, not,
  Option, none, some, List, [], leb, length, get_or, set, take, drop, u32, splice, Outcome, ok,
  throws,
}
use ez.Sha.Words.{rol32, words, bytes_of, add_words}

-- `block` is kept as its bytes.
pub record Chacha : Type 0 where
  pub rounds : ℕ
  pub pos : ℕ
  pub state : List ℕ
  pub block : List ℕ

pub data Error : Type 0 where
  invalid_rounds invalid_key_size invalid_iv_size : Error

pub set_rounds : ℕ → Chacha → Outcome Error Chacha
set_rounds rounds c =
    if not (rounds == 8) && (not (rounds == 12) && not (rounds == 20))
    then throws invalid_rounds
    else ok (record c { rounds = rounds })

-- The words 0 to 11 are replaced.
pub set_key : List ℕ → Chacha → Outcome Error Chacha
set_key key c =
    if length key == 16
    then ok (record c {
      state =
          splice 0
            (0x61707865 ∷ 0x3120646e ∷ 0x79622d36 ∷ 0x6b206574 ∷ (words 4 key ++ words 4 key))
            c.state;
    })
    else if length key == 32
    then ok (record c {
      state = splice 0 (0x61707865 ∷ 0x3320646e ∷ 0x79622d32 ∷ 0x6b206574 ∷ words 8 key) c.state;
    })
    else throws invalid_key_size

-- The words 12 to 15 are replaced; the position in the block is kept.
pub set_iv : List ℕ → Chacha → Outcome Error Chacha
set_iv iv c =
    if length iv == 8
    then ok (record c { state = splice 12 (0 ∷ 0 ∷ words 2 iv) c.state })
    else if length iv == 12
    then ok (record c { state = splice 12 (0 ∷ words 3 iv) c.state })
    else throws invalid_iv_size

-- `CHACHA_QUARTER_ROUND` on four of the words.
pub quarter_round : ℕ → ℕ → ℕ → ℕ → List ℕ → List ℕ
quarter_round ia ib ic id w =
    let a = get_or w ia 0 in
    let b = get_or w ib 0 in
    let c = get_or w ic 0 in
    let d = get_or w id 0 in
    let a1 = u32 (a + b) in
    let d1 = rol32 (bit_xor d a1) 16 in
    let c1 = u32 (c + d1) in
    let b1 = rol32 (bit_xor b c1) 12 in
    let a2 = u32 (a1 + b1) in
    let d2 = rol32 (bit_xor d1 a2) 8 in
    let c2 = u32 (c1 + d2) in
    let b2 = rol32 (bit_xor b1 c2) 7 in set (set (set (set w ia a2) ib b2) ic c2) id d2

pub double_round : List ℕ → List ℕ
double_round w =
    let w1 = quarter_round 0 4 8 12 w in
    let w2 = quarter_round 1 5 9 13 w1 in
    let w3 = quarter_round 2 6 10 14 w2 in
    let w4 = quarter_round 3 7 11 15 w3 in
    let w5 = quarter_round 0 5 10 15 w4 in
    let w6 = quarter_round 1 6 11 12 w5 in
    let w7 = quarter_round 2 7 8 13 w6 in quarter_round 3 4 9 14 w7

-- `for(unsigned i = 0; i < rounds; i += 2)`: half as many passes, rounded up.
pub double_rounds : ℕ → List ℕ → List ℕ
double_rounds zero w = w
double_rounds (suc n) w = double_rounds n (double_round w)

-- `transform`: what it leaves in `block`.
pub transform : ℕ → List ℕ → List ℕ
transform rounds state = bytes_of (add_words (double_rounds ((rounds + 1) / 2) state) state)

-- `state[12]++; if(state[12] == 0) state[13]++;`
pub bump : List ℕ → List ℕ
bump state =
    let low = u32 (get_or state 12 0 + 1) in
    let state' = set state 12 low in
    if low == 0 then set state' 13 (u32 (get_or state' 13 0 + 1)) else state'

-- The first part of a pass of `crypt`.
pub refill : Chacha → Chacha
refill c =
    if c.pos == 0 || leb 64 c.pos
    then record c { block = transform c.rounds c.state; state = bump c.state; pos = 0 }
    else c

-- `_output[i] = _input[i] ^ k[i]`
pub xor_bytes : List ℕ → List ℕ → List ℕ
xor_bytes [] ks = []
xor_bytes (x ∷ xs) [] = []
xor_bytes (x ∷ xs) (k ∷ ks) = bit_xor x k ∷ xor_bytes xs ks

-- What is put out for a part of the input; without an input, the key stream itself.
unfoldable pub mixed : Option (List ℕ) → List ℕ → List ℕ
mixed none ks = ks
mixed (some xs) ks = xor_bytes xs ks

pub first_of : ℕ → Option (List ℕ) → Option (List ℕ)
first_of n none = none
first_of n (some xs) = some (take n xs)

pub advanced : ℕ → Option (List ℕ) → Option (List ℕ)
advanced n none = none
advanced n (some xs) = some (drop n xs)

-- The loop of `crypt`, on fuel; each pass puts out at least a byte.
pub crypt_loop : ℕ → Option (List ℕ) → ℕ → Chacha → List ℕ × Chacha
crypt_loop zero input size c = ([], c)
crypt_loop (suc fuel) input zero c = ([], c)
crypt_loop (suc fuel) input (suc left) c =
    let c1 = refill c in
    let n = min (suc left) (64 - c1.pos) in
    let k = take n (drop c1.pos c1.block) in
    let rest = crypt_loop fuel (advanced n input) (suc left - n) (record c1 { pos = c1.pos + n }) in
    (mixed (first_of n input) k ++ rest.0, rest.1)

-- `crypt`, which `encrypt` and `decrypt` both are, with an output.
pub crypt : Option (List ℕ) → ℕ → Chacha → List ℕ × Chacha
crypt input size c = crypt_loop size input size c
