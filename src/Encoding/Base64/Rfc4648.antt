-- ===== src/Encoding/Base64/Rfc4648.antt =====
-- `encode` of source/base64.cpp against the group-by-group definition of RFC 4648.
use ez.Base.{
  ◌+◌, ◌-◌, ◌*◌, ◌/◌, ◌%◌, ◌^◌, ◌≤◌, ◌<◌, ◌≡◌, ◌∙◌, ◌∷◌, ℕ, zero, suc, refl, List, [], arith,
  length, set, All, u64, IsByte, ltb, ◌==◌, if◌then◌else◌, sym, ap, ok, agree_below, agree_below→eq,
}
use ez.Encoding.Base64.{letter, sextet, byte_at, encode_loop, set_padding, encode}
use ez.Encoding.Base64.Sextets.{quad_lem, round_up_three, sextet-letter}
use native.Mathlib.Nat.{add-zero}
use native.Mathlib.Numerals.{towards_suc}

-- The alphabet of RFC 4648, section 4: 'A' to 'Z', 'a' to 'z', '0' to '9', '+' and '/'.
unfoldable pub rfc_letter : ℕ → ℕ
rfc_letter v =
    if ltb v 26
    then b'A' + v
    else if ltb v 52
    then b'a' + (v - 26)
    else if ltb v 62
    then b'0' + (v - 52)
    else if v == 62
    then b'+'
    else b'/'

-- Base 64 of RFC 4648, section 4: three bytes make four letters, and '=' pads the last group.
unfoldable pub rfc4648 : List ℕ → List ℕ
rfc4648 [] = []
rfc4648 (a ∷ []) = rfc_letter (a / 4) ∷ rfc_letter (a % 4 * 16) ∷ b'=' ∷ b'=' ∷ []
rfc4648 (a ∷ b ∷ []) =
    rfc_letter (a / 4) ∷ rfc_letter (a % 4 * 16 + b / 16) ∷ rfc_letter (b % 16 * 4) ∷ b'=' ∷ []
rfc4648 (a ∷ b ∷ c ∷ src) =
    rfc_letter (a / 4)
    ∷ rfc_letter (a % 4 * 16 + b / 16)
    ∷ rfc_letter (b % 16 * 4 + c / 64)
    ∷ rfc_letter (c % 64)
    ∷ rfc4648 src

letter_lem : (v : ℕ) → v < 64 → letter v ≡ rfc_letter v
unfolding agree_below letter rfc_letter
letter_lem = agree_below→eq letter rfc_letter 64 refl

-- The table that decodes takes the letters back to their numbers.
pub sextet-rfc_letter : (v : ℕ) → v < 64 → sextet (rfc_letter v) ≡ ok v
sextet-rfc_letter v h = ap sextet (sym (letter_lem v h)) ∙ sextet-letter v h

-- The number of groups, and of letters that the last one lacks.
abbrev pub groups : List ℕ → ℕ
groups src = (length src + 2) / 3

abbrev pub lacking : List ℕ → ℕ
lacking src = (3 - length src % 3) % 3

byte_at_three :
    (a b c : ℕ) (src : List ℕ) (k : ℕ) → byte_at (a ∷ b ∷ c ∷ src) (k + 3) ≡ byte_at src k
unfolding byte_at
byte_at_three a b c src k = simp towards_suc (ground arith)

encode_loop_three :
    (left i a b c : ℕ) (src : List ℕ)
    → encode_loop left (i + 1) (a ∷ b ∷ c ∷ src) ≡ encode_loop left i src
unfolding encode_loop
encode_loop_three zero i a b c src = refl
encode_loop_three (suc left) i a b c src =
    let at = byte_at_three a b c src in
    let e0 : (i + 1) * 3 + 0 ≡ (i * 3 + 0) + 3 = omega arith in
    let e1 : (i + 1) * 3 + 1 ≡ (i * 3 + 1) + 3 = omega arith in
    let e2 : (i + 1) * 3 + 2 ≡ (i * 3 + 2) + 3 = omega arith in
    rw (e0, e1, e2, at (i * 3 + 0), at (i * 3 + 1), at (i * 3 + 2))
      (rw (encode_loop_three left (i + 1) a b c src) refl)

set_four :
    (w x y z v k : ℕ) (out : List ℕ)
    → set (w ∷ x ∷ y ∷ z ∷ out) (k + 4) v ≡ w ∷ x ∷ y ∷ z ∷ set out k v
set_four w x y z v k out = simp towards_suc refl

set_padding_four :
    (left i size w x y z : ℕ) (out : List ℕ)
    → i + left ≤ size
    → set_padding left i (size + 4) (w ∷ x ∷ y ∷ z ∷ out)
      ≡ w ∷ x ∷ y ∷ z ∷ set_padding left i size out
unfolding set_padding
set_padding_four zero i size w x y z out h = refl
set_padding_four (suc left) i size w x y z out h =
    let e : size + 4 - i - 1 ≡ (size - i - 1) + 4 = omega arith in
    rw (e, set_four w x y z b'=' (size - i - 1) out)
      (set_padding_four left (i + 1) size w x y z _ (omega arith))

first_bytes :
    (a b c : ℕ) (src : List ℕ)
    → let at = byte_at (a ∷ b ∷ c ∷ src) in (at 0 ≡ a) × (at 1 ≡ b) × (at 2 ≡ c)
unfolding byte_at
first_bytes a b c src = (ground arith, ground arith, ground arith)

encode_loop_first :
    (left a b c : ℕ) (src : List ℕ)
    → All IsByte (a ∷ b ∷ c ∷ src)
    → encode_loop (suc left) 0 (a ∷ b ∷ c ∷ src)
      ≡ letter (a / 4)
        ∷ letter (a % 4 * 16 + b / 16)
        ∷ letter (b % 16 * 4 + c / 64)
        ∷ letter (c % 64)
        ∷ encode_loop left 0 src
unfolding encode_loop
encode_loop_first left a b c src (ha, (hb, (hc, h))) =
    let (e0, e1, e2) = first_bytes a b c src in
    rw (e0, e1, e2, quad_lem a b c ha hb hc, encode_loop_three left 0 a b c src) refl

-- The body of `encode` once the sizes are known.
abbrev padded : List ℕ → List ℕ
padded src = set_padding (lacking src) 0 (4 * groups src) (encode_loop (groups src) 0 src)

padded_step :
    (a b c : ℕ) (src : List ℕ)
    → All IsByte (a ∷ b ∷ c ∷ src)
    → padded (a ∷ b ∷ c ∷ src)
      ≡ letter (a / 4)
        ∷ letter (a % 4 * 16 + b / 16)
        ∷ letter (b % 16 * 4 + c / 64)
        ∷ letter (c % 64)
        ∷ padded src
padded_step a b c src h =
    let more = a ∷ b ∷ c ∷ src in
    let g : groups more ≡ suc (groups src) = omega arith in
    let l : lacking more ≡ lacking src = omega arith in
    let s : 4 * groups more ≡ 4 * groups src + 4 = omega arith in
    rw (l, s, g, encode_loop_first (groups src) a b c src h)
      (set_padding_four (lacking src) 0 (4 * groups src) _ _ _ _ _ (omega arith))

padded-rfc4648 : (src : List ℕ) → All IsByte src → padded src ≡ rfc4648 src
unfolding rfc4648
padded-rfc4648 [] h = unfold set_padding encode_loop in refl
padded-rfc4648 (a ∷ []) (ha, h) =
    unfold set_padding encode_loop byte_at in
    rw (quad_lem a 0 0 ha (omega arith) (omega arith), add-zero)
      (rw (letter_lem (a / 4) (omega arith), letter_lem (a % 4 * 16) (omega arith)) refl)
padded-rfc4648 (a ∷ b ∷ []) (ha, (hb, h)) =
    unfold set_padding encode_loop byte_at in
    rw (quad_lem a b 0 ha hb (omega arith), add-zero)
      (rw
        (
          letter_lem (a / 4) (omega arith),
          letter_lem (a % 4 * 16 + b / 16) (omega arith),
          letter_lem (b % 16 * 4) (omega arith),
        )
        refl)
padded-rfc4648 (a ∷ b ∷ c ∷ src) (ha, (hb, (hc, h))) =
    padded_step a b c src (ha, (hb, (hc, h)))
    ∙ rw
        (
          padded-rfc4648 src h,
          letter_lem (a / 4) (omega arith),
          letter_lem (a % 4 * 16 + b / 16) (omega arith),
          letter_lem (b % 16 * 4 + c / 64) (omega arith),
          letter_lem (c % 64) (omega arith),
        )
        refl

-- On fewer than 2 ^ 61 bytes `encode` writes exactly the base 64 of RFC 4648.
pub encode-rfc4648 :
    (src : List ℕ) → All IsByte src → length src < 2 ^ 61 → encode src ≡ rfc4648 src
unfolding encode
encode-rfc4648 src h fits =
    let e = round_up_three (length src) (omega arith) in
    let g : u64 (4 * (length src + (3 - length src % 3) % 3)) / 3 ≡ 4 * groups src = omega arith in
    let k : 4 * groups src / 4 ≡ groups src = omega arith in rw (e, g, k) (padded-rfc4648 src h)
