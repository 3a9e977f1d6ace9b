-- ===== src/Encoding/Base64/RoundTrip.antt =====
-- Decoding undoes encoding, and the encoding is as long as `encoded_size` says.
use ez.Base.{
  ◌+◌, ◌*◌, ◌/◌, ◌%◌, ◌^◌, ◌<◌, ◌≡◌, ◌∙◌, ◌∷◌, ◌++◌, ◌>>=◌, ℕ, zero, suc, refl, List, [], arith,
  length, get_elem?, All, IsByte, ok,
}
use ez.Encoding.Base64.{
  sextet, sextet_at, guarded_sextet_at, triple, decode_loop, decode, encode, encoded_size, round_up,
}
use ez.Encoding.Base64.Sextets.{round_up_four, round_up_three, sextet_padding, triple_lem}
use ez.Encoding.Base64.Rfc4648.{rfc4648, sextet-rfc_letter, encode-rfc4648, groups}
use native.Mathlib.Numerals.{towards_suc}

get_elem?_four :
    (w x y z : ℕ) (src : List ℕ) (k : ℕ) → get_elem? (w ∷ x ∷ y ∷ z ∷ src) (k + 4) ≡ get_elem? src k
get_elem?_four w x y z src k = simp towards_suc refl

sextet_at_four :
    (w x y z : ℕ) (src : List ℕ) (j k : ℕ)
    → j ≡ k + 4
    → (sextet_at (w ∷ x ∷ y ∷ z ∷ src) j ≡ sextet_at src k)
      × (guarded_sextet_at (w ∷ x ∷ y ∷ z ∷ src) j ≡ guarded_sextet_at src k)
unfolding sextet_at guarded_sextet_at
sextet_at_four w x y z src j k e =
    (rw (e, get_elem?_four w x y z src k) refl, rw (e, get_elem?_four w x y z src k) (ground arith))

pub decode_loop_four :
    (left i w x y z : ℕ) (src : List ℕ)
    → decode_loop left (i + 4) (w ∷ x ∷ y ∷ z ∷ src) ≡ decode_loop left i src
unfolding decode_loop
decode_loop_four zero i w x y z src = refl
decode_loop_four (suc left) i w x y z src =
    let at = sextet_at_four w x y z src in
    rw
      (
        (at (i + 4 + 0) (i + 0) (omega arith)).0,
        (at (i + 4 + 1) (i + 1) (omega arith)).1,
        (at (i + 4 + 2) (i + 2) (omega arith)).1,
        (at (i + 4 + 3) (i + 3) (omega arith)).1,
        decode_loop_four left (i + 4) w x y z src,
      )
      refl

guarded_first :
    (w x y z : ℕ) (src : List ℕ)
    → let at = guarded_sextet_at (w ∷ x ∷ y ∷ z ∷ src) in
      (at 1 ≡ sextet x) × (at 2 ≡ sextet y) × (at 3 ≡ sextet z)
unfolding sextet_at guarded_sextet_at
guarded_first w x y z src = (ground arith, ground arith, ground arith)

-- One group of characters that all have a table entry.
pub decode_group :
    (left w x y z p q r s : ℕ) (src : List ℕ)
    → sextet w ≡ ok p
    → sextet x ≡ ok q
    → sextet y ≡ ok r
    → sextet z ≡ ok s
    → decode_loop (suc left) 0 (w ∷ x ∷ y ∷ z ∷ src)
      ≡ (decode_loop left 0 src >>= λ rest. ok (triple p q r s ++ rest))
unfolding decode_loop sextet_at guarded_sextet_at
decode_group left w x y z p q r s src hw hx hy hz =
    let (e1, e2, e3) = guarded_first w x y z src in
    rw (hw, e1, hx, e2, hy, e3, hz, decode_loop_four left 0 w x y z src) refl

decode_rest :
    (left w x y z p q r s : ℕ) (src tail out : List ℕ)
    → sextet w ≡ ok p
    → sextet x ≡ ok q
    → sextet y ≡ ok r
    → sextet z ≡ ok s
    → decode_loop left 0 src ≡ ok tail
    → triple p q r s ++ tail ≡ out
    → decode_loop (suc left) 0 (w ∷ x ∷ y ∷ z ∷ src) ≡ ok out
decode_rest left w x y z p q r s src tail out hw hx hy hz ht e =
    decode_group left w x y z p q r s src hw hx hy hz ∙ rw (ht, e) refl

triple_one : (a : ℕ) → a < 256 → triple (a / 4) (a % 4 * 16) 255 255 ≡ a ∷ []
triple_one a ha =
    triple_lem (a / 4) (a % 4 * 16) 255 255 (omega arith) (omega arith) (omega arith) (omega arith)
    ∙ ground arith

triple_two :
    (a b : ℕ)
    → a < 256
    → b < 256
    → triple (a / 4) (a % 4 * 16 + b / 16) (b % 16 * 4) 255 ≡ a ∷ b ∷ []
triple_two a b ha hb =
    triple_lem (a / 4) (a % 4 * 16 + b / 16) (b % 16 * 4) 255 (omega arith) (omega arith)
      (omega arith) (omega arith)
    ∙ ground arith

triple_three :
    (a b c : ℕ)
    → a < 256
    → b < 256
    → c < 256
    → triple (a / 4) (a % 4 * 16 + b / 16) (b % 16 * 4 + c / 64) (c % 64) ≡ a ∷ b ∷ c ∷ []
triple_three a b c ha hb hc =
    triple_lem (a / 4) (a % 4 * 16 + b / 16) (b % 16 * 4 + c / 64) (c % 64) (omega arith)
      (omega arith) (omega arith) (omega arith)
    ∙ ground arith

decode_loop-rfc4648 :
    (src : List ℕ) → All IsByte src → decode_loop (groups src) 0 (rfc4648 src) ≡ ok src
unfolding rfc4648
decode_loop-rfc4648 [] h = unfold decode_loop in refl
decode_loop-rfc4648 (a ∷ []) (ha, h) =
    decode_rest 0 _ _ _ _ (a / 4) (a % 4 * 16) 255 255 [] [] _ (sextet-rfc_letter _ (omega arith))
      (sextet-rfc_letter _ (omega arith)) sextet_padding sextet_padding (unfold decode_loop in refl)
      (rw (triple_one a ha) refl)
decode_loop-rfc4648 (a ∷ b ∷ []) (ha, (hb, h)) =
    decode_rest 0 _ _ _ _ (a / 4) (a % 4 * 16 + b / 16) (b % 16 * 4) 255 [] [] _
      (sextet-rfc_letter _ (omega arith)) (sextet-rfc_letter _ (omega arith))
      (sextet-rfc_letter _ (omega arith)) sextet_padding (unfold decode_loop in refl)
      (rw (triple_two a b ha hb) refl)
decode_loop-rfc4648 (a ∷ b ∷ c ∷ src) (ha, (hb, (hc, h))) =
    let g : groups (a ∷ b ∷ c ∷ src) ≡ suc (groups src) = omega arith in
    rw g (
      decode_rest (groups src) _ _ _ _ (a / 4) (a % 4 * 16 + b / 16) (b % 16 * 4 + c / 64) (c % 64)
        (rfc4648 src) src _ (sextet-rfc_letter _ (omega arith)) (sextet-rfc_letter _ (omega arith))
        (sextet-rfc_letter _ (omega arith)) (sextet-rfc_letter _ (omega arith))
        (decode_loop-rfc4648 src h) (rw (triple_three a b c ha hb hc) refl))

length-rfc4648 : (src : List ℕ) → length (rfc4648 src) ≡ 4 * groups src
unfolding rfc4648
length-rfc4648 [] = refl
length-rfc4648 (a ∷ []) = refl
length-rfc4648 (a ∷ b ∷ []) = refl
length-rfc4648 (a ∷ b ∷ c ∷ src) = omega (arith, length-rfc4648 src)

-- The text of fewer than 2 ^ 61 bytes is as long as `encoded_size` says, four characters for each
-- three bytes begun.
pub length-encode_base64 :
    (src : List ℕ)
    → All IsByte src
    → length src < 2 ^ 61
    → (length (encode src) ≡ encoded_size (length src))
      × (encoded_size (length src) ≡ (length src + 2) / 3 * 4)
unfolding encoded_size
length-encode_base64 src h fits =
    let e = round_up_three (length src) (omega arith) in
    rw (encode-rfc4648 src h fits, e) (omega (arith, length-rfc4648 src), omega arith)

-- Decoding undoes encoding, for every sequence of fewer than 2 ^ 61 bytes.
pub decode-encode_base64 :
    (src : List ℕ) → All IsByte src → length src < 2 ^ 61 → decode (encode src) ≡ ok src
unfolding decode
decode-encode_base64 src h fits =
    let n = length-rfc4648 src in
    let e : (round_up 4 4 (length (rfc4648 src)) 0).0 / 4 ≡ groups src =
      omega (arith, round_up_four (length (rfc4648 src)) (omega arith)) in
    rw (encode-rfc4648 src h fits, e) (decode_loop-rfc4648 src h)
