-- ===== src/Encoding/Hex/RoundTrip.antt =====
-- What source/hex.cpp promises: decoding undoes encoding, and the only failure is an odd length.
use ez.Base.{
  ◌*◌, ◌/◌, ◌%◌, ◌≡◌, ◌⊎◌, ◌∷◌, ◌==◌, ℕ, suc, refl, ap, inl, inr, Bool, true, List, [], arith,
  ==_iff, Bool-cases, length, replicate, All, length-replicate, IsByte, ok, throws,
}
use ez.Encoding.Hex.{
  encode, encoded_size, decode_loop, decode_into, decode, invalid_source, set_low, set_high,
}
use ez.Encoding.Hex.Digits.{high_nibble, low_nibble, set_low-set_high-digit}

-- The encoding is exactly `encoded_size` characters long.
pub length-encode : (src : List ℕ) (up : Bool) → length (encode src up) ≡ encoded_size (length src)
unfolding encode encoded_size
length-encode [] up = omega arith
length-encode (d ∷ src) up = omega (arith, length-encode src up)

decode_loop-encode :
    (src : List ℕ) (up : Bool)
    → All IsByte src
    → decode_loop (encode src up) (replicate (length src) 0) ≡ ok src
unfolding encode decode_loop
decode_loop-encode [] up h = refl
decode_loop-encode (d ∷ src) up (hd, h) =
    rw
      (
        high_nibble d hd,
        low_nibble d hd,
        decode_loop-encode src up h,
        set_low-set_high-digit up d hd,
      )
      refl

encode_even : (src : List ℕ) (up : Bool) → length (encode src up) ≡ 2 * length src
encode_even src up = unfold encoded_size in omega (arith, length-encode src up)

-- Decoding undoes encoding, in either letter case, for every sequence of bytes.
pub decode-encode_hex :
    (src : List ℕ) (up : Bool) → All IsByte src → decode (encode src up) ≡ ok src
unfolding decode decode_into
decode-encode_hex src up h =
    let even : (length (encode src up) % 2 == 0) ≡ true =
      (==_iff _ _).1 (omega (arith, encode_even src up)) in
    let half : length (encode src up) / 2 ≡ length src = omega (arith, encode_even src up) in
    rw (even, half) (decode_loop-encode src up h)

decode_loop_even :
    (src out : List ℕ)
    → length src ≡ 2 * length out
    → (v : List ℕ) × (decode_loop src out ≡ ok v) × (length v ≡ length out)
unfolding decode_loop
decode_loop_even [] [] e = ([], refl, refl)
decode_loop_even [] (o ∷ out) e = absurd (omega arith)
decode_loop_even (s1 ∷ []) [] e = absurd (omega arith)
decode_loop_even (s1 ∷ []) (o ∷ out) e = absurd (omega arith)
decode_loop_even (s1 ∷ s2 ∷ src) [] e = absurd (omega arith)
decode_loop_even (s1 ∷ s2 ∷ src) (o ∷ out) e =
    let (v, r, n) = decode_loop_even src out (omega arith) in
    (set_low s2 (set_high s1 o) ∷ v, rw r, ap suc n)

-- Whatever the characters are, decoding a source of even length succeeds with half as many bytes,
-- with no access outside the source or the result, and a source of odd length is refused.
pub decode_total :
    (src : List ℕ)
    → ((length src % 2 ≡ 0) × ((v : List ℕ) × (decode src ≡ ok v) × (length v * 2 ≡ length src)))
      ⊎ ((length src % 2 ≡ 1) × (decode src ≡ throws invalid_source))
unfolding decode decode_into
decode_total src = elim (Bool-cases (length src % 2 == 0)) [
  | inl even ↦
      let e = (==_iff _ _).0 even in
      let zeros = replicate (length src / 2) 0 in
      let size : length zeros ≡ length src / 2 = length-replicate _ _ in
      let (v, r, n) = decode_loop_even src zeros (omega arith) in
      inl (e, (v, rw even r, omega arith))
  | inr odd ↦ inr (ground arith, rw odd)
]
