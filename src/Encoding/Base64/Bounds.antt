-- ===== src/Encoding/Base64/Bounds.antt =====
-- Which texts `decode` of source/base64.cpp can read, and how much it writes.
use ez.Base.{
  ◌+◌, ◌*◌, ◌/◌, ◌^◌, ◌≤◌, ◌<◌, ◌≡◌, ◌∙◌, ◌⊎◌, ◌||◌, ◌++◌, ℕ, zero, suc, refl, ap, inl, inr, true,
  none, some, List, [], arith, ltb, leb, Bool-cases, length, get_elem?, All, length-append,
  get_elem?_lt, get_elem?_ge, lt_of_get_elem?, All-get_elem?, All-of_get_elem?, ok, throws, fault,
  >>=-eq-ok,
}
use ez.Encoding.Base64.Sextets.{round_up_four}
use native.Mathlib.Decide.{ℕ_discrete}
use native.Mathlib.Decide.{dec_lt}
use ez.Encoding.Base64.{
  sextet, sextet_at, guarded_sextet_at, triple, decode_loop, from_base64, decoded_size, decode,
  decoded_size, decode, round_up, Result, round_up, Result,
}

abbrev pub IsAscii : ℕ → Type 0
IsAscii c = c < 128

sextet_ascii : (c : ℕ) → IsAscii c → (v : ℕ) × (sextet c ≡ ok v)
unfolding sextet
sextet_ascii c h = elim (Bool-cases (leb c b'z' || leb 128 c)) [
  | inl e ↦ let (v, r) = get_elem?_lt from_base64 c h in (v, rw (e, r) refl)
  | inr e ↦ (0xff, rw e refl)
]

IsAscii-of_sextet : (c v : ℕ) → sextet c ≡ ok v → IsAscii c
unfolding sextet
IsAscii-of_sextet c v e = elim (dec_lt c 128) [
  | yes h ↦ h
  | no h ↦
      let t : (leb c b'z' || leb 128 c) ≡ true = ground arith in
      let n : get_elem? from_base64 c ≡ none = get_elem?_ge from_base64 c (omega arith) in
      absurd (cc (rw (t, n) at e))
]

length-triple : (p q r s : ℕ) → length (triple p q r s) ≤ 3
unfolding triple
length-triple p q r s = ground arith

module _ (src : List ℕ) where
  sextet_at_ascii : (j : ℕ) → All IsAscii src → j < length src → (v : ℕ) × (sextet_at src j ≡ ok v)
  unfolding sextet_at
  sextet_at_ascii j h lt =
      let (c, e) = get_elem?_lt src j lt in
      let (v, r) = sextet_ascii c (All-get_elem? IsAscii src j c h e) in (v, rw (e, r) refl)

  guarded_ascii : (j : ℕ) → All IsAscii src → (v : ℕ) × (guarded_sextet_at src j ≡ ok v)
  unfolding guarded_sextet_at
  guarded_ascii j h = elim (Bool-cases (ltb j (length src))) [
    | inl e ↦ rw e (sextet_at_ascii j h (ground arith))
    | inr e ↦ (0xff, rw e refl)
  ]

  IsAscii-of_sextet_at : (j c v : ℕ) → sextet_at src j ≡ ok v → get_elem? src j ≡ some c → IsAscii c
  unfolding sextet_at
  IsAscii-of_sextet_at j c v e g = IsAscii-of_sextet c v (rw g at e)

  IsAscii-of_guarded :
      (j c v : ℕ) → guarded_sextet_at src j ≡ ok v → get_elem? src j ≡ some c → IsAscii c
  unfolding guarded_sextet_at
  IsAscii-of_guarded j c v e g =
      let lt : j < length src = lt_of_get_elem? src j c g in
      let t : ltb j (length src) ≡ true = ground arith in IsAscii-of_sextet_at j c v (rw t at e) g

  decode_loop_ascii :
      (left i : ℕ)
      → All IsAscii src
      → i + 4 * left < length src + 4
      → (v : List ℕ) × (decode_loop left i src ≡ ok v) × (length v ≤ 3 * left)
  unfolding decode_loop triple
  decode_loop_ascii zero i h fits = ([], refl, omega arith)
  decode_loop_ascii (suc left) i h fits =
      let (p, ep) = sextet_at_ascii (i + 0) h (omega arith) in
      let (q, eq) = guarded_ascii (i + 1) h in
      let (r, er) = guarded_ascii (i + 2) h in
      let (s, es) = guarded_ascii (i + 3) h in
      let (v, ev, n) = decode_loop_ascii left (i + 4) h (omega arith) in
      (
        triple p q r s ++ v,
        rw (ep, eq, er, es, ev) refl,
        omega (arith, length-append (triple p q r s) v, length-triple p q r s),
      )

  IsAscii-of_decode_loop :
      (left i j c : ℕ) (v : List ℕ)
      → decode_loop left i src ≡ ok v
      → i ≤ j
      → j < i + 4 * left
      → get_elem? src j ≡ some c
      → IsAscii c
  unfolding decode_loop
  IsAscii-of_decode_loop zero i j c v e lo hi g = absurd (omega arith)
  IsAscii-of_decode_loop (suc left) i j c v e lo hi g =
      let (p, ep, f0) = >>=-eq-ok (sextet_at src (i + 0)) _ e in
      let (q, eq, f1) = >>=-eq-ok (guarded_sextet_at src (i + 1)) _ f0 in
      let (r, er, f2) = >>=-eq-ok (guarded_sextet_at src (i + 2)) _ f1 in
      let (s, es, f3) = >>=-eq-ok (guarded_sextet_at src (i + 3)) _ f2 in
      let (t, et, f4) = >>=-eq-ok (decode_loop left (i + 4) src) _ f3 in
      elim (ℕ_discrete j (i + 0)) [
        | yes h0 ↦ IsAscii-of_sextet_at (i + 0) c p ep (rw h0 at g)
        | no h0 ↦ elim (ℕ_discrete j (i + 1)) [
          | yes h1 ↦ IsAscii-of_guarded (i + 1) c q eq (rw h1 at g)
          | no h1 ↦ elim (ℕ_discrete j (i + 2)) [
            | yes h2 ↦ IsAscii-of_guarded (i + 2) c r er (rw h2 at g)
            | no h2 ↦ elim (ℕ_discrete j (i + 3)) [
              | yes h3 ↦ IsAscii-of_guarded (i + 3) c s es (rw h3 at g)
              | no h3 ↦ IsAscii-of_decode_loop left (i + 4) j c t et (omega arith) (omega arith) g
            ]
          ]
        ]
      ]

rounds : (n : ℕ) → n < 2 ^ 61 → (round_up 4 4 n 0).0 / 4 ≡ (n + 3) / 4
rounds n fits = omega (arith, round_up_four n (omega arith))

decode_ascii :
    (src : List ℕ)
    → length src < 2 ^ 61
    → All IsAscii src
    → (v : List ℕ) × (decode src ≡ ok v) × (length v ≤ decoded_size (length src))
unfolding decode decoded_size
decode_ascii src fits h =
    let n = rounds (length src) fits in
    let (v, e, le) = decode_loop_ascii src ((length src + 3) / 4) 0 h (omega arith) in
    (
      v,
      ap (λ k. decode_loop k 0 src) n ∙ e,
      omega (arith, round_up_four (length src) (omega arith)),
    )

IsAscii-of_decode : (src v : List ℕ) → length src < 2 ^ 61 → decode src ≡ ok v → All IsAscii src
unfolding decode
IsAscii-of_decode src v fits e = All-of_get_elem? IsAscii src λ j c g.
    IsAscii-of_decode_loop src ((length src + 3) / 4) 0 j c v (rw (rounds (length src) fits) at e)
      (omega arith) (omega (arith, lt_of_get_elem? src j c g)) g

-- On fewer than 2 ^ 61 characters `decode` has a result exactly when every character is below 128, and then it writes no more than
-- the `decoded_size` bytes that were set aside. On any other text it reads outside its table.
pub decode_iff_IsAscii :
    (src : List ℕ)
    → length src < 2 ^ 61
    → (All IsAscii src
        × ((v : List ℕ) × (decode src ≡ ok v) × (length v ≤ decoded_size (length src))))
      ⊎ ((¬ All IsAscii src) × (decode src ≡ fault))
decode_iff_IsAscii src fits = go (decode src) refl
  where
    go :
        (r : Result (List ℕ))
        → decode src ≡ r
        → (All IsAscii src
            × ((v : List ℕ) × (decode src ≡ ok v) × (length v ≤ decoded_size (length src))))
          ⊎ ((¬ All IsAscii src) × (decode src ≡ fault))
    go (ok v) e = let h = IsAscii-of_decode src v fits e in inl (h, decode_ascii src fits h)
    go (throws x) e = absurd x
    go fault e = inr (λ h. let (v, r, le) = decode_ascii src fits h in cc, e)
