-- ===== src/Encoding/Url/Bounds.antt =====
-- On which texts `decode` of source/url.cpp stays inside its source.
use ez.Base.{
  ◌≤◌, ◌≡◌, ◌∙◌, ◌≢◌, ◌⊎◌, ◌∷◌, ◌==◌, if◌then◌else◌, ℕ, refl, inl, inr, List, [], arith, length, ok,
  fault,
}
use native.Mathlib.Decide.{ℕ_discrete}
use ez.Encoding.Hex
use ez.Encoding.Url.{decode}
use ez.Encoding.Url.Chars.{decode_plain, decode_escape}

-- Read from the left, each '%' that is not one of the two characters of an earlier escape has two
-- characters behind it.
pub data Complete : List ℕ → Type 0 where
  nil : Complete []
  plain : {c : ℕ} {src : List ℕ} → c ≢ b'%' → Complete src → Complete (c ∷ src)
  escape : {c s1 s2 : ℕ} {src : List ℕ} → c ≡ b'%' → Complete src → Complete (c ∷ s1 ∷ s2 ∷ src)

-- Decoding a complete text gives no more characters than it has.
decode_of_Complete :
    {src : List ℕ} → Complete src → (v : List ℕ) × (decode src ≡ ok v) × (length v ≤ length src)
decode_of_Complete nil = ([], unfold decode in refl, omega arith)
decode_of_Complete (plain {c} {src} h k) =
    let (v, e, n) = decode_of_Complete k in
    ((if c == b'+' then b' ' else c) ∷ v, decode_plain c src h ∙ rw e refl, omega arith)
decode_of_Complete (escape {c} {s1} {s2} {src} h k) =
    let (v, e, n) = decode_of_Complete k in
    (
      Hex.set_low s2 (Hex.set_high s1 0) ∷ v,
      rw h (decode_escape s1 s2 src ∙ rw e refl),
      omega arith,
    )

-- Any other text makes it read behind the source; nothing is ever thrown.
decode_cases : (src : List ℕ) → Complete src ⊎ (decode src ≡ fault)
decode_cases [] = inl nil
decode_cases (c ∷ []) = elim (ℕ_discrete c b'%') [
  | yes e ↦ inr (rw e (unfold decode in refl))
  | no n ↦ inl (plain n nil)
]
decode_cases (c ∷ s1 ∷ []) = elim (ℕ_discrete c b'%') [
  | yes e ↦ inr (rw e (unfold decode in refl))
  | no n ↦ elim (decode_cases (s1 ∷ [])) [
    | inl k ↦ inl (plain n k)
    | inr f ↦ inr (decode_plain c (s1 ∷ []) n ∙ rw f refl)
  ]
]
decode_cases (c ∷ s1 ∷ s2 ∷ src) = elim (ℕ_discrete c b'%') [
  | yes e ↦ elim (decode_cases src) [
    | inl k ↦ inl (escape e k)
    | inr f ↦ inr (rw e (decode_escape s1 s2 src ∙ rw f refl))
  ]
  | no n ↦ elim (decode_cases (s1 ∷ s2 ∷ src)) [
    | inl k ↦ inl (plain n k)
    | inr f ↦ inr (decode_plain c (s1 ∷ s2 ∷ src) n ∙ rw f refl)
  ]
]

-- `decode` stays inside its source exactly when, read from the left, each '%' that is not one of the
-- two characters of an earlier escape has two characters behind it (so %1% is decoded inside, and
-- %1 is not); then it returns at most as many characters as the source has. It never throws.
pub decode_iff_Complete :
    (src : List ℕ)
    → (Complete src × ((v : List ℕ) × (decode src ≡ ok v) × (length v ≤ length src)))
      ⊎ ((¬ Complete src) × (decode src ≡ fault))
decode_iff_Complete src = elim (decode_cases src) [
  | inl k ↦ inl (k, decode_of_Complete k)
  | inr f ↦ inr (λ k. let (v, e, n) = decode_of_Complete k in cc, f)
]
