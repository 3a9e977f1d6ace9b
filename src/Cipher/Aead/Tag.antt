-- ===== src/Cipher/Aead/Tag.antt =====
-- What source/chacha20_poly1305.cpp authenticates: the additional data and the ciphertext, each
-- filled up to 16 bytes, and their sizes.
use ez.Base.{
  ◌+◌, ◌-◌, ◌/◌, ◌%◌, ◌^◌, ◌≡◌, ◌∙◌, ◌∷◌, ◌==◌, ℕ, zero, suc, refl, sym, ap, List, [], arith,
  Bool-cases, inl, inr, length, replicate, All, IsByte, le32,
}
use ez.Feed.{join}
use ez.Cipher.Poly1305
use ez.Cipher.Poly1305.{complete, copy_to, update, set_key}
use ez.Cipher.Poly1305.Block.{number}
use ez.Cipher.Poly1305.Stream.{feed, update_nothing}
use ez.Cipher.Poly1305.Mac.{ended, multiplier, addend, updates, complete-mac, complete-bytes}
use ez.Cipher.Aead.{store64, pad, authenticate}

abbrev pub padding : ℕ → List ℕ
padding n = replicate ((16 - n % 16) % 16) 0

-- The size of a part as RFC 8439 wants it: 64 bits as eight bytes, the lowest first.
abbrev pub size_bytes : ℕ → List ℕ
size_bytes n =
    n % 256
    ∷ n / 2 ^ 8 % 256
    ∷ n / 2 ^ 16 % 256
    ∷ n / 2 ^ 24 % 256
    ∷ n / 2 ^ 32 % 256
    ∷ n / 2 ^ 40 % 256
    ∷ n / 2 ^ 48 % 256
    ∷ n / 2 ^ 56 % 256
    ∷ []

store64-size_bytes : (n : ℕ) → store64 n ≡ size_bytes n
unfolding store64 le32
store64-size_bytes n =
    let h0 : n / 2 ^ 32 / 2 ^ 8 % 256 ≡ n / 2 ^ 40 % 256 = omega arith in
    let h1 : n / 2 ^ 32 / 2 ^ 16 % 256 ≡ n / 2 ^ 48 % 256 = omega arith in
    let h2 : n / 2 ^ 32 / 2 ^ 24 % 256 ≡ n / 2 ^ 56 % 256 = omega arith in rw (h0, h1, h2) refl

abbrev pub parts : List ℕ → List ℕ → List (List ℕ)
parts aad sent =
    aad
    ∷ padding (length aad)
    ∷ sent
    ∷ padding (length sent)
    ∷ size_bytes (length aad)
    ∷ size_bytes (length sent)
    ∷ []

-- The tag of RFC 8439 as a number: the authenticator of the parts, one after the other.
abbrev pub tag_number : List ℕ → List ℕ → List ℕ → ℕ
tag_number key aad sent =
    (ended (multiplier key) (feed (multiplier key) (join (parts aad sent)) (0, [])) + addend key)
    % 2 ^ 128

pad_lem : (n : ℕ) (mac : Poly1305.Impl) → pad n mac ≡ update (padding n) mac
unfolding pad
pad_lem n mac = elim (Bool-cases (n % 16 == 0)) [
  | inl e ↦
      let none_ : (16 - n % 16) % 16 ≡ 0 = ground (arith, e) in
      rw (e, none_) (sym (update_nothing mac))
  | inr e ↦ let some_ : (16 - n % 16) % 16 ≡ 16 - n % 16 = ground (arith, e) in rw (e, some_) refl
]

authenticate_lem :
    (key aad sent : List ℕ) (mac : Poly1305.Impl)
    → authenticate key aad sent mac ≡ complete (updates (parts aad sent) (set_key key mac))
unfolding authenticate
authenticate_lem key aad sent mac =
    let m1 = update aad (set_key key mac) in
    ap
      (λ m. complete (
        update (store64 (length sent))
          (update (store64 (length aad)) (pad (length sent) (update sent m)))))
      (pad_lem (length aad) m1)
    ∙ ap (λ m. complete (update (store64 (length sent)) (update (store64 (length aad)) m)))
        (pad_lem (length sent) (update sent (update (padding (length aad)) m1)))
    ∙ rw (store64-size_bytes (length aad), store64-size_bytes (length sent)) refl

zeros-IsByte : (n : ℕ) → All IsByte (replicate n 0)
zeros-IsByte zero = tt
zeros-IsByte (suc n) = (omega arith, zeros-IsByte n)

size_bytes-IsByte : (n : ℕ) → All IsByte (size_bytes n)
size_bytes-IsByte n = (
  omega arith,
  (
    omega arith,
    (omega arith, (omega arith, (omega arith, (omega arith, (omega arith, (omega arith, tt)))))),
  ),
)

parts-IsByte :
    (aad sent : List ℕ) → All IsByte aad → All IsByte sent → All (All IsByte) (parts aad sent)
parts-IsByte aad sent ha hs =
    (ha, (zeros-IsByte _, (hs, (zeros-IsByte _, (size_bytes-IsByte _, (size_bytes-IsByte _, tt))))))

-- The authenticator gives the tag of RFC 8439, whatever its object held before.
pub authenticate_number :
    (key aad sent : List ℕ) (mac : Poly1305.Impl)
    → length mac.buffer ≡ 17
    → All IsByte mac.buffer
    → All IsByte key
    → All IsByte aad
    → All IsByte sent
    → number (copy_to (authenticate key aad sent mac)) ≡ tag_number key aad sent
authenticate_number key aad sent mac l h hk ha hs =
    ap (λ m. number (copy_to m)) (authenticate_lem key aad sent mac)
    ∙ complete-mac mac key (parts aad sent) l h hk (parts-IsByte aad sent ha hs)

number-equal :
    (xs ys : List ℕ)
    → length xs ≡ length ys
    → All IsByte xs
    → All IsByte ys
    → number xs ≡ number ys
    → xs ≡ ys
number-equal [] [] e hx hy n = refl
number-equal [] (y ∷ ys) e hx hy n = absurd (omega arith)
number-equal (x ∷ xs) [] e hx hy n = absurd (omega arith)
number-equal (x ∷ xs) (y ∷ ys) e (hx, hxs) (hy, hys) n =
    let first : x ≡ y = omega arith in
    let rest = number-equal xs ys (omega arith) hxs hys (omega arith) in
    ap (λ z. z ∷ xs) first ∙ ap (λ zs. y ∷ zs) rest

pub authenticate-bytes :
    (key aad sent : List ℕ) (mac : Poly1305.Impl)
    → (length (copy_to (authenticate key aad sent mac)) ≡ 16)
      × All IsByte (copy_to (authenticate key aad sent mac))
unfolding authenticate
authenticate-bytes key aad sent mac = complete-bytes _

-- Two objects give the same tag.
pub authenticate_same :
    (key aad sent : List ℕ) (m m' : Poly1305.Impl)
    → length m.buffer ≡ 17
    → All IsByte m.buffer
    → length m'.buffer ≡ 17
    → All IsByte m'.buffer
    → All IsByte key
    → All IsByte aad
    → All IsByte sent
    → copy_to (authenticate key aad sent m) ≡ copy_to (authenticate key aad sent m')
authenticate_same key aad sent m m' l h l' h' hk ha hs =
    let (n, b) = authenticate-bytes key aad sent m in
    let (n', b') = authenticate-bytes key aad sent m' in
    number-equal _ _ (n ∙ sym n') b b' (
      authenticate_number key aad sent m l h hk ha hs
      ∙ sym (authenticate_number key aad sent m' l' h' hk ha hs))
