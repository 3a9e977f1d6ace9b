-- ===== src/Cipher/Poly1305/Block.antt =====
-- The block of source/poly1305.cpp as a number, and the step of the polynomial.
use ez.Base.{
  ◌+◌, ◌-◌, ◌*◌, ◌%◌, ◌≤◌, ◌≡◌, ◌∙◌, ◌∷◌, ◌++◌, ℕ, zero, suc, refl, sym, ap, List, [], arith,
  length, get_or, take, replicate, All, length-append, length-take, length-replicate, drop_all,
  All-take, All-append, IsByte, of_le32,
}
use mathlib.Core.Path.{subst}
use mathlib.Core.List.{append-nil, append_assoc}
use ez.Cipher.Poly1305.Passes.{prime, IsBlock, value_of_block}
use ez.Cipher.Poly1305.{padded}

-- Bytes as a number, low byte first.
abbrev pub number : List ℕ → ℕ
number [] = 0
number (x ∷ xs) = x + 256 * number xs

-- The next value of the polynomial: the block with a one behind it is added, and the sum multiplied
-- by the key.
abbrev pub step : ℕ → ℕ → List ℕ → ℕ
step r h block = (h + number (block ++ (1 ∷ []))) * r % prime

number-zeros : (xs : List ℕ) (n : ℕ) → number (xs ++ replicate n 0) ≡ number xs
number-zeros [] zero = refl
number-zeros [] (suc n) = omega (arith, number-zeros [] n)
number-zeros (x ∷ xs) n = ap (λ (k : ℕ). x + 256 * k) (number-zeros xs n)

-- Seventeen bytes, of which the last is at most one.
seventeen :
    (b : List ℕ)
    → length b ≡ 17
    → All IsByte b
    → get_or b 16 0 ≤ 1
    → IsBlock b × (value_of_block b ≡ number b)
unfolding of_le32
seventeen
      (b0 ∷ b1 ∷ b2 ∷ b3 ∷ b4 ∷ b5 ∷ b6 ∷ b7 ∷ b8 ∷ b9 ∷ b10 ∷ b11 ∷ b12 ∷ b13 ∷ b14 ∷ b15 ∷ b16
        ∷ [])
      l h top =
    (
      record { b0 = omega arith; b1 = omega arith; b2 = omega arith; b3 = omega arith; b4 = top },
      omega arith,
    )
seventeen b l h top = absurd (omega arith)

padded_lem :
    (n : ℕ) (buffer : List ℕ)
    → length buffer ≡ 17
    → n ≤ 16
    → padded n buffer ≡ take n buffer ++ (1 ∷ replicate (16 - n) 0)
unfolding padded
padded_lem n buffer l small =
    let zeros : List ℕ = replicate (16 - n) 0 in
    let count : length zeros ≡ 16 - n = length-replicate (16 - n) 0 in
    ap (λ rest. take n buffer ++ (1 ∷ (zeros ++ rest)))
      (drop_all (n + suc (length zeros)) buffer (omega arith))
    ∙ ap (λ rest. take n buffer ++ (1 ∷ rest)) (append-nil zeros)

zeros-IsByte : (n : ℕ) → All IsByte (replicate n 0)
zeros-IsByte zero = tt
zeros-IsByte (suc n) = (omega arith, zeros-IsByte n)

zero_at : (n i : ℕ) → get_or (replicate n 0) i 0 ≡ zero
zero_at zero i = refl
zero_at (suc n) zero = refl
zero_at (suc n) (suc i) = zero_at n i

end_small : (xs : List ℕ) (n i : ℕ) → length xs + n ≡ i → get_or (xs ++ (1 ∷ replicate n 0)) i 0 ≤ 1
end_small [] n zero e = omega arith
end_small [] n (suc i) e = omega (arith, zero_at n i)
end_small (x ∷ xs) n zero e = absurd (omega arith)
end_small (x ∷ xs) n (suc i) e = end_small xs n i (omega arith)

-- What `transform` reads: a block whose number is that of the bytes with a one behind them.
pub padded-IsBlock :
    (n : ℕ) (buffer : List ℕ)
    → length buffer ≡ 17
    → All IsByte buffer
    → n ≤ 16
    → IsBlock (padded n buffer)
      × (value_of_block (padded n buffer) ≡ number (take n buffer ++ (1 ∷ [])))
padded-IsBlock n buffer l h small =
    let zeros : List ℕ = replicate (16 - n) 0 in
    let p = padded_lem n buffer l small in
    let count : length zeros ≡ 16 - n = length-replicate (16 - n) 0 in
    let size = length-take n buffer in
    let whole = length-append (take n buffer) (1 ∷ zeros) in
    let bytes =
      All-append IsByte (take n buffer) (1 ∷ zeros) (All-take IsByte n buffer h)
        (omega arith, zeros-IsByte (16 - n)) in
    let (ok_block, e) =
      seventeen (take n buffer ++ (1 ∷ zeros)) (omega arith) bytes
        (end_small (take n buffer) (16 - n) 16 (omega arith)) in
    (
      subst IsBlock (sym p) ok_block,
      ap value_of_block p
          ∙ e
          ∙ ap number (sym (append_assoc (take n buffer) (1 ∷ []) zeros))
          ∙ number-zeros (take n buffer ++ (1 ∷ [])) (16 - n),
    )

-- The block after the padding.
pub padded-bytes :
    (n : ℕ) (buffer : List ℕ)
    → length buffer ≡ 17
    → All IsByte buffer
    → n ≤ 16
    → (length (padded n buffer) ≡ 17) × All IsByte (padded n buffer)
padded-bytes n buffer l h small =
    let zeros : List ℕ = replicate (16 - n) 0 in
    let p = padded_lem n buffer l small in
    let count : length zeros ≡ 16 - n = length-replicate (16 - n) 0 in
    (
      ap length p ∙ omega (arith, length-take n buffer, length-append (take n buffer) (1 ∷ zeros)),
      subst (All IsByte) (sym p) (
          All-append IsByte (take n buffer) (1 ∷ zeros) (All-take IsByte n buffer h)
            (omega arith, zeros-IsByte (16 - n))),
    )
