-- ===== src/Base/Splice.antt =====
-- Overwriting a part of a memory area, and slices of what is written.
use Prim.Native.Nat.{ℕ, zero, suc, ◌+◌, ◌-◌, ◌≤◌}
use mathlib.Core.Path.{◌≡◌, refl, ap, ◌∙◌, sym}
use mathlib.Core.List.{List, [], ◌∷◌, ◌++◌}
use mathlib.Core.List.{append_assoc}
use native.Mathlib.Omega.{arith}
use ez.Base.Lists.{length, take, drop, length-append, length-take, length-drop, take_all, drop_all}

module _ {ℓ} {A : Type ℓ} where
  abbrev pub splice : ℕ → List A → List A → List A
  splice at bytes mem = take at mem ++ (bytes ++ drop (at + length bytes) mem)

  pub take-append : (n : ℕ) (xs ys : List A) → n ≡ length xs → take n (xs ++ ys) ≡ xs
  take-append zero [] ys e = refl
  take-append zero (x ∷ xs) ys e = absurd (omega arith)
  take-append (suc n) [] ys e = absurd (omega arith)
  take-append (suc n) (x ∷ xs) ys e = ap (λ t. x ∷ t) (take-append n xs ys (omega arith))

  pub drop-append : (n : ℕ) (xs ys : List A) → n ≡ length xs → drop n (xs ++ ys) ≡ ys
  drop-append zero [] ys e = refl
  drop-append zero (x ∷ xs) ys e = absurd (omega arith)
  drop-append (suc n) [] ys e = absurd (omega arith)
  drop-append (suc n) (x ∷ xs) ys e = drop-append n xs ys (omega arith)

  pub drop-drop : (m n : ℕ) (xs : List A) → drop m (drop n xs) ≡ drop (n + m) xs
  drop-drop m zero xs = let e : 0 + m ≡ m = omega arith in ap (λ k. drop k xs) (sym e)
  drop-drop m (suc n) [] = drop_all m [] (omega arith) ∙ sym (drop_all (suc n + m) [] (omega arith))
  drop-drop m (suc n) (x ∷ xs) =
      drop-drop m n xs
      ∙ (let e : suc n + m ≡ suc (n + m) = omega arith in ap (λ k. drop k (x ∷ xs)) (sym e))

  pub drop-take : (n m : ℕ) (xs : List A) → drop n (take m xs) ≡ take (m - n) (drop n xs)
  drop-take zero m xs = let e : m ≡ m - 0 = omega arith in ap (λ k. take k xs) e
  drop-take (suc n) zero xs =
      let e : zero ≡ zero - suc n = omega arith in ap (λ k. take k (drop (suc n) xs)) e
  drop-take (suc n) (suc m) [] = sym (take_all _ [] (omega arith))
  drop-take (suc n) (suc m) (x ∷ xs) =
      let e : m - n ≡ suc m - suc n = omega arith in
      drop-take n m xs ∙ ap (λ k. take k (drop n xs)) e

  -- What was written at `at` is read back there, and the length does not change.
  pub length-splice :
      (at : ℕ) (bytes mem : List A)
      → at + length bytes ≤ length mem
      → length (splice at bytes mem) ≡ length mem
  length-splice at bytes mem h = omega (
    arith,
    length-append (take at mem) (bytes ++ drop (at + length bytes) mem),
    length-append bytes (drop (at + length bytes) mem),
    length-take at mem,
    length-drop (at + length bytes) mem,
  )

  pub drop-splice :
      (at : ℕ) (bytes mem : List A)
      → at + length bytes ≤ length mem
      → drop at (splice at bytes mem) ≡ bytes ++ drop (at + length bytes) mem
  drop-splice at bytes mem h = drop-append at (take at mem) _ (omega (arith, length-take at mem))

  pub take-splice :
      (at : ℕ) (bytes mem : List A)
      → at + length bytes ≤ length mem
      → take at (splice at bytes mem) ≡ take at mem
  take-splice at bytes mem h = take-append at (take at mem) _ (omega (arith, length-take at mem))

  -- Up to the end of what was written: what stood before it, and what was written.
  pub take_past-splice :
      (at : ℕ) (bytes mem : List A)
      → at + length bytes ≤ length mem
      → take (at + length bytes) (splice at bytes mem) ≡ take at mem ++ bytes
  take_past-splice at bytes mem h =
      ap (take (at + length bytes))
        (sym (append_assoc (take at mem) bytes (drop (at + length bytes) mem)))
      ∙ take-append (at + length bytes) (take at mem ++ bytes) _
          (omega (arith, length-append (take at mem) bytes, length-take at mem))
