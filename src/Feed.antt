-- ===== src/Feed.antt =====
-- A function of blocks of a fixed size, one byte at a time: what source/sha1.cpp, source/sha2.cpp and
-- source/poly1305.cpp compute whatever the pieces are in which they are given the message.
use ez.Base.{
  ◌+◌, ◌≤◌, ◌<◌, ◌≡◌, ◌∙◌, ◌∷◌, ◌++◌, ◌==◌, if◌then◌else◌, ℕ, suc, refl, sym, ap, true, false, List,
  [], arith, length, length-append,
}
use mathlib.Core.List.{append-nil, append_assoc}

-- The pieces of a message, one after the other.
abbrev pub join : List (List ℕ) → List ℕ
join [] = []
join (c ∷ cs) = c ++ join cs

module _ {D : Type 0} (size : ℕ) (compress : D → List ℕ → D) where
  -- The result of the blocks so far, and the bytes of a block that is not full yet.
  abbrev pub Progress : Type 0
  Progress = D × List ℕ

  abbrev pub feed_byte : Progress → ℕ → Progress
  feed_byte (d, p) x =
      if length (p ++ (x ∷ [])) == size
      then (compress d (p ++ (x ∷ [])), [])
      else (d, p ++ (x ∷ []))

  unfoldable pub feed : List ℕ → Progress → Progress
  feed [] a = a
  feed (x ∷ xs) a = feed xs (feed_byte a x)

  pub feed-append : (xs ys : List ℕ) (a : Progress) → feed (xs ++ ys) a ≡ feed ys (feed xs a)
  unfolding feed
  feed-append [] ys a = refl
  feed-append (x ∷ xs) ys a = feed-append xs ys (feed_byte a x)

  byte_kept :
      (d : D) (p : List ℕ) (x : ℕ) → suc (length p) < size → feed_byte (d, p) x ≡ (d, p ++ (x ∷ []))
  byte_kept d p x h =
      let e : (length (p ++ (x ∷ [])) == size) ≡ false = ground (arith, length-append p (x ∷ [])) in
      rw e refl

  -- A part that does not fill the block is kept.
  pub feed_short :
      (xs : List ℕ) (d : D) (p : List ℕ)
      → length p + length xs < size
      → feed xs (d, p) ≡ (d, p ++ xs)
  unfolding feed
  feed_short [] d p h = ap (λ q. (d, q)) (sym (append-nil p))
  feed_short (x ∷ xs) d p h =
      ap (feed xs) (byte_kept d p x (omega arith))
      ∙ feed_short xs d (p ++ (x ∷ [])) (omega (arith, length-append p (x ∷ [])))
      ∙ ap (λ q. (d, q)) (append_assoc p (x ∷ []) xs)

  -- A part that fills it exactly is compressed with what was kept.
  pub feed_full :
      (x : ℕ) (xs : List ℕ) (d : D) (p : List ℕ)
      → length p + suc (length xs) ≡ size
      → feed (x ∷ xs) (d, p) ≡ (compress d (p ++ (x ∷ xs)), [])
  unfolding feed
  feed_full x [] d p h =
      let e : (length (p ++ (x ∷ [])) == size) ≡ true = ground (arith, length-append p (x ∷ [])) in
      rw e refl
  feed_full x (y ∷ ys) d p h =
      ap (feed (y ∷ ys)) (byte_kept d p x (omega arith))
      ∙ feed_full y ys d (p ++ (x ∷ [])) (omega (arith, length-append p (x ∷ [])))
      ∙ ap (λ q. (compress d q, [])) (append_assoc p (x ∷ []) (y ∷ ys))

  pub feed_block :
      (xs : List ℕ) (d : D) (p : List ℕ)
      → 1 ≤ length xs
      → length p + length xs ≡ size
      → feed xs (d, p) ≡ (compress d (p ++ xs), [])
  feed_block [] d p some_ h = absurd (omega arith)
  feed_block (x ∷ xs) d p some_ h = feed_full x xs d p h
