-- ===== src/Sha/Digest.antt =====
-- The digest of source/sha1.cpp and source/sha2.cpp is that of the padded message, whatever the
-- pieces are in which the message comes.
use ez.Base.{
  ◌+◌, ◌-◌, ◌*◌, ◌%◌, ◌^◌, ◌≤◌, ◌<◌, ◌≡◌, ◌∙◌, ◌∷◌, ◌++◌, ◌==◌, ◌>>>◌, if◌then◌else◌, ℕ, zero, suc,
  refl, sym, ap, inl, inr, List, [], map, arith, ltb, Bool-cases, length, take, replicate,
  length-append, length-take, length-replicate, take_all, length-map, u32, u64, splice,
  length-splice, take_past-splice, le32, length-le32,
}
use mathlib.Core.Path.{subst}
use ez.Sha.{
  Impl, BlockFunction, update, padding, store_total, transformed, reset, complete, copy_to, copy_to,
}
use ez.Sha.Words.{swap32, bytes_of, length-bytes_of}
use ez.Feed
use ez.Feed.{join, feed-append, feed_block, feed_byte}
use ez.Sha.Feed.{Progress, feed, compress}
use ez.Sha.Stream.{progress, IsAt, Updated, update-Updated, Updated-nothing}

-- The number of bits of a message, in eight bytes.
abbrev pub total_bytes : ℕ → List ℕ
total_bytes bits = le32 (swap32 (u32 (bits >>> 32))) ++ le32 (swap32 (u32 bits))

-- What stands behind a message of `n` bytes: one bit that is set, zeros up to eight bytes before the
-- end of a block, and the length.
abbrev pub ending : ℕ → List ℕ
ending n = (0x80 ∷ replicate ((119 - n % 64) % 64) 0) ++ total_bytes (n * 8)

take-replicate {ℓ} : {A : Type ℓ} (k n : ℕ) (a : A) → k ≤ n → take k (replicate n a) ≡ replicate k a
take-replicate zero n a h = refl
take-replicate (suc k) zero a h = absurd (omega arith)
take-replicate (suc k) (suc n) a h = ap (λ t. a ∷ t) (take-replicate k n a (omega arith))

-- The part of the constant `padding` that `complete` hands to `update`.
take-padding :
    (k n : ℕ)
    → k ≡ suc ((119 - n % 64) % 64)
    → take k padding ≡ 0x80 ∷ replicate ((119 - n % 64) % 64) 0
take-padding k n e =
    rw e (ap (λ t. 0x80 ∷ t) (take-replicate ((119 - n % 64) % 64) 63 0 (omega arith)))

module _ (f : BlockFunction) where
  abbrev pub updates : List (List ℕ) → Impl → Impl
  updates [] m = m
  updates (c ∷ cs) m = updates cs (update f c m)

  length-total_bytes : (bits : ℕ) → length (total_bytes bits) ≡ 8
  length-total_bytes bits =
      let hi = le32 (swap32 (u32 (bits >>> 32))) in
      let lo = le32 (swap32 (u32 bits)) in
      omega (
        arith,
        length-append hi lo,
        length-le32 (swap32 (u32 (bits >>> 32))),
        length-le32 (swap32 (u32 bits)),
      )

  updates-Updated :
      (chunks : List (List ℕ)) (total : ℕ) (m : Impl)
      → IsAt f total m
      → total + length (join chunks) < 2 ^ 64
      → Updated f total (join chunks) m (updates chunks m)
  updates-Updated [] total m v small = Updated-nothing f total m v
  updates-Updated (c ∷ cs) total m v small =
      let l = length-append c (join cs) in
      let u1 = update-Updated f total c m v (omega arith) in
      let u2 = updates-Updated cs (total + length c) (update f c m) u1.at (omega arith) in
      let same : total + length c + length (join cs) ≡ total + length (c ++ join cs) =
        omega arith in
      record {
        at = subst (λ k. IsAt f k (updates cs (update f c m))) same u2.at;
        fed =
            u2.fed
            ∙ ap (feed f (join cs)) u1.fed
            ∙ sym (feed-append 64 (compress f) c (join cs) (progress f m));
      }

  -- The length completes the last block.
  stored :
      (total bits : ℕ) (m : Impl)
      → IsAt f total m
      → m.size ≡ 56
      → (transformed f (store_total f bits m)).digest ≡ (feed f (total_bytes bits) (progress f m)).0
  unfolding transformed store_total
  stored total bits m v e =
      let l = length-total_bytes bits in
      let fits : 56 + length (total_bytes bits) ≤ length m.buffer = omega (arith, v.block) in
      let area = splice 56 (total_bytes bits) m.buffer in
      let area_size : length area ≡ 64 =
        length-splice 56 (total_bytes bits) m.buffer fits ∙ v.block in
      let all : area ≡ take 56 m.buffer ++ total_bytes bits =
        sym (take_all (56 + length (total_bytes bits)) area (omega arith))
        ∙ take_past-splice 56 (total_bytes bits) m.buffer fits in
      ap (compress f m.digest) all
      ∙ (ap (λ r. r.0)
            (sym (
              feed_block 64 (compress f) (total_bytes bits) m.digest (take 56 m.buffer)
                (omega arith) (omega (arith, length-take 56 m.buffer, v.block))))
          ∙ ap (λ k. (feed f (total_bytes bits) (m.digest, take k m.buffer)).0) (sym e))

  complete_lem :
      (total : ℕ) (m : Impl)
      → IsAt f total m
      → total < 2 ^ 61
      → (complete f m).digest ≡ map swap32 (feed f (ending total) (progress f m)).0
  unfolding complete
  complete_lem total m v small =
      let k = if ltb m.size 56 then 56 - m.size else 64 + 56 - m.size in
      let amount : k ≡ suc ((119 - total % 64) % 64) = ground (arith, v.phase, v.room) in
      let part : take k padding ≡ 0x80 ∷ replicate ((119 - total % 64) % 64) 0 =
        take-padding k total amount in
      let size : length (take k padding) ≡ suc ((119 - total % 64) % 64) =
        ap length part ∙ ap suc (length-replicate ((119 - total % 64) % 64) 0) in
      let bits : u64 (m.total_size * 8) ≡ total * 8 = omega (arith, v.counted) in
      let u = update-Updated f total (take k padding) m v (omega arith) in
      let m' = update f (take k padding) m in
      let at56 : m'.size ≡ 56 = omega (arith, u.at.phase) in
      ap (map swap32) (
        stored (total + length (take k padding)) (u64 (m.total_size * 8)) m' u.at at56
        ∙ ap (λ a. (feed f (total_bytes (u64 (m.total_size * 8))) a).0) u.fed
        ∙ ap (λ r. r.0)
            (sym (
              feed-append 64 (compress f) (take k padding) (total_bytes (u64 (m.total_size * 8)))
                (progress f m)))
        ∙ ap (λ t. (feed f (t ++ total_bytes (u64 (m.total_size * 8))) (progress f m)).0) part
        ∙ ap
            (λ b.
              (feed f ((0x80 ∷ replicate ((119 - total % 64) % 64) 0) ++ total_bytes b)
                (progress f m)).0)
            bits)

  -- After `reset`, a message of fewer than 2 ^ 61 bytes that is given to `update` in any number of
  -- pieces of any sizes has, after `complete`, the digest of the message with its padding and its
  -- length behind it, taken in byte by byte from the initial digest.
  pub complete-updates :
      (m : Impl) (chunks : List (List ℕ))
      → length m.buffer ≡ 64
      → length (join chunks) < 2 ^ 61
      → (complete f (updates chunks (reset f m))).digest
        ≡ map swap32 (feed f (join chunks ++ ending (length (join chunks))) (f.initial, [])).0
  unfolding reset
  complete-updates m chunks b small =
      let v0 : IsAt f 0 (reset f m) = record {
        block = b;
        room = omega arith;
        phase = refl;
        counted = refl;
      } in
      let u = updates-Updated chunks 0 (reset f m) v0 (omega arith) in
      let n = length (join chunks) in
      let same : 0 + n ≡ n = omega arith in
      complete_lem n (updates chunks (reset f m))
        (subst (λ k. IsAt f k (updates chunks (reset f m))) same u.at) small
      ∙ ap (λ a. map swap32 (feed f (ending n) a).0) u.fed
      ∙ ap (λ a. map swap32 a.0)
          (sym (feed-append 64 (compress f) (join chunks) (ending n) (f.initial, [])))

  length-feed_byte :
      (a : Progress f) (x : ℕ) → length (feed_byte 64 (compress f) a x).0 ≡ length a.0
  length-feed_byte (d, p) x = elim (Bool-cases (length (p ++ (x ∷ [])) == 64)) [
    | inl block ↦ rw block (f.length-digest d (p ++ (x ∷ [])))
    | inr part ↦ rw part refl
  ]

  length-feed : (xs : List ℕ) (a : Progress f) → length (feed f xs a).0 ≡ length a.0
  unfolding Feed.feed
  length-feed [] a = refl
  length-feed (x ∷ xs) a = length-feed xs (feed_byte 64 (compress f) a x) ∙ length-feed_byte a x

  -- The digest of a whole message, as bytes.
  abbrev pub hash_of : List ℕ → List ℕ
  hash_of message =
      bytes_of (map swap32 (feed f (message ++ ending (length message)) (f.initial, [])).0)

  pub length-hash_of : (message : List ℕ) → length (hash_of message) ≡ 4 * length f.initial
  length-hash_of message =
      let d = (feed f (message ++ ending (length message)) (f.initial, [])).0 in
      omega (
        arith,
        length-bytes_of (map swap32 d),
        length-map swap32 d,
        length-feed (message ++ ending (length message)) (f.initial, []),
      )

  pub hash_of-updates :
      (m : Impl) (chunks : List (List ℕ))
      → length m.buffer ≡ 64
      → length (join chunks) < 2 ^ 61
      → copy_to (complete f (updates chunks (reset f m))) ≡ hash_of (join chunks)
  unfolding copy_to
  hash_of-updates m chunks b small = ap bytes_of (complete-updates m chunks b small)

  -- The buffer is still one block.
  pub length-complete : (m : Impl) → length (complete f m).buffer ≡ 64
  unfolding complete transformed
  length-complete m = f.length-transform _ _
