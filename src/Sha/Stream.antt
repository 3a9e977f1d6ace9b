-- ===== src/Sha/Stream.antt =====
-- `update` of source/sha1.cpp and source/sha2.cpp feeds its bytes one by one.
use ez.Base.{
  ◌+◌, ◌-◌, ◌%◌, ◌^◌, ◌≤◌, ◌<◌, ◌≡◌, ◌∙◌, ◌∷◌, ◌++◌, ◌==◌, ℕ, zero, suc, min, refl, sym, ap, true,
  false, List, [], arith, length, take, drop, length-take, length-drop, take-append-drop, take_all,
  splice, length-splice, take_past-splice,
}
use native.Mathlib.Decide.{dec_lt}
use mathlib.Core.Path.{subst}
use ez.Sha.{Impl, BlockFunction, full, take_in, update_loop, update, transformed}
use ez.Feed
use ez.Feed.{feed_short, feed_full, feed-append}
use ez.Sha.Feed.{Progress, feed, compress}

module _ (f : BlockFunction) where
  -- Where the object stands.
  abbrev pub progress : Impl → Progress f
  progress m = (m.digest, take m.size m.buffer)

  -- The object is in order after `total` bytes.
  pub record IsAt (total : ℕ) (m : Impl) : Type 0 where
    pub block : length m.buffer ≡ 64
    pub room : m.size < 64
    pub phase : m.size ≡ total % 64
    pub counted : m.total_size ≡ total

  -- What `m'` is when `bytes` were put into `m` after `total` bytes.
  pub record Updated (total : ℕ) (bytes : List ℕ) (m m' : Impl) : Type 0 where
    pub at : IsAt (total + length bytes) m'
    pub fed : progress m' ≡ feed f bytes (progress m)

  kept :
      (total x : ℕ) (xs : List ℕ) (m : Impl)
      → IsAt total m
      → m.size + suc (length xs) < 64
      → total + suc (length xs) < 2 ^ 64
      → Updated total (x ∷ xs) m (full f (take_in f (x ∷ xs) m))
  unfolding full take_in
  kept total x xs m v h small =
      let e : (m.size + suc (length xs) == 64) ≡ false = ground arith in
      let fits : m.size + suc (length xs) ≤ length m.buffer = omega (arith, v.block) in
      rw e (record {
        at = record {
          block = length-splice m.size (x ∷ xs) m.buffer fits ∙ v.block;
          room = h;
          phase = omega (arith, v.phase, v.room);
          counted = omega (arith, v.counted);
        };
        fed =
            ap (λ q. (m.digest, q)) (take_past-splice m.size (x ∷ xs) m.buffer fits)
            ∙ sym (
                feed_short 64 (compress f) (x ∷ xs) m.digest (take m.size m.buffer)
                  (omega (arith, length-take m.size m.buffer)));
      })

  filled_up :
      (total x : ℕ) (xs : List ℕ) (m : Impl)
      → IsAt total m
      → m.size + suc (length xs) ≡ 64
      → total + suc (length xs) < 2 ^ 64
      → Updated total (x ∷ xs) m (full f (take_in f (x ∷ xs) m))
  unfolding full take_in transformed
  filled_up total x xs m v h small =
      let e : (m.size + suc (length xs) == 64) ≡ true = ground arith in
      let fits : m.size + suc (length xs) ≤ length m.buffer = omega (arith, v.block) in
      let area = splice m.size (x ∷ xs) m.buffer in
      let area_size : length area ≡ 64 = length-splice m.size (x ∷ xs) m.buffer fits ∙ v.block in
      let all : area ≡ take m.size m.buffer ++ (x ∷ xs) =
        sym (take_all (m.size + suc (length xs)) area (omega arith))
        ∙ take_past-splice m.size (x ∷ xs) m.buffer fits in
      rw e (record {
        at = record {
          block = f.length-transform m.digest area;
          room = omega arith;
          phase = omega (arith, v.phase, v.room);
          counted = omega (arith, v.counted);
        };
        fed =
            ap (λ q. (compress f m.digest q, [])) all
            ∙ sym (
                feed_full 64 (compress f) x xs m.digest (take m.size m.buffer)
                  (omega (arith, length-take m.size m.buffer, v.block)));
      })

  -- One pass of the loop.
  pass :
      (total : ℕ) (xs : List ℕ) (m : Impl)
      → IsAt total m
      → 1 ≤ length xs
      → m.size + length xs ≤ 64
      → total + length xs < 2 ^ 64
      → Updated total xs m (full f (take_in f xs m))
  pass total [] m v some_ h small = absurd (omega arith)
  pass total (x ∷ xs) m v some_ h small = elim (dec_lt (m.size + suc (length xs)) 64) [
    | yes less ↦ kept total x xs m v less small
    | no enough ↦ filled_up total x xs m v (omega arith) small
  ]

  both_parts :
      (total : ℕ) (n : ℕ) (bytes : List ℕ) (m m' m'' : Impl)
      → Updated total (take n bytes) m m'
      → Updated (total + length (take n bytes)) (drop n bytes) m' m''
      → Updated total bytes m m''
  both_parts total n bytes m m' m'' u1 u2 =
      let same : total + length (take n bytes) + length (drop n bytes) ≡ total + length bytes =
        omega (arith, length-take n bytes, length-drop n bytes) in
      record {
        at = subst (λ k. IsAt k m'') same u2.at;
        fed =
            u2.fed
            ∙ ap (feed f (drop n bytes)) u1.fed
            ∙ sym (feed-append 64 (compress f) (take n bytes) (drop n bytes) (progress m))
            ∙ ap (λ b. feed f b (progress m)) (take-append-drop n bytes);
      }

  pub Updated-nothing : (total : ℕ) (m : Impl) → IsAt total m → Updated total [] m m
  unfolding Feed.feed
  Updated-nothing total m v =
      let same : total ≡ total + 0 = omega arith in
      record { at = subst (λ k. IsAt k m) same v; fed = refl }

  pub update_loop-Updated :
      (fuel total : ℕ) (bytes : List ℕ) (m : Impl)
      → IsAt total m
      → length bytes ≤ fuel
      → total + length bytes < 2 ^ 64
      → Updated total bytes m (update_loop f fuel bytes m)
  unfolding update_loop
  update_loop-Updated zero total [] m v enough small = Updated-nothing total m v
  update_loop-Updated zero total (x ∷ xs) m v enough small = absurd (omega arith)
  update_loop-Updated (suc fuel) total [] m v enough small = Updated-nothing total m v
  update_loop-Updated (suc fuel) total (x ∷ xs) m v enough small =
      let n = min (length (x ∷ xs)) (64 - m.size) in
      let l = length-take n (x ∷ xs) in
      let l' = length-drop n (x ∷ xs) in
      let u1 =
        pass total (take n (x ∷ xs)) m v (omega (arith, v.room)) (omega (arith, v.room))
          (omega arith) in
      both_parts total n (x ∷ xs) m _ _ u1 (
        update_loop-Updated fuel (total + length (take n (x ∷ xs))) (drop n (x ∷ xs)) _ u1.at
          (omega (arith, v.room)) (omega arith))

  pub update-Updated :
      (total : ℕ) (bytes : List ℕ) (m : Impl)
      → IsAt total m
      → total + length bytes < 2 ^ 64
      → Updated total bytes m (update f bytes m)
  unfolding update
  update-Updated total bytes m v small =
      update_loop-Updated (length bytes) total bytes m v (omega arith) small
