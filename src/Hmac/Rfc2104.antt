-- ===== src/Hmac/Rfc2104.antt =====
-- include/ez/hmac.hpp computes the HMAC of RFC 2104.
use ez.Base.{
  ◌-◌, ◌^◌, ◌≤◌, ◌<◌, ◌≡◌, ◌∙◌, ◌⊎◌, ◌∷◌, ◌++◌, if◌then◌else◌, ℕ, zero, suc, bit_xor, refl, sym, ap,
  inl, inr, true, false, List, [], arith, ltb, Bool-cases, length, map, replicate, All,
  length-append, length-replicate, All-append, length-map, IsByte, agree_below, agree_below→eq,
}
use mathlib.Core.Path.{subst}
use mathlib.Core.List.{append-nil}
use ez.Sha.Words.{bytes_of-IsByte}
use ez.Sha.{Impl, BlockFunction, reset, update, calculate, copy_to}
use ez.Sha
use ez.Feed.{join}
use ez.Sha.Digest.{updates, hash_of, length-hash_of, hash_of-updates, length-complete}
use ez.Hmac.{Hmac, ipad, opad, xor_key, digest_size, prepared, add, set_key, complete}

xor_twice : (b : ℕ) → b < 256 → bit_xor (bit_xor b ipad) (bit_xor ipad opad) ≡ bit_xor b opad
unfolding agree_below
xor_twice =
    agree_below→eq (λ b. bit_xor (bit_xor b ipad) (bit_xor ipad opad)) (λ b. bit_xor b opad) 256
      refl

xor_key-twice :
    (k : List ℕ) → All IsByte k → xor_key (bit_xor ipad opad) (xor_key ipad k) ≡ xor_key opad k
unfolding xor_key
xor_key-twice [] h = refl
xor_key-twice (b ∷ k) (hb, h) = rw (xor_twice b hb, xor_key-twice k h) refl

length-xor_key : (v : ℕ) (k : List ℕ) → length (xor_key v k) ≡ length k
unfolding xor_key
length-xor_key v k = length-map _ k

zeros-IsByte : (n : ℕ) → All IsByte (replicate n 0)
zeros-IsByte zero = tt
zeros-IsByte (suc n) = (omega arith, zeros-IsByte n)

-- The padding of RFC 2104, written with its own numbers: zeros up to the 64 bytes of a block, each of
-- which is then combined with the byte 0x36 for the inner hash and with 0x5c for the outer one.
abbrev pub filled : List ℕ → List ℕ
filled k = k ++ replicate (64 - length k) 0

abbrev pub each_xor : ℕ → List ℕ → List ℕ
each_xor v k = map (λ b. bit_xor b v) k

inner_pad : (k : List ℕ) → xor_key ipad k ≡ each_xor 0x36 k
unfolding xor_key
inner_pad k = refl

outer_pad : (k : List ℕ) → xor_key opad k ≡ each_xor 0x5c k
unfolding xor_key
outer_pad k = refl

module _ (f : BlockFunction) where
  -- The key as one block: a key that is longer is hashed first.
  abbrev pub block_key : List ℕ → List ℕ
  block_key key = if ltb 64 (length key) then filled (hash_of f key) else filled key

  abbrev pub hmac : List ℕ → List ℕ → List ℕ
  hmac key message =
      hash_of f
        (each_xor 0x5c (block_key key) ++ hash_of f (each_xor 0x36 (block_key key) ++ message))

  abbrev pub adds : List (List ℕ) → Hmac → Hmac
  adds [] h = h
  adds (c ∷ cs) h = adds cs (add f c h)

  adds_lem :
      (chunks : List (List ℕ)) (h : Hmac)
      → adds chunks h ≡ record h { hash = updates f chunks h.hash }
  unfolding add
  adds_lem [] h = refl
  adds_lem (c ∷ cs) h = adds_lem cs (add f c h)

  -- A hash that was not used since its `reset`, or a key that is not hashed.
  abbrev pub Usable : List ℕ → Hmac → Type 0
  Usable key h = (length key ≤ 64) ⊎ (h.hash ≡ reset f h.hash)

  -- What `set_key` finds.
  pub record IsPrepared (key : List ℕ) (r : List ℕ × Impl) : Type 0 where
    pub is_block : r.0 ≡ block_key key
    pub short : length r.0 ≡ 64
    pub bytes : All IsByte r.0
    pub block : length r.1.buffer ≡ 64

  keeps_short :
      (key : List ℕ) (m : Impl)
      → All IsByte key
      → length m.buffer ≡ 64
      → ltb 64 (length key) ≡ false
      → IsPrepared key (prepared f key m)
  unfolding prepared
  keeps_short key m k b e =
      let zeros : List ℕ = replicate (64 - length key) 0 in
      let count : length zeros ≡ 64 - length key = length-replicate (64 - length key) 0 in
      rw e (record {
        is_block = rw e refl;
        short = ground (arith, length-append key zeros);
        bytes = All-append IsByte key zeros k (zeros-IsByte (64 - length key));
        block = b;
      })

  hashes_long :
      (key : List ℕ) (m : Impl)
      → length key < 2 ^ 61
      → length m.buffer ≡ 64
      → m ≡ reset f m
      → ltb 64 (length key) ≡ true
      → IsPrepared key (prepared f key m)
  unfolding prepared calculate
  hashes_long key m small b fresh e =
      let zeros : List ℕ = replicate (64 - digest_size f) 0 in
      let count : length zeros ≡ 64 - digest_size f = length-replicate (64 - digest_size f) 0 in
      let same : key ++ [] ≡ key = append-nil key in
      let hashed : copy_to (Sha.complete f (update f key m)) ≡ hash_of f key =
        ap (λ r. copy_to (Sha.complete f (update f key r))) fresh
        ∙ hash_of-updates f m (key ∷ []) b (omega (arith, ap length same))
        ∙ ap (hash_of f) same in
      let hash_size : length (hash_of f key) ≡ digest_size f = length-hash_of f key in
      let key_block : copy_to (Sha.complete f (update f key m)) ++ zeros ≡ hash_of f key ++ zeros =
        ap (λ d. d ++ zeros) hashed in
      rw e (record {
        is_block =
            rw e (key_block ∙ ap (λ n. hash_of f key ++ replicate (64 - n) 0) (sym hash_size));
        short =
            ap length key_block
            ∙ omega
                (arith, length-append (hash_of f key) zeros, length-hash_of f key, f.digest_fits);
        bytes = subst (All IsByte) (sym key_block) (
            All-append IsByte (hash_of f key) zeros (bytes_of-IsByte _)
              (zeros-IsByte (64 - digest_size f)));
        block = length-complete f (update f key m);
      })

  prepared-IsPrepared :
      (key : List ℕ) (h : Hmac)
      → All IsByte key
      → length key < 2 ^ 61
      → length h.hash.buffer ≡ 64
      → Usable key h
      → IsPrepared key (prepared f key h.hash)
  prepared-IsPrepared key h k small b usable = elim (Bool-cases (ltb 64 (length key))) [
    | inl long ↦ elim usable [
      | inl le ↦ absurd (ground arith)
      | inr fresh ↦ hashes_long key h.hash small b fresh long
    ]
    | inr short_key ↦ keeps_short key h.hash k b short_key
  ]

  -- With a key of fewer than 2 ^ 61 bytes, which a hash just reset shortens if it is longer than a
  -- block, and a message of fewer than 2 ^ 60 bytes in any pieces, the result is the HMAC of
  -- RFC 2104.
  pub complete-hmac :
      (key : List ℕ) (chunks : List (List ℕ)) (h : Hmac)
      → All IsByte key
      → length key < 2 ^ 61
      → length (join chunks) < 2 ^ 60
      → length h.hash.buffer ≡ 64
      → Usable key h
      → (complete f (adds chunks (set_key f key h))).digest ≡ hmac key (join chunks)
  unfolding set_key complete
  complete-hmac key chunks h k small1 small2 b usable =
      let r = prepared f key h.hash in
      let p = prepared-IsPrepared key h k small1 b usable in
      let inner_key = xor_key ipad r.0 in
      let outer_key = xor_key (bit_xor ipad opad) inner_key in
      let start = set_key f key h in
      let inner = Sha.complete f (updates f chunks (update f inner_key (reset f r.1))) in
      let inner_hash : copy_to inner ≡ hash_of f (inner_key ++ join chunks) =
        hash_of-updates f r.1 (inner_key ∷ chunks) p.block (
          omega (arith, length-append inner_key (join chunks), length-xor_key ipad r.0, p.short)) in
      let l = length-append outer_key (copy_to inner ++ []) in
      let l' = ap length (append-nil (copy_to inner)) in
      let outer_hash : copy_to
            (Sha.complete f (update f (copy_to inner) (update f outer_key (reset f inner))))
          ≡ hash_of f (outer_key ++ (copy_to inner ++ [])) =
        hash_of-updates f inner (outer_key ∷ copy_to inner ∷ [])
          (length-complete f (updates f chunks (update f inner_key (reset f r.1))))
          (omega (
            arith,
            l,
            l',
            length-xor_key (bit_xor ipad opad) inner_key,
            length-xor_key ipad r.0,
            p.short,
            ap length inner_hash,
            length-hash_of f (inner_key ++ join chunks),
            f.digest_fits,
          )) in
      ap (λ g. (complete f g).digest) (adds_lem chunks start)
      ∙ outer_hash
      ∙ ap (λ d. hash_of f (outer_key ++ d)) (append-nil (copy_to inner) ∙ inner_hash)
      ∙ ap (λ q. hash_of f (q ++ hash_of f (inner_key ++ join chunks))) (xor_key-twice r.0 p.bytes)
      ∙ ap (λ q. hash_of f (xor_key opad q ++ hash_of f (xor_key ipad q ++ join chunks))) p.is_block
      ∙ rw (outer_pad (block_key key), inner_pad (block_key key)) refl
