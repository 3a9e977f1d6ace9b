-- ===== src/Sha.antt =====
-- What source/sha1.cpp and source/sha2.cpp share, line by line: the object with its buffer of one
-- block, `update`, `complete` and `calculate`. The block function and the digest at the start are
-- what the two differ in, and stand in an interface that Sha.Sha1 and Sha.Sha2 fill.
pub mod Words
pub mod Sha1
pub mod Sha2
pub mod Feed
pub mod Stream
pub mod Digest
pub mod Blocks
use ez.Base.{
  ◌+◌, ◌-◌, ◌*◌, ◌≤◌, ◌≡◌, ◌∷◌, ◌++◌, ◌==◌, ◌>>>◌, if◌then◌else◌, ℕ, zero, suc, min, List, [], map,
  ltb, length, take, drop, replicate, u32, u64, splice, le32,
}
use ez.Sha.Words.{swap32, bytes_of}

pub record BlockFunction : Type 0 where
  pub initial : List ℕ
  pub transform : List ℕ → List ℕ → List ℕ × List ℕ
  -- What it leaves in the buffer are sixteen words; a digest has as many words as before, and fits
  -- into a block.
  pub length-transform : (digest buffer : List ℕ) → length (transform digest buffer).1 ≡ 64
  pub length-digest : (digest buffer : List ℕ) → length (transform digest buffer).0 ≡ length digest
  pub digest_fits : 4 * length initial ≤ 64

-- `m_buffer` is kept as its bytes.
pub record Impl : Type 0 where
  pub digest : List ℕ
  pub buffer : List ℕ
  pub size : ℕ
  pub total_size : ℕ

-- `padding`
abbrev pub padding : List ℕ
padding = 0x80 ∷ replicate 63 0

module _ (f : BlockFunction) where
  pub reset : Impl → Impl
  reset m = record m { digest = f.initial; size = 0; total_size = 0 }

  -- `transform()`, called when the buffer is full.
  pub transformed : Impl → Impl
  transformed m = let r = f.transform m.digest m.buffer in record m { digest = r.0; buffer = r.1 }

  -- `memcpy(p + m_size, _data, n); m_size += n; m_total_size += n;`
  pub take_in : List ℕ → Impl → Impl
  take_in bytes m = record m {
    buffer = splice m.size bytes m.buffer;
    size = m.size + length bytes;
    total_size = u64 (m.total_size + length bytes);
  }

  -- `if(m_size == block_size) { transform(); m_size = 0; }`
  pub full : Impl → Impl
  full m = if m.size == 64 then record (transformed m) { size = 0 } else m

  -- The loop of `update`, on fuel; each pass takes at least a byte.
  pub update_loop : ℕ → List ℕ → Impl → Impl
  update_loop zero bytes m = m
  update_loop (suc fuel) [] m = m
  update_loop (suc fuel) (x ∷ xs) m =
      let n = min (length (x ∷ xs)) (64 - m.size) in
      update_loop fuel (drop n (x ∷ xs)) (full (take_in (take n (x ∷ xs)) m))

  pub update : List ℕ → Impl → Impl
  update bytes m = update_loop (length bytes) bytes m

  -- The last words of the block are the number of bits, high word first.
  pub store_total : ℕ → Impl → Impl
  store_total bits m = record m {
    buffer = splice 56 (le32 (swap32 (u32 (bits >>> 32))) ++ le32 (swap32 (u32 bits))) m.buffer;
  }

  pub complete : Impl → Impl
  complete m =
      let padding_size = if ltb m.size 56 then 56 - m.size else 64 + 56 - m.size in
      let bits = u64 (m.total_size * 8) in
      let done = transformed (store_total bits (update (take padding_size padding) m)) in
      record done { digest = map swap32 done.digest }

  unfoldable pub calculate : List ℕ → Impl → Impl
  calculate bytes m = complete (update bytes m)

-- `copy_to` and `get`: the words of the digest as they lie in memory.
pub copy_to : Impl → List ℕ
copy_to m = bytes_of m.digest
