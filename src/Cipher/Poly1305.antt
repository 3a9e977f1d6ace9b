-- ===== src/Cipher/Poly1305.antt =====
-- source/poly1305.cpp: the object with its block of 17 bytes, into which a message is copied 16 bytes
-- at a time.
pub mod Field
pub mod Carry
pub mod Passes
pub mod Reduce
pub mod Tag
pub mod Block
pub mod Stream
pub mod Mac
use ez.Base.{
  ◌+◌, ◌-◌, ◌∷◌, ◌++◌, ◌==◌, if◌then◌else◌, ℕ, zero, suc, min, bit_and, Bool, not, List, [], length,
  take, drop, replicate, splice, le32, of_le32, same_bytes,
}
use ez.Cipher.Poly1305.Field.{Limbs, Words, absorb, tag_words}

pub record Impl : Type 0 where
  pub r : Words
  pub s : Words
  pub a : Limbs
  pub buffer : List ℕ
  pub digest : List ℕ
  pub size : ℕ

abbrev pub zero_limbs : Limbs
zero_limbs = record { a0 = 0; a1 = 0; a2 = 0; a3 = 0; a4 = 0 }

abbrev pub zero_words : Words
zero_words = record { w0 = 0; w1 = 0; w2 = 0; w3 = 0 }

-- `LOAD32LE` of four words.
pub load_words : List ℕ → Words
load_words bytes = record {
  w0 = of_le32 bytes;
  w1 = of_le32 (drop 4 bytes);
  w2 = of_le32 (drop 8 bytes);
  w3 = of_le32 (drop 12 bytes);
}

pub clamped : Words → Words
clamped r = record {
  w0 = bit_and r.w0 0x0fffffff;
  w1 = bit_and r.w1 0x0ffffffc;
  w2 = bit_and r.w2 0x0ffffffc;
  w3 = bit_and r.w3 0x0ffffffc;
}

-- The size of the key is not looked at: 32 bytes are read.
pub set_key : List ℕ → Impl → Impl
set_key key m = record m {
  r = clamped (load_words key);
  s = load_words (drop 16 key);
  a = zero_limbs;
  size = 0;
}

-- `m_buffer[n++] = 0x01; while(n < 17) m_buffer[n++] = 0x00;`
pub padded : ℕ → List ℕ → List ℕ
padded n buffer = splice n (1 ∷ replicate (16 - n) 0) buffer

pub transform : Impl → Impl
transform m =
    let block = padded m.size m.buffer in record m { buffer = block; a = absorb m.r block m.a }

-- `memcpy(p + m_size, _data, n); m_size += n;`
pub take_in : List ℕ → Impl → Impl
take_in bytes m = record m { buffer = splice m.size bytes m.buffer; size = m.size + length bytes }

-- `if(m_size == block_size) { transform(); m_size = 0; }`
pub full : Impl → Impl
full m = if m.size == 16 then record (transform m) { size = 0 } else m

-- The loop of `update`, on fuel; each pass takes at least a byte.
pub update_loop : ℕ → List ℕ → Impl → Impl
update_loop zero bytes m = m
update_loop (suc fuel) [] m = m
update_loop (suc fuel) (x ∷ xs) m =
    let n = min (length (x ∷ xs)) (16 - m.size) in
    update_loop fuel (drop n (x ∷ xs)) (full (take_in (take n (x ∷ xs)) m))

pub update : List ℕ → Impl → Impl
update bytes m = update_loop (length bytes) bytes m

-- `if(m_size != 0) transform();`
pub last_block : Impl → Impl
last_block m = if m.size == 0 then m else transform m

-- `STORE32LE` of the four words; the size is kept, and the accumulator and the key are cleared.
pub complete : Impl → Impl
complete m =
    let m' = last_block m in
    let b = tag_words m'.s m'.a in
    record m' {
      digest = le32 b.w0 ++ (le32 b.w1 ++ (le32 b.w2 ++ le32 b.w3));
      a = zero_limbs;
      r = zero_words;
      s = zero_words;
    }

pub calculate : List ℕ → Impl → Impl
calculate bytes m = complete (update bytes m)

-- `copy_to` and `get`.
pub copy_to : Impl → List ℕ
copy_to m = m.digest

-- `return memcmp(m_digest, _data, 16);`, which is true where they differ.
pub compare_with : Impl → List ℕ → Bool
compare_with m other = not (same_bytes m.digest (take 16 other))
