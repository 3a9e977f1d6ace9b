-- ===== src/Buffer.antt =====
-- source/buffer.cpp: a `buffer` seen through one handle, its `impl` as a value. Buffer/Store has the
-- handles, the reference counts and the sharing.
pub mod Area
pub mod Laws
pub mod Fill
pub mod Over
pub mod Store
use ez.Base.{
  ◌+◌, ◌-◌, ◌^◌, if◌then◌else◌, ℕ, List, [], ltb, leb, length, take, drop, replicate, u64, splice,
  Outcome, ok, fault,
}

-- `mem` is what `m_data` points to; `orig_size` is its length.
pub record Buffer : Type 0 where
  pub mem : List ℕ
  pub size : ℕ
  pub orig_size : ℕ
  pub position : ℕ

-- `buffer()`: a null pointer and no bytes.
abbrev pub empty : Buffer
empty = record { mem = []; size = 0; orig_size = 0; position = 0 }

-- `buffer(size_t)`: zeros.
unfoldable pub make : ℕ → Buffer
make size = record { mem = replicate size 0; size = size; orig_size = size; position = 0 }

-- `buffer(const std::vector<uint8_t>&)`, `buffer(const void*, size_t)`, `buffer(const std::string&)`
-- and `buffer(const char*)`: a copy of the bytes.
unfoldable pub of_bytes : List ℕ → Buffer
of_bytes bytes = record { mem = bytes; size = length bytes; orig_size = length bytes; position = 0 }

-- `size()`: the difference of two `size_t`, which wraps if the position is past the size.
unfoldable pub remaining : Buffer → ℕ
remaining b = u64 (b.size + 2 ^ 64 - b.position)

unfoldable pub set_size : Buffer → ℕ → Buffer
set_size b size = if leb size b.orig_size then record b { size = size } else b

unfoldable pub set_position : Buffer → ℕ → Buffer
set_position b pos =
    if ltb b.size pos then record b { position = b.size } else record b { position = pos }

-- `memcpy(x, ptr(), n)`: the `n` bytes from the position on.
unfoldable pub read : {E : Type 0} → Buffer → ℕ → Outcome E (List ℕ)
read b n =
    if leb (b.position + n) (length b.mem) then ok (take n (drop b.position b.mem)) else fault

-- `memcpy(ptr() + off, bytes.data(), bytes.size())`
unfoldable pub write : {E : Type 0} → Buffer → ℕ → List ℕ → Outcome E Buffer
write b off bytes =
    let at = b.position + off in
    if leb (at + length bytes) (length b.mem)
    then ok (record b { mem = splice at bytes b.mem })
    else fault
