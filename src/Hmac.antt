-- ===== src/Hmac.antt =====
-- include/ez/hmac.hpp: the class template over a hash, whose `block_size` is 64.
pub mod Rfc2104
use ez.Base.{◌-◌, ◌*◌, ◌++◌, if◌then◌else◌, ℕ, bit_xor, List, map, ltb, length, replicate}
use ez.Sha.{Impl, BlockFunction, reset, update, calculate, copy_to}
use ez.Sha

-- `m_hash`, `m_key` and `m_digest`.
pub record Hmac : Type 0 where
  pub hash : Impl
  pub key : List ℕ
  pub digest : List ℕ

-- `HMAC_IPAD` and `HMAC_OPAD`.
abbrev pub ipad : ℕ
ipad = 0x36

abbrev pub opad : ℕ
opad = 0x5c

-- `for (...) m_key[i] ^= value`
pub xor_key : ℕ → List ℕ → List ℕ
xor_key value = map (λ b. bit_xor b value)

module _ (f : BlockFunction) where
  abbrev pub digest_size : ℕ
  digest_size = 4 * length f.initial

  -- The key that `set_key` puts in place, and the hash, with which it shortens a long one.
  pub prepared : List ℕ → Impl → List ℕ × Impl
  prepared key m =
      let short = calculate f key m in
      if ltb 64 (length key)
      then (copy_to short ++ replicate (64 - digest_size) 0, short)
      else (key ++ replicate (64 - length key) 0, m)

  pub set_key : List ℕ → Hmac → Hmac
  set_key key h =
      let r = prepared key h.hash in
      let k = xor_key ipad r.0 in record h { hash = update f k (reset f r.1); key = k }

  pub add : List ℕ → Hmac → Hmac
  add bytes h = record h { hash = update f bytes h.hash }

  pub complete : Hmac → Hmac
  complete h =
      let inner = Sha.complete f h.hash in
      let k = xor_key (bit_xor ipad opad) h.key in
      let outer = Sha.complete f (update f (copy_to inner) (update f k (reset f inner))) in
      record { hash = outer; key = k; digest = copy_to outer }
