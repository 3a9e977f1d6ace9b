-- ===== src/Cipher/Aead.antt =====
-- source/chacha20_poly1305.cpp: a cipher and an authenticator that is keyed with the first 32 bytes of
-- the cipher's key stream.
pub mod Compare
pub mod Tag
pub mod Sealed
use ez.Base.{
  ◌-◌, ◌/◌, ◌%◌, ◌^◌, ◌∷◌, ◌++◌, ◌==◌, if◌then◌else◌, ℕ, bit_or, bit_xor, Bool, false, Option, none,
  some, List, [], length, replicate, le32, Outcome, ok, throws, fault,
}
use ez.Cipher.Chacha
use ez.Cipher.Chacha.{Chacha, Error, crypt}
use ez.Cipher.Poly1305

pub record Impl : Type 0 where
  pub cipher : Chacha
  pub mac : Poly1305.Impl
  pub aad : List ℕ
  pub tag : List ℕ

-- What the cipher refuses leaves the object as it was.
pub with_cipher : Outcome Error Chacha → Impl → Outcome Error Impl
with_cipher (ok c) m = ok (record m { cipher = c })
with_cipher (throws e) m = throws e
with_cipher fault m = fault

pub set_key : List ℕ → Impl → Outcome Error Impl
set_key key m = with_cipher (Chacha.set_key key m.cipher) m

pub set_iv : List ℕ → Impl → Outcome Error Impl
set_iv iv m = with_cipher (Chacha.set_iv iv m.cipher) m

pub set_aad : List ℕ → Impl → Impl
set_aad aad m = record m { aad = aad }

pub set_tag : List ℕ → Impl → Impl
set_tag tag m = record m { tag = tag }

pub get_tag : Impl → List ℕ
get_tag m = Poly1305.copy_to m.mac

-- `STORE64LE` of a size.
pub store64 : ℕ → List ℕ
store64 n = le32 n ++ le32 (n / 2 ^ 32)

-- Zeros up to the next 16 bytes, given only where there are any.
pub pad : ℕ → Poly1305.Impl → Poly1305.Impl
pad n mac = if n % 16 == 0 then mac else Poly1305.update (replicate (16 - n % 16) 0) mac

-- From `m_mac.set_key` to `m_mac.complete`, the same in `encrypt` and `decrypt`.
pub authenticate : List ℕ → List ℕ → List ℕ → Poly1305.Impl → Poly1305.Impl
authenticate key aad sent mac =
    let keyed = Poly1305.set_key key mac in
    let after_aad = pad (length aad) (Poly1305.update aad keyed) in
    let after_sent = pad (length sent) (Poly1305.update sent after_aad) in
    let after_size = Poly1305.update (store64 (length aad)) after_sent in
    Poly1305.complete (Poly1305.update (store64 (length sent)) after_size)

-- The 32 bytes for the authenticator, and the 32 that are passed over.
pub one_time_key : Chacha → List ℕ × Chacha
one_time_key c = let first = crypt none 32 c in (first.0, (crypt none 32 first.1).1)

-- The output, and the object afterwards.
pub encrypt : List ℕ → Impl → List ℕ × Impl
encrypt input m =
    let key = one_time_key m.cipher in
    let out = crypt (some input) (length input) key.1 in
    (out.0, record m { cipher = out.1; mac = authenticate key.0 m.aad out.0 m.mac })

-- The loop over the tag; past the end of the authenticator there is nothing to read.
pub compared : List ℕ → List ℕ → ℕ → Option ℕ
compared mac [] mask = some mask
compared [] (t ∷ ts) mask = none
compared (b ∷ mac) (t ∷ ts) mask = compared mac ts (bit_or mask (bit_xor b t))

pub verdict : Option ℕ → Option Bool
verdict none = none
verdict (some mask) = some (mask == 0)

-- `decrypt` after its first lines: the output, and what is returned, or `none` where the loop reads
-- out of range.
pub opened : List ℕ → Impl → Option Bool × List ℕ × Impl
opened input m =
    let key = one_time_key m.cipher in
    let mac = authenticate key.0 m.aad input m.mac in
    let out = crypt (some input) (length input) key.1 in
    (
      verdict (compared (Poly1305.copy_to mac) m.tag 0),
      out.0,
      record m { cipher = out.1; mac = mac },
    )

-- Without a tag nothing is put out.
pub decrypt_with : List ℕ → List ℕ → Impl → Option Bool × List ℕ × Impl
decrypt_with [] input m = (some false, [], m)
decrypt_with (t ∷ ts) input m = opened input m

pub decrypt : List ℕ → Impl → Option Bool × List ℕ × Impl
decrypt input m = decrypt_with m.tag input m
