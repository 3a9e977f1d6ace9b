-- ===== src/Cipher/Aead/Sealed.antt =====
-- `encrypt` and `decrypt` of source/chacha20_poly1305.cpp.
use ez.Base.{
  ◌≤◌, ◌≡◌, ◌∙◌, ◌&&◌, ◌∷◌, ◌==◌, ℕ, refl, sym, ap, not, true, false, none, some, List, [], arith,
  length, take, All, take_all, IsByte, same_bytes, same_bytes_refl,
}
use ez.Cipher.Chacha.{Chacha, crypt, mixed, xor_bytes}
use mathlib.Core.Path.{subst}
use ez.Cipher.Chacha
use ez.Cipher.Chacha.Stream.{stream, stream-add, stream-IsByte, length-stream}
use ez.Cipher.Chacha.Pieces.{crypt-stream, crypt-bytes, crypt_back}
use ez.Cipher.Poly1305.{copy_to}
use ez.Cipher.Poly1305.Block.{number}
use ez.Cipher.Aead.{
  Impl, get_tag, set_tag, one_time_key, authenticate, encrypt, opened, decrypt_with, decrypt,
}
use ez.Cipher.Aead.Compare.{compared_lem}
use ez.Cipher.Aead.Tag.{tag_number, authenticate_number, authenticate-bytes, authenticate_same}

-- The state of the cipher is as in source/chacha20.cpp, the authenticator's block is one of 17 bytes.
pub record IsReady (m : Impl) : Type 0 where
  pub cipher : Chacha.Stream.IsReady m.cipher
  pub block : length m.mac.buffer ≡ 17
  pub bytes : All IsByte m.mac.buffer
  pub aad : All IsByte m.aad

one_time_key_lem :
    (c : Chacha) → Chacha.Stream.IsReady c → one_time_key c ≡ ((stream 32 c).0, (stream 64 c).1)
unfolding one_time_key mixed
one_time_key_lem c v =
    let first = crypt-stream none 32 c v tt in
    let (b, v') = stream-IsByte 32 c v in
    ap (λ o. (o.0, (crypt none 32 o.1).1)) first
    ∙ ap (λ o. ((stream 32 c).0, o.1)) (crypt-stream none 32 (stream 32 c).1 v' tt)
    ∙ ap (λ o. ((stream 32 c).0, o.1)) (sym (stream-add 32 32 c))

-- The ciphertext is the input xor the key stream from its 65th byte on, and the tag is that of
-- RFC 8439 under the first 32 bytes.
pub encrypt-sealed :
    (input : List ℕ) (m : Impl)
    → IsReady m
    → All IsByte input
    → let sealed = encrypt input m in
      (sealed.0 ≡ xor_bytes input (stream (length input) (stream 64 m.cipher).1).0)
      × (number (get_tag sealed.1) ≡ tag_number (stream 32 m.cipher).0 m.aad sealed.0)
unfolding encrypt get_tag
encrypt-sealed input m v hx =
    let (k, v') = stream-IsByte 64 m.cipher v.cipher in
    let (e, n, b) = crypt-bytes input (stream 64 m.cipher).1 v' hx in
    rw (one_time_key_lem m.cipher v.cipher) (
      e,
      authenticate_number _ m.aad _ m.mac v.block v.bytes (stream-IsByte 32 m.cipher v.cipher).0
          v.aad b,
    )

verdict_with :
    (tag input : List ℕ) (m : Impl)
    → tag ≡ m.tag
    → IsReady m
    → All IsByte m.tag
    → length m.tag ≤ 16
    → let mac = copy_to (authenticate (stream 32 m.cipher).0 m.aad input m.mac) in
      (decrypt_with tag input m).0
      ≡ some (not (length tag == 0) && same_bytes m.tag (take (length m.tag) mac))
unfolding decrypt_with opened
verdict_with [] input m e v ht h = refl
verdict_with (t ∷ ts) input m e v ht h =
    let mac = copy_to (authenticate (stream 32 m.cipher).0 m.aad input m.mac) in
    let (n, b) = authenticate-bytes (stream 32 m.cipher).0 m.aad input m.mac in
    let some_ : (length (t ∷ ts) == 0) ≡ false = ground arith in
    rw (one_time_key_lem m.cipher v.cipher) (
      compared_lem mac m.tag 0 b ht (omega (arith, n))
      ∙ ap (λ z. some (not z && same_bytes m.tag (take (length m.tag) mac))) (sym some_))

-- With a tag of at most sixteen bytes, `decrypt` reads nothing out of range, and it returns true
-- exactly where the tag is not empty and is a beginning of the authenticator of the input; a tag
-- that was cut short is accepted.
pub decrypt-verdict :
    (input : List ℕ) (m : Impl)
    → IsReady m
    → All IsByte m.tag
    → length m.tag ≤ 16
    → let mac = copy_to (authenticate (stream 32 m.cipher).0 m.aad input m.mac) in
      (decrypt input m).0
      ≡ some (not (length m.tag == 0) && same_bytes m.tag (take (length m.tag) mac))
unfolding decrypt
decrypt-verdict input m v ht h = verdict_with m.tag input m refl v ht h

output_with :
    (tag input : List ℕ) (m : Impl)
    → 1 ≤ length tag
    → IsReady m
    → (decrypt_with tag input m).1 ≡ (crypt (some input) (length input) (stream 64 m.cipher).1).0
unfolding decrypt_with opened
output_with [] input m h v = absurd (omega arith)
output_with (t ∷ ts) input m h v = rw (one_time_key_lem m.cipher v.cipher) refl

-- What one object encrypted, another with the same cipher and the same additional data decrypts with
-- the tag that the first one gave: it returns true and puts out the input, whatever its
-- authenticator was used for before.
pub decrypt-encrypt :
    (input : List ℕ) (m m' : Impl)
    → IsReady m
    → IsReady m'
    → All IsByte input
    → m'.cipher ≡ m.cipher
    → m'.aad ≡ m.aad
    → let sealed = encrypt input m in
      let back = decrypt sealed.0 (set_tag (get_tag sealed.1) m') in
      (back.0 ≡ some true) × (back.1 ≡ input)
unfolding decrypt set_tag
decrypt-encrypt input m m' v v' hx same_cipher same_aad =
    let sealed = encrypt input m in
    let tag = get_tag sealed.1 in
    let key = (stream 32 m.cipher).0 in
    let c = (stream 64 m.cipher).1 in
    let r = record m' { tag = tag } in
    let vr : IsReady r = record {
      cipher = v'.cipher;
      block = v'.block;
      bytes = v'.bytes;
      aad = v'.aad;
    } in
    let hk = (stream-IsByte 32 m.cipher v.cipher).0 in
    let vc = (stream-IsByte 64 m.cipher v.cipher).1 in
    let out : sealed.0 ≡ (crypt (some input) (length input) c).0 =
      unfold encrypt in rw (one_time_key_lem m.cipher v.cipher) refl in
    let (e, n, b) = crypt-bytes input c vc hx in
    let sent_bytes : All IsByte sealed.0 = subst (All IsByte) (sym out) b in
    let given : tag ≡ copy_to (authenticate key m.aad sealed.0 m.mac) =
      unfold encrypt get_tag in rw (one_time_key_lem m.cipher v.cipher) refl in
    let (size, bytes) = authenticate-bytes key m.aad sealed.0 m.mac in
    let l : length tag ≡ 16 = ap length given ∙ size in
    let found : copy_to (authenticate (stream 32 m'.cipher).0 m'.aad sealed.0 m'.mac) ≡ tag =
      ap (λ d. copy_to (authenticate (stream 32 d).0 m'.aad sealed.0 m'.mac)) same_cipher
      ∙ ap (λ a. copy_to (authenticate key a sealed.0 m'.mac)) same_aad
      ∙ authenticate_same key m.aad sealed.0 m'.mac m.mac v'.block v'.bytes v.block v.bytes hk v.aad
          sent_bytes
      ∙ sym given in
    (
      verdict_with tag sealed.0 r refl vr (subst (All IsByte) (sym given) bytes) (omega (arith, l))
          ∙ ap (λ t. some (not (length tag == 0) && same_bytes tag (take (length tag) t))) found
          ∙ ap (λ t. some (not (length tag == 0) && same_bytes tag t))
              (take_all (length tag) tag (omega arith))
          ∙ ap (λ z. some (not (length tag == 0) && z)) (same_bytes_refl tag)
          ∙ (let e' : (length tag == 0) ≡ false = ground (arith, l) in rw e' refl),
      output_with tag sealed.0 r (omega (arith, l)) vr
          ∙ ap (λ d. (crypt (some sealed.0) (length sealed.0) (stream 64 d).1).0) same_cipher
          ∙ ap (λ s. (crypt (some s) (length s) c).0) out
          ∙ ap (λ o. o.0) (crypt_back input c vc hx),
    )
