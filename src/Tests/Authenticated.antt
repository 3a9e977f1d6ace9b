-- ===== src/Tests/Authenticated.antt =====
-- source/poly1305.cpp and source/chacha20_poly1305.cpp at concrete inputs.
use ez.Base.{
  ◌+◌, ◌%◌, ◌^◌, ◌≡◌, ◌&&◌, ◌∷◌, ◌==◌, refl, true, not, some, List, [], ℕ, arith, take, replicate,
  same_bytes,
}
use ez.Feed.{join}
use ez.Cipher.Chacha.{xor_bytes}
use ez.Cipher.Chacha.Stream.{stream}
use ez.Tests.Ciphers.{cipher, cipher-IsReady}
use ez.Cipher.Poly1305.{Impl, zero_limbs, zero_words, copy_to, complete, set_key}
use ez.Cipher.Poly1305.Field.{Limbs, Words}
use ez.Cipher.Poly1305.Passes.{IsReduced}
use ez.Cipher.Poly1305.Block.{number}
use ez.Cipher.Poly1305.Stream.{feed}
use ez.Cipher.Poly1305.Mac.{ended, multiplier, addend, updates, complete-mac}
use ez.Cipher.Aead
use ez.Cipher.Aead.{get_tag, set_tag, authenticate, encrypt, decrypt}
use ez.Cipher.Aead.Tag.{tag_number}
use ez.Cipher.Aead.Sealed.{encrypt-sealed, decrypt-verdict, decrypt-encrypt}

-- A new object; its block holds whatever was there.
abbrev mac : Impl
mac = record {
  r = zero_words;
  s = zero_words;
  a = zero_limbs;
  buffer = replicate 17 7;
  digest = [];
  size = 3;
}

abbrev rfc_key : List ℕ
rfc_key =
    0x85 ∷ 0xd6 ∷ 0xbe ∷ 0x78 ∷ 0x57 ∷ 0x55 ∷ 0x6d ∷ 0x33 ∷ 0x7f ∷ 0x44 ∷ 0x52 ∷ 0xfe ∷ 0x42 ∷ 0xd5
    ∷ 0x06 ∷ 0xa8 ∷ 0x01 ∷ 0x03 ∷ 0x80 ∷ 0x8a ∷ 0xfb ∷ 0x0d ∷ 0xb2 ∷ 0xfd ∷ 0x4a ∷ 0xbf ∷ 0xf6
    ∷ 0xaf ∷ 0x41 ∷ 0x49 ∷ 0xf5 ∷ 0x1b ∷ []

-- The message of RFC 8439, 2.5.2, in two pieces.
abbrev rfc_message : List (List ℕ)
rfc_message =
    (67 ∷ 114 ∷ 121 ∷ 112 ∷ 116 ∷ 111 ∷ 103 ∷ 114 ∷ 97 ∷ 112 ∷ 104 ∷ 105 ∷ 99 ∷ 32 ∷ 70 ∷ 111 ∷ 114
      ∷ 117 ∷ 109 ∷ [])
    ∷ (32 ∷ 82 ∷ 101 ∷ 115 ∷ 101 ∷ 97 ∷ 114 ∷ 99 ∷ 104 ∷ 32 ∷ 71 ∷ 114 ∷ 111 ∷ 117 ∷ 112 ∷ [])
    ∷ []

complete-mac_example :
    number (copy_to (complete (updates rfc_message (set_key rfc_key mac))))
    ≡ (ended (multiplier rfc_key) (feed (multiplier rfc_key) (join rfc_message) (0, []))
        + addend rfc_key)
      % 2 ^ 128
complete-mac_example =
    complete-mac mac rfc_key rfc_message refl (omega arith) (omega arith) (omega arith)

abbrev two_words : Words
two_words = record { w0 = 3; w1 = 8; w2 = 0; w3 = 4 }

abbrev limbs : Limbs
limbs = record { a0 = 0xffffffff; a1 = 0xffffffff; a2 = 0xffffffff; a3 = 0xffffffff; a4 = 3 }

limbs-IsReduced : IsReduced limbs
limbs-IsReduced = record {
  c0 = omega arith;
  c1 = omega arith;
  c2 = omega arith;
  c3 = omega arith;
  c4 = omega arith;
}

abbrev sender : Aead.Impl
sender = record { cipher = cipher; mac = mac; aad = 1 ∷ 2 ∷ 3 ∷ []; tag = [] }

abbrev receiver : Aead.Impl
receiver = record {
  cipher = cipher;
  mac = record mac { size = 0; buffer = replicate 17 0 };
  aad = 1 ∷ 2 ∷ 3 ∷ [];
  tag = 9 ∷ 9 ∷ [];
}

sender-IsReady : Aead.Sealed.IsReady sender
sender-IsReady = record {
  cipher = cipher-IsReady;
  block = refl;
  bytes = omega arith;
  aad = omega arith;
}

receiver-IsReady : Aead.Sealed.IsReady receiver
receiver-IsReady = record {
  cipher = cipher-IsReady;
  block = refl;
  bytes = omega arith;
  aad = omega arith;
}

encrypt-sealed_example :
    ((encrypt (5 ∷ 6 ∷ []) sender).0 ≡ xor_bytes (5 ∷ 6 ∷ []) (stream 2 (stream 64 cipher).1).0)
    × (number (get_tag (encrypt (5 ∷ 6 ∷ []) sender).1)
        ≡ tag_number (stream 32 cipher).0 (1 ∷ 2 ∷ 3 ∷ []) (encrypt (5 ∷ 6 ∷ []) sender).0)
encrypt-sealed_example = encrypt-sealed (5 ∷ 6 ∷ []) sender sender-IsReady (omega arith)

decrypt-verdict_example :
    (decrypt (5 ∷ 6 ∷ []) receiver).0
    ≡ some (
        not (2 == 0)
        && same_bytes (9 ∷ 9 ∷ []) (
            take 2 (
              copy_to
                (authenticate (stream 32 cipher).0 (1 ∷ 2 ∷ 3 ∷ []) (5 ∷ 6 ∷ []) receiver.mac))))
decrypt-verdict_example =
    decrypt-verdict (5 ∷ 6 ∷ []) receiver receiver-IsReady (omega arith) (omega arith)

decrypt-encrypt_example :
    let sealed = encrypt (5 ∷ 6 ∷ []) sender in
    let back = decrypt sealed.0 (set_tag (get_tag sealed.1) receiver) in
    (back.0 ≡ some true) × (back.1 ≡ 5 ∷ 6 ∷ [])
decrypt-encrypt_example =
    decrypt-encrypt (5 ∷ 6 ∷ []) sender receiver sender-IsReady receiver-IsReady (omega arith) refl
      refl
