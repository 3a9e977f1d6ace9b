-- ===== src/Tests/Ciphers.antt =====
-- source/chacha20.cpp at concrete inputs.
use ez.Base.{◌≡◌, ◌∷◌, ◌++◌, refl, some, [], arith, replicate}
use ez.Cipher.Chacha.{Chacha, crypt, mixed}
use ez.Cipher.Chacha.Stream.{IsReady, stream}
use ez.Cipher.Chacha.Pieces.{crypt-crypt, crypt-stream}

-- A key and an initial value of zeros, and nothing used of a block.
abbrev pub cipher : Chacha
cipher = record {
  rounds = 20;
  pos = 0;
  state =
      0x61707865 ∷ 0x3320646e ∷ 0x79622d32 ∷ 0x6b206574 ∷ 0 ∷ 0 ∷ 0 ∷ 0 ∷ 0 ∷ 0 ∷ 0 ∷ 0 ∷ 0 ∷ 0 ∷ 0
      ∷ 0 ∷ [];
  block = replicate 64 0;
}

pub cipher-IsReady : IsReady cipher
cipher-IsReady = record { words = refl; block = refl; bytes = omega arith }

crypt-crypt_example :
    let first = crypt (some (1 ∷ 2 ∷ [])) 2 cipher in
    let second = crypt (some (3 ∷ [])) 1 first.1 in
    crypt (some (first.0 ++ second.0)) 3 cipher ≡ (1 ∷ 2 ∷ 3 ∷ [], second.1)
crypt-crypt_example =
    crypt-crypt (1 ∷ 2 ∷ []) (3 ∷ []) cipher cipher-IsReady (omega arith) (omega arith)

crypt-stream_example :
    crypt (some (5 ∷ 6 ∷ [])) 2 cipher
    ≡ (mixed (some (5 ∷ 6 ∷ [])) (stream 2 cipher).0, (stream 2 cipher).1)
crypt-stream_example = crypt-stream (some (5 ∷ 6 ∷ [])) 2 cipher cipher-IsReady refl
