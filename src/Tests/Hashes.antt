-- ===== src/Tests/Hashes.antt =====
-- source/sha1.cpp and source/sha2.cpp at concrete inputs.
use ez.Base.{◌≡◌, ◌∷◌, ◌++◌, ℕ, inl, List, [], map, arith, replicate}
use ez.Hmac
use ez.Hmac.{Hmac}
use ez.Hmac.Rfc2104.{adds, hmac, complete-hmac}
use ez.Sha
use ez.Sha.{Impl}
use ez.Sha.Blocks.{sha2_256}
use ez.Feed.{join}
use ez.Sha.Digest.{updates, ending, complete-updates}
use ez.Sha.Feed.{feed}
use ez.Sha.Words.{swap32}

abbrev fresh : Impl
fresh = record { digest = []; buffer = replicate 64 0; size = 0; total_size = 0 }

abbrev abc : List ℕ
abc = b'a' ∷ b'b' ∷ b'c' ∷ []

abbrev pieces : List (List ℕ)
pieces = (b'a' ∷ []) ∷ [] ∷ (b'b' ∷ b'c' ∷ []) ∷ []

complete-updates_example :
    (Sha.complete sha2_256 (updates sha2_256 pieces (Sha.reset sha2_256 fresh))).digest
    ≡ map swap32 (feed sha2_256 (join pieces ++ ending 3) (sha2_256.initial, [])).0
complete-updates_example = complete-updates sha2_256 fresh pieces (omega arith) (omega arith)

-- The second example of RFC 4231, its message in two pieces.
abbrev key : List ℕ
key = b'J' ∷ b'e' ∷ b'f' ∷ b'e' ∷ []

abbrev question : List (List ℕ)
question =
    (b'w' ∷ b'h' ∷ b'a' ∷ b't' ∷ b' ' ∷ b'd' ∷ b'o' ∷ b' ' ∷ b'y' ∷ b'a' ∷ b' ' ∷ b'w' ∷ [])
    ∷ (b'a' ∷ b'n' ∷ b't' ∷ b' ' ∷ b'f' ∷ b'o' ∷ b'r' ∷ b' ' ∷ b'n' ∷ b'o' ∷ b't' ∷ b'h' ∷ b'i'
        ∷ b'n' ∷ b'g' ∷ b'?' ∷ [])
    ∷ []

abbrev idle_mac : Hmac
idle_mac = record { hash = fresh; key = []; digest = [] }

complete-hmac_example :
    (Hmac.complete sha2_256 (adds sha2_256 question (Hmac.set_key sha2_256 key idle_mac))).digest
    ≡ hmac sha2_256 key (join question)
complete-hmac_example =
    complete-hmac sha2_256 key question idle_mac (omega arith) (omega arith) (omega arith)
      (omega arith) (inl (omega arith))
