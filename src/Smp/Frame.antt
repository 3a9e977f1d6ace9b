-- ===== src/Smp/Frame.antt =====
-- The twelve bytes of meta data of source/smp.cpp: the magic and two 32-bit sizes.
use ez.Base.{◌∷◌, ◌++◌, ℕ, List, [], length, le32}

-- "SMPm"
abbrev pub magic : List ℕ
magic = 83 ∷ 77 ∷ 80 ∷ 109 ∷ []

-- `MAX_HEADER` and `MAX_DATA`.
abbrev pub max_size : ℕ
max_size = 10485760

-- What a message looks like on the wire.
unfoldable pub frame : List ℕ → List ℕ → List ℕ
frame header body = magic ++ (le32 (length header) ++ (le32 (length body) ++ (header ++ body)))
