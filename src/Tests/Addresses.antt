-- ===== src/Tests/Addresses.antt =====
-- source/ip.cpp at concrete inputs.
use ez.Base.{◌≡◌, ◌∷◌, ℕ, false, none, some, List, [], arith, ok}
use ez.Ip.{scan, start}
use ez.Ip.Dotted.{read, dotted, scan-read, scan-dotted, scan-zeros, zeros}

scan-dotted_example : scan 256 (dotted 127 0 0 1) 0 start ≡ some (ok (127 ∷ 0 ∷ 0 ∷ 1 ∷ []))
scan-dotted_example = scan-dotted 127 0 0 1 (omega arith) (omega arith) (omega arith) (omega arith)

abbrev empty_part : List ℕ
empty_part = b'1' ∷ b'.' ∷ b'.' ∷ b'2' ∷ []

scan-read_example : scan 256 empty_part 0 start ≡ some (read empty_part start)
scan-read_example = scan-read empty_part (omega arith)

scan-zeros_example :
    scan 1000 (zeros 300) 0 (record { at_least_one_symbol = false; number = 0; result = [] }) ≡ none
scan-zeros_example = scan-zeros 300 1000 0 false (omega arith) (omega arith)
