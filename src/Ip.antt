-- ===== src/Ip.antt =====
-- source/ip.cpp: the parser of IPv4 addresses.
pub mod Dotted
use ez.Base.{
  ◌+◌, ◌-◌, ◌*◌, ◌&&◌, ◌∷◌, ◌++◌, ◌==◌, if◌then◌else◌, ℕ, zero, suc, Bool, true, false, Option,
  none, some, List, [], ltb, leb, length, get_or, u8, u16, Outcome, ok, throws, fault,
}
use ez.Cipher.Chacha.Stream.{next}

pub data Error : Type 0 where
  data_overflow no_symbol input_overflow invalid_symbol not_enough_input : Error

-- `at_least_one_symbol`, `data`, and the bytes of `result` that are written, of which `result_index`
-- is the number.
pub record Scan : Type 0 where
  pub at_least_one_symbol : Bool
  pub number : ℕ
  pub result : List ℕ

pub start : Scan
start = record { at_least_one_symbol = false; number = 0; result = [] }

-- The body of the loop. `data` is at most 255 before a digit, so it does not wrap.
pub consume : ℕ → Scan → Outcome Error Scan
consume symbol s =
    let number = u16 (s.number * 10 + (symbol - b'0')) in
    if leb b'0' symbol && leb symbol b'9'
    then if ltb 255 number
      then throws data_overflow
      else ok (record s { number = number; at_least_one_symbol = true })
    else if symbol == b'.'
    then if ltb (length s.result) 3
      then if s.at_least_one_symbol
        then ok (record {
          at_least_one_symbol = false;
          number = 0;
          result = s.result ++ (s.number ∷ []);
        })
        else throws no_symbol
      else throws input_overflow
    else throws invalid_symbol

-- What stands behind the loop.
pub finish : Scan → Outcome Error (List ℕ)
finish s =
    if length s.result == 3
    then if s.at_least_one_symbol then ok (s.result ++ (s.number ∷ [])) else throws not_enough_input
    else throws not_enough_input

-- An exception leaves the loop.
pub carried :
    (Scan → Option (Outcome Error (List ℕ))) → Outcome Error Scan → Option (Outcome Error (List ℕ))
carried next (ok s) = next s
carried next (throws e) = some (throws e)
carried next fault = some fault

-- The loop at an index, which is a `uint8_t`; without a result where the fuel is used up.
pub scan : ℕ → List ℕ → ℕ → Scan → Option (Outcome Error (List ℕ))
scan zero source i s = none
scan (suc fuel) source i s =
    if ltb i (length source)
    then carried (scan fuel source (u8 (i + 1))) (consume (get_or source i 0) s)
    else some (finish s)
