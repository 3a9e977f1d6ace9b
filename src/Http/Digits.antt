-- ===== src/Http/Digits.antt =====
-- `std::to_string` and `std::from_chars`, as source/http.cpp writes and reads the `Content-Length`.
use ez.Base.{
  ◌+◌, ◌-◌, ◌*◌, ◌/◌, ◌%◌, ◌^◌, ◌≤◌, ◌<◌, ◌≡◌, ◌∙◌, ◌∷◌, ◌++◌, ℕ, zero, suc, refl, inl, inr, true,
  some, List, [], arith, ltb, between, Bool-cases, length, All, length-append, All-append,
}
use ez.Http.Text.{digits_of, digits_value, from_chars, to_string}

abbrev IsDigit : ℕ → Type 0
IsDigit c = between 48 57 c ≡ true

add-IsDigit : (d : ℕ) → d < 10 → IsDigit (48 + d)
add-IsDigit d h = ground arith

digits_of-IsDigit : (fuel n : ℕ) → All IsDigit (digits_of fuel n)
unfolding digits_of
digits_of-IsDigit zero n = tt
digits_of-IsDigit (suc fuel) n = elim (Bool-cases (ltb n 10)) [
  | inl e ↦ rw e (add-IsDigit n (ground (arith, e)), tt)
  | inr e ↦ rw e (
      All-append IsDigit (digits_of fuel (n / 10)) _ (digits_of-IsDigit fuel (n / 10))
        (add-IsDigit (n % 10) (omega arith), tt))
]

-- A digit behind the others.
value-last :
    (cs : List ℕ) (a d : ℕ)
    → All IsDigit cs
    → d < 10
    → digits_value a (cs ++ ((48 + d) ∷ [])) ≡ digits_value a cs * 10 + d
unfolding digits_value
value-last [] a d h small = rw (add-IsDigit d small) (omega arith)
value-last (c ∷ cs) a d (hc, h) small = rw hc (value-last cs (a * 10 + (c - 48)) d h small)

value-digits : (fuel n : ℕ) → n < fuel → digits_value 0 (digits_of fuel n) ≡ n
unfolding digits_of digits_value
value-digits zero n h = absurd (omega arith)
value-digits (suc fuel) n h = elim (Bool-cases (ltb n 10)) [
  | inl e ↦ rw e (rw (add-IsDigit n (ground (arith, e))) (omega arith))
  | inr e ↦ rw e (
      value-last (digits_of fuel (n / 10)) 0 (n % 10) (digits_of-IsDigit fuel (n / 10))
        (omega arith)
      ∙ (let rest = value-digits fuel (n / 10) (ground (arith, e)) in omega (arith, rest)))
]

-- Digits in front of nothing else.
from_digits :
    (cs : List ℕ) (n : ℕ)
    → All IsDigit cs
    → 1 ≤ length cs
    → digits_value 0 cs ≡ n
    → n < 2 ^ 32
    → from_chars cs ≡ some n
unfolding from_chars
from_digits [] n h some_ e small = absurd (omega arith)
from_digits (c ∷ cs) n (hc, h) some_ e small =
    let t : ltb n (2 ^ 32) ≡ true = ground arith in rw (hc, e, t) refl

some_digits : (fuel n : ℕ) → 1 ≤ length (digits_of (suc fuel) n)
unfolding digits_of
some_digits fuel n = elim (Bool-cases (ltb n 10)) [
  | inl e ↦ rw e (omega arith)
  | inr e ↦ rw e (omega (arith, length-append (digits_of fuel (n / 10)) ((48 + n % 10) ∷ [])))
]

-- A size that an `unsigned` holds is read back as it was written.
pub from_chars-to_string : (n : ℕ) → n < 2 ^ 32 → from_chars (to_string n) ≡ some n
from_chars-to_string n h =
    from_digits (to_string n) n (digits_of-IsDigit (suc n) n) (some_digits n n)
      (value-digits (suc n) n (omega arith)) h
