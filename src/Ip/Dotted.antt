-- ===== src/Ip/Dotted.antt =====
-- What source/ip.cpp accepts: it reads back the four numbers of an address.
use ez.Base.{
  ◌+◌, ◌-◌, ◌*◌, ◌/◌, ◌%◌, ◌≤◌, ◌<◌, ◌≡◌, ◌∙◌, ◌&&◌, ◌∷◌, ◌++◌, ◌>>=◌, if◌then◌else◌, ℕ, zero, suc,
  refl, ap, inl, inr, Bool, true, false, Option, none, some, List, [], arith, ltb, leb, Bool-cases,
  length, get_or, drop, replicate, length-append, length-replicate, drop_all, u8, u16, Outcome, ok,
  throws, fault,
}
use native.Mathlib.Decide.{dec_lt}
use ez.Ip.{Error, Scan, consume, finish, carried, scan, start, start}

-- The characters from the first to the last.
pub read : List ℕ → Scan → Outcome Error (List ℕ)
read [] s = finish s
read (c ∷ cs) s = consume c s >>= read cs

-- What is left at an index is the character there and the rest.
drop_at : (i : ℕ) (xs : List ℕ) → i < length xs → drop i xs ≡ get_or xs i 0 ∷ drop (suc i) xs
drop_at i [] h = absurd (omega arith)
drop_at zero (x ∷ xs) h = refl
drop_at (suc i) (x ∷ xs) h = drop_at i xs (omega arith)

carried-read :
    (next : Scan → Option (Outcome Error (List ℕ))) (cs : List ℕ) (o : Outcome Error Scan)
    → ((s : Scan) → next s ≡ some (read cs s))
    → carried next o ≡ some (o >>= read cs)
unfolding carried
carried-read next cs (ok s) h = h s
carried-read next cs (throws e) h = refl
carried-read next cs fault h = refl

-- The loop reads the characters from the index on.
scan-drop :
    (fuel : ℕ) (source : List ℕ) (i : ℕ) (s : Scan)
    → length source < 256
    → i ≤ length source
    → length source < i + fuel
    → scan fuel source i s ≡ some (read (drop i source) s)
unfolding scan
scan-drop zero source i s few inside enough = absurd (omega arith)
scan-drop (suc fuel) source i s few inside enough = elim (dec_lt i (length source)) [
  | yes more ↦
      let t : ltb i (length source) ≡ true = ground arith in
      let i' : u8 (i + 1) ≡ suc i = omega arith in
      rw (t, drop_at i source more)
        (ap (λ j. carried (scan fuel source j) (consume (get_or source i 0) s)) i'
          ∙ carried-read (scan fuel source (suc i)) (drop (suc i) source)
              (consume (get_or source i 0) s)
              (λ s'. scan-drop fuel source (suc i) s' few (omega arith) (omega arith))
          ∙ (unfold read in refl))
  | no none_left ↦
      let t : ltb i (length source) ≡ false = ground arith in
      rw (t, drop_all i source (omega arith)) (unfold read in refl)
]

-- On a source of fewer than 256 characters the loop ends, with the characters read in order up to
-- the first that is refused.
pub scan-read :
    (source : List ℕ) → length source < 256 → scan 256 source 0 start ≡ some (read source start)
scan-read source few = scan-drop 256 source 0 start few (omega arith) (omega arith)

digit_lem :
    (d : ℕ) (s : Scan)
    → d < 10
    → s.number * 10 + d ≤ 255
    → consume (b'0' + d) s
      ≡ ok (record s { number = s.number * 10 + d; at_least_one_symbol = true })
unfolding consume
digit_lem d s h fits =
    let t : (leb b'0' (b'0' + d) && leb (b'0' + d) b'9') ≡ true = ground arith in
    let v : u16 (s.number * 10 + (b'0' + d - b'0')) ≡ s.number * 10 + d = omega arith in
    let small : ltb 255 (s.number * 10 + d) ≡ false = ground arith in rw (t, v, small) refl

-- A number from 0 to 255 in decimal, without zeros in front.
abbrev pub decimal : ℕ → List ℕ
decimal a =
    if ltb a 10
    then (b'0' + a) ∷ []
    else if ltb a 100
    then (b'0' + a / 10) ∷ (b'0' + a % 10) ∷ []
    else (b'0' + a / 100) ∷ (b'0' + a / 10 % 10) ∷ (b'0' + a % 10) ∷ []

abbrev pub dotted : ℕ → ℕ → ℕ → ℕ → List ℕ
dotted a b c d =
    decimal a ++ (b'.' ∷ (decimal b ++ (b'.' ∷ (decimal c ++ (b'.' ∷ (decimal d ++ []))))))

abbrev at : Bool → ℕ → List ℕ → Scan
at seen n done = record { at_least_one_symbol = seen; number = n; result = done }

read-digit :
    (d n : ℕ) (seen : Bool) (cs done : List ℕ)
    → d < 10
    → n * 10 + d ≤ 255
    → read ((b'0' + d) ∷ cs) (at seen n done) ≡ read cs (at true (n * 10 + d) done)
unfolding read
read-digit d n seen cs done h fits = ap (λ o. o >>= read cs) (digit_lem d (at seen n done) h fits)

read-dot :
    (a : ℕ) (cs done : List ℕ)
    → length done < 3
    → read (b'.' ∷ cs) (at true a done) ≡ read cs (at false 0 (done ++ (a ∷ [])))
unfolding read consume
read-dot a cs done h = let t : ltb (length done) 3 ≡ true = ground arith in rw t refl

-- What a number in decimal does to a scan that is behind a dot.
read-decimal :
    (a : ℕ) (rest done : List ℕ)
    → a < 256
    → read (decimal a ++ rest) (at false 0 done) ≡ read rest (at true a done)
read-decimal a rest done h = elim (Bool-cases (ltb a 10)) [
  | inl one ↦
      let e : 0 * 10 + a ≡ a = omega arith in
      rw one (
        read-digit a 0 false rest done (ground (arith, one)) (omega arith)
        ∙ ap (λ n. read rest (at true n done)) e)
  | inr more ↦ elim (Bool-cases (ltb a 100)) [
    | inl two ↦
        let e : (0 * 10 + a / 10) * 10 + a % 10 ≡ a = omega arith in
        let small : a < 100 = ground (arith, two) in
        rw (more, two)
          (read-digit (a / 10) 0 false _ done (omega arith) (omega arith)
            ∙ read-digit (a % 10) (0 * 10 + a / 10) true rest done (omega arith) (omega arith)
            ∙ ap (λ n. read rest (at true n done)) e)
    | inr three ↦
        let e : ((0 * 10 + a / 100) * 10 + a / 10 % 10) * 10 + a % 10 ≡ a = omega arith in
        rw (more, three)
          (read-digit (a / 100) 0 false _ done (omega arith) (omega arith)
            ∙ read-digit (a / 10 % 10) (0 * 10 + a / 100) true _ done (omega arith) (omega arith)
            ∙ read-digit (a % 10) ((0 * 10 + a / 100) * 10 + a / 10 % 10) true rest done
                (omega arith) (omega arith)
            ∙ ap (λ n. read rest (at true n done)) e)
  ]
]

length-decimal : (a : ℕ) → length (decimal a) ≤ 3
length-decimal a = elim (Bool-cases (ltb a 10)) [
  | inl one ↦ rw one (omega arith)
  | inr more ↦ elim (Bool-cases (ltb a 100)) [
    | inl two ↦ rw (more, two) (omega arith)
    | inr three ↦ rw (more, three) (omega arith)
  ]
]

read-dotted :
    (a b c d : ℕ)
    → a < 256
    → b < 256
    → c < 256
    → d < 256
    → read (dotted a b c d) start ≡ ok (a ∷ b ∷ c ∷ d ∷ [])
unfolding start
read-dotted a b c d ha hb hc hd =
    read-decimal a _ [] ha
    ∙ read-dot a _ [] (omega arith)
    ∙ read-decimal b _ (a ∷ []) hb
    ∙ read-dot b _ (a ∷ []) (omega arith)
    ∙ read-decimal c _ (a ∷ b ∷ []) hc
    ∙ read-dot c _ (a ∷ b ∷ []) (omega arith)
    ∙ read-decimal d [] (a ∷ b ∷ c ∷ []) hd
    ∙ (unfold read finish in refl)

-- The four numbers of an address, each below 256 and in decimal, with dots between them, are read
-- back, and the loop ends.
pub scan-dotted :
    (a b c d : ℕ)
    → a < 256
    → b < 256
    → c < 256
    → d < 256
    → scan 256 (dotted a b c d) 0 start ≡ some (ok (a ∷ b ∷ c ∷ d ∷ []))
scan-dotted a b c d ha hb hc hd =
    let la = length-decimal a in
    let lb = length-decimal b in
    let lc = length-decimal c in
    let ld = length-decimal d in
    let l3 = length-append (decimal d) [] in
    let l2 = length-append (decimal c) (b'.' ∷ (decimal d ++ [])) in
    let l1 = length-append (decimal b) (b'.' ∷ (decimal c ++ (b'.' ∷ (decimal d ++ [])))) in
    let l0 =
      length-append (decimal a)
        (b'.' ∷ (decimal b ++ (b'.' ∷ (decimal c ++ (b'.' ∷ (decimal d ++ [])))))) in
    scan-read (dotted a b c d) (omega arith) ∙ ap some (read-dotted a b c d ha hb hc hd)

get_or-replicate {ℓ} :
    {A : Type ℓ} (n i : ℕ) (a other : A) → i < n → get_or (replicate n a) i other ≡ a
get_or-replicate zero i a other h = absurd (omega arith)
get_or-replicate (suc n) zero a other h = refl
get_or-replicate (suc n) (suc i) a other h = get_or-replicate n i a other (omega arith)

abbrev pub zeros : ℕ → List ℕ
zeros n = replicate n b'0'

-- On 256 zeros or more the index wraps around before it reaches the end: whatever the fuel, the loop
-- has no result.
pub scan-zeros :
    (n fuel i : ℕ) (seen : Bool)
    → 256 ≤ n
    → i < 256
    → scan fuel (zeros n) i (record { at_least_one_symbol = seen; number = 0; result = [] }) ≡ none
unfolding scan carried
scan-zeros n zero i seen h hi = refl
scan-zeros n (suc fuel) i seen h hi =
    let t : ltb i (length (zeros n)) ≡ true = ground (arith, length-replicate {A = ℕ} n b'0') in
    let read_zero : get_or (zeros n) i 0 ≡ b'0' =
      get_or-replicate {A = ℕ} n i b'0' 0 (omega arith) in
    rw (t, read_zero)
      (ap (carried (scan fuel (zeros n) (u8 (i + 1))))
          (digit_lem 0 (at seen 0 []) (omega arith) (omega arith))
        ∙ scan-zeros n fuel (u8 (i + 1)) true h (omega arith))
