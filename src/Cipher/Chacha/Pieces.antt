-- ===== src/Cipher/Chacha/Pieces.antt =====
-- `crypt` of source/chacha20.cpp: what it puts out, in how many calls, and that it undoes itself.
use ez.Base.{
  ◌+◌, ◌-◌, ◌≤◌, ◌≡◌, ◌∙◌, ◌∷◌, ◌++◌, ℕ, zero, suc, min, bit_xor, refl, sym, ap, Option, none, some,
  List, [], arith, length, take, drop, All, length-append, length-drop, IsByte, xor-small,
}
use mathlib.Core.Path.{subst}
use ez.Cipher.Chacha.Xor.{xor_twice}
use ez.Cipher.Chacha.{
  Chacha, xor_bytes, mixed, first_of, advanced, crypt_loop, refill, crypt, refill, crypt,
}
use ez.Cipher.Chacha.Stream.{
  IsReady, stream, stream-add, refill-Refilled, moved, length-stream, pass_of, stream-IsByte,
}

-- An input is as long as the size says.
abbrev pub Fits : Option (List ℕ) → ℕ → Type 0
Fits none n = Unit
Fits (some xs) n = length xs ≡ n

xor_bytes-append :
    (n : ℕ) (xs ks ks' : List ℕ)
    → length ks ≡ n
    → n ≤ length xs
    → xor_bytes (take n xs) ks ++ xor_bytes (drop n xs) ks' ≡ xor_bytes xs (ks ++ ks')
unfolding xor_bytes
xor_bytes-append zero xs [] ks' e h = refl
xor_bytes-append zero xs (k ∷ ks) ks' e h = absurd (omega arith)
xor_bytes-append (suc n) [] ks ks' e h = absurd (omega arith)
xor_bytes-append (suc n) (x ∷ xs) [] ks' e h = absurd (omega arith)
xor_bytes-append (suc n) (x ∷ xs) (k ∷ ks) ks' e h =
    ap (λ r. bit_xor x k ∷ r) (xor_bytes-append n xs ks ks' (omega arith) (omega arith))

mixed_parts :
    (n size : ℕ) (input : Option (List ℕ)) (ks ks' : List ℕ)
    → Fits input size
    → n ≤ size
    → length ks ≡ n
    → mixed (first_of n input) ks ++ mixed (advanced n input) ks' ≡ mixed input (ks ++ ks')
unfolding mixed first_of advanced
mixed_parts n size none ks ks' fit h e = refl
mixed_parts n size (some xs) ks ks' fit h e = xor_bytes-append n xs ks ks' e (omega arith)

advanced-Fits :
    (n size : ℕ) (input : Option (List ℕ)) → Fits input size → Fits (advanced n input) (size - n)
unfolding advanced
advanced-Fits n size none fit = tt
advanced-Fits n size (some xs) fit = omega (arith, length-drop n xs)

nothing_left : (input : Option (List ℕ)) → Fits input 0 → [] ≡ mixed input []
unfolding mixed xor_bytes
nothing_left none fit = refl
nothing_left (some []) fit = refl
nothing_left (some (x ∷ xs)) fit = absurd (omega arith)

crypt_loop_lem :
    (fuel : ℕ) (input : Option (List ℕ)) (size : ℕ) (c : Chacha)
    → IsReady c
    → Fits input size
    → size ≤ fuel
    → crypt_loop fuel input size c ≡ (mixed input (stream size c).0, (stream size c).1)
unfolding crypt_loop
crypt_loop_lem zero input zero c v fit h =
    unfold stream in ap (λ o. (o, c)) (nothing_left input fit)
crypt_loop_lem zero input (suc left) c v fit h = absurd (omega arith)
crypt_loop_lem (suc fuel) input zero c v fit h =
    unfold stream in ap (λ o. (o, c)) (nothing_left input fit)
crypt_loop_lem (suc fuel) input (suc left) c v fit h =
    let c1 = refill c in
    let r = refill-Refilled c v in
    let n = min (suc left) (64 - c1.pos) in
    let m = suc left - n in
    let ks = take n (drop c1.pos c1.block) in
    let c2 = record c1 { pos = c1.pos + n } in
    let p = pass_of n c r (omega (arith, r.room)) (omega (arith, r.room)) in
    let count : length ks ≡ n = ap (λ s. length s.0) (sym p) ∙ length-stream n c in
    let all : n + m ≡ suc left = omega arith in
    ap (λ o. (mixed (first_of n input) ks ++ o.0, o.1))
      (crypt_loop_lem fuel (advanced n input) m c2 (moved (c1.pos + n) r.ready)
        (advanced-Fits n (suc left) input fit) (omega (arith, r.room)))
    ∙ ap (λ o. (o, (stream m c2).1))
        (mixed_parts n (suc left) input ks (stream m c2).0 fit (omega arith) count)
    ∙ ap (λ s. (mixed input (s.0 ++ (stream m s.1).0), (stream m s.1).1)) (sym p)
    ∙ ap (λ s. (mixed input s.0, s.1)) (sym (stream-add n m c))
    ∙ ap (λ k. (mixed input (stream k c).0, (stream k c).1)) all

-- With a state of sixteen words and a block of 64 bytes, however much of the block is left over, `crypt` puts out the input xor the next
-- bytes of the key stream, or without an input those bytes, and moves on by as many.
pub crypt-stream :
    (input : Option (List ℕ)) (size : ℕ) (c : Chacha)
    → IsReady c
    → Fits input size
    → crypt input size c ≡ (mixed input (stream size c).0, (stream size c).1)
unfolding crypt
crypt-stream input size c v fit = crypt_loop_lem size input size c v fit (omega arith)

xor_bytes_twice :
    (xs ks : List ℕ)
    → All IsByte xs
    → All IsByte ks
    → length ks ≡ length xs
    → xor_bytes (xor_bytes xs ks) ks ≡ xs
unfolding xor_bytes
xor_bytes_twice [] ks hx hk e = refl
xor_bytes_twice (x ∷ xs) [] hx hk e = absurd (omega arith)
xor_bytes_twice (x ∷ xs) (k ∷ ks) (hx, hxs) (hk, hks) e =
    rw (xor_twice x k hx hk, xor_bytes_twice xs ks hxs hks (omega arith)) refl

length-xor_bytes : (xs ks : List ℕ) → length ks ≡ length xs → length (xor_bytes xs ks) ≡ length xs
unfolding xor_bytes
length-xor_bytes [] ks e = refl
length-xor_bytes (x ∷ xs) [] e = absurd (omega arith)
length-xor_bytes (x ∷ xs) (k ∷ ks) e = ap suc (length-xor_bytes xs ks (omega arith))

xor_bytes-both :
    (xs ys ks ks' : List ℕ)
    → length ks ≡ length xs
    → xor_bytes (xs ++ ys) (ks ++ ks') ≡ xor_bytes xs ks ++ xor_bytes ys ks'
unfolding xor_bytes
xor_bytes-both [] ys [] ks' e = refl
xor_bytes-both [] ys (k ∷ ks) ks' e = absurd (omega arith)
xor_bytes-both (x ∷ xs) ys [] ks' e = absurd (omega arith)
xor_bytes-both (x ∷ xs) ys (k ∷ ks) ks' e =
    ap (λ r. bit_xor x k ∷ r) (xor_bytes-both xs ys ks ks' (omega arith))

xor_bytes-IsByte : (xs ks : List ℕ) → All IsByte xs → All IsByte ks → All IsByte (xor_bytes xs ks)
unfolding xor_bytes
xor_bytes-IsByte [] ks hx hk = tt
xor_bytes-IsByte (x ∷ xs) [] hx hk = tt
xor_bytes-IsByte (x ∷ xs) (k ∷ ks) (hx, hxs) (hk, hks) =
    (xor-small 8 x k hx hk, xor_bytes-IsByte xs ks hxs hks)

-- Encrypting bytes gives as many bytes.
pub crypt-bytes :
    (xs : List ℕ) (c : Chacha)
    → IsReady c
    → All IsByte xs
    → let out = crypt (some xs) (length xs) c in
      (out.0 ≡ xor_bytes xs (stream (length xs) c).0)
      × (length out.0 ≡ length xs)
      × All IsByte out.0
unfolding mixed
crypt-bytes xs c v hx =
    let e = crypt-stream (some xs) (length xs) c v refl in
    let s = stream (length xs) c in
    (
      ap (λ o. o.0) e,
      ap (λ o. length o.0) e ∙ length-xor_bytes xs s.0 (length-stream (length xs) c),
      subst (λ o. All IsByte o.0) (sym e)
          (xor_bytes-IsByte xs s.0 hx (stream-IsByte (length xs) c v).0),
    )

-- And decrypting gives them back.
pub crypt_back :
    (xs : List ℕ) (c : Chacha)
    → IsReady c
    → All IsByte xs
    → let out = crypt (some xs) (length xs) c in crypt (some out.0) (length out.0) c ≡ (xs, out.1)
unfolding mixed
crypt_back xs c v hx =
    let a = length xs in
    let s = stream a c in
    let e = crypt-stream (some xs) a c v refl in
    let l = length-xor_bytes xs s.0 (length-stream a c) in
    ap (λ o. crypt (some o.0) (length o.0) c) e
    ∙ ap (λ n. crypt (some (xor_bytes xs s.0)) n c) l
    ∙ crypt-stream (some (xor_bytes xs s.0)) a c v l
    ∙ ap (λ t. (t, s.1)) (xor_bytes_twice xs s.0 hx (stream-IsByte a c v).0 (length-stream a c))
    ∙ ap (λ o. (xs, o.1)) (sym e)

-- Two ciphers in the same state, of sixteen words with a block of 64 bytes: the bytes that one of
-- them encrypts in two pieces the other decrypts in one piece, and both are then in the same state
-- again.
pub crypt-crypt :
    (xs ys : List ℕ) (c : Chacha)
    → IsReady c
    → All IsByte xs
    → All IsByte ys
    → let first = crypt (some xs) (length xs) c in
      let second = crypt (some ys) (length ys) first.1 in
      crypt (some (first.0 ++ second.0)) (length xs + length ys) c ≡ (xs ++ ys, second.1)
unfolding mixed
crypt-crypt xs ys c v hx hy =
    let a = length xs in
    let b = length ys in
    let s1 = stream a c in
    let s2 = stream b s1.1 in
    let (k1, v1) = stream-IsByte a c v in
    let (k2, v2) = stream-IsByte b s1.1 v1 in
    let l1 = length-stream a c in
    let l2 = length-stream b s1.1 in
    let first = xor_bytes xs s1.0 in
    let second = xor_bytes ys s2.0 in
    let m1 = length-xor_bytes xs s1.0 l1 in
    let m2 = length-xor_bytes ys s2.0 l2 in
    let e1 = crypt-stream (some xs) a c v refl in
    let e2 : crypt (some ys) b (crypt (some xs) a c).1 ≡ (second, s2.1) =
      ap (λ o. crypt (some ys) b o.1) e1 ∙ crypt-stream (some ys) b s1.1 v1 refl in
    ap (λ o. crypt (some (o.0 ++ (crypt (some ys) b (crypt (some xs) a c).1).0)) (a + b) c) e1
    ∙ ap (λ o. crypt (some (first ++ o.0)) (a + b) c) e2
    ∙ crypt-stream (some (first ++ second)) (a + b) c v (length-append first second ∙ omega arith)
    ∙ ap (λ s. (xor_bytes (first ++ second) s.0, s.1)) (stream-add a b c)
    ∙ ap (λ t. (t, s2.1)) (xor_bytes-both first second s1.0 s2.0 (omega arith))
    ∙ ap (λ t. (t ++ xor_bytes second s2.0, s2.1)) (xor_bytes_twice xs s1.0 hx k1 l1)
    ∙ ap (λ t. (xs ++ t, s2.1)) (xor_bytes_twice ys s2.0 hy k2 l2)
    ∙ ap (λ o. (xs ++ ys, o.1)) (sym e2)
