-- ===== src/Buffer/Fill.antt =====
-- A fresh buffer of source/buffer.cpp that is written from its start on, as the senders do.
use ez.Base.{
  ◌+◌, ◌-◌, ◌^◌, ◌≤◌, ◌<◌, ◌≡◌, ◌∙◌, ◌++◌, ℕ, zero, suc, refl, sym, ap, true, List, [], arith, leb,
  length, drop, replicate, length-append, length-replicate, take_all, take-append, drop-append,
  drop-drop, ok,
}
use mathlib.Core.List.{append_assoc}
use mathlib.Core.List.{append-nil}
use ez.Buffer.{Buffer, make, write}
use ez.Buffer.Area.{IsValid}
use ez.Buffer.Laws.{contents}

-- `n` bytes, the first of them written and the rest still zeros.
abbrev pub filled : ℕ → List ℕ → Buffer
filled n done = record {
  mem = done ++ replicate (n - length done) 0;
  size = n;
  orig_size = n;
  position = 0;
}

pub make-filled : (n : ℕ) → make n ≡ filled n []
unfolding make
make-filled n = let e : n - 0 ≡ n = omega arith in rw e refl

abbrev zeros : ℕ → List ℕ
zeros n = replicate n 0

drop-replicate : (k n : ℕ) → drop k (zeros n) ≡ zeros (n - k)
drop-replicate zero n = let e : n - 0 ≡ n = omega arith in rw e refl
drop-replicate (suc k) zero = let e : 0 - suc k ≡ 0 = omega arith in rw e refl
drop-replicate (suc k) (suc n) =
    let e : suc n - suc k ≡ n - k = omega arith in rw e (drop-replicate k n)

drop-append_more :
    {A : Type 0} (k : ℕ) (xs ys : List A) → drop (length xs + k) (xs ++ ys) ≡ drop k ys
drop-append_more k xs ys =
    sym (drop-drop k (length xs) (xs ++ ys)) ∙ rw (drop-append (length xs) xs ys refl) refl

-- Writing right behind what was written extends it.
pub write-filled :
    {E : Type 0} (n : ℕ) (done bytes : List ℕ)
    → length done + length bytes ≤ n
    → write {E = E} (filled n done) (length done) bytes ≡ ok (filled n (done ++ bytes))
unfolding write
write-filled n done bytes h =
    let rest = zeros (n - length done) in
    let size : length (done ++ rest) ≡ n =
      omega (arith, length-append done rest, length-replicate (n - length done) zero) in
    let at : 0 + length done ≡ length done = omega arith in
    let t : leb (length done + length bytes) n ≡ true = ground arith in
    let tail : drop (length done + length bytes) (done ++ rest)
        ≡ zeros (n - length (done ++ bytes)) =
      drop-append_more (length bytes) done rest
      ∙ drop-replicate (length bytes) (n - length done)
      ∙ (let e : n - length done - length bytes ≡ n - length (done ++ bytes) =
            omega (arith, length-append done bytes) in
          ap zeros e) in
    rw (at, size, t, take-append (length done) done rest refl, tail)
      (rw (append_assoc done bytes (zeros (n - length (done ++ bytes)))) refl)

-- A buffer filled to its end shows what was written, and is well-formed.
pub contents-filled : (n : ℕ) (done : List ℕ) → length done ≡ n → contents (filled n done) ≡ done
contents-filled n done e =
    let z : n - length done ≡ 0 = omega arith in
    rw (z, append-nil done) (take_all (n - 0) done (omega arith))

pub filled-IsValid :
    (n : ℕ) (done : List ℕ) → length done ≡ n → n < 2 ^ 63 → IsValid (filled n done)
filled-IsValid n done e h = record {
  owned = omega (
    arith,
    length-append done (replicate (n - length done) 0),
    length-replicate (n - length done) (zero),
  );
  sized = omega arith;
  placed = omega arith;
  addressed = h;
}
