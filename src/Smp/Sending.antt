-- ===== src/Smp/Sending.antt =====
-- The sending half of source/smp.cpp: what goes onto the wire is the frame of the message, whole and
-- in order, however the channel splits it.
use ez.Base.{
  ◌+◌, ◌≤◌, ◌≡◌, ◌||◌, ◌∷◌, ◌++◌, ◌==◌, ℕ, refl, ap, inl, inr, false, List, [], arith, ltb,
  Bool-cases, length, length-append, u32, ok,
}
use mathlib.Core.List.{append_assoc}
use ez.Smp.Frame.{frame, max_size, magic}
use ez.Base.{le32, length-le32}
use mathlib.Core.List.{append-nil}
use ez.Buffer
use ez.Buffer.{Buffer}
use ez.Buffer.Area.{IsValid, remaining_lem}
use ez.Buffer.Laws.{contents, read_all, length-contents}
use ez.Buffer.Fill.{filled, write-filled, make-filled}
use ez.Channel.{Channel}
use ez.Smp.{Impl, Error, store, store_body, sending_data, flush, send}

eq_nil : (xs : List ℕ) → length xs ≡ 0 → xs ≡ []
eq_nil [] e = refl
eq_nil (x ∷ xs) e = absurd (omega arith)

module _ (ch : Channel) (m : Impl) (s : ch.State) where
  pub store-filled :
      (n off : ℕ) (done bytes : List ℕ)
      → off ≡ length done
      → off + length bytes ≤ n
      → store ch off bytes (record m { send_buffer = filled n done }, s)
        ≡ (ok tt, (record m { send_buffer = filled n (done ++ bytes) }, s))
  unfolding store
  store-filled n off done bytes e h =
      rw e (rw (write-filled {E = Error} n done bytes (omega arith), store) refl)

  store_body-filled :
      (n header_size body_size : ℕ) (done : List ℕ) (body : Buffer)
      → IsValid body
      → body_size ≡ Buffer.remaining body
      → 12 + header_size ≡ length done
      → 12 + header_size + body_size ≤ n
      → store_body ch header_size body_size body (record m { send_buffer = filled n done }, s)
        ≡ (ok tt, (record m { send_buffer = filled n (done ++ contents body) }, s))
  unfolding store_body
  store_body-filled n header_size body_size done body v eb e h =
      let len : length (contents body) ≡ body_size =
        omega (arith, length-contents v, remaining_lem v) in
      elim (Bool-cases (ltb 0 body_size)) [
        | inl some_ ↦
            rw (some_, read_all {E = Error} v)
              (store-filled n (12 + header_size) done (contents body) e (omega arith))
        | inr none_ ↦
            let z : contents body ≡ [] = eq_nil (contents body) (ground arith) in
            rw (none_, z, append-nil done) refl
      ]

module _ (ch : Channel) (header body : Buffer) (vh : IsValid header) (vb : IsValid body)
    (some_header : 1 ≤ Buffer.remaining header) (small_header : Buffer.remaining header ≤ max_size)
    (small_body : Buffer.remaining body ≤ max_size) where
  abbrev pub whole : List ℕ
  whole = frame (contents header) (contents body)

  layout :
      length (contents header) ≡ Buffer.remaining header
      → length (contents body) ≡ Buffer.remaining body
      → (((magic ++ le32 (Buffer.remaining header)) ++ le32 (Buffer.remaining body))
            ++ contents header)
          ++ contents body
        ≡ whole
  layout lh lb = unfold frame in rw (lh, lb) (simp append_assoc)

  abbrev pub packed : Impl → Impl
  packed m = record m {
    state = sending_data;
    send_buffer = filled (12 + Buffer.remaining header + Buffer.remaining body) whole;
  }

  pub send-flush : (m : Impl) (s : ch.State) → send ch header body (m, s) ≡ flush ch (packed m, s)
  unfolding send
  send-flush m s =
      let h = Buffer.remaining header in
      let b = Buffer.remaining body in
      let eh : u32 h ≡ h = omega arith in
      let eb : u32 b ≡ b = omega arith in
      let th : (h == 0 || ltb max_size h) ≡ false = ground arith in
      let tb : ltb max_size b ≡ false = ground arith in
      let en : u32 (12 + h + b) ≡ 12 + h + b = omega arith in
      let n = 12 + h + b in
      let m0 = record m { state = sending_data } in
      let lh : length (contents header) ≡ h = omega (arith, length-contents vh, remaining_lem vh) in
      let lb : length (contents body) ≡ b = omega (arith, length-contents vb, remaining_lem vb) in
      let d8 = magic ++ le32 h in
      let d12 = d8 ++ le32 b in
      let d = d12 ++ contents header in
      let l8 : 8 ≡ length d8 = omega (arith, length-append magic (le32 h), length-le32 h) in
      let l12 : 12 ≡ length d12 = omega (arith, length-append d8 (le32 b), length-le32 b) in
      let l : 12 + h ≡ length d = omega (arith, length-append d12 (contents header)) in
      rw (eh, eb, th, tb, en, make-filled n)
        (rw (store-filled ch m0 s n 0 [] magic refl (omega arith)) (
          rw (store-filled ch m0 s n 4 magic (le32 h) refl (omega (arith, length-le32 h))) (
            rw (store-filled ch m0 s n 8 d8 (le32 b) l8 (omega (arith, length-le32 b))) (
              rw (read_all {E = Error} vh) (
                rw (store-filled ch m0 s n 12 d12 (contents header) l12 (omega arith)) (
                  rw (store_body-filled ch m0 s n h b d body vb refl l (omega arith)) (
                    ap (λ x. flush ch (record m0 { send_buffer = filled n x }, s))
                      (layout lh lb))))))))
