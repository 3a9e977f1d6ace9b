-- ===== src/Tls/Blocking.antt =====
-- source/tls.cpp over a channel that never says that it would block.
use ez.Base.{
  ◌≡◌, ◌≢◌, if◌then◌else◌, ℕ, suc, refl, sym, inl, inr, Bool-cases, Option, none, some, List, ltb,
  Outcome, ok, throws, fault,
}
use mathlib.Core.Path.{subst}
use ez.Channel.Monad.{follow}
use ez.Socket.Io.{Ssize, count, minus}
use ez.Tls.{
  Lower, Reply, done, want_pollin, want_pollout, minus_one, Callbacks, callbacks, Library, Failure,
  stuck, Op, send, after_write, recv_loop, after_read, impl_recv, read_cb, write_cb, answered,
  read_answer, write_answer, fail, tls_failure, raised,
}

-- Documented of the library: it wants to wait for the channel only where a callback said so, and it
-- changes the channel only by the callbacks. `P` is what they keep.
pub record IsHonest (ch : Lower) (lib : Library ch) : Type 1 where
  pub writing :
      (P : ch.State → Type 0) (cb : Callbacks ch)
      → ((s : ch.State) (n : ℕ) → P s → P (cb.read s n).1)
      → ((s : ch.State) (bytes : List ℕ)
          → P s
          → P (cb.write s bytes).1 × ((cb.write s bytes).0 ≢ ok want_pollout))
      → (c : Option lib.Context) (s : ch.State) (bytes : List ℕ) → P s
      → P (lib.tls_write cb c s bytes).1.1 × ((lib.tls_write cb c s bytes).0 ≢ ok want_pollout)
  pub reading :
      (P : ch.State → Type 0) (cb : Callbacks ch)
      → ((s : ch.State) (bytes : List ℕ) → P s → P (cb.write s bytes).1)
      → ((s : ch.State) (n : ℕ) → P s → P (cb.read s n).1 × ((cb.read s n).0 ≢ ok want_pollin))
      → (c : Option lib.Context) (s : ch.State) (n : ℕ) → P s
      → P (lib.tls_read cb c s n).1.1 × ((lib.tls_read cb c s n).0 ≢ ok want_pollin)

-- A channel that, where `P` holds, never says that it would block, and keeps `P`.
pub record Blocks (ch : Lower) (P : ch.State → Type 0) : Type 0 where
  pub sending :
      (s : ch.State) (bytes : List ℕ)
      → P s
      → P (ch.send s bytes).1 × ((n : ℕ) → (ch.send s bytes).0 ≢ ok (minus n))
  pub receiving :
      (s : ch.State) (n : ℕ) → P s → P (ch.recv s n).1 × ((c : ℕ) → (ch.recv s n).0 ≢ ok (minus c))

module _ (ch : Lower) where
  -- What is said at once: neither that it would block, nor that the fuel is used up.
  abbrev pub IsPlain : {A : Type 0} → Outcome (Failure ch) (Ssize A) → Type 0
  IsPlain r = ((n : ℕ) → r ≢ ok (minus n)) × (r ≢ throws stuck)

  kept_by :
      {A B : Type 0} (f : A → Reply B) (r : Outcome ch.Error A × ch.State)
      → (answered ch f r).1 ≡ r.1
  kept_by f (ok a, s) = refl
  kept_by f (throws e, s) = refl
  kept_by f (fault, s) = refl

  write_wants :
      (r : Outcome ch.Error (Ssize ℕ)) (s : ch.State)
      → ((n : ℕ) → r ≢ ok (minus n))
      → (answered ch (write_answer ch) (r, s)).0 ≢ ok want_pollout
  write_wants (ok (count n)) s never q = cc
  write_wants (ok (minus n)) s never q = never n refl
  write_wants (throws e) s never q = cc
  write_wants fault s never q = cc

  read_wants :
      (r : Outcome ch.Error (Ssize (List ℕ))) (s : ch.State)
      → ((n : ℕ) → r ≢ ok (minus n))
      → (answered ch (read_answer ch) (r, s)).0 ≢ ok want_pollin
  read_wants (ok (count n)) s never q = cc
  read_wants (ok (minus n)) s never q = never n refl
  read_wants (throws e) s never q = cc
  read_wants fault s never q = cc

module _ (ch : Lower) (P : ch.State → Type 0) (blocks : Blocks ch P) where
  write_cb-calm :
      (s : ch.State) (bytes : List ℕ)
      → P s
      → P (write_cb ch s bytes).1 × ((write_cb ch s bytes).0 ≢ ok want_pollout)
  unfolding write_cb
  write_cb-calm s bytes p =
      let b = blocks.sending s bytes p in
      (
        subst P (sym (kept_by ch (write_answer ch) (ch.send s bytes))) b.0,
        write_wants ch (ch.send s bytes).0 (ch.send s bytes).1 b.1,
      )

  read_cb-calm :
      (s : ch.State) (n : ℕ) → P s → P (read_cb ch s n).1 × ((read_cb ch s n).0 ≢ ok want_pollin)
  unfolding read_cb
  read_cb-calm s n p =
      let b = blocks.receiving s n p in
      (
        subst P (sym (kept_by ch (read_answer ch) (ch.recv s n))) b.0,
        read_wants ch (ch.recv s n).0 (ch.recv s n).1 b.1,
      )

  module _ (lib : Library ch) (honest : IsHonest ch lib) where
    fail-IsPlain :
        {A : Type 0} (x : Option lib.Context × ch.State)
        → IsPlain ch (fail ch lib {A = Ssize A} x).0
    fail-IsPlain {A} x = go (lib.tls_error x.0)
      where
        go : (o : Option (List ℕ)) → IsPlain ch {A = A} (throws (tls_failure ch lib o))
        go none = ((λ m q. cc), λ q. cc)
        go (some text) = ((λ m q. cc), λ q. cc)

    after_write-IsPlain :
        (again : Op ch lib (Ssize ℕ)) (r : Outcome ch.Error (Reply ℕ))
        (x : Option lib.Context × ch.State)
        → r ≢ ok want_pollout
        → IsPlain ch (follow (raised ch lib r, x) (after_write ch lib again)).0
    after_write-IsPlain again (ok (done n)) x ne = ((λ m q. cc), λ q. cc)
    after_write-IsPlain again (ok want_pollin) x ne = fail-IsPlain x
    after_write-IsPlain again (ok want_pollout) x ne = absurd (ne refl)
    after_write-IsPlain again (ok minus_one) x ne = fail-IsPlain x
    after_write-IsPlain again (throws e) x ne = ((λ m q. cc), λ q. cc)
    after_write-IsPlain again fault x ne = ((λ m q. cc), λ q. cc)

    after_read-IsPlain :
        (again : Op ch lib (Ssize (List ℕ))) (r : Outcome ch.Error (Reply (List ℕ)))
        (x : Option lib.Context × ch.State)
        → r ≢ ok want_pollin
        → IsPlain ch (follow (raised ch lib r, x) (after_read ch lib again)).0
    after_read-IsPlain again (ok (done n)) x ne = ((λ m q. cc), λ q. cc)
    after_read-IsPlain again (ok want_pollout) x ne = fail-IsPlain x
    after_read-IsPlain again (ok want_pollin) x ne = absurd (ne refl)
    after_read-IsPlain again (ok minus_one) x ne = fail-IsPlain x
    after_read-IsPlain again (throws e) x ne = ((λ m q. cc), λ q. cc)
    after_read-IsPlain again fault x ne = ((λ m q. cc), λ q. cc)

    pub send-IsPlain :
        (fuel : ℕ) (c : Option lib.Context) (s : ch.State) (bytes : List ℕ)
        → P s
        → IsPlain ch (send ch lib (suc fuel) bytes (c, s)).0
    unfolding send
    send-IsPlain fuel c s bytes p =
        let r = lib.tls_write (callbacks ch) c s bytes in
        after_write-IsPlain (send ch lib fuel bytes) r.0 r.1
          (honest.writing P (callbacks ch) (λ t n q. (read_cb-calm t n q).0) write_cb-calm c s bytes
            p).1

    pub recv-IsPlain :
        (fuel : ℕ) (c : Option lib.Context) (s : ch.State) (size desired : ℕ)
        → P s
        → IsPlain ch (impl_recv ch lib (suc fuel) size desired (c, s)).0
    unfolding impl_recv recv_loop
    recv-IsPlain fuel c s size desired p = elim (Bool-cases (ltb size desired)) [
      | inl b ↦ rw b ((λ m q. cc), λ q. cc)
      | inr b ↦
          let n = if ltb 0 desired then desired else size in
          let r = lib.tls_read (callbacks ch) c s n in
          rw b (
            after_read-IsPlain (recv_loop ch lib fuel size desired) r.0 r.1
              (honest.reading P (callbacks ch) (λ t l q. (write_cb-calm t l q).0) read_cb-calm c s n
                p).1)
    ]
