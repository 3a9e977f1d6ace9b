-- ===== src/Tests/Promises.antt =====
-- The small operating system of the tests keeps what is documented of the calls.
use ez.Base.{
  ◌≤◌, ◌<◌, ◌≡◌, ◌∙◌, ◌∷◌, ◌++◌, ℕ, zero, suc, min, refl, sym, ap, none, some, List, arith, length,
  take, drop, length-take, take-append-drop,
}
use mathlib.Core.List.{Perm, cons-perm_iff_perm-erase}
use mathlib.Core.List.Perm
use mathlib.Core.Path.{subst}
use native.Mathlib.Decide.{ℕ_discrete}
use ez.Socket.Inbox.{IsInbox}
use ez.Socket.Owners.{IsTable}
use ez.Socket.Quiet.{IsStill}
use ez.Socket.Signals.{IsPatient}
use ez.Socket.Stream.{IsWire}
use ez.Socket.System.{returned, minus_one, stored, nothing_stored, eintr, Errno, Fd, Domain}
use ez.Tests.Machine.{Machine, machine, fresh, closed_one, unless_signal}

pub returned≢minus_one : {n : ℕ} {x : Errno} → returned n ≡ minus_one x → ⊥
returned≢minus_one q = cc

pub stored≢nothing : {bytes : List ℕ} {x : Errno} → stored bytes ≡ nothing_stored x → ⊥
stored≢nothing q = cc

-- What a call does, whether or not a signal comes.
signal_cases :
    {A : Type 0} (P : A × Machine → Type 0) (cut : A) (w : Machine) (r : A × Machine)
    → ((n : ℕ) → w.signals ≡ suc n → P (cut, record w { signals = n }))
    → P r
    → P (unless_signal cut w.signals w r)
signal_cases P cut w r interrupted_ plain = go w.signals refl
  where
    go : (n : ℕ) → w.signals ≡ n → P (unless_signal cut n w r)
    go zero e = plain
    go (suc n) e = interrupted_ n e

pub machine_takes :
    (w w' : Machine) (d : Fd) (bytes : List ℕ) (n : ℕ)
    → machine.send w d bytes ≡ (returned n, w')
    → (n ≤ length bytes) × (w'.wire ≡ w.wire ++ take n bytes)
machine_takes w w' d bytes n =
    signal_cases
      (λ r. r ≡ (returned n, w') → (n ≤ length bytes) × (w'.wire ≡ w.wire ++ take n bytes))
      (minus_one eintr) w _ (λ m s e. cc)
      λ e.
        let a : min 3 (length bytes) ≡ n = ground (arith, e) in
        let b : w.wire ++ take (min 3 (length bytes)) bytes ≡ w'.wire = ap (λ x. x.1.wire) e in
        (omega arith, sym b ∙ ap (λ m. w.wire ++ take m bytes) a)

pub machine_refuses :
    (w w' : Machine) (d : Fd) (bytes : List ℕ) (x : Errno)
    → machine.send w d bytes ≡ (minus_one x, w')
    → w'.wire ≡ w.wire
machine_refuses w w' d bytes x =
    signal_cases (λ r. r ≡ (minus_one x, w') → w'.wire ≡ w.wire) (minus_one eintr) w _
      (λ m s e. sym (ap (λ y. y.1.wire) e)) (λ e. cc)

abbrev pub machine_wire : IsWire machine
machine_wire = record {
  wire = λ w. w.wire;
  takes = machine_takes;
  refuses = machine_refuses;
  shuts = λ w d. refl;
  closes = closes;
}
  where
    closes : (w : Machine) (d : Fd) → (closed_one w d).wire ≡ w.wire
    closes w none = refl
    closes w (some d) = refl

pub machine_gives :
    (w w' : Machine) (d : Fd) (n : ℕ) (bytes : List ℕ)
    → machine.recv w d n ≡ (stored bytes, w')
    → (length bytes ≤ n) × (w.inbox ≡ bytes ++ w'.inbox)
machine_gives w w' d n bytes =
    signal_cases (λ r. r ≡ (stored bytes, w') → (length bytes ≤ n) × (w.inbox ≡ bytes ++ w'.inbox))
      (nothing_stored eintr) w _ (λ m s e. cc)
      λ e.
        let a : take n w.inbox ≡ bytes = stored_inj (ap (λ x. x.0) e) in
        let b : drop n w.inbox ≡ w'.inbox = ap (λ x. x.1.inbox) e in
        (rw⁻¹ a (fits w.inbox), rw⁻¹ (a, b) (sym (take-append-drop n w.inbox)))
  where
    fits : (xs : List ℕ) → length (take n xs) ≤ n
    fits xs = omega (arith, length-take n xs)

    stored_inj : {xs ys : List ℕ} → stored xs ≡ stored ys → xs ≡ ys
    stored_inj q = cc

pub machine_keeps :
    (w w' : Machine) (d : Fd) (n : ℕ) (x : Errno)
    → machine.recv w d n ≡ (nothing_stored x, w')
    → w'.inbox ≡ w.inbox
machine_keeps w w' d n x =
    signal_cases (λ r. r ≡ (nothing_stored x, w') → w'.inbox ≡ w.inbox) (nothing_stored eintr) w _
      (λ m s e. sym (ap (λ y. y.1.inbox) e)) (λ e. cc)

abbrev pub machine_inbox : IsInbox machine
machine_inbox = record { inbox = λ w d. w.inbox; gives = machine_gives; keeps = machine_keeps }

pub machine_fewer :
    {A : Type 0} (cut stop : A) (w w' : Machine) (a : A) (v : Machine)
    → ((a ≡ stop) → ⊥)
    → unless_signal cut w.signals w (a, v) ≡ (stop, w')
    → w'.signals < w.signals
machine_fewer cut stop w w' a v ne =
    signal_cases (λ r. r ≡ (stop, w') → w'.signals < w.signals) cut w (a, v)
      (λ m s e. rw s (omega (arith, ap (λ y. y.1.signals) e))) λ e. absurd (ne (ap (λ y. y.0) e))

abbrev pub machine_patient : IsPatient machine
machine_patient = record {
  signals = λ w. w.signals;
  sending = λ w w' d bytes x e i.
      machine_fewer (minus_one eintr) (minus_one x) w w' _ _ returned≢minus_one e;
  receiving = λ w w' d n x e i.
      machine_fewer (nothing_stored eintr) (nothing_stored x) w w' _ _ stored≢nothing e;
  accepting =
      λ w w' d x e i. machine_fewer (minus_one eintr) (minus_one x) w w' _ _ returned≢minus_one e;
}

pub machine-IsStill : IsStill machine (λ w. w.table)
machine-IsStill = record {
  bind = λ w d a. refl;
  listen = λ w d n. refl;
  connect = λ w d a. refl;
  send =
      λ w d bytes. signal_cases (λ r. r.1.table ≡ w.table) (minus_one eintr) w _ (λ n e. refl) refl;
  recv = λ w d n.
      signal_cases (λ r. r.1.table ≡ w.table) (nothing_stored eintr) w _ (λ n e. refl) refl;
  select = λ w d n. refl;
  pending_error = λ w d. refl;
  get_flags = λ w d. refl;
  set_flags = λ w d f. refl;
  set_option = λ w d o. refl;
  unlink = λ w path. refl;
  shutdown = λ w d. refl;
}

returned_inj : {m n : ℕ} → returned m ≡ returned n → m ≡ n
returned_inj q = cc

pub machine_accepted :
    (w w' : Machine) (d : Fd) (new : ℕ)
    → machine.accept w d ≡ (returned new, w')
    → Perm w'.table (new ∷ w.table)
machine_accepted w w' d new =
    signal_cases (λ r. r ≡ (returned new, w') → Perm w'.table (new ∷ w.table)) (minus_one eintr) w _
      (λ m s e. absurd (returned≢minus_one (sym (ap (λ y. y.0) e))))
      λ e.
        let a : fresh w ≡ new = returned_inj (ap (λ y. y.0) e) in
        let b : fresh w ∷ w.table ≡ w'.table = ap (λ y. y.1.table) e in
        rw⁻¹ (a, b) (Perm.refl (fresh w ∷ w.table))

pub machine_not_accepted :
    (w w' : Machine) (d : Fd) (x : Errno)
    → machine.accept w d ≡ (minus_one x, w')
    → w'.table ≡ w.table
machine_not_accepted w w' d x =
    signal_cases (λ r. r ≡ (minus_one x, w') → w'.table ≡ w.table) (minus_one eintr) w _
      (λ m s e. sym (ap (λ y. y.1.table) e)) (λ e. cc)

pub machine_made :
    (w w' : Machine) (domain : Domain) (d : ℕ)
    → machine.socket w domain ≡ (returned d, w')
    → Perm w'.table (d ∷ w.table)
machine_made w w' domain d e =
    let b : fresh w ∷ w.table ≡ w'.table = ap (λ y. y.1.table) e in
    rw⁻¹ b (
      subst (λ m. Perm (fresh w ∷ w.table) (m ∷ w.table)) (returned_inj (ap (λ y. y.0) e))
        (Perm.refl (fresh w ∷ w.table)))

abbrev pub machine_table : IsTable machine
machine_table = record {
  opened = λ w. w.table;
  still = machine-IsStill;
  distinct = λ w. w.distinct;
  made = machine_made;
  not_made = λ w w' domain x e. absurd (returned≢minus_one (ap (λ y. y.0) e));
  accepted = machine_accepted;
  not_accepted = machine_not_accepted;
  closes = λ w d rest p. Perm.symm ((cons-perm_iff_perm-erase ℕ_discrete).0 (Perm.symm p)).1;
}
