-- ===== src/Tests/Machine.antt =====
-- A small operating system for the tests of source/socket.cpp: it opens descriptors, takes at most
-- three bytes at a time, gives what arrived, and interrupts some calls by signals.
use ez.Base.{
  ◌+◌, ◌<◌, ◌∷◌, ◌++◌, ℕ, zero, suc, min, false, none, some, List, [], arith, length, take, drop,
}
use mathlib.Core.List.{
  Mem, not-mem-nil, eq-or-mem_of_mem-cons, Nodup, Nodup-cons, erase-sublist, erase,
}
use mathlib.Core.List.Nodup
use mathlib.Core.Logic.Or
use mathlib.Core.HLevel.{⊥_prop}
use native.Mathlib.Decide.{ℕ_discrete}
use ez.Socket.System.{returned, minus_one, stored, nothing_stored, eintr, einprogress, Fd, Kernel}

abbrev pub total : List ℕ → ℕ
total [] = 0
total (x ∷ xs) = x + total xs

pub large_not_in : (xs : List ℕ) (d : ℕ) → total xs < d → Mem d xs → ⊥
large_not_in [] d lt m = not-mem-nil m
large_not_in (x ∷ xs) d lt m =
    Or.elim ⊥_prop (eq-or-mem_of_mem-cons m) (λ e. absurd (omega (arith, e)))
      (large_not_in xs d (omega arith))

-- The open descriptors, what was sent, what arrived, and how many signals are still to come.
pub record Machine : Type 0 where
  pub table : List ℕ
  pub distinct : Nodup table
  pub wire : List ℕ
  pub inbox : List ℕ
  pub signals : ℕ

abbrev pub fresh : Machine → ℕ
fresh w = suc (total w.table)

abbrev pub opened_one : Machine → Machine
opened_one w = record w {
  table = fresh w ∷ w.table;
  distinct = Nodup-cons.1 (large_not_in w.table (fresh w) (omega arith), w.distinct);
}

abbrev pub closed_one : Machine → Fd → Machine
closed_one w none = w
closed_one w (some d) = record w {
  table = erase ℕ_discrete w.table d;
  distinct = Nodup.sublist (erase-sublist ℕ_discrete d) w.distinct;
}

-- A call that a signal interrupts, while signals are to come.
abbrev pub unless_signal : {A : Type 0} → A → ℕ → Machine → A × Machine → A × Machine
unless_signal cut zero w r = r
unless_signal cut (suc n) w r = (cut, record w { signals = n })

abbrev pub machine : Kernel
machine = record {
  World = Machine;
  socket = λ w domain. (returned (fresh w), opened_one w);
  accept = λ w d. unless_signal (minus_one eintr) w.signals w (returned (fresh w), opened_one w);
  bind = λ w d a. (returned 0, w);
  listen = λ w d n. (returned 0, w);
  connect = λ w d a. (minus_one einprogress, w);
  send = λ w d bytes. unless_signal (minus_one eintr) w.signals w (
    returned (min 3 (length bytes)),
    record w { wire = w.wire ++ take (min 3 (length bytes)) bytes },
  );
  recv = λ w d n.
      unless_signal (nothing_stored eintr) w.signals w
        (stored (take n w.inbox), record w { inbox = drop n w.inbox });
  select = λ w d n. (returned 1, w);
  pending_error = λ w d. (some 0, w);
  get_flags = λ w d. (some (record { nonblock = false; rest = 2 }), w);
  set_flags = λ w d f. (returned 0, w);
  set_option = λ w d o. w;
  unlink = λ w path. w;
  waiting = λ w d. some (length w.inbox);
  shutdown = λ w d. w;
  close = closed_one;
}
