-- ===== src/Socket/Ownership.antt =====
-- The descriptors over the whole life of a process that uses sockets of source/socket.cpp.
use ez.Base.{
  ◌≡◌, ◌∷◌, ◌++◌, ◌∙◌, ℕ, zero, suc, refl, sym, ap, Option, none, some, List, [], get_elem?,
  Outcome, ok, throws, fault,
}
use mathlib.Core.List.{append-nil, append_assoc, Perm, perm_append_comm, Nodup}
use mathlib.Core.List.Perm
use mathlib.Core.Path.{subst}
use ez.Socket.{Socket, Error, Objects, move, close, destroy, from_fd}
use ez.Socket.Closing.{close_lem}
use ez.Socket.Io.{accept}
use ez.Socket.Owners.{IsTable, held, Owns, perform-Keeps, close-Keeps, accept-Owns, AcceptOwns}
use ez.Socket.Process.{
  Event, constructs, adopts, moves, destroys, accepts, acts, replaced, perform, Process, taken_in,
  on_socket, step, run,
}
use ez.Socket.System.{Kernel}

abbrev pub all_held : List Socket → List ℕ
all_held [] = []
all_held (s ∷ ss) = held s.fd ++ all_held ss

all_held-append : (ss ts : List Socket) → all_held (ss ++ ts) ≡ all_held ss ++ all_held ts
all_held-append [] ts = refl
all_held-append (s ∷ ss) ts =
    ap (λ x. held s.fd ++ x) (all_held-append ss ts)
    ∙ sym (append_assoc (held s.fd) (all_held ss) (all_held ts))

-- The descriptors from outside that sockets are made around, in their order.
abbrev pub adopted : List Event → List ℕ
adopted [] = []
adopted (adopts fd st ∷ es) = held fd ++ adopted es
adopted (e ∷ es) = adopted es

-- The descriptors beside those of the socket of this number.
abbrev others_of : List Socket → ℕ → List ℕ
others_of [] i = []
others_of (s ∷ ss) zero = all_held ss
others_of (s ∷ ss) (suc i) = held s.fd ++ others_of ss i

swapped : (xs ys zs : List ℕ) → Perm (xs ++ (ys ++ zs)) (ys ++ (xs ++ zs))
swapped xs ys zs =
    subst (λ l. Perm l (ys ++ (xs ++ zs))) (append_assoc xs ys zs)
      (subst (λ l. Perm ((xs ++ ys) ++ zs) l) (append_assoc ys xs zs)
        (Perm.append_right zs (perm_append_comm xs ys)))

split :
    (ss : List Socket) (i : ℕ) (s : Socket)
    → get_elem? ss i ≡ some s
    → Perm (all_held ss) (held s.fd ++ others_of ss i)
split [] i s e = cc
split (t ∷ ss) zero s e =
    subst (λ u. Perm (held t.fd ++ all_held ss) (held u.fd ++ all_held ss)) (some_inj e)
      (Perm.refl _)
  where
    some_inj : some t ≡ some s → t ≡ s
    some_inj q = cc
split (t ∷ ss) (suc i) s e =
    Perm.trans (Perm.append_left (held t.fd) (split ss i s e))
      (swapped (held t.fd) (held s.fd) (others_of ss i))

replaced-Perm :
    (ss : List Socket) (i : ℕ) (s : Socket) (ts : List Socket)
    → get_elem? ss i ≡ some s
    → Perm (all_held (replaced ss i ts)) (all_held ts ++ others_of ss i)
replaced-Perm [] i s ts e = cc
replaced-Perm (t ∷ ss) zero s ts e = rw (all_held-append ts ss) (Perm.refl _)
replaced-Perm (t ∷ ss) (suc i) s ts e =
    Perm.trans (Perm.append_left (held t.fd) (replaced-Perm ss i s ts e))
      (swapped (held t.fd) (all_held ts) (others_of ss i))

module _ (k : Kernel) (table : IsTable k) where
  -- The open descriptors are those of the sockets, and others that are not the sockets'.
  abbrev pub Owned : List ℕ → Process k → Type 0
  Owned others (ss, w) = Perm (table.opened w) (all_held ss ++ others)

  module _ (others : List ℕ) (ss : List Socket) (i : ℕ) (s : Socket)
      (e : get_elem? ss i ≡ some s) where
    abbrev rest : List ℕ
    rest = others_of ss i ++ others

    enter : (w : k.World) → Owned others (ss, w) → Owns k table rest (s, w)
    enter w h = Perm.trans h (
        subst (λ l. Perm (all_held ss ++ others) l)
          (append_assoc (held s.fd) (others_of ss i) others)
          (Perm.append_right others (split ss i s e)))

    leave :
        (ts : List Socket) (w : k.World)
        → Perm (table.opened w) (all_held ts ++ rest)
        → Owned others (replaced ss i ts, w)
    leave ts w h = Perm.trans h (
        Perm.symm (
          subst (λ l. Perm (all_held (replaced ss i ts) ++ others) l)
            (append_assoc (all_held ts) (others_of ss i) others)
            (Perm.append_right others (replaced-Perm ss i s ts e))))

    leave_one : (x : Objects k) → Owns k table rest x → Owned others (replaced ss i (x.0 ∷ []), x.1)
    leave_one (t, w) h = leave (t ∷ []) w (rw (append-nil (held t.fd)) h)

    taken_in-Owned :
        (r : Outcome Error Socket) (x : Objects k)
        → AcceptOwns k table rest (r, x)
        → Owned others (taken_in k i ss (r, x))
    taken_in-Owned (ok n) (t, w) h =
        leave (n ∷ t ∷ []) w
          (rw (append-nil (held t.fd), append_assoc (held n.fd) (held t.fd) rest) h)
    taken_in-Owned (throws x) y h = leave_one y h
    taken_in-Owned fault y h = leave_one y h

    moved-Owned :
        (w : k.World) → Owned others (ss, w) → Owned others (on_socket k (moves i) (some s) (ss, w))
    unfolding move
    moved-Owned w h =
        leave (s ∷ record s { fd = none } ∷ []) w (rw (append-nil (held s.fd)) (enter w h))

    destroyed-Owned :
        (w : k.World)
        → Owned others (ss, w)
        → Owned others (on_socket k (destroys i) (some s) (ss, w))
    unfolding destroy
    destroyed-Owned w h =
        let c : Owns k table rest (close k (s, w)).1 =
          close-Keeps k table (s, w) rest (enter w h) in
        leave [] (close k (s, w)).1.1
          (rw (close_lem k s w) (subst (Owns k table rest) (ap (λ r. r.1) (close_lem k s w)) c))

  -- What the event brings in from outside is the socket's from then on.
  step-Owned :
      (others : List ℕ) (ev : Event) (p : Process k)
      → Owned (adopted (ev ∷ []) ++ others) p
      → Owned others (step k ev p)
  unfolding step
  step-Owned others (adopts fd st) (ss, w) h =
      unfold from_fd in
      Perm.trans h (
        subst (λ l. Perm (all_held ss ++ ((held fd ++ []) ++ others)) l)
          (sym (append_assoc (held fd) (all_held ss) others))
          (rw (append-nil (held fd)) (swapped (all_held ss) (held fd) others)))
  step-Owned others constructs (ss, w) h = h
  step-Owned others (moves i) (ss, w) h = go (get_elem? ss i) refl
    where
      go : (o : Option Socket) → get_elem? ss i ≡ o → Owned others (on_socket k (moves i) o (ss, w))
      go none e = h
      go (some s) e = moved-Owned others ss i s e w h
  step-Owned others (destroys i) (ss, w) h = go (get_elem? ss i) refl
    where
      go :
          (o : Option Socket)
          → get_elem? ss i ≡ o
          → Owned others (on_socket k (destroys i) o (ss, w))
      go none e = h
      go (some s) e = destroyed-Owned others ss i s e w h
  step-Owned others (accepts i fuel) (ss, w) h = go (get_elem? ss i) refl
    where
      go :
          (o : Option Socket)
          → get_elem? ss i ≡ o
          → Owned others (on_socket k (accepts i fuel) o (ss, w))
      go none e = h
      go (some s) e =
          let r = accept k fuel (s, w) in
          taken_in-Owned others ss i s e r.0 r.1
            (accept-Owns k table fuel s w (others_of ss i ++ others) (enter others ss i s e w h))
  step-Owned others (acts i a) (ss, w) h = go (get_elem? ss i) refl
    where
      go :
          (o : Option Socket) → get_elem? ss i ≡ o → Owned others (on_socket k (acts i a) o (ss, w))
      go none e = h
      go (some s) e =
          leave_one others ss i s e (perform k a (s, w)).1
            (perform-Keeps k table a (s, w) (others_of ss i ++ others) (enter others ss i s e w h))

  adopted-cons : (e : Event) (es : List Event) → adopted (e ∷ es) ≡ adopted (e ∷ []) ++ adopted es
  adopted-cons constructs es = refl
  adopted-cons (adopts fd st) es = rw (append-nil (held fd)) refl
  adopted-cons (moves i) es = refl
  adopted-cons (destroys i) es = refl
  adopted-cons (accepts i fuel) es = refl
  adopted-cons (acts i a) es = refl

  run-Owned :
      (others : List ℕ) (es : List Event) (p : Process k)
      → Owned (adopted es ++ others) p
      → Owned others (run k es p)
  unfolding run
  run-Owned others [] p h = h
  run-Owned others (e ∷ es) p h =
      let regrouped : adopted (e ∷ es) ++ others ≡ adopted (e ∷ []) ++ (adopted es ++ others) =
        ap (λ l. l ++ others) (adopted-cons e es)
        ∙ append_assoc (adopted (e ∷ [])) (adopted es) others in
      run-Owned others es (step k e p)
        (step-Owned (adopted es ++ others) e p (subst (λ l. Owned l p) regrouped h))

  -- A process begins without sockets. It makes empty sockets, and sockets around descriptors that were
  -- open when it began, each of which it hands over at most once; it moves and destroys sockets,
  -- accepts with them and calls their other operations, in any order and whether the calls succeed or
  -- throw. At each moment its open descriptors are those of its sockets and those of the beginning that
  -- were not handed over, and no descriptor is there twice: none is left open behind a destroyed or a
  -- closed socket, no two sockets have the same one, and none that is not the socket's own is closed.
  pub run-descriptors :
      (es : List Event) (others : List ℕ) (w : k.World)
      → Perm (table.opened w) (adopted es ++ others)
      → let p = run k es ([], w) in
        Perm (table.opened p.1) (all_held p.0 ++ others) × Nodup (all_held p.0 ++ others)
  run-descriptors es others w begin =
      let h = run-Owned others es ([], w) begin in
      (h, Perm.nodup h (table.distinct (run k es ([], w)).1))
