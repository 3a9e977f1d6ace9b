-- ===== src/Socket/Owners.antt =====
-- The descriptors of the sockets of a process. Each open descriptor of source/socket.cpp belongs to
-- one socket, which closes it: none is closed by another socket, and none is forgotten.
use ez.Base.{
  ◌≡◌, ◌∷◌, ◌++◌, ℕ, zero, suc, refl, inl, inr, Bool, true, false, Bool-cases, none, some, List, [],
  Outcome, ok, throws, fault,
}
use mathlib.Core.List.Perm
use mathlib.Core.List.{Perm, Nodup}
use mathlib.Core.Path.{subst}
use ez.Channel.Monad.{follow}
use ez.Socket.{
  Socket, Error, error, again_on_blocking, new, from_fd, Objects, Op, close, same_state, listening,
  set_nonblocking, set_timeout, set_close_on_exec,
}
use ez.Socket.Closing.{shut, close_lem}
use ez.Socket.Ends.{IsPreorder, Respects, follow-Respects}
use ez.Socket.Closers.{IsCloser}
use ez.Socket.Performing.{IsActor, perform-R}
use ez.Socket.Io.{accept, accept_loop, after_accept, would_have_to_wait}
use ez.Socket.Process.{Action, perform}
use ez.Socket.Quiet.{
  set_nonblocking-IsQuiet, set_timeout-IsQuiet, set_close_on_exec-IsQuiet, Quiet, IsQuiet, IsStill,
}
use ez.Socket.Setup.{open_fd, created}
use ez.Socket.System.{
  would_block, interrupted, Errno, Call, returned, minus_one, Fd, Domain, Kernel,
}

-- What is documented of the descriptors of a process: `socket` and `accept` open one, `close`
-- closes one, and the other calls do neither.
pub record IsTable (k : Kernel) : Type 0 where
  pub opened : k.World → List ℕ
  pub still : IsStill k opened
  pub distinct : (w : k.World) → Nodup (opened w)
  pub made :
      (w w' : k.World) (domain : Domain) (d : ℕ)
      → k.socket w domain ≡ (returned d, w')
      → Perm (opened w') (d ∷ opened w)
  pub not_made :
      (w w' : k.World) (domain : Domain) (e : Errno)
      → k.socket w domain ≡ (minus_one e, w')
      → opened w' ≡ opened w
  pub accepted :
      (w w' : k.World) (d : Fd) (new : ℕ)
      → k.accept w d ≡ (returned new, w')
      → Perm (opened w') (new ∷ opened w)
  pub not_accepted :
      (w w' : k.World) (d : Fd) (e : Errno)
      → k.accept w d ≡ (minus_one e, w')
      → opened w' ≡ opened w
  pub closes :
      (w : k.World) (d : ℕ) (rest : List ℕ)
      → Perm (opened w) (d ∷ rest)
      → Perm (opened (k.close w (some d))) rest

abbrev pub held : Fd → List ℕ
held none = []
held (some d) = d ∷ []

module _ (k : Kernel) (table : IsTable k) where
  -- The open descriptors are that of the socket and those of others.
  abbrev pub Owns : List ℕ → Objects k → Type 0
  Owns others (s, w) = Perm (table.opened w) (held s.fd ++ others)

  abbrev pub Keeps : Objects k → Objects k → Type 0
  Keeps x y = (others : List ℕ) → Owns others x → Owns others y

  pub Keeps-IsPreorder : IsPreorder Keeps
  Keeps-IsPreorder = record {
    same = λ x others p. p;
    then_ = λ p q others h. q others (p others h);
  }

  pub quiet-Keeps : (x y : Objects k) → Quiet k table.opened x y → Keeps x y
  quiet-Keeps x y (same_fd, same_table) others h = rw (same_fd, same_table) h

  pub close-Keeps : Respects Keeps (close k)
  close-Keeps (s, w) others h = rw (close_lem k s w) (go s.fd h)
    where
      go :
          (d : Fd)
          → Perm (table.opened w) (held d ++ others)
          → Perm (table.opened (shut k d w)) others
      go none p = p
      go (some d) p =
          table.closes (k.shutdown w (some d)) d others (rw (table.still.shutdown w (some d)) p)

  created-Keeps :
      (s : Socket) (w w' : k.World) (domain : Domain) (r : Call)
      → s.fd ≡ none
      → k.socket w domain ≡ (r, w')
      → Keeps (s, w) (created k r (s, w')).1
  created-Keeps s w w' domain (returned d) nothing e others h =
      let p : Perm (table.opened w) others =
        subst (λ f. Perm (table.opened w) (held f ++ others)) nothing h in
      Perm.trans (table.made w w' domain d e) (Perm.cons d p)
  created-Keeps s w w' domain (minus_one x) nothing e others h =
      rw (table.not_made w w' domain x e) h

  pub open_fd-Keeps :
      (domain : Domain) (s : Socket) (w : k.World) → Keeps (s, w) (open_fd k domain s.fd (s, w)).1
  open_fd-Keeps domain s w = go s.fd refl
    where
      go : (d : Fd) → s.fd ≡ d → Keeps (s, w) (open_fd k domain d (s, w)).1
      go (some d) e = λ others h. h
      go none e = created-Keeps s w (k.socket w domain).1 domain (k.socket w domain).0 e refl

  -- Opening the descriptor if there is none, and going on with what keeps it.
  pub opening-Keeps :
      (domain : Domain) (tail : Op k (Unit {0})) (x : Objects k)
      → IsQuiet k table.opened tail
      → Keeps x (follow (open_fd k domain x.0.fd x) (λ _. tail)).1
  opening-Keeps domain tail (s, w) q =
      follow-Respects Keeps-IsPreorder (s, w) (open_fd k domain s.fd (s, w)) (λ _. tail)
        (open_fd-Keeps domain s w) λ _ y. quiet-Keeps y (tail y).1 (q.at y)

  closer : IsCloser k table.opened Keeps
  closer = record {
    preorder = Keeps-IsPreorder;
    untouched = λ s w w' e. quiet-Keeps (s, w) (s, w') (refl, e);
    closing = close-Keeps;
  }

  actor : IsActor k table.opened Keeps
  actor = record {
    closer = closer;
    opening = opening-Keeps;
    flags = λ flag x.
        quiet-Keeps x (set_nonblocking k flag x).1
          ((set_nonblocking-IsQuiet k table.opened table.still flag).at x);
    timeouts = λ seconds x.
        quiet-Keeps x (set_timeout k seconds x).1
          ((set_timeout-IsQuiet k table.opened table.still seconds).at x);
    on_exec = λ x.
        quiet-Keeps x (set_close_on_exec k x).1
          ((set_close_on_exec-IsQuiet k table.opened table.still).at x);
  }

  -- Whatever is called on a socket, and however it ends, the open descriptors are afterwards that of
  -- the socket and those of others, if they were so before.
  pub perform-Keeps : (a : Action) → Respects Keeps (perform k a)
  perform-Keeps = perform-R k table.opened table.still Keeps actor

  -- What `accept` leaves: the descriptor of the socket made, that of the old one, and those of others.
  abbrev pub AcceptOwns : List ℕ → Outcome Error Socket × Objects k → Type 0
  AcceptOwns others (ok n, (s, w)) = Perm (table.opened w) (held n.fd ++ (held s.fd ++ others))
  AcceptOwns others (throws e, x) = Owns others x
  AcceptOwns others (fault, x) = Owns others x

  wait-AcceptOwns :
      (others : List ℕ) (x : Objects k)
      → Owns others x
      → AcceptOwns others (would_have_to_wait k new (error again_on_blocking) x)
  wait-AcceptOwns others (s, w) h = go s.nonblocking refl
    where
      go :
          (b : Bool)
          → s.nonblocking ≡ b
          → AcceptOwns others (would_have_to_wait k new (error again_on_blocking) (s, w))
      go true e = rw e h
      go false e = rw e h

  after_accept-Owns :
      (again : Op k Socket) (s : Socket) (w w' : k.World) (r : Call) (others : List ℕ)
      → k.accept w s.fd ≡ (r, w')
      → Owns others (s, w)
      → (Owns others (s, w') → AcceptOwns others (again (s, w')))
      → AcceptOwns others (after_accept k again r (s, w'))
  unfolding from_fd
  after_accept-Owns again s w w' (returned d) others e h more =
      Perm.trans (table.accepted w w' s.fd d e) (Perm.cons d h)
  after_accept-Owns again s w w' (minus_one x) others e h more =
      let same : Owns others (s, w') = rw (table.not_accepted w w' s.fd x e) h in
      elim (Bool-cases (would_block x)) [
        | inl b ↦ rw b (wait-AcceptOwns others (s, w') same)
        | inr b ↦ elim (Bool-cases (interrupted x)) [
          | inl i ↦ rw (b, i) (more same)
          | inr i ↦ rw (b, i) same
        ]
      ]

  accept_loop-Owns :
      (fuel : ℕ) (s : Socket) (w : k.World) (others : List ℕ)
      → Owns others (s, w)
      → AcceptOwns others (accept_loop k fuel (s, w))
  unfolding accept_loop
  accept_loop-Owns zero s w others h = h
  accept_loop-Owns (suc fuel) s w others h =
      let (r, w') = k.accept w s.fd in
      after_accept-Owns (accept_loop k fuel) s w w' r others refl h
        λ h'. accept_loop-Owns fuel s w' others h'

  pub accept-Owns :
      (fuel : ℕ) (s : Socket) (w : k.World) (others : List ℕ)
      → Owns others (s, w)
      → AcceptOwns others (accept k fuel (s, w))
  unfolding accept
  accept-Owns fuel s w others h = elim (Bool-cases (same_state s.state listening)) [
    | inl b ↦ rw b (accept_loop-Owns fuel s w others h)
    | inr b ↦ rw b h
  ]
