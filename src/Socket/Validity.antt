-- ===== src/Socket/Validity.antt =====
-- What holds of a socket of source/socket.cpp that was not moved away, whatever was called on it.
use ez.Base.{◌≡◌, ◌∙◌, ◌≢◌, ℕ, refl, sym, none, some}
use ez.Channel.Monad.{follow}
use ez.Socket.{
  Socket, disconnected, Objects, Op, close, set_nonblocking, set_timeout, set_close_on_exec,
}
use ez.Socket.Closers.{IsCloser}
use ez.Socket.Closing.{close_lem}
use ez.Socket.Ends.{IsPreorder, Respects}
use ez.Socket.Performing.{IsActor, perform-R}
use ez.Socket.Process.{Action, perform}
use ez.Socket.Quiet.{
  set_nonblocking-IsQuiet, set_timeout-IsQuiet, set_close_on_exec-IsQuiet, IsQuiet, IsStill,
}
use ez.Socket.Setup.{open_fd, created}
use ez.Socket.System.{Call, returned, minus_one, Fd, Domain, Kernel}

-- A socket without a descriptor is disconnected.
abbrev pub IsSound : Socket → Type 0
IsSound s = s.fd ≡ none → s.state ≡ disconnected

module _ (k : Kernel) where
  abbrev pub nothing_seen : k.World → Unit {0}
  nothing_seen w = tt

  pub still : IsStill k nothing_seen
  still = record {
    bind = λ w d a. refl;
    listen = λ w d n. refl;
    connect = λ w d a. refl;
    send = λ w d bytes. refl;
    recv = λ w d n. refl;
    select = λ w d n. refl;
    pending_error = λ w d. refl;
    get_flags = λ w d. refl;
    set_flags = λ w d f. refl;
    set_option = λ w d o. refl;
    unlink = λ w path. refl;
    shutdown = λ w d. refl;
  }

  abbrev Stays : Objects k → Objects k → Type 0
  Stays x y = IsSound x.0 → IsSound y.0

  Stays-IsPreorder : IsPreorder Stays
  Stays-IsPreorder = record { same = λ x p. p; then_ = λ p q h. q (p h) }

  close-Stays : Respects Stays (close k)
  close-Stays (s, w) h = rw (close_lem k s w) (λ e. refl)

  closer : IsCloser k nothing_seen Stays
  closer = record {
    preorder = Stays-IsPreorder;
    untouched = λ s w w' e h. h;
    closing = close-Stays;
  }

  some≢none : (d : ℕ) → some d ≢ none
  some≢none d e = cc

  -- With a descriptor, the state may be any.
  has_fd :
      (m : Op k (Unit {0})) (d : ℕ) (y : Objects k)
      → IsQuiet k nothing_seen m
      → y.0.fd ≡ some d
      → IsSound (m y).1.0
  has_fd m d y q e z = absurd (some≢none d (sym e ∙ sym (q.at y).0 ∙ z))

  created-Stays :
      (tail : Op k (Unit {0})) (s : Socket) (w' w : k.World) (r : Call)
      → IsQuiet k nothing_seen tail
      → Stays (s, w) (follow (created k r (s, w')) (λ _. tail)).1
  created-Stays tail s w' w (returned d) q h = has_fd tail d (record s { fd = some d }, w') q refl
  created-Stays tail s w' w (minus_one x) q h = h

  opening-Stays :
      (domain : Domain) (tail : Op k (Unit {0})) (x : Objects k)
      → IsQuiet k nothing_seen tail
      → Stays x (follow (open_fd k domain x.0.fd x) (λ _. tail)).1
  opening-Stays domain tail (s, w) q = go s.fd refl
    where
      go : (f : Fd) → s.fd ≡ f → Stays (s, w) (follow (open_fd k domain f (s, w)) (λ _. tail)).1
      go (some d) e = λ h. has_fd tail d (s, w) q e
      go none e = created-Stays tail s (k.socket w domain).1 w (k.socket w domain).0 q

  -- What does nothing without a descriptor, and keeps the one that is there.
  configuring-Stays :
      (m : Op k (Unit {0}))
      → IsQuiet k nothing_seen m
      → ((x : Objects k) → x.0.fd ≡ none → (m x).1.0.state ≡ x.0.state)
      → Respects Stays m
  configuring-Stays m q idle x h = go x.0.fd refl
    where
      go : (f : Fd) → x.0.fd ≡ f → IsSound (m x).1.0
      go (some d) e = has_fd m d x q e
      go none e = λ z. idle x e ∙ h e

  actor : IsActor k nothing_seen Stays
  unfolding set_nonblocking set_timeout set_close_on_exec
  actor = record {
    closer = closer;
    opening = opening-Stays;
    flags = λ flag.
        configuring-Stays (set_nonblocking k flag)
          (set_nonblocking-IsQuiet k nothing_seen still flag) λ x e. rw e refl;
    timeouts = λ seconds.
        configuring-Stays (set_timeout k seconds) (set_timeout-IsQuiet k nothing_seen still seconds)
          λ x e. rw e refl;
    on_exec =
        configuring-Stays (set_close_on_exec k) (set_close_on_exec-IsQuiet k nothing_seen still)
          λ x e. rw e refl;
  }

  -- One operation other than `accept` on one socket.
  pub perform-IsSound :
      (a : Action) (s : Socket) (w : k.World) → IsSound s → IsSound (perform k a (s, w)).1.0
  perform-IsSound a s w h = perform-R k nothing_seen still Stays actor a (s, w) h
