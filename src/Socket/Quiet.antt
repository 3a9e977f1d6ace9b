-- ===== src/Socket/Quiet.antt =====
-- The parts of the operations of source/socket.cpp that keep the descriptor of the socket, and
-- something of the world that the calls in them do not change.
use ez.Base.{
  Outcome, u32, ◌≡◌, ◌∙◌, ◌==◌, if◌then◌else◌, ℕ, refl, Bool, true, false, Option, none, some, List,
}
use ez.Channel.Monad.{lift, ◌>>=◌, ◌>>◌}
use ez.Socket.{
  error, cant_bind, cant_listen, State, disconnected, connecting, connected, listening, Error,
  Objects, Op, fd, sys, effect, when_open, change_flags, flags_set, set_nonblocking, set_timeout,
  set_close_on_exec,
}
use ez.Socket.Ends.{Respects, IsPreorder, follow-Respects}
use ez.Socket.Setup.{
  fd_set, set_state, when, or_throw, share_address, bind_and_listen, socket_error, selected,
  after_connect, async_started, async_checked, async_in,
}
use ez.Socket.System.{
  would_block, Errno, Call, returned, minus_one, Fd, Flags, receive_timeout, send_timeout,
  reuse_address, reuse_port, Address, inet, Setting, Kernel,
}

-- The calls that leave `view` of the world as it is.
pub record IsStill (k : Kernel) {A : Type 0} (view : k.World → A) : Type 0 where
  pub bind : (w : k.World) (d : Fd) (a : Address) → view (k.bind w d a).1 ≡ view w
  pub listen : (w : k.World) (d : Fd) (n : ℕ) → view (k.listen w d n).1 ≡ view w
  pub connect : (w : k.World) (d : Fd) (a : Address) → view (k.connect w d a).1 ≡ view w
  pub send : (w : k.World) (d : Fd) (bytes : List ℕ) → view (k.send w d bytes).1 ≡ view w
  pub recv : (w : k.World) (d : Fd) (n : ℕ) → view (k.recv w d n).1 ≡ view w
  pub select : (w : k.World) (d : Fd) (n : ℕ) → view (k.select w d n).1 ≡ view w
  pub pending_error : (w : k.World) (d : Fd) → view (k.pending_error w d).1 ≡ view w
  pub get_flags : (w : k.World) (d : Fd) → view (k.get_flags w d).1 ≡ view w
  pub set_flags : (w : k.World) (d : Fd) (f : Flags) → view (k.set_flags w d f).1 ≡ view w
  pub set_option : (w : k.World) (d : Fd) (o : Setting) → view (k.set_option w d o) ≡ view w
  pub unlink : (w : k.World) (path : List ℕ) → view (k.unlink w path) ≡ view w
  pub shutdown : (w : k.World) (d : Fd) → view (k.shutdown w d) ≡ view w

module _ (k : Kernel) {V : Type 0} (view : k.World → V) where
  abbrev pub Quiet : Objects k → Objects k → Type 0
  Quiet x y = (y.0.fd ≡ x.0.fd) × (view y.1 ≡ view x.1)

  pub quiet-IsPreorder : IsPreorder Quiet
  quiet-IsPreorder = record { same = λ x. (refl, refl); then_ = λ p q. (q.0 ∙ p.0, q.1 ∙ p.1) }

  pub record IsQuiet {A : Type 0} (m : Op k A) : Type 0 where
    pub at : Respects Quiet m

  pub bind-IsQuiet :
      {A B : Type 0} (m : Op k A) (f : A → Op k B)
      → IsQuiet m
      → ((a : A) → IsQuiet (f a))
      → IsQuiet (m >>= f)
  bind-IsQuiet m f p q = record {
    at = λ x. follow-Respects quiet-IsPreorder x (m x) f (p.at x) λ a. (q a).at;
  }

  pub seq-IsQuiet :
      {B : Type 0} (m : Op k (Unit {0})) (n : Op k B) → IsQuiet m → IsQuiet n → IsQuiet (m >> n)
  seq-IsQuiet m n p q = record {
    at = λ x. follow-Respects quiet-IsPreorder x (m x) (λ _. n) (p.at x) λ _. q.at;
  }

  pub sys-IsQuiet :
      {A : Type 0} (f : k.World → Fd → A × k.World)
      → ((w : k.World) (d : Fd) → view (f w d).1 ≡ view w)
      → IsQuiet (sys k f)
  sys-IsQuiet f law = record { at = λ x. (refl, law x.1 x.0.fd) }

  pub effect-IsQuiet :
      (f : k.World → Fd → k.World)
      → ((w : k.World) (d : Fd) → view (f w d) ≡ view w)
      → IsQuiet (effect k f)
  effect-IsQuiet f law = record { at = λ x. (refl, law x.1 x.0.fd) }

  pub when_open-IsQuiet : (d : Fd) (m : Op k (Unit {0})) → IsQuiet m → IsQuiet (when_open k d m)
  when_open-IsQuiet none m p = record { at = λ x. (refl, refl) }
  when_open-IsQuiet (some d) m p = p

  pub if_IsQuiet :
      {A : Type 0} (b : Bool) (m n : Op k A) → IsQuiet m → IsQuiet n → IsQuiet (if b then m else n)
  if_IsQuiet true m n p q = p
  if_IsQuiet false m n p q = q

  module _ (still : IsStill k view) where
    pub state-IsQuiet : (st : State) → IsQuiet (set_state k st)
    state-IsQuiet st = record { at = λ x. (refl, refl) }

    option-IsQuiet : (o : Setting) → IsQuiet (effect k λ w d. k.set_option w d o)
    option-IsQuiet o = effect-IsQuiet (λ w d. k.set_option w d o) λ w d. still.set_option w d o

    bind-IsQuiet_at : (a : Address) → IsQuiet (sys k λ w d. k.bind w d a)
    bind-IsQuiet_at a = sys-IsQuiet (λ w d. k.bind w d a) λ w d. still.bind w d a

    listen-IsQuiet : (n : ℕ) → IsQuiet (sys k λ w d. k.listen w d n)
    listen-IsQuiet n = sys-IsQuiet (λ w d. k.listen w d n) λ w d. still.listen w d n

    pub connect-IsQuiet : (a : Address) → IsQuiet (sys k λ w d. k.connect w d a)
    connect-IsQuiet a = sys-IsQuiet (λ w d. k.connect w d a) λ w d. still.connect w d a

    select-IsQuiet : (n : ℕ) → IsQuiet (sys k λ w d. k.select w d n)
    select-IsQuiet n = sys-IsQuiet (λ w d. k.select w d n) λ w d. still.select w d n

    pub set_nonblocking-IsQuiet : (flag : Bool) → IsQuiet (set_nonblocking k flag)
    unfolding set_nonblocking
    set_nonblocking-IsQuiet flag =
        bind-IsQuiet (fd k) _ (record { at = λ x. (refl, refl) })
          λ d. when_open-IsQuiet d _ (
            bind-IsQuiet (sys k k.get_flags) (change_flags k flag)
              (sys-IsQuiet k.get_flags still.get_flags) changed)
      where
        set_ : (r : Call) → IsQuiet (flags_set k flag r)
        set_ (minus_one e) = (record { at = λ x. (refl, refl) })
        set_ (returned n) = (record { at = λ x. (refl, refl) })

        changed : (opts : Option Flags) → IsQuiet (change_flags k flag opts)
        changed none = (record { at = λ x. (refl, refl) })
        changed (some opts) =
            bind-IsQuiet (sys k λ w d. k.set_flags w d (record opts { nonblock = flag }))
              (flags_set k flag)
              (sys-IsQuiet (λ w d. k.set_flags w d (record opts { nonblock = flag }))
                λ w d. still.set_flags w d (record opts { nonblock = flag }))
              set_

    pub set_timeout-IsQuiet : (seconds : ℕ) → IsQuiet (set_timeout k seconds)
    unfolding set_timeout
    set_timeout-IsQuiet seconds =
        bind-IsQuiet (fd k) _ (record { at = λ x. (refl, refl) })
          λ d. when_open-IsQuiet d _ (
            seq-IsQuiet _ _ (option-IsQuiet (receive_timeout seconds))
              (option-IsQuiet (send_timeout seconds)))

    pub set_close_on_exec-IsQuiet : IsQuiet (set_close_on_exec k)
    unfolding set_close_on_exec
    set_close_on_exec-IsQuiet =
        bind-IsQuiet (fd k) _ (record { at = λ x. (refl, refl) })
          λ d. when_open-IsQuiet d _ (option-IsQuiet _)

    pub or_throw-IsQuiet : (e : Errno → Error) (r : Call) → IsQuiet (or_throw k e r)
    or_throw-IsQuiet e (returned n) = (record { at = λ x. (refl, refl) })
    or_throw-IsQuiet e (minus_one n) = (record { at = λ x. (refl, refl) })

    pub bind_call-IsQuiet :
        (a : Address) (e : Errno → Error)
        → IsQuiet (do r ← sys k λ w d. k.bind w d a; or_throw k e r)
    bind_call-IsQuiet a e = bind-IsQuiet _ _ (bind-IsQuiet_at a) (or_throw-IsQuiet e)

    pub bind_and_listen-IsQuiet :
        (a : Address) (max_clients : ℕ) → IsQuiet (bind_and_listen k a max_clients)
    bind_and_listen-IsQuiet a max_clients = bind-IsQuiet _ _ (bind-IsQuiet_at a) λ r.
        seq-IsQuiet _ _ (or_throw-IsQuiet (λ _. error cant_bind) r) (
          bind-IsQuiet _ _ (listen-IsQuiet (u32 max_clients))
            (or_throw-IsQuiet λ e. error (cant_listen e)))

    pub share-IsQuiet : (share : Bool) → IsQuiet (when k share (share_address k))
    share-IsQuiet true = seq-IsQuiet _ _ (option-IsQuiet reuse_address) (option-IsQuiet reuse_port)
    share-IsQuiet false = (record { at = λ x. (refl, refl) })

    pub socket_error-IsQuiet : (e : Option ℕ) → IsQuiet (socket_error k e)
    socket_error-IsQuiet none = (record { at = λ x. (refl, refl) })
    socket_error-IsQuiet (some n) =
        if_IsQuiet (n == 0) _ _ (record { at = λ x. (refl, refl) })
          (record { at = λ x. (refl, refl) })

    pub selected-IsQuiet : (r : Call) → IsQuiet (selected k r)
    selected-IsQuiet (minus_one e) = (record { at = λ x. (refl, refl) })
    selected-IsQuiet (returned n) =
        if_IsQuiet (n == 0) _ _ (record { at = λ x. (refl, refl) })
          (bind-IsQuiet _ _ (sys-IsQuiet k.pending_error still.pending_error) socket_error-IsQuiet)

    lift-IsQuiet : {A : Type 0} (r : Outcome Error A) → IsQuiet (lift r)
    lift-IsQuiet r = record { at = λ x. (refl, refl) }

    fd-IsQuiet : IsQuiet (fd k)
    fd-IsQuiet = record { at = λ x. (refl, refl) }

    pub after_connect-IsQuiet : (seconds : ℕ) (r : Call) → IsQuiet (after_connect k seconds r)
    after_connect-IsQuiet seconds (returned n) = (record { at = λ x. (refl, refl) })
    after_connect-IsQuiet seconds (minus_one e) =
        if_IsQuiet (would_block e) _ _
          (bind-IsQuiet _ _ (fd-IsQuiet) λ d. seq-IsQuiet _ _ (lift-IsQuiet (fd_set d)) (
            bind-IsQuiet _ _ (select-IsQuiet seconds)
              λ r. seq-IsQuiet _ _ (selected-IsQuiet r) (set_nonblocking-IsQuiet false)))
          (record { at = λ x. (refl, refl) })

    pub async_started-IsQuiet : (r : Call) → IsQuiet (async_started k r)
    async_started-IsQuiet (returned n) = (record { at = λ x. (refl, refl) })
    async_started-IsQuiet (minus_one e) =
        if_IsQuiet (would_block e) _ _ (record { at = λ x. (refl, refl) })
          (record { at = λ x. (refl, refl) })

    pub async_checked-IsQuiet : (e : Option ℕ) → IsQuiet (async_checked k e)
    async_checked-IsQuiet none = (record { at = λ x. (refl, refl) })
    async_checked-IsQuiet (some n) =
        if_IsQuiet (n == 0) _ _ (record { at = λ x. (refl, refl) })
          (record { at = λ x. (refl, refl) })

    pub async_in-IsQuiet : (st : State) (address port : ℕ) → IsQuiet (async_in k st address port)
    async_in-IsQuiet disconnected address port = seq-IsQuiet _ _ (set_nonblocking-IsQuiet true) (
        seq-IsQuiet _ _ (state-IsQuiet connecting)
          (bind-IsQuiet _ _ (connect-IsQuiet (inet address port)) async_started-IsQuiet))
    async_in-IsQuiet connecting address port =
        bind-IsQuiet _ _ (sys-IsQuiet k.pending_error still.pending_error) async_checked-IsQuiet
    async_in-IsQuiet connected address port = (record { at = λ x. (refl, refl) })
    async_in-IsQuiet listening address port = (record { at = λ x. (refl, refl) })
