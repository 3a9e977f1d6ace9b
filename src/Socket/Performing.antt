-- ===== src/Socket/Performing.antt =====
-- What a relation between the objects before and after needs, to hold of every call on one socket of
-- source/socket.cpp.
use ez.Base.{◌+◌, ◌==◌, ℕ, not, refl, Bool, true, false, Outcome}
use ez.Channel.Monad.{follow, lift, gets}
use ez.Socket.{
  Error, runtime_error, cant_bind, connecting, listening, Objects, Op, assign, set_nonblocking,
  set_timeout, set_close_on_exec,
}
use ez.Socket.Closers.{IsCloser, send-R, recv-R}
use ez.Socket.Ends.{Respects, follow-Respects}
use ez.Socket.Io.{send, recv}
use ez.Socket.Process.{
  Action, closes, sets_nonblocking, sets_timeout, sets_close_on_exec, sends, receives, listens,
  listens_unix, connects, connects_unix, connects_async, void, perform,
}
use ez.Socket.Quiet.{
  IsQuiet, IsStill, bind-IsQuiet, seq-IsQuiet, state-IsQuiet, share-IsQuiet,
  bind_and_listen-IsQuiet, bind_call-IsQuiet, connect-IsQuiet, after_connect-IsQuiet,
  set_nonblocking-IsQuiet, async_in-IsQuiet, effect-IsQuiet,
}
use ez.Socket.Setup.{
  open_fd, when, listen, listen_unix, connect, connect_unix, connect_async, path_size, sun_path,
  c_string,
}
use ez.Socket.System.{af_inet, af_unix, inet, unix, Domain, Kernel}

pub record IsActor (k : Kernel) {V : Type 0} (view : k.World → V)
    (R : Objects k → Objects k → Type 0) : Type 0 where
  pub closer : IsCloser k view R
  pub opening :
      (domain : Domain) (tail : Op k (Unit {0})) (x : Objects k)
      → IsQuiet k view tail
      → R x (follow (open_fd k domain x.0.fd x) (λ _. tail)).1
  pub flags : (flag : Bool) → Respects R (set_nonblocking k flag)
  pub timeouts : (seconds : ℕ) → Respects R (set_timeout k seconds)
  pub on_exec : Respects R (set_close_on_exec k)

module _ (k : Kernel) {V : Type 0} (view : k.World → V) (still : IsStill k view)
    (R : Objects k → Objects k → Type 0) (c : IsActor k view R) where
  void-R : {A : Type 0} (m : Op k A) → Respects R m → Respects R (void k m)
  void-R m p x = follow-Respects c.closer.preorder x (m x) _ (p x) λ _. c.closer.preorder.same

  lift-IsQuiet : {A : Type 0} (r : Outcome Error A) → IsQuiet k view (lift r)
  lift-IsQuiet r = record { at = λ x. (refl, refl) }

  bound-IsQuiet : (b : Bool) (m : Op k (Unit {0})) → IsQuiet k view m → IsQuiet k view (when k b m)
  bound-IsQuiet true m q = q
  bound-IsQuiet false m q = record { at = λ x. (refl, refl) }

  pub perform-R : (a : Action) → Respects R (perform k a)
  unfolding perform listen listen_unix connect connect_unix connect_async
  perform-R closes = c.closer.closing
  perform-R (sets_nonblocking flag) = c.flags flag
  perform-R (sets_timeout seconds) = c.timeouts seconds
  perform-R sets_close_on_exec = c.on_exec
  perform-R (sends fuel bytes) =
      void-R (send k fuel bytes) (send-R k view still R c.closer fuel bytes)
  perform-R (receives fuel size desired) =
      void-R (recv k fuel size desired) (recv-R k view still R c.closer fuel size desired)
  perform-R (listens address port max_clients share) = λ x. c.opening af_inet _ x (
      seq-IsQuiet k view _ _ (share-IsQuiet k view still share) (
        seq-IsQuiet k view _ _
          (bind_and_listen-IsQuiet k view still (inet address port) max_clients)
          (seq-IsQuiet k view (assign k λ s. record s { port = port }) _
            (record { at = λ x. (refl, refl) }) (state-IsQuiet k view still listening))))
  perform-R (listens_unix path max_clients share) = λ x. c.opening af_unix _ x (
      seq-IsQuiet k view _ _ (share-IsQuiet k view still share) (
        bind-IsQuiet k view _ _ (lift-IsQuiet (sun_path path)) λ area.
          bind-IsQuiet k view _ _ (lift-IsQuiet (c_string area)) λ name.
            seq-IsQuiet k view _ _
              (effect-IsQuiet k view (λ w d. k.unlink w name) λ w d. still.unlink w name)
              (seq-IsQuiet k view _ _
                (bind_and_listen-IsQuiet k view still (unix area (path_size path + 2)) max_clients)
                (state-IsQuiet k view still listening))))
  perform-R (connects address port seconds bind_to) = λ x. c.opening af_inet _ x (
      seq-IsQuiet k view _ _
        (bound-IsQuiet (not (bind_to == 0)) _
          (bind_call-IsQuiet k view still (inet bind_to 0) λ _. runtime_error cant_bind))
        (seq-IsQuiet k view _ _ (set_nonblocking-IsQuiet k view still true) (
          seq-IsQuiet k view _ _ (state-IsQuiet k view still connecting) (
            bind-IsQuiet k view _ _ (connect-IsQuiet k view still (inet address port))
              (after_connect-IsQuiet k view still seconds)))))
  perform-R (connects_unix path seconds) = λ x. c.opening af_unix _ x (
      seq-IsQuiet k view _ _ (set_nonblocking-IsQuiet k view still true) (
        bind-IsQuiet k view _ _ (lift-IsQuiet (sun_path path)) λ area.
          bind-IsQuiet k view _ _ (connect-IsQuiet k view still (unix area 110))
            (after_connect-IsQuiet k view still seconds)))
  perform-R (connects_async address port bind_to) = λ x. c.opening af_inet _ x (
      bind-IsQuiet k view (gets λ x. x.0.state) _ (record { at = λ x. (refl, refl) })
        λ st. async_in-IsQuiet k view still st address port)
