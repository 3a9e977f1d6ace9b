-- ===== src/Socket/Process.antt =====
-- A process that makes, uses, moves and destroys sockets of source/socket.cpp in any order.
use ez.Base.{
  ◌++◌, ◌∷◌, ℕ, zero, suc, Bool, Option, none, some, List, [], get_elem?, Outcome, ok, throws,
  fault,
}
use ez.Channel.Monad.{◌>>=◌, pure}
use ez.Socket.{
  Socket, Error, Objects, Op, State, new, from_fd, move, close, destroy, set_nonblocking,
  set_timeout, set_close_on_exec,
}
use ez.Socket.Io.{send, recv, accept}
use ez.Socket.Setup.{listen, listen_unix, connect, connect_unix, connect_async}
use ez.Socket.System.{Fd, Kernel}

-- What is called on one socket, with its arguments (and the fuel of the loop).
pub data Action : Type 0 where
  closes : Action
  sets_nonblocking : Bool → Action
  sets_timeout : (seconds : ℕ) → Action
  sets_close_on_exec : Action
  sends : (fuel : ℕ) (bytes : List ℕ) → Action
  receives : (fuel size desired : ℕ) → Action
  listens : (address port max_clients : ℕ) (share : Bool) → Action
  listens_unix : (path : List ℕ) (max_clients : ℕ) (share : Bool) → Action
  connects : (address port seconds bind_to : ℕ) → Action
  connects_unix : (path : List ℕ) (seconds : ℕ) → Action
  connects_async : (address port bind_to : ℕ) → Action

-- `adopts` is the constructor of a socket around a descriptor that is given.
pub data Event : Type 0 where
  constructs : Event
  adopts : (fd : Fd) (state : State) → Event
  moves destroys : (i : ℕ) → Event
  accepts : (i fuel : ℕ) → Event
  acts : (i : ℕ) → Action → Event

-- The sockets with others in the place of one.
abbrev pub replaced : List Socket → ℕ → List Socket → List Socket
replaced [] i others = []
replaced (s ∷ ss) zero others = others ++ ss
replaced (s ∷ ss) (suc i) others = s ∷ replaced ss i others

module _ (k : Kernel) where
  abbrev pub void : {A : Type 0} → Op k A → Op k (Unit {0})
  void m = m >>= λ _. pure tt

  unfoldable pub perform : Action → Op k (Unit {0})
  perform closes = close k
  perform (sets_nonblocking flag) = set_nonblocking k flag
  perform (sets_timeout seconds) = set_timeout k seconds
  perform sets_close_on_exec = set_close_on_exec k
  perform (sends fuel bytes) = void (send k fuel bytes)
  perform (receives fuel size desired) = void (recv k fuel size desired)
  perform (listens address port max_clients share) = listen k address port max_clients share
  perform (listens_unix path max_clients share) = listen_unix k path max_clients share
  perform (connects address port seconds bind_to) = connect k address port seconds bind_to
  perform (connects_unix path seconds) = connect_unix k path seconds
  perform (connects_async address port bind_to) = connect_async k address port bind_to

  abbrev pub Process : Type 0
  Process = List Socket × k.World

  abbrev pub acted : ℕ → List Socket → Outcome Error (Unit {0}) × Objects k → Process
  acted i ss (r, (s, w)) = (replaced ss i (s ∷ []), w)

  abbrev pub taken_in : ℕ → List Socket → Outcome Error Socket × Objects k → Process
  taken_in i ss (ok n, (s, w)) = (replaced ss i (n ∷ s ∷ []), w)
  taken_in i ss (throws e, (s, w)) = (replaced ss i (s ∷ []), w)
  taken_in i ss (fault, (s, w)) = (replaced ss i (s ∷ []), w)

  abbrev pub on_socket : Event → Option Socket → Process → Process
  on_socket e none p = p
  on_socket constructs (some s) p = p
  on_socket (adopts fd st) (some s) p = p
  on_socket (moves i) (some s) (ss, w) =
      let (made, right) = move s in (replaced ss i (made ∷ right ∷ []), w)
  on_socket (destroys i) (some s) (ss, w) = (replaced ss i [], (destroy k (s, w)).1.1)
  on_socket (accepts i fuel) (some s) (ss, w) = taken_in i ss (accept k fuel (s, w))
  on_socket (acts i a) (some s) (ss, w) = acted i ss (perform a (s, w))

  -- An event on a socket that does not exist changes nothing.
  unfoldable pub step : Event → Process → Process
  step constructs (ss, w) = (new ∷ ss, w)
  step (adopts fd st) (ss, w) = (from_fd fd st ∷ ss, w)
  step (moves i) (ss, w) = on_socket (moves i) (get_elem? ss i) (ss, w)
  step (destroys i) (ss, w) = on_socket (destroys i) (get_elem? ss i) (ss, w)
  step (accepts i fuel) (ss, w) = on_socket (accepts i fuel) (get_elem? ss i) (ss, w)
  step (acts i a) (ss, w) = on_socket (acts i a) (get_elem? ss i) (ss, w)

  unfoldable pub run : List Event → Process → Process
  run [] p = p
  run (e ∷ es) p = run es (step e p)
