-- ===== src/Socket/Setup.antt =====
-- `listen`, `connect` and `connect_async` of source/socket.cpp.
use ez.Base.{
  u32, ◌==◌, if◌then◌else◌, ℕ, Bool, true, false, not, Option, none, some, List, [], ◌∷◌, ◌++◌, ◌+◌,
  ◌-◌, ltb, leb, length, replicate, Outcome, ok, throws, fault,
}
use ez.Channel.Monad.{◌>>=◌, ◌>>◌, pure, throw, lift, gets}
use ez.Socket.{
  Error, error, runtime_error, timeout, Op, fd, sys, effect, assign, set_nonblocking, State,
  disconnected, connecting, connected, listening, cant_create, cant_bind, cant_listen, select_error,
  connect_failed, async_refused, async_failed,
}
use ez.Socket.System.{
  would_block, Errno, Call, returned, minus_one, Fd, Address, inet, unix, Domain, af_inet, af_unix,
  reuse_address, reuse_port, Kernel,
}

-- `_adr.copy(local_addr.sun_path, sz)` with the `std::max` of the lengths: all of the path, into an
-- array of 108 zeros.
unfoldable pub sun_path : List ℕ → Outcome Error (List ℕ)
sun_path path =
    if leb (length path) 108 then ok (path ++ replicate (108 - length path) 0) else fault

-- The path that `unlink` reads, up to a 0 in the array.
unfoldable pub c_string : List ℕ → Outcome Error (List ℕ)
c_string [] = fault
c_string (b ∷ bytes) =
    let rest = c_string bytes in
    if b == 0 then ok [] else elim rest [ ok s ↦ ok (b ∷ s) | throws e ↦ throws e | fault ↦ fault ]

-- `std::max(_adr.size(), sizeof(local_addr.sun_path)-1)`
unfoldable pub path_size : List ℕ → ℕ
path_size path = if ltb (length path) 107 then 107 else length path

-- `FD_SET(fd, &fdset)`: a bit of an array of 1024.
abbrev pub fd_set : Fd → Outcome Error (Unit {0})
fd_set none = fault
fd_set (some d) = if ltb d 1024 then ok tt else fault

module _ (k : Kernel) where
  abbrev pub set_state : State → Op k (Unit {0})
  set_state st = assign k λ s. record s { state = st }

  abbrev pub created : Call → Op k (Unit {0})
  created (returned d) = assign k λ s. record s { fd = some d }
  created (minus_one e) = throw (error cant_create)

  abbrev pub open_fd : Domain → Fd → Op k (Unit {0})
  open_fd domain (some d) = pure tt
  open_fd domain none = do r ← sys k λ w d. k.socket w domain; created r

  abbrev pub or_throw : (Errno → Error) → Call → Op k (Unit {0})
  or_throw e (returned n) = pure tt
  or_throw e (minus_one n) = throw (e n)

  abbrev pub when : Bool → Op k (Unit {0}) → Op k (Unit {0})
  when true m = m
  when false m = pure tt

  abbrev pub share_address : Op k (Unit {0})
  share_address = do
    effect k λ w d. k.set_option w d reuse_address
    effect k λ w d. k.set_option w d reuse_port

  -- The bits of `static_cast<int>(_max_clients)`.
  abbrev pub bind_and_listen : Address → ℕ → Op k (Unit {0})
  bind_and_listen address max_clients = do
    b ← sys k λ w d. k.bind w d address
    or_throw (λ _. error cant_bind) b
    l ← sys k λ w d. k.listen w d (u32 max_clients)
    or_throw (λ e. error (cant_listen e)) l

  unfoldable pub listen : (address port max_clients : ℕ) → Bool → Op k (Unit {0})
  listen address port max_clients share = do
    d ← fd k
    open_fd af_inet d
    when share share_address
    bind_and_listen (inet address port) max_clients
    assign k λ s. record s { port = port }
    set_state listening

  unfoldable pub listen_unix : List ℕ → (max_clients : ℕ) → Bool → Op k (Unit {0})
  listen_unix path max_clients share = do
    d ← fd k
    open_fd af_unix d
    when share share_address
    area ← lift (sun_path path)
    name ← lift (c_string area)
    effect k λ w d. k.unlink w name
    bind_and_listen (unix area (path_size path + 2)) max_clients
    set_state listening

  abbrev pub socket_error : Option ℕ → Op k (Unit {0})
  socket_error none = throw timeout
  socket_error (some n) = if n == 0 then set_state connected else throw timeout

  abbrev pub selected : Call → Op k (Unit {0})
  selected (minus_one e) = throw (error select_error)
  selected (returned n) =
      if n == 0 then throw timeout else do e ← sys k k.pending_error; socket_error e

  -- What `connect` does with the result of `::connect`, up to its end.
  abbrev pub after_connect : ℕ → Call → Op k (Unit {0})
  after_connect seconds (returned n) = set_state connected
  after_connect seconds (minus_one e) =
      if would_block e
      then (do
        d ← fd k
        lift (fd_set d)
        r ← sys k λ w d. k.select w d seconds
        selected r
        set_nonblocking k false)
      else throw (error (connect_failed e))

  unfoldable pub connect : (address port seconds bind_to : ℕ) → Op k (Unit {0})
  connect address port seconds bind_to = do
    d ← fd k
    open_fd af_inet d
    when (not (bind_to == 0))
        (do b ← sys k λ w d. k.bind w d (inet bind_to 0); or_throw (λ _. runtime_error cant_bind) b)
    set_nonblocking k true
    set_state connecting
    r ← sys k λ w d. k.connect w d (inet address port)
    after_connect seconds r

  unfoldable pub connect_unix : List ℕ → (seconds : ℕ) → Op k (Unit {0})
  connect_unix path seconds = do
    d ← fd k
    open_fd af_unix d
    set_nonblocking k true
    area ← lift (sun_path path)
    r ← sys k λ w d. k.connect w d (unix area 110)
    after_connect seconds r

  abbrev pub async_started : Call → Op k (Unit {0})
  async_started (returned n) = set_state connected
  async_started (minus_one e) = if would_block e then pure tt else throw (error (async_refused e))

  -- Where `getsockopt` stores nothing, the number that is tested has no value.
  abbrev pub async_checked : Option ℕ → Op k (Unit {0})
  async_checked none = lift fault
  async_checked (some n) = if n == 0 then set_state connected else throw (error (async_failed n))

  abbrev pub async_in : State → (address port : ℕ) → Op k (Unit {0})
  async_in disconnected address port = do
    set_nonblocking k true
    set_state connecting
    r ← sys k λ w d. k.connect w d (inet address port)
    async_started r
  async_in connecting address port = do e ← sys k k.pending_error; async_checked e
  async_in connected address port = pure tt
  async_in listening address port = pure tt

  unfoldable pub connect_async : (address port bind_to : ℕ) → Op k (Unit {0})
  connect_async address port bind_to = do
    d ← fd k
    open_fd af_inet d
    st ← gets λ x. x.0.state
    async_in st address port
