-- ===== src/Socket/Closing.antt =====
-- What `close` of source/socket.cpp leaves behind.
use ez.Base.{◌≡◌, refl, none, some, ok}
use ez.Socket.{Socket, close, disconnected}
use ez.Socket.System.{Fd, Kernel}

abbrev pub closed : Socket → Socket
closed s = record s { fd = none; state = disconnected }

module _ (k : Kernel) where
  abbrev pub shut : Fd → k.World → k.World
  shut none w = w
  shut (some d) w = k.close (k.shutdown w (some d)) (some d)

  pub close_lem : (s : Socket) (w : k.World) → close k (s, w) ≡ (ok tt, (closed s, shut s.fd w))
  unfolding close
  close_lem s w = go s.fd refl
    where
      go : (d : Fd) → s.fd ≡ d → close k (s, w) ≡ (ok tt, (closed s, shut s.fd w))
      go none e = rw e refl
      go (some d) e = rw e refl
