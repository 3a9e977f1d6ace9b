-- ===== src/Tests/Messages.antt =====
-- source/smp.cpp over a small channel.
use ez.Base.{◌≡◌, ◌∷◌, ◌++◌, ℕ, refl, false, List, [], arith}
use ez.Tests.Pipe.{Pipe, pipe, pipe_stream}
use ez.Smp.Frame.{frame}
use ez.Smp.{Impl, send, waiting_meta, waiting_header}
use ez.Buffer
use ez.Buffer.{Buffer}
use ez.Buffer.Area.{of_bytes-IsValid}
use ez.Smp.Delivery.{OnTheWire, again, send-OnTheWire}

abbrev idle_impl : Impl
idle_impl = record {
  state = waiting_meta;
  header = Buffer.make 4096;
  body = Buffer.empty;
  send_buffer = Buffer.empty;
  new_header = false;
  header_size = 0;
  body_size = 0;
}

abbrev hello : List ℕ
hello = b'h' ∷ b'i' ∷ []

abbrev world_bytes : List ℕ
world_bytes = b'y' ∷ b'o' ∷ b'u' ∷ []

hello_size : Buffer.remaining (Buffer.of_bytes hello) ≡ 2
unfolding Buffer.of_bytes Buffer.remaining
hello_size = refl

world_size : Buffer.remaining (Buffer.of_bytes world_bytes) ≡ 3
unfolding Buffer.of_bytes Buffer.remaining
world_size = refl

-- Five bytes at a time.
send-OnTheWire_example : OnTheWire (pipe 5) (pipe_stream 5) [] (frame hello world_bytes) (
    again
      (pipe 5)
      (pipe_stream 5)
      2
      (send (pipe 5) (Buffer.of_bytes hello) (Buffer.of_bytes world_bytes) (idle_impl, ([], []))).1)
unfolding Buffer.of_bytes
send-OnTheWire_example =
    send-OnTheWire (pipe 5) (pipe_stream 5) (Buffer.of_bytes hello) (Buffer.of_bytes world_bytes)
      idle_impl ([], []) 2 (of_bytes-IsValid hello (omega arith))
      (of_bytes-IsValid world_bytes (omega arith)) (omega (arith, hello_size))
      (omega (arith, hello_size)) (omega (arith, world_size))

no_bytes : Buffer.remaining Buffer.empty ≡ 0
unfolding Buffer.remaining
no_bytes = refl

abbrev next_up : Pipe
next_up = ([], frame hello world_bytes ++ (7 ∷ []))

-- The meta data of a message with a header of five bytes and a body of three has been read.
abbrev expecting : Impl
expecting = record idle_impl { state = waiting_header; header_size = 5; body_size = 3 }
