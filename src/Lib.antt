-- ===== src/Lib.antt =====
-- A verification of the C++ library ez: encodings, hashes and HMAC, a stream cipher with its
-- authenticator, buffers with shared areas, two message protocols over a channel of bytes, and the
-- sockets, the TLS wrapper and the event loops beneath them.
--
-- Parts, with the modules that model them:
--   source/hex.cpp, source/base64.cpp, source/url.cpp   Encoding.Hex, Encoding.Base64, Encoding.Url
--     `encode`, `decode` and the sizes keep their names. url.cpp calls hex.cpp. A loop over an index
--     is a recursion on the sequence or on the number of passes; `round_up` has fuel 4, and a size
--     is divisible by 3 or 4 after at most 3 steps.
--   source/buffer.cpp, include/ez/buffer.hpp   Buffer (the fields of `buffer::impl` that a view has:
--     `remaining` is `size()`, `read` and `write` stand for uses of `ptr()`), and Buffer.Store (the
--     reference counts: `assign` is `operator =`, also of the copy constructor, `destroy` the
--     destructor, `freed` the `delete` that `m_own_data` decides on, `run` a sequence of such calls over
--     a heap of `impl` objects and of areas of `new []`).
--   include/ez/channel.hpp   Channel: the abstract class is the record `Channel`; `IsStream` and
--     `IsPrompt` say what a byte stream does, where a theorem needs it. `transmit` is the step with
--     which a send buffer is handed to a channel.
--   source/smp.cpp, include/ez/smp.hpp   Smp (the object `Impl`, `reset`, `send`, `send_more`),
--     Smp.Receive (`recv`, with a definition for each case of its `switch`, and the fall-through as a
--     call), Smp.Frame (the constants, the integers of the meta data). The object and the channel are
--     the state of the monad of Channel.Monad, which keeps it when an exception is thrown.
--   source/sha1.cpp, source/sha2.cpp   Sha (the object of both, whose code is the same but for the
--     block function: `reset`, `update`, `complete`, `calculate`), Sha.Words (the macros of
--     include/ez/common.hpp), Sha.Sha1 and Sha.Sha2 (the block functions), Sha.Blocks (the two as
--     fillings of the interface `BlockFunction`). The loop of `update` has the number of bytes as
--     fuel: each pass takes at least one. `m_buffer` is kept as bytes, low byte of a word first.
--     Feed and Sha.Feed are the description that the theorem compares with, one byte at a time.
--   include/ez/hmac.hpp   Hmac: the class template over the interface `BlockFunction`; `add` is its
--     `update`.
--   source/chacha20.cpp   Cipher.Chacha: `crypt` is both `encrypt` and `decrypt`; its loop has the
--     size as fuel, of which each pass takes at least one. Cipher.Chacha.Stream is the key stream one
--     byte at a time.
--   source/poly1305.cpp   Cipher.Poly1305 (the object; the loop of `update` has the number of bytes as
--     fuel), Cipher.Poly1305.Field (the limbs: one definition for each stretch of `transform` and of
--     `complete`). Carry, Passes, Reduce, Tag and Block read the limbs as numbers.
--   source/chacha20_poly1305.cpp   Cipher.Aead: `opened` is what `decrypt` does with a tag; the loop
--     over the tag is `compared`, which gives nothing where it reads behind the authenticator.
--   source/http.cpp, include/ez/http.hpp   Http (the object, `reset`, `send_request`,
--     `send_response`, `send_more`; `put` is the end that both senders have), Http.Text (what they
--     write, and std::to_string and std::from_chars), Http.Receive and Http.Loops (`recv_request` and
--     `recv_response`, which share every case: the record `Side` holds what differs). The loop for the
--     headers has a byte more of fuel than the buffer has bytes, and ends; the loop for the body has
--     fuel as an argument, since a channel may bring pieces for ever. The parser of
--     source/picohttpparser.c is the record `Parser`; `IsReading` and `IsBounded` say what is
--     documented of it and of a channel. `headers_t` is a list, whose order the source leaves open.
--   source/socket.cpp, include/ez/socket.hpp   Socket (the object and what makes, moves, closes and
--     configures it), Socket.Io (`send`, `recv`, `accept`), Socket.Setup (`listen`, `connect` and
--     `connect_async`; those that take a path end in `_unix`), for Linux. The calls of the operating
--     system are the fields of the record `Kernel` of Socket.System; `IsWire`, `IsInbox`, `IsTable`
--     and `IsPatient` say what is documented of them. The loops that go on after a signal run on
--     fuel; one more than the signals that are still to come is enough. A descriptor of -1 is `none`.
--     Socket.Process is a process that uses any number of sockets in any order; `adopts` is the
--     constructor of a socket around a descriptor from outside.
--   source/epoll.cpp, source/kqueue.cpp, include/ez/events.hpp   Events (what both have in common: the
--     loop over what the waits say, which is a list, and `wait_for_workers`, which is what
--     `start` does behind its own loop), Events.Epoll and Events.Kqueue (`process_fd`, `process_events`, `add_fd`).
--   source/tls.cpp   Tls: the callbacks, `send`, `recv`, `handshake`; Tls.Lifetime: what `connect`,
--     `listen` and the destructor do with the library's memory. The library is the record
--     `Library`, which moves its bytes by the callbacks; `IsHonest` says what is documented of it. The
--     loops of `send` and `recv` run on fuel; over a socket that blocks one round is enough.
--   source/ip.cpp   Ip: the constructor of `ipv4_t` from a text. `scan` is its loop, on fuel, since it
--     does not always end; 256 is enough for every text of fewer than 256 characters.
--   include/ez/spin_lock.hpp   SpinLock: the operations on the flag, and `Step`, the relation by which
--     any number of threads take turns; `Reach` is what they may come to.
--
-- Numbers are natural numbers with the wrap-around of their C++ type written out (`u8`, `u32`,
-- `u64`). An exception is `throws`, an access outside an area or a table `fault`; both are results
-- of `Outcome` in Base.Results. A buffer's bytes are a list, and a char is its unsigned value.
--
-- Not modelled: the threads and descriptors that `start` of the event loops makes, the settings of
-- a TLS server and its public key, and the timer, which only call the system or a library; the
-- branches of source/socket.cpp for Windows and macOS; source/picohttpparser.c and
-- include/tls_internal.h, which are copies of other projects; source/daemon.cpp, which only calls
-- the operating system; the constructor of `buffer` from a string_view; the sharing of areas
-- between the buffers of an smp or http object and the messages that it returned; `compare_with` of
-- the hashes; allocations that fail.
pub mod Base
pub mod Feed
pub mod Encoding
pub mod Buffer
pub mod Channel
pub mod Smp
pub mod Sha
pub mod Hmac
pub mod Http
pub mod Cipher
pub mod Socket
pub mod Events
pub mod Tls
pub mod Ip
pub mod SpinLock
mod Tests
