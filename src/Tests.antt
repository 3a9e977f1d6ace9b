-- ===== src/Tests.antt =====
-- Concrete runs of the modelled code, and its theorems at concrete inputs.
mod Pipe
mod Encodings
mod Buffers
mod Messages
mod Hashes
mod Ciphers
mod Authenticated
mod Addresses
mod Exchange
mod Requests
mod Bodies
mod Locks
mod Machine
mod Promises
mod Sockets
mod Loops
mod Wires
mod Memories
