-- ===== src/Channel.antt =====
-- include/ez/channel.hpp: the abstract channel that source/smp.cpp and source/http.cpp talk to, and
-- the step by which both of them hand a send buffer to it. What a channel does is not modelled here:
-- it is a parameter, with the laws of a byte stream where a theorem needs them.
pub mod Monad
pub mod Transmit
use ez.Base.{
  ◌+◌, ◌≤◌, ◌≡◌, ◌++◌, ◌==◌, if◌then◌else◌, ℕ, Bool, true, false, List, ltb, length, take, drop,
  u64, Outcome, ok, throws, fault,
}
use ez.Buffer
use ez.Buffer.{Buffer}

-- What `send` says: the number of bytes taken, a negative number (would block), or an exception.
pub data Sent : Type 0 where
  took : ℕ → Sent
  blocked : Sent
  failed : Sent

-- What `recv` says: the bytes stored, a number that is not positive, or an exception.
pub data Received : Type 0 where
  got : List ℕ → Received
  idle : Received
  broken : Received

-- `send(buffer)` sees the bytes of the buffer; `recv(buffer, desired)` its free size.
pub record Channel : Type 1 where
  pub State : Type 0
  pub send : State → List ℕ → Sent × State
  pub recv : State → ℕ → ℕ → Received × State

-- A byte stream: `send` appends the bytes that it takes to what was sent.
pub record IsStream (ch : Channel) : Type 0 where
  pub sent : ch.State → List ℕ
  pub taken :
      (s t : ch.State) (bytes : List ℕ) (n : ℕ)
      → ch.send s bytes ≡ (took n, t)
      → (n ≤ length bytes) × (sent t ≡ sent s ++ take n bytes)
  pub refused : (s t : ch.State) (bytes : List ℕ) → ch.send s bytes ≡ (blocked, t) → sent t ≡ sent s
  pub lost : (s t : ch.State) (bytes : List ℕ) → ch.send s bytes ≡ (failed, t) → sent t ≡ sent s

-- A byte stream that gives what is asked for, as soon as that much is there and there is room.
pub record IsPrompt (ch : Channel) : Type 0 where
  pub pending : ch.State → List ℕ
  pub serves :
      (s : ch.State) (size desired : ℕ)
      → 1 ≤ desired
      → desired ≤ size
      → desired ≤ length (pending s)
      → (t : ch.State) × (ch.recv s size desired ≡ (got (take desired (pending s)), t))
        × (pending t ≡ drop desired (pending s))

-- `if (auto sz = channel.send(b); sz == b.size()) ... else if (sz > 0) b.set_position(...)`:
-- whether all was taken, and the send buffer that is left.
unfoldable pub after_send : {E : Type 0} → E → Buffer → Sent → Outcome E (Bool × Buffer)
after_send e b (took n) =
    if n == Buffer.remaining b
    then ok (true, Buffer.empty)
    else if ltb 0 n
    then ok (false, Buffer.set_position b (u64 (b.position + n)))
    else ok (false, b)
after_send e b blocked = ok (false, b)
after_send e b failed = throws e

unfoldable pub transmit :
    {E : Type 0} (ch : Channel) → E → Buffer → ch.State → Outcome E (Bool × Buffer) × ch.State
transmit ch e b s = elim (Buffer.read b (Buffer.remaining b)) [
  | ok bytes ↦ let (r, t) = ch.send s bytes in (after_send e b r, t)
  | throws x ↦ (throws x, s)
  | fault ↦ (fault, s)
]
