-- ===== src/Stream.antt =====
-- src/byte_stream.hh, src/byte_stream.cc and src/byte_stream_helpers.cc: a bounded byte queue.
-- A string is the list of its bytes; reader() and writer() are views of the one record.
pub mod Laws
pub mod Fifo
mod Runs
use cs144_minnow.Base.Outcome.{Outcome, ok, throws, stuck}
use cs144_minnow.Base.{
  ℕ, zero, suc, ◌+◌, ◌-◌, ◌≤◌, ◌<◌, ◌≡◌, Bool, true, false, ◌&&◌, List, [], ◌∷◌, ◌++◌, min, ltb,
  ◌==◌, if◌then◌else◌, length, take, drop, u64, sub64, IsU64,
}

pub record ByteStream : Type 0 where
  pub buffer : List ℕ
  pub capacity : ℕ
  pub bytes_pushed : ℕ
  pub bytes_popped : ℕ
  pub is_close : Bool
  pub error : Bool

unfoldable pub init : ℕ → ByteStream
init capacity = record {
  buffer = [];
  capacity = capacity;
  bytes_pushed = 0;
  bytes_popped = 0;
  is_close = false;
  error = false;
}

unfoldable pub set_error : ByteStream → ByteStream
set_error s = record s { error = true }

abbrev pub available_capacity : ByteStream → ℕ
available_capacity s = sub64 s.capacity (length s.buffer)

unfoldable pub push : List ℕ → ByteStream → ByteStream
push bytes s =
    let write_len = min (length bytes) (available_capacity s) in
    record s {
      buffer = s.buffer ++ take write_len bytes;
      bytes_pushed = u64 (s.bytes_pushed + write_len);
    }

unfoldable pub close : ByteStream → ByteStream
close s = record s { is_close = true }

abbrev pub bytes_buffered : ByteStream → ℕ
bytes_buffered s = length s.buffer

abbrev pub is_empty : List ℕ → Bool
is_empty [] = true
is_empty (b ∷ bs) = false

unfoldable pub is_finished : ByteStream → Bool
is_finished s = s.is_close && is_empty s.buffer

unfoldable pub peek : ByteStream → List ℕ
peek s = s.buffer

unfoldable pub pop : ℕ → ByteStream → ByteStream
pop len s =
    let pop_len = min len (bytes_buffered s) in
    record s { buffer = drop pop_len s.buffer; bytes_popped = u64 (s.bytes_popped + pop_len) }

-- An empty view throws.
unfoldable pub read_loop : ℕ → ℕ → List ℕ → ByteStream → Outcome (ByteStream × List ℕ)
unfolding peek pop
read_loop zero len out s = stuck
read_loop (suc fuel) len out s =
    let view = take (len - length out) (peek s) in
    let rest = read_loop fuel len (out ++ view) (pop (length view) s) in
    if ltb 0 (bytes_buffered s) && ltb (length out) len
    then (if is_empty (peek s) then throws else rest)
    else ok (s, out)

-- Each round but the last pops a byte at least.
unfoldable pub read : ℕ → ByteStream → Outcome (ByteStream × List ℕ)
read len s = read_loop (suc (bytes_buffered s)) len [] s

-- The constructor's state and every operation keep the buffer within the capacity and the counters
-- in step with it.
pub record IsValid (s : ByteStream) : Type 0 where
  pub word : IsU64 s.capacity
  pub within : length s.buffer ≤ s.capacity
  pub popped : IsU64 s.bytes_popped
  pub counted : s.bytes_pushed ≡ u64 (s.bytes_popped + length s.buffer)
