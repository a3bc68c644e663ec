-- ===== src/Reassembler.antt =====
-- src/reassembler.hh and src/reassembler.cc: indexed substrings put back in order.
-- m_buf, a std::map, is the list of its entries by rising keys. An iterator into it is the list of
-- the entries from there on, and end() is the empty list.
pub mod Chain
pub mod Clamp
pub mod Splice
pub mod Safety
pub mod Progress
pub mod History
pub mod Readers
mod Runs
use cs144_minnow.Base.{
  ℕ, ◌+◌, ◌-◌, ◌^◌, Bool, true, false, not, ◌&&◌, Option, none, some, List, [], ◌∷◌, ltb, leb, ◌==◌,
  if◌then◌else◌, length, take, drop, u64, sub64,
}
use cs144_minnow.Stream.{ByteStream, available_capacity, push, close}

pub record Entry : Type 0 where
  pub first : ℕ
  pub second : List ℕ

pub record Reassembler : Type 0 where
  pub m_buf : List Entry
  pub m_bytes_pending : ℕ
  pub m_stream_end : ℕ

unfoldable pub init : Reassembler
init = record { m_buf = []; m_bytes_pending = 0; m_stream_end = 2 ^ 64 - 1 }

-- iter->first + iter->second.size()
abbrev pub entry_end : Entry → ℕ
entry_end e = u64 (e.first + length e.second)

-- m_buf[key] = value
unfoldable pub put : Entry → List Entry → List Entry
put new [] = new ∷ []
put new (e ∷ m) =
    let rest = put new m in
    if ltb new.first e.first
    then new ∷ e ∷ m
    else (if new.first == e.first then new ∷ m else e ∷ rest)

-- What the loop of _write_to_stream leaves of m_buf, with m_bytes_pending and the stream.
unfoldable pub write_to_stream : List Entry → ℕ → ByteStream → List Entry × ℕ × ByteStream
write_to_stream [] pending output = ([], pending, output)
write_to_stream (e ∷ m) pending output =
    let rest = write_to_stream m (sub64 pending (length e.second)) (push e.second output) in
    if e.first == output.bytes_pushed then rest else (e ∷ m, pending, output)

-- The loop of _delete_overlapping: what is left from the iterator on, and m_bytes_pending.
unfoldable pub erase_within : ℕ → List Entry → ℕ → List Entry × ℕ
erase_within end_index [] pending = ([], pending)
erase_within end_index (e ∷ m) pending =
    let rest = erase_within end_index m (sub64 pending (length e.second)) in
    if leb (entry_end e) end_index then rest else (e ∷ m, pending)

unfoldable pub delete_overlapping : ℕ → List Entry → ℕ → List Entry × ℕ
unfolding erase_within
delete_overlapping index [] pending = ([], pending)
delete_overlapping index (e ∷ m) pending =
    let rest = delete_overlapping index m pending in
    let kept = erase_within (entry_end e) m pending in
    if e.first == index then (e ∷ kept.0, kept.1) else (e ∷ rest.0, rest.1)

-- The entry before lower_bound(key), none at begin().
unfoldable pub before_lower_bound : ℕ → List Entry → Option Entry
before_lower_bound key [] = none
before_lower_bound key (e ∷ m) =
    let later = before_lower_bound key m in
    if ltb e.first key then some (elim later [ none ↦ e | some f ↦ f ]) else none

abbrev pub starts_by : ℕ → List Entry → Bool
starts_by key [] = false
starts_by key (e ∷ m) = leb e.first key

-- upper_bound(key), one step back unless that is begin().
unfoldable pub from_upper_bound : ℕ → List Entry → List Entry
from_upper_bound key [] = []
from_upper_bound key (e ∷ m) =
    let later = from_upper_bound key m in if starts_by key m then later else e ∷ m

-- The code evaluates iter->first + iter->second.size() at end() where m_buf is empty: past_end is
-- the number that it then reads.
abbrev pub iterator_end : ℕ → List Entry → ℕ
iterator_end past_end [] = past_end
iterator_end past_end (e ∷ m) = entry_end e

unfoldable pub walk : List Entry → ℕ → ℕ
walk [] clamped_begin = clamped_begin
walk (e ∷ m) clamped_begin =
    let rest = walk m (entry_end e) in if leb e.first clamped_begin then rest else clamped_begin

unfoldable pub clamp_end : ℕ → ℕ → List Entry → ℕ
unfolding before_lower_bound
clamp_end accept_end end_index m = elim (before_lower_bound end_index m) [
  | none ↦ if ltb accept_end end_index then accept_end else end_index
  | some e ↦ if leb end_index (entry_end e) then e.first else end_index
]

unfoldable pub clamp_begin : ℕ → ℕ → ℕ → List Entry → ℕ
unfolding from_upper_bound walk
clamp_begin past_end accept_begin first_index m =
    let clamped = if ltb first_index accept_begin then accept_begin else first_index in
    let iter = from_upper_bound first_index m in
    if ltb clamped (iterator_end past_end iter) then walk iter clamped else clamped

-- The last steps of _insert_to_buffer: cut the data, store it, delete what it covers.
unfoldable pub store : ℕ → ℕ → ℕ → List ℕ → List Entry → ℕ → List Entry × ℕ
unfolding put delete_overlapping
store clamped_begin clamped_end first_index bytes m pending =
    let kept = drop (clamped_begin - first_index) (take (clamped_end - first_index) bytes) in
    delete_overlapping clamped_begin (put (record { first = clamped_begin; second = kept }) m)
      (u64 (pending + length kept))

unfoldable pub insert_to_buffer : ℕ → ℕ → ℕ → ℕ → List ℕ → List Entry → ℕ → List Entry × ℕ
insert_to_buffer past_end accept_begin len first_index bytes m pending =
    let accept_end = u64 (accept_begin + len) in
    let end_index = u64 (first_index + length bytes) in
    let clamped_end = clamp_end accept_end end_index m in
    let clamped_begin = clamp_begin past_end accept_begin first_index m in
    if leb accept_end first_index
    then (m, pending)
    else (if leb clamped_end clamped_begin
        then (m, pending)
        else store clamped_begin clamped_end first_index bytes m pending)

unfoldable pub close_at : ℕ → ByteStream → ByteStream
close_at stream_end output =
    if output.bytes_pushed == stream_end && not output.is_close then close output else output

unfoldable pub insert : ℕ → ℕ → List ℕ → Bool → Reassembler → ByteStream → Reassembler × ByteStream
insert past_end first_index bytes is_last_substring r output =
    let stream_end =
      if is_last_substring then u64 (first_index + length bytes) else r.m_stream_end in
    let (buf, pending) =
      insert_to_buffer past_end output.bytes_pushed (available_capacity output) first_index bytes
        r.m_buf r.m_bytes_pending in
    let (buf', pending', output') = write_to_stream buf pending output in
    (
      record { m_buf = buf'; m_bytes_pending = pending'; m_stream_end = stream_end },
      close_at stream_end output',
    )
