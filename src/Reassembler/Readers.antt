-- ===== src/Reassembler/Readers.antt =====
-- insert of src/reassembler.cc leaves what the reader of the output counts.
use cs144_minnow.Base.{
  ℕ, ◌≡◌, refl, inl, inr, not, ◌&&◌, Bool, List, [], ◌∷◌, ◌==◌, length, sub64, Bool-cases,
}
use cs144_minnow.Stream.{ByteStream, push, close}
use cs144_minnow.Reassembler.{Reassembler, Entry, write_to_stream, close_at, insert}

-- As many bytes were popped, and the capacity is the same.
abbrev pub SameReader : ByteStream → ByteStream → Type 0
SameReader s s' = (s'.bytes_popped ≡ s.bytes_popped) × (s'.capacity ≡ s.capacity)

write_to_stream-SameReader :
    (m : List Entry) (p : ℕ) (s out : ByteStream)
    → SameReader s out
    → SameReader s (write_to_stream m p out).2
unfolding write_to_stream push
write_to_stream-SameReader [] p s out h = h
write_to_stream-SameReader (e ∷ m) p s out h = elim (Bool-cases (e.first == out.bytes_pushed)) [
  | inl t ↦ rw t (write_to_stream-SameReader m (sub64 p (length e.second)) s (push e.second out) h)
  | inr f ↦ rw f h
]

close_at-SameReader :
    (n : ℕ) (s out : ByteStream) → SameReader s out → SameReader s (close_at n out)
unfolding close_at close
close_at-SameReader n s out h = elim (Bool-cases (out.bytes_pushed == n && not out.is_close)) [
  | inl t ↦ rw t h
  | inr f ↦ rw f h
]

pub insert-SameReader :
    (past_end k : ℕ) (bytes : List ℕ) (last : Bool) (r : Reassembler) (out : ByteStream)
    → SameReader out (insert past_end k bytes last r out).1
unfolding insert
insert-SameReader past_end k bytes last r out =
    close_at-SameReader _ out _ (write_to_stream-SameReader _ _ out out (refl, refl))
