-- ===== src/Stream/Runs.antt =====
-- Runs of src/byte_stream.cc, and its theorems at concrete streams.
use cs144_minnow.Base.{◌≡◌, refl, false, List, [], ◌∷◌, arith}
use cs144_minnow.Base.Outcome.{ok}
use cs144_minnow.Stream.{ByteStream, IsValid, push, pop, is_finished, close, read, read_loop}
use cs144_minnow.Stream.Laws.{push-IsValid, pop-IsValid, read_lem}
use cs144_minnow.Stream.Fifo.{Op, writes, reads, closes, IsFifo, run, start, run-start-IsFifo}

abbrev two_bytes : ByteStream
two_bytes = record {
  buffer = 7 ∷ 8 ∷ [];
  capacity = 3;
  bytes_pushed = 4;
  bytes_popped = 2;
  is_close = false;
  error = false;
}

two_bytes-IsValid : IsValid two_bytes
two_bytes-IsValid = omega arith

push-two_bytes : (push (1 ∷ 2 ∷ 3 ∷ []) two_bytes).buffer ≡ 7 ∷ 8 ∷ 1 ∷ []
unfolding push
push-two_bytes = refl

read-two_bytes : read 9 two_bytes ≡ ok (pop 2 two_bytes, 7 ∷ 8 ∷ [])
unfolding read read_loop pop
read-two_bytes = refl

finished_only_empty : is_finished (close two_bytes) ≡ false
unfolding is_finished close
finished_only_empty = refl

push-IsValid_example : IsValid (push (1 ∷ 2 ∷ 3 ∷ []) two_bytes)
push-IsValid_example = push-IsValid (1 ∷ 2 ∷ 3 ∷ []) two_bytes two_bytes-IsValid

pop-IsValid_example : IsValid (pop 1 two_bytes)
pop-IsValid_example = pop-IsValid 1 two_bytes two_bytes-IsValid

read_lem_example : read 1 two_bytes ≡ ok (pop 1 two_bytes, 7 ∷ [])
read_lem_example = read_lem 1 two_bytes two_bytes-IsValid

abbrev history : List Op
history = writes (1 ∷ 2 ∷ 3 ∷ []) ∷ reads 1 ∷ writes (4 ∷ 5 ∷ []) ∷ closes ∷ []

run-start-IsFifo_example : IsFifo 2 (run history (start 2))
run-start-IsFifo_example = run-start-IsFifo 2 history (omega arith)
