-- ===== src/Reassembler/Runs.antt =====
-- Runs of src/reassembler.cc, and its theorems at concrete substrings.
use cs144_minnow.Base.{ℕ, ◌+◌, ◌≡◌, ◌⊎◌, inr, refl, false, true, [], ◌∷◌, arith, ◌==◌}
use cs144_minnow.Stream.{ByteStream, init as fresh, push, pop, close}
use cs144_minnow.Reassembler.{
  Reassembler, init, insert, insert_to_buffer, write_to_stream, close_at, store, clamp_end,
  clamp_begin,
}
use cs144_minnow.Reassembler.Chain.{Holds}
use cs144_minnow.Reassembler.Safety.{Stored, insert-Stored}
use cs144_minnow.Reassembler.Progress.{Known, Brings, insert-Known, insert_prompt}
use cs144_minnow.Reassembler.History.{
  starts, inserts, reads, Reach-Stored, is_close-insert, insert_beyond_limit, entry,
}

-- The stream "abcdef…".
abbrev letters : ℕ → ℕ
letters k = k + 97

abbrev early : Reassembler × ByteStream
early = insert 0 1 (98 ∷ []) false init (fresh 3)

early_pending : (early.0.m_buf ≡ entry 1 (98 ∷ []) ∷ []) × (early.0.m_bytes_pending ≡ 1)
unfolding insert insert_to_buffer write_to_stream close_at store clamp_end clamp_begin init fresh
    push close
early_pending = (refl, refl)

-- Substring 2 "cdefg" reaches four bytes beyond the capacity 3, and is stored whole.
abbrev overfull : Reassembler × ByteStream
overfull = insert 0 2 (99 ∷ 100 ∷ 101 ∷ 102 ∷ 103 ∷ []) false early.0 early.1

overfull_pending : overfull.0.m_bytes_pending ≡ 6
unfolding insert insert_to_buffer write_to_stream close_at store clamp_end clamp_begin init fresh
    push close
overfull_pending = refl

filled : (insert 0 0 (97 ∷ []) false overfull.0 overfull.1).1.buffer ≡ 97 ∷ 98 ∷ 99 ∷ []
unfolding insert insert_to_buffer write_to_stream close_at store clamp_end clamp_begin init fresh
    push close
filled = refl

init-Stored : Stored letters init.m_buf init.m_bytes_pending (fresh 3)
init-Stored = Reach-Stored (starts 3 (omega arith))

insert-Stored_example : Stored letters early.0.m_buf early.0.m_bytes_pending early.1
insert-Stored_example =
    insert-Stored letters 0 1 (98 ∷ []) false init (fresh 3) (omega arith) (omega arith) init-Stored

insert-Known_example : Known 1 early.0.m_buf early.1
unfolding init fresh
insert-Known_example =
    insert-Known letters 0 1 1 (98 ∷ []) false init (fresh 3) (omega arith) (omega arith)
      init-Stored (omega arith) (inr (omega arith))

early_unpushed : early.1.bytes_pushed ≡ 0
unfolding insert insert_to_buffer write_to_stream close_at store clamp_end clamp_begin init fresh
    push close
early_unpushed = refl

early_capacity : early.1.capacity ≡ 3
unfolding insert insert_to_buffer write_to_stream close_at store clamp_end clamp_begin init fresh
    push close
early_capacity = refl

insert_prompt_example :
    ¬ (Brings early.1.bytes_pushed 1 (98 ∷ []) ⊎ Holds early.1.bytes_pushed init.m_buf)
unfolding fresh
insert_prompt_example =
    insert_prompt letters 0 1 (98 ∷ []) false init (fresh 3) (omega arith) (omega arith) init-Stored
      (omega (arith, early_unpushed))

Reach-Stored_example : Stored letters early.0.m_buf early.0.m_bytes_pending (pop 2 early.1)
Reach-Stored_example = Reach-Stored (
    reads 2 (inserts 0 1 (98 ∷ []) false (starts 3 (omega arith)) (omega arith) (omega arith))
      (omega (arith, early_unpushed, early_capacity)))

is_close-insert_example :
    let q = insert 0 0 (97 ∷ []) true init (fresh 3) in
    (q.0.m_stream_end ≡ 1) × (q.1.is_close ≡ (q.1.bytes_pushed == q.0.m_stream_end))
unfolding fresh
is_close-insert_example = is_close-insert 0 0 (97 ∷ []) true init (fresh 3) refl

insert_beyond_limit_example :
    (insert 0 2
      (99 ∷ 100 ∷ [])
      false
      (record { m_buf = entry 1 (98 ∷ []) ∷ []; m_bytes_pending = 1; m_stream_end = 9 })
      (fresh 3)).0.m_buf
    ≡ entry 1 (98 ∷ []) ∷ entry 2 (99 ∷ 100 ∷ []) ∷ []
unfolding fresh
insert_beyond_limit_example =
    insert_beyond_limit 0 2 (99 ∷ 100 ∷ []) (entry 1 (98 ∷ [])) 1 9 (fresh 3) (omega arith)
      (omega arith) (omega arith) (omega arith) (omega arith) (omega arith) (omega arith)
      (omega arith)
