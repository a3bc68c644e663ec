-- ===== src/Stream/Fifo.antt =====
-- The stream of src/byte_stream.cc as a bounded queue: a history of writes, reads and closes.
use cs144_minnow.Base.{
  ℕ, ◌+◌, ◌-◌, ◌≡◌, refl, sym, ap, ◌∙◌, List, [], ◌∷◌, ◌++◌, append_assoc, arith, length, take,
  drop, u64, IsU64, length-append, length-take, take-append-drop,
}
use cs144_minnow.Stream.{ByteStream, IsValid, init, push, pop, close, set_error}
use cs144_minnow.Stream.Laws.{init-IsValid, push-IsValid, pop-IsValid, buffer-push, buffer-pop}

pub data Op : Type 0 where
  writes : List ℕ → Op
  reads : ℕ → Op
  closes : Op
  fails : Op

-- The stream with what has been accepted from the writer and delivered to the reader so far.
pub record Traced : Type 0 where
  pub stream : ByteStream
  pub accepted : List ℕ
  pub delivered : List ℕ

abbrev pub start : ℕ → Traced
start c = record { stream = init c; accepted = []; delivered = [] }

-- The writer's bytes are accepted up to the room that is left, the reader takes n bytes of the
-- buffer.
abbrev pub step : Op → Traced → Traced
step (writes bytes) t = record t {
  stream = push bytes t.stream;
  accepted = t.accepted ++ take (t.stream.capacity - length t.stream.buffer) bytes;
}
step (reads n) t = record t {
  stream = pop n t.stream;
  delivered = t.delivered ++ take n t.stream.buffer;
}
step closes t = record t { stream = close t.stream }
step fails t = record t { stream = set_error t.stream }

pub run : List Op → Traced → Traced
run [] t = t
run (o ∷ os) t = run os (step o t)

pub record IsFifo (c : ℕ) (t : Traced) : Type 0 where
  pub valid : IsValid t.stream
  pub sized : t.stream.capacity ≡ c
  pub ordered : t.delivered ++ t.stream.buffer ≡ t.accepted
  pub pushed : t.stream.bytes_pushed ≡ u64 (length t.accepted)
  pub popped : t.stream.bytes_popped ≡ u64 (length t.delivered)

push-counter :
    (bytes : List ℕ) (s : ByteStream) (h : IsValid s)
    → (push bytes s).bytes_pushed
      ≡ u64 (s.bytes_pushed + length (take (s.capacity - length s.buffer) bytes))
unfolding push
push-counter bytes s h = omega (arith, length-take (s.capacity - length s.buffer) bytes)

pop-counter :
    (n : ℕ) (s : ByteStream)
    → (pop n s).bytes_popped ≡ u64 (s.bytes_popped + length (take n s.buffer))
unfolding pop
pop-counter n s = omega (arith, length-take n s.buffer)

step-IsFifo : (c : ℕ) (o : Op) (t : Traced) → IsFifo c t → IsFifo c (step o t)
unfolding close set_error
step-IsFifo c (writes bytes) t f =
    let room = t.stream.capacity - length t.stream.buffer in
    record {
      valid = push-IsValid bytes t.stream f.valid;
      sized = unfold push in f.sized;
      ordered =
          ap (λ b. t.delivered ++ b) (buffer-push bytes t.stream f.valid)
          ∙ sym (append_assoc t.delivered t.stream.buffer (take room bytes))
          ∙ ap (λ a. a ++ take room bytes) f.ordered;
      pushed = omega (
        arith,
        f.pushed,
        push-counter bytes t.stream f.valid,
        length-append t.accepted (take room bytes),
      );
      popped = unfold push in f.popped;
    }
step-IsFifo c (reads n) t f = record {
  valid = pop-IsValid n t.stream f.valid;
  sized = unfold pop in f.sized;
  ordered =
      ap (λ b. (t.delivered ++ take n t.stream.buffer) ++ b) (buffer-pop n t.stream)
      ∙ append_assoc t.delivered (take n t.stream.buffer) (drop n t.stream.buffer)
      ∙ ap (λ b. t.delivered ++ b) (take-append-drop n t.stream.buffer)
      ∙ f.ordered;
  pushed = unfold pop in f.pushed;
  popped =
      omega (
        arith,
        pop-counter n t.stream,
        f.popped,
        length-append t.delivered (take n t.stream.buffer),
      );
}
step-IsFifo c closes t f = record {
  valid = record {
    word = f.valid.word;
    within = f.valid.within;
    popped = f.valid.popped;
    counted = f.valid.counted;
  };
  sized = f.sized;
  ordered = f.ordered;
  pushed = f.pushed;
  popped = f.popped;
}
step-IsFifo c fails t f = record {
  valid = record {
    word = f.valid.word;
    within = f.valid.within;
    popped = f.valid.popped;
    counted = f.valid.counted;
  };
  sized = f.sized;
  ordered = f.ordered;
  pushed = f.pushed;
  popped = f.popped;
}

run-IsFifo : (c : ℕ) (os : List Op) (t : Traced) → IsFifo c t → IsFifo c (run os t)
unfolding run
run-IsFifo c [] t f = f
run-IsFifo c (o ∷ os) t f = run-IsFifo c os (step o t) (step-IsFifo c o t f)

-- After any history on a fresh stream of 64-bit capacity c, the bytes delivered followed by those
-- buffered are the bytes accepted, the buffer holds c bytes at most (within the valid stream), and
-- the two counters are the numbers of bytes accepted and delivered modulo 2^64.
pub run-start-IsFifo : (c : ℕ) (os : List Op) → IsU64 c → IsFifo c (run os (start c))
unfolding init
run-start-IsFifo c os h = run-IsFifo c os (start c) (record {
  valid = init-IsValid c h;
  sized = refl;
  ordered = refl;
  pushed = omega arith;
  popped = omega arith;
})
