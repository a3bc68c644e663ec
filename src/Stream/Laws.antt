-- ===== src/Stream/Laws.antt =====
-- The operations of src/byte_stream.cc and read of src/byte_stream_helpers.cc.
use cs144_minnow.Base.{
  ℕ, zero, suc, ◌+◌, ◌≤◌, ◌<◌, ◌≡◌, refl, ap₂, sym, ap, ◌⊎◌, inl, inr, ◌∙◌, ◌-◌, List, [], ◌∷◌,
  ◌++◌, min, arith, length, take, drop, IsU64, length-append, length-take, length-drop,
}
use native.Mathlib.Decide.{dec_lt}
use cs144_minnow.Base.Outcome.{ok}
use cs144_minnow.Stream.{ByteStream, IsValid, init, available_capacity, push, pop, read_loop, read}

pub init-IsValid : (c : ℕ) → IsU64 c → IsValid (init c)
unfolding init
init-IsValid c h = record {
  word = h;
  within = omega arith;
  popped = omega arith;
  counted = omega arith;
}

pub available-IsValid :
    (s : ByteStream) → IsValid s → available_capacity s ≡ s.capacity - length s.buffer
available-IsValid s v = ground arith

-- push keeps a valid stream valid.
pub push-IsValid : (bytes : List ℕ) (s : ByteStream) → IsValid s → IsValid (push bytes s)
unfolding push
push-IsValid bytes s v =
    let n = min (length bytes) (available_capacity s) in
    record {
      word = v.word;
      within = omega (arith, length-append s.buffer (take n bytes), length-take n bytes);
      popped = v.popped;
      counted =
          omega (arith, v.counted, length-append s.buffer (take n bytes), length-take n bytes);
    }

-- pop keeps a valid stream valid.
pub pop-IsValid : (len : ℕ) (s : ByteStream) → IsValid s → IsValid (pop len s)
unfolding pop
pop-IsValid len s v =
    let n = min len (length s.buffer) in
    record {
      word = v.word;
      within = omega (arith, v.within, length-drop n s.buffer);
      popped = omega arith;
      counted = omega (arith, v.counted, length-drop n s.buffer);
    }

take-min-length : (n : ℕ) (xs : List ℕ) → take (min n (length xs)) xs ≡ take n xs
take-min-length zero xs = rw (min-zero_left (length xs))
  where
    min-zero_left : (m : ℕ) → min 0 m ≡ 0
    min-zero_left m = omega arith
take-min-length (suc n) [] = let e : min (suc n) 0 ≡ 0 = omega arith in rw e
take-min-length (suc n) (x ∷ xs) =
    let e : min (suc n) (suc (length xs)) ≡ suc (min n (length xs)) = omega arith in
    rw e (ap (◌∷◌ x) (take-min-length n xs))

drop-min-length : (n : ℕ) (xs : List ℕ) → drop (min n (length xs)) xs ≡ drop n xs
drop-min-length zero xs = let e : min 0 (length xs) ≡ 0 = omega arith in rw e
drop-min-length (suc n) [] = let e : min (suc n) 0 ≡ 0 = omega arith in rw e
drop-min-length (suc n) (x ∷ xs) =
    let e : min (suc n) (suc (length xs)) ≡ suc (min n (length xs)) = omega arith in
    rw e (drop-min-length n xs)

min-swap : (n : ℕ) (xs : List ℕ) → take (min (length xs) n) xs ≡ take n xs
min-swap n xs =
    let e : min (length xs) n ≡ min n (length xs) = omega arith in rw e (take-min-length n xs)

-- What push appends, without the wrap-around and the redundant minimum.
pub buffer-push :
    (bytes : List ℕ) (s : ByteStream)
    → IsValid s
    → (push bytes s).buffer ≡ s.buffer ++ take (s.capacity - length s.buffer) bytes
unfolding push
buffer-push bytes s v =
    let room = s.capacity - length s.buffer in
    let e : available_capacity s ≡ room = available-IsValid s v in
    rw e (ap (λ t. s.buffer ++ t) (min-swap room bytes))

pub length_buffer-push :
    (bytes : List ℕ) (s : ByteStream)
    → IsValid s
    → length (push bytes s).buffer
      ≡ length s.buffer + min (length bytes) (s.capacity - length s.buffer)
length_buffer-push bytes s v =
    let room = s.capacity - length s.buffer in
    rw (buffer-push bytes s v)
      (omega (arith, length-append s.buffer (take room bytes), length-take room bytes))

pub capacity-push : (bytes : List ℕ) (s : ByteStream) → (push bytes s).capacity ≡ s.capacity
unfolding push
capacity-push bytes s = refl

pub buffer-pop : (len : ℕ) (s : ByteStream) → (pop len s).buffer ≡ drop len s.buffer
unfolding pop
buffer-pop len s = drop-min-length len s.buffer

pop_nothing : (len : ℕ) (s : ByteStream) → IsValid s → min len (length s.buffer) ≡ 0 → pop len s ≡ s
unfolding pop
pop_nothing len s v e = rw e (ground arith)

pop-take : (n : ℕ) (s : ByteStream) → pop (length (take n s.buffer)) s ≡ pop n s
unfolding pop
pop-take n s =
    let e : min (length (take n s.buffer)) (length s.buffer) ≡ min n (length s.buffer) =
      omega (arith, length-take n s.buffer) in
    rw e

-- A round that finds nothing to do.
read_loop_stop :
    (fuel len : ℕ) (out : List ℕ) (s : ByteStream)
    → (length s.buffer ≡ 0) ⊎ (len ≤ length out)
    → read_loop (suc fuel) len out s ≡ ok (s, out)
unfolding read_loop
read_loop_stop fuel len out s h = ground arith

-- A round that reads.
read_loop_round :
    (fuel len : ℕ) (out : List ℕ) (s : ByteStream)
    → 0 < length s.buffer
    → length out < len
    → let view = take (len - length out) s.buffer in
      read_loop (suc fuel) len out s ≡ read_loop fuel len (out ++ view) (pop (length view) s)
unfolding read_loop
read_loop_round fuel len out s h k = ground arith

read_idle : (len n : ℕ) → ¬ (0 < min len n) → (n ≡ 0) ⊎ (len ≤ 0)
read_idle zero n h = inr (omega arith)
read_idle (suc len) n h = inl (omega arith)

take_none : (n : ℕ) (xs : List ℕ) → ¬ (0 < min n (length xs)) → take n xs ≡ []
take_none zero xs h = refl
take_none (suc n) [] h = refl
take_none (suc n) (x ∷ xs) h = absurd (h (omega arith))

drained :
    (len : ℕ) (s : ByteStream)
    → (length (pop len s).buffer ≡ 0) ⊎ (len ≤ length (take len s.buffer))
drained len s = elim (dec_lt len (length s.buffer)) [
  | yes h ↦ inr (omega (arith, length-take len s.buffer))
  | no h ↦ inl (rw (buffer-pop len s) (omega (arith, length-drop len s.buffer)))
]

minus_zero : (n : ℕ) → n - 0 ≡ n
minus_zero n = omega arith

read_twice :
    (len : ℕ) (s : ByteStream) (n : ℕ)
    → length s.buffer ≡ n
    → 0 < min len n
    → read_loop (suc n) len [] s ≡ ok (pop len s, take len s.buffer)
read_twice len s zero e h = absurd (omega arith)
read_twice len s (suc n) e h =
    read_loop_round (suc n) len [] s (omega arith) (omega arith)
    ∙ rw (minus_zero len, pop-take len s)
        (read_loop_stop n len (take len s.buffer) (pop len s) (drained len s))

-- From a valid stream, read returns (it neither throws nor runs out of the fuel it is given): the
-- result is the first len bytes of the buffer, or all if there are fewer, and the stream is the
-- one that pop of len leaves.
pub read_lem :
    (len : ℕ) (s : ByteStream) → IsValid s → read len s ≡ ok (pop len s, take len s.buffer)
unfolding read
read_lem len s v = elim (dec_lt 0 (min len (length s.buffer))) [
  | no h ↦
      read_loop_stop (length s.buffer) len [] s (read_idle len (length s.buffer) h)
      ∙ ap₂ (λ t b. ok (t, b)) (sym (pop_nothing len s v (omega arith)))
          (sym (take_none len s.buffer h))
  | yes h ↦ read_twice len s (length s.buffer) refl h
]
