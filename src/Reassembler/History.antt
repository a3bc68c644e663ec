-- ===== src/Reassembler/History.antt =====
-- Histories of insertions and reads on a fresh stream (src/reassembler.cc with src/byte_stream.cc).
use cs144_minnow.Base.{
  ℕ, ◌+◌, ◌-◌, ◌≤◌, ◌<◌, ◌≡◌, refl, ◌∙◌, sub64, ◌^◌, Bool, false, ◌==◌, if◌then◌else◌, leb, List,
  [], ◌∷◌, arith, min, length, u64, IsU64, length-drop, take, take_all,
}
use cs144_minnow.Stream.{ByteStream, available_capacity, init as fresh, push, pop, close}
use cs144_minnow.Stream.Laws.{init-IsValid, pop-IsValid}
use cs144_minnow.Reassembler.{
  Reassembler, Entry, init, insert, write_to_stream, close_at, store, clamp_end, clamp_begin,
}
use cs144_minnow.Reassembler.Chain.{Agree, Agree-drop}
use cs144_minnow.Reassembler.Splice.{splice_after, splice_nil}
use cs144_minnow.Reassembler.Safety.{insert_stores, Stored, Carries, insert-Stored}
use cs144_minnow.Reassembler.Progress.{limit}

-- A fresh Reassembler and a fresh stream of a 64-bit capacity, then insertions of substrings of src
-- that end below 2^64, and reads while the stream's limit stays below 2^64.
pub data Reach (src : ℕ → ℕ) : Reassembler → ByteStream → Type 0 where
  starts : (capacity : ℕ) → IsU64 capacity → Reach src init (fresh capacity)
  inserts :
      {r : Reassembler} {out : ByteStream} (past_end fi : ℕ) (bytes : List ℕ) (last : Bool)
      → Reach src r out
      → fi + length bytes < 2 ^ 64
      → Agree src fi bytes
      → Reach src (insert past_end fi bytes last r out).0 (insert past_end fi bytes last r out).1
  reads :
      {r : Reassembler} {out : ByteStream} (n : ℕ)
      → Reach src r out
      → out.bytes_pushed + out.capacity < 2 ^ 64
      → Reach src r (pop n out)

pop-Carries :
    (src : ℕ → ℕ) (n : ℕ) (out : ByteStream)
    → out.bytes_pushed + out.capacity < 2 ^ 64
    → Carries src out
    → Carries src (pop n out)
pop-Carries src n out h c =
    let k = min n (length out.buffer) in
    let v = pop-IsValid n out c.valid in
    unfold pop in
    record {
      valid = v;
      sum = omega (arith, c.sum, length-drop k out.buffer);
      agrees = Agree-drop src k out.bytes_popped _ out.buffer (omega (arith, c.sum)) c.agrees;
      fits = omega (arith, length-drop k out.buffer);
    }

pub pop-Stored :
    (src : ℕ → ℕ) (n : ℕ) (r : Reassembler) (out : ByteStream)
    → out.bytes_pushed + out.capacity < 2 ^ 64
    → Stored src r.m_buf r.m_bytes_pending out
    → Stored src r.m_buf r.m_bytes_pending (pop n out)
pop-Stored src n r out h s = record {
  chain = unfold pop in s.chain;
  agrees = s.agrees;
  counted = s.counted;
  output = pop-Carries src n out h s.output;
}

-- In every reachable state the stream carries the bytes of src in order, so that what a reader has
-- taken and what is buffered are a prefix of src, and the stored substrings are disjoint, ordered,
-- of src, counted by m_bytes_pending, and all behind the byte that the stream waits for.
pub Reach-Stored :
    {src : ℕ → ℕ} {r : Reassembler} {out : ByteStream}
    → Reach src r out
    → Stored src r.m_buf r.m_bytes_pending out
Reach-Stored (starts capacity h) =
    unfold init fresh in
    record {
      chain = tt;
      agrees = tt;
      counted = omega arith;
      output = record {
        valid = unfold fresh in init-IsValid capacity h;
        sum = omega arith;
        agrees = tt;
        fits = omega arith;
      };
    }
Reach-Stored {src = src} (inserts {r = r} {out = out} past_end fi bytes last g w a) =
    insert-Stored src past_end fi bytes last r out w a (Reach-Stored g)
Reach-Stored {src = src} (reads {r = r} {out = out} n g h) =
    pop-Stored src n r out h (Reach-Stored g)

is_close-write_to_stream :
    (m : List Entry) (p : ℕ) (out : ByteStream)
    → (write_to_stream m p out).2.is_close ≡ out.is_close
unfolding write_to_stream
is_close-write_to_stream [] p out = refl
is_close-write_to_stream (e ∷ m) p out = ground (
  arith,
  is_close-write_to_stream m (sub64 p (length e.second)) (push e.second out),
  is_close-push e.second out,
)
  where
    is_close-push : (bytes : List ℕ) (s : ByteStream) → (push bytes s).is_close ≡ s.is_close
    is_close-push bytes s = unfold push in refl

is_close-close_at :
    (stream_end : ℕ) (o : ByteStream)
    → o.is_close ≡ false
    → (close_at stream_end o).is_close ≡ ((close_at stream_end o).bytes_pushed == stream_end)
unfolding close_at close
is_close-close_at stream_end o h = ground arith

-- Where the stream is open before an insertion, it is closed afterwards exactly if the number of
-- bytes pushed equals the stream's end, which the last substring sets to its own end.
pub is_close-insert :
    (past_end fi : ℕ) (bytes : List ℕ) (last : Bool) (r : Reassembler) (out : ByteStream)
    → out.is_close ≡ false
    → let q = insert past_end fi bytes last r out in
      (q.0.m_stream_end ≡ (if last then u64 (fi + length bytes) else r.m_stream_end))
      × (q.1.is_close ≡ (q.1.bytes_pushed == q.0.m_stream_end))
unfolding insert
is_close-insert past_end fi bytes last r out h =
    (refl, is_close-close_at _ _ (is_close-write_to_stream _ _ out ∙ h))

abbrev pub entry : ℕ → List ℕ → Entry
entry k bytes = record { first = k; second = bytes }

module _ (e : Entry) where
  clamp_end_behind :
      (ae ei : ℕ) → e.first < ei → e.first + length e.second < ei → clamp_end ae ei (e ∷ []) ≡ ei
  unfolding clamp_end
  clamp_end_behind ae ei h k = ground arith

  clamp_begin_behind :
      (past_end ab fi : ℕ)
      → ab ≤ fi
      → e.first + length e.second ≤ fi
      → clamp_begin past_end ab fi (e ∷ []) ≡ fi
  unfolding clamp_begin
  clamp_begin_behind past_end ab fi h k = ground arith

  write_to_stream_ahead :
      (m : List Entry) (p : ℕ) (out : ByteStream)
      → out.bytes_pushed < e.first
      → (write_to_stream (e ∷ m) p out).0 ≡ e ∷ m
  unfolding write_to_stream
  write_to_stream_ahead m p out h = ground arith

  store_behind :
      (fi ei p : ℕ) (bytes : List ℕ)
      → e.first < fi
      → fi + length bytes ≡ ei
      → (store fi ei fi bytes (e ∷ []) p).0 ≡ e ∷ entry fi bytes ∷ []
  unfolding store
  store_behind fi ei p bytes h q =
      let none_cut : fi - fi ≡ 0 = omega arith in
      let all : take (ei - fi) bytes ≡ bytes = take_all (ei - fi) bytes (omega arith) in
      rw (none_cut, all, splice_after (entry fi bytes) _ e [] h, splice_nil (entry fi bytes))

-- The clamp to the available capacity is lost where an entry ends before the new substring: the
-- whole substring is stored, also its bytes beyond the stream's limit.
pub insert_beyond_limit :
    (past_end fi : ℕ) (bytes : List ℕ) (e : Entry) (pending stream_end : ℕ) (out : ByteStream)
    → out.bytes_pushed < e.first
    → 0 < length e.second
    → e.first + length e.second ≤ fi
    → fi < limit out
    → limit out < fi + length bytes
    → fi + length bytes < 2 ^ 64
    → out.capacity < 2 ^ 64
    → length out.buffer ≤ out.capacity
    → let r : Reassembler = record {
      m_buf = e ∷ [];
      m_bytes_pending = pending;
      m_stream_end = stream_end;
    } in
      (insert past_end fi bytes false r out).0.m_buf ≡ e ∷ entry fi bytes ∷ []
unfolding insert
insert_beyond_limit past_end fi bytes e pending stream_end out h1 h2 h3 h4 h5 h6 h7 h8 =
    let n = u64 (fi + length bytes) in
    let room = available_capacity out in
    let ae = u64 (out.bytes_pushed + room) in
    let ce : clamp_end ae n (e ∷ []) ≡ n = clamp_end_behind e ae n (omega arith) (omega arith) in
    let cb = clamp_begin_behind e past_end out.bytes_pushed fi (omega arith) (omega arith) in
    let early : leb ae fi ≡ false = ground arith in
    let known : leb (clamp_end ae n (e ∷ [])) (clamp_begin past_end out.bytes_pushed fi (e ∷ []))
        ≡ false =
      rw (ce, cb) (ground arith) in
    let stores =
      insert_stores past_end out.bytes_pushed room fi bytes (e ∷ []) pending early known in
    rw (stores, ce, cb, store_behind e fi n pending bytes (omega arith) (omega arith))
      (write_to_stream_ahead e (entry fi bytes ∷ []) _ out h1)
