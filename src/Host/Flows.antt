-- ===== src/Host/Flows.antt =====
-- The bytes that pass through a stream of apps/bidirectional_stream_copy.cc.
use cs144_minnow.Base.{
  ℕ, ◌-◌, ◌≤◌, ◌≡◌, sym, ap, ap₂, ◌∙◌, Bool, true, false, List, ◌++◌, arith, length, take, drop,
  append_assoc, take_all, take-append-drop,
}
use cs144_minnow.Stream.{ByteStream, IsValid, available_capacity, push, pop, close}
use cs144_minnow.Stream.Laws.{push-IsValid, buffer-push, buffer-pop, available-IsValid}
use cs144_minnow.Host.Descriptor.{read}
use cs144_minnow.Host.Logs.{}
use cs144_minnow.Host.Copy.{push_read}

pub close-IsValid : (s : ByteStream) → IsValid s → IsValid (close s)
unfolding close
close-IsValid s v = record {
  word = v.word;
  within = v.within;
  popped = v.popped;
  counted = v.counted;
}

pub buffer_fits :
    (bytes : List ℕ) (s : ByteStream)
    → IsValid s
    → length bytes ≤ available_capacity s
    → (push bytes s).buffer ≡ s.buffer ++ bytes
buffer_fits bytes s v fits =
    buffer-push bytes s v
    ∙ ap (λ l. s.buffer ++ l)
        (take_all (s.capacity - length s.buffer) bytes (omega (arith, available-IsValid s v, fits)))

-- What a stream makes of bytes that fit.
pub push_read-lem :
    (bytes : List ℕ) (eof : Bool) (s : ByteStream)
    → IsValid s
    → length bytes ≤ available_capacity s
    → IsValid (push_read bytes eof s) × ((push_read bytes eof s).buffer ≡ s.buffer ++ bytes)
unfolding close
push_read-lem bytes false s v fits = (push-IsValid bytes s v, buffer_fits bytes s v fits)
push_read-lem bytes true s v fits =
    (close-IsValid (push bytes s) (push-IsValid bytes s v), buffer_fits bytes s v fits)

-- The bytes on their way from a reader to a writer, when the system changes but not they, when some
-- are read, and when some are written.
pub same_flow :
    (sent sent' read read' buffer : List ℕ)
    → sent' ≡ sent
    → read' ≡ read
    → sent ++ buffer ≡ read
    → sent' ++ buffer ≡ read'
same_flow sent sent' read read' buffer es er h = ap (λ l. l ++ buffer) es ∙ h ∙ sym er

pub read_flow :
    (sent sent' read read' buffer buffer' bytes : List ℕ)
    → sent' ≡ sent
    → read' ≡ read ++ bytes
    → buffer' ≡ buffer ++ bytes
    → sent ++ buffer ≡ read
    → sent' ++ buffer' ≡ read'
read_flow sent sent' read read' buffer buffer' bytes es er eb h =
    ap₂ (λ l b. l ++ b) es eb
    ∙ sym (append_assoc sent buffer bytes)
    ∙ ap (λ l. l ++ bytes) h
    ∙ sym er

pub pop-lem :
    (n : ℕ) (s : ByteStream) (sent read : List ℕ)
    → sent ++ s.buffer ≡ read
    → (sent ++ take n s.buffer) ++ (pop n s).buffer ≡ read
pop-lem n s sent read h =
    ap (λ l. (sent ++ take n s.buffer) ++ l) (buffer-pop n s)
    ∙ append_assoc sent (take n s.buffer) (drop n s.buffer)
    ∙ ap (λ l. sent ++ l) (take-append-drop n s.buffer)
    ∙ h
