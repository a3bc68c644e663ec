-- ===== src/Sender/Emit.antt =====
-- One message of push of src/tcp_sender.cc: what it does to the sender and the stream.
use cs144_minnow.Base.{
  All-append, ℕ, ◌+◌, ◌≤◌, ◌<◌, ◌^◌, ◌≡◌, refl, sym, ap, ap₂, ◌∙◌, ◌⊎◌, inl, inr, Bool, true, false,
  not, ◌||◌, ◌&&◌, List, [], ◌∷◌, ◌++◌, append_assoc, append-nil, arith, length, take, drop, u64,
  ltb, All, length-append, length-take, length-drop, take-append-drop,
}
use cs144_minnow.Stream.{ByteStream, IsValid, pop, is_finished, is_empty}
use cs144_minnow.Stream.Laws.{buffer-pop, pop-IsValid}
use cs144_minnow.Messages.{TcpSenderMessage, bit, max_payload_size}
use cs144_minnow.Sender.{TcpSender, get_absolute_seqno, push_message, emit, is_fin_msg, is_idle}
use cs144_minnow.Sender.Flight.{IsInflight, push_message-IsInflight}

-- The bytes of the messages queued.
abbrev pub payloads : List TcpSenderMessage → List ℕ
payloads [] = []
payloads (m ∷ ms) = m.payload ++ payloads ms

abbrev pub IsSmall : TcpSenderMessage → Type 0
IsSmall m = length m.payload ≤ max_payload_size

-- What push relies on and keeps.
pub record IsReady (s : TcpSender) (out : ByteStream) : Type 0 where
  pub flight : IsInflight s
  pub valid : IsValid out
  pub small : All IsSmall s.m_send_queue

-- What a part of push does to the sender and the stream under the right edge wr: every byte taken
-- off the stream is queued, in order, and takes a sequence number, as does the FIN; and no number
-- beyond the right edge is taken.
pub record Sends (wr : ℕ) (s : TcpSender) (out : ByteStream) (s' : TcpSender) (out' : ByteStream)
    : Type 0 where
  pub ready : IsReady s' out'
  pub kept : payloads s'.m_send_queue ++ out'.buffer ≡ payloads s.m_send_queue ++ out.buffer
  pub numbered :
      get_absolute_seqno s' + length out'.buffer + bit s.m_fin_pushed
      ≡ get_absolute_seqno s + length out.buffer + bit s'.m_fin_pushed
  pub inside : (get_absolute_seqno s' ≤ wr) ⊎ (get_absolute_seqno s' ≡ get_absolute_seqno s)
  pub edges : (s'.m_window_left ≡ s.m_window_left) × (s'.m_window_size ≡ s.m_window_size)
  pub opened : s'.m_syc_pushed ≡ s.m_syc_pushed
  pub fewer :
      length s'.m_send_queue + length out'.buffer + bit (not s'.m_fin_pushed)
      ≤ length s.m_send_queue + length out.buffer + bit (not s.m_fin_pushed)

pub payloads-append :
    (ms : List TcpSenderMessage) (m : TcpSenderMessage)
    → payloads (ms ++ (m ∷ [])) ≡ payloads ms ++ m.payload
payloads-append [] m = append-nil m.payload
payloads-append (n ∷ ms) m =
    ap (λ t. n.payload ++ t) (payloads-append ms m)
    ∙ sym (append_assoc n.payload (payloads ms) m.payload)

pub Sends-trans :
    (wr : ℕ) (s s' s'' : TcpSender) (out out' out'' : ByteStream)
    → Sends wr s out s' out'
    → Sends wr s' out' s'' out''
    → Sends wr s out s'' out''
Sends-trans wr s s' s'' out out' out'' f g = record {
  ready = g.ready;
  kept = g.kept ∙ f.kept;
  numbered = omega (arith, f.numbered, g.numbered);
  inside = ground (arith, f.inside, g.inside);
  edges = (g.edges.0 ∙ f.edges.0, g.edges.1 ∙ f.edges.1);
  opened = g.opened ∙ f.opened;
  fewer = omega (arith, f.fewer, g.fewer);
}

pub Sends-refl : (wr : ℕ) (s : TcpSender) (out : ByteStream) → IsReady s out → Sends wr s out s out
Sends-refl wr s out r = record {
  ready = r;
  kept = refl;
  numbered = refl;
  inside = inr refl;
  edges = (refl, refl);
  opened = refl;
  fewer = omega arith;
}

busy : (p : List ℕ) (f : Bool) → (is_empty p && not f) ≡ false → 0 < length p + bit f
busy [] true h = omega arith
busy [] false h = absurd (ground arith)
busy (x ∷ p) f h = omega arith

bit-not : (b : Bool) → bit (not b) + bit b ≡ 1
bit-not true = refl
bit-not false = refl

fin_room :
    (f full : Bool) (len seqno n wr : ℕ)
    → (ltb (u64 (len + seqno)) wr && full) ≡ f
    → len ≤ n
    → seqno + n ≤ wr
    → wr + 2 < 2 ^ 64
    → seqno + (len + bit f) ≤ wr
fin_room true full len seqno n wr e h k w = ground arith
fin_room false full len seqno n wr e h k w = omega arith

-- A message of the first n bytes of the buffer, with or without FIN, that fits under the right edge.
take-Sends :
    (wr n : ℕ) (f : Bool) (s : TcpSender) (out : ByteStream)
    → IsReady s out
    → s.m_fin_pushed ≡ false
    → length (take n out.buffer) ≤ max_payload_size
    → get_absolute_seqno s + (length (take n out.buffer) + bit f) ≤ wr
    → wr + 2 < 2 ^ 64
    → 0 < length (take n out.buffer) + bit f
    → Sends wr s out
        (push_message (take n out.buffer) false f (record s { m_fin_pushed = s.m_fin_pushed || f }))
        (pop n out)
take-Sends wr n f s out r nf hn fits hw some_numbers =
    let payload = take n out.buffer in
    let s0 : TcpSender = record s { m_fin_pushed = s.m_fin_pushed || f } in
    let pushed = push_message-IsInflight payload false f s0 r.flight (omega arith) (omega arith) in
    let fin : bit (s.m_fin_pushed || f) ≡ bit s.m_fin_pushed + bit f = rw nf (omega arith) in
    let closed : bit (not (s.m_fin_pushed || f)) + bit f ≡ 1 = rw nf (bit-not f) in
    let popped = buffer-pop n out in
    record {
      ready = record {
        flight = pushed.0;
        valid = pop-IsValid n out r.valid;
        small = unfold push_message in All-append IsSmall s.m_send_queue (_ ∷ []) r.small (hn, tt);
      };
      kept =
          unfold push_message in
          (ap₂ ◌++◌ (payloads-append s.m_send_queue _) popped
            ∙ append_assoc (payloads s.m_send_queue) payload (drop n out.buffer)
            ∙ ap (λ t. payloads s.m_send_queue ++ t) (take-append-drop n out.buffer));
      numbered =
          unfold push_message in
          omega (
            arith,
            pushed.1,
            fin,
            ap length popped,
            length-take n out.buffer,
            length-drop n out.buffer,
          );
      inside = inl (omega (arith, pushed.1));
      edges = unfold push_message in (refl, refl);
      opened = unfold push_message in refl;
      fewer =
          unfold push_message in
          omega (
            arith,
            length-append s.m_send_queue (_ ∷ []),
            closed,
            some_numbers,
            ap (λ b. bit (not b)) nf,
            ap length popped,
            length-take n out.buffer,
            length-drop n out.buffer,
          );
    }

-- The same for what emit decides of the FIN.
pub emit-Sends :
    (wr n : ℕ) (s : TcpSender) (out : ByteStream)
    → IsReady s out
    → s.m_fin_pushed ≡ false
    → length (take n out.buffer) ≤ max_payload_size
    → get_absolute_seqno s + n ≤ wr
    → wr + 2 < 2 ^ 64
    → is_idle wr (take n out.buffer) (pop n out) s ≡ false
    → Sends wr s out (emit wr (take n out.buffer) (pop n out) s) (pop n out)
unfolding emit
emit-Sends wr n s out r nf hn fits hw not_idle =
    let payload = take n out.buffer in
    let f = is_fin_msg wr payload (pop n out) s in
    take-Sends wr n f s out r nf hn
      (fin_room f (is_finished (pop n out)) (length payload) (get_absolute_seqno s) n wr refl
        (omega (arith, length-take n out.buffer)) fits hw)
      hw (busy payload f not_idle)

-- Nothing was read and no FIN is due.
pub idle-Sends :
    (wr n : ℕ) (s : TcpSender) (out : ByteStream)
    → IsReady s out
    → is_idle wr (take n out.buffer) (pop n out) s ≡ true
    → Sends wr s out s (pop n out)
idle-Sends wr n s out r is_idle_now =
    let nothing : take n out.buffer ≡ [] = empty_of (take n out.buffer) _ is_idle_now in
    let same : (pop n out).buffer ≡ out.buffer =
      buffer-pop n out ∙ rw nothing at (take-append-drop n out.buffer) in
    record {
      ready = record { flight = r.flight; valid = pop-IsValid n out r.valid; small = r.small };
      kept = ap (λ t. payloads s.m_send_queue ++ t) same;
      numbered = rw same;
      inside = inr refl;
      edges = (refl, refl);
      opened = refl;
      fewer = omega (arith, ap length same);
    }
  where
    empty_of : (p : List ℕ) (f : Bool) → (is_empty p && f) ≡ true → p ≡ []
    empty_of [] f h = refl
    empty_of (x ∷ p) f h = ground arith

-- What bounds the loop over full segments falls.
pub emit_smaller :
    (wr n : ℕ) (s : TcpSender) (out : ByteStream)
    → s.m_fin_pushed ≡ false
    → 0 < n
    → is_idle wr (take n out.buffer) (pop n out) s ≡ false
    → length (pop n out).buffer + bit (not (emit wr (take n out.buffer) (pop n out) s).m_fin_pushed)
      < length out.buffer + 1
unfolding emit push_message
emit_smaller wr n s out nf h not_idle =
    smaller (is_fin_msg wr (take n out.buffer) (pop n out) s)
      (busy (take n out.buffer) (is_fin_msg wr (take n out.buffer) (pop n out) s) not_idle)
  where
    smaller :
        (f : Bool)
        → 0 < length (take n out.buffer) + bit f
        → length (pop n out).buffer + bit (not (s.m_fin_pushed || f)) < length out.buffer + 1
    smaller true q = rw nf (
        omega
          (arith, ap length (buffer-pop n out), length-drop n out.buffer, length-take n out.buffer))
    smaller false q = rw nf (
        omega
          (arith, ap length (buffer-pop n out), length-drop n out.buffer, length-take n out.buffer))
