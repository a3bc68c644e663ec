-- ===== src/Host/Collecting.antt =====
-- TCPMinnowSocket::collect_segments (util/tcp_minnow_socket.cc).
use cs144_minnow.Base.{
  ℕ, zero, suc, ◌<◌, ◌≡◌, refl, sym, ap, ◌∙◌, subst, inl, inr, All, Option, none, some, Bool, true,
  false, ◌||◌, List, [], ◌∷◌, ◌++◌, append_assoc, arith, if◌then◌else◌, Bool-cases,
}
use cs144_minnow.Base.Outcome.{Outcome, ok, ◌>>=◌}
use cs144_minnow.Stream.{ByteStream}
use cs144_minnow.Messages.{TcpReceiverMessage, TcpSenderMessage, bit}
use cs144_minnow.Receiver
use cs144_minnow.Sender
use cs144_minnow.Sender.{TcpSender}
use cs144_minnow.Sender.Emit.{IsReady, payloads}
use cs144_minnow.Sender.Drain.{IsBounded, Pushed, push-Pushed, maybe_send-Taken, maybe_send_empty}
use cs144_minnow.Wire.Segment.{TcpSegment}
use cs144_minnow.Peer.{TcpPeer, has_ackno, or_empty, segment, send_next, push, maybe_send}
use cs144_minnow.Host.TcpSocket.{TcpSocket, rounds_left, collect, collect_segments}

-- The bytes of the segments.
abbrev pub carried : List TcpSegment → List ℕ
carried [] = []
carried (seg ∷ segs) = seg.sender_message.payload ++ carried segs

-- The bytes that the peer has still to send, in order.
abbrev pub queued : TcpPeer → List ℕ
queued p = payloads p.sender.m_send_queue ++ p.outbound_stream.buffer

-- What the receiver says.
abbrev pub answer : TcpPeer → TcpReceiverMessage
answer p = Receiver.send p.receiver p.inbound_stream

pub record IsReadyPeer (p : TcpPeer) : Type 0 where
  pub ready : IsReady p.sender p.outbound_stream
  pub bounded : IsBounded p.sender

-- maybe_send returned nothing, and left p'.
record IsDone (p p' : TcpPeer) : Type 0 where
  ready : IsReadyPeer p'
  drained : p'.sender.m_send_queue ≡ []
  replied : p'.need_send ≡ false
  kept : queued p' ≡ queued p

-- maybe_send returned a segment, and left p'.
record IsTaken (p : TcpPeer) (seg : TcpSegment) (p' : TcpPeer) : Type 0 where
  ready : IsReadyPeer p'
  acks : seg.receiver_message ≡ answer p
  same : answer p' ≡ answer p
  kept : seg.sender_message.payload ++ queued p' ≡ queued p
  fewer : rounds_left p' < rounds_left p

abbrev Step : TcpPeer → Option TcpSegment × TcpPeer → Type 0
Step p (none, p') = IsDone p p'
Step p (some seg, p') = IsTaken p seg p'

send_next-Step :
    (p : TcpPeer) (s : TcpSender) (out : ByteStream)
    → Pushed p.sender p.outbound_stream s out
    → Step p (send_next (answer p) (record p { sender = s; outbound_stream = out }))
unfolding rounds_left Sender.send_empty_message
send_next-Step p s out h = by_queue s.m_send_queue refl
  where
    q : TcpPeer
    q = record p { sender = s; outbound_stream = out }

    -- send_next, for the due answer and what the sender gives.
    next : Bool → Option TcpSenderMessage × TcpSender → Option TcpSegment × TcpPeer
    next due r = (
      segment (answer p) (out.error || p.inbound_stream.error) (or_empty due r.1 r.0),
      record q { sender = r.1; need_send = false },
    )

    nothing : (due : Bool) → p.need_send ≡ due → s.m_send_queue ≡ [] → Step p (next due (none, s))
    nothing false e d = record {
      ready = record { ready = h.ready; bounded = h.bounded };
      drained = d;
      replied = refl;
      kept = h.kept;
    }
    nothing true e d = record {
      ready = record { ready = h.ready; bounded = h.bounded };
      acks = refl;
      same = refl;
      kept = h.kept;
      fewer = omega (arith, h.fewer, ap bit e);
    }

    by_queue : (ms : List TcpSenderMessage) → s.m_send_queue ≡ ms → Step p (send_next (answer p) q)
    by_queue [] e =
        subst (λ r. Step p (next p.need_send r)) (sym (maybe_send_empty s e))
          (nothing p.need_send refl e)
    by_queue (m ∷ ms) e =
        let (s', t) = maybe_send-Taken s out m ms e h.ready h.bounded in
        subst (λ r. Step p (next p.need_send r)) (sym t.call)
          (record {
            ready = record { ready = t.ready; bounded = t.bounded };
            acks = refl;
            same = refl;
            kept =
                sym (append_assoc m.payload (payloads s'.m_send_queue) out.buffer)
                ∙ ap (λ l. l ++ out.buffer) t.kept
                ∙ h.kept;
            fewer = omega (arith, t.fewer, h.fewer);
          })

Pushed-refl :
    (p : TcpPeer) → IsReadyPeer p → Pushed p.sender p.outbound_stream p.sender p.outbound_stream
Pushed-refl p r = record { ready = r.ready; bounded = r.bounded; kept = refl; fewer = omega arith }

maybe_send-Step :
    (p : TcpPeer)
    → IsReadyPeer p
    → (r : Option TcpSegment × TcpPeer) × (maybe_send p ≡ ok r) × Step p r
unfolding maybe_send push
maybe_send-Step p r =
    let by : TcpPeer → Outcome (Option TcpSegment × TcpPeer) = λ q. ok (send_next (answer p) q) in
    let (s, out, e, h) = push-Pushed p.sender p.outbound_stream r.ready r.bounded in
    elim (Bool-cases (has_ackno p)) [
      | inl k ↦ (
        send_next (answer p) (record p { sender = s; outbound_stream = out }),
        ap (λ c. if c then (push p >>= by) else by p) k
            ∙ ap (λ o. o >>= (λ t. ok (record p { sender = t.0; outbound_stream = t.1 })) >>= by) e,
        send_next-Step p s out h,
      )
      | inr k ↦ (
        send_next (answer p) p,
        ap (λ c. if c then (push p >>= by) else by p) k,
        send_next-Step p p.sender p.outbound_stream (Pushed-refl p r),
      )
    ]

-- What the segments collected are, and what the peer is then.
pub record Collected (p : TcpPeer) (segs : List TcpSegment) (p' : TcpPeer) : Type 0 where
  pub ready : IsReadyPeer p'
  pub drained : p'.sender.m_send_queue ≡ []
  pub replied : p'.need_send ≡ false
  pub acks : All (λ seg. seg.receiver_message ≡ answer p) segs
  pub kept : carried segs ++ p'.outbound_stream.buffer ≡ queued p

last-Collected : (p p' : TcpPeer) → IsDone p p' → Collected p [] p'
last-Collected p p' d = record {
  ready = d.ready;
  drained = d.drained;
  replied = d.replied;
  acks = tt;
  kept = ap (λ l. payloads l ++ p'.outbound_stream.buffer) (sym d.drained) ∙ d.kept;
}

next-Collected :
    (p p1 p' : TcpPeer) (seg : TcpSegment) (segs : List TcpSegment)
    → IsTaken p seg p1
    → Collected p1 segs p'
    → Collected p (seg ∷ segs) p'
next-Collected p p1 p' seg segs t c = record {
  ready = c.ready;
  drained = c.drained;
  replied = c.replied;
  acks = (t.acks, subst (λ a. All (λ g. g.receiver_message ≡ a) segs) t.same c.acks);
  kept =
      append_assoc seg.sender_message.payload (carried segs) p'.outbound_stream.buffer
      ∙ ap (λ l. seg.sender_message.payload ++ l) c.kept
      ∙ t.kept;
}

-- What collect returns.
abbrev pub Collects : TcpPeer → Outcome (List TcpSegment × TcpPeer) → Type 0
Collects p m = (segs : List TcpSegment) × (p' : TcpPeer) × (m ≡ ok (segs, p')) × Collected p segs p'

collect-none :
    (fuel : ℕ) (p p' : TcpPeer) → maybe_send p ≡ ok (none, p') → collect (suc fuel) p ≡ ok ([], p')
unfolding collect
collect-none fuel p p' e = rw e refl

collect-some :
    (fuel : ℕ) (p p1 : TcpPeer) (seg : TcpSegment)
    → maybe_send p ≡ ok (some seg, p1)
    → collect (suc fuel) p ≡ (collect fuel p1 >>= λ t. ok (seg ∷ t.0, t.1))
unfolding collect
collect-some fuel p p1 seg e = rw e refl

collect_round :
    (fuel : ℕ) (p : TcpPeer)
    → rounds_left p < suc fuel
    → ((p1 : TcpPeer) → IsReadyPeer p1 → rounds_left p1 < fuel → Collects p1 (collect fuel p1))
    → (r : Option TcpSegment × TcpPeer) × (maybe_send p ≡ ok r) × Step p r
    → Collects p (collect (suc fuel) p)
collect_round fuel p h again ((none, p'), e, d) =
    ([], p', collect-none fuel p p' e, last-Collected p p' d)
collect_round fuel p h again ((some seg, p1), e, t) =
    let (segs, p', q, c) = again p1 t.ready (omega (arith, t.fewer)) in
    (
      seg ∷ segs,
      p',
      collect-some fuel p p1 seg e ∙ ap (λ m. m >>= λ t. ok (seg ∷ t.0, t.1)) q,
      next-Collected p p1 p' seg segs t c,
    )

collect-Collects :
    (fuel : ℕ) (p : TcpPeer) → IsReadyPeer p → rounds_left p < fuel → Collects p (collect fuel p)
collect-Collects zero p r h = absurd (omega arith)
collect-Collects (suc fuel) p r h =
    collect_round fuel p h (λ p1 r1 h1. collect-Collects fuel p1 r1 h1) (maybe_send-Step p r)

-- If the peer's sender is ready to push and its numbers stay below 2^64, collect_segments returns:
-- its loop ends. It puts segments behind those that wait to go out, each with what the receiver
-- says; their payloads and then the outbound stream are the bytes that were queued and buffered, in
-- order; and the peer is left with an empty queue and no answer due, ready to push again.
pub collect_segments-Collects :
    {A E : Type 0} (w : TcpSocket A E) (p : TcpPeer)
    → w.tcp ≡ some p
    → IsReadyPeer p
    → (segs : List TcpSegment) × (p' : TcpPeer) × (collect_segments w
        ≡ ok (record w { outgoing_segments = w.outgoing_segments ++ segs; tcp = some p' }))
      × Collected p segs p'
unfolding collect_segments
collect_segments-Collects w p e r =
    let (segs, p', q, c) = collect-Collects (suc (rounds_left p)) p r (omega arith) in
    (segs, p', rw (e, q) refl, c)
