-- ===== src/Peer/Replies.antt =====
-- When the peer of util/tcp_peer.hh answers a segment.
use cs144_minnow.Base.{
  ℕ, ◌+◌, ◌<◌, ◌^◌, ◌≡◌, refl, ap, ◌∙◌, inl, inr, Bool, true, false, ◌||◌, Option, none, some,
  arith, ltb, if◌then◌else◌, Bool-cases,
}
use cs144_minnow.Base.Outcome.{Outcome, ok, ◌>>=◌}
use cs144_minnow.Messages.{TcpSenderMessage, TcpReceiverMessage, sequence_length, max_payload_size}
use cs144_minnow.Receiver
use cs144_minnow.Sender.{TcpSender, window_right, get_absolute_seqno}
use cs144_minnow.Sender
use cs144_minnow.Sender.Emit.{IsReady}
use cs144_minnow.Sender.Push.{push-Sends}
use cs144_minnow.Wire.Segment.{TcpSegment}
use cs144_minnow.Peer.{
  TcpPeer, has_ackno, our_ackno, is_keep_alive, or_empty, segment, send_next, push, receive,
  maybe_send,
}

or_true : (a b c : Bool) → b ≡ true → (a || b || c) ≡ true
or_true a b c h = ground arith

need_send-if : (c : Bool) (x y : TcpPeer) → c ≡ false → (if c then x else y).need_send ≡ y.need_send
need_send-if true x y h = absurd (ground arith)
need_send-if false x y h = refl

-- A segment without RST that takes a sequence number makes an answer due.
receive-need_send :
    (past_end : ℕ) (seg : TcpSegment) (p : TcpPeer)
    → (seg.reset || p.inbound_stream.error) ≡ false
    → 0 < sequence_length seg.sender_message
    → (receive past_end seg p).need_send ≡ true
unfolding receive
receive-need_send past_end seg p h n =
    need_send-if _ _ _ h
    ∙ or_true p.need_send (ltb 0 (sequence_length seg.sender_message))
        (is_keep_alive seg.sender_message.seqno (our_ackno p)) (ground arith)

segment-due :
    (rm : TcpReceiverMessage) (r : Bool) (s : TcpSender) (m : Option TcpSenderMessage) (due : Bool)
    → due ≡ true
    → (answer : TcpSegment) × (segment rm r (or_empty due s m) ≡ some answer)
      × (answer.receiver_message ≡ rm)
segment-due rm r s (some m) due h = (_, refl, refl)
segment-due rm r s none true h = (_, refl, refl)
segment-due rm r s none false h = absurd (ground arith)

-- What maybe_send returns in a peer where an answer is due.
abbrev pub Answers : TcpPeer → Type 0
Answers p =
    (answer : TcpSegment) × (p' : TcpPeer) × (maybe_send p ≡ ok (some answer, p'))
    × (answer.receiver_message ≡ Receiver.send p.receiver p.inbound_stream)
    × (p'.need_send ≡ false)

maybe_send-due :
    (p : TcpPeer)
    → p.need_send ≡ true
    → IsReady p.sender p.outbound_stream
    → window_right p.sender + max_payload_size + 2 < 2 ^ 64
    → get_absolute_seqno p.sender + max_payload_size + 4 < 2 ^ 64
    → Answers p
unfolding maybe_send push
maybe_send-due p due ready hw hs =
    let rm = Receiver.send p.receiver p.inbound_stream in
    let (s, out, e, sends) = push-Sends p.sender p.outbound_stream ready hw hs in
    let pushed : Outcome TcpPeer = push p in
    let after = record p { sender = s; outbound_stream = out } in
    let by : TcpPeer → Outcome (Option TcpSegment × TcpPeer) = λ q. ok (send_next rm q) in
    let (a1, e1, r1) =
      segment-due rm (out.error || p.inbound_stream.error) (Sender.maybe_send s).1
        (Sender.maybe_send s).0 p.need_send due in
    let (a2, e2, r2) =
      segment-due rm (p.outbound_stream.error || p.inbound_stream.error)
        (Sender.maybe_send p.sender).1 (Sender.maybe_send p.sender).0 p.need_send due in
    elim (Bool-cases (has_ackno p)) [
      | inl k ↦ (
        a1,
        (send_next rm after).1,
        ap (λ c. if c then (push p >>= by) else by p) k
            ∙ ap (λ o. o >>= (λ r. ok (record p { sender = r.0; outbound_stream = r.1 })) >>= by) e
            ∙ ap (λ x. ok (x, (send_next rm after).1)) e1,
        r1,
        refl,
      )
      | inr k ↦ (
        a2,
        (send_next rm p).1,
        ap (λ c. if c then (push p >>= by) else by p) k ∙ ap (λ x. ok (x, (send_next rm p).1)) e2,
        r2,
        refl,
      )
    ]

-- A segment without RST that takes a sequence number, received while the inbound stream has no
-- error, is answered: the next maybe_send returns a segment, with the receiver's message, if the
-- sender is then ready to push and its numbers are well below 2^64.
pub receive-Answers :
    (past_end : ℕ) (seg : TcpSegment) (p : TcpPeer)
    → (seg.reset || p.inbound_stream.error) ≡ false
    → 0 < sequence_length seg.sender_message
    → IsReady (receive past_end seg p).sender (receive past_end seg p).outbound_stream
    → window_right (receive past_end seg p).sender + max_payload_size + 2 < 2 ^ 64
    → get_absolute_seqno (receive past_end seg p).sender + max_payload_size + 4 < 2 ^ 64
    → Answers (receive past_end seg p)
receive-Answers past_end seg p h n ready hw hs =
    maybe_send-due (receive past_end seg p) (receive-need_send past_end seg p h n) ready hw hs
