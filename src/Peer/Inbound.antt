-- ===== src/Peer/Inbound.antt =====
-- What the peer of util/tcp_peer.hh does to the half of it that receives.
use cs144_minnow.Base.{
  ℕ, ◌-◌, ◌<◌, ◌^◌, ◌≡◌, refl, ◌∙◌, true, false, not, ◌||◌, ◌⊎◌, inl, inr, Option, arith,
  Bool-cases, IsU32,
}
use cs144_minnow.Wrap.{Wrap32}
use cs144_minnow.Stream.{ByteStream, set_error}
use cs144_minnow.Reassembler.{Reassembler}
use cs144_minnow.Reassembler.Safety.{Stored}
use cs144_minnow.Reassembler.Readers.{SameReader, insert-SameReader}
use cs144_minnow.Messages.{TcpSenderMessage}
use cs144_minnow.Receiver.{TcpReceiver}
use cs144_minnow.Receiver
use cs144_minnow.Receiver.Laws.{IsSegment, IsTuned, receive-Stored}
use cs144_minnow.Wire.Segment.{TcpSegment}
use cs144_minnow.Sender
use cs144_minnow.Peer.{TcpPeer, receive, push, tick, maybe_send, has_ackno}
use cs144_minnow.Host.After.{After, After-if, After-bind, After-any}

-- The peer holds bytes of src only, whose SYN has the number z.
pub record IsInbound (src : ℕ → ℕ) (z : Wrap32) (p : TcpPeer) : Type 0 where
  pub stored : Stored src p.reassembler.m_buf p.reassembler.m_bytes_pending p.inbound_stream
  pub tuned : IsTuned z p.receiver

-- The half of the peer that receives is the same.
pub record SameInbound (p p' : TcpPeer) : Type 0 where
  pub receiver : p'.receiver ≡ p.receiver
  pub reassembler : p'.reassembler ≡ p.reassembler
  pub inbound : p'.inbound_stream ≡ p.inbound_stream

pub SameInbound-refl : (p : TcpPeer) → SameInbound p p
SameInbound-refl p = record { receiver = refl; reassembler = refl; inbound = refl }

pub SameInbound-trans : (p q r : TcpPeer) → SameInbound p q → SameInbound q r → SameInbound p r
SameInbound-trans p q r f g = record {
  receiver = g.receiver ∙ f.receiver;
  reassembler = g.reassembler ∙ f.reassembler;
  inbound = g.inbound ∙ f.inbound;
}

pub IsInbound-same :
    (src : ℕ → ℕ) (z : Wrap32) (p p' : TcpPeer)
    → SameInbound p p'
    → IsInbound src z p
    → IsInbound src z p'
IsInbound-same src z p p' same h = record {
  stored = rw (same.reassembler, same.inbound) h.stored;
  tuned = rw same.receiver h.tuned;
}

-- A segment that the connection's other end sends: a RST, or bytes of src near its start.
abbrev pub IsOf : (ℕ → ℕ) → Wrap32 → TcpSegment → Type 0
IsOf src z seg =
    (seg.reset ≡ true) ⊎ ((k : ℕ) × IsSegment src z k seg.sender_message × (k < 2 ^ 31 - 1))

receive-SameReader :
    (past_end : ℕ) (m : TcpSenderMessage) (rcv : TcpReceiver) (r : Reassembler) (out : ByteStream)
    → SameReader out (Receiver.receive past_end m rcv r out).2
unfolding Receiver.receive
receive-SameReader past_end m rcv r out = elim (Bool-cases (not (rcv.m_syn_rcvd || m.syn))) [
  | inl t ↦ rw t (refl, refl)
  | inr f ↦ rw f (insert-SameReader past_end _ m.payload m.fin r out)
]

set_error-Stored :
    (src : ℕ → ℕ) (p : TcpPeer)
    → Stored src p.reassembler.m_buf p.reassembler.m_bytes_pending p.inbound_stream
    → Stored src p.reassembler.m_buf p.reassembler.m_bytes_pending (set_error p.inbound_stream)
unfolding set_error
set_error-Stored src p s = record {
  chain = s.chain;
  agrees = s.agrees;
  counted = s.counted;
  output = record {
    valid = record {
      word = s.output.valid.word;
      within = s.output.valid.within;
      popped = s.output.valid.popped;
      counted = s.output.valid.counted;
    };
    sum = s.output.sum;
    agrees = s.output.agrees;
    fits = s.output.fits;
  };
}

received :
    (src : ℕ → ℕ) (z : Wrap32) (past_end : ℕ) (seg : TcpSegment) (p : TcpPeer)
    → IsU32 z.raw_value
    → IsOf src z seg
    → p.inbound_stream.bytes_pushed < 2 ^ 31 - 1
    → IsInbound src z p
    → (seg.reset || p.inbound_stream.error) ≡ false
    → let q =
        Receiver.receive past_end seg.sender_message p.receiver p.reassembler p.inbound_stream in
      Stored src q.1.m_buf q.1.m_bytes_pending q.2 × IsTuned z q.0
received src z past_end seg p hz (inl t) near h f = absurd (ground arith)
received src z past_end seg p hz (inr (k, g, small)) near h f =
    receive-Stored src past_end z k seg.sender_message p.receiver p.reassembler p.inbound_stream g
      hz h.tuned (omega arith) (ground arith) h.stored

-- A segment of the connection's other end leaves a peer that holds bytes of src only, if fewer than
-- 2^31 - 1 bytes were pushed.
pub receive-IsInbound :
    (src : ℕ → ℕ) (z : Wrap32) (past_end : ℕ) (seg : TcpSegment) (p : TcpPeer)
    → IsU32 z.raw_value
    → IsOf src z seg
    → p.inbound_stream.bytes_pushed < 2 ^ 31 - 1
    → IsInbound src z p
    → IsInbound src z (receive past_end seg p)
      × SameReader p.inbound_stream (receive past_end seg p).inbound_stream
unfolding receive
receive-IsInbound src z past_end seg p hz g near h =
    elim (Bool-cases (seg.reset || p.inbound_stream.error)) [
      | inl t ↦ rw t (
        record { stored = set_error-Stored src p h.stored; tuned = h.tuned },
        unfold set_error in (refl, refl),
      )
      | inr f ↦
          let q = received src z past_end seg p hz g near h f in
          rw f (
            record { stored = q.0; tuned = q.1 },
            receive-SameReader past_end seg.sender_message p.receiver p.reassembler
                p.inbound_stream,
          )
    ]

-- The operations of the other half.
pub push-SameInbound : (p : TcpPeer) → After (SameInbound p) (push p)
unfolding push
push-SameInbound p =
    After-bind (SameInbound p) _ (Sender.push p.outbound_stream p.sender) _
      (After-any (Unit {0}) (Sender.push p.outbound_stream p.sender) tt)
      (λ r _. record { receiver = refl; reassembler = refl; inbound = refl })

pub tick-SameInbound : (ms : ℕ) (p : TcpPeer) → After (SameInbound p) (tick ms p)
unfolding tick
tick-SameInbound ms p =
    After-bind (SameInbound p) _ (Sender.tick ms p.sender) _
      (After-any (Unit {0}) (Sender.tick ms p.sender) tt)
      (λ r _. record { receiver = refl; reassembler = refl; inbound = refl })

pub maybe_send-SameInbound :
    (p : TcpPeer) → After (λ (r : Option TcpSegment × TcpPeer). SameInbound p r.1) (maybe_send p)
unfolding maybe_send
maybe_send-SameInbound p =
    let Q : Option TcpSegment × TcpPeer → Type 0 = λ r. SameInbound p r.1 in
    After-if Q (has_ackno p) _ _
      (λ _. After-bind Q (SameInbound p) (push p) _ (push-SameInbound p) (λ q same. record {
        receiver = same.receiver;
        reassembler = same.reassembler;
        inbound = same.inbound;
      }))
      (λ _. record { receiver = refl; reassembler = refl; inbound = refl })
