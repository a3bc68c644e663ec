-- ===== src/Receiver/Laws.antt =====
-- What the receiver of src/tcp_receiver.cc does with the segments of a stream, and what it answers.
use cs144_minnow.Base.{
  ℕ, ◌+◌, ◌-◌, ◌≤◌, ◌<◌, ◌^◌, ◌≡◌, refl, ◌∙◌, ◌⊎◌, inl, inr, Bool, true, false, ◌||◌, none, some,
  length, arith, min, IsU32, IsU64, u64, Bool-cases, if◌then◌else◌,
}
use cs144_minnow.Wrap.{Wrap32, wrap, unwrap}
use cs144_minnow.Wrap.Laws.{unwrap-wrap, wrap_zero, gap}
use cs144_minnow.Stream.{ByteStream, IsValid}
use cs144_minnow.Stream.Laws.{available-IsValid}
use cs144_minnow.Reassembler.{Reassembler, insert}
use cs144_minnow.Reassembler.Chain.{Agree}
use cs144_minnow.Reassembler.Safety.{Stored, insert-Stored}
use cs144_minnow.Messages.{TcpSenderMessage, bit}
use cs144_minnow.Receiver.{TcpReceiver, receive, send, first_index}

-- A segment of the stream src whose peer counts from the zero point z: its payload is that of src
-- from index k on, and its sequence number is that of the SYN (and k is 0), or that of byte k.
pub record IsSegment (src : ℕ → ℕ) (z : Wrap32) (k : ℕ) (m : TcpSenderMessage) : Type 0 where
  pub numbered : m.seqno ≡ wrap (k + 1 - bit m.syn) z
  pub syn_first : m.syn ≡ true → k ≡ 0
  pub agrees : Agree src k m.payload
  pub word : k + length m.payload < 2 ^ 64

-- The zero point is the peer's, once a SYN has been received.
abbrev pub IsTuned : Wrap32 → TcpReceiver → Type 0
IsTuned z rcv = (rcv.m_syn_rcvd ≡ false) ⊎ (rcv.m_recv_zero_point ≡ z)

pub receive_before_syn :
    (past_end : ℕ) (m : TcpSenderMessage) (rcv : TcpReceiver) (r : Reassembler) (out : ByteStream)
    → rcv.m_syn_rcvd ≡ false
    → m.syn ≡ false
    → receive past_end m rcv r out ≡ (rcv, r, out)
unfolding receive
receive_before_syn past_end m rcv r out h k = ground arith

bit-le : (b : Bool) → bit b ≤ 1
bit-le true = omega arith
bit-le false = omega arith

pub first_index-IsSegment :
    (src : ℕ → ℕ) (z : Wrap32) (k : ℕ) (m : TcpSenderMessage) (out : ByteStream)
    → IsSegment src z k m
    → IsU32 z.raw_value
    → out.bytes_pushed < 2 ^ 63
    → gap k out.bytes_pushed < 2 ^ 31 - 1
    → first_index z m out ≡ k
unfolding first_index
first_index-IsSegment src z k m out g hz hp near =
    let u : unwrap m.seqno z out.bytes_pushed ≡ k + 1 - bit m.syn = rw g.numbered (
      unwrap-wrap (k + 1 - bit m.syn) z out.bytes_pushed hz (omega arith)
        (omega (arith, bit-le m.syn)) (omega (arith, bit-le m.syn))) in
    omega (arith, u, bit-le m.syn)

-- The zero point that a segment is read with.
zero_point_of : Wrap32 → TcpSenderMessage → Wrap32
zero_point_of z m = if m.syn then m.seqno else z

zero_point_of-IsSegment :
    (src : ℕ → ℕ) (z : Wrap32) (k : ℕ) (m : TcpSenderMessage) (rcv : TcpReceiver)
    → IsSegment src z k m
    → IsU32 z.raw_value
    → IsTuned z rcv
    → (rcv.m_syn_rcvd || m.syn) ≡ true
    → zero_point_of rcv.m_recv_zero_point m ≡ z
unfolding zero_point_of
zero_point_of-IsSegment src z k m rcv g hz hr known = elim (Bool-cases m.syn) [
  | inl t ↦
      let none_before : k + 1 - bit m.syn ≡ 0 = rw (t, g.syn_first t) (omega arith) in
      rw t (g.numbered ∙ rw none_before (wrap_zero z hz))
  | inr f ↦ rw f (tuned f hr)
]
  where
    tuned : m.syn ≡ false → IsTuned z rcv → rcv.m_recv_zero_point ≡ z
    tuned f (inl e) = ground arith
    tuned f (inr e) = e

-- Once a SYN has been received, or with one, a segment of the stream src that starts at index k,
-- less than 2^31 - 1 from the number of bytes pushed, is handed to Reassembler.insert at index k,
-- and the zero point is the peer's.
pub receive_inserts :
    (src : ℕ → ℕ) (past_end : ℕ) (z : Wrap32) (k : ℕ) (m : TcpSenderMessage) (rcv : TcpReceiver)
    (r : Reassembler) (out : ByteStream)
    → IsSegment src z k m
    → IsU32 z.raw_value
    → IsTuned z rcv
    → (rcv.m_syn_rcvd || m.syn) ≡ true
    → out.bytes_pushed < 2 ^ 63
    → gap k out.bytes_pushed < 2 ^ 31 - 1
    → let q = insert past_end k m.payload m.fin r out in
      receive past_end m rcv r out ≡ (
        record { m_recv_zero_point = z; m_syn_rcvd = true; m_fin_rcvd = rcv.m_fin_rcvd || m.fin },
        q.0,
        q.1,
      )
unfolding receive zero_point_of
receive_inserts src past_end z k m rcv r out g hz hr known hp near =
    let zp = zero_point_of-IsSegment src z k m rcv g hz hr known in
    let fi = first_index-IsSegment src z k m out g hz hp near in rw (known, zp, fi) refl

-- receive of a segment of the stream src that starts less than 2^31 - 1 from the number of bytes
-- pushed keeps what is stored and pushed that of src, as insert-Stored states, and the zero point.
pub receive-Stored :
    (src : ℕ → ℕ) (past_end : ℕ) (z : Wrap32) (k : ℕ) (m : TcpSenderMessage) (rcv : TcpReceiver)
    (r : Reassembler) (out : ByteStream)
    → IsSegment src z k m
    → IsU32 z.raw_value
    → IsTuned z rcv
    → out.bytes_pushed < 2 ^ 63
    → gap k out.bytes_pushed < 2 ^ 31 - 1
    → Stored src r.m_buf r.m_bytes_pending out
    → let q = receive past_end m rcv r out in
      Stored src q.1.m_buf q.1.m_bytes_pending q.2 × IsTuned z q.0
receive-Stored src past_end z k m rcv r out g hz hr hp near s =
    elim (Bool-cases (rcv.m_syn_rcvd || m.syn)) [
      | inl t ↦
          rw (receive_inserts src past_end z k m rcv r out g hz hr t hp near)
            (insert-Stored src past_end k m.payload m.fin r out g.word g.agrees s, inr refl)
      | inr f ↦ rw (receive_before_syn past_end m rcv r out (ground arith) (ground arith)) (s, hr)
    ]

-- Before a SYN, a segment without SYN changes nothing, and the answer has no ackno.
pub silent_before_syn :
    (past_end : ℕ) (m : TcpSenderMessage) (rcv : TcpReceiver) (r : Reassembler) (out : ByteStream)
    → rcv.m_syn_rcvd ≡ false
    → m.syn ≡ false
    → (receive past_end m rcv r out ≡ (rcv, r, out)) × ((send rcv out).ackno ≡ none)
unfolding send
silent_before_syn past_end m rcv r out h k = (receive_before_syn past_end m rcv r out h k, rw h)

-- After a SYN the answer has an ackno that unwrap, with a checkpoint less than 2^31 from it, takes
-- for the number of bytes pushed, one more for the SYN and one more for the end of a closed stream.
pub send_acks :
    (rcv : TcpReceiver) (out : ByteStream) (c : ℕ)
    → rcv.m_syn_rcvd ≡ true
    → IsU32 rcv.m_recv_zero_point.raw_value
    → IsU64 c
    → out.bytes_pushed < 2 ^ 63
    → gap (out.bytes_pushed + 1 + bit out.is_close) c < 2 ^ 31
    → (a : Wrap32) × ((send rcv out).ackno ≡ some a)
      × (unwrap a rcv.m_recv_zero_point c ≡ out.bytes_pushed + 1 + bit out.is_close)
unfolding send
send_acks rcv out c t hz hc hp near = (
  wrap (out.bytes_pushed + 1 + bit out.is_close) rcv.m_recv_zero_point,
  rw (t, absolute_ackno) refl,
  unwrap-wrap (out.bytes_pushed + 1 + bit out.is_close) rcv.m_recv_zero_point c hz hc
      (omega (arith, bit-le out.is_close)) near,
)
  where
    absolute_ackno :
        (if out.is_close then u64 (out.bytes_pushed + 2) else u64 (out.bytes_pushed + 1))
        ≡ out.bytes_pushed + 1 + bit out.is_close
    absolute_ackno = ground arith

-- The window of the answer is the room in a valid stream, at most 65535, before and after a SYN.
pub window_size-send :
    (rcv : TcpReceiver) (out : ByteStream)
    → IsValid out
    → (send rcv out).window_size ≡ min 65535 (out.capacity - length out.buffer)
unfolding send
window_size-send rcv out v = ground (arith, available-IsValid out v)
