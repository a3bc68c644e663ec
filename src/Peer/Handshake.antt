-- ===== src/Peer/Handshake.antt =====
-- The three-way handshake of two peers of util/tcp_peer.hh.
use cs144_minnow.Base.{
  ℕ, ◌<◌, ◌^◌, ◌≡◌, refl, ap, ◌∙◌, Bool, true, false, none, some, [], sym, subst, inl, inr, inr,
  IsU32,
}
use cs144_minnow.Base.Outcome.{ok}
use cs144_minnow.Wrap.{Wrap32, wrap}
use cs144_minnow.Stream.{ByteStream}
use cs144_minnow.Stream
use cs144_minnow.Reassembler
use cs144_minnow.Messages.{TcpSenderMessage, TcpReceiverMessage}
use cs144_minnow.Sender.{
  TcpSender, Outstanding, message_at, is_idle, get_absolute_seqno, sequence_numbers_in_flight,
}
use cs144_minnow.Receiver.{TcpReceiver}
use cs144_minnow.Receiver
use cs144_minnow.Peer.{TcpPeer, TcpConfig, our_ackno, active, is_keep_alive}
use cs144_minnow.Wire.Segment.{TcpSegment}
use cs144_minnow.Sender.Opening.{
  new_sender, syn_message, syn_queued, push_syn_sent, push_nothing, syn_sent, syn_acked,
  syn_receive,
}
use cs144_minnow.Receiver.Opening.{open_receiver, receive_empty}
use cs144_minnow.Peer
use cs144_minnow.Sender.Timer.{restart, idle}
use cs144_minnow.Reassembler.{Reassembler}
use cs144_minnow.Sender

abbrev pub config_of : ℕ → ℕ → ℕ → TcpConfig
config_of rto recv_capacity send_capacity = record {
  rt_timeout = rto;
  recv_capacity = recv_capacity;
  send_capacity = send_capacity;
  fixed_isn = none;
}

abbrev peer : TcpConfig → TcpSender → TcpReceiver → Bool → TcpPeer
peer cfg s rcv need = record {
  cfg = cfg;
  sender = s;
  receiver = rcv;
  reassembler = Reassembler.init;
  outbound_stream = Stream.init cfg.send_capacity;
  inbound_stream = Stream.init cfg.recv_capacity;
  need_send = need;
}

abbrev segment_of : TcpReceiverMessage → TcpSenderMessage → TcpSegment
segment_of rm m = record {
  sender_message = m;
  receiver_message = rm;
  reset = false;
  udinfo = record { src_port = 0; dst_port = 0; cksum = 0 };
}

-- What the receiver says of an empty stream.
abbrev says : TcpReceiver → ℕ → TcpReceiverMessage
says rcv cap = Receiver.send rcv (Stream.init cap)

abbrev ack_message : Wrap32 → TcpSenderMessage
ack_message isn = message_at 1 isn [] false false

module _ (rto recv_capacity send_capacity : ℕ) where
  abbrev cfg : TcpConfig
  cfg = config_of rto recv_capacity send_capacity

  new_peer :
      (i : ℕ)
      → Peer.init i cfg ≡ peer cfg (new_sender rto (record { raw_value = i })) Receiver.init false
  unfolding Peer.init Sender.init
  new_peer i = refl

  opens :
      (z : Wrap32)
      → Peer.push (peer cfg (new_sender rto z) Receiver.init false)
        ≡ ok (peer cfg (syn_queued rto z) Receiver.init false)
  unfolding Peer.push
  opens z = rw (push_syn_sent rto send_capacity z) refl

  send_syn :
      (z : Wrap32)
      → Peer.maybe_send (peer cfg (syn_queued rto z) Receiver.init false)
        ≡ ok (
          some (segment_of (says Receiver.init recv_capacity) (syn_message z)),
          peer cfg (syn_sent rto z) Receiver.init false,
        )
  unfolding Peer.maybe_send Receiver.send Receiver.init Stream.init Sender.maybe_send restart idle
  send_syn z = refl

  answer_syn :
      (z y : Wrap32)
      → Peer.maybe_send (peer cfg (new_sender rto z) (open_receiver y) true)
        ≡ ok (
          some (segment_of (says (open_receiver y) recv_capacity) (syn_message z)),
          peer cfg (syn_sent rto z) (open_receiver y) false,
        )
  unfolding Peer.maybe_send Peer.push Receiver.send Sender.maybe_send restart idle
  answer_syn z y = rw (push_syn_sent rto send_capacity z) (unfold Stream.init in refl)

  answer_synack :
      (window : ℕ) (z y : Wrap32)
      → Peer.maybe_send (peer cfg (syn_acked window rto z) (open_receiver y) true)
        ≡ ok (
          some (segment_of (says (open_receiver y) recv_capacity) (ack_message z)),
          peer cfg (syn_acked window rto z) (open_receiver y) false,
        )
  unfolding Peer.maybe_send Peer.push Receiver.send Sender.maybe_send
  answer_synack window z y =
      rw (push_nothing send_capacity (syn_acked window rto z) refl refl)
        (unfold Stream.init Sender.send_empty_message Sender.seqno_after in refl)

  -- A SYN comes to a peer that has sent nothing.
  receive_syn :
      (past_end n : ℕ) (z y : Wrap32)
      → IsU32 y.raw_value
      → Peer.receive past_end
          (segment_of (says Receiver.init n) (syn_message y))
          (peer cfg (new_sender rto z) Receiver.init false)
        ≡ peer cfg (new_sender rto z) (open_receiver y) true
  unfolding Peer.receive Sender.receive Receiver.send Receiver.init
  receive_syn past_end n z y h =
      rw
        (receive_empty past_end recv_capacity y true Receiver.init h
          (inl (unfold Receiver.init in refl)) refl (unfold Receiver.init in refl))
        (unfold Receiver.init Stream.init in refl)

  -- The SYN that answers comes to the peer that has sent one.
  receive_synack :
      (past_end n : ℕ) (z y : Wrap32)
      → IsU32 z.raw_value
      → IsU32 y.raw_value
      → Peer.receive past_end
          (segment_of (says (open_receiver z) n) (syn_message y))
          (peer cfg (syn_sent rto z) Receiver.init false)
        ≡ peer cfg (syn_acked (says (open_receiver z) n).window_size rto z) (open_receiver y) true
  unfolding Peer.receive Receiver.init
  receive_synack past_end n z y hz hy =
      let acked : Sender.receive (says (open_receiver z) n) (syn_sent rto z)
          ≡ syn_acked (says (open_receiver z) n).window_size rto z =
        unfold Receiver.send Stream.init in syn_receive _ rto z hz in
      rw (acked, receive_empty past_end recv_capacity y true Receiver.init hy (inl refl) refl refl)
        (unfold Stream.init in refl)

  -- The ACK comes to the peer that has answered.
  receive_ack :
      (past_end n : ℕ) (z y : Wrap32)
      → IsU32 z.raw_value
      → IsU32 y.raw_value
      → (need : Bool) × (Peer.receive past_end
            (segment_of (says (open_receiver z) n) (ack_message y))
            (peer cfg (syn_sent rto z) (open_receiver y) false)
          ≡ peer cfg
              (syn_acked (says (open_receiver z) n).window_size rto z)
              (open_receiver y)
              need)
  unfolding Peer.receive
  receive_ack past_end n z y hz hy =
      let acked : Sender.receive (says (open_receiver z) n) (syn_sent rto z)
          ≡ syn_acked (says (open_receiver z) n).window_size rto z =
        unfold Receiver.send Stream.init in syn_receive _ rto z hz in
      (
        is_keep_alive (ack_message y).seqno
            (our_ackno (peer cfg (syn_sent rto z) (open_receiver y) false)),
        rw
            (
              acked,
              receive_empty past_end recv_capacity y false (open_receiver y) hy (inr refl) refl
                  refl,
            )
            (unfold Stream.init in refl),
      )

-- The connection is open at a peer: all that it sent is acknowledged, its next number is 1, and it
-- acknowledges the SYN of the other, whose zero point is z.
pub record IsOpen (z : Wrap32) (p : TcpPeer) : Type 0 where
  pub in_flight : sequence_numbers_in_flight p.sender ≡ 0
  pub next : get_absolute_seqno p.sender ≡ 1
  pub ackno : our_ackno p ≡ some (wrap 1 z)
  pub alive : active p ≡ true

syn_acked-IsOpen :
    (rto recv_capacity send_capacity n : ℕ) (z y : Wrap32) (need : Bool)
    → IsOpen y (
        peer (config_of rto recv_capacity send_capacity) (syn_acked n rto z) (open_receiver y) need)
unfolding sequence_numbers_in_flight Sender.seqno_after Receiver.send Stream.init Peer.active
    Stream.is_finished
syn_acked-IsOpen rto recv_capacity send_capacity n z y need = record {
  in_flight = refl;
  next = refl;
  ackno = refl;
  alive = refl;
}

-- What the two peers send and receive.
pub record Handshake (past_end : ℕ) (client server : TcpPeer) (z y : Wrap32) : Type 0 where
  pub syn : TcpSegment
  pub synack : TcpSegment
  pub ack : TcpSegment
  pub pushed : TcpPeer
  pub sent : TcpPeer
  pub answered : TcpPeer
  pub opened : TcpPeer
  pub push : Peer.push client ≡ ok pushed
  pub first : Peer.maybe_send pushed ≡ ok (some syn, sent)
  pub second : Peer.maybe_send (Peer.receive past_end syn server) ≡ ok (some synack, answered)
  pub third : Peer.maybe_send (Peer.receive past_end synack sent) ≡ ok (some ack, opened)
  pub client_open : IsOpen y opened
  pub server_open : IsOpen z (Peer.receive past_end ack answered)

-- Two new peers open a connection with three segments, none of which is lost, whatever their initial
-- sequence numbers, capacities and timeouts are: the first pushes and sends a SYN, the other answers,
-- and the first answers that. Then nothing is in flight at either, each acknowledges the other's SYN,
-- and both are active.
pub handshake :
    (past_end i j rto_1 recv_1 send_1 rto_2 recv_2 send_2 : ℕ)
    → i < 2 ^ 32
    → j < 2 ^ 32
    → Handshake past_end
        (Peer.init i (config_of rto_1 recv_1 send_1))
        (Peer.init j (config_of rto_2 recv_2 send_2))
        (record { raw_value = i })
        (record { raw_value = j })
handshake past_end i j rto_1 recv_1 send_1 rto_2 recv_2 send_2 hi hj =
    let z : Wrap32 = record { raw_value = i } in
    let y : Wrap32 = record { raw_value = j } in
    let (need, acked) = receive_ack rto_2 recv_2 send_2 past_end recv_1 y z hj hi in
    record {
      syn = segment_of (says Receiver.init recv_1) (syn_message z);
      synack = segment_of (says (open_receiver z) recv_2) (syn_message y);
      ack = segment_of (says (open_receiver y) recv_1) (ack_message z);
      pushed = _;
      sent = _;
      answered = _;
      opened = _;
      push = ap Peer.push (new_peer rto_1 recv_1 send_1 i) ∙ opens rto_1 recv_1 send_1 z;
      first = send_syn rto_1 recv_1 send_1 z;
      second =
          ap
            (λ p.
              Peer.maybe_send
                (Peer.receive past_end (segment_of (says Receiver.init recv_1) (syn_message z)) p))
            (new_peer rto_2 recv_2 send_2 j)
          ∙ ap Peer.maybe_send (receive_syn rto_2 recv_2 send_2 past_end recv_1 y z hi)
          ∙ answer_syn rto_2 recv_2 send_2 y z;
      third =
          ap Peer.maybe_send (receive_synack rto_1 recv_1 send_1 past_end recv_2 z y hi hj)
          ∙ answer_synack rto_1 recv_1 send_1 _ z y;
      client_open = syn_acked-IsOpen rto_1 recv_1 send_1 _ z y false;
      server_open = subst (IsOpen z) (sym acked) (syn_acked-IsOpen rto_2 recv_2 send_2 _ y z need);
    }
