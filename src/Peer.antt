-- ===== src/Peer.antt =====
-- util/tcp_peer.hh: sender, receiver, reassembler and two streams put together.
pub mod Replies
pub mod Inbound
pub mod Held
pub mod Handshake
mod Runs
use cs144_minnow.Base.{
  ℕ, ◌+◌, ◌-◌, Bool, true, false, not, ◌&&◌, ◌||◌, Option, none, some, [], ltb, ◌==◌, if◌then◌else◌,
}
use cs144_minnow.Base.Outcome.{Outcome, ok, ◌>>=◌}
use cs144_minnow.Wrap.{Wrap32, advance, same}
use cs144_minnow.Stream.{ByteStream, is_finished, set_error}
use cs144_minnow.Stream
use cs144_minnow.Reassembler.{Reassembler}
use cs144_minnow.Reassembler
use cs144_minnow.Messages.{TcpSenderMessage, TcpReceiverMessage, sequence_length}
use cs144_minnow.Receiver.{TcpReceiver}
use cs144_minnow.Receiver
use cs144_minnow.Sender.{TcpSender, sequence_numbers_in_flight, send_empty_message}
use cs144_minnow.Sender
use cs144_minnow.Wire.Segment.{TcpSegment}

pub record TcpConfig : Type 0 where
  pub rt_timeout : ℕ
  pub recv_capacity : ℕ
  pub send_capacity : ℕ
  pub fixed_isn : Option Wrap32

pub record TcpPeer : Type 0 where
  pub cfg : TcpConfig
  pub sender : TcpSender
  pub receiver : TcpReceiver
  pub reassembler : Reassembler
  pub outbound_stream : ByteStream
  pub inbound_stream : ByteStream
  pub need_send : Bool

-- random is what random_device gives the sender.
unfoldable pub init : ℕ → TcpConfig → TcpPeer
init random cfg = record {
  cfg = cfg;
  sender = Sender.init random cfg.rt_timeout cfg.fixed_isn;
  receiver = Receiver.init;
  reassembler = Reassembler.init;
  outbound_stream = Stream.init cfg.send_capacity;
  inbound_stream = Stream.init cfg.recv_capacity;
  need_send = false;
}

unfoldable pub push : TcpPeer → Outcome TcpPeer
push p = Sender.push p.outbound_stream p.sender >>= λ r.
    ok (record p { sender = r.0; outbound_stream = r.1 })

unfoldable pub tick : ℕ → TcpPeer → Outcome TcpPeer
tick ms p = Sender.tick ms p.sender >>= λ s. ok (record p { sender = s })

abbrev pub our_ackno : TcpPeer → Option Wrap32
our_ackno p = (Receiver.send p.receiver p.inbound_stream).ackno

abbrev pub is_some : Option Wrap32 → Bool
is_some none = false
is_some (some a) = true

abbrev pub has_ackno : TcpPeer → Bool
has_ackno p = is_some (our_ackno p)

unfoldable pub active : TcpPeer → Bool
active p =
    if p.inbound_stream.error
    then false
    else not (is_finished p.outbound_stream)
      || not p.inbound_stream.is_close
      || ltb 0 (sequence_numbers_in_flight p.sender)

-- The segment lies just before the number that the peer waits for.
abbrev pub is_keep_alive : Wrap32 → Option Wrap32 → Bool
is_keep_alive seqno none = false
is_keep_alive seqno (some ackno) = same (advance seqno 1) ackno

-- past_end is what Reassembler.insert reads at end().
unfoldable pub receive : ℕ → TcpSegment → TcpPeer → TcpPeer
receive past_end seg p =
    let (receiver, reassembler, inbound) =
      Receiver.receive past_end seg.sender_message p.receiver p.reassembler p.inbound_stream in
    if seg.reset || p.inbound_stream.error
    then record p { inbound_stream = set_error p.inbound_stream }
    else record p {
      sender = Sender.receive seg.receiver_message p.sender;
      need_send =
          p.need_send
          || ltb 0 (sequence_length seg.sender_message)
          || is_keep_alive seg.sender_message.seqno (our_ackno p);
      receiver = receiver;
      reassembler = reassembler;
      inbound_stream = inbound;
    }

-- The message that goes out: the sender's, or an empty one if an answer is due.
abbrev pub or_empty : Bool → TcpSender → Option TcpSenderMessage → Option TcpSenderMessage
or_empty need_send s (some m) = some m
or_empty need_send s none = if need_send then some (send_empty_message s) else none

-- A segment of the two messages; the ports and the checksum are set later.
abbrev pub segment : TcpReceiverMessage → Bool → Option TcpSenderMessage → Option TcpSegment
segment receiver_msg reset none = none
segment receiver_msg reset (some sender_msg) = some (record {
  sender_message = sender_msg;
  receiver_message = receiver_msg;
  reset = reset;
  udinfo = record { src_port = 0; dst_port = 0; cksum = 0 };
})

-- What maybe_send does once push is done.
abbrev pub send_next : TcpReceiverMessage → TcpPeer → Option TcpSegment × TcpPeer
send_next receiver_msg p =
    let (sender_msg, sender) = Sender.maybe_send p.sender in
    (
      segment receiver_msg (p.outbound_stream.error || p.inbound_stream.error)
          (or_empty p.need_send sender sender_msg),
      record p { sender = sender; need_send = false },
    )

unfoldable pub maybe_send : TcpPeer → Outcome (Option TcpSegment × TcpPeer)
maybe_send p =
    let receiver_msg = Receiver.send p.receiver p.inbound_stream in
    let pushed = push p >>= λ q. ok (send_next receiver_msg q) in
    if has_ackno p then pushed else ok (send_next receiver_msg p)
