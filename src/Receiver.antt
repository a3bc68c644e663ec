-- ===== src/Receiver.antt =====
-- src/tcp_receiver.hh and src/tcp_receiver.cc: segments into the Reassembler, acknowledgments out.
pub mod Laws
pub mod Opening
mod Runs
use cs144_minnow.Base.{
  ℕ, ◌+◌, Bool, true, false, not, ◌||◌, Option, none, some, ltb, if◌then◌else◌, u16, u64, sub64,
}
use cs144_minnow.Wrap.{Wrap32, wrap, unwrap}
use cs144_minnow.Stream.{ByteStream, available_capacity}
use cs144_minnow.Reassembler.{Reassembler, insert}
use cs144_minnow.Messages.{TcpSenderMessage, TcpReceiverMessage, bit}

pub record TcpReceiver : Type 0 where
  pub m_recv_zero_point : Wrap32
  pub m_syn_rcvd : Bool
  pub m_fin_rcvd : Bool

unfoldable pub init : TcpReceiver
init = record {
  m_recv_zero_point = record { raw_value = 0 };
  m_syn_rcvd = false;
  m_fin_rcvd = false;
}

-- The stream index of the payload's first byte.
unfoldable pub first_index : Wrap32 → TcpSenderMessage → ByteStream → ℕ
first_index zero_point message inbound =
    u64 (sub64 (unwrap message.seqno zero_point inbound.bytes_pushed) 1 + bit message.syn)

-- past_end is what Reassembler.insert reads at end().
unfoldable pub receive :
    ℕ
    → TcpSenderMessage
    → TcpReceiver
    → Reassembler
    → ByteStream
    → TcpReceiver × Reassembler × ByteStream
receive past_end message rcv reassembler inbound =
    let syn_rcvd = rcv.m_syn_rcvd || message.syn in
    let zero_point = if message.syn then message.seqno else rcv.m_recv_zero_point in
    let stored =
      insert past_end (first_index zero_point message inbound) message.payload message.fin
        reassembler inbound in
    if not syn_rcvd then (record rcv { m_syn_rcvd = syn_rcvd }, reassembler, inbound) else (
      record {
        m_recv_zero_point = zero_point;
        m_syn_rcvd = syn_rcvd;
        m_fin_rcvd = rcv.m_fin_rcvd || message.fin;
      },
      stored.0,
      stored.1,
    )

unfoldable pub send : TcpReceiver → ByteStream → TcpReceiverMessage
send rcv inbound =
    let pushed = inbound.bytes_pushed in
    let absolute_ackno = if inbound.is_close then u64 (pushed + 2) else u64 (pushed + 1) in
    record {
      ackno = if rcv.m_syn_rcvd then some (wrap absolute_ackno rcv.m_recv_zero_point) else none;
      window_size =
          if ltb 0xFFFF (available_capacity inbound)
          then 0xFFFF
          else u16 (available_capacity inbound);
    }
