-- ===== src/Peer/Runs.antt =====
-- A run of util/tcp_peer.hh, and its theorem at a concrete peer.
use cs144_minnow.Base.{◌-◌, ◌^◌, refl, true, false, none, some, [], arith}
use cs144_minnow.Stream.Laws.{init-IsValid}
use cs144_minnow.Stream
use cs144_minnow.Sender
use cs144_minnow.Sender.Emit.{IsReady}
use cs144_minnow.Wire.Segment.{TcpSegment}
use cs144_minnow.Peer.{TcpConfig, init, receive}
use cs144_minnow.Peer.Handshake.{Handshake, handshake, config_of}
use cs144_minnow.Peer.Replies.{Answers, receive-Answers}

abbrev config : TcpConfig
config = record {
  rt_timeout = 1000;
  recv_capacity = 64;
  send_capacity = 64;
  fixed_isn = some (record { raw_value = 5000 });
}

abbrev syn_segment : TcpSegment
syn_segment = record {
  sender_message = record {
    seqno = record { raw_value = 9 };
    syn = true;
    payload = [];
    fin = false;
  };
  receiver_message = record { ackno = none; window_size = 100 };
  reset = false;
  udinfo = record { src_port = 0; dst_port = 0; cksum = 0 };
}

listener-IsReady :
    IsReady
      (receive 0 syn_segment (init 0 config)).sender
      (receive 0 syn_segment (init 0 config)).outbound_stream
unfolding receive init Sender.receive Sender.init Stream.init
listener-IsReady = record {
  flight = omega arith;
  valid = init-IsValid 64 (omega arith);
  small = tt;
}

-- A listening peer answers a SYN.
receive-Answers_example : Answers (receive 0 syn_segment (init 0 config))
unfolding receive init Sender.receive Sender.init Sender.window_right Sender.seqno_after Stream.init
receive-Answers_example =
    receive-Answers 0 syn_segment (init 0 config) refl (omega arith) listener-IsReady (omega arith)
      (omega arith)

-- From the sequence numbers 7 and 2^32 - 1, with capacities of 64 bytes.
handshake_example :
    Handshake 0
      (init 7 (config_of 1000 64 64))
      (init (2 ^ 32 - 1) (config_of 1000 64 64))
      (record { raw_value = 7 })
      (record { raw_value = 2 ^ 32 - 1 })
handshake_example = handshake 0 7 (2 ^ 32 - 1) 1000 64 64 1000 64 64 (omega arith) (omega arith)
