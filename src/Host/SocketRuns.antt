-- ===== src/Host/SocketRuns.antt =====
-- Runs of util/tcp_minnow_socket.cc.
use cs144_minnow.Base.{
  ℕ, zero, suc, ◌+◌, ◌≡◌, refl, Bool, true, false, not, inr, Option, none, some, List, [], ◌∷◌,
  ◌++◌, arith, ap, length,
}
use cs144_minnow.Base.Outcome.{Outcome, ok}
use cs144_minnow.Stream.Laws.{init-IsValid}
use cs144_minnow.Stream
use cs144_minnow.Sender
use cs144_minnow.Wire.Segment.{TcpSegment}
use cs144_minnow.Peer.{TcpPeer, TcpConfig, receive}
use cs144_minnow.Peer
use cs144_minnow.Host.Descriptor.{wrapper}
use cs144_minnow.Host.TcpSocket.{TcpSocket, collect_segments}
use cs144_minnow.Host.Collecting.{IsReadyPeer, Collected, collect_segments-Collects}
use cs144_minnow.Wrap.{wrap, unwrap}
use cs144_minnow.Receiver
use cs144_minnow.Reassembler
use cs144_minnow.Reassembler.Chain.{Agree}
use cs144_minnow.Receiver.Laws.{IsSegment}
use cs144_minnow.Host.After.{After}
use cs144_minnow.Host.EventLoop.{EventLoop, Result, init, add_named_rule, add_category, add_fd_rule}
use cs144_minnow.Host.Waiting.{
  Polling, polled, not_a_socket, wait_next_event, serve_rules, set_up, dispatch, after_poll,
}
use cs144_minnow.Host.TcpSetup.{cs144_adapter_config}
use cs144_minnow.Host.TcpLoop.{initialize}
use cs144_minnow.Host.TcpSocket.{
  Adapter, deliver_rule, write_inbound, receive_rule, receive_segment, collect, rounds_left,
}
use cs144_minnow.Host.Quiet.{Brings, IsHonest}
use cs144_minnow.Host.Running.{Reaches, initializes, waits, Reaches-Agree}
use cs144_minnow.Host.Runs.{Os, os, log, fresh, revents}

abbrev config : TcpConfig
config = record {
  rt_timeout = 1000;
  recv_capacity = 64;
  send_capacity = 64;
  fixed_isn = some (record { raw_value = 5000 });
}

-- A SYN with two bytes, of the stream that counts from 97.
abbrev opening : TcpSegment
opening = record {
  sender_message = record {
    seqno = record { raw_value = 1000 };
    syn = true;
    payload = 97 ∷ 98 ∷ [];
    fin = false;
  };
  receiver_message = record { ackno = none; window_size = 100 };
  reset = false;
  udinfo = record { src_port = 0; dst_port = 0; cksum = 0 };
}

-- The peer has received it.
abbrev answering : TcpPeer
answering = receive 0 opening (Peer.init 0 config)

abbrev socket : Option TcpPeer → TcpSocket ℕ Os
socket p = record {
  local = wrapper 2 true;
  thread_data = wrapper 3 true;
  adapter = 1;
  tcp = p;
  outgoing_segments = [];
  inbound_shutdown = false;
  outbound_shutdown = false;
  fully_acked = false;
  system = fresh;
}

answering-IsReadyPeer : IsReadyPeer answering
unfolding receive Peer.init Sender.receive Sender.init Sender.window_right Sender.seqno_after
    Stream.init
answering-IsReadyPeer = record {
  ready = record { flight = omega arith; valid = init-IsValid 64 (omega arith); small = tt };
  bounded = record { right = omega arith; next = omega arith };
}

collect_segments-Collects_example :
    (segs : List TcpSegment) × (p' : TcpPeer) × (collect_segments (socket (some answering))
      ≡ ok (record (socket (some answering)) { outgoing_segments = [] ++ segs; tcp = some p' }))
    × Collected answering segs p'
collect_segments-Collects_example =
    collect_segments-Collects (socket (some answering)) answering refl answering-IsReadyPeer

-- An adapter that brings the segment as often as its number says, and sends nothing.
abbrev brings : ℕ → Os → Outcome (Option TcpSegment × ℕ × Os)
brings zero e = ok (none, zero, e)
brings (suc n) e = ok (some opening, n, e)

abbrev adapter : Adapter ℕ Os
adapter = record {
  fd = λ a. record (wrapper 4 true) { read_count = a };
  read = brings;
  write = λ seg a e. ok (seg, a, e);
  tick = λ ms a e. ok (a, e);
  config = λ a. cs144_adapter_config 7 (record { ipv4_numeric = 1; port = 80 });
  configure = λ c a. a;
  set_listening = λ l a. a;
}

abbrev letters : ℕ → ℕ
letters i = 97 + i

opening-IsSegment : IsSegment letters (record { raw_value = 1000 }) 0 opening.sender_message
unfolding wrap
opening-IsSegment = record {
  numbered = refl;
  syn_first = λ e. refl;
  agrees = (refl, (refl, tt));
  word = omega arith;
}

adapter-IsHonest : IsHonest os log 3 letters (record { raw_value = 1000 }) adapter
adapter-IsHonest = record { read = brought; write = λ seg a e. refl; tick = λ ms a e. refl }
  where
    brought :
        (a : ℕ) (e : Os)
        → After
            (λ (r : Option TcpSegment × ℕ × Os).
              Brings letters (record { raw_value = 1000 }) r.0 × (log.given 3 r.2 ≡ log.given 3 e))
            (brings a e)
    brought zero e = (tt, refl)
    brought (suc n) e = (inr (0, opening-IsSegment, omega arith), refl)

-- The descriptor of the adapter is readable, or the owner's end is writable.
abbrev one_ready : Bool → Polling (TcpSocket ℕ Os)
one_ready b = record {
  poll = λ ps w. polled 1 (
      revents b false false
      ∷ revents false false false
      ∷ revents false (not b) false
      ∷ revents false false false
      ∷ []);
  getsockopt = λ fd w. not_a_socket;
}

started :
    (t : EventLoop (TcpSocket ℕ Os) × TcpSocket ℕ Os) × (initialize os adapter 0 config [] [] [] []
        0
        (init 64)
        (socket none)
      ≡ ok t)
unfolding initialize add_named_rule add_category add_fd_rule init
started = (_, refl)

received :
    (t : Result × EventLoop (TcpSocket ℕ Os) × TcpSocket ℕ Os) × (wait_next_event
        (one_ready true)
        started.0.0
        started.0.1
      ≡ ok t)
unfolding started add_named_rule add_category add_fd_rule init wait_next_event serve_rules set_up
    after_poll dispatch Peer.active Peer.init Peer.receive Peer.maybe_send Peer.push receive_rule
    receive_segment collect_segments collect rounds_left Stream.init Stream.is_finished Stream.push
    Stream.read_loop Stream.read Stream.peek Stream.pop Stream.close Sender.init Sender.receive
    Sender.push Sender.push_syn Sender.push_message Sender.insert_once Sender.fill Sender.fill_rest
    Sender.emit Sender.maybe_send Sender.seqno_after Sender.window_right
    Sender.sequence_numbers_in_flight Receiver.init Receiver.receive Receiver.send
    Receiver.first_index Reassembler.init Reassembler.insert Reassembler.insert_to_buffer
    Reassembler.write_to_stream Reassembler.store Reassembler.close_at wrap unwrap
received = (_, refl)

delivered :
    (t : Result × EventLoop (TcpSocket ℕ Os) × TcpSocket ℕ Os) × (wait_next_event
        (one_ready false)
        received.0.1
        received.0.2
      ≡ ok t)
unfolding started received deliver_rule write_inbound add_named_rule add_category add_fd_rule init
    wait_next_event serve_rules set_up after_poll dispatch Peer.active Peer.init Peer.receive
    Peer.maybe_send Peer.push receive_rule receive_segment collect_segments collect rounds_left
    Stream.init Stream.is_finished Stream.push Stream.read_loop Stream.read Stream.peek Stream.pop
    Stream.close Sender.init Sender.receive Sender.push Sender.push_syn Sender.push_message
    Sender.insert_once Sender.fill Sender.fill_rest Sender.emit Sender.maybe_send Sender.seqno_after
    Sender.window_right Sender.sequence_numbers_in_flight Receiver.init Receiver.receive
    Receiver.send Receiver.first_index Reassembler.init Reassembler.insert
    Reassembler.insert_to_buffer Reassembler.write_to_stream Reassembler.store Reassembler.close_at
    wrap unwrap Reassembler.clamp_end Reassembler.clamp_begin cs144_minnow.Host.Descriptor.write
    cs144_minnow.Host.Descriptor.write_result cs144_minnow.Host.Descriptor.check_system_call
delivered = (_, refl)

-- The segment comes in, and then its bytes go to the owner.
delivering : Reaches os adapter (socket none) delivered.0.1 delivered.0.2
delivering =
    waits (one_ready false) delivered.0.0
      (waits (one_ready true) received.0.0
        (initializes 0 config [] [] [] [] 0 64 (omega arith) started.1) received.1)
      delivered.1

delivered_bytes : log.given 3 delivered.0.2.system ≡ 97 ∷ 98 ∷ []
unfolding started received delivered deliver_rule write_inbound add_named_rule add_category
    add_fd_rule init wait_next_event serve_rules set_up after_poll dispatch Peer.active Peer.init
    Peer.receive Peer.maybe_send Peer.push receive_rule receive_segment collect_segments collect
    rounds_left Stream.init Stream.is_finished Stream.push Stream.read_loop Stream.read Stream.peek
    Stream.pop Stream.close Sender.init Sender.receive Sender.push Sender.push_syn
    Sender.push_message Sender.insert_once Sender.fill Sender.fill_rest Sender.emit
    Sender.maybe_send Sender.seqno_after Sender.window_right Sender.sequence_numbers_in_flight
    Receiver.init Receiver.receive Receiver.send Receiver.first_index Reassembler.init
    Reassembler.insert Reassembler.insert_to_buffer Reassembler.write_to_stream Reassembler.store
    Reassembler.close_at wrap unwrap Reassembler.clamp_end Reassembler.clamp_begin
    cs144_minnow.Host.Descriptor.write cs144_minnow.Host.Descriptor.write_result
    cs144_minnow.Host.Descriptor.check_system_call
delivered_bytes = refl

Reaches-Agree_example : Agree letters 0 (log.given 3 delivered.0.2.system)
Reaches-Agree_example =
    Reaches-Agree os log 3 letters (record { raw_value = 1000 }) (omega arith) adapter
      adapter-IsHonest delivering refl refl (omega (arith, ap length delivered_bytes))
