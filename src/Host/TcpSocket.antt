-- ===== src/Host/TcpSocket.antt =====
-- util/tcp_minnow_socket.{hh,cc}: the state of TCPMinnowSocket and the rules of its event loop. The two
-- ends of the pair of local sockets are local, which the owner has, and thread_data.
use cs144_minnow.Base.{
  ℕ, zero, suc, ◌+◌, Bool, true, false, not, ◌&&◌, ◌||◌, Option, none, some, List, [], ◌∷◌, ◌++◌,
  ltb, ◌==◌, if◌then◌else◌,
}
use cs144_minnow.Base.Outcome.{Outcome, ok, throws, undefined, stuck, ◌>>=◌}
use cs144_minnow.Stream.{
  ByteStream, available_capacity, bytes_buffered, is_finished, peek, push, pop,
}
use cs144_minnow.Stream
use cs144_minnow.Messages.{bit}
use cs144_minnow.Sender.{sequence_numbers_in_flight}
use cs144_minnow.Sender.Drain.{unsent}
use cs144_minnow.Wire.Segment.{TcpSegment}
use cs144_minnow.Wire.Adapter.{FdAdapterConfig}
use cs144_minnow.Peer.{TcpPeer, active}
use cs144_minnow.Peer
use cs144_minnow.Host.Descriptor.{System, FdWrapper, zeros, shut_wr}
use cs144_minnow.Host.Descriptor
use cs144_minnow.Host.Copy.{push_read}

-- What TCPMinnowSocket asks of its adapter type, over a state of the system.
pub record Adapter (A E : Type 0) : Type 0 where
  pub fd : A → FdWrapper
  pub read : A → E → Outcome (Option TcpSegment × A × E)
  pub write : TcpSegment → A → E → Outcome (TcpSegment × A × E)
  pub tick : ℕ → A → E → Outcome (A × E)
  pub config : A → FdAdapterConfig
  pub configure : FdAdapterConfig → A → A
  pub set_listening : Bool → A → A

pub record TcpSocket (A E : Type 0) : Type 0 where
  pub local : FdWrapper
  pub thread_data : FdWrapper
  pub adapter : A
  pub tcp : Option TcpPeer
  pub outgoing_segments : List TcpSegment
  pub inbound_shutdown : Bool
  pub outbound_shutdown : Bool
  pub fully_acked : Bool
  pub system : E

-- The rounds that collect_segments has, but for the last: each takes a segment.
unfoldable pub rounds_left : TcpPeer → ℕ
rounds_left p = unsent p.sender p.outbound_stream + bit p.need_send

-- The loop of collect_segments, for a number of rounds: the segments it takes, and the peer.
unfoldable pub collect : ℕ → TcpPeer → Outcome (List TcpSegment × TcpPeer)
collect zero p = stuck
collect (suc fuel) p = Peer.maybe_send p >>= λ r. elim r.0 [
  | none ↦ ok ([], r.1)
  | some seg ↦ collect fuel r.1 >>= λ t. ok (seg ∷ t.0, t.1)
]

-- std::optional's operator->, on the TCP state machine.
abbrev pub on_peer {ℓ} : {B : Type ℓ} → Option TcpPeer → (TcpPeer → Outcome B) → Outcome B
on_peer none f = undefined
on_peer (some p) f = f p

-- The interest of a rule, which is asked only after the peer was made.
abbrev pub if_peer : Option TcpPeer → (TcpPeer → Bool) → Bool
if_peer none f = false
if_peer (some p) f = f p

abbrev pub is_drained : List TcpSegment → Bool
is_drained [] = true
is_drained (seg ∷ segs) = false

module _ {A E : Type 0} where
  unfoldable pub collect_segments : TcpSocket A E → Outcome (TcpSocket A E)
  collect_segments w = elim w.tcp [
    | none ↦ ok w
    | some p ↦ collect (suc (rounds_left p)) p >>= λ t.
        ok (record w { outgoing_segments = w.outgoing_segments ++ t.0; tcp = some t.1 })
  ]

  -- The first half of rule 1.
  unfoldable pub receive_segment : ℕ → Option TcpSegment → TcpSocket A E → Outcome (TcpSocket A E)
  receive_segment past_end none w = ok w
  receive_segment past_end (some seg) w =
      on_peer w.tcp (λ p. collect_segments (record w { tcp = some (Peer.receive past_end seg p) }))

  -- The debugging output of rule 1; value() of an empty optional throws.
  abbrev pub note_acked : TcpSocket A E → Outcome (TcpSocket A E)
  note_acked w =
      let noted : Outcome (TcpSocket A E) = elim w.tcp [
        | none ↦ throws
        | some p ↦ ok (
            if sequence_numbers_in_flight p.sender == 0 && not w.fully_acked
            then record w { fully_acked = true }
            else w)
      ] in
      if w.thread_data.eof then noted else ok w

  module _ (sys : System E) (ad : Adapter A E) where
    -- Rule 1: receive TCP segment from the network. past_end is for Reassembler.insert.
    unfoldable pub receive_rule : ℕ → TcpSocket A E → Outcome (TcpSocket A E)
    receive_rule past_end w = ad.read w.adapter w.system >>= λ r.
        receive_segment past_end r.0 (record w { adapter = r.1; system = r.2 }) >>= λ w1.
        note_acked w1

    abbrev pub receive_interest : TcpSocket A E → Bool
    receive_interest w = if_peer w.tcp active

    -- Rule 2: push bytes to TCPPeer.
    unfoldable pub push_rule : TcpSocket A E → Outcome (TcpSocket A E)
    push_rule w = on_peer w.tcp (λ p.
        Descriptor.read sys (zeros (available_capacity p.outbound_stream)) w.thread_data w.system
        >>= λ r.
            let outbound = push_read r.0 r.1.eof p.outbound_stream in
            Peer.push (record p { outbound_stream = outbound }) >>= λ p1.
            collect_segments (record w {
              thread_data = r.1;
              system = r.2;
              outbound_shutdown = r.1.eof || w.outbound_shutdown;
              tcp = some p1;
            }))

    abbrev pub push_interest : TcpSocket A E → Bool
    push_interest w =
        if_peer w.tcp (λ p.
          active p && (not w.outbound_shutdown && ltb 0 (available_capacity p.outbound_stream)))

    abbrev pub push_cancel : TcpSocket A E → Outcome (TcpSocket A E)
    push_cancel w = on_peer w.tcp (λ p. ok (record w {
      tcp = some (record p { outbound_stream = Stream.close p.outbound_stream });
      outbound_shutdown = true;
    }))

    -- The first half of rule 3: what the owner's end takes is popped.
    unfoldable pub write_inbound : TcpPeer → TcpSocket A E → Outcome (TcpPeer × TcpSocket A E)
    write_inbound p w =
        let written = Descriptor.write sys (peek p.inbound_stream) w.thread_data w.system >>= λ r.
        ok (
          record p { inbound_stream = pop r.0 p.inbound_stream },
          record w { thread_data = r.1; system = r.2 },
        ) in
        if ltb 0 (bytes_buffered p.inbound_stream) then written else ok (p, w)

    -- Rule 3: read bytes from inbound stream.
    unfoldable pub deliver_rule : TcpSocket A E → Outcome (TcpSocket A E)
    deliver_rule w = on_peer w.tcp (λ p. write_inbound p w >>= λ r.
        let w1 = record (r.1) { tcp = some r.0 } in
        let finished = Descriptor.shutdown sys shut_wr w1.thread_data w1.system >>= λ t.
        ok (record w1 { thread_data = t.0; system = t.1; inbound_shutdown = true }) in
        if is_finished (r.0).inbound_stream || (r.0).inbound_stream.error then finished else ok w1)

    abbrev pub deliver_interest : TcpSocket A E → Bool
    deliver_interest w = if_peer w.tcp (λ p.
        ltb 0 (bytes_buffered p.inbound_stream)
        || ((is_finished p.inbound_stream || p.inbound_stream.error) && not w.inbound_shutdown))

    unfoldable pub write_all : List TcpSegment → A → E → Outcome (A × E)
    write_all [] a e = ok (a, e)
    write_all (seg ∷ segs) a e = ad.write seg a e >>= λ r. write_all segs r.1 r.2

    -- Rule 4: send TCP segment.
    unfoldable pub send_rule : TcpSocket A E → Outcome (TcpSocket A E)
    send_rule w = write_all w.outgoing_segments w.adapter w.system >>= λ r.
        ok (record w { outgoing_segments = []; adapter = r.0; system = r.1 })

    abbrev pub send_interest : TcpSocket A E → Bool
    send_interest w = not (is_drained w.outgoing_segments)
