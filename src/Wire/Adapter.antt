-- ===== src/Wire/Adapter.antt =====
-- util/tcp_over_ip.cc with FdAdapterBase (util/fd_adapter.hh) and LossyFdAdapter
-- (util/lossy_fd_adapter.hh). An Address is its ipv4_numeric() and its port().
use cs144_minnow.Base.{
  ℕ, ◌+◌, ◌*◌, Bool, false, not, ◌&&◌, Option, none, some, [], length, u16, ltb, ◌==◌,
  if◌then◌else◌,
}
use cs144_minnow.Base.Outcome.{Outcome, ok, ◌>>=◌}
use cs144_minnow.Wire.Parser.{parser_of, serializer, output_of}
use cs144_minnow.Wire.Ipv4.{InternetDatagram, ipv4_header, proto_tcp, pseudo_checksum}
use cs144_minnow.Wire.Ipv4
use cs144_minnow.Wire.Segment.{TcpSegment}
use cs144_minnow.Wire.Segment

pub record Address : Type 0 where
  pub ipv4_numeric : ℕ
  pub port : ℕ

pub record FdAdapterConfig : Type 0 where
  pub source : Address
  pub destination : Address
  pub loss_rate_dn : ℕ
  pub loss_rate_up : ℕ

pub record FdAdapterBase : Type 0 where
  pub config : FdAdapterConfig
  pub listen : Bool

abbrev pub set_listening : Bool → FdAdapterBase → FdAdapterBase
set_listening l a = record a { listen = l }

-- The members' initialisers.
abbrev pub tcp_segment : TcpSegment
tcp_segment = record {
  sender_message = record {
    seqno = record { raw_value = 0 };
    syn = false;
    payload = [];
    fin = false;
  };
  receiver_message = record { ackno = none; window_size = 0 };
  reset = false;
  udinfo = record { src_port = 0; dst_port = 0; cksum = 0 };
}

-- The addresses of a listening adapter become those of the datagram that it answers.
abbrev pub answer_to : InternetDatagram → TcpSegment → FdAdapterBase → FdAdapterBase
answer_to dgram seg a = set_listening false (record a {
  config = record a.config {
    source = record { ipv4_numeric = dgram.header.dst; port = a.config.source.port };
    destination = record { ipv4_numeric = dgram.header.src; port = seg.udinfo.src_port };
  };
})

-- The checks behind the parse of the segment.
unfoldable pub accept :
    InternetDatagram → TcpSegment → FdAdapterBase → Option TcpSegment × FdAdapterBase
accept dgram seg a =
    let a' = if a.listen then answer_to dgram seg a else a in
    if not (seg.udinfo.dst_port == a.config.source.port)
    then (none, a)
    else (if a.listen && not (seg.sender_message.syn && not seg.reset)
        then (none, a)
        else (if not (seg.udinfo.src_port == a'.config.destination.port)
            then (none, a')
            else (some seg, a')))

unfoldable pub unwrap_tcp_in_ip :
    InternetDatagram → FdAdapterBase → Outcome (Option TcpSegment × FdAdapterBase)
unwrap_tcp_in_ip dgram a =
    let parsed =
      Segment.parse (pseudo_checksum dgram.header) tcp_segment (parser_of dgram.payload) >>= λ r.
      ok (if r.1.error then (none, a) else accept dgram r.0 a) in
    if not a.listen && not (dgram.header.dst == a.config.source.ipv4_numeric)
    then ok (none, a)
    else (if not a.listen && not (dgram.header.src == a.config.destination.ipv4_numeric)
        then ok (none, a)
        else (if not (dgram.header.proto == proto_tcp) then ok (none, a) else parsed))

-- The datagram, and the segment, whose ports and checksum are set.
unfoldable pub wrap_tcp_in_ip : TcpSegment → FdAdapterBase → Outcome (InternetDatagram × TcpSegment)
wrap_tcp_in_ip seg a =
    let ported = record seg {
      udinfo = record seg.udinfo {
        src_port = a.config.source.port;
        dst_port = a.config.destination.port;
      };
    } in
    let header = record ipv4_header {
      src = a.config.source.ipv4_numeric;
      dst = a.config.destination.ipv4_numeric;
      len = u16 (ipv4_header.hlen * 4 + 20 + length seg.sender_message.payload);
    } in
    let summed = Segment.compute_checksum (pseudo_checksum header) ported in
    Ipv4.compute_checksum header >>= λ h.
    ok (record { header = h; payload = output_of (Segment.serialize summed serializer) }, summed)

-- random is what the random engine gives.
unfoldable pub should_drop : ℕ → Bool → FdAdapterConfig → Bool
should_drop random uplink cfg =
    let loss = if uplink then cfg.loss_rate_up else cfg.loss_rate_dn in
    not (loss == 0) && ltb (u16 random) loss
