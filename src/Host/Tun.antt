-- ===== src/Host/Tun.antt =====
-- TCPOverIPv4OverTunFdAdapter and TCPOverIPv4OverEthernetAdapter (util/tuntap_adapter.{hh,cc}).
use cs144_minnow.Base.{ℕ, zero, suc, Option, none, some, List, [], ◌∷◌, length, if◌then◌else◌}
use cs144_minnow.Base.Outcome.{Outcome, ok, stuck, ◌>>=◌}
use cs144_minnow.Wire.Parser.{parser_of, serializer, output_of, concat}
use cs144_minnow.Wire.Ethernet.{
  EthernetAddress, EthernetFrame, no_address, parse_frame, serialize_frame,
}
use cs144_minnow.Wire.Ipv4.{InternetDatagram, header_length, parse_datagram, serialize_datagram}
use cs144_minnow.Wire.Segment.{TcpSegment}
use cs144_minnow.Wire.Adapter.{FdAdapterBase, unwrap_tcp_in_ip, wrap_tcp_in_ip}
use cs144_minnow.Net.Interface.{
  NetworkInterface, no_datagram, recv_frame, send_datagram, maybe_send,
}
use cs144_minnow.Net.Interface
use cs144_minnow.Host.Descriptor.{System, FdWrapper, zeros, readv, write}

pub record TunAdapter : Type 0 where
  pub base : FdAdapterBase
  pub tun : FdWrapper

pub record TapAdapter : Type 0 where
  pub base : FdAdapterBase
  pub tap : FdWrapper
  pub interface : NetworkInterface
  pub next_hop : ℕ

abbrev pub ethernet_header_length : ℕ
ethernet_header_length = 14

abbrev pub no_frame : EthernetFrame
no_frame = record { header = record { dst = no_address; src = no_address; type = 0 }; payload = [] }

-- The datagram in the buffers that were read, if it parses.
unfoldable pub unwrap_read :
    List (List ℕ) → FdAdapterBase → Outcome (Option TcpSegment × FdAdapterBase)
unwrap_read buffers base = parse_datagram no_datagram (parser_of buffers) >>= λ r.
    if r.1.error then ok (none, base) else unwrap_tcp_in_ip r.0 base

-- serialize( wrap_tcp_in_ip( seg ) ), and the segment as it was sent.
unfoldable pub datagram_bytes : TcpSegment → FdAdapterBase → Outcome (List ℕ × TcpSegment)
datagram_bytes seg base = wrap_tcp_in_ip seg base >>= λ w.
    serialize_datagram w.0 serializer >>= λ s. ok (concat (output_of s), w.1)

module _ {E : Type 0} (sys : System E) where
  unfoldable pub read : TunAdapter → E → Outcome (Option TcpSegment × TunAdapter × E)
  read a e = readv sys (zeros header_length ∷ [] ∷ []) a.tun e >>= λ r.
      unwrap_read r.0 a.base >>= λ u. ok (u.0, record { base = u.1; tun = r.1 }, r.2)

  unfoldable pub write_segment : TcpSegment → TunAdapter → E → Outcome (TcpSegment × TunAdapter × E)
  write_segment seg a e = datagram_bytes seg a.base >>= λ w.
      write sys w.0 a.tun e >>= λ r. ok (w.1, record a { tun = r.1 }, r.2)

  unfoldable pub write_frame : EthernetFrame → FdWrapper → E → Outcome (FdWrapper × E)
  write_frame f d e =
      write sys (concat (output_of (serialize_frame f serializer))) d e >>= λ r. ok (r.1, r.2)

  -- The constructor sends a first frame that is lost.
  unfoldable pub construct :
      FdAdapterBase → FdWrapper → EthernetAddress → ℕ → ℕ → E → Outcome (TapAdapter × E)
  construct base tap eth_address ip_address next_hop e = write_frame no_frame tap e >>= λ r. ok (
    record {
      base = base;
      tap = r.0;
      interface = Interface.init eth_address ip_address;
      next_hop = next_hop;
    },
    r.1,
  )

  abbrev pub write_and_go_on :
      Option EthernetFrame
      → (TapAdapter → E → Outcome (TapAdapter × E))
      → TapAdapter
      → E
      → Outcome (TapAdapter × E)
  write_and_go_on none again a e = ok (a, e)
  write_and_go_on (some frame) again a e =
      write_frame frame a.tap e >>= λ r. again (record a { tap = r.0 }) r.1

  -- send_pending, for a number of rounds.
  unfoldable pub send_loop : ℕ → TapAdapter → E → Outcome (TapAdapter × E)
  send_loop zero a e = stuck
  send_loop (suc fuel) a e =
      let (frame, interface) = maybe_send a.interface in
      write_and_go_on frame (λ a' e'. send_loop fuel a' e') (record a { interface = interface }) e

  -- Each round but the last takes a frame.
  unfoldable pub send_pending : TapAdapter → E → Outcome (TapAdapter × E)
  send_pending a e = send_loop (suc (length a.interface.send_queue)) a e

  -- What the interface hands up.
  abbrev unwrap_received :
      Option InternetDatagram → TapAdapter → E → Outcome (Option TcpSegment × TapAdapter × E)
  unwrap_received none a e = ok (none, a, e)
  unwrap_received (some dgram) a e =
      unwrap_tcp_in_ip dgram a.base >>= λ u. ok (u.0, record a { base = u.1 }, e)

  unfoldable pub read_frame : TapAdapter → E → Outcome (Option TcpSegment × TapAdapter × E)
  read_frame a e =
      readv sys (zeros ethernet_header_length ∷ zeros header_length ∷ [] ∷ []) a.tap e >>= λ r.
      let a1 = record a { tap = r.1 } in
      parse_frame no_frame (parser_of r.0) >>= λ f.
      let received = recv_frame f.0 a1.interface >>= λ g.
      send_pending (record a1 { interface = g.1 }) r.2 >>= λ t. unwrap_received g.0 t.0 t.1 in
      if f.1.error then ok (none, a1, r.2) else received

  unfoldable pub tick : ℕ → TapAdapter → E → Outcome (TapAdapter × E)
  tick ms a e = send_pending (record a { interface = Interface.tick ms a.interface }) e

  unfoldable pub send_segment : TcpSegment → TapAdapter → E → Outcome (TcpSegment × TapAdapter × E)
  send_segment seg a e = wrap_tcp_in_ip seg a.base >>= λ w.
      send_datagram w.0 a.next_hop a.interface >>= λ n.
      send_pending (record a { interface = n }) e >>= λ t. ok (w.1, t.0, t.1)
