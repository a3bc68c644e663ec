-- ===== src/Host/EndToEnd.antt =====
-- apps/endtoend.cc: the adapter of a TCPMinnowSocket over a network interface.
use cs144_minnow.Base.{
  ℕ, zero, suc, ◌+◌, ◌*◌, ◌/◌, Option, none, some, [], ◌∷◌, ◌==◌, if◌then◌else◌, length, u16,
}
use cs144_minnow.Base.Outcome.{Outcome, ok, throws, stuck, ◌>>=◌}
use cs144_minnow.Wire.Parser.{parser_of, serializer, output_of, concat}
use cs144_minnow.Wire.Ethernet.{EthernetAddress, EthernetFrame, parse_frame, serialize_frame}
use cs144_minnow.Wire.Ipv4.{InternetDatagram, header_length}
use cs144_minnow.Wire.Segment.{TcpSegment}
use cs144_minnow.Wire.Adapter.{
  Address, FdAdapterConfig, FdAdapterBase, set_listening, unwrap_tcp_in_ip, wrap_tcp_in_ip,
}
use cs144_minnow.Net.Interface.{NetworkInterface, send_datagram, maybe_send}
use cs144_minnow.Net.Interface
use cs144_minnow.Net.Router.{}
use cs144_minnow.Host.Descriptor.{System, FdWrapper, zeros, readv, write}
use cs144_minnow.Host.Tun.{ethernet_header_length, no_frame}
use cs144_minnow.Host.TcpSocket.{Adapter}

-- The bytes that random_device gives, with the two lowest bits of the first set to 10.
unfoldable pub random_host_ethernet_address : EthernetAddress → EthernetAddress
random_host_ethernet_address [] = []
random_host_ethernet_address (b ∷ bs) = (b / 4 * 4 + 2) ∷ bs

-- NetworkInterfaceAdapter; the two ends of its pair of sockets are socket and frame_socket.
pub record NetworkInterfaceAdapter : Type 0 where
  pub base : FdAdapterBase
  pub interface : NetworkInterface
  pub next_hop : ℕ
  pub socket : FdWrapper
  pub frame_socket : FdWrapper

module _ {E : Type 0} (sys : System E) where
  unfoldable pub maybe_receive_frame :
      FdWrapper → E → Outcome (Option EthernetFrame × FdWrapper × E)
  maybe_receive_frame d e =
      readv sys (zeros ethernet_header_length ∷ zeros header_length ∷ [] ∷ []) d e >>= λ r.
      parse_frame no_frame (parser_of r.0) >>= λ f.
      ok (if f.1.error then none else some f.0, r.1, r.2)

  -- NetworkInterfaceAdapter, whose loop is that of Tun.
  abbrev pub send_and_go_on :
      Option EthernetFrame
      → (NetworkInterfaceAdapter → E → Outcome (NetworkInterfaceAdapter × E))
      → NetworkInterfaceAdapter
      → E
      → Outcome (NetworkInterfaceAdapter × E)
  send_and_go_on none again a e = ok (a, e)
  send_and_go_on (some frame) again a e =
      write sys (concat (output_of (serialize_frame frame serializer))) a.socket e >>= λ r.
      again (record a { socket = r.1 }) r.2

  unfoldable pub pending_loop :
      ℕ → NetworkInterfaceAdapter → E → Outcome (NetworkInterfaceAdapter × E)
  pending_loop zero a e = stuck
  pending_loop (suc fuel) a e =
      let (frame, interface) = maybe_send a.interface in
      send_and_go_on frame (λ a' e'. pending_loop fuel a' e') (record a { interface = interface }) e

  unfoldable pub send_pending : NetworkInterfaceAdapter → E → Outcome (NetworkInterfaceAdapter × E)
  send_pending a e = pending_loop (suc (length a.interface.send_queue)) a e

  abbrev pub unwrap_datagram :
      Option InternetDatagram
      → NetworkInterfaceAdapter
      → E
      → Outcome (Option TcpSegment × NetworkInterfaceAdapter × E)
  unwrap_datagram none a e = ok (none, a, e)
  unwrap_datagram (some dgram) a e =
      unwrap_tcp_in_ip dgram a.base >>= λ u. ok (u.0, record a { base = u.1 }, e)

  abbrev pub take_frame :
      Option EthernetFrame
      → NetworkInterfaceAdapter
      → E
      → Outcome (Option TcpSegment × NetworkInterfaceAdapter × E)
  take_frame none a e = ok (none, a, e)
  take_frame (some frame) a e = Interface.recv_frame frame a.interface >>= λ g.
      send_pending (record a { interface = g.1 }) e >>= λ t. unwrap_datagram g.0 t.0 t.1

  unfoldable pub read :
      NetworkInterfaceAdapter → E → Outcome (Option TcpSegment × NetworkInterfaceAdapter × E)
  read a e = maybe_receive_frame a.socket e >>= λ r. take_frame r.0 (record a { socket = r.1 }) r.2

  unfoldable pub write_segment :
      TcpSegment → NetworkInterfaceAdapter → E → Outcome (TcpSegment × NetworkInterfaceAdapter × E)
  write_segment seg a e = wrap_tcp_in_ip seg a.base >>= λ w.
      send_datagram w.0 a.next_hop a.interface >>= λ n.
      send_pending (record a { interface = n }) e >>= λ t. ok (w.1, t.0, t.1)

  unfoldable pub tick : ℕ → NetworkInterfaceAdapter → E → Outcome (NetworkInterfaceAdapter × E)
  tick ms a e = send_pending (record a { interface = Interface.tick ms a.interface }) e

  unfoldable pub network : Adapter NetworkInterfaceAdapter E
  network = record {
    fd = λ a. a.socket;
    read = λ a e. read a e;
    write = λ seg a e. write_segment seg a e;
    tick = λ ms a e. tick ms a e;
    config = λ a. a.base.config;
    configure = λ c a. record a { base = record a.base { config = c } };
    set_listening = λ l a. record a { base = set_listening l a.base };
  }

-- TCPSocketEndToEnd, its address and what it gives TCPMinnowSocket.
unfoldable pub bind : Address → Address → Outcome Address
bind address local_address =
    if address.ipv4_numeric == local_address.ipv4_numeric
    then ok (record local_address { port = address.port })
    else throws

abbrev pub no_address : Address
no_address = record { ipv4_numeric = 0; port = 0 }

-- random is the port that random_device gives.
unfoldable pub connect_config : ℕ → Address → Address → FdAdapterConfig
connect_config random address local_address = record {
  source = record local_address { port = u16 random };
  destination = address;
  loss_rate_dn = 0;
  loss_rate_up = 0;
}

unfoldable pub accept_config : Address → FdAdapterConfig
accept_config local_address = record {
  source = local_address;
  destination = no_address;
  loss_rate_dn = 0;
  loss_rate_up = 0;
}
