-- ===== src/Host/TcpSetup.antt =====
-- How a TCPMinnowSocket is constructed and configured (util/tcp_minnow_socket.cc).
use cs144_minnow.Base.{ℕ, ◌+◌, ◌*◌, ◌^◌, u16, false, ◌/◌, Option, none, some, [], ◌∷◌}
use cs144_minnow.Base.Outcome.{Outcome, ok, throws, ◌>>=◌}
use cs144_minnow.Wire.Ethernet.{EthernetAddress}
use cs144_minnow.Wire.Adapter.{Address, FdAdapterConfig}
use cs144_minnow.Peer.{TcpConfig}
use cs144_minnow.Host.Descriptor.{Call, FdWrapper, set_blocking}
use cs144_minnow.Host.Descriptor
use cs144_minnow.Host.Socket.{Sockets, from_descriptor}
use cs144_minnow.Host.TcpSocket.{TcpSocket}

-- What fcntl says of a descriptor whose flags are read and set.
pub record Flags : Type 0 where
  pub getfl : Call
  pub setfl : ℕ → Call

module _ {E : Type 0} where
  -- socket_pair_helper, for what socketpair returns.
  unfoldable pub socket_pair_helper :
      Sockets E → Option (ℕ × ℕ) → E → Outcome (FdWrapper × FdWrapper)
  socket_pair_helper sockets none e = throws
  socket_pair_helper sockets (some (fd_1, fd_2)) e =
      Descriptor.construct (some fd_1) (sockets.getfl fd_1 e) >>= λ first.
      Descriptor.construct (some fd_2) (sockets.getfl fd_2 e) >>= λ second. ok (first, second)

  -- A LocalStreamSocket; AF_UNIX and SOCK_STREAM are 1.
  abbrev pub local_stream_socket : Sockets E → FdWrapper → E → Outcome (FdWrapper × E)
  local_stream_socket sockets d e = from_descriptor sockets 1 1 0 d e

module _ {A E : Type 0} where
  -- The constructor, for the connected pair of descriptors.
  unfoldable pub construct_pair :
      Sockets E → FdWrapper → FdWrapper → Flags → Flags → A → E → Outcome (TcpSocket A E)
  construct_pair sockets first second first_flags second_flags adapter e =
      local_stream_socket sockets first e >>= λ r1.
      local_stream_socket sockets second r1.1 >>= λ r2.
      set_blocking false second_flags.getfl second_flags.setfl r2.0 >>= λ thread_data.
      set_blocking false first_flags.getfl first_flags.setfl r1.0 >>= λ local. ok (record {
        local = local;
        thread_data = thread_data;
        adapter = adapter;
        tcp = none;
        outgoing_segments = [];
        inbound_shutdown = false;
        outbound_shutdown = false;
        fully_acked = false;
        system = r2.1;
      })

  -- The constructor from an adapter.
  unfoldable pub construct :
      Sockets E → Option (ℕ × ℕ) → Flags → Flags → A → E → Outcome (TcpSocket A E)
  construct sockets pair first_flags second_flags adapter e =
      socket_pair_helper sockets pair e >>= λ r.
      construct_pair sockets r.0 r.1 first_flags second_flags adapter e

-- CS144TCPSocket::connect: its configurations, where random is the port that random_device gives.
unfoldable pub cs144_tcp_config : TcpConfig
cs144_tcp_config = record {
  rt_timeout = 100;
  recv_capacity = 64000;
  send_capacity = 64000;
  fixed_isn = none;
}

abbrev multiplexer_config : ℕ → ℕ → Address → FdAdapterConfig
multiplexer_config ip random address = record {
  source = record { ipv4_numeric = ip; port = u16 random };
  destination = address;
  loss_rate_dn = 0;
  loss_rate_up = 0;
}

-- From 169.254.144.9, and for FullStackSocket::connect from 169.254.10.9.
unfoldable pub cs144_adapter_config : ℕ → Address → FdAdapterConfig
cs144_adapter_config random address =
    multiplexer_config (169 * 2 ^ 24 + 254 * 2 ^ 16 + 144 * 2 ^ 8 + 9) random address

unfoldable pub full_stack_adapter_config : ℕ → Address → FdAdapterConfig
full_stack_adapter_config random address =
    multiplexer_config (169 * 2 ^ 24 + 254 * 2 ^ 16 + 10 * 2 ^ 8 + 9) random address

-- The bytes that random_device gives, with the two lowest bits of the first set to 10.
unfoldable pub random_private_ethernet_address : EthernetAddress → EthernetAddress
random_private_ethernet_address [] = []
random_private_ethernet_address (b ∷ bs) = (b / 4 * 4 + 2) ∷ bs
