-- ===== src/Host/ThreadRuns.antt =====
-- Runs of the router's thread of apps/endtoend.cc.
use cs144_minnow.Base.{ℕ, ◌≡◌, true, false, none, some, [], ◌∷◌, arith}
use cs144_minnow.Base.Outcome.{ok}
use cs144_minnow.Wire.Ethernet.{EthernetAddress, EthernetFrame}
use cs144_minnow.Net.Interface.{enqueue}
use cs144_minnow.Net.Interface
use cs144_minnow.Net.Router.{AsyncNetworkInterface, router, look_up}
use cs144_minnow.Host.Descriptor.{System, failed, other_error, got, wrapper}
use cs144_minnow.Host.RouterThread.{Network, set_up_router, after_event}
use cs144_minnow.Host.Routes.{look_up-set_up_router}
use cs144_minnow.Host.Forwarding.{Forwards, frames_at, after_event-Forwards}

abbrev address : ℕ → EthernetAddress
address n = 2 ∷ 0 ∷ 0 ∷ 0 ∷ 0 ∷ n ∷ []

-- 172.16.0.100 from both routers.
look_up-set_up_router_example :
    (look_up 0xAC100064 (set_up_router true (address 1) (address 2)).0.route_table
      ≡ some (1, some 0x0A0000AC))
    × (look_up 0xAC100064 (set_up_router false (address 1) (address 2)).0.route_table
        ≡ some (0, none))
look_up-set_up_router_example = look_up-set_up_router (address 1) (address 2) 0xAC100064

-- A system that the round does not ask.
abbrev silent : System (Unit {0})
silent = record {
  read = λ fd n e. (got [], e);
  write = λ fd bytes e. (failed other_error, e);
  close = λ fd e. (failed other_error, e);
  shutdown = λ fd how e. (failed other_error, e);
}

abbrev frame : ℕ → EthernetFrame
frame n = record {
  header = record { dst = address n; src = address 9; type = 0x0800 };
  payload = (n ∷ []) ∷ [];
}

abbrev with_frame : ℕ → AsyncNetworkInterface
with_frame n = record {
  interface = record (Interface.init (address 9) n) { send_queue = frame n ∷ [] };
  datagrams_in = [];
}

-- One frame waits at each side, and one for the host.
abbrev two_sides : Network (Unit {0})
two_sides = record {
  router = record router { interfaces = with_frame 1 ∷ with_frame 2 ∷ [] };
  host_side = 0;
  internet_side = 1;
  frame_fd = wrapper 3 false;
  internet_socket = wrapper 4 false;
  router_to_host = frame 5 ∷ [];
  router_to_internet = [];
  system = tt;
}

after_event-Forwards_example :
    (w' : Network (Unit {0})) × (after_event silent two_sides ≡ ok w') × Forwards two_sides w'
after_event-Forwards_example =
    after_event-Forwards silent two_sides (omega arith) (omega arith) (λ e. absurd (omega arith))

after_event_queues :
    (after_event-Forwards_example.0.router_to_host ≡ frame 5 ∷ frame 1 ∷ [])
    × (after_event-Forwards_example.0.router_to_internet ≡ frame 2 ∷ [])
after_event_queues =
    let f = after_event-Forwards_example.2 in
    (unfold frames_at in f.host_queue, unfold frames_at in f.internet_queue)
