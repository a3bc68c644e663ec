-- ===== src/Net/Runs.antt =====
-- Runs of src/network_interface.cc and src/router.cc, and their theorems at concrete inputs.
use cs144_minnow.Base.{ℕ, ◌*◌, ◌+◌, ◌^◌, ◌%◌, ◌≡◌, ◌⊎◌, refl, none, some, [], ◌∷◌, arith}
use cs144_minnow.Base.Maps.{lookup, assign}
use cs144_minnow.Net.Router.{Router, router, add_route, insert, look_up}
use cs144_minnow.Net.Routing.{look_up-longest, add_route-IsRoute, covering, longest}
use cs144_minnow.Base.Outcome.{ok}
use cs144_minnow.Wire.Ethernet.{EthernetAddress}
use cs144_minnow.Wire.Arp.{ArpMessage, arp_message, opcode_reply}
use cs144_minnow.Wire.Ipv4.{InternetDatagram, ipv4_header}
use cs144_minnow.Net.Interface.{NetworkInterface, init, handle_message}
use cs144_minnow.Net.Arping.{IsVersion4, frame_of, frames, reply_sends}
use cs144_minnow.Net.Requests.{request_frame, exchange, exchange_loses}
use mathlib.Core.List.{Mem}

-- 10.0.0.0/8 to interface 1 through 192.168.0.1, 10.1.0.0/16 to interface 2, and all else to 0.
abbrev net_10 : ℕ
net_10 = 10 * 2 ^ 24

abbrev net_10_1 : ℕ
net_10_1 = 10 * 2 ^ 24 + 2 ^ 16

abbrev gateway : ℕ
gateway = 192 * 2 ^ 24 + 168 * 2 ^ 16 + 1

abbrev three_routes : Router
three_routes =
    add_route 0 0 none 0 (add_route net_10_1 16 none 2 (add_route net_10 8 (some gateway) 1 router))

look_up-inner : look_up (net_10_1 + 7) three_routes.route_table ≡ some (2, none)
unfolding look_up add_route insert assign lookup
look_up-inner = refl

look_up-outer : look_up (net_10 + 7) three_routes.route_table ≡ some (1, some gateway)
unfolding look_up add_route insert assign lookup
look_up-outer = refl

look_up-longest_example :
    ((look_up (net_10 + 7) three_routes.route_table ≡ none)
      × (covering (net_10 + 7) three_routes.route_table.entries ≡ []))
    ⊎ ((key num : ℕ) × Mem (key, num) (covering (net_10 + 7) three_routes.route_table.entries)
        × (key % 2 ^ 32 ≡ longest (covering (net_10 + 7) three_routes.route_table.entries))
        × (look_up (net_10 + 7) three_routes.route_table
            ≡ some (num, lookup key three_routes.route_table.next_hops)))
look_up-longest_example = look_up-longest (net_10 + 7) three_routes.route_table (
    add_route-IsRoute 0 0 none 0
      (add_route net_10_1 16 none 2 (add_route net_10 8 (some gateway) 1 router)) (omega arith)
      (add_route-IsRoute net_10_1 16 none 2 (add_route net_10 8 (some gateway) 1 router)
        (omega arith) (add_route-IsRoute net_10 8 (some gateway) 1 router (omega arith) tt)))

abbrev our_address : EthernetAddress
our_address = 2 ∷ 0 ∷ 0 ∷ 0 ∷ 0 ∷ 1 ∷ []

abbrev their_address : EthernetAddress
their_address = 2 ∷ 0 ∷ 0 ∷ 0 ∷ 0 ∷ 2 ∷ []

abbrev datagram : ℕ → InternetDatagram
datagram dst = record { header = record ipv4_header { dst = dst }; payload = (dst ∷ []) ∷ [] }

abbrev their_reply : ArpMessage
their_reply = record arp_message {
  opcode = opcode_reply;
  sender_ethernet_address = their_address;
  sender_ip_address = gateway;
  target_ethernet_address = our_address;
  target_ip_address = net_10;
}

abbrev host : NetworkInterface
host = init our_address net_10

abbrev waiting_host : NetworkInterface
waiting_host = record host { datagram_cache = (gateway, datagram 7 ∷ datagram 8 ∷ []) ∷ [] }

reply_sends_example :
    (n' : NetworkInterface) × (handle_message their_reply waiting_host ≡ ok n')
    × (n'.send_queue ≡ frames our_address their_address (datagram 7 ∷ datagram 8 ∷ []))
    × (lookup gateway n'.datagram_cache ≡ none)
    × (lookup gateway n'.address_map
        ≡ some (record { ethernet_address = their_address; expire_time_ms = 30000 }))
unfolding init
reply_sends_example =
    reply_sends their_reply (datagram 7 ∷ datagram 8 ∷ []) waiting_host refl (unfold lookup in refl)
      (unfold IsVersion4 in (refl, (refl, tt)))

exchange_loses_example :
    (n' : NetworkInterface) × (exchange (datagram 7) (datagram 8) gateway their_reply host ≡ ok n')
    × (n'.send_queue
        ≡ request_frame gateway host ∷ frame_of our_address their_address (datagram 7) ∷ [])
    × (lookup gateway n'.datagram_cache ≡ none)
unfolding init
exchange_loses_example =
    exchange_loses (datagram 7) (datagram 8) their_reply host refl (unfold IsVersion4 in refl)
      (omega arith) (unfold lookup in refl) (unfold lookup in refl) (unfold lookup in refl)
