-- ===== src/Net/Router.antt =====
-- src/router.hh and src/router.cc. An Address is its ipv4_numeric().
use cs144_minnow.Base.{
  ℕ, zero, suc, ◌+◌, ◌-◌, ◌*◌, ◌/◌, ◌%◌, ◌^◌, Bool, true, false, ◌&&◌, ◌||◌, Option, none, some,
  List, [], ◌∷◌, ◌++◌, leb, ◌==◌, if◌then◌else◌, u8, length,
}
use cs144_minnow.Base.Outcome.{Outcome, ok, undefined, ◌>>=◌}
use cs144_minnow.Base.Maps.{lookup, assign}
use cs144_minnow.Wire.Ethernet.{EthernetFrame}
use cs144_minnow.Wire.Ipv4.{InternetDatagram, compute_checksum}
use cs144_minnow.Net.Interface.{NetworkInterface, recv_frame, send_datagram}

pub record AsyncNetworkInterface : Type 0 where
  pub interface : NetworkInterface
  pub datagrams_in : List InternetDatagram

abbrev pub received : Option InternetDatagram → List InternetDatagram
received none = []
received (some d) = d ∷ []

unfoldable pub recv_frame_async :
    EthernetFrame → AsyncNetworkInterface → Outcome AsyncNetworkInterface
recv_frame_async frame a = recv_frame frame a.interface >>= λ r.
    ok (record { interface = r.1; datagrams_in = a.datagrams_in ++ received r.0 })

abbrev pub front_datagram :
    List InternetDatagram → AsyncNetworkInterface → Option InternetDatagram × AsyncNetworkInterface
front_datagram [] a = (none, a)
front_datagram (d ∷ ds) a = (some d, record a { datagrams_in = ds })

unfoldable pub maybe_receive :
    AsyncNetworkInterface → Option InternetDatagram × AsyncNetworkInterface
maybe_receive a = front_datagram a.datagrams_in a

pub record RouteTable : Type 0 where
  pub entries : List (ℕ × ℕ)
  pub next_hops : List (ℕ × ℕ)

-- Up to 32 bits of prefix: & with the mask clears the low 32 - prefix_length bits of a 32-bit
-- number. (Beyond 32 the shift's width is not what the code means.)
abbrev pub masked : ℕ → ℕ → ℕ
masked prefix_length x = x / 2 ^ (32 - prefix_length) * 2 ^ (32 - prefix_length)

unfoldable pub matches : ℕ → ℕ → Bool
matches ipv4_address key =
    let prefix_length = key % 64 in
    masked prefix_length (key / 2 ^ 32) == masked prefix_length ipv4_address

unfoldable pub insert : ℕ → ℕ → Option ℕ → RouteTable → RouteTable
insert key num next_hop t = record {
  entries = assign key num t.entries;
  next_hops = elim next_hop [ none ↦ t.next_hops | some h ↦ assign key h t.next_hops ];
}

-- The variables of look_up's loop.
pub record Best : Type 0 where
  pub key : ℕ
  pub longest_prefix_length : ℕ
  pub num : ℕ
  pub matched : Bool

abbrev pub no_match : Best
no_match = record { key = 0; longest_prefix_length = 0; num = 0; matched = false }

unfoldable pub best : ℕ → List (ℕ × ℕ) → Best → Best
unfolding matches
best ipv4_address [] b = b
best ipv4_address ((key, num) ∷ entries) b = best ipv4_address entries (
    if matches ipv4_address key && leb b.longest_prefix_length (key % 2 ^ 32)
    then record { key = key; longest_prefix_length = u8 (key % 2 ^ 32); num = num; matched = true }
    else b)

-- none where nothing matches, else the interface's number and the next hop, if there is one.
unfoldable pub look_up : ℕ → RouteTable → Option (ℕ × Option ℕ)
unfolding best
look_up ipv4_address t =
    let b = best ipv4_address t.entries no_match in
    if b.matched then some (b.num, lookup b.key t.next_hops) else none

pub record Router : Type 0 where
  pub interfaces : List AsyncNetworkInterface
  pub route_table : RouteTable

abbrev pub router : Router
router = record { interfaces = []; route_table = record { entries = []; next_hops = [] } }

abbrev pub add_interface : AsyncNetworkInterface → Router → ℕ × Router
add_interface a r = (length r.interfaces, record r { interfaces = r.interfaces ++ (a ∷ []) })

unfoldable pub add_route : ℕ → ℕ → Option ℕ → ℕ → Router → Router
add_route route_prefix prefix_length next_hop interface_num r = record r {
  route_table = insert (route_prefix * 2 ^ 32 + prefix_length) interface_num next_hop r.route_table;
}

-- interfaces_[num]: undefined out of range.
unfoldable pub send_on :
    ℕ → InternetDatagram → ℕ → List AsyncNetworkInterface → Outcome (List AsyncNetworkInterface)
send_on num dgram hop [] = undefined
send_on zero dgram hop (a ∷ rest) =
    send_datagram dgram hop a.interface >>= λ n. ok (record a { interface = n } ∷ rest)
send_on (suc num) dgram hop (a ∷ rest) = send_on num dgram hop rest >>= λ l. ok (a ∷ l)

abbrev pub hop_or : Option ℕ → ℕ → ℕ
hop_or none dst = dst
hop_or (some h) dst = h

unfoldable pub route_datagram : InternetDatagram → Router → Outcome Router
route_datagram dgram r =
    let found : Outcome Router = elim (look_up dgram.header.dst r.route_table) [
      | none ↦ ok r
      | some (num, next_hop) ↦
          compute_checksum (record (dgram.header) { ttl = dgram.header.ttl - 1 }) >>= λ h.
          send_on num (record dgram { header = h }) (hop_or next_hop h.dst) r.interfaces >>= λ l.
          ok (record r { interfaces = l })
    ] in
    if dgram.header.ttl == 1 || dgram.header.ttl == 0 then ok r else found

unfoldable pub route_all : List InternetDatagram → Router → Outcome Router
route_all [] r = ok r
route_all (d ∷ ds) r = route_datagram d r >>= λ r'. route_all ds r'

-- Empties the queue of interface number num: its datagrams, and the router without them.
unfoldable pub take_all_in :
    ℕ → List AsyncNetworkInterface → List InternetDatagram × List AsyncNetworkInterface
take_all_in num [] = ([], [])
take_all_in zero (a ∷ rest) = (a.datagrams_in, record a { datagrams_in = [] } ∷ rest)
take_all_in (suc num) (a ∷ rest) = let r = take_all_in num rest in (r.0, a ∷ r.1)

-- The interfaces in turn; routing never adds to a queue of received datagrams.
unfoldable pub route_from : ℕ → ℕ → Router → Outcome Router
route_from zero num r = ok r
route_from (suc count) num r =
    let (ds, interfaces) = take_all_in num r.interfaces in
    route_all ds (record r { interfaces = interfaces }) >>= λ r'. route_from count (num + 1) r'

unfoldable pub route : Router → Outcome Router
route r = route_from (length r.interfaces) 0 r
