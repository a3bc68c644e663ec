-- ===== src/Net/Interface.antt =====
-- src/network_interface.hh and src/network_interface.cc. An Address is its ipv4_numeric().
use cs144_minnow.Base.{
  ℕ, ◌+◌, ◌-◌, ◌^◌, Bool, true, false, not, ◌&&◌, Option, none, some, List, [], ◌∷◌, ◌++◌, ltb, leb,
  ◌==◌, if◌then◌else◌, u64,
}
use cs144_minnow.Base.Outcome.{Outcome, ok, ◌>>=◌}
use cs144_minnow.Base.Maps.{lookup, assign, erase, contains, keep}
use cs144_minnow.Wire.Parser.{parser_of, serializer, output_of}
use cs144_minnow.Wire.Ethernet.{
  EthernetAddress, EthernetFrame, no_address, ethernet_broadcast, type_ipv4, type_arp,
}
use cs144_minnow.Wire.Arp.{ArpMessage, arp_message, opcode_request, opcode_reply}
use cs144_minnow.Wire.Arp
use cs144_minnow.Wire.Ipv4.{InternetDatagram, ipv4_header, parse_datagram, serialize_datagram}

pub record AddressCache : Type 0 where
  pub ethernet_address : EthernetAddress
  pub expire_time_ms : ℕ

pub record NetworkInterface : Type 0 where
  pub ethernet_address : EthernetAddress
  pub ip_address : ℕ
  pub timer : ℕ
  pub arp_timer : ℕ
  pub address_map : List (ℕ × AddressCache)
  pub arp_request_expire_timers : List (ℕ × ℕ)
  pub datagram_cache : List (ℕ × List InternetDatagram)
  pub send_queue : List EthernetFrame

abbrev pub address_cache_timeout_ms : ℕ
address_cache_timeout_ms = 30000

abbrev pub arp_request_timeout_ms : ℕ
arp_request_timeout_ms = 5000

unfoldable pub init : EthernetAddress → ℕ → NetworkInterface
init ethernet_address ip_address = record {
  ethernet_address = ethernet_address;
  ip_address = ip_address;
  timer = 0;
  arp_timer = 0;
  address_map =
      (ip_address, record { ethernet_address = ethernet_address; expire_time_ms = 2 ^ 64 - 1 })
      ∷ [];
  arp_request_expire_timers = [];
  datagram_cache = [];
  send_queue = [];
}

abbrev pub create_ethernet_frame :
    NetworkInterface → ℕ → List (List ℕ) → EthernetAddress → EthernetFrame
create_ethernet_frame n type payload dst = record {
  header = record { dst = dst; src = n.ethernet_address; type = type };
  payload = payload;
}

abbrev pub enqueue : EthernetFrame → NetworkInterface → NetworkInterface
enqueue f n = record n { send_queue = n.send_queue ++ (f ∷ []) }

unfoldable pub push_datagram :
    InternetDatagram → EthernetAddress → NetworkInterface → Outcome NetworkInterface
push_datagram dgram dst n = serialize_datagram dgram serializer >>= λ s.
    ok (enqueue (create_ethernet_frame n type_ipv4 (output_of s) dst) n)

-- The Ethernet address cached for an IP address, zeros if there is none.
abbrev pub cached_or_none : Option AddressCache → EthernetAddress
cached_or_none none = no_address
cached_or_none (some c) = c.ethernet_address

unfoldable pub push_arp : ℕ → ℕ → ℕ → EthernetAddress → NetworkInterface → Outcome NetworkInterface
push_arp type sender_ip target_ip dst n =
    let message = record arp_message {
      opcode = type;
      sender_ip_address = sender_ip;
      target_ip_address = target_ip;
      sender_ethernet_address = cached_or_none (lookup sender_ip n.address_map);
      target_ethernet_address = cached_or_none (lookup target_ip n.address_map);
    } in
    Arp.serialize message serializer >>= λ s.
    ok (enqueue (create_ethernet_frame n type_arp (output_of s) dst) n)

unfoldable pub push_arp_request : ℕ → NetworkInterface → Outcome NetworkInterface
push_arp_request ipv4_numeric n =
    push_arp opcode_request n.ip_address ipv4_numeric ethernet_broadcast n >>= λ n'. ok (record n' {
      arp_request_expire_timers =
          assign ipv4_numeric (u64 (n.timer + arp_request_timeout_ms)) n.arp_request_expire_timers;
    })

-- address_map[target_ipv4] is present where this is called.
abbrev pub push_arp_reply : ℕ → ℕ → NetworkInterface → Outcome NetworkInterface
push_arp_reply sender_ipv4 target_ipv4 n =
    push_arp opcode_reply sender_ipv4 target_ipv4
      (cached_or_none (lookup target_ipv4 n.address_map)) n

unfoldable pub is_equal : EthernetAddress → EthernetAddress → Bool
is_equal [] rhs = true
is_equal (l ∷ lhs) [] = false
is_equal (l ∷ lhs) (r ∷ rhs) = l == r && is_equal lhs rhs

unfoldable pub push_all :
    List InternetDatagram → EthernetAddress → NetworkInterface → Outcome NetworkInterface
push_all [] dst n = ok n
push_all (d ∷ ds) dst n = push_datagram d dst n >>= λ n'. push_all ds dst n'

-- The datagrams that wait for an address are sent, and their queue is erased.
unfoldable pub flush_cache : ℕ → EthernetAddress → NetworkInterface → Outcome NetworkInterface
flush_cache ip dst n = elim (lookup ip n.datagram_cache) [
  | none ↦ ok n
  | some ds ↦
      push_all ds dst n >>= λ n'. ok (record n' { datagram_cache = erase ip n.datagram_cache })
]

abbrev pub learn : ℕ → EthernetAddress → NetworkInterface → NetworkInterface
learn ip ethernet n = record n {
  address_map =
      assign ip
        (record {
          ethernet_address = ethernet;
          expire_time_ms = u64 (n.timer + address_cache_timeout_ms);
        })
        n.address_map;
}

-- What handle_arp does with a message that was parsed.
unfoldable pub handle_message : ArpMessage → NetworkInterface → Outcome NetworkInterface
handle_message m n =
    flush_cache m.sender_ip_address m.sender_ethernet_address
      (learn m.sender_ip_address m.sender_ethernet_address n)
    >>= λ n'.
        if m.opcode == opcode_request && contains m.target_ip_address n'.address_map
        then push_arp_reply m.target_ip_address m.sender_ip_address n'
        else ok n'

unfoldable pub handle_arp : EthernetFrame → NetworkInterface → Outcome NetworkInterface
handle_arp frame n = Arp.parse arp_message (parser_of frame.payload) >>= λ r.
    if r.1.error then ok n else handle_message r.0 n

abbrev pub waiting : Option (List InternetDatagram) → List InternetDatagram
waiting none = []
waiting (some ds) = ds

-- No request is pending, or the pending one has expired.
abbrev pub is_request_due : ℕ → Option ℕ → Bool
is_request_due timer none = true
is_request_due timer (some expires) = ltb expires timer

unfoldable pub send_datagram : InternetDatagram → ℕ → NetworkInterface → Outcome NetworkInterface
send_datagram dgram next_hop n = elim (lookup next_hop n.address_map) [
  | some c ↦ push_datagram dgram c.ethernet_address n
  | none ↦
      let asks = is_request_due n.timer (lookup next_hop n.arp_request_expire_timers) in
      if asks
      then (push_arp_request next_hop n >>= λ n'. ok (record n' {
        datagram_cache =
            assign next_hop (waiting (lookup next_hop n'.datagram_cache) ++ (dgram ∷ []))
              n'.datagram_cache;
      }))
      else ok n
]

abbrev pub no_datagram : InternetDatagram
no_datagram = record { header = ipv4_header; payload = [] }

unfoldable pub recv_frame :
    EthernetFrame → NetworkInterface → Outcome (Option InternetDatagram × NetworkInterface)
recv_frame frame n =
    let as_ipv4 = parse_datagram no_datagram (parser_of frame.payload) >>= λ r.
    ok (if r.1.error then none else some r.0, n) in
    let as_arp = handle_arp frame n >>= λ n'. ok (none, n') in
    if not (is_equal frame.header.dst n.ethernet_address)
      && not (is_equal frame.header.dst ethernet_broadcast)
    then ok (none, n)
    else (if frame.header.type == type_ipv4
        then as_ipv4
        else (if frame.header.type == type_arp then as_arp else ok (none, n)))

unfoldable pub tick : ℕ → NetworkInterface → NetworkInterface
tick ms n =
    let timer = u64 (n.timer + ms) in
    let arp_timer = u64 (n.arp_timer + ms) in
    let expires = leb arp_request_timeout_ms arp_timer in
    record n {
      timer = timer;
      address_map = keep (λ c. ltb timer c.expire_time_ms) n.address_map;
      arp_timer = if expires then 0 else arp_timer;
      arp_request_expire_timers =
          if expires
          then keep (λ t. ltb timer t) n.arp_request_expire_timers
          else n.arp_request_expire_timers;
    }

abbrev pub front_frame :
    List EthernetFrame → NetworkInterface → Option EthernetFrame × NetworkInterface
front_frame [] n = (none, n)
front_frame (f ∷ fs) n = (some f, record n { send_queue = fs })

unfoldable pub maybe_send : NetworkInterface → Option EthernetFrame × NetworkInterface
maybe_send n = front_frame n.send_queue n
