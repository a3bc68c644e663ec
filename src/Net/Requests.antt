-- ===== src/Net/Requests.antt =====
-- The ARP requests of src/network_interface.cc: what becomes of datagrams for an unknown address.
use cs144_minnow.Base.{
  ℕ, ◌+◌, ◌^◌, ◌<◌, ◌≡◌, ap, ◌∙◌, true, false, Option, none, some, [], ◌∷◌, ◌++◌, append_assoc,
  arith, ltb, Bool, if◌then◌else◌, u64,
}
use cs144_minnow.Base.Outcome.{Outcome, ok, ◌>>=◌}
use cs144_minnow.Base.Maps.{lookup, assign, lookup-assign, lookup-erase}
use cs144_minnow.Wire.Parser.{serializer}
use cs144_minnow.Wire.Ethernet.{EthernetFrame, type_arp, ethernet_broadcast}
use cs144_minnow.Wire.Arp.{ArpMessage, arp_message, opcode_reply, opcode_request}
use cs144_minnow.Wire.Arp
use cs144_minnow.Wire.Ipv4.{InternetDatagram}
use cs144_minnow.Net.Interface.{
  NetworkInterface, AddressCache, push_datagram, handle_message, send_datagram, push_arp,
  push_arp_request, cached_or_none, waiting, is_request_due, arp_request_timeout_ms,
}
use cs144_minnow.Net.Arping.{
  output_or_none, frame_of, frames, IsVersion4, replied, same_key, handle_message-replied,
}

not_expired :
    (timer : ℕ)
    → timer + arp_request_timeout_ms < 2 ^ 64
    → ltb (u64 (timer + arp_request_timeout_ms)) timer ≡ false
not_expired timer h = ground arith

-- The frame that asks for an address.
abbrev pub request_frame : ℕ → NetworkInterface → EthernetFrame
request_frame hop n = record {
  header = record { dst = ethernet_broadcast; src = n.ethernet_address; type = type_arp };
  payload = output_or_none (
      Arp.serialize
        (record arp_message {
          opcode = opcode_request;
          sender_ip_address = n.ip_address;
          target_ip_address = hop;
          sender_ethernet_address = cached_or_none (lookup n.ip_address n.address_map);
          target_ethernet_address = cached_or_none (lookup hop n.address_map);
        })
        serializer);
}

-- The interface after it asked for an address.
abbrev pub asked : ℕ → InternetDatagram → NetworkInterface → NetworkInterface
asked hop d n = record n {
  send_queue = n.send_queue ++ (request_frame hop n ∷ []);
  arp_request_expire_timers =
      assign hop (u64 (n.timer + arp_request_timeout_ms)) n.arp_request_expire_timers;
  datagram_cache = assign hop (waiting (lookup hop n.datagram_cache) ++ (d ∷ [])) n.datagram_cache;
}

send_datagram-unknown :
    (d : InternetDatagram) (hop : ℕ) (n : NetworkInterface) (due : Bool)
    → lookup hop n.address_map ≡ none
    → is_request_due n.timer (lookup hop n.arp_request_expire_timers) ≡ due
    → send_datagram d hop n ≡ (if due then ok (asked hop d n) else ok n)
unfolding send_datagram push_arp_request push_arp Arp.serialize
send_datagram-unknown d hop n due e t =
    let asking : Outcome NetworkInterface = ok (asked hop d n) in
    let is_known : Option AddressCache → Outcome NetworkInterface = λ o. elim o [
      | some c ↦ push_datagram d c.ethernet_address n
      | none ↦
          if is_request_due n.timer (lookup hop n.arp_request_expire_timers) then asking else ok n
    ] in
    ap is_known e ∙ ap (λ c. if c then asking else ok n) t

-- The two datagrams that are sent to an unknown address, and then the reply.
abbrev pub exchange :
    InternetDatagram
    → InternetDatagram
    → ℕ
    → ArpMessage
    → NetworkInterface
    → Outcome NetworkInterface
exchange d1 d2 hop m n =
    send_datagram d1 hop n >>= λ n1. (send_datagram d2 hop n1 >>= λ n2. handle_message m n2)

-- Of two datagrams for an address that is not known, the second is lost: after the reply, which
-- comes before anything expires, the request and the first datagram are all that was sent, and
-- nothing is left to wait. No datagram waited and no request was pending before; the first
-- datagram is of IP version 4, and the clock is far from its end.
pub exchange_loses :
    (d1 d2 : InternetDatagram) (m : ArpMessage) (n : NetworkInterface)
    → m.opcode ≡ opcode_reply
    → IsVersion4 d1
    → n.timer + arp_request_timeout_ms < 2 ^ 64
    → lookup m.sender_ip_address n.address_map ≡ none
    → lookup m.sender_ip_address n.arp_request_expire_timers ≡ none
    → lookup m.sender_ip_address n.datagram_cache ≡ none
    → (n' : NetworkInterface) × (exchange d1 d2 m.sender_ip_address m n ≡ ok n')
      × (n'.send_queue
          ≡ n.send_queue
            ++ (request_frame m.sender_ip_address n
                ∷ frame_of n.ethernet_address m.sender_ethernet_address d1
                ∷ []))
      × (lookup m.sender_ip_address n'.datagram_cache ≡ none)
unfolding frames
exchange_loses d1 d2 m n o v small unknown idle empty =
    let hop = m.sender_ip_address in
    let n1 = asked hop d1 n in
    let n' = replied hop m.sender_ethernet_address (d1 ∷ []) n1 in
    let queued : lookup hop n1.datagram_cache ≡ some (d1 ∷ []) =
      lookup-assign hop hop _ n.datagram_cache
      ∙ same_key hop _ _
      ∙ ap (λ w. some (waiting w ++ (d1 ∷ []))) empty in
    let pending : is_request_due n.timer (lookup hop n1.arp_request_expire_timers) ≡ false =
      ap (is_request_due n.timer)
        (lookup-assign hop hop _ n.arp_request_expire_timers ∙ same_key hop _ _)
      ∙ not_expired n.timer small in
    let first = send_datagram-unknown d1 hop n true unknown (ap (is_request_due n.timer) idle) in
    let second = send_datagram-unknown d2 hop n1 false unknown pending in
    (
      n',
      ap (λ f. f >>= λ a. (send_datagram d2 hop a >>= λ b. handle_message m b)) first
          ∙ ap (λ f. f >>= λ b. handle_message m b) second
          ∙ handle_message-replied m (d1 ∷ []) n1 o queued (v, tt),
      append_assoc n.send_queue (request_frame hop n ∷ [])
          (frames n.ethernet_address m.sender_ethernet_address (d1 ∷ [])),
      lookup-erase hop hop n1.datagram_cache ∙ same_key hop none (lookup hop n1.datagram_cache),
    )
