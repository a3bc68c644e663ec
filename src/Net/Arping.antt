-- ===== src/Net/Arping.antt =====
-- The ARP exchanges of src/network_interface.cc: a datagram that waits for an address is sent when
-- the reply comes.
use cs144_minnow.Base.{
  ℕ, ◌+◌, ◌≡◌, refl, sym, ap, ◌∙◌, true, false, Option, none, some, List, [], ◌∷◌, ◌++◌,
  append_assoc, append-nil, arith, ◌==◌, ◌&&◌, if◌then◌else◌, All, u64,
}
use cs144_minnow.Base.Outcome.{Outcome, ok, ◌>>=◌}
use cs144_minnow.Base.Maps.{lookup, erase, contains, lookup-assign, lookup-erase}
use cs144_minnow.Wire.Parser.{serializer, output_of, put_buffers, Serializer}
use cs144_minnow.Wire.Ethernet.{EthernetAddress, EthernetFrame, type_ipv4}
use cs144_minnow.Wire.Arp.{ArpMessage, opcode_reply, opcode_request}
use cs144_minnow.Wire.Ipv4.{InternetDatagram, serialize_datagram}
use cs144_minnow.Wire.Headers.{serialize_header-version4}
use cs144_minnow.Net.Interface.{
  NetworkInterface, create_ethernet_frame, push_datagram, push_all, flush_cache, learn,
  handle_message, address_cache_timeout_ms, enqueue, push_arp_reply,
}

-- The bytes of a datagram, none where it cannot be serialized.
abbrev pub output_or_none : Outcome Serializer → List (List ℕ)
output_or_none (ok s) = output_of s
output_or_none o = []

-- The frame that carries a datagram.
abbrev pub frame_of : EthernetAddress → EthernetAddress → InternetDatagram → EthernetFrame
frame_of src dst d = record {
  header = record { dst = dst; src = src; type = type_ipv4 };
  payload = output_or_none (serialize_datagram d serializer);
}

unfoldable pub frames :
    EthernetAddress → EthernetAddress → List InternetDatagram → List EthernetFrame
frames src dst [] = []
frames src dst (d ∷ ds) = frame_of src dst d ∷ frames src dst ds

unfoldable pub IsVersion4 : InternetDatagram → Type 0
IsVersion4 d = d.header.ver ≡ 4

serialize-IsVersion4 :
    (d : InternetDatagram)
    → IsVersion4 d
    → (s : Serializer) × (serialize_datagram d serializer ≡ ok s)
unfolding IsVersion4
serialize-IsVersion4 d h =
    let (s, e) = serialize_header-version4 d.header serializer h in
    (put_buffers d.payload s, ap (λ o. o >>= λ s'. ok (put_buffers d.payload s')) e)

push_datagram_lem :
    (d : InternetDatagram) (dst : EthernetAddress) (n : NetworkInterface)
    → IsVersion4 d
    → push_datagram d dst n ≡ ok (enqueue (frame_of n.ethernet_address dst d) n)
unfolding push_datagram
push_datagram_lem d dst n h =
    let (s, e) = serialize-IsVersion4 d h in
    ap (λ o. o >>= λ r. ok (enqueue (create_ethernet_frame n type_ipv4 (output_of r) dst) n)) e
    ∙ ap (λ p. ok (enqueue (create_ethernet_frame n type_ipv4 p dst) n)) (sym (ap output_or_none e))

push_all_lem :
    (ds : List InternetDatagram) (dst : EthernetAddress) (n : NetworkInterface)
    → All IsVersion4 ds
    → push_all ds dst n
      ≡ ok (record n { send_queue = n.send_queue ++ frames n.ethernet_address dst ds })
unfolding push_all frames
push_all_lem [] dst n h = ap (λ q. ok (record n { send_queue = q })) (sym (append-nil n.send_queue))
push_all_lem (d ∷ ds) dst n (h, hs) =
    let f = frame_of n.ethernet_address dst d in
    ap (λ o. o >>= λ n'. push_all ds dst n') (push_datagram_lem d dst n h)
    ∙ push_all_lem ds dst (enqueue f n) hs
    ∙ ap (λ q. ok (record n { send_queue = q }))
        (append_assoc n.send_queue (f ∷ []) (frames n.ethernet_address dst ds))

-- The interface after a reply: the address is known, and what waited for it is sent.
abbrev pub replied :
    ℕ → EthernetAddress → List InternetDatagram → NetworkInterface → NetworkInterface
replied ip dst ds n = record (learn ip dst n) {
  send_queue = n.send_queue ++ frames n.ethernet_address dst ds;
  datagram_cache = erase ip n.datagram_cache;
}

flush_cache_lem :
    (ip : ℕ) (dst : EthernetAddress) (ds : List InternetDatagram) (n : NetworkInterface)
    → lookup ip n.datagram_cache ≡ some ds
    → All IsVersion4 ds
    → flush_cache ip dst (learn ip dst n) ≡ ok (replied ip dst ds n)
unfolding flush_cache
flush_cache_lem ip dst ds n e h =
    let n1 = learn ip dst n in
    let after : NetworkInterface → Outcome NetworkInterface =
      λ n'. ok (record n' { datagram_cache = erase ip n.datagram_cache }) in
    let from : Option (List InternetDatagram) → Outcome NetworkInterface =
      λ o. elim o [ none ↦ ok n1 | some l ↦ push_all l dst n1 >>= after ] in
    ap from e ∙ ap (λ o. o >>= after) (push_all_lem ds dst n1 h)

refl_key : (k : ℕ) → (k == k) ≡ true
refl_key k = ground arith

pub same_key {ℓ} : {A : Type ℓ} (k : ℕ) (x y : A) → (if k == k then x else y) ≡ x
same_key k x y = ap (λ c. if c then x else y) (refl_key k)

pub handle_message-replied :
    (m : ArpMessage) (ds : List InternetDatagram) (n : NetworkInterface)
    → m.opcode ≡ opcode_reply
    → lookup m.sender_ip_address n.datagram_cache ≡ some ds
    → All IsVersion4 ds
    → handle_message m n ≡ ok (replied m.sender_ip_address m.sender_ethernet_address ds n)
unfolding handle_message
handle_message-replied m ds n o e h =
    let r = replied m.sender_ip_address m.sender_ethernet_address ds n in
    let answered : NetworkInterface → Outcome NetworkInterface =
      λ n'. push_arp_reply m.target_ip_address m.sender_ip_address n' in
    let not_request : (m.opcode == opcode_request) ≡ false = ground arith in
    ap
      (λ f. f >>= λ n'.
        if m.opcode == opcode_request && contains m.target_ip_address n'.address_map
        then answered n'
        else ok n')
      (flush_cache_lem m.sender_ip_address m.sender_ethernet_address ds n e h)
    ∙ ap (λ c. if c && contains m.target_ip_address r.address_map then answered r else ok r)
        not_request

-- A reply from an address makes the address known for the next 30 seconds, and sends the datagrams
-- that wait for it, in order and each once, if they are of IP version 4.
pub reply_sends :
    (m : ArpMessage) (ds : List InternetDatagram) (n : NetworkInterface)
    → m.opcode ≡ opcode_reply
    → lookup m.sender_ip_address n.datagram_cache ≡ some ds
    → All IsVersion4 ds
    → (n' : NetworkInterface) × (handle_message m n ≡ ok n')
      × (n'.send_queue ≡ n.send_queue ++ frames n.ethernet_address m.sender_ethernet_address ds)
      × (lookup m.sender_ip_address n'.datagram_cache ≡ none)
      × (lookup m.sender_ip_address n'.address_map
          ≡ some (record {
            ethernet_address = m.sender_ethernet_address;
            expire_time_ms = u64 (n.timer + address_cache_timeout_ms);
          }))
reply_sends m ds n o e h =
    let ip = m.sender_ip_address in
    (
      replied ip m.sender_ethernet_address ds n,
      handle_message-replied m ds n o e h,
      refl,
      lookup-erase ip ip n.datagram_cache ∙ same_key ip none (lookup ip n.datagram_cache),
      lookup-assign ip ip _ n.address_map ∙ same_key ip _ (lookup ip n.address_map),
    )
