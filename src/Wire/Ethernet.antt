-- ===== src/Wire/Ethernet.antt =====
-- util/ethernet_header.{hh,cc} and util/ethernet_frame.hh.
use cs144_minnow.Base.{ℕ, List, [], ◌∷◌}
use cs144_minnow.Base.Outcome.{Outcome, ok, ◌>>=◌}
use cs144_minnow.Wire.Parser.{
  Parser, Serializer, integer, integers, all_remaining, put_integer, put_integers, put_buffers,
}

-- Six bytes.
abbrev pub EthernetAddress : Type 0
EthernetAddress = List ℕ

abbrev pub no_address : EthernetAddress
no_address = 0 ∷ 0 ∷ 0 ∷ 0 ∷ 0 ∷ 0 ∷ []

abbrev pub ethernet_broadcast : EthernetAddress
ethernet_broadcast = 0xff ∷ 0xff ∷ 0xff ∷ 0xff ∷ 0xff ∷ 0xff ∷ []

abbrev pub type_ipv4 : ℕ
type_ipv4 = 0x800

abbrev pub type_arp : ℕ
type_arp = 0x806

pub record EthernetHeader : Type 0 where
  pub dst : EthernetAddress
  pub src : EthernetAddress
  pub type : ℕ

abbrev pub parse_header : EthernetHeader → Parser → Outcome (EthernetHeader × Parser)
parse_header h p = do
  (dst, p1) ← integers h.dst p
  (src, p2) ← integers h.src p1
  (type, p3) ← integer 2 h.type p2
  ok (record { dst = dst; src = src; type = type }, p3)

abbrev pub serialize_header : EthernetHeader → Serializer → Serializer
serialize_header h s = put_integer 2 h.type (put_integers h.src (put_integers h.dst s))

pub record EthernetFrame : Type 0 where
  pub header : EthernetHeader
  pub payload : List (List ℕ)

abbrev pub parse_frame : EthernetFrame → Parser → Outcome (EthernetFrame × Parser)
parse_frame f p = do
  (header, p1) ← parse_header f.header p
  ok (record { header = header; payload = all_remaining p1 }, p1)

abbrev pub serialize_frame : EthernetFrame → Serializer → Serializer
serialize_frame f s = put_buffers f.payload (serialize_header f.header s)
