-- ===== src/Wire/Arp.antt =====
-- util/arp_message.{hh,cc}.
use cs144_minnow.Base.{ℕ, Bool, ◌&&◌, ◌||◌, ◌==◌, if◌then◌else◌}
use cs144_minnow.Base.Outcome.{Outcome, ok, throws, ◌>>=◌}
use cs144_minnow.Wire.Parser.{
  Parser, Serializer, integer, integers, set_error, put_integer, put_integers,
}
use cs144_minnow.Wire.Ethernet.{EthernetAddress, no_address, type_ipv4}

abbrev pub type_ethernet : ℕ
type_ethernet = 1

abbrev pub opcode_request : ℕ
opcode_request = 1

abbrev pub opcode_reply : ℕ
opcode_reply = 2

pub record ArpMessage : Type 0 where
  pub hardware_type : ℕ
  pub protocol_type : ℕ
  pub hardware_address_size : ℕ
  pub protocol_address_size : ℕ
  pub opcode : ℕ
  pub sender_ethernet_address : EthernetAddress
  pub sender_ip_address : ℕ
  pub target_ethernet_address : EthernetAddress
  pub target_ip_address : ℕ

-- The members' initialisers.
abbrev pub arp_message : ArpMessage
arp_message = record {
  hardware_type = type_ethernet;
  protocol_type = type_ipv4;
  hardware_address_size = 6;
  protocol_address_size = 4;
  opcode = 0;
  sender_ethernet_address = no_address;
  sender_ip_address = 0;
  target_ethernet_address = no_address;
  target_ip_address = 0;
}

abbrev pub supported : ArpMessage → Bool
supported m =
    m.hardware_type == type_ethernet
    && (m.protocol_type == type_ipv4
        && (m.hardware_address_size == 6
            && (m.protocol_address_size == 4
                && (m.opcode == opcode_request || m.opcode == opcode_reply))))

-- The addresses, behind the fields that supported checks.
unfoldable pub parse_addresses : ArpMessage → Parser → Outcome (ArpMessage × Parser)
parse_addresses m p = do
  (sender_ethernet, p1) ← integers m.sender_ethernet_address p
  (sender_ip, p2) ← integer 4 m.sender_ip_address p1
  (target_ethernet, p3) ← integers m.target_ethernet_address p2
  (target_ip, p4) ← integer 4 m.target_ip_address p3
  ok (
    record m {
      sender_ethernet_address = sender_ethernet;
      sender_ip_address = sender_ip;
      target_ethernet_address = target_ethernet;
      target_ip_address = target_ip;
    },
    p4,
  )

unfoldable pub parse : ArpMessage → Parser → Outcome (ArpMessage × Parser)
parse m p = do
  (hardware_type, p1) ← integer 2 m.hardware_type p
  (protocol_type, p2) ← integer 2 m.protocol_type p1
  (hardware_size, p3) ← integer 1 m.hardware_address_size p2
  (protocol_size, p4) ← integer 1 m.protocol_address_size p3
  (opcode, p5) ← integer 2 m.opcode p4
  let m' = record m {
    hardware_type = hardware_type;
    protocol_type = protocol_type;
    hardware_address_size = hardware_size;
    protocol_address_size = protocol_size;
    opcode = opcode;
  }
  if supported m' then parse_addresses m' p5 else ok (m', set_error p5)

unfoldable pub serialize : ArpMessage → Serializer → Outcome Serializer
serialize m s =
    if supported m
    then ok (
        put_integer 4 m.target_ip_address (
          put_integers m.target_ethernet_address (
            put_integer 4 m.sender_ip_address (
              put_integers m.sender_ethernet_address (
                put_integer 2 m.opcode (
                  put_integer 1 m.protocol_address_size (
                    put_integer 1 m.hardware_address_size
                      (put_integer 2 m.protocol_type (put_integer 2 m.hardware_type s)))))))))
    else throws
