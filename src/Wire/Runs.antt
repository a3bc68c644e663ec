-- ===== src/Wire/Runs.antt =====
-- Runs of util/parser.hh, util/checksum.hh and the headers, and their theorems at concrete inputs.
use cs144_minnow.Base.{
  ℕ, List, inr, ◌++◌, ◌/◌, Bool, true, false, Option, some, ◌+◌, ◌%◌, ◌≤◌, ◌≡◌, refl, [], ◌∷◌,
  arith, ◌∙◌, sym, ap, append_assoc, length-append,
}
use cs144_minnow.Base.Outcome.{Outcome, ok}
use cs144_minnow.Wire.Parser.{
  Parser, Serializer, parser_of, concat, serializer, output_of, bytes_of, integer, read_bytes,
  remove_prefix,
}
use cs144_minnow.Wire.Ethernet.{EthernetFrame, type_ipv4, parse_frame, serialize_frame}
use cs144_minnow.Wire.Arp.{ArpMessage, arp_message, opcode_request}
use cs144_minnow.Wire.Arp
use cs144_minnow.Wire.Messages.{IsAddress, IsArp, parse-serialize, parse_frame-serialize_frame}
use cs144_minnow.Wire.Datagrams.{IsIpv4, parse_datagram-serialize_datagram}
use cs144_minnow.Wire.Segments.{IsSegment, segment_bytes, segment-buffers, length-segment_bytes}
use cs144_minnow.Wire.SegmentTrip.{parse-compute_checksum}
use cs144_minnow.Wire.Tunnel.{sent, unwrap_tcp_in_ip-wrap_tcp_in_ip}
use cs144_minnow.Wire.Ipv4.{
  Ipv4Header, InternetDatagram, ipv4_header, parse_datagram, serialize_datagram,
}
use cs144_minnow.Wire.Ipv4
use cs144_minnow.Wire.Segment.{TcpSegment, serialize, compute_checksum, parse, parse_fields}
use cs144_minnow.Wire.Adapter.{FdAdapterBase, tcp_segment, accept, unwrap_tcp_in_ip, wrap_tcp_in_ip}
use cs144_minnow.Wire.Reads.{position, integer_lem}
use cs144_minnow.Wire.Filter.{Filters, unwrap_tcp_in_ip-Filters}
use cs144_minnow.Wire.Checksum.{checksum, add, add_all, fold, value, value_lem}

-- A sum of 0x1fffe, as from two words of 0xffff.
value_lem_example :
    (fold 2 0x1fffe ≤ 0xffff)
    × (value (checksum 0x1fffe) ≤ 0xffff)
    × ((0x1fffe + value (checksum 0x1fffe)) % 0xffff ≡ 0)
value_lem_example = value_lem (checksum 0x1fffe) (omega arith)

-- The bytes of the example of RFC 1071: 00 01 f2 03 f4 f5 f6 f7.
add_rfc1071 :
    value (add (0x00 ∷ 0x01 ∷ 0xf2 ∷ 0x03 ∷ 0xf4 ∷ 0xf5 ∷ 0xf6 ∷ 0xf7 ∷ []) (checksum 0)) ≡ 0x220d
unfolding value add
add_rfc1071 = refl

-- A server listens on port 80, and a client at 10.0.0.1:1024 opens a connection to it.
abbrev server : FdAdapterBase
server = record {
  config = record {
    source = record { ipv4_numeric = 0; port = 80 };
    destination = record { ipv4_numeric = 0; port = 0 };
    loss_rate_dn = 0;
    loss_rate_up = 0;
  };
  listen = true;
}

abbrev syn_segment : TcpSegment
syn_segment = record tcp_segment {
  sender_message = record {
    seqno = record { raw_value = 7 };
    syn = true;
    payload = [];
    fin = false;
  };
  udinfo = record { src_port = 1024; dst_port = 80; cksum = 0 };
}

abbrev syn_datagram : InternetDatagram
syn_datagram = record {
  header = record ipv4_header { len = 40; src = 167772161; dst = 167772162 };
  payload = output_of (
      serialize
        (compute_checksum (167772161 / 65536 + 1 + 167772162 / 65536 + 2 + 6 + 20) syn_segment)
        serializer);
}

unwrap_tcp_in_ip-Filters_example :
    Filters syn_datagram server (unwrap_tcp_in_ip syn_datagram server)
unwrap_tcp_in_ip-Filters_example = unwrap_tcp_in_ip-Filters syn_datagram server

abbrev is_taken : Outcome (Option TcpSegment × FdAdapterBase) → Bool
is_taken (ok (some seg, a)) = true
is_taken o = false

unwrap_tcp_in_ip-syn : is_taken (unwrap_tcp_in_ip syn_datagram server) ≡ true
unfolding unwrap_tcp_in_ip parse parse_fields integer bytes_of add_all read_bytes remove_prefix
    value add serialize compute_checksum accept
unwrap_tcp_in_ip-syn = refl

-- A buffer with the bytes of 0x01020304 from its second byte on.
abbrev some_bytes : List ℕ
some_bytes = 7 ∷ 1 ∷ 2 ∷ 3 ∷ 4 ∷ 9 ∷ []

integer_lem_example :
    integer 4 0 (position 1 some_bytes []) ≡ ok (0x01020304, position 5 some_bytes [])
integer_lem_example =
    integer_lem some_bytes [] (omega arith) 4 0x01020304 0 1 (9 ∷ []) (inr (inr refl)) (omega arith)
      (unfold bytes_of in refl) (omega arith)

-- Host 2 asks who has the address of host 1.
abbrev address_1 : List ℕ
address_1 = 2 ∷ 0 ∷ 0 ∷ 0 ∷ 0 ∷ 1 ∷ []

abbrev address_2 : List ℕ
address_2 = 2 ∷ 0 ∷ 0 ∷ 0 ∷ 0 ∷ 2 ∷ []

address_1-IsAddress : IsAddress address_1
address_1-IsAddress = record { six = refl; bytes = omega arith }

address_2-IsAddress : IsAddress address_2
address_2-IsAddress = record { six = refl; bytes = omega arith }

abbrev request : ArpMessage
request = record arp_message {
  opcode = opcode_request;
  sender_ethernet_address = address_2;
  sender_ip_address = 167772162;
  target_ip_address = 167772161;
}

request-IsArp : IsArp request
request-IsArp = record {
  is_supported = refl;
  sender = address_2-IsAddress;
  target = record { six = refl; bytes = omega arith };
  sender_ip = omega arith;
  target_ip = omega arith;
}

parse-serialize_example :
    (s : Serializer) × (p : Parser) × (Arp.serialize request serializer ≡ ok s)
    × (Arp.parse arp_message (parser_of (output_of s)) ≡ ok (request, p))
    × (p.error ≡ false)
parse-serialize_example = parse-serialize request request-IsArp

-- A frame between the two, with an empty buffer in its payload.
abbrev frame : EthernetFrame
frame = record {
  header = record { dst = address_1; src = address_2; type = type_ipv4 };
  payload = (1 ∷ 2 ∷ []) ∷ [] ∷ (3 ∷ []) ∷ [];
}

frame_again :
    (g : EthernetFrame) × (p : Parser) × (parse_frame frame
        (parser_of (output_of (serialize_frame frame serializer)))
      ≡ ok (g, p))
    × (g.header ≡ frame.header)
    × (concat g.payload ≡ 1 ∷ 2 ∷ 3 ∷ [])
    × (p.error ≡ false)
frame_again =
    parse_frame-serialize_frame frame frame
      (record { to = address_1-IsAddress; from = address_2-IsAddress; kind = omega arith }) refl
      refl (omega arith)

-- A header with the checksum of its bytes.
abbrev checked : Ipv4Header
checked = record ipv4_header { cksum = 59102; len = 23; src = 167772161; dst = 167772162 }

abbrev datagram : InternetDatagram
datagram = record { header = checked; payload = (1 ∷ 2 ∷ []) ∷ [] ∷ (3 ∷ []) ∷ [] }

checked-IsIpv4 : IsIpv4 checked
checked-IsIpv4 = record {
  version = refl;
  words = refl;
  tos = omega arith;
  len = omega arith;
  id = omega arith;
  offset = omega arith;
  ttl = omega arith;
  proto = omega arith;
  cksum = omega arith;
  src = omega arith;
  dst = omega arith;
}

checked-compute_checksum : Ipv4.compute_checksum checked ≡ ok checked
unfolding Ipv4.compute_checksum Ipv4.serialize_header bytes_of add_all add value
checked-compute_checksum = refl

parse_datagram-serialize_datagram_example :
    (s : Serializer) × (g : InternetDatagram) × (p : Parser) × (serialize_datagram datagram
        serializer
      ≡ ok s)
    × (parse_datagram datagram (parser_of (output_of s)) ≡ ok (g, p))
    × (g.header ≡ checked)
    × (concat g.payload ≡ 1 ∷ 2 ∷ 3 ∷ [])
    × (p.error ≡ false)
parse_datagram-serialize_datagram_example =
    parse_datagram-serialize_datagram datagram datagram checked-IsIpv4 checked-compute_checksum
      (omega arith)

-- Three bytes with a FIN, in a segment that acknowledges 9.
abbrev data_segment : TcpSegment
data_segment = record {
  sender_message = record {
    seqno = record { raw_value = 7 };
    syn = false;
    payload = 1 ∷ 2 ∷ 3 ∷ [];
    fin = true;
  };
  receiver_message = record { ackno = some (record { raw_value = 9 }); window_size = 1000 };
  reset = false;
  udinfo = record { src_port = 1024; dst_port = 80; cksum = 0 };
}

data_segment-IsSegment : IsSegment data_segment
data_segment-IsSegment = record {
  seqno = omega arith;
  payload = omega arith;
  ackno = omega arith;
  window = omega arith;
  src_port = omega arith;
  dst_port = omega arith;
}

-- The first byte of the payload follows the header in its buffer.
parse-compute_checksum_example :
    (p : Parser) × (parse 1000 tcp_segment (
        parser_of
          ((segment_bytes (compute_checksum 1000 data_segment) ++ (1 ∷ [])) ∷ (2 ∷ 3 ∷ []) ∷ []))
      ≡ ok (compute_checksum 1000 data_segment, p))
    × (p.error ≡ false)
unfolding compute_checksum
parse-compute_checksum_example =
    let sealed = compute_checksum 1000 data_segment in
    let header = segment_bytes sealed in
    parse-compute_checksum 1000 data_segment tcp_segment (header ++ (1 ∷ [])) ((2 ∷ 3 ∷ []) ∷ [])
      data_segment-IsSegment
      (append_assoc header (1 ∷ []) (2 ∷ 3 ∷ []) ∙ sym (ap concat (segment-buffers sealed)))
      (omega (arith, length-append header (1 ∷ []), length-segment_bytes sealed)) (omega arith)

-- The two ends of a connection from 10.0.0.1:1024 to 10.0.0.2:80.
abbrev end_1 : FdAdapterBase
end_1 = record {
  config = record {
    source = record { ipv4_numeric = 167772161; port = 1024 };
    destination = record { ipv4_numeric = 167772162; port = 80 };
    loss_rate_dn = 0;
    loss_rate_up = 0;
  };
  listen = false;
}

abbrev end_2 : FdAdapterBase
end_2 = record {
  config = record {
    source = record { ipv4_numeric = 167772162; port = 80 };
    destination = record { ipv4_numeric = 167772161; port = 1024 };
    loss_rate_dn = 0;
    loss_rate_up = 0;
  };
  listen = false;
}

unwrap_tcp_in_ip-wrap_tcp_in_ip_example :
    (d : InternetDatagram) × (wrap_tcp_in_ip data_segment end_1 ≡ ok (d, sent data_segment end_1))
    × (concat d.payload ≡ segment_bytes (sent data_segment end_1) ++ (1 ∷ 2 ∷ 3 ∷ []))
    × (unwrap_tcp_in_ip
          (record d {
            payload = (segment_bytes (sent data_segment end_1) ++ []) ∷ (1 ∷ 2 ∷ 3 ∷ []) ∷ [];
          })
          end_2
        ≡ ok (some (sent data_segment end_1), end_2))
unwrap_tcp_in_ip-wrap_tcp_in_ip_example =
    unwrap_tcp_in_ip-wrap_tcp_in_ip data_segment end_1 end_2 [] ((1 ∷ 2 ∷ 3 ∷ []) ∷ [])
      (record { connected = refl; to_peer = refl; from_peer = refl }) data_segment-IsSegment
      (omega arith) (omega arith) refl (omega arith)
