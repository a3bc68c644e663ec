-- ===== src/Wire/Messages.antt =====
-- ARPMessage::parse after ARPMessage::serialize (util/arp_message.cc), and the Ethernet header
-- (util/ethernet_header.cc).
use cs144_minnow.Base.{
  ℕ, ◌+◌, ◌^◌, ◌<◌, ◌≡◌, refl, sym, ap, ◌∙◌, true, false, List, [], ◌∷◌, ◌++◌, arith, length,
  append_assoc, append-nil, length-append, All, IsU32,
}
use cs144_minnow.Base.Outcome.{Outcome, ok}
use cs144_minnow.Wire.Parser.{
  Parser, parser_of, total_size, bytes_of, Serializer, serializer, put_integer, put_integers,
  output_of, all_remaining, concat,
}
use cs144_minnow.Wire.Fields.{
  At, At-nil, parser_of-At, Moves, IsByte, one, two, four, integer-At, integers-At,
  put_integers_lem, length-bytes_of,
}
use cs144_minnow.Wire.Payloads.{
  spaced, put_buffers_lem, concat-spaced, total_size-spaced, concat-all_remaining,
}
use cs144_minnow.Wire.Ethernet.{
  EthernetAddress, EthernetHeader, EthernetFrame, parse_header, serialize_header, parse_frame,
  serialize_frame,
}
use cs144_minnow.Wire.Arp.{ArpMessage, arp_message, supported, parse, parse_addresses, serialize}

-- Six bytes.
pub record IsAddress (a : EthernetAddress) : Type 0 where
  pub six : length a ≡ 6
  pub bytes : All IsByte a

-- A message that the code supports, with fields that fit their widths.
pub record IsArp (m : ArpMessage) : Type 0 where
  pub is_supported : supported m ≡ true
  pub sender : IsAddress m.sender_ethernet_address
  pub target : IsAddress m.target_ethernet_address
  pub sender_ip : IsU32 m.sender_ip_address
  pub target_ip : IsU32 m.target_ip_address

pub arp_bytes : ArpMessage → List ℕ
arp_bytes m =
    bytes_of 2 m.hardware_type
    ++ (bytes_of 2 m.protocol_type
        ++ (bytes_of 1 m.hardware_address_size
            ++ (bytes_of 1 m.protocol_address_size
                ++ (bytes_of 2 m.opcode
                    ++ (m.sender_ethernet_address
                        ++ (bytes_of 4 m.sender_ip_address
                            ++ (m.target_ethernet_address
                                ++ (bytes_of 4 m.target_ip_address ++ []))))))))

supported_fits :
    (m : ArpMessage)
    → supported m ≡ true
    → (m.hardware_type < 2 ^ 16)
      × (m.protocol_type < 2 ^ 16)
      × (m.hardware_address_size < 256)
      × (m.protocol_address_size < 256)
      × (m.opcode < 2 ^ 16)
supported_fits m h = ground arith

parse-At :
    (m old : ArpMessage) (p : Parser) (more : List (List ℕ))
    → IsArp m
    → length old.sender_ethernet_address ≡ 6
    → length old.target_ethernet_address ≡ 6
    → At p (arp_bytes m) more
    → Moves (parse old p) m [] more
unfolding parse parse_addresses arp_bytes
parse-At m old p more v ls lt a0 =
    let fits = supported_fits m v.is_supported in
    let (p1, e1, a1) = integer-At 2 old.hardware_type m.hardware_type p _ more two fits.0 a0 in
    let (p2, e2, a2) = integer-At 2 old.protocol_type m.protocol_type p1 _ more two fits.1 a1 in
    let (p3, e3, a3) =
      integer-At 1 old.hardware_address_size m.hardware_address_size p2 _ more one fits.2 a2 in
    let (p4, e4, a4) =
      integer-At 1 old.protocol_address_size m.protocol_address_size p3 _ more one fits.3 a3 in
    let (p5, e5, a5) = integer-At 2 old.opcode m.opcode p4 _ more two fits.4 a4 in
    let (p6, e6, a6) =
      integers-At old.sender_ethernet_address m.sender_ethernet_address p5 _ more
        (ls ∙ sym v.sender.six) v.sender.bytes a5 in
    let (p7, e7, a7) =
      integer-At 4 old.sender_ip_address m.sender_ip_address p6 _ more four v.sender_ip a6 in
    let (p8, e8, a8) =
      integers-At old.target_ethernet_address m.target_ethernet_address p7 _ more
        (lt ∙ sym v.target.six) v.target.bytes a7 in
    let (p9, e9, a9) =
      integer-At 4 old.target_ip_address m.target_ip_address p8 _ more four v.target_ip a8 in
    (p9, rw (e1, e2, e3, e4, e5, v.is_supported, e6, e7, e8, e9), a9)

arp-buffer :
    (m : ArpMessage)
    → IsArp m
    → serialize m serializer ≡ ok (record { output = []; buffer = arp_bytes m })
unfolding serialize arp_bytes
arp-buffer m v =
    let s1 : Serializer = record {
      output = [];
      buffer =
          bytes_of 2 m.hardware_type
          ++ bytes_of 2 m.protocol_type
          ++ bytes_of 1 m.hardware_address_size
          ++ bytes_of 1 m.protocol_address_size
          ++ bytes_of 2 m.opcode;
    } in
    let s2 =
      put_integer 4 m.sender_ip_address
        (record s1 { buffer = s1.buffer ++ m.sender_ethernet_address }) in
    let end : Serializer → Outcome Serializer = λ s. ok (put_integer 4 m.target_ip_address s) in
    rw v.is_supported (
      ap (λ s. end (put_integers m.target_ethernet_address (put_integer 4 m.sender_ip_address s)))
        (put_integers_lem m.sender_ethernet_address s1 v.sender.bytes)
      ∙ ap end (put_integers_lem m.target_ethernet_address s2 v.target.bytes)
      ∙ ap (λ b. ok (record { output = []; buffer = b })) (simp (append_assoc, append-nil)))

length-arp_bytes : (m : ArpMessage) → IsArp m → length (arp_bytes m) ≡ 28
unfolding arp_bytes
length-arp_bytes m v = simp (length-append, length-bytes_of, v.sender.six, v.target.six)

-- What serialize makes of a supported message, with fields that fit their widths, parse reads as
-- the same message, without an error.
pub parse-serialize :
    (m : ArpMessage)
    → IsArp m
    → (s : Serializer) × (p : Parser) × (serialize m serializer ≡ ok s)
      × (parse arp_message (parser_of (output_of s)) ≡ ok (m, p))
      × (p.error ≡ false)
parse-serialize m v =
    let b = arp_bytes m in
    let len = length-arp_bytes m v in
    let (p, e, a) =
      parse-At m arp_message (parser_of (b ∷ [])) [] v refl refl
        (parser_of-At b [] (omega arith) (omega arith)) in
    (record { output = []; buffer = b }, p, arp-buffer m v, e, ap (λ q. q.error) (At-nil p [] a))

pub record IsEthernet (h : EthernetHeader) : Type 0 where
  pub to : IsAddress h.dst
  pub from : IsAddress h.src
  pub kind : h.type < 2 ^ 16

pub header_bytes : EthernetHeader → List ℕ
header_bytes h = h.dst ++ (h.src ++ (bytes_of 2 h.type ++ []))

pub parse_header-At :
    (h old : EthernetHeader) (p : Parser) (more : List (List ℕ))
    → IsEthernet h
    → length old.dst ≡ 6
    → length old.src ≡ 6
    → At p (header_bytes h) more
    → Moves (parse_header old p) h [] more
unfolding header_bytes
parse_header-At h old p more v ld ls a0 =
    let (p1, e1, a1) = integers-At old.dst h.dst p _ more (ld ∙ sym v.to.six) v.to.bytes a0 in
    let (p2, e2, a2) = integers-At old.src h.src p1 _ more (ls ∙ sym v.from.six) v.from.bytes a1 in
    let (p3, e3, a3) = integer-At 2 old.type h.type p2 _ more two v.kind a2 in
    (p3, rw (e1, e2, e3), a3)

header-buffer :
    (h : EthernetHeader)
    → IsEthernet h
    → serialize_header h serializer ≡ record { output = []; buffer = header_bytes h }
unfolding header_bytes
header-buffer h v =
    ap (λ s. put_integer 2 h.type (put_integers h.src s))
      (put_integers_lem h.dst serializer v.to.bytes)
    ∙ ap (put_integer 2 h.type) (put_integers_lem h.src _ v.from.bytes)
    ∙ ap (λ b. record { output = []; buffer = b }) (simp (append_assoc, append-nil))

length-header_bytes : (h : EthernetHeader) → IsEthernet h → length (header_bytes h) ≡ 14
unfolding header_bytes
length-header_bytes h v = simp (length-append, length-bytes_of, v.to.six, v.from.six)

-- A frame that is serialized and parsed, over a frame with addresses of six bytes, has its header and
-- the bytes of its payload again, without an error, if its addresses have six bytes, its type fits 16
-- bits and it has less than 2^64 bytes.
pub parse_frame-serialize_frame :
    (f old : EthernetFrame)
    → IsEthernet f.header
    → length old.header.dst ≡ 6
    → length old.header.src ≡ 6
    → total_size f.payload + 14 < 2 ^ 64
    → (g : EthernetFrame) × (p : Parser) × (parse_frame old
          (parser_of (output_of (serialize_frame f serializer)))
        ≡ ok (g, p))
      × (g.header ≡ f.header)
      × (concat g.payload ≡ concat f.payload)
      × (p.error ≡ false)
parse_frame-serialize_frame f old v ld ls small =
    let b = header_bytes f.header in
    let more = spaced f.payload in
    let len = length-header_bytes f.header v in
    let wire : output_of (serialize_frame f serializer) ≡ b ∷ more =
      put_buffers_lem f.payload (serialize_header f.header serializer)
      ∙ ap (λ s. s.output ++ (s.buffer ∷ more)) (header-buffer f.header v) in
    let (p, e, a) =
      parse_header-At f.header old.header (parser_of (b ∷ more)) more v ld ls
        (parser_of-At b more (omega arith) (omega (arith, total_size-spaced f.payload))) in
    let end = At-nil p more a in
    (
      record { header = f.header; payload = all_remaining p },
      p,
      ap (λ l. parse_frame old (parser_of l)) wire ∙ rw e refl,
      refl,
      ap (λ q. concat (all_remaining q)) end ∙ concat-all_remaining more ∙ concat-spaced f.payload,
      ap (λ q. q.error) end,
    )
