-- ===== src/Wire/Datagrams.antt =====
-- IPv4Header::parse after serialize (util/ipv4_header.cc), and the datagram (util/ipv4_datagram.hh).
use cs144_minnow.Base.{
  ℕ, ◌+◌, ◌-◌, ◌*◌, ◌/◌, ◌%◌, ◌^◌, ◌<◌, ◌≡◌, refl, ap, ap₂, subst, ◌∙◌, Bool, true, false, not,
  ◌||◌, List, [], ◌∷◌, ◌++◌, arith, test_self, ltb, ◌==◌, if◌then◌else◌, length, append_assoc,
  append-nil, length-append, IsU32, u8,
}
use cs144_minnow.Base.Outcome.{Outcome, ok, throws, undefined, stuck, ◌>>=◌}
use cs144_minnow.Wire.Parser.{
  Parser, parser_of, total_size, remove_prefix, bytes_of, Serializer, serializer, output_of,
  set_error, all_remaining, concat, put_buffers,
}
use cs144_minnow.Wire.Remains.{remove_prefix-zero}
use cs144_minnow.Wire.Fields.{
  At, At-nil, parser_of-At, one, two, four, integer-then, length-bytes_of,
}
use cs144_minnow.Wire.Payloads.{
  spaced, put_buffers_lem, concat-spaced, total_size-spaced, concat-all_remaining,
}
use cs144_minnow.Wire.Checksum.{value, add_all, checksum}
use cs144_minnow.Wire.Ipv4.{
  Ipv4Header, InternetDatagram, has_bit, flag, header_length, serialize_header, compute_checksum,
  check_header, parse_header, parse_datagram, serialize_datagram,
}

-- A header without options, with fields that fit their widths.
pub record IsIpv4 (h : Ipv4Header) : Type 0 where
  pub version : h.ver ≡ 4
  pub words : h.hlen ≡ 5
  pub tos : h.tos < 2 ^ 8
  pub len : h.len < 2 ^ 16
  pub id : h.id < 2 ^ 16
  pub offset : h.offset < 2 ^ 13
  pub ttl : h.ttl < 2 ^ 8
  pub proto : h.proto < 2 ^ 8
  pub cksum : h.cksum < 2 ^ 16
  pub src : IsU32 h.src
  pub dst : IsU32 h.dst

abbrev first_byte : Ipv4Header → ℕ
first_byte h = u8 (h.ver * 16) + h.hlen % 16

abbrev fo_val : Ipv4Header → ℕ
fo_val h = flag h.df 0x4000 + flag h.mf 0x2000 + h.offset % 2 ^ 13

pub ip_bytes : Ipv4Header → List ℕ
ip_bytes h =
    bytes_of 1 (first_byte h)
    ++ (bytes_of 1 h.tos
        ++ (bytes_of 2 h.len
            ++ (bytes_of 2 h.id
                ++ (bytes_of 2 (fo_val h)
                    ++ (bytes_of 1 h.ttl
                        ++ (bytes_of 1 h.proto
                            ++ (bytes_of 2 h.cksum
                                ++ (bytes_of 4 h.src ++ (bytes_of 4 h.dst ++ [])))))))))

fo_val-fits : (h : Ipv4Header) → fo_val h < 2 ^ 16
fo_val-fits h = ground arith

-- The header as the parser takes it apart.
abbrev decoded : Ipv4Header → Ipv4Header
decoded h = record h {
  ver = first_byte h / 16;
  hlen = first_byte h % 16;
  df = has_bit 14 (fo_val h);
  mf = has_bit 13 (fo_val h);
  offset = fo_val h % 2 ^ 13;
}

has_bit-df : (df mf : Bool) (o : ℕ) → has_bit 14 (flag df 0x4000 + flag mf 0x2000 + o % 2 ^ 13) ≡ df
has_bit-df df mf o = ground arith

has_bit-mf : (df mf : Bool) (o : ℕ) → has_bit 13 (flag df 0x4000 + flag mf 0x2000 + o % 2 ^ 13) ≡ mf
has_bit-mf df mf o = ground arith

offset_lem :
    (df mf : Bool) (o : ℕ)
    → o < 2 ^ 13
    → (flag df 0x4000 + flag mf 0x2000 + o % 2 ^ 13) % 2 ^ 13 ≡ o
offset_lem df mf o h = ground arith

decoded_lem : (h : Ipv4Header) → IsIpv4 h → decoded h ≡ h
decoded_lem h v =
    let e1 : first_byte h / 16 ≡ h.ver = omega (arith, v.version, v.words) in
    let e2 : first_byte h % 16 ≡ h.hlen = omega (arith, v.version, v.words) in
    let e3 = has_bit-df h.df h.mf h.offset in
    let e4 = has_bit-mf h.df h.mf h.offset in
    let e5 = offset_lem h.df h.mf h.offset v.offset in
    λ i. record h { ver = e1 i; hlen = e2 i; df = e3 i; mf = e4 i; offset = e5 i }

bad_header : (ver hlen : ℕ) → ver ≡ 4 → hlen ≡ 5 → (not (ver == 4) || ltb hlen 5) ≡ false
bad_header ver hlen v w = ground arith

check_header-ok :
    (h : Ipv4Header) (p : Parser)
    → IsIpv4 h
    → compute_checksum h ≡ ok h
    → p.error ≡ false
    → p.input.size < 2 ^ 64
    → check_header h p ≡ ok (h, p)
unfolding check_header
check_header-ok h p v c e s =
    let good : (not (h.ver == 4) || ltb h.hlen 5) ≡ false =
      bad_header h.ver h.hlen v.version v.words in
    let skip : remove_prefix (h.hlen * 4 - header_length) p.input ≡ p.input =
      ap (λ n. remove_prefix n p.input) (omega (arith, v.words)) ∙ remove_prefix-zero p.input s in
    let verified : Parser → Outcome (Ipv4Header × Parser) = λ p1.
      let p2 = record p1 { input = remove_prefix (h.hlen * 4 - header_length) p1.input } in
      compute_checksum h >>= λ h'. ok (h', if h'.cksum == h.cksum then p2 else set_error p2) in
    let check : Bool → Outcome (Ipv4Header × Parser) = λ bad.
      let p1 = if bad then set_error p else p in if p1.error then ok (h, p1) else verified p1 in
    let p2 = record p { input = remove_prefix (h.hlen * 4 - header_length) p.input } in
    ap check good
    ∙ ap (λ b. if b then ok (h, p) else verified p) e
    ∙ ap (λ o. o >>= λ h'. ok (h', if h'.cksum == h.cksum then p2 else set_error p2)) c
    ∙ ap (λ b. ok (h, if b then p2 else set_error p2)) (test_self h.cksum)
    ∙ ap (λ i. ok (h, record p { input = i })) skip

pub parse_header-At :
    (h old : Ipv4Header) (p : Parser) (more : List (List ℕ))
    → IsIpv4 h
    → compute_checksum h ≡ ok h
    → total_size more < 2 ^ 64
    → At p (ip_bytes h) more
    → parse_header old p ≡ ok (h, parser_of more)
unfolding ip_bytes parse_header
parse_header-At h old p0 more v c small a0 =
    let P : Outcome (Ipv4Header × Parser) → Type 0 = λ o. o ≡ ok (h, parser_of more) in
    integer-then P 1 0 (first_byte h) p0 _ more _ one (omega (arith, v.version, v.words)) a0
      (λ p1 a1. integer-then P 1 old.tos h.tos p1 _ more _ one v.tos a1 (λ p2 a2.
        integer-then P 2 old.len h.len p2 _ more _ two v.len a2 (λ p3 a3.
          integer-then P 2 old.id h.id p3 _ more _ two v.id a3 (λ p4 a4.
            integer-then P 2 0 (fo_val h) p4 _ more _ two (fo_val-fits h) a4 (λ p5 a5.
              integer-then P 1 old.ttl h.ttl p5 _ more _ one v.ttl a5 (λ p6 a6.
                integer-then P 1 old.proto h.proto p6 _ more _ one v.proto a6 (λ p7 a7.
                  integer-then P 2 old.cksum h.cksum p7 _ more _ two v.cksum a7 (λ p8 a8.
                    integer-then P 4 old.src h.src p8 _ more _ four v.src a8 (λ p9 a9.
                      integer-then P 4 old.dst h.dst p9 _ more _ four v.dst a9 (λ p10 a10.
                        ap₂ check_header (decoded_lem h v) (At-nil p10 more a10)
                        ∙ check_header-ok h (parser_of more) v c refl small))))))))))

pub ip-buffer :
    (h : Ipv4Header)
    → h.ver ≡ 4
    → serialize_header h serializer ≡ ok (record { output = []; buffer = ip_bytes h })
unfolding serialize_header ip_bytes
ip-buffer h v =
    let is4 : (h.ver == 4) ≡ true = ground arith in
    rw is4 (ap (λ b. ok (record { output = []; buffer = b })) (simp (append_assoc, append-nil)))

pub length-ip_bytes : (h : Ipv4Header) → length (ip_bytes h) ≡ 20
unfolding ip_bytes
length-ip_bytes h = simp (length-append, length-bytes_of)

-- The last step of compute_checksum.
abbrev pub summed : Ipv4Header → Outcome Serializer → Outcome Ipv4Header
summed h o = o >>= λ s. ok (record h { cksum = value (add_all (output_of s) (checksum 0)) })

ok-injective {ℓ} : {A : Type ℓ} {x y : A} → ok x ≡ ok y → x ≡ y
ok-injective h = cc

summed_twice :
    (h h' : Ipv4Header) (o : Outcome Serializer)
    → serialize_header (record h { cksum = 0 }) serializer ≡ o
    → summed h o ≡ ok h'
    → compute_checksum h' ≡ ok h'
unfolding compute_checksum
summed_twice h h' (ok s) q e =
    subst (λ x. compute_checksum x ≡ ok x) (ok-injective e) (ap (summed h) q)
summed_twice h h' throws q e = cc
summed_twice h h' undefined q e = cc
summed_twice h h' stuck q e = cc

-- The checksum that compute_checksum sets is the one that it computes again.
pub compute_checksum-twice :
    (h : Ipv4Header) {h' : Ipv4Header} → compute_checksum h ≡ ok h' → compute_checksum h' ≡ ok h'
unfolding compute_checksum
compute_checksum-twice h {h'} e =
    summed_twice h h' (serialize_header (record h { cksum = 0 }) serializer) refl e

-- A datagram that is serialized and parsed has its header and the bytes of its payload again, if the
-- header has no options, fields that fit their widths and the right checksum, and there are less than
-- 2^64 bytes.
pub parse_datagram-serialize_datagram :
    (d old : InternetDatagram)
    → IsIpv4 d.header
    → compute_checksum d.header ≡ ok d.header
    → total_size d.payload + 20 < 2 ^ 64
    → (s : Serializer) × (g : InternetDatagram) × (p : Parser) × (serialize_datagram d serializer
        ≡ ok s)
      × (parse_datagram old (parser_of (output_of s)) ≡ ok (g, p))
      × (g.header ≡ d.header)
      × (concat g.payload ≡ concat d.payload)
      × (p.error ≡ false)
parse_datagram-serialize_datagram d old v c small =
    let b = ip_bytes d.header in
    let more = spaced d.payload in
    let len = length-ip_bytes d.header in
    let s0 : Serializer = record { output = []; buffer = b } in
    let size = total_size-spaced d.payload in
    let wire : output_of (put_buffers d.payload s0) ≡ b ∷ more = put_buffers_lem d.payload s0 in
    let parsed =
      parse_header-At d.header old.header (parser_of (b ∷ more)) more v c (omega (arith, size))
        (parser_of-At b more (omega arith) (omega (arith, size))) in
    (
      put_buffers d.payload s0,
      record { header = d.header; payload = all_remaining (parser_of more) },
      parser_of more,
      ap (λ o. o >>= λ s. ok (put_buffers d.payload s)) (ip-buffer d.header v.version),
      ap (λ l. parse_datagram old (parser_of l)) wire
          ∙ ap (λ o. o >>= λ r. ok (record { header = r.0; payload = all_remaining r.1 }, r.1))
              parsed,
      refl,
      concat-all_remaining more ∙ concat-spaced d.payload,
      refl,
    )
