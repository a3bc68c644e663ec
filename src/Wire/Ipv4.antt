-- ===== src/Wire/Ipv4.antt =====
-- util/ipv4_header.{hh,cc} and util/ipv4_datagram.hh.
use cs144_minnow.Base.{
  ℕ, ◌+◌, ◌-◌, ◌*◌, ◌/◌, ◌%◌, ◌^◌, Bool, true, false, not, ◌||◌, List, ltb, ◌==◌, if◌then◌else◌, u8,
  u16, u32,
}
use cs144_minnow.Base.Outcome.{Outcome, ok, throws, ◌>>=◌}
use cs144_minnow.Wire.Parser.{
  Parser, Serializer, serializer, integer, set_error, remove_prefix, all_remaining, put_integer,
  put_buffers, output_of,
}
use cs144_minnow.Wire.Checksum.{checksum, add_all, value}

abbrev pub header_length : ℕ
header_length = 20

abbrev pub proto_tcp : ℕ
proto_tcp = 6

pub record Ipv4Header : Type 0 where
  pub ver : ℕ
  pub hlen : ℕ
  pub tos : ℕ
  pub len : ℕ
  pub id : ℕ
  pub df : Bool
  pub mf : Bool
  pub offset : ℕ
  pub ttl : ℕ
  pub proto : ℕ
  pub cksum : ℕ
  pub src : ℕ
  pub dst : ℕ

-- The members' initialisers.
abbrev pub ipv4_header : Ipv4Header
ipv4_header = record {
  ver = 4;
  hlen = 5;
  tos = 0;
  len = 0;
  id = 0;
  df = true;
  mf = false;
  offset = 0;
  ttl = 128;
  proto = proto_tcp;
  cksum = 0;
  src = 0;
  dst = 0;
}

-- x & (1 << k), as a bool.
abbrev pub has_bit : ℕ → ℕ → Bool
has_bit k x = x / 2 ^ k % 2 == 1

abbrev pub flag : Bool → ℕ → ℕ
flag b n = if b then n else 0

unfoldable pub serialize_header : Ipv4Header → Serializer → Outcome Serializer
serialize_header h s =
    let first_byte = u8 (h.ver * 16) + h.hlen % 16 in
    let fo_val = flag h.df 0x4000 + flag h.mf 0x2000 + h.offset % 2 ^ 13 in
    if h.ver == 4
    then ok (
        put_integer 4 h.dst (
          put_integer 4 h.src (
            put_integer 2 h.cksum (
              put_integer 1 h.proto (
                put_integer 1 h.ttl (
                  put_integer 2 fo_val (
                    put_integer 2 h.id (
                      put_integer 2 h.len (put_integer 1 h.tos (put_integer 1 first_byte s))))))))))
    else throws

unfoldable pub compute_checksum : Ipv4Header → Outcome Ipv4Header
compute_checksum h = serialize_header (record h { cksum = 0 }) serializer >>= λ s.
    ok (record h { cksum = value (add_all (output_of s) (checksum 0)) })

-- From the check of version and length on.
unfoldable pub check_header : Ipv4Header → Parser → Outcome (Ipv4Header × Parser)
unfolding compute_checksum
check_header h p =
    let bad = not (h.ver == 4) || ltb h.hlen 5 in
    let p1 = if bad then set_error p else p in
    let p2 = record p1 { input = remove_prefix (h.hlen * 4 - header_length) p1.input } in
    let verified =
      compute_checksum h >>= λ h'. ok (h', if h'.cksum == h.cksum then p2 else set_error p2) in
    if p1.error then ok (h, p1) else verified

unfoldable pub parse_header : Ipv4Header → Parser → Outcome (Ipv4Header × Parser)
parse_header h p = do
  (first_byte, p1) ← integer 1 0 p
  (tos, p2) ← integer 1 h.tos p1
  (len, p3) ← integer 2 h.len p2
  (id, p4) ← integer 2 h.id p3
  (fo_val, p5) ← integer 2 0 p4
  (ttl, p6) ← integer 1 h.ttl p5
  (proto, p7) ← integer 1 h.proto p6
  (cksum, p8) ← integer 2 h.cksum p7
  (src, p9) ← integer 4 h.src p8
  (dst, p10) ← integer 4 h.dst p9
  check_header
      (record {
        ver = first_byte / 16;
        hlen = first_byte % 16;
        tos = tos;
        len = len;
        id = id;
        df = has_bit 14 fo_val;
        mf = has_bit 13 fo_val;
        offset = fo_val % 2 ^ 13;
        ttl = ttl;
        proto = proto;
        cksum = cksum;
        src = src;
        dst = dst;
      })
      p10

abbrev pub payload_length : Ipv4Header → ℕ
payload_length h = (h.len + 2 ^ 16 - 4 * h.hlen) % 2 ^ 16

abbrev pub pseudo_checksum : Ipv4Header → ℕ
pseudo_checksum h =
    u32 (h.src / 2 ^ 16 + u16 h.src + (h.dst / 2 ^ 16 + u16 h.dst) + h.proto + payload_length h)

pub record InternetDatagram : Type 0 where
  pub header : Ipv4Header
  pub payload : List (List ℕ)

abbrev pub parse_datagram : InternetDatagram → Parser → Outcome (InternetDatagram × Parser)
parse_datagram d p = do
  (header, p1) ← parse_header d.header p
  ok (record { header = header; payload = all_remaining p1 }, p1)

abbrev pub serialize_datagram : InternetDatagram → Serializer → Outcome Serializer
serialize_datagram d s = serialize_header d.header s >>= λ s'. ok (put_buffers d.payload s')
