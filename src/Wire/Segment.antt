-- ===== src/Wire/Segment.antt =====
-- util/tcp_segment.{hh,cc} and util/udinfo.hh.
use cs144_minnow.Base.{
  ℕ, ◌+◌, ◌-◌, ◌*◌, ◌/◌, ◌^◌, Bool, true, false, Option, some, none, ltb, ◌==◌, if◌then◌else◌, u32,
}
use cs144_minnow.Base.Outcome.{Outcome, ok, ◌>>=◌}
use cs144_minnow.Wrap.{Wrap32}
use cs144_minnow.Messages.{TcpSenderMessage, TcpReceiverMessage}
use cs144_minnow.Wire.Parser.{
  Parser, Serializer, serializer, integer, set_error, remove_prefix, all_remaining, concat,
  put_integer, put_buffer, output_of,
}
use cs144_minnow.Wire.Checksum.{checksum, add, add_all, value}
use cs144_minnow.Wire.Ipv4.{has_bit, flag}

pub record UserDatagramInfo : Type 0 where
  pub src_port : ℕ
  pub dst_port : ℕ
  pub cksum : ℕ

pub record TcpSegment : Type 0 where
  pub sender_message : TcpSenderMessage
  pub receiver_message : TcpReceiverMessage
  pub reset : Bool
  pub udinfo : UserDatagramInfo

abbrev pub header_min_len : ℕ
header_min_len = 5

abbrev pub raw_ackno : Option Wrap32 → ℕ
raw_ackno none = 0
raw_ackno (some a) = a.raw_value

abbrev pub has_ackno : Option Wrap32 → Bool
has_ackno none = false
has_ackno (some a) = true

abbrev pub flags_of : TcpSegment → ℕ
flags_of seg =
    flag (has_ackno seg.receiver_message.ackno) 16
    + flag seg.reset 4
    + flag seg.sender_message.syn 2
    + flag seg.sender_message.fin 1

unfoldable pub serialize : TcpSegment → Serializer → Serializer
serialize seg s = put_buffer seg.sender_message.payload (
    put_integer 2 0 (
      put_integer 2 seg.udinfo.cksum (
        put_integer 2 seg.receiver_message.window_size (
          put_integer 1 (flags_of seg) (
            put_integer 1 (header_min_len * 16) (
              put_integer 4 (raw_ackno seg.receiver_message.ackno) (
                put_integer 4 seg.sender_message.seqno.raw_value
                  (put_integer 2 seg.udinfo.dst_port (put_integer 2 seg.udinfo.src_port s)))))))))

unfoldable pub compute_checksum : ℕ → TcpSegment → TcpSegment
unfolding serialize
compute_checksum pseudo seg =
    let zeroed = record seg { udinfo = record seg.udinfo { cksum = 0 } } in
    let check = add_all (output_of (serialize zeroed serializer)) (checksum pseudo) in
    record seg { udinfo = record seg.udinfo { cksum = value check } }

-- The header's fields, after the checksum was found right; the parser's flag is kept.
unfoldable pub parse_fields : TcpSegment → Parser → Outcome (TcpSegment × Parser)
parse_fields seg p = do
  (src_port, p1) ← integer 2 seg.udinfo.src_port p
  (dst_port, p2) ← integer 2 seg.udinfo.dst_port p1
  (seqno, p3) ← integer 4 0 p2
  (ackno, p4) ← integer 4 seqno p3
  (offset_byte, p5) ← integer 1 0 p4
  (flags, p6) ← integer 1 offset_byte p5
  (window_size, p7) ← integer 2 seg.receiver_message.window_size p6
  (cksum, p8) ← integer 2 seg.udinfo.cksum p7
  (urgent, p9) ← integer 2 0 p8
  let data_offset = offset_byte / 16
  let p10 = if ltb data_offset header_min_len then set_error p9 else p9
  let skipped = u32 (data_offset * 4 + 2 ^ 32 - header_min_len * 4)
  let p11 = record p10 { input = remove_prefix skipped p10.input }
  ok (
    record {
      sender_message = record {
        seqno = record { raw_value = seqno };
        syn = has_bit 1 flags;
        payload = concat (all_remaining p11);
        fin = has_bit 0 flags;
      };
      receiver_message = record {
        ackno = if has_bit 4 flags then some (record { raw_value = ackno }) else none;
        window_size = window_size;
      };
      reset = has_bit 2 flags;
      udinfo = record { src_port = src_port; dst_port = dst_port; cksum = cksum };
    },
    p11,
  )

unfoldable pub parse : ℕ → TcpSegment → Parser → Outcome (TcpSegment × Parser)
unfolding parse_fields
parse pseudo seg p =
    if value (add (concat (all_remaining p)) (checksum pseudo)) == 0
    then parse_fields seg p
    else ok (seg, set_error p)
