-- ===== src/Wire/Segments.antt =====
-- TCPSegment::parse after compute_checksum and serialize (util/tcp_segment.cc).
use cs144_minnow.Base.{
  ℕ, zero, suc, ◌+◌, ◌*◌, ◌^◌, ◌<◌, ◌≡◌, refl, ap, ◌∙◌, Bool, false, Option, none, some, List, [],
  ◌∷◌, ◌++◌, arith, if◌then◌else◌, length, append_assoc, append-nil, length-append, All, IsU32,
}
use cs144_minnow.Wrap.{Wrap32}
use cs144_minnow.Wire.Parser.{bytes_of, serializer, output_of}
use cs144_minnow.Wire.Fields.{IsByte, length-bytes_of}
use cs144_minnow.Wire.Checksum.{InternetChecksum, checksum, add, value}
use cs144_minnow.Wire.Sums.{add-append, sum_at, add-Shifts, value_complete, value_small}
use cs144_minnow.Wire.Ipv4.{has_bit, flag}
use cs144_minnow.Wire.Segment.{
  TcpSegment, header_min_len, raw_ackno, has_ackno, flags_of, serialize,
}

pub bytes_of-IsByte : (width v : ℕ) → All IsByte (bytes_of width v)
unfolding bytes_of
bytes_of-IsByte zero v = tt
bytes_of-IsByte (suc n) v = (omega arith, bytes_of-IsByte n v)

module _ (front rest : List ℕ) (pseudo : ℕ) where
  abbrev pub before : InternetChecksum
  before = add front (checksum pseudo)

  -- Two bytes in the middle, at an even place, add what they say.
  add-middle :
      (v : ℕ)
      → v < 2 ^ 16
      → before.parity ≡ false
      → before.sum + v < 2 ^ 32
      → add (front ++ (bytes_of 2 v ++ rest)) (checksum pseudo)
        ≡ add rest (sum_at (before.sum + v) false)
  unfolding add bytes_of
  add-middle v small even w =
      add-append front (bytes_of 2 v ++ rest) (checksum pseudo)
      ∙ ap (λ p. add (bytes_of 2 v ++ rest) (sum_at before.sum p)) even
      ∙ ap (λ z. add rest (sum_at z false)) (omega arith)

  -- The checksum computed over zeros in its place makes the sum complete.
  pub value-filled :
      before.parity ≡ false
      → All IsByte front
      → All IsByte rest
      → pseudo + 65280 * length front + 65535 + 65280 * length rest + 65535 < 2 ^ 32
      → value (
          add
            (front
              ++ (bytes_of 2 (value (add (front ++ (bytes_of 2 0 ++ rest)) (checksum pseudo)))
                  ++ rest))
            (checksum pseudo))
        ≡ 0
  value-filled even hf hr w =
      let bound = (add-Shifts front pseudo 0 false hf (omega arith)).1 in
      let zeroed = add (front ++ (bytes_of 2 0 ++ rest)) (checksum pseudo) in
      let total = add rest (sum_at before.sum false) in
      let v = value total in
      let small = value_small total in
      let filled = add rest (sum_at (before.sum + v) false) in
      let (shift, most) = add-Shifts rest before.sum v false hr (omega (arith, bound, small)) in
      let zero : zeroed ≡ total =
        add-middle 0 (omega arith) even (omega (arith, bound))
        ∙ ap (λ z. add rest (sum_at z false)) (omega arith) in
      ap (λ c. value (add (front ++ (bytes_of 2 (value c) ++ rest)) (checksum pseudo))) zero
      ∙ ap value (add-middle v small even (omega (arith, bound, small)))
      ∙ ap (λ z. value (sum_at z filled.parity)) shift
      ∙ value_complete total.sum total.parity filled.parity (omega (arith, bound, most))

-- Fields that fit their widths; the ports and the checksum are set when it is sent.
pub record IsSegment (seg : TcpSegment) : Type 0 where
  pub seqno : IsU32 seg.sender_message.seqno.raw_value
  pub payload : All IsByte seg.sender_message.payload
  pub ackno : IsU32 (raw_ackno seg.receiver_message.ackno)
  pub window : seg.receiver_message.window_size < 2 ^ 16
  pub src_port : seg.udinfo.src_port < 2 ^ 16
  pub dst_port : seg.udinfo.dst_port < 2 ^ 16

-- The header in front of the checksum.
unfoldable pub front_bytes : TcpSegment → List ℕ
front_bytes seg =
    bytes_of 2 seg.udinfo.src_port
    ++ (bytes_of 2 seg.udinfo.dst_port
        ++ (bytes_of 4 seg.sender_message.seqno.raw_value
            ++ (bytes_of 4 (raw_ackno seg.receiver_message.ackno)
                ++ (bytes_of 1 (header_min_len * 16)
                    ++ (bytes_of 1 (flags_of seg)
                        ++ bytes_of 2 seg.receiver_message.window_size)))))

unfoldable pub segment_bytes : TcpSegment → List ℕ
unfolding front_bytes
segment_bytes seg = front_bytes seg ++ (bytes_of 2 seg.udinfo.cksum ++ (bytes_of 2 0 ++ []))

pub segment-buffers :
    (seg : TcpSegment)
    → output_of (serialize seg serializer)
      ≡ segment_bytes seg ∷ seg.sender_message.payload ∷ [] ∷ []
unfolding serialize segment_bytes front_bytes
segment-buffers seg =
    ap (λ b. b ∷ seg.sender_message.payload ∷ [] ∷ []) (simp (append_assoc, append-nil))

pub length-segment_bytes : (seg : TcpSegment) → length (segment_bytes seg) ≡ 20
unfolding segment_bytes front_bytes
length-segment_bytes seg = simp (length-append, length-bytes_of)

pub length-front_bytes : (seg : TcpSegment) → length (front_bytes seg) ≡ 16
unfolding front_bytes
length-front_bytes seg = simp (length-append, length-bytes_of)

pub front_bytes-even :
    (seg : TcpSegment) (pseudo : ℕ) → (add (front_bytes seg) (checksum pseudo)).parity ≡ false
unfolding front_bytes bytes_of add
front_bytes-even seg pseudo = refl

pub front_bytes-IsByte : (seg : TcpSegment) → All IsByte (front_bytes seg)
unfolding front_bytes bytes_of
front_bytes-IsByte seg = omega arith

pub flags_fits : (seg : TcpSegment) → flags_of seg < 2 ^ 8
flags_fits seg = ground arith

-- What the parser makes of the flags and the acknowledgment number.
pub ackno_lem :
    (r : Bool) (syn fin : Bool) (a : Option Wrap32)
    → (if has_bit 4 (flag (has_ackno a) 16 + flag r 4 + flag syn 2 + flag fin 1)
        then some (record { raw_value = raw_ackno a })
        else none)
      ≡ a
ackno_lem r syn fin none = ground arith
ackno_lem r syn fin (some a) = ground arith

pub flag_lem :
    (a r syn fin : Bool)
    → (has_bit 2 (flag a 16 + flag r 4 + flag syn 2 + flag fin 1) ≡ r)
      × (has_bit 1 (flag a 16 + flag r 4 + flag syn 2 + flag fin 1) ≡ syn)
      × (has_bit 0 (flag a 16 + flag r 4 + flag syn 2 + flag fin 1) ≡ fin)
flag_lem a r syn fin = ground arith
