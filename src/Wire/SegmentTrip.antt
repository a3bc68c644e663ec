-- ===== src/Wire/SegmentTrip.antt =====
-- TCPSegment::parse on what TCPSegment::serialize writes (util/tcp_segment.cc).
use cs144_minnow.Base.{
  ℕ, ◌+◌, ◌*◌, ◌^◌, ◌≤◌, ◌<◌, ◌≡◌, refl, ap, ◌∙◌, false, List, [], ◌∷◌, ◌++◌, arith, length,
  append-nil,
}
use cs144_minnow.Base.Outcome.{ok}
use cs144_minnow.Wire.Parser.{Parser, parser_of, concat, serializer, output_of}
use cs144_minnow.Wire.Segment.{TcpSegment, compute_checksum, serialize, parse}
use cs144_minnow.Wire.Segments.{IsSegment, segment_bytes, segment-buffers, length-segment_bytes}
use cs144_minnow.Wire.SegmentParse.{parse-segment_bytes}

-- A buffer that is long enough begins with the front of all bytes.
cut_behind :
    (front b rest payload : List ℕ)
    → length front ≤ length b
    → b ++ rest ≡ front ++ payload
    → (xs : List ℕ) × (b ≡ front ++ xs) × (xs ++ rest ≡ payload)
cut_behind [] b rest payload le e = (b, refl, e)
cut_behind (f ∷ front) [] rest payload le e = absurd (omega arith)
cut_behind (f ∷ front) (x ∷ b) rest payload le e =
    let (xs, same, behind) = cut_behind front b rest payload (omega arith) (cc) in (xs, cc, behind)

-- What serialize writes for a segment whose checksum compute_checksum has set, parse reads as that
-- segment, without an error, however these bytes are cut into buffers behind the first 20 of them,
-- which stand in the first buffer. Its fields fit their widths, its payload consists of bytes, and the
-- sums stay below 2^32.
pub parse-compute_checksum :
    (pseudo : ℕ) (seg old : TcpSegment) (b : List ℕ) (more : List (List ℕ))
    → IsSegment seg
    → concat (b ∷ more) ≡ concat (output_of (serialize (compute_checksum pseudo seg) serializer))
    → 20 ≤ length b
    → pseudo + 65280 * length seg.sender_message.payload + 1306110 < 2 ^ 32
    → (p : Parser) × (parse pseudo old (parser_of (b ∷ more)) ≡ ok (compute_checksum pseudo seg, p))
      × (p.error ≡ false)
unfolding compute_checksum
parse-compute_checksum pseudo seg old b more v e le w =
    let sealed = compute_checksum pseudo seg in
    let bytes : b ++ concat more ≡ segment_bytes sealed ++ seg.sender_message.payload =
      e
      ∙ ap concat (segment-buffers sealed)
      ∙ ap (λ l. segment_bytes sealed ++ l) (append-nil seg.sender_message.payload) in
    let (xs, same, behind) =
      cut_behind (segment_bytes sealed) b (concat more) seg.sender_message.payload
        (omega (arith, length-segment_bytes sealed)) bytes in
    rw same (parse-segment_bytes pseudo seg old xs more v behind w)
