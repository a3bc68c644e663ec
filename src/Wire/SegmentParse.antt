-- ===== src/Wire/SegmentParse.antt =====
-- TCPSegment::parse on the bytes of a segment with its checksum (util/tcp_segment.cc).
use cs144_minnow.Base.{
  ℕ, ◌+◌, ◌*◌, ◌^◌, ◌<◌, ◌≡◌, sym, ap, subst, ◌∙◌, true, false, none, some, List, [], ◌∷◌, ◌++◌,
  arith, ◌==◌, if◌then◌else◌, length, append_assoc, append-nil, length-append, All-append,
}
use cs144_minnow.Base.Outcome.{Outcome, ok}
use cs144_minnow.Wire.Parser.{
  Parser, parser_of, total_size, remove_prefix, bytes_of, set_error, all_remaining, concat,
}
use cs144_minnow.Wire.Fields.{
  At, parser_of-At, IsByte, one, two, four, integer-then, length-bytes_of,
}
use cs144_minnow.Wire.Payloads.{concat-all_remaining, length-concat}
use cs144_minnow.Wire.Remains.{remove_prefix-zero, At-error, At-size, At-concat}
use cs144_minnow.Wire.Checksum.{checksum, add, add_all, value}
use cs144_minnow.Wire.Sums.{add_all-concat, value_small}
use cs144_minnow.Wire.Ipv4.{has_bit}
use cs144_minnow.Wire.Segment.{
  TcpSegment, header_min_len, raw_ackno, has_ackno, flags_of, compute_checksum, parse_fields, parse,
}
use cs144_minnow.Wire.Segments.{
  IsSegment, front_bytes, segment_bytes, segment-buffers, length-segment_bytes, length-front_bytes,
  front_bytes-even, front_bytes-IsByte, flags_fits, ackno_lem, flag_lem, value-filled,
  bytes_of-IsByte,
}

-- The fields in the order in which they are read.
fields_in_order :
    (seg : TcpSegment) (xs : List ℕ)
    → segment_bytes seg ++ xs
      ≡ bytes_of 2 seg.udinfo.src_port
        ++ (bytes_of 2 seg.udinfo.dst_port
            ++ (bytes_of 4 seg.sender_message.seqno.raw_value
                ++ (bytes_of 4 (raw_ackno seg.receiver_message.ackno)
                    ++ (bytes_of 1 (header_min_len * 16)
                        ++ (bytes_of 1 (flags_of seg)
                            ++ (bytes_of 2 seg.receiver_message.window_size
                                ++ (bytes_of 2 seg.udinfo.cksum ++ (bytes_of 2 0 ++ xs))))))))
unfolding segment_bytes front_bytes
fields_in_order seg xs = simp append_assoc

-- The segment with another payload.
abbrev pub carrying : TcpSegment → List ℕ → TcpSegment
carrying seg payload = record seg {
  sender_message = record seg.sender_message { payload = payload };
}

-- What the parser makes of the fields of a segment.
abbrev decoded : TcpSegment → List ℕ → TcpSegment
decoded seg payload = record {
  sender_message = record {
    seqno = seg.sender_message.seqno;
    syn = has_bit 1 (flags_of seg);
    payload = payload;
    fin = has_bit 0 (flags_of seg);
  };
  receiver_message = record {
    ackno =
        if has_bit 4 (flags_of seg)
        then some (record { raw_value = raw_ackno seg.receiver_message.ackno })
        else none;
    window_size = seg.receiver_message.window_size;
  };
  reset = has_bit 2 (flags_of seg);
  udinfo = seg.udinfo;
}

decoded_lem : (seg : TcpSegment) (payload : List ℕ) → decoded seg payload ≡ carrying seg payload
decoded_lem seg payload =
    let a =
      ackno_lem seg.reset seg.sender_message.syn seg.sender_message.fin
        seg.receiver_message.ackno in
    let (r, syn, fin) =
      flag_lem (has_ackno seg.receiver_message.ackno) seg.reset seg.sender_message.syn
        seg.sender_message.fin in
    λ i. record {
      sender_message = record {
        seqno = seg.sender_message.seqno;
        syn = syn i;
        payload = payload;
        fin = fin i;
      };
      receiver_message = record { ackno = a i; window_size = seg.receiver_message.window_size };
      reset = r i;
      udinfo = seg.udinfo;
    }

parse_fields-At :
    (seg old : TcpSegment) (p0 : Parser) (xs : List ℕ) (more : List (List ℕ))
    → IsSegment seg
    → seg.udinfo.cksum < 2 ^ 16
    → At p0 (segment_bytes seg ++ xs) more
    → (p : Parser) × (parse_fields old p0 ≡ ok (carrying seg (xs ++ concat more), p))
      × (p.error ≡ false)
unfolding parse_fields
parse_fields-At seg old p0 xs more v ck at =
    let P : Outcome (TcpSegment × Parser) → Type 0 =
      λ o. (p : Parser) × (o ≡ ok (carrying seg (xs ++ concat more), p)) × (p.error ≡ false) in
    integer-then P 2 old.udinfo.src_port seg.udinfo.src_port p0 _ more _ two v.src_port
      (subst (λ l. At p0 l more) (fields_in_order seg xs) at)
      (λ p1 a1.
        integer-then P 2 old.udinfo.dst_port seg.udinfo.dst_port p1 _ more _ two v.dst_port a1
          (λ p2 a2.
            integer-then P 4 0 seg.sender_message.seqno.raw_value p2 _ more _ four v.seqno a2
              (λ p3 a3.
                integer-then P 4 seg.sender_message.seqno.raw_value
                  (raw_ackno seg.receiver_message.ackno) p3 _ more _ four v.ackno a3
                  (λ p4 a4.
                    integer-then P 1 0 (header_min_len * 16) p4 _ more _ one (omega arith) a4
                      (λ p5 a5.
                        integer-then P 1 (header_min_len * 16) (flags_of seg) p5 _ more _ one
                          (flags_fits seg) a5
                          (λ p6 a6.
                            integer-then P 2 old.receiver_message.window_size
                              seg.receiver_message.window_size p6 _ more _ two v.window a6
                              (λ p7 a7.
                                integer-then P 2 old.udinfo.cksum seg.udinfo.cksum p7 _ more _ two
                                  ck a7
                                  (λ p8 a8.
                                    integer-then P 2 0 0 p8 _ more _ two (omega arith) a8 (λ p9 a9.
                                      let end : record p9 { input = remove_prefix 0 p9.input }
                                          ≡ p9 =
                                        ap (λ i. record p9 { input = i })
                                          (remove_prefix-zero p9.input (At-size p9 xs more a9)) in
                                      (
                                        p9,
                                        ap (λ q. ok (decoded seg (concat (all_remaining q)), q)) end
                                            ∙ ap (λ s. ok (s, p9))
                                                (decoded_lem seg (concat (all_remaining p9)))
                                            ∙ ap (λ l. ok (carrying seg l, p9))
                                                (At-concat p9 xs more a9),
                                        At-error p9 xs more a9,
                                      ))))))))))

module _ (pseudo : ℕ) (seg : TcpSegment) where
  abbrev body : List ℕ
  body = bytes_of 2 0 ++ seg.sender_message.payload

  with_cksum : ℕ → TcpSegment
  with_cksum c = record seg { udinfo = record seg.udinfo { cksum = c } }

  -- All bytes of the segment with a checksum in it, its payload cut into a rest of the header's
  -- buffer and more buffers.
  all_bytes :
      (c : ℕ) (xs : List ℕ) (more : List (List ℕ))
      → xs ++ concat more ≡ seg.sender_message.payload
      → concat ((segment_bytes (with_cksum c) ++ xs) ∷ more)
        ≡ front_bytes seg ++ (bytes_of 2 c ++ body)
  unfolding segment_bytes front_bytes with_cksum
  all_bytes c xs more e =
      append_assoc (segment_bytes (with_cksum c)) xs (concat more)
      ∙ ap (λ l. segment_bytes (with_cksum c) ++ l) e
      ∙ simp (append_assoc, append-nil)

  -- The checksum that compute_checksum sets.
  cksum_lem :
      (compute_checksum pseudo seg).udinfo.cksum
      ≡ value (add (front_bytes seg ++ (bytes_of 2 0 ++ body)) (checksum pseudo))
  unfolding compute_checksum with_cksum
  cksum_lem =
      let payload = seg.sender_message.payload in
      let hdr = segment_bytes (with_cksum 0) in
      ap (λ l. value (add_all l (checksum pseudo))) (segment-buffers (with_cksum 0))
      ∙ ap value (add_all-concat (hdr ∷ payload ∷ [] ∷ []) (checksum pseudo))
      ∙ ap (λ l. value (add (l ++ (payload ++ [])) (checksum pseudo))) (sym (append-nil hdr))
      ∙ ap (λ l. value (add l (checksum pseudo)))
          (all_bytes 0 [] (payload ∷ [] ∷ []) (append-nil payload))

  cksum_fits : (compute_checksum pseudo seg).udinfo.cksum < 2 ^ 16
  cksum_fits =
      subst (λ c. c < 2 ^ 16) (sym cksum_lem)
        (value_small (add (front_bytes seg ++ (bytes_of 2 0 ++ body)) (checksum pseudo)))

  complete :
      (xs : List ℕ) (more : List (List ℕ))
      → IsSegment seg
      → xs ++ concat more ≡ seg.sender_message.payload
      → pseudo + 65280 * length seg.sender_message.payload + 1306110 < 2 ^ 32
      → value (
          add
            (concat ((segment_bytes (compute_checksum pseudo seg) ++ xs) ∷ more))
            (checksum pseudo))
        ≡ 0
  unfolding compute_checksum with_cksum
  complete xs more v e w =
      let front = front_bytes seg in
      let sum = λ (l : List ℕ). value (add l (checksum pseudo)) in
      ap sum (all_bytes (compute_checksum pseudo seg).udinfo.cksum xs more e)
      ∙ ap (λ n. sum (front ++ (bytes_of 2 n ++ body))) cksum_lem
      ∙ value-filled front body pseudo (front_bytes-even seg pseudo) (front_bytes-IsByte seg)
          (All-append IsByte (bytes_of 2 0) seg.sender_message.payload (bytes_of-IsByte 2 0)
            v.payload)
          (omega (
            arith,
            length-front_bytes seg,
            length-append (bytes_of 2 0) seg.sender_message.payload,
            length-bytes_of 2 0,
          ))

  -- The bytes of a segment with its checksum are parsed as that segment, without an error, however its
  -- payload is cut: into a rest of the header's buffer and more buffers. Its fields fit their widths,
  -- its payload consists of bytes, and the sums stay below 2^32.
  pub parse-segment_bytes :
      (old : TcpSegment) (xs : List ℕ) (more : List (List ℕ))
      → IsSegment seg
      → xs ++ concat more ≡ seg.sender_message.payload
      → pseudo + 65280 * length seg.sender_message.payload + 1306110 < 2 ^ 32
      → (p : Parser) × (parse pseudo old
            (parser_of ((segment_bytes (compute_checksum pseudo seg) ++ xs) ∷ more))
          ≡ ok (compute_checksum pseudo seg, p))
        × (p.error ≡ false)
  unfolding parse compute_checksum
  parse-segment_bytes old xs more v e w =
      let sealed = compute_checksum pseudo seg in
      let b = segment_bytes sealed ++ xs in
      let p = parser_of (b ∷ more) in
      let len = length-append (segment_bytes sealed) xs in
      let twenty = length-segment_bytes sealed in
      let size : length xs + total_size more ≡ length seg.sender_message.payload =
        omega (arith, length-concat more, length-append xs (concat more), ap length e) in
      let good : (value (add (concat (all_remaining p)) (checksum pseudo)) == 0) ≡ true =
        ap (λ l. value (add l (checksum pseudo)) == 0) (concat-all_remaining (b ∷ more))
        ∙ ap (λ n. n == 0) (complete xs more v e w) in
      let fits : IsSegment sealed = record {
        seqno = v.seqno;
        payload = v.payload;
        ackno = v.ackno;
        window = v.window;
        src_port = v.src_port;
        dst_port = v.dst_port;
      } in
      let (q, read, fine) =
        parse_fields-At sealed old p xs more fits cksum_fits
          (parser_of-At b more (omega (arith, len, twenty)) (omega (arith, len, twenty, size))) in
      (
        q,
        ap (λ c. if c then parse_fields old p else ok (old, set_error p)) good
            ∙ read
            ∙ ap (λ l. ok (carrying sealed l, q)) e,
        fine,
      )
