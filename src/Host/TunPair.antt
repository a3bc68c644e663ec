-- ===== src/Host/TunPair.antt =====
-- A segment on its way from one TUN adapter to another (util/tuntap_adapter.cc).
use cs144_minnow.Base.{
  ℕ, ◌+◌, ◌≤◌, ◌<◌, ◌≡◌, refl, sym, ap, ap₂, subst, ◌∙◌, Bool, false, Option, none, some, List, [],
  ◌∷◌, ◌++◌, arith, ltb, ◌==◌, if◌then◌else◌, length, take, drop, take_all, drop_all, drop-append,
  append-nil, length-append, length-drop, IsU32,
}
use native.Mathlib.Decide.{dec_lt}
use cs144_minnow.Base.Outcome.{ok, throws, ◌>>=◌}
use cs144_minnow.Wire.Parser.{
  Parser, parser_of, serializer, Serializer, output_of, concat, put_buffers, all_remaining,
}
use cs144_minnow.Wire.Fields.{parser_of-At}
use cs144_minnow.Wire.Payloads.{put_buffers_lem, concat-spaced}
use cs144_minnow.Wire.Ipv4.{
  header_length, InternetDatagram, Ipv4Header, proto_tcp, pseudo_checksum, parse_datagram,
  serialize_datagram,
}
use cs144_minnow.Wire.Datagrams.{
  IsIpv4, ip_bytes, length-ip_bytes, ip-buffer, parse_header-At, compute_checksum-twice,
}
use cs144_minnow.Wire.Checksum.{add_all, checksum}
use cs144_minnow.Wire.Sums.{value_small}
use cs144_minnow.Wire.Segment.{TcpSegment}
use cs144_minnow.Wire.Segments.{IsSegment, segment_bytes, length-segment_bytes}
use cs144_minnow.Wire.SegmentParse.{parse-segment_bytes}
use cs144_minnow.Wire.Adapter.{FdAdapterBase, tcp_segment, unwrap_tcp_in_ip}
use cs144_minnow.Wire.Tunnel.{
  Mirrors, ported, outer, sent, sealed, sealed_lem, wrap_lem, other_lem, unwrap-other, pseudo_small,
}
use cs144_minnow.Net.Interface.{no_datagram}
use cs144_minnow.Host.Descriptor.{
  Read, read_buffer_size, System, FdWrapper, got, register_read, zeros, scatter, cut, sizes,
  ready_last, readv_result, readv,
}
use cs144_minnow.Host.Scatter.{cut_short, cut_whole, take-append}
use cs144_minnow.Host.Logs.{length-zeros}
use cs144_minnow.Host.Tun.{TunAdapter, unwrap_read, read, datagram_bytes}

cut_last :
    (ys c : List ℕ)
    → length ys ≤ length c
    → cut (length ys) ((ys ++ drop (length ys) c) ∷ []) ≡ ys ∷ []
unfolding cut
cut_last ys c h =
    let last = ys ++ drop (length ys) c in
    let size = length-append ys (drop (length ys) c) in
    let left = length-drop (length ys) c in
    elim (dec_lt (length ys) (length c)) [
      | yes k ↦
          cut_short (length ys) last [] (omega (arith, size, left))
          ∙ ap (λ l. l ∷ []) (take-append ys (drop (length ys) c))
      | no k ↦
          cut_whole (length ys) last [] (omega (arith, size, left))
          ∙ ap (λ l. l ∷ [])
              (ap (λ l. ys ++ l) (drop_all (length ys) c (omega arith)) ∙ append-nil ys)
    ]

-- Two buffers, of which the bytes fill the first.
cut-scatter :
    (xs ys b c : List ℕ)
    → length xs ≡ length b
    → length ys ≤ length c
    → cut (length (xs ++ ys)) (scatter (xs ++ ys) (b ∷ c ∷ [])) ≡ xs ∷ ys ∷ []
unfolding scatter
cut-scatter xs ys b c e h =
    let all = xs ++ ys in
    let n = length all in
    let size = length-append xs ys in
    let last = ys ++ drop (length ys) c in
    let first : take (length b) all ++ drop n b ≡ xs =
      ap₂ (λ l r. l ++ r) (ap (λ k. take k all) (sym e) ∙ take-append xs ys)
        (drop_all n b (omega (arith, size, e)))
      ∙ append-nil xs in
    let left : drop (length b) all ≡ ys = ap (λ k. drop k all) (sym e) ∙ drop-append xs ys in
    ap
      (λ l.
        cut n (
          l
          ∷ (take (length c) (drop (length b) all) ++ drop (length (drop (length b) all)) c)
          ∷ []))
      first
    ∙ ap (λ l. cut n (xs ∷ (take (length c) l ++ drop (length l) c) ∷ [])) left
    ∙ ap (λ l. cut n (xs ∷ (l ++ drop (length ys) c) ∷ [])) (take_all (length c) ys h)
    ∙ cut_whole n xs (last ∷ []) (omega (arith, size))
    ∙ ap (λ m. xs ∷ cut m (last ∷ [])) (omega (arith, size))
    ∙ ap (λ l. xs ∷ l) (cut_last ys c h)

test_positive : (n : ℕ) → 0 < n → (n == 0) ≡ false
test_positive n h = ground arith

readv-two :
    {E : Type 0} (sys : System E) (d : FdWrapper) (e e' : E) (xs ys : List ℕ)
    → length xs ≡ 20
    → length ys ≤ 16384
    → sys.read d.fd 16404 e ≡ (got (xs ++ ys), e')
    → readv sys (zeros header_length ∷ [] ∷ []) d e ≡ ok (xs ∷ ys ∷ [], register_read d, e')
unfolding readv readv_result ready_last
readv-two {E} sys d e e' xs ys hx hy call =
    let n20 = length-zeros header_length in
    let n = length-zeros read_buffer_size in
    let ready = ready_last (zeros header_length ∷ [] ∷ []) in
    let total : sizes ready ≡ 16404 = omega (arith, n20, n) in
    let call' : sys.read d.fd (sizes ready) e ≡ (got (xs ++ ys), e') =
      ap (λ z. sys.read d.fd z e) total ∙ call in
    let enough : ltb (sizes ready) (length (xs ++ ys)) ≡ false =
      ground (arith, total, length-append xs ys) in
    ap
      (λ (r : Read × E).
        readv_result ready r.0 d >>= λ (t : List (List ℕ) × FdWrapper). ok (t.0, t.1, r.1))
      call'
    ∙ ap
        (λ (b : Bool).
          (if b
            then throws
            else ok (cut (length (xs ++ ys)) (scatter (xs ++ ys) ready), register_read d))
          >>= λ (t : List (List ℕ) × FdWrapper). ok (t.0, t.1, e'))
        enough
    ∙ ap (λ l. ok (l, register_read d, e'))
        (cut-scatter xs ys (zeros header_length) (zeros read_buffer_size) (omega (arith, n20, hx))
          (omega (arith, n, hy)))

module _ (seg : TcpSegment) (a : FdAdapterBase) where
  abbrev rest : List ℕ
  rest = segment_bytes (sent seg a) ++ seg.sender_message.payload

  length_rest : length rest ≡ 20 + length seg.sender_message.payload
  length_rest = omega (
    arith,
    length-append (segment_bytes (sent seg a)) seg.sender_message.payload,
    length-segment_bytes (sent seg a),
  )

  -- The bytes of the datagram that carries the segment.
  unfoldable pub wire : List ℕ
  wire = ip_bytes (sealed seg a) ++ rest

  datagram_bytes_lem : datagram_bytes seg a ≡ ok (wire, sent seg a)
  unfolding datagram_bytes wire cs144_minnow.Wire.Ipv4.serialize_header
  datagram_bytes_lem =
      let payload = segment_bytes (sent seg a) ∷ seg.sender_message.payload ∷ [] ∷ [] in
      let d : InternetDatagram = record { header = sealed seg a; payload = payload } in
      let s0 : Serializer = record { output = []; buffer = ip_bytes (sealed seg a) } in
      let bytes : concat (output_of (put_buffers payload s0)) ≡ wire =
        ap concat (put_buffers_lem payload s0)
        ∙ ap (λ l. ip_bytes (sealed seg a) ++ l) (concat-spaced payload)
        ∙ ap (λ l. ip_bytes (sealed seg a) ++ (segment_bytes (sent seg a) ++ l))
            (append-nil seg.sender_message.payload) in
      ap
        (λ o. o >>= λ (w : InternetDatagram × TcpSegment).
          serialize_datagram w.0 serializer >>= λ s. ok (concat (output_of s), w.1))
        (wrap_lem seg a)
      ∙ ap
          (λ o.
            o >>= λ (s : Serializer). ok (concat (output_of (put_buffers payload s)), sent seg a))
          (ip-buffer (sealed seg a) refl)
      ∙ ap (λ l. ok (l, sent seg a)) bytes

  sealed-IsIpv4 :
      IsU32 a.config.source.ipv4_numeric
      → IsU32 a.config.destination.ipv4_numeric
      → IsIpv4 (sealed seg a)
  sealed-IsIpv4 hs hd = record {
    version = refl;
    words = refl;
    tos = omega arith;
    len = omega arith;
    id = omega arith;
    offset = omega arith;
    ttl = omega arith;
    proto = omega arith;
    cksum = value_small (add_all (ip_bytes (record (outer seg a) { cksum = 0 }) ∷ []) (checksum 0));
    src = hs;
    dst = hd;
  }

  unwrap_read-wire :
      (b : FdAdapterBase)
      → Mirrors a b
      → IsSegment (ported seg a)
      → IsU32 a.config.source.ipv4_numeric
      → IsU32 a.config.destination.ipv4_numeric
      → length seg.sender_message.payload ≤ 16364
      → unwrap_read (ip_bytes (sealed seg a) ∷ rest ∷ []) b ≡ ok (some (sent seg a), b)
  unfolding unwrap_read
  unwrap_read-wire b m v hs hd small =
      let header = ip_bytes (sealed seg a) in
      let len = length-ip_bytes (sealed seg a) in
      let size = length_rest in
      let p = parser_of (header ∷ rest ∷ []) in
      let d : List (List ℕ) → InternetDatagram =
        λ l. record { header = sealed seg a; payload = l } in
      let parsed =
        parse_header-At (sealed seg a) no_datagram.header p (rest ∷ []) (sealed-IsIpv4 hs hd)
          (compute_checksum-twice (outer seg a) (sealed_lem seg a)) (omega (arith, size, small))
          (parser_of-At header (rest ∷ []) (omega (arith, len))
            (omega (arith, len, size, small))) in
      let remaining : all_remaining (parser_of (rest ∷ [])) ≡ rest ∷ [] =
        ap (λ z. if z then [] else rest ∷ [])
          (test_positive (length rest + 0) (omega (arith, size))) in
      let (q, read_back, fine) =
        parse-segment_bytes (pseudo_checksum (outer seg a)) (ported seg a) tcp_segment
          seg.sender_message.payload [] v (append-nil seg.sender_message.payload)
          (omega (arith, pseudo_small seg a hs hd, small)) in
      ap
        (λ o.
          (o >>= λ (x : Ipv4Header × Parser).
          ok (record { header = x.0; payload = all_remaining x.1 }, x.1))
          >>= λ (r : InternetDatagram × Parser).
              if r.1.error then ok (none, b) else unwrap_tcp_in_ip r.0 b)
        parsed
      ∙ ap (λ l. unwrap_tcp_in_ip (d l) b) remaining
      ∙ subst
          (λ (c : FdAdapterBase). unwrap_tcp_in_ip (d (rest ∷ [])) c ≡ ok (some (sent seg a), c))
          (other_lem seg a b m) (unwrap-other seg a b (rest ∷ []) q read_back fine)

  -- The bytes that one TUN adapter writes for a segment, the adapter at the other end of the
  -- connection reads as the same segment, with the ports and the checksum that were set. The other end
  -- is not listening, the segment's fields fit their widths, its payload consists of bytes and fits
  -- the buffer of 16384 bytes with the header, and the read brings the whole datagram.
  pub read-datagram_bytes :
      {E : Type 0} (sys : System E) (b : TunAdapter) (e e' : E)
      → Mirrors a b.base
      → IsSegment (ported seg a)
      → IsU32 a.config.source.ipv4_numeric
      → IsU32 a.config.destination.ipv4_numeric
      → length seg.sender_message.payload ≤ 16364
      → sys.read b.tun.fd 16404 e ≡ (got wire, e')
      → (datagram_bytes seg a ≡ ok (wire, sent seg a))
        × (read sys b e ≡ ok (some (sent seg a), record b { tun = register_read b.tun }, e'))
  unfolding read wire
  read-datagram_bytes sys b e e' m v hs hd small call = (
    datagram_bytes_lem,
    ap
          (λ o. o >>= λ (r : List (List ℕ) × FdWrapper × _).
            unwrap_read r.0 b.base >>= λ (u : Option TcpSegment × FdAdapterBase).
            ok (u.0, record { base = u.1; tun = r.1 }, r.2))
          (readv-two sys b.tun e e' (ip_bytes (sealed seg a)) rest (length-ip_bytes (sealed seg a))
            (omega (arith, length_rest, small)) call)
        ∙ ap
            (λ o. o >>= λ (u : Option TcpSegment × FdAdapterBase).
              ok (u.0, record { base = u.1; tun = register_read b.tun }, e'))
            (unwrap_read-wire b.base m v hs hd small),
  )
