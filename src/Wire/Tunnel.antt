-- ===== src/Wire/Tunnel.antt =====
-- TCPOverIPv4Adapter::unwrap_tcp_in_ip after wrap_tcp_in_ip (util/tcp_over_ip.cc).
use cs144_minnow.Base.{
  ℕ, ◌+◌, ◌*◌, ◌^◌, ◌≤◌, ◌<◌, ◌≡◌, refl, sym, ap, subst, ◌∙◌, false, none, some, List, [], ◌∷◌,
  ◌++◌, arith, test_self, if◌then◌else◌, length, append-nil, IsU32, u16,
}
use cs144_minnow.Base.Outcome.{ok, ◌>>=◌}
use cs144_minnow.Wire.Parser.{Parser, parser_of, serializer, output_of, concat}
use cs144_minnow.Wire.Ipv4.{
  InternetDatagram, Ipv4Header, ipv4_header, proto_tcp, pseudo_checksum, payload_length,
}
use cs144_minnow.Wire.Ipv4
use cs144_minnow.Wire.Checksum.{add_all, checksum, value}
use cs144_minnow.Wire.Datagrams.{ip_bytes, ip-buffer, summed}
use cs144_minnow.Wire.Segment.{TcpSegment}
use cs144_minnow.Wire.Segment
use cs144_minnow.Wire.Segments.{IsSegment, segment_bytes, segment-buffers}
use cs144_minnow.Wire.SegmentParse.{parse-segment_bytes}
use cs144_minnow.Wire.Adapter.{FdAdapterBase, tcp_segment, accept, unwrap_tcp_in_ip, wrap_tcp_in_ip}

-- The adapter at the other end of a's connection.
pub record Mirrors (a b : FdAdapterBase) : Type 0 where
  pub connected : b.listen ≡ false
  pub to_peer : b.config.source ≡ a.config.destination
  pub from_peer : b.config.destination ≡ a.config.source

module _ (seg : TcpSegment) (a : FdAdapterBase) where
  abbrev pub ported : TcpSegment
  ported = record seg {
    udinfo = record seg.udinfo {
      src_port = a.config.source.port;
      dst_port = a.config.destination.port;
    };
  }

  abbrev pub outer : Ipv4Header
  outer = record ipv4_header {
    src = a.config.source.ipv4_numeric;
    dst = a.config.destination.ipv4_numeric;
    len = u16 (ipv4_header.hlen * 4 + 20 + length seg.sender_message.payload);
  }

  abbrev pub sent : TcpSegment
  sent = Segment.compute_checksum (pseudo_checksum outer) ported

  pub pseudo_small :
      IsU32 a.config.source.ipv4_numeric
      → IsU32 a.config.destination.ipv4_numeric
      → pseudo_checksum outer ≤ 327686
  pseudo_small hs hd = omega arith

  abbrev pub sealed : Ipv4Header
  sealed = record outer {
    cksum = value (add_all (ip_bytes (record outer { cksum = 0 }) ∷ []) (checksum 0));
  }

  pub sealed_lem : Ipv4.compute_checksum outer ≡ ok sealed
  unfolding Ipv4.compute_checksum
  sealed_lem = ap (summed outer) (ip-buffer (record outer { cksum = 0 }) refl)

  -- What wrap_tcp_in_ip returns.
  pub wrap_lem :
      wrap_tcp_in_ip seg a
      ≡ ok (
        record {
          header = sealed;
          payload = segment_bytes sent ∷ seg.sender_message.payload ∷ [] ∷ [];
        },
        sent,
      )
  unfolding wrap_tcp_in_ip Segment.compute_checksum
  wrap_lem =
      let buffers = output_of (Segment.serialize sent serializer) in
      ap (λ o. o >>= λ (h : Ipv4Header). ok (record { header = h; payload = buffers }, sent))
        sealed_lem
      ∙ ap (λ l. ok (record { header = sealed; payload = l }, sent)) (segment-buffers sent)

  pub other : FdAdapterBase → FdAdapterBase
  other b = record {
    config = record b.config { source = a.config.destination; destination = a.config.source };
    listen = false;
  }

  pub other_lem : (b : FdAdapterBase) → Mirrors a b → other b ≡ b
  unfolding other
  other_lem b m = λ i. record {
    config = record b.config { source = sym m.to_peer i; destination = sym m.from_peer i };
    listen = sym m.connected i;
  }

  accept-other :
      (b : FdAdapterBase) (d : InternetDatagram) → accept d sent (other b) ≡ (some sent, other b)
  unfolding other accept Segment.compute_checksum
  accept-other b d = rw (test_self a.config.destination.port, test_self a.config.source.port) refl

  pub unwrap-other :
      (b : FdAdapterBase) (payload : List (List ℕ)) (p : Parser)
      → Segment.parse (pseudo_checksum outer) tcp_segment (parser_of payload) ≡ ok (sent, p)
      → p.error ≡ false
      → unwrap_tcp_in_ip (record { header = sealed; payload = payload }) (other b)
        ≡ ok (some sent, other b)
  unfolding unwrap_tcp_in_ip other
  unwrap-other b payload p parsed fine =
      let d : InternetDatagram = record { header = sealed; payload = payload } in
      rw (test_self a.config.destination.ipv4_numeric, test_self a.config.source.ipv4_numeric)
        (ap
            (λ o. o >>= λ (r : TcpSegment × Parser).
              ok (if r.1.error then (none, other b) else accept d r.0 (other b)))
            parsed
          ∙ ap (λ e. ok (if e then (none, other b) else accept d sent (other b))) fine
          ∙ ap ok (accept-other b d))

  -- A segment that one adapter wraps in a datagram, the adapter at the other end of the connection
  -- unwraps as the same segment, with the ports and the checksum that were set, however the datagram's
  -- payload is cut behind the segment's header. The other end is not listening, the fields fit their
  -- widths, the payload consists of bytes, and the sums stay below 2^32.
  pub unwrap_tcp_in_ip-wrap_tcp_in_ip :
      (b : FdAdapterBase) (xs : List ℕ) (more : List (List ℕ))
      → Mirrors a b
      → IsSegment ported
      → IsU32 a.config.source.ipv4_numeric
      → IsU32 a.config.destination.ipv4_numeric
      → xs ++ concat more ≡ seg.sender_message.payload
      → 65280 * length seg.sender_message.payload + 1633796 < 2 ^ 32
      → (d : InternetDatagram) × (wrap_tcp_in_ip seg a ≡ ok (d, sent))
        × (concat d.payload ≡ segment_bytes sent ++ seg.sender_message.payload)
        × (unwrap_tcp_in_ip (record d { payload = (segment_bytes sent ++ xs) ∷ more }) b
            ≡ ok (some sent, b))
  unwrap_tcp_in_ip-wrap_tcp_in_ip b xs more m v hs hd e w =
      let (p, parsed, fine) =
        parse-segment_bytes (pseudo_checksum outer) ported tcp_segment xs more v e
          (omega (arith, pseudo_small hs hd)) in
      let payload = (segment_bytes sent ++ xs) ∷ more in
      let d : InternetDatagram = record { header = sealed; payload = payload } in
      (
        record {
          header = sealed;
          payload = segment_bytes sent ∷ seg.sender_message.payload ∷ [] ∷ [];
        },
        wrap_lem,
        ap (λ l. segment_bytes sent ++ l) (append-nil seg.sender_message.payload),
        subst (λ (c : FdAdapterBase). unwrap_tcp_in_ip d c ≡ ok (some sent, c)) (other_lem b m)
            (unwrap-other b payload p parsed fine),
      )
