-- ===== src/Wire/Filter.antt =====
-- The filter of util/tcp_over_ip.cc: what unwrap_tcp_in_ip lets through.
use cs144_minnow.Base.{
  ◌≡◌, refl, sym, subst, ◌⊎◌, inl, inr, Bool, true, false, not, ◌&&◌, Option, none, some, arith,
  ◌==◌, if◌then◌else◌, Bool-cases,
}
use cs144_minnow.Base.Outcome.{Outcome, ok, throws, undefined, stuck, ◌>>=◌}
use cs144_minnow.Wire.Parser.{Parser, parser_of}
use cs144_minnow.Wire.Ipv4.{InternetDatagram, proto_tcp, pseudo_checksum}
use cs144_minnow.Wire.Segment.{TcpSegment}
use cs144_minnow.Wire.Segment
use cs144_minnow.Wire.Adapter.{FdAdapterBase, tcp_segment, answer_to, accept, unwrap_tcp_in_ip}

-- The segment and the datagram go from the adapter's destination to its source, which were those
-- of the adapter before, unless it listened, and then the segment opens a connection.
pub record Fits (dgram : InternetDatagram) (a : FdAdapterBase) (seg : TcpSegment)
    (a' : FdAdapterBase) : Type 0 where
  pub connected : a'.listen ≡ false
  pub to_address : dgram.header.dst ≡ a'.config.source.ipv4_numeric
  pub from_address : dgram.header.src ≡ a'.config.destination.ipv4_numeric
  pub to_port : seg.udinfo.dst_port ≡ a'.config.source.port
  pub from_port : seg.udinfo.src_port ≡ a'.config.destination.port
  pub opened :
      (a' ≡ a) ⊎ ((a.listen ≡ true) × (seg.sender_message.syn ≡ true) × (seg.reset ≡ false))

-- What comes through fits, and where nothing does the adapter is as it was.
pub Filters :
    InternetDatagram → FdAdapterBase → Outcome (Option TcpSegment × FdAdapterBase) → Type 0
Filters dgram a (ok (some seg, a')) = (dgram.header.proto ≡ proto_tcp) × Fits dgram a seg a'
Filters dgram a (ok (none, a')) = a' ≡ a
Filters dgram a o = Unit

module _ (dgram : InternetDatagram) (a : FdAdapterBase) where
  Filters-if :
      (c : Bool) (x y : Outcome (Option TcpSegment × FdAdapterBase))
      → (c ≡ true → Filters dgram a x)
      → (c ≡ false → Filters dgram a y)
      → Filters dgram a (if c then x else y)
  Filters-if true x y f g = f refl
  Filters-if false x y f g = g refl

  Filters-bind :
      (o : Outcome (TcpSegment × Parser))
      (f : TcpSegment × Parser → Option TcpSegment × FdAdapterBase)
      → ((r : TcpSegment × Parser) → Filters dgram a (ok (f r)))
      → Filters dgram a (o >>= λ r. ok (f r))
  unfolding Filters
  Filters-bind (ok r) f h = h r
  Filters-bind throws f h = tt
  Filters-bind undefined f h = tt
  Filters-bind stuck f h = tt

  Filters-pair :
      (c : Bool) (x y : Option TcpSegment × FdAdapterBase)
      → (c ≡ true → Filters dgram a (ok x))
      → (c ≡ false → Filters dgram a (ok y))
      → Filters dgram a (ok (if c then x else y))
  Filters-pair true x y f g = f refl
  Filters-pair false x y f g = g refl

  -- The last check, with the adapter as it is by then.
  checked : TcpSegment → FdAdapterBase → Option TcpSegment × FdAdapterBase
  checked seg z =
      if not (seg.udinfo.src_port == z.config.destination.port) then (none, z) else (some seg, z)

  Filters-listening :
      (seg : TcpSegment)
      → dgram.header.proto ≡ proto_tcp
      → seg.udinfo.dst_port ≡ a.config.source.port
      → a.listen ≡ true
      → (seg.sender_message.syn ≡ true) × (seg.reset ≡ false)
      → Filters dgram a (ok (checked seg (answer_to dgram seg a)))
  unfolding Filters checked
  Filters-listening seg tcp port l opening =
      Filters-pair (not (seg.udinfo.src_port == seg.udinfo.src_port)) _ _
        (λ e. absurd (ground arith))
        (λ e. (
          tcp,
          record {
            connected = refl;
            to_address = refl;
            from_address = refl;
            to_port = port;
            from_port = refl;
            opened = inr (l, opening.0, opening.1);
          },
        ))

  Filters-connected :
      (seg : TcpSegment)
      → dgram.header.proto ≡ proto_tcp
      → seg.udinfo.dst_port ≡ a.config.source.port
      → a.listen ≡ false
      → dgram.header.dst ≡ a.config.source.ipv4_numeric
      → dgram.header.src ≡ a.config.destination.ipv4_numeric
      → Filters dgram a (ok (checked seg a))
  unfolding Filters checked
  Filters-connected seg tcp port l dst src =
      Filters-pair (not (seg.udinfo.src_port == a.config.destination.port)) _ _ (λ e. refl)
        (λ e. (
          tcp,
          record {
            connected = l;
            to_address = dst;
            from_address = src;
            to_port = port;
            from_port = ground arith;
            opened = inl refl;
          },
        ))

  -- Behind the checks of the addresses the adapter listens, or they are those of the datagram.
  peer_known :
      (not a.listen && not (dgram.header.dst == a.config.source.ipv4_numeric)) ≡ false
      → (not a.listen && not (dgram.header.src == a.config.destination.ipv4_numeric)) ≡ false
      → (a.listen ≡ true)
        ⊎ ((dgram.header.dst ≡ a.config.source.ipv4_numeric)
            × (dgram.header.src ≡ a.config.destination.ipv4_numeric))
  peer_known dst src = elim (Bool-cases a.listen) [
    | inl l ↦ inl l
    | inr l ↦ inr (ground arith, ground arith)
  ]

  Filters-accept :
      (seg : TcpSegment)
      → dgram.header.proto ≡ proto_tcp
      → (a.listen ≡ true)
        ⊎ ((dgram.header.dst ≡ a.config.source.ipv4_numeric)
            × (dgram.header.src ≡ a.config.destination.ipv4_numeric))
      → Filters dgram a (ok (accept dgram seg a))
  unfolding Filters accept checked
  Filters-accept seg tcp peer =
      let target = λ (c : Bool). if c then answer_to dgram seg a else a in
      Filters-pair (not (seg.udinfo.dst_port == a.config.source.port)) _ _ (λ e. refl)
        (λ port.
          Filters-pair (a.listen && not (seg.sender_message.syn && not seg.reset)) _ _ (λ e. refl)
            (λ g. elim (Bool-cases a.listen) [
              | inl l ↦
                  subst (λ c. Filters dgram a (ok (checked seg (target c)))) (sym l)
                    (Filters-listening seg tcp (ground arith) l (ground arith))
              | inr l ↦
                  subst (λ c. Filters dgram a (ok (checked seg (target c)))) (sym l)
                    (Filters-connected seg tcp (ground arith) l (ground arith) (ground arith))
            ]))

  -- A segment that comes through is of a TCP datagram from the adapter's destination, address and
  -- port, to its source; they are unchanged unless the adapter listened, and then the segment is a
  -- SYN without RST, and the adapter listens no more. Where nothing comes through, the adapter is
  -- unchanged.
  pub unwrap_tcp_in_ip-Filters : Filters dgram a (unwrap_tcp_in_ip dgram a)
  unfolding unwrap_tcp_in_ip Filters
  unwrap_tcp_in_ip-Filters =
      Filters-if (not a.listen && not (dgram.header.dst == a.config.source.ipv4_numeric)) _ _
        (λ e. refl)
        (λ dst.
          Filters-if (not a.listen && not (dgram.header.src == a.config.destination.ipv4_numeric)) _
            _ (λ e. refl)
            (λ src.
              Filters-if (not (dgram.header.proto == proto_tcp)) _ _ (λ e. refl)
                (λ tcp.
                  Filters-bind
                    (Segment.parse (pseudo_checksum dgram.header) tcp_segment
                      (parser_of dgram.payload))
                    (λ r. if r.1.error then (none, a) else accept dgram r.0 a)
                    (λ r.
                      Filters-pair r.1.error _ _ (λ e. refl)
                        (λ e. Filters-accept r.0 (ground arith) (peer_known dst src))))))
