-- ===== src/Host/Delivery.antt =====
-- What TCPMinnowSocket (util/tcp_minnow_socket.cc) gives its owner.
use cs144_minnow.Base.{
  ℕ, ◌≤◌, ◌<◌, ◌^◌, ◌≡◌, refl, sym, ap, ◌∙◌, subst, ◌||◌, Option, none, some, ◌++◌, ltb, arith,
  length, take, length-append, IsU32,
}
use cs144_minnow.Base.Outcome.{Outcome, ok}
use cs144_minnow.Wrap.{Wrap32}
use cs144_minnow.Stream.{ByteStream, pop, peek, bytes_buffered, is_finished}
use cs144_minnow.Reassembler.Chain.{Agree}
use cs144_minnow.Wire.Segment.{TcpSegment}
use cs144_minnow.Peer.{TcpPeer, receive}
use cs144_minnow.Peer.Held.{HeldPeer, pushed-small, pop-HeldPeer, Agree-given}
use cs144_minnow.Peer.Inbound.{IsInbound-same, SameInbound-refl, IsOf, receive-IsInbound}
use cs144_minnow.Host.After.{After, After-if, After-bind, After-map}
use cs144_minnow.Host.Descriptor.{System, FdWrapper, shut_wr, write}
use cs144_minnow.Host.Descriptor
use cs144_minnow.Host.Logs.{Log, write-After, shutdown-After, writes, bytes_written}
use cs144_minnow.Host.TcpSocket.{
  Adapter, TcpSocket, collect_segments, receive_segment, receive_rule, note_acked, write_inbound,
  deliver_rule,
}
use cs144_minnow.Host.Quiet.{
  some_injective, After-on_peer, Brings, IsHonest, Quiet, Quiet-peer, collect_segments-Quiet,
  note_acked-Quiet,
}

module _ {A E : Type 0} (sys : System E) (log : Log sys) (fd : ℕ) (src : ℕ → ℕ) (z : Wrap32)
    (word : IsU32 z.raw_value) where
  pub record Held (w : TcpSocket A E) : Type 0 where
    pub given : Agree src 0 (log.given fd w.system)
    pub peer : (p : TcpPeer) → w.tcp ≡ some p → HeldPeer src z (length (log.given fd w.system)) p

  -- Up to 2^30 bytes, the owner's end of the pair was given bytes of src, in order from the first, and
  -- the peer holds bytes of src only.
  pub record Delivers (w : TcpSocket A E) : Type 0 where
    pub thread : w.thread_data.fd ≡ fd
    pub held : length (log.given fd w.system) < 2 ^ 30 → Held w

  abbrev Calm : TcpSocket A E → TcpSocket A E → Type 0
  Calm = Quiet sys log fd

  pub Quiet-Delivers : (w w' : TcpSocket A E) → Calm w w' → Delivers w → Delivers w'
  Quiet-Delivers w w' q d = record {
    thread = q.thread ∙ d.thread;
    held = λ short.
        let h = d.held (omega (arith, ap length q.given)) in
        record {
          given = subst (Agree src 0) (sym q.given) h.given;
          peer = λ p' e'.
              let (p, e, same) = q.tcp p' e' in
              let g = h.peer p e in
              record {
                inbound = IsInbound-same src z p p' same g.inbound;
                popped =
                    ap (λ (s : ByteStream). s.bytes_popped) same.inbound
                    ∙ g.popped
                    ∙ sym (ap length q.given);
                small = subst (λ (s : ByteStream). s.capacity < 2 ^ 30) (sym same.inbound) g.small;
              };
        };
  }

  Quiet-After :
      (w : TcpSocket A E) (m : Outcome (TcpSocket A E))
      → Delivers w
      → After (Calm w) m
      → After Delivers m
  Quiet-After w m d q = After-map (Calm w) Delivers m q (λ w' c. Quiet-Delivers w w' c d)

  -- A segment comes in.
  receive-Delivers :
      (past_end : ℕ) (seg : TcpSegment) (w : TcpSocket A E) (p : TcpPeer)
      → IsOf src z seg
      → w.tcp ≡ some p
      → Delivers w
      → Delivers (record w { tcp = some (receive past_end seg p) })
  receive-Delivers past_end seg w p g e d = record {
    thread = d.thread;
    held = λ short.
        let h = d.held short in
        let k = h.peer p e in
        let (inbound, same) =
          receive-IsInbound src z past_end seg p word g
            (pushed-small src z (length (log.given fd w.system)) p short k) k.inbound in
        record {
          given = h.given;
          peer = λ p' e'.
              subst (HeldPeer src z (length (log.given fd w.system))) (some_injective e') (record {
                inbound = inbound;
                popped = same.0 ∙ k.popped;
                small = omega (arith, same.1, k.small);
              });
        };
  }

  receive_segment-Delivers :
      (past_end : ℕ) (seg : Option TcpSegment) (w : TcpSocket A E)
      → Brings src z seg
      → Delivers w
      → After Delivers (receive_segment past_end seg w)
  unfolding receive_segment
  receive_segment-Delivers past_end none w g d = d
  receive_segment-Delivers past_end (some seg) w g d = After-on_peer Delivers w.tcp _ (λ p e.
      let w1 : TcpSocket A E = record w { tcp = some (receive past_end seg p) } in
      Quiet-After w1 (collect_segments w1) (receive-Delivers past_end seg w p g e d)
        (collect_segments-Quiet sys log fd w1))

  module _ (ad : Adapter A E) (honest : IsHonest sys log fd src z ad) where
    pub receive_rule-Delivers :
        (past_end : ℕ) (w : TcpSocket A E)
        → Delivers w
        → After Delivers (receive_rule sys ad past_end w)
    unfolding receive_rule
    receive_rule-Delivers past_end w d =
        After-bind Delivers
          (λ (r : Option TcpSegment × A × E).
            Brings src z r.0 × (log.given fd r.2 ≡ log.given fd w.system))
          (ad.read w.adapter w.system) _ (honest.read w.adapter w.system)
          (λ r (brings, kept).
            let w1 : TcpSocket A E = record w { adapter = r.1; system = r.2 } in
            let quiet : Calm w w1 = record {
              thread = refl;
              given = kept;
              tcp = λ p e. (p, e, SameInbound-refl p);
            } in
            After-bind Delivers Delivers (receive_segment past_end r.0 w1) _
              (receive_segment-Delivers past_end r.0 w1 brings (Quiet-Delivers w w1 quiet d))
              (λ w2 d2. Quiet-After w2 (note_acked w2) d2 (note_acked-Quiet sys log fd w2)))

  -- The peer's bytes that the owner's end took are given, and popped.
  abbrev Written : TcpPeer × TcpSocket A E → Type 0
  Written r = Delivers (record (r.1) { tcp = some r.0 })

  written-Delivers :
      (w : TcpSocket A E) (p : TcpPeer) (n : ℕ) (d' : FdWrapper) (e' : E)
      → w.tcp ≡ some p
      → Delivers w
      → d'.fd ≡ fd
      → n ≤ length p.inbound_stream.buffer
      → log.given fd e' ≡ log.given fd w.system ++ take n p.inbound_stream.buffer
      → Delivers (record w {
        thread_data = d';
        system = e';
        tcp = some (record p { inbound_stream = pop n p.inbound_stream });
      })
  written-Delivers w p n d' e' e d hd le own = record {
    thread = hd;
    held = λ short.
        let given = log.given fd w.system in
        let b = take n p.inbound_stream.buffer in
        let was_short : length given < 2 ^ 30 =
          omega (arith, short, ap length own, length-append given b) in
        let h = d.held was_short in
        let k = h.peer p e in
        record {
          given = subst (Agree src 0) (sym own) (Agree-given src z given n p k h.given);
          peer = λ p' e'.
              subst (λ l. HeldPeer src z (length l) p') (sym own)
                (subst (HeldPeer src z (length (given ++ b))) (some_injective e')
                  (pop-HeldPeer src z given n p was_short le k));
        };
  }

  write_inbound-Delivers :
      (p : TcpPeer) (w : TcpSocket A E) (ad : Adapter A E)
      → w.tcp ≡ some p
      → Delivers w
      → After Written (write_inbound sys ad p w)
  unfolding write_inbound peek
  write_inbound-Delivers p w ad e d =
      let b = p.inbound_stream.buffer in
      After-if Written (ltb 0 (bytes_buffered p.inbound_stream)) _ (ok (p, w))
        (λ _.
          After-bind Written
            (λ (r : ℕ × FdWrapper × E).
              (r.1.fd ≡ w.thread_data.fd)
              × (bytes_written (sys.write w.thread_data.fd b w.system).0 b ≡ take r.0 b)
              × (r.0 ≤ length b)
              × (r.2 ≡ (sys.write w.thread_data.fd b w.system).1))
            (write sys b w.thread_data w.system) _ (write-After sys b w.thread_data w.system)
            (λ r (hd, q, le, end).
              let to_fd : r.2 ≡ (sys.write fd b w.system).1 =
                end ∙ ap (λ f. (sys.write f b w.system).1) d.thread in
              let own =
                writes sys log fd r.0 b w.system (
                  subst (λ f. bytes_written (sys.write f b w.system).0 b ≡ take r.0 b) d.thread
                    q) in
              written-Delivers w p r.0 r.1 r.2 e d (hd ∙ d.thread) le
                (ap (log.given fd) to_fd ∙ own.0)))
        (λ _.
          Quiet-Delivers w _ (Quiet-peer sys log fd w _ p p refl refl e refl (SameInbound-refl p))
            d)

  pub deliver_rule-Delivers :
      (w : TcpSocket A E) (ad : Adapter A E) → Delivers w → After Delivers (deliver_rule sys ad w)
  unfolding deliver_rule
  deliver_rule-Delivers w ad d = After-on_peer Delivers w.tcp _ (λ p e.
      After-bind Delivers Written (write_inbound sys ad p w) _ (write_inbound-Delivers p w ad e d)
        (λ r d1.
          let w1 : TcpSocket A E = record (r.1) { tcp = some r.0 } in
          After-if Delivers (is_finished r.0.inbound_stream || r.0.inbound_stream.error) _ (ok w1)
            (λ _.
              After-bind Delivers
                (λ (t : FdWrapper × E).
                  (t.0.fd ≡ w1.thread_data.fd)
                  × (t.1 ≡ (sys.shutdown w1.thread_data.fd shut_wr w1.system).1))
                (Descriptor.shutdown sys shut_wr w1.thread_data w1.system) _
                (shutdown-After sys shut_wr w1.thread_data w1.system)
                (λ t (ht, end).
                  Quiet-Delivers w1 _
                    (record {
                      thread = ht;
                      given =
                          ap (log.given fd) end
                          ∙ log.given-shutdown w1.thread_data.fd fd shut_wr w1.system;
                      tcp = λ q e'. (q, e', SameInbound-refl q);
                    })
                    d1))
            (λ _. d1)))
