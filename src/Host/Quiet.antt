-- ===== src/Host/Quiet.antt =====
-- What of TCPMinnowSocket (util/tcp_minnow_socket.cc) leaves the bytes from the other end alone.
use cs144_minnow.Base.{
  ℕ, zero, suc, ◌≡◌, refl, sym, ap, ◌∙◌, subst, Bool, true, false, ◌&&◌, ◌||◌, Option, none, some,
  List, [], ◌∷◌, not, length, sub64, ◌==◌, ltb, if◌then◌else◌,
}
use cs144_minnow.Base.Outcome.{Outcome, ok, throws}
use cs144_minnow.Stream.{available_capacity}
use cs144_minnow.Wrap.{Wrap32}
use cs144_minnow.Wire.Segment.{TcpSegment}
use cs144_minnow.Peer.{TcpPeer, maybe_send, active}
use cs144_minnow.Peer
use cs144_minnow.Peer.Inbound.{
  IsOf, SameInbound, SameInbound-refl, SameInbound-trans, push-SameInbound, tick-SameInbound,
  maybe_send-SameInbound,
}
use cs144_minnow.Host.After.{After, After-if, After-bind, After-map}
use cs144_minnow.Host.Descriptor.{
  System, FdWrapper, Read, got, refused, would_block, set_eof, ready_buffer, zeros, read,
  read_result, register_read,
}
use cs144_minnow.Host.Copy.{push_read}
use cs144_minnow.Sender.{sequence_numbers_in_flight}
use cs144_minnow.Host.Logs.{Log}
use cs144_minnow.Host.TcpSocket.{
  Adapter, TcpSocket, collect, collect_segments, on_peer, rounds_left, push_rule, push_cancel,
  write_all, send_rule, note_acked,
}
use cs144_minnow.Host.TcpLoop.{tick_all}

module _ {ℓ ℓ'} {A : Type ℓ} {B : Type ℓ'} (P : A → Type 0) where
  pub After-elim :
      (o : Option B) (m : Outcome A) (f : B → Outcome A)
      → (o ≡ none → After P m)
      → ((b : B) → o ≡ some b → After P (f b))
      → After P (elim o [ none ↦ m | some b ↦ f b ])
  After-elim none m f hn hs = hn refl
  After-elim (some b) m f hn hs = hs b refl

pub After-on_peer {ℓ} :
    {A : Type ℓ} (P : A → Type 0) (o : Option TcpPeer) (f : TcpPeer → Outcome A)
    → ((p : TcpPeer) → o ≡ some p → After P (f p))
    → After P (on_peer o f)
After-on_peer P none f h = tt
After-on_peer P (some p) f h = h p refl

collect-SameInbound :
    (fuel : ℕ) (p : TcpPeer)
    → After (λ (t : List TcpSegment × TcpPeer). SameInbound p t.1) (collect fuel p)
unfolding collect
collect-SameInbound zero p = tt
collect-SameInbound (suc fuel) p =
    let Q : List TcpSegment × TcpPeer → Type 0 = λ t. SameInbound p t.1 in
    After-bind Q (λ (r : Option TcpSegment × TcpPeer). SameInbound p r.1) (maybe_send p) _
      (maybe_send-SameInbound p)
      (λ r same.
        After-elim Q r.0 _ _ (λ _. same)
          (λ seg _.
            After-bind Q (λ (t : List TcpSegment × TcpPeer). SameInbound r.1 t.1) (collect fuel r.1)
              _ (collect-SameInbound fuel r.1) (λ t later. SameInbound-trans p r.1 t.1 same later)))

abbrev from_some : TcpPeer → Option TcpPeer → TcpPeer
from_some p none = p
from_some p (some q) = q

pub some_injective : {p q : TcpPeer} → some p ≡ some q → p ≡ q
some_injective {p} e = ap (from_some p) e

module _ {E : Type 0} (sys : System E) (log : Log sys) (fd : ℕ) where
  -- A read changes only what was taken.
  read_keeps :
      (buffer : List ℕ) (d : FdWrapper) (e : E)
      → After
          (λ (r : List ℕ × FdWrapper × E). (r.1.fd ≡ d.fd) × (log.given fd r.2 ≡ log.given fd e))
          (read sys buffer d e)
  unfolding read read_result
  read_keeps buffer d e =
      let ready = ready_buffer buffer in
      let (result, e') = sys.read d.fd (length ready) e in
      After-bind _ (λ (r : List ℕ × FdWrapper). r.1.fd ≡ d.fd) (read_result ready result d) _
        (same_fd ready result) (λ r same. (same, log.given-read d.fd fd (length ready) e))
    where
      eof_fd : (b : Bool) → (if b then set_eof (register_read d) else register_read d).fd ≡ d.fd
      eof_fd true = refl
      eof_fd false = refl

      same_fd :
          (ready : List ℕ) (result : Read)
          → After (λ (r : List ℕ × FdWrapper). r.1.fd ≡ d.fd) (read_result ready result d)
      same_fd ready (refused errno) =
          After-if _ (d.non_blocking && would_block errno) _ throws (λ _. refl) (λ _. tt)
      same_fd ready (got bytes) =
          After-if _ (ltb (length ready) (length bytes)) throws _ (λ _. tt)
            (λ _. eof_fd (length bytes == 0))

-- What a read brings, if anything, is of the connection's other end.
abbrev pub Brings : (ℕ → ℕ) → Wrap32 → Option TcpSegment → Type 0
Brings src z none = Unit {0}
Brings src z (some seg) = IsOf src z seg

module _ {A E : Type 0} (sys : System E) (log : Log sys) (fd : ℕ) where
  -- The bytes given to the descriptor are the same, and so is the half of the peer that receives.
  pub record Quiet (w w' : TcpSocket A E) : Type 0 where
    pub thread : w'.thread_data.fd ≡ w.thread_data.fd
    pub given : log.given fd w'.system ≡ log.given fd w.system
    pub tcp :
        (p' : TcpPeer) → w'.tcp ≡ some p' → (p : TcpPeer) × (w.tcp ≡ some p) × SameInbound p p'

  pub Quiet-refl : (w : TcpSocket A E) → Quiet w w
  Quiet-refl w = record { thread = refl; given = refl; tcp = λ p e. (p, e, SameInbound-refl p) }

  pub Quiet-trans : (u v w : TcpSocket A E) → Quiet u v → Quiet v w → Quiet u w
  Quiet-trans u v w f g = record {
    thread = g.thread ∙ f.thread;
    given = g.given ∙ f.given;
    tcp = λ p e.
        let (q, e', s) = g.tcp p e in
        let (r, e'', s') = f.tcp q e' in (r, e'', SameInbound-trans r q p s' s);
  }

  -- The peer was p, and is q now.
  pub Quiet-peer :
      (w w' : TcpSocket A E) (p q : TcpPeer)
      → w'.thread_data.fd ≡ w.thread_data.fd
      → log.given fd w'.system ≡ log.given fd w.system
      → w.tcp ≡ some p
      → w'.tcp ≡ some q
      → SameInbound p q
      → Quiet w w'
  Quiet-peer w w' p q ht hg e e' same = record {
    thread = ht;
    given = hg;
    tcp = λ p' h. (p, e, subst (SameInbound p) (some_injective (sym e' ∙ h)) same);
  }

  pub collect_segments-Quiet : (w : TcpSocket A E) → After (Quiet w) (collect_segments w)
  unfolding collect_segments
  collect_segments-Quiet w =
      After-elim (Quiet w) w.tcp _ _ (λ _. Quiet-refl w)
        (λ p e.
          After-bind (Quiet w) (λ (t : List TcpSegment × TcpPeer). SameInbound p t.1) _ _
            (collect-SameInbound (suc (rounds_left p)) p)
            (λ t same. Quiet-peer w _ p t.1 refl refl e refl same))

  pub note_acked-Quiet : (w : TcpSocket A E) → After (Quiet w) (note_acked w)
  note_acked-Quiet w =
      After-if (Quiet w) w.thread_data.eof _ (ok w)
        (λ _.
          After-elim (Quiet w) w.tcp throws _ (λ _. tt)
            (λ p e. if_same (sequence_numbers_in_flight p.sender == 0 && not w.fully_acked)))
        (λ _. Quiet-refl w)
    where
      if_same : (b : Bool) → Quiet w (if b then record w { fully_acked = true } else w)
      if_same true = record { thread = refl; given = refl; tcp = λ p e. (p, e, SameInbound-refl p) }
      if_same false = Quiet-refl w

  module _ (ad : Adapter A E) where
    pub push_cancel-Quiet : (w : TcpSocket A E) → After (Quiet w) (push_cancel sys ad w)
    push_cancel-Quiet w = After-on_peer (Quiet w) w.tcp _ (λ p e.
        Quiet-peer w _ p _ refl refl e refl
          (record { receiver = refl; reassembler = refl; inbound = refl }))

    -- Behind push, the segments are collected.
    pushed-Quiet :
        (w w1 : TcpSocket A E) (p q : TcpPeer)
        → w1.thread_data.fd ≡ w.thread_data.fd
        → log.given fd w1.system ≡ log.given fd w.system
        → w.tcp ≡ some p
        → SameInbound p q
        → After (Quiet w) (collect_segments (record w1 { tcp = some q }))
    pushed-Quiet w w1 p q ht hg e same =
        let w2 : TcpSocket A E = record w1 { tcp = some q } in
        After-map (Quiet w2) (Quiet w) (collect_segments w2) (collect_segments-Quiet w2)
          (λ w3 later. Quiet-trans w w2 w3 (Quiet-peer w w2 p q ht hg e refl same) later)

    pub push_rule-Quiet : (w : TcpSocket A E) → After (Quiet w) (push_rule sys ad w)
    unfolding push_rule
    push_rule-Quiet w = After-on_peer (Quiet w) w.tcp _ (λ p e.
        After-bind (Quiet w)
          (λ (r : List ℕ × FdWrapper × E).
            (r.1.fd ≡ w.thread_data.fd) × (log.given fd r.2 ≡ log.given fd w.system))
          (read sys (zeros (available_capacity p.outbound_stream)) w.thread_data w.system) _
          (read_keeps sys log fd (zeros (available_capacity p.outbound_stream)) w.thread_data
            w.system)
          (λ r (ht, hg).
            let outbound = push_read r.0 r.1.eof p.outbound_stream in
            let p0 : TcpPeer = record p { outbound_stream = outbound } in
            After-bind (Quiet w) (SameInbound p0) (Peer.push p0) _ (push-SameInbound p0) (λ q same.
              pushed-Quiet w
                (record w {
                  thread_data = r.1;
                  system = r.2;
                  outbound_shutdown = r.1.eof || w.outbound_shutdown;
                })
                p q ht hg e
                (SameInbound-trans p p0 q
                  (record { receiver = refl; reassembler = refl; inbound = refl }) same))))

  -- The adapter brings segments of the connection's other end, and writes nothing to the descriptor.
  pub record IsHonest (src : ℕ → ℕ) (z : Wrap32) (ad : Adapter A E) : Type 0 where
    pub read :
        (a : A) (e : E)
        → After
            (λ (r : Option TcpSegment × A × E).
              Brings src z r.0 × (log.given fd r.2 ≡ log.given fd e))
            (ad.read a e)
    pub write :
        (seg : TcpSegment) (a : A) (e : E)
        → After (λ (r : TcpSegment × A × E). log.given fd r.2 ≡ log.given fd e) (ad.write seg a e)
    pub tick :
        (ms : ℕ) (a : A) (e : E)
        → After (λ (r : A × E). log.given fd r.1 ≡ log.given fd e) (ad.tick ms a e)

  module _ (src : ℕ → ℕ) (z : Wrap32) (ad : Adapter A E) (honest : IsHonest src z ad) where
    write_all_keeps :
        (segs : List TcpSegment) (a : A) (e : E)
        → After (λ (r : A × E). log.given fd r.1 ≡ log.given fd e) (write_all sys ad segs a e)
    unfolding write_all
    write_all_keeps [] a e = refl
    write_all_keeps (seg ∷ segs) a e =
        let Q : A × E → Type 0 = λ r. log.given fd r.1 ≡ log.given fd e in
        After-bind Q (λ (r : TcpSegment × A × E). log.given fd r.2 ≡ log.given fd e)
          (ad.write seg a e) _ (honest.write seg a e)
          (λ r same.
            After-map (λ (q : A × E). log.given fd q.1 ≡ log.given fd r.2) Q
              (write_all sys ad segs r.1 r.2) (write_all_keeps segs r.1 r.2)
              (λ q later. later ∙ same))

    pub send_rule-Quiet : (w : TcpSocket A E) → After (Quiet w) (send_rule sys ad w)
    unfolding send_rule
    send_rule-Quiet w =
        After-bind (Quiet w) _ (write_all sys ad w.outgoing_segments w.adapter w.system) _
          (write_all_keeps w.outgoing_segments w.adapter w.system)
          (λ r same. record {
            thread = refl;
            given = same;
            tcp = λ p e. (p, e, SameInbound-refl p);
          })

    pub tick_all-Quiet :
        (next_time base_time : ℕ) (w : TcpSocket A E)
        → After (λ (r : ℕ × TcpSocket A E). Quiet w r.1) (tick_all sys ad next_time base_time w)
    unfolding tick_all
    tick_all-Quiet next_time base_time w =
        let Q : ℕ × TcpSocket A E → Type 0 = λ r. Quiet w r.1 in
        let ms = sub64 next_time base_time in
        After-elim Q w.tcp throws _ (λ _. tt)
          (λ p e.
            After-if Q (active p) _ _
              (λ _.
                After-bind Q (SameInbound p) (Peer.tick ms p) _ (tick-SameInbound ms p) (λ p1 same.
                  After-bind Q (Quiet w) _ _ (pushed-Quiet ad w w p p1 refl refl e same) (λ w1 q1.
                    After-bind Q (λ (r : A × E). log.given fd r.1 ≡ log.given fd w1.system)
                      (ad.tick ms w1.adapter w1.system) _ (honest.tick ms w1.adapter w1.system)
                      (λ r kept. Quiet-trans w w1 _ q1 (record {
                        thread = refl;
                        given = kept;
                        tcp = λ p' e'. (p', e', SameInbound-refl p');
                      })))))
              (λ _. Quiet-refl w))
