-- ===== src/Host/Running.antt =====
-- The states that a TCPMinnowSocket (util/tcp_minnow_socket.cc) goes through, and what its owner has
-- been given in them.
use cs144_minnow.Base.{
  ℕ, ◌<◌, ◌^◌, ◌≡◌, refl, sym, ap, ◌∙◌, subst, inl, none, some, List, [], arith, length, IsU32,
}
use cs144_minnow.Base.Outcome.{Outcome, ok}
use cs144_minnow.Wrap.{Wrap32}
use cs144_minnow.Stream
use cs144_minnow.Reassembler.Chain.{Agree}
use cs144_minnow.Reassembler.History.{starts, Reach-Stored}
use cs144_minnow.Receiver
use cs144_minnow.Peer.{TcpPeer, TcpConfig}
use cs144_minnow.Peer
use cs144_minnow.Peer.Inbound.{SameInbound, SameInbound-refl, push-SameInbound}
use cs144_minnow.Peer.Held.{HeldPeer}
use cs144_minnow.Host.After.{After, After-bind, After-map}
use cs144_minnow.Host.Descriptor.{System, FdWrapper, shut_rdwr}
use cs144_minnow.Host.Descriptor
use cs144_minnow.Host.EventLoop.{Direction, EventLoop, Result, init}
use cs144_minnow.Host.Waiting.{Polling, wait_next_event}
use cs144_minnow.Host.Keeps.{IsLoop, wait_next_event-keeps}
use cs144_minnow.Host.Conserved.{add_named_rule-IsLoop}
use cs144_minnow.Host.Logs.{Log, shutdown-After}
use cs144_minnow.Host.TcpSocket.{Adapter, TcpSocket, collect_segments}
use cs144_minnow.Host.TcpLoop.{initialize, tick_all, shut_local}
use cs144_minnow.Host.Quiet.{
  IsHonest, Quiet, Quiet-peer, some_injective, collect_segments-Quiet, push_rule-Quiet,
  push_cancel-Quiet, send_rule-Quiet, tick_all-Quiet,
}
use cs144_minnow.Host.Delivery.{
  Delivers, Quiet-Delivers, receive_rule-Delivers, deliver_rule-Delivers,
}

-- The states, from the construction of the rules on: adapters are set, the peer is pushed, rounds of
-- the loop wait and tick, the owner's end is shut down, and the peer is dropped.
pub data Reaches {A E : Type 0} (sys : System E) (ad : Adapter A E) (w0 : TcpSocket A E)
    : EventLoop (TcpSocket A E) → TcpSocket A E → Type 0 where
  initializes :
      {l : EventLoop (TcpSocket A E)} {w : TcpSocket A E} (random : ℕ) (config : TcpConfig)
      (n1 n2 n3 n4 : List ℕ) (past_end capacity : ℕ)
      → config.recv_capacity < 2 ^ 30
      → initialize sys ad random config n1 n2 n3 n4 past_end (init capacity) w0 ≡ ok (l, w)
      → Reaches sys ad w0 l w
  configures :
      {l : EventLoop (TcpSocket A E)} {w : TcpSocket A E} (a : A)
      → Reaches sys ad w0 l w
      → Reaches sys ad w0 l (record w { adapter = a })
  pushes :
      {l : EventLoop (TcpSocket A E)} {w w' : TcpSocket A E} (p q : TcpPeer)
      → Reaches sys ad w0 l w
      → w.tcp ≡ some p
      → Peer.push p ≡ ok q
      → collect_segments (record w { tcp = some q }) ≡ ok w'
      → Reaches sys ad w0 l w'
  waits :
      {l l' : EventLoop (TcpSocket A E)} {w w' : TcpSocket A E} (poll : Polling (TcpSocket A E))
      (r : Result)
      → Reaches sys ad w0 l w
      → wait_next_event poll l w ≡ ok (r, l', w')
      → Reaches sys ad w0 l' w'
  ticks :
      {l : EventLoop (TcpSocket A E)} {w w' : TcpSocket A E} (next_time base_time base' : ℕ)
      → Reaches sys ad w0 l w
      → tick_all sys ad next_time base_time w ≡ ok (base', w')
      → Reaches sys ad w0 l w'
  shuts :
      {l : EventLoop (TcpSocket A E)} {w w' : TcpSocket A E}
      → Reaches sys ad w0 l w
      → shut_local sys ad w ≡ ok w'
      → Reaches sys ad w0 l w'
  resets :
      {l : EventLoop (TcpSocket A E)} {w : TcpSocket A E}
      → Reaches sys ad w0 l w
      → Reaches sys ad w0 l (record w { tcp = none })

init-HeldPeer :
    (src : ℕ → ℕ) (z : Wrap32) (random : ℕ) (config : TcpConfig)
    → config.recv_capacity < 2 ^ 30
    → HeldPeer src z 0 (Peer.init random config)
unfolding Peer.init Receiver.init Stream.init
init-HeldPeer src z random config small = record {
  inbound = record {
    stored = Reach-Stored (starts config.recv_capacity (omega arith));
    tuned = inl refl;
  };
  popped = refl;
  small = small;
}

module _ {A E : Type 0} (sys : System E) (log : Log sys) (fd : ℕ) (src : ℕ → ℕ) (z : Wrap32)
    (word : IsU32 z.raw_value) (ad : Adapter A E) (honest : IsHonest sys log fd src z ad) where
  abbrev Good : TcpSocket A E → Type 0
  Good = Delivers sys log fd src z word

  abbrev Then : TcpSocket A E → TcpSocket A E → Type 0
  Then w w' = Unit {0}

  -- The rules count on nothing that poll tells.
  abbrev Nothing : ℕ → Direction → TcpSocket A E → Type 0
  Nothing f direction w = Unit {0}

  abbrev GoodLoop : EventLoop (TcpSocket A E) → Type 0
  GoodLoop = IsLoop Good Then Nothing

  calm :
      (w : TcpSocket A E) (m : Outcome (TcpSocket A E))
      → After (Quiet sys log fd w) m
      → Good w
      → After Good m
  calm w m q d =
      After-map (Quiet sys log fd w) Good m q
        (λ w' c. Quiet-Delivers sys log fd src z word w w' c d)

  with_Then :
      (w : TcpSocket A E) (m : Outcome (TcpSocket A E))
      → After Good m
      → After (λ w'. Good w' × Then w w') m
  with_Then w m h = After-map Good (λ w'. Good w' × Then w w') m h (λ w' d. (d, tt))

  started :
      (random : ℕ) (config : TcpConfig) (w : TcpSocket A E)
      → config.recv_capacity < 2 ^ 30
      → w.thread_data.fd ≡ fd
      → log.given fd w.system ≡ []
      → Good (record w { tcp = some (Peer.init random config) })
  started random config w small ht hg = record {
    thread = ht;
    held = λ short. record {
      given = subst (Agree src 0) (sym hg) tt;
      peer = λ p e.
          subst (λ l. HeldPeer src z (length l) p) (sym hg)
            (subst (HeldPeer src z 0) (some_injective e) (init-HeldPeer src z random config small));
    };
  }

  initialize-Good :
      (random : ℕ) (config : TcpConfig) (n1 n2 n3 n4 : List ℕ) (past_end capacity : ℕ)
      (w : TcpSocket A E)
      → config.recv_capacity < 2 ^ 30
      → w.thread_data.fd ≡ fd
      → log.given fd w.system ≡ []
      → After
          (λ (t : EventLoop (TcpSocket A E) × TcpSocket A E). GoodLoop t.0 × Good t.1)
          (initialize sys ad random config n1 n2 n3 n4 past_end (init capacity) w)
  unfolding initialize init
  initialize-Good random config n1 n2 n3 n4 past_end capacity w small ht hg =
      let Q : ℕ × EventLoop (TcpSocket A E) → Type 0 = λ r. GoodLoop r.1 in
      let R : EventLoop (TcpSocket A E) × TcpSocket A E → Type 0 = λ t. GoodLoop t.0 × Good t.1 in
      After-bind R Q _ _
        (After-bind Q Q _ _
          (After-bind Q Q _ _
            (After-bind Q Q _ _
              (add_named_rule-IsLoop Good Then Nothing n1 _ _ _ _ _ _ _
                (record { fd_rules = tt; non_fd_rules = tt })
                (λ w0 v i t _ d. receive_rule-Delivers sys log fd src z word ad honest past_end v d)
                (λ v d. (d, tt)) (λ v d. (d, tt)))
              (λ r k.
                add_named_rule-IsLoop Good Then Nothing n2 _ _ _ _ _ _ _ k
                  (λ w0 v i t _ d. calm v _ (push_rule-Quiet sys log fd ad v) d)
                  (λ v d. with_Then v _ (calm v _ (push_cancel-Quiet sys log fd ad v) d))
                  (λ v d. (d, tt))))
            (λ r k.
              add_named_rule-IsLoop Good Then Nothing n3 _ _ _ _ _ _ _ k
                (λ w0 v i t _ d. deliver_rule-Delivers sys log fd src z word v ad d)
                (λ v d. (d, tt)) (λ v d. (d, tt))))
          (λ r k.
            add_named_rule-IsLoop Good Then Nothing n4 _ _ _ _ _ _ _ k
              (λ w0 v i t _ d. calm v _ (send_rule-Quiet sys log fd src z ad honest v) d)
              (λ v d. (d, tt)) (λ v d. (d, tt))))
        (λ r k. (k, started random config w small ht hg))

  at_ok : {B : Type 0} (P : B → Type 0) {m : Outcome B} {b : B} → m ≡ ok b → After P m → P b
  at_ok P e h = subst (After P) e h

  Reaches-Good :
      {w0 : TcpSocket A E} {l : EventLoop (TcpSocket A E)} {w : TcpSocket A E}
      → Reaches sys ad w0 l w
      → w0.thread_data.fd ≡ fd
      → log.given fd w0.system ≡ []
      → GoodLoop l × Good w
  unfolding shut_local
  Reaches-Good {w0} (initializes random config n1 n2 n3 n4 past_end capacity small e) ht hg =
      at_ok (λ (t : EventLoop (TcpSocket A E) × TcpSocket A E). GoodLoop t.0 × Good t.1) e
        (initialize-Good random config n1 n2 n3 n4 past_end capacity w0 small ht hg)
  Reaches-Good (configures {w = w} a r) ht hg =
      let (k, d) = Reaches-Good r ht hg in
      (
        k,
        Quiet-Delivers sys log fd src z word w _
            (record { thread = refl; given = refl; tcp = λ p e. (p, e, SameInbound-refl p) }) d,
      )
  Reaches-Good (pushes {w = w} p q r e pushed collected) ht hg =
      let (k, d) = Reaches-Good r ht hg in
      let w1 : TcpSocket A E = record w { tcp = some q } in
      let quiet =
        Quiet-peer sys log fd w w1 p q refl refl e refl
          (at_ok (SameInbound p) pushed (push-SameInbound p)) in
      (
        k,
        at_ok Good collected (
            calm w1 _ (collect_segments-Quiet sys log fd w1)
              (Quiet-Delivers sys log fd src z word w w1 quiet d)),
      )
  Reaches-Good (waits {l = l} {w = w} poll r g e) ht hg =
      let (k, d) = Reaches-Good g ht hg in
      at_ok (λ (t : Result × EventLoop (TcpSocket A E) × TcpSocket A E). GoodLoop t.1 × Good t.2) e
        (wait_next_event-keeps Good Then Nothing (λ v. tt) (λ u v x s t. tt) poll l w
          (λ f direction v a. tt) k d)
  Reaches-Good (ticks {w = w} next_time base_time base' g e) ht hg =
      let (k, d) = Reaches-Good g ht hg in
      let Q : ℕ × TcpSocket A E → Type 0 = λ r. Good r.1 in
      (
        k,
        at_ok Q e (
            After-map (λ (r : ℕ × TcpSocket A E). Quiet sys log fd w r.1) Q _
              (tick_all-Quiet sys log fd src z ad honest next_time base_time w)
              (λ r c. Quiet-Delivers sys log fd src z word w r.1 c d)),
      )
  Reaches-Good (shuts {w = w} g e) ht hg =
      let (k, d) = Reaches-Good g ht hg in
      (
        k,
        at_ok Good e (
            After-bind Good
              (λ (r : FdWrapper × E).
                (r.0.fd ≡ w.local.fd) × (r.1 ≡ (sys.shutdown w.local.fd shut_rdwr w.system).1))
              (Descriptor.shutdown sys shut_rdwr w.local w.system) _
              (shutdown-After sys shut_rdwr w.local w.system)
              (λ r (same, end).
                Quiet-Delivers sys log fd src z word w _
                  (record {
                    thread = refl;
                    given =
                        ap (log.given fd) end ∙ log.given-shutdown w.local.fd fd shut_rdwr w.system;
                    tcp = λ p e'. (p, e', SameInbound-refl p);
                  })
                  d)),
      )
  Reaches-Good (resets {w = w} g) ht hg =
      let (k, d) = Reaches-Good g ht hg in
      (
        k,
        Quiet-Delivers sys log fd src z word w _
            (record { thread = refl; given = refl; tcp = λ p e. absurd (ground arith) }) d,
      )

  -- In every state that a TCPMinnowSocket reaches, whatever poll says, whenever the clock ticks and
  -- however the system calls end, the bytes given to the owner's end of the pair of sockets are the
  -- first bytes of the stream src of the other end, in order and each once, as long as they are fewer
  -- than 2^30: if nothing was given before, the receive capacity is below 2^30, and the adapter brings
  -- only segments of src that start below 2^31 - 1, in any order and as often as they come, or with RST,
  -- and writes nothing to the pair.
  pub Reaches-Agree :
      {w0 : TcpSocket A E} {l : EventLoop (TcpSocket A E)} {w : TcpSocket A E}
      → Reaches sys ad w0 l w
      → w0.thread_data.fd ≡ fd
      → log.given fd w0.system ≡ []
      → length (log.given fd w.system) < 2 ^ 30
      → Agree src 0 (log.given fd w.system)
  Reaches-Agree r ht hg short = ((Reaches-Good r ht hg).1.held short).given
