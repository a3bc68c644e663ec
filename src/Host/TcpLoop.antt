-- ===== src/Host/TcpLoop.antt =====
-- TCPMinnowSocket's loop, and how a socket is connected (util/tcp_minnow_socket.cc). The thread that
-- runs tcp_main, and joining it, belong to the system.
use cs144_minnow.Base.{
  ℕ, Bool, true, false, not, ◌||◌, none, some, List, [], ◌∷◌, ltb, ◌==◌, if◌then◌else◌, sub64,
}
use cs144_minnow.Base.Outcome.{Outcome, ok, throws, stuck, ◌>>=◌}
use cs144_minnow.Sender.{sequence_numbers_in_flight}
use cs144_minnow.Wire.Adapter.{FdAdapterConfig}
use cs144_minnow.Peer.{TcpConfig, TcpPeer, active, has_ackno}
use cs144_minnow.Peer
use cs144_minnow.Host.Descriptor.{System, Call, FdWrapper, set_blocking, shut_rdwr}
use cs144_minnow.Host.Descriptor
use cs144_minnow.Host.EventLoop.{EventLoop, reading, writing, is_exit, add_named_rule}
use cs144_minnow.Host.Waiting.{Polling, wait_next_event}
use cs144_minnow.Host.TcpSocket.{
  Adapter, TcpSocket, on_peer, collect_segments, receive_rule, receive_interest, push_rule,
  push_interest, push_cancel, deliver_rule, deliver_interest, send_rule, send_interest,
}

-- What the system says in a round of the loop: what poll and getsockopt answer, whether the owner has
-- set _abort, and the time then in milliseconds.
pub record Round (W : Type 0) : Type 0 where
  pub polling : Polling W
  pub abort : Bool
  pub now : ℕ

module _ {A E : Type 0} where
  -- The default for cancel and for recover.
  abbrev pub no_cancellation : TcpSocket A E → Outcome (TcpSocket A E)
  no_cancellation w = ok w

  abbrev pub no_recovery : TcpSocket A E → Bool × TcpSocket A E
  no_recovery w = (false, w)

  -- The conditions of the loop while it connects, and while it waits for a connection.
  abbrev pub is_connecting : TcpSocket A E → Outcome Bool
  is_connecting w = on_peer w.tcp (λ p. ok (sequence_numbers_in_flight p.sender == 1))

  abbrev pub is_accepting : TcpSocket A E → Outcome Bool
  is_accepting w =
      on_peer w.tcp (λ p. ok (not (has_ackno p) || ltb 0 (sequence_numbers_in_flight p.sender)))

  module _ (sys : System E) (ad : Adapter A E) where
    -- _initialize_TCP, given the names of the categories and what Reassembler.insert reads at end().
    unfoldable pub initialize :
        ℕ
        → TcpConfig
        → List ℕ
        → List ℕ
        → List ℕ
        → List ℕ
        → ℕ
        → EventLoop (TcpSocket A E)
        → TcpSocket A E
        → Outcome (EventLoop (TcpSocket A E) × TcpSocket A E)
    initialize random config name_1 name_2 name_3 name_4 past_end l w =
        add_named_rule name_1 (λ v. ad.fd v.adapter) reading (receive_rule sys ad past_end)
          (receive_interest sys ad) no_cancellation no_recovery l
        >>= (λ r1.
            add_named_rule name_2 (λ v. v.thread_data) reading (push_rule sys ad)
              (push_interest sys ad) (push_cancel sys ad) no_recovery r1.1)
        >>= (λ r2.
            add_named_rule name_3 (λ v. v.thread_data) writing (deliver_rule sys ad)
              (deliver_interest sys ad) no_cancellation no_recovery r2.1)
        >>= (λ r3.
            add_named_rule name_4 (λ v. ad.fd v.adapter) writing (send_rule sys ad)
              (send_interest sys ad) no_cancellation no_recovery r3.1)
        >>= (λ r4. ok (r4.1, record w { tcp = some (Peer.init random config) }))

    -- The end of a round: the base time, and the socket.
    unfoldable pub tick_all : ℕ → ℕ → TcpSocket A E → Outcome (ℕ × TcpSocket A E)
    tick_all next_time base_time w = elim w.tcp [
      | none ↦ throws
      | some p ↦
          let ms = sub64 next_time base_time in
          let ticked : Outcome (ℕ × TcpSocket A E) = Peer.tick ms p >>= λ p1.
          collect_segments (record w { tcp = some p1 }) >>= λ w1.
          ad.tick ms w1.adapter w1.system >>= λ r.
          ok (next_time, record w1 { adapter = r.0; system = r.1 }) in
          if active p then ticked else ok (base_time, w)
    ]

    -- _tcp_loop, for the rounds that the system gives.
    unfoldable pub tcp_loop :
        (TcpSocket A E → Outcome Bool)
        → List (Round (TcpSocket A E))
        → ℕ
        → EventLoop (TcpSocket A E)
        → TcpSocket A E
        → Outcome (EventLoop (TcpSocket A E) × TcpSocket A E)
    tcp_loop condition [] base_time l w = condition w >>= λ go. if go then stuck else ok (l, w)
    tcp_loop condition (r ∷ rounds) base_time l w =
        let waited = wait_next_event r.polling l w >>= λ t.
        let ticked = tick_all r.now base_time t.2 >>= λ u. tcp_loop condition rounds u.0 t.1 u.1 in
        if is_exit t.0 || r.abort then ok (t.1, t.2) else ticked in
        condition w >>= λ go. if go then waited else ok (l, w)

    -- connect after _initialize_TCP.
    unfoldable pub connect_peer :
        FdAdapterConfig
        → List (Round (TcpSocket A E))
        → ℕ
        → EventLoop (TcpSocket A E)
        → TcpSocket A E
        → Outcome (EventLoop (TcpSocket A E) × TcpSocket A E)
    connect_peer c_ad rounds start l w =
        let w1 = record w { adapter = ad.configure c_ad w.adapter } in
        on_peer w1.tcp (λ p. Peer.push p) >>= λ p.
        collect_segments (record w1 { tcp = some p }) >>= λ w2.
        is_connecting w2 >>= λ one. if one then tcp_loop is_connecting rounds start l w2 else throws

    -- start is the time before the loop.
    unfoldable pub connect :
        ℕ
        → TcpConfig
        → FdAdapterConfig
        → List ℕ
        → List ℕ
        → List ℕ
        → List ℕ
        → ℕ
        → List (Round (TcpSocket A E))
        → ℕ
        → EventLoop (TcpSocket A E)
        → TcpSocket A E
        → Outcome (EventLoop (TcpSocket A E) × TcpSocket A E)
    connect random c_tcp c_ad name_1 name_2 name_3 name_4 past_end rounds start l w = elim w.tcp [
      | some p ↦ throws
      | none ↦ initialize random c_tcp name_1 name_2 name_3 name_4 past_end l w >>= λ t.
          connect_peer c_ad rounds start t.0 t.1
    ]

    unfoldable pub listen_and_accept :
        ℕ
        → TcpConfig
        → FdAdapterConfig
        → List ℕ
        → List ℕ
        → List ℕ
        → List ℕ
        → ℕ
        → List (Round (TcpSocket A E))
        → ℕ
        → EventLoop (TcpSocket A E)
        → TcpSocket A E
        → Outcome (EventLoop (TcpSocket A E) × TcpSocket A E)
    listen_and_accept random c_tcp c_ad name_1 name_2 name_3 name_4 past_end rounds start l w =
        elim w.tcp [
          | some p ↦ throws
          | none ↦ initialize random c_tcp name_1 name_2 name_3 name_4 past_end l w >>= λ t.
              let w1 = record (t.1) {
                adapter = ad.set_listening true (ad.configure c_ad (t.1).adapter);
              } in
              tcp_loop is_accepting rounds start t.0 w1
        ]

    -- shutdown( SHUT_RDWR ) on the owner's end, which wait_until_closed calls too before it joins.
    unfoldable pub shut_local : TcpSocket A E → Outcome (TcpSocket A E)
    shut_local w = Descriptor.shutdown sys shut_rdwr w.local w.system >>= λ r.
        ok (record w { local = r.0; system = r.1 })

    -- value() of an empty optional throws.
    unfoldable pub tcp_main :
        List (Round (TcpSocket A E))
        → ℕ
        → EventLoop (TcpSocket A E)
        → TcpSocket A E
        → Outcome (EventLoop (TcpSocket A E) × TcpSocket A E)
    tcp_main rounds start l w = elim w.tcp [
      | none ↦ throws
      | some p ↦ tcp_loop (λ v. ok true) rounds start l w >>= λ t. shut_local t.1 >>= λ w1.
          elim w1.tcp [ none ↦ throws | some q ↦ ok (t.0, record w1 { tcp = none }) ]
    ]
