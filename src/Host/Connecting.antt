-- ===== src/Host/Connecting.antt =====
-- The loops of TCPMinnowSocket (util/tcp_minnow_socket.cc) as steps of its states.
use cs144_minnow.Base.{ℕ, ◌<◌, ◌^◌, ◌≡◌, refl, Bool, true, ◌||◌, some, List, [], ◌∷◌}
use cs144_minnow.Base.Outcome.{Outcome, ok, throws, stuck, undefined}
use cs144_minnow.Wire.Adapter.{FdAdapterConfig}
use cs144_minnow.Peer.{TcpPeer, TcpConfig}
use cs144_minnow.Peer
use cs144_minnow.Host.After.{After, After-if, After-bind, After-any, After-map}
use cs144_minnow.Host.Descriptor.{System}
use cs144_minnow.Host.EventLoop.{EventLoop, Result, is_exit, init}
use cs144_minnow.Host.Waiting.{wait_next_event}
use cs144_minnow.Host.TcpSocket.{Adapter, TcpSocket, on_peer, collect_segments}
use cs144_minnow.Host.TcpLoop.{
  Round, is_connecting, is_accepting, initialize, tick_all, tcp_loop, connect_peer, connect,
  listen_and_accept, tcp_main, shut_local,
}
use cs144_minnow.Host.Quiet.{After-elim, After-on_peer}
use cs144_minnow.Host.Running.{
  Reaches, initializes, configures, pushes, waits, ticks, shuts, resets,
}

After_ok {ℓ} : {A : Type ℓ} (m : Outcome A) → After (λ a. m ≡ ok a) m
After_ok (ok a) = refl
After_ok throws = tt
After_ok undefined = tt
After_ok stuck = tt

module _ {A E : Type 0} (sys : System E) (ad : Adapter A E) (w0 : TcpSocket A E) where
  abbrev Reached : EventLoop (TcpSocket A E) × TcpSocket A E → Type 0
  Reached t = Reaches sys ad w0 t.0 t.1

  -- If tcp_loop returns, then in a state that its rounds reach from the one that it began in.
  pub tcp_loop-Reaches :
      (condition : TcpSocket A E → Outcome Bool) (rounds : List (Round (TcpSocket A E)))
      (base_time : ℕ) (l : EventLoop (TcpSocket A E)) (w : TcpSocket A E)
      → Reaches sys ad w0 l w
      → After Reached (tcp_loop sys ad condition rounds base_time l w)
  unfolding tcp_loop
  tcp_loop-Reaches condition [] base_time l w g =
      After-bind Reached (λ _. Unit {0}) (condition w) _ (After-any (Unit {0}) (condition w) tt)
        (λ go _. After-if Reached go stuck (ok (l, w)) (λ _. tt) (λ _. g))
  tcp_loop-Reaches condition (r ∷ rounds) base_time l w g =
      After-bind Reached (λ _. Unit {0}) (condition w) _ (After-any (Unit {0}) (condition w) tt)
        (λ go _.
          After-if Reached go _ (ok (l, w))
            (λ _.
              After-bind Reached
                (λ (t : Result × EventLoop (TcpSocket A E) × TcpSocket A E).
                  wait_next_event r.polling l w ≡ ok t)
                (wait_next_event r.polling l w) _ (After_ok (wait_next_event r.polling l w))
                (λ t waited.
                  let g1 : Reaches sys ad w0 t.1 t.2 = waits r.polling t.0 g waited in
                  After-if Reached (is_exit t.0 || r.abort) (ok (t.1, t.2)) _ (λ _. g1)
                    (λ _.
                      After-bind Reached
                        (λ (u : ℕ × TcpSocket A E). tick_all sys ad r.now base_time t.2 ≡ ok u)
                        (tick_all sys ad r.now base_time t.2) _
                        (After_ok (tick_all sys ad r.now base_time t.2))
                        (λ u ticked.
                          tcp_loop-Reaches condition rounds u.0 t.1 u.1
                            (ticks r.now base_time u.0 g1 ticked)))))
            (λ _. g))

  connect_peer-Reaches :
      (c_ad : FdAdapterConfig) (rounds : List (Round (TcpSocket A E))) (start : ℕ)
      (l : EventLoop (TcpSocket A E)) (w : TcpSocket A E)
      → Reaches sys ad w0 l w
      → After Reached (connect_peer sys ad c_ad rounds start l w)
  unfolding connect_peer
  connect_peer-Reaches c_ad rounds start l w g =
      let w1 : TcpSocket A E = record w { adapter = ad.configure c_ad w.adapter } in
      let Pushed : TcpPeer → Type 0 =
        λ q. (p : TcpPeer) × (w1.tcp ≡ some p) × (Peer.push p ≡ ok q) in
      After-bind Reached Pushed (on_peer w1.tcp (λ p. Peer.push p)) _
        (After-on_peer Pushed w1.tcp _ (λ p e.
          After-map (λ q. Peer.push p ≡ ok q) Pushed (Peer.push p) (After_ok (Peer.push p))
            (λ q pushed. (p, e, pushed))))
        (λ q (p, e, pushed).
          let w2 : TcpSocket A E = record w1 { tcp = some q } in
          After-bind Reached (λ w3. collect_segments w2 ≡ ok w3) (collect_segments w2) _
            (After_ok (collect_segments w2))
            (λ w3 collected.
              After-bind Reached (λ _. Unit {0}) (is_connecting w3) _
                (After-any (Unit {0}) (is_connecting w3) tt)
                (λ one _.
                  After-if Reached one _ throws
                    (λ _.
                      tcp_loop-Reaches is_connecting rounds start l w3 (
                        pushes p q (configures (ad.configure c_ad w.adapter) g) e pushed collected))
                    (λ _. tt))))

  -- The thread that runs tcp_main, begun in a reached state, returns in one.
  pub tcp_main-Reaches :
      (rounds : List (Round (TcpSocket A E))) (start : ℕ) (l : EventLoop (TcpSocket A E))
      (w : TcpSocket A E)
      → Reaches sys ad w0 l w
      → After Reached (tcp_main sys ad rounds start l w)
  unfolding tcp_main
  tcp_main-Reaches rounds start l w g =
      After-elim Reached w.tcp throws _ (λ _. tt)
        (λ p e.
          After-bind Reached Reached _ _ (tcp_loop-Reaches (λ v. ok true) rounds start l w g)
            (λ t g1.
              After-bind Reached (λ w1. shut_local sys ad t.1 ≡ ok w1) (shut_local sys ad t.1) _
                (After_ok (shut_local sys ad t.1))
                (λ w1 shut.
                  After-elim Reached w1.tcp throws _ (λ _. tt) (λ q e'. resets (shuts g1 shut)))))

  module _ (random : ℕ) (c_tcp : TcpConfig) (c_ad : FdAdapterConfig) (n1 n2 n3 n4 : List ℕ)
      (past_end : ℕ) (rounds : List (Round (TcpSocket A E))) (start capacity : ℕ)
      (small : c_tcp.recv_capacity < 2 ^ 30) where
    -- If connect returns, the state is reached.
    pub connect-Reaches :
        After Reached
          (connect sys ad random c_tcp c_ad n1 n2 n3 n4 past_end rounds start (init capacity) w0)
    unfolding connect
    connect-Reaches =
        let made = initialize sys ad random c_tcp n1 n2 n3 n4 past_end (init capacity) w0 in
        After-elim Reached w0.tcp _ _
          (λ _.
            After-bind Reached (λ (t : EventLoop (TcpSocket A E) × TcpSocket A E). made ≡ ok t) made
              _ (After_ok made)
              (λ t e.
                connect_peer-Reaches c_ad rounds start t.0 t.1
                  (initializes random c_tcp n1 n2 n3 n4 past_end capacity small e)))
          (λ p e. tt)

    pub listen_and_accept-Reaches : After Reached (
        listen_and_accept sys ad random c_tcp c_ad n1 n2 n3 n4 past_end rounds start
          (init capacity)
          w0)
    unfolding listen_and_accept
    listen_and_accept-Reaches =
        let made = initialize sys ad random c_tcp n1 n2 n3 n4 past_end (init capacity) w0 in
        After-elim Reached w0.tcp _ _
          (λ _.
            After-bind Reached (λ (t : EventLoop (TcpSocket A E) × TcpSocket A E). made ≡ ok t) made
              _ (After_ok made)
              (λ t e. tcp_loop-Reaches is_accepting rounds start t.0 _ (
                configures (ad.set_listening true (ad.configure c_ad t.1.adapter))
                  (initializes random c_tcp n1 n2 n3 n4 past_end capacity small e))))
          (λ p e. tt)
