-- ===== src/Host/Keeps.antt =====
-- Invariants of the worlds that EventLoop::wait_next_event goes through (util/eventloop.cc).
use cs144_minnow.Base.{
  ℕ, zero, suc, ◌≡◌, ◌≢◌, refl, Bool, true, false, ◌||◌, Bool-cases, some, none, ◌⊎◌, inl, inr, sym,
  ap, ◌∙◌, List, [], ◌∷◌, All, ◌==◌,
}
use cs144_minnow.Base.Outcome.{ok, throws, ◌>>=◌}
use cs144_minnow.Host.After.{After, After-if, After-bind, After-map, After-any}
use cs144_minnow.Host.EventLoop.{Result, BasicRule, FdRule, EventLoop, Direction}
use cs144_minnow.Host.Waiting.{
  Polling, PollFd, Revents, Polled, poll_failed, polled, check_socket, serve, is_over, poll_fd,
  fire, serve_rules, set_up, dispatch, after_poll, wait_next_event, poll_ready,
}

true-false : true ≢ false
true-false e = cc

-- For one of the pollfds, which asks for the event on the descriptor, poll reports it.
abbrev pub Marked : ℕ → Direction → List PollFd → List Revents → Type 0
Marked fd d [] vs = ⊥
Marked fd d (p ∷ ps) [] = ⊥
Marked fd d (p ∷ ps) (v ∷ vs) =
    ((p.fd ≡ fd) × (p.events ≡ some d) × (poll_ready p.events v ≡ true)) ⊎ Marked fd d ps vs

-- poll announced the event on the descriptor, in a world that R has brought to w.
pub record Announced {W : Type 0} (sys : Polling W) (R : W → W → Type 0) (fd : ℕ) (d : Direction)
    (w : W) : Type 0 where
  pub pollfds : List PollFd
  pub world : W
  pub number : ℕ
  pub results : List Revents
  pub call : sys.poll pollfds world ≡ polled number results
  pub marked : Marked fd d pollfds results
  pub later : R world w

module _ {W : Type 0} (P : W → Type 0) (R : W → W → Type 0)
    (Told : ℕ → Direction → W → Type 0) where
  -- The callback keeps P, wherever the rule is interested.
  pub record IsBasic (r : BasicRule W) : Type 0 where
    pub callback : (w : W) → P w → r.interest w ≡ true → After P (r.callback w)

  -- All that the rule calls keeps P, and its cancellation and its recovery do no more than R. The
  -- callback may count on what made the rule interested, but for what R allows, and on what poll told
  -- of the event on the descriptor that the rule had then.
  pub record IsFd (r : FdRule W) : Type 0 where
    pub callback :
        (w0 w : W)
        → r.base.interest w0 ≡ true
        → R w0 w
        → Told (r.fd w0).fd r.direction w
        → P w
        → After P (r.base.callback w)
    pub cancel : (w : W) → P w → After (λ w'. P w' × R w w') (r.cancel w)
    pub recover : (w : W) → P w → P (r.recover w).1 × R w (r.recover w).1

  pub record IsLoop (l : EventLoop W) : Type 0 where
    pub fd_rules : All IsFd l.fd_rules
    pub non_fd_rules : All IsBasic l.non_fd_rules

  fire-keeps :
      (left : ℕ) (r : BasicRule W) (fired : Bool) (w : W)
      → IsBasic r
      → P w
      → After (λ t. P t.1) (fire left r fired w)
  unfolding fire
  fire-keeps zero r fired w k h =
      After-if (λ t. P t.1) (r.interest w) throws (ok (fired, w)) (λ _. tt) (λ _. h)
  fire-keeps (suc left) r fired w k h =
      After-if (λ t. P t.1) (r.interest w) (r.callback w >>= λ w'. fire left r true w')
        (ok (fired, w))
        (λ e.
          After-bind (λ t. P t.1) P (r.callback w) (λ w'. fire left r true w') (k.callback w h e)
            (λ w' h'. fire-keeps left r true w' k h'))
        (λ _. h)

  abbrev Served : Bool × List (BasicRule W) × W → Type 0
  Served t = All IsBasic t.1 × P t.2

  serve_rules-keeps :
      (rs : List (BasicRule W)) (w : W) → All IsBasic rs → P w → After Served (serve_rules rs w)
  unfolding serve_rules
  serve_rules-keeps [] w k h = (tt, h)
  serve_rules-keeps (r ∷ rs) w (k, ks) h =
      After-if Served r.cancel_requested (serve_rules rs w) _ (λ _. serve_rules-keeps rs w ks h)
        (λ _.
          After-bind Served (λ t. P t.1) (fire 128 r false w) _ (fire-keeps 128 r false w k h)
            (λ f hf.
              After-if Served f.0 (ok (true, r ∷ rs, f.1)) _ (λ _. ((k, ks), hf))
                (λ _.
                  After-bind Served Served (serve_rules rs f.1) _ (serve_rules-keeps rs f.1 ks hf)
                    (λ t ht. ((k, ht.0), ht.1)))))

  module _ (R_refl : (w : W) → R w w) (R_trans : (u v w : W) → R u v → R v w → R u w) where
    -- Why the pollfd asks for an event.
    abbrev Asked : FdRule W → PollFd → W → Type 0
    Asked r p w =
        (p.events ≡ none)
        ⊎ ((w0 : W) × (r.base.interest w0 ≡ true)
            × (p.fd ≡ (r.fd w0).fd)
            × (p.events ≡ some r.direction)
            × R w0 w)

    abbrev Asking : List (FdRule W) → List PollFd → W → Type 0
    Asking [] ps w = Unit
    Asking (r ∷ rs) [] w = Unit
    Asking (r ∷ rs) (p ∷ ps) w = Asked r p w × Asking rs ps w

    Asked-later : (r : FdRule W) (p : PollFd) (w w' : W) → R w w' → Asked r p w → Asked r p w'
    Asked-later r p w w' later (inl e) = inl e
    Asked-later r p w w' later (inr (w0, e, f, d, h)) = inr (w0, e, f, d, R_trans w0 w w' h later)

    Asking-later :
        (rs : List (FdRule W)) (ps : List PollFd) (w w' : W)
        → R w w'
        → Asking rs ps w
        → Asking rs ps w'
    Asking-later [] ps w w' later a = tt
    Asking-later (r ∷ rs) [] w w' later a = tt
    Asking-later (r ∷ rs) (p ∷ ps) w w' later (a, rest) =
        (Asked-later r p w w' later a, Asking-later rs ps w w' later rest)

    Asked-now : (r : FdRule W) (w w' : W) → R w w' → Asked r (poll_fd r w) w'
    Asked-now r w w' later = elim (Bool-cases (r.base.interest w)) [
      | inl e ↦ inr (w, e, refl, rw e refl, later)
      | inr e ↦ inl (rw e refl)
    ]

    abbrev SetUp : W → List (FdRule W) × List PollFd × Bool × W → Type 0
    SetUp w t = All IsFd t.0 × P t.3 × R w t.3 × Asking t.0 t.1 t.3

    set_up-keeps :
        (rs : List (FdRule W)) (w : W) → All IsFd rs → P w → After (SetUp w) (set_up rs w)
    unfolding set_up
    set_up-keeps [] w k h = (tt, h, R_refl w, tt)
    set_up-keeps (r ∷ rs) w (k, ks) h =
        After-if (SetUp w) r.base.cancel_requested (set_up rs w) _ (λ _. set_up-keeps rs w ks h)
          (λ _.
            After-if (SetUp w) (is_over r w) (r.cancel w >>= λ w'. set_up rs w') _
              (λ _.
                After-bind (SetUp w) (λ w'. P w' × R w w') (r.cancel w) (λ w'. set_up rs w')
                  (k.cancel w h)
                  (λ w' h'.
                    After-map (SetUp w') (SetUp w) (set_up rs w') (set_up-keeps rs w' ks h'.0)
                      (λ t (a, b, c, d). (a, b, R_trans w w' t.3 h'.1 c, d))))
              (λ _.
                After-bind (SetUp w) (SetUp w) (set_up rs w) _ (set_up-keeps rs w ks h)
                  (λ t (a, b, c, d). ((k, a), b, c, (Asked-now r w t.3 c, d)))))

    abbrev Dispatched : List (FdRule W) × W → Type 0
    Dispatched t = All IsFd t.0 × P t.1

    serve-keeps :
        (r : FdRule W) (p : PollFd) (v : Revents) (w : W)
        → IsFd r
        → Asked r p w
        → poll_ready p.events v ≡ true
        → ((fd : ℕ) (d : Direction) → p.fd ≡ fd → p.events ≡ some d → Told fd d w)
        → P w
        → After P (serve r w)
    serve-keeps r p v w k (inl e) ready told h =
        absurd (true-false (sym ready ∙ ap (λ events. poll_ready events v) e))
    serve-keeps r p v w k (inr (w0, e, f, d, later)) ready told h =
        After-bind P P (r.base.callback w) _
          (k.callback w0 w e later (told (r.fd w0).fd r.direction f d) h)
          (λ w' h'. After-if P _ throws (ok w') (λ _. tt) (λ _. h'))

    -- What poll reported for the pollfds ps is part of what it reported for all of them.
    module _ (sys : Polling W)
        (tells : (fd : ℕ) (d : Direction) (w : W) → Announced sys R fd d w → Told fd d w)
        (all_ps : List PollFd) (all_vs : List Revents) (number : ℕ) (w0 : W)
        (call : sys.poll all_ps w0 ≡ polled number all_vs) where
      abbrev Reports : List PollFd → List Revents → Type 0
      Reports ps vs = (fd : ℕ) (d : Direction) → Marked fd d ps vs → Marked fd d all_ps all_vs

      dispatch-keeps :
          (rs : List (FdRule W)) (ps : List PollFd) (vs : List Revents) (w : W)
          → All IsFd rs
          → Asking rs ps w
          → Reports ps vs
          → R w0 w
          → P w
          → After Dispatched (dispatch sys rs ps vs w)
      unfolding dispatch
      dispatch-keeps [] ps vs w k a told since h = (tt, h)
      dispatch-keeps (r ∷ rs) [] vs w k a told since h = tt
      dispatch-keeps (r ∷ rs) (p ∷ ps) [] w k a told since h = tt
      dispatch-keeps (r ∷ rs) (p ∷ ps) (v ∷ vs) w (k, ks) (a, rest) told since h =
          let next = λ (w' : W) (h' : P w' × R w w').
            dispatch-keeps rs ps vs w' ks (Asking-later rs ps w w' h'.1 rest)
              (λ fd d m. told fd d (inr m)) (R_trans w0 w w' since h'.1) h'.0 in
          let keep = λ (w' : W) (h' : P w' × R w w').
            After-bind Dispatched Dispatched (dispatch sys rs ps vs w') (λ t. ok (r ∷ t.0, t.1))
              (next w' h') (λ t ht. ((k, ht.0), ht.1)) in
          let erase = λ (w' : W) (h' : P w' × R w w').
            After-bind Dispatched (λ w''. P w'' × R w' w'') (r.cancel w')
              (λ w''. dispatch sys rs ps vs w'') (k.cancel w' h'.0)
              (λ w'' h''. next w'' (h''.0, R_trans w w' w'' h'.1 h''.1)) in
          let defunct = λ (w' : W) (h' : P w' × R w w').
            let checked = check_socket (sys.getsockopt (r.fd w').fd w') in
            After-bind Dispatched (λ _. P w' × R w w') checked
              (λ _. r.cancel w' >>= λ w''. dispatch sys rs ps vs w'')
              (After-any (P w' × R w w') checked h') (λ _ h''. erase w' h'') in
          let here : P w × R w w = (h, R_refl w) in
          After-if Dispatched (v.err || v.nval) _ _
            (λ _.
              After-if Dispatched v.nval _ _ (λ _. defunct w here)
                (λ _.
                  After-if Dispatched (r.recover w).0 _ _
                    (λ _. keep (r.recover w).1 (k.recover w h))
                    (λ _. defunct (r.recover w).1 (k.recover w h))))
            (λ _.
              After-if Dispatched _ _ _ (λ _. erase w here)
                (λ _.
                  After-if Dispatched (poll_ready p.events v) _ _
                    (λ ready.
                      After-bind Dispatched P (serve r w) (λ w'. ok (r ∷ rs, w'))
                        (serve-keeps r p v w k a ready
                          (λ fd d f e. tells fd d w (record {
                            pollfds = all_ps;
                            world = w0;
                            number = number;
                            results = all_vs;
                            call = call;
                            marked = told fd d (inl (f, e, ready));
                            later = since;
                          }))
                          h)
                        (λ w' h'. ((k, ks), h')))
                    (λ _. keep w here)))

    abbrev PolledOn : Result × List (FdRule W) × W → Type 0
    PolledOn t = All IsFd t.1 × P t.2

    after_poll-keeps :
        (sys : Polling W)
        (tells : (fd : ℕ) (d : Direction) (w : W) → Announced sys R fd d w → Told fd d w)
        (result : Polled) (rs : List (FdRule W)) (ps : List PollFd) (w : W)
        → sys.poll ps w ≡ result
        → All IsFd rs
        → Asking rs ps w
        → P w
        → After PolledOn (after_poll sys result rs ps w)
    unfolding after_poll
    after_poll-keeps sys tells poll_failed rs ps w call k a h = tt
    after_poll-keeps sys tells (polled n vs) rs ps w call k a h =
        After-if PolledOn (n == 0) _ _ (λ _. (k, h))
          (λ _.
            After-bind PolledOn Dispatched (dispatch sys rs ps vs w) _
              (dispatch-keeps sys tells ps vs n w call rs ps vs w k a (λ fd d m. m) (R_refl w) h)
              (λ t ht. ht))

    -- wait_next_event keeps P, if the callbacks of its rules keep it: every callback of a rule without
    -- a descriptor where the rule is interested, every cancellation and recovery of a rule with one,
    -- which moreover stay within R, and its callback wherever it was interested in a world that R has
    -- brought here and Told holds of its event, which follows from poll having announced it in another
    -- such world. The rules left are such rules again. R is reflexive and transitive.
    pub wait_next_event-keeps :
        (sys : Polling W) (l : EventLoop W) (w : W)
        → ((fd : ℕ) (d : Direction) (w : W) → Announced sys R fd d w → Told fd d w)
        → IsLoop l
        → P w
        → After (λ (t : Result × EventLoop W × W). IsLoop t.1 × P t.2) (wait_next_event sys l w)
    unfolding wait_next_event
    wait_next_event-keeps sys l w tells k h =
        let Q : Result × EventLoop W × W → Type 0 = λ t. IsLoop t.1 × P t.2 in
        After-bind Q Served (serve_rules l.non_fd_rules w) _
          (serve_rules-keeps l.non_fd_rules w k.non_fd_rules h)
          (λ s hs.
            After-if Q s.0 _ _ (λ _. (record { fd_rules = k.fd_rules; non_fd_rules = hs.0 }, hs.1))
              (λ _.
                After-bind Q (SetUp s.2) (set_up l.fd_rules s.2) _
                  (set_up-keeps l.fd_rules s.2 k.fd_rules hs.1)
                  (λ t (rs, ht, later, a).
                    After-if Q t.2 _ _
                      (λ _.
                        After-bind Q PolledOn (after_poll sys (sys.poll t.1 t.3) t.0 t.1 t.3) _
                          (after_poll-keeps sys tells (sys.poll t.1 t.3) t.0 t.1 t.3 refl rs a ht)
                          (λ d hd. (record { fd_rules = hd.0; non_fd_rules = hs.0 }, hd.1)))
                      (λ _. (record { fd_rules = rs; non_fd_rules = hs.0 }, ht)))))

-- Rounds of a loop around wait_next_event.
pub data Rounds {W : Type 0} (sys : Polling W) (l : EventLoop W) (w : W)
    : EventLoop W → W → Type 0 where
  here : Rounds sys l w l w
  next :
      {l1 l2 : EventLoop W} {w1 w2 : W} {r : Result}
      → Rounds sys l w l1 w1
      → wait_next_event sys l1 w1 ≡ ok (r, l2, w2)
      → Rounds sys l w l2 w2
