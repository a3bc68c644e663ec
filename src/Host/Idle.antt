-- ===== src/Host/Idle.antt =====
-- EventLoop::wait_next_event when there is nothing to serve, and when a rule stays interested
-- (util/eventloop.cc).
use cs144_minnow.Base.{
  ℕ, zero, suc, ◌≡◌, ◌⊎◌, inl, inr, refl, Bool, true, false, ◌||◌, List, [], ◌∷◌, ◌++◌, All,
  if◌then◌else◌, arith,
}
use cs144_minnow.Base.Outcome.{ok, throws}
use cs144_minnow.Host.EventLoop.{timeout, exit, BasicRule, FdRule, EventLoop}
use cs144_minnow.Host.Waiting.{
  Polling, PollFd, Revents, polled, is_over, poll_fd, fire, serve_rules, set_up, after_poll,
  wait_next_event,
}

module _ {W : Type 0} where
  -- The rules that nobody cancelled.
  unfoldable pub live_basic : List (BasicRule W) → List (BasicRule W)
  live_basic [] = []
  live_basic (r ∷ rs) = if r.cancel_requested then live_basic rs else r ∷ live_basic rs

  unfoldable pub live_fd : List (FdRule W) → List (FdRule W)
  live_fd [] = []
  live_fd (r ∷ rs) = if r.base.cancel_requested then live_fd rs else r ∷ live_fd rs

  unfoldable pub some_interested : List (FdRule W) → W → Bool
  some_interested [] w = false
  some_interested (r ∷ rs) w = r.base.interest w || some_interested rs w

  poll_fds : List (FdRule W) → W → List PollFd
  poll_fds [] w = []
  poll_fds (r ∷ rs) w = poll_fd r w ∷ poll_fds rs w

  -- Nothing to serve: the rule is cancelled or not interested.
  abbrev pub IsQuiet : W → BasicRule W → Type 0
  IsQuiet w r = (r.cancel_requested ≡ true) ⊎ (r.interest w ≡ false)

  -- The rule is cancelled or has not come to its end.
  abbrev pub IsOpen : W → FdRule W → Type 0
  IsOpen w r = (r.base.cancel_requested ≡ true) ⊎ (is_over r w ≡ false)

  serve_rules_quiet :
      (rs : List (BasicRule W)) (w : W)
      → All (IsQuiet w) rs
      → serve_rules rs w ≡ ok (false, live_basic rs, w)
  unfolding serve_rules live_basic fire
  serve_rules_quiet [] w q = refl
  serve_rules_quiet (r ∷ rs) w (inl e, qs) = rw (e, serve_rules_quiet rs w qs) refl
  serve_rules_quiet (r ∷ rs) w (inr e, qs) = rw (e, serve_rules_quiet rs w qs) (ground arith)

  set_up_open :
      (rs : List (FdRule W)) (w : W)
      → All (IsOpen w) rs
      → let live = live_fd rs in set_up rs w ≡ ok (live, poll_fds live w, some_interested live w, w)
  unfolding set_up live_fd poll_fds some_interested
  set_up_open [] w q = refl
  set_up_open (r ∷ rs) w (inl e, qs) = rw (e, set_up_open rs w qs) refl
  set_up_open (r ∷ rs) w (inr e, qs) = rw (e, set_up_open rs w qs) (ground arith)

  -- With nothing to serve, no descriptor's rule at its end, and nothing ready, wait_next_event
  -- removes the cancelled rules and calls no callback: it returns Exit if no rule left is interested,
  -- and Timeout otherwise.
  pub wait_next_event-idle :
      (sys : Polling W) (l : EventLoop W) (w : W)
      → All (IsQuiet w) l.non_fd_rules
      → All (IsOpen w) l.fd_rules
      → ((ps : List PollFd) → (vs : List Revents) × (sys.poll ps w ≡ polled 0 vs))
      → wait_next_event sys l w
        ≡ ok (
          if some_interested (live_fd l.fd_rules) w then timeout else exit,
          record l { fd_rules = live_fd l.fd_rules; non_fd_rules = live_basic l.non_fd_rules },
          w,
        )
  unfolding wait_next_event after_poll
  wait_next_event-idle sys l w q o quiet =
      let live = live_fd l.fd_rules in
      let (vs, e) = quiet (poll_fds live w) in
      rw (serve_rules_quiet l.non_fd_rules w q, set_up_open l.fd_rules w o, e) (ground arith)

  -- A callback that leaves its rule interested, again and again.
  pub record IsBusy (P : W → Type 0) (r : BasicRule W) : Type 0 where
    pub interested : (w : W) → P w → r.interest w ≡ true
    pub callback : (w : W) → P w → (w' : W) × (r.callback w ≡ ok w') × P w'

  fire_busy :
      (P : W → Type 0) (left : ℕ) (r : BasicRule W) (fired : Bool) (w : W)
      → IsBusy P r
      → P w
      → fire left r fired w ≡ throws
  unfolding fire
  fire_busy P zero r fired w b h = rw (b.interested w h) refl
  fire_busy P (suc left) r fired w b h =
      let (w', e, h') = b.callback w h in rw (b.interested w h, e) (fire_busy P left r true w' b h')

  fire_quiet : (r : BasicRule W) (w : W) → r.interest w ≡ false → fire 128 r false w ≡ ok (false, w)
  unfolding fire
  fire_quiet r w e = rw e refl

  serve_rules_busy :
      (P : W → Type 0) (before : List (BasicRule W)) (r : BasicRule W) (after : List (BasicRule W))
      (w : W)
      → All (IsQuiet w) before
      → r.cancel_requested ≡ false
      → IsBusy P r
      → P w
      → serve_rules (before ++ (r ∷ after)) w ≡ throws
  unfolding serve_rules fire
  serve_rules_busy P [] r after w q live b h = rw (live, fire_busy P 128 r false w b h) refl
  serve_rules_busy P (x ∷ before) r after w (inl e, qs) live b h =
      rw e (serve_rules_busy P before r after w qs live b h)
  serve_rules_busy P (x ∷ before) r after w (inr e, qs) live b h =
      rw (fire_quiet x w e, serve_rules_busy P before r after w qs live b h) (ground arith)

  -- A rule without a descriptor that stays interested whenever its callback is called does not hang
  -- the loop: if it is not cancelled and no rule before it has anything to do, wait_next_event throws.
  pub busy_wait :
      (P : W → Type 0) (sys : Polling W) (l : EventLoop W) (before : List (BasicRule W))
      (r : BasicRule W) (after : List (BasicRule W)) (w : W)
      → l.non_fd_rules ≡ before ++ (r ∷ after)
      → All (IsQuiet w) before
      → r.cancel_requested ≡ false
      → IsBusy P r
      → P w
      → wait_next_event sys l w ≡ throws
  unfolding wait_next_event
  busy_wait P sys l before r after w e q live b h =
      rw (e, serve_rules_busy P before r after w q live b h) refl
