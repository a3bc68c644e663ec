-- ===== src/Host/Waiting.antt =====
-- EventLoop::wait_next_event (util/eventloop.cc), over what poll and getsockopt say.
use cs144_minnow.Base.{
  ℕ, zero, suc, Bool, true, false, not, ◌&&◌, ◌||◌, Option, none, some, List, [], ◌∷◌, ◌==◌,
  if◌then◌else◌,
}
use cs144_minnow.Base.Outcome.{Outcome, ok, throws, ◌>>=◌}
use cs144_minnow.Host.EventLoop.{
  Direction, reading, writing, is_reading, is_writing, Result, success, timeout, exit, BasicRule,
  FdRule, EventLoop,
}

-- A pollfd; events is none for a placeholder.
pub record PollFd : Type 0 where
  pub fd : ℕ
  pub events : Option Direction

-- The bits of revents: POLLIN, POLLOUT, POLLERR, POLLHUP and POLLNVAL.
pub record Revents : Type 0 where
  pub readable : Bool
  pub writable : Bool
  pub err : Bool
  pub hup : Bool
  pub nval : Bool

-- poll fails, or returns a number and the revents of each pollfd.
pub data Polled : Type 0 where
  poll_failed : Polled
  polled : ℕ → List Revents → Polled

-- getsockopt( SO_ERROR ): ENOTSOCK, another failure, or a length of the option and the error.
pub data SocketError : Type 0 where
  not_a_socket getsockopt_failed : SocketError
  socket_error : Bool → ℕ → SocketError

pub record Polling (W : Type 0) : Type 0 where
  pub poll : List PollFd → W → Polled
  pub getsockopt : ℕ → W → SocketError

-- The checks of an error on a descriptor that is not recovered.
abbrev pub check_socket : SocketError → Outcome Bool
check_socket not_a_socket = ok true
check_socket getsockopt_failed = throws
check_socket (socket_error error optlen) = if optlen == 4 then ok error else throws

abbrev pub poll_ready : Option Direction → Revents → Bool
poll_ready none v = false
poll_ready (some reading) v = v.readable
poll_ready (some writing) v = v.writable

abbrev pub asked : Option Direction → Bool
asked none = false
asked (some d) = true

module _ {W : Type 0} where
  -- The while loop of a rule without a descriptor, for 128 less its iterations, with rule_fired.
  unfoldable pub fire : ℕ → BasicRule W → Bool → W → Outcome (Bool × W)
  fire zero r fired w = if r.interest w then throws else ok (fired, w)
  fire (suc left) r fired w =
      let again = r.callback w >>= λ w'. fire left r true w' in
      if r.interest w then again else ok (fired, w)

  -- The first loop: whether a rule was served, and the rules left.
  unfoldable pub serve_rules : List (BasicRule W) → W → Outcome (Bool × List (BasicRule W) × W)
  serve_rules [] w = ok (false, [], w)
  serve_rules (r ∷ rs) w =
      let rest = serve_rules rs w in
      let kept = fire 128 r false w >>= λ f.
      if f.0 then ok (true, r ∷ rs, f.1) else serve_rules rs f.1 >>= λ t. ok (t.0, r ∷ t.1, t.2) in
      if r.cancel_requested then rest else kept

  abbrev pub service_count : FdRule W → W → ℕ
  service_count r w = if is_reading r.direction then (r.fd w).read_count else (r.fd w).write_count

  -- The rule is at the end of its file, or its descriptor is closed.
  abbrev pub is_over : FdRule W → W → Bool
  is_over r w = (is_reading r.direction && (r.fd w).eof) || (r.fd w).closed

  abbrev pub poll_fd : FdRule W → W → PollFd
  poll_fd r w = record {
    fd = (r.fd w).fd;
    events = if r.base.interest w then some r.direction else none;
  }

  -- The loop that sets up the pollfds: the rules left, their pollfds, and something_to_poll.
  unfoldable pub set_up : List (FdRule W) → W → Outcome (List (FdRule W) × List PollFd × Bool × W)
  set_up [] w = ok ([], [], false, w)
  set_up (r ∷ rs) w =
      let erased = set_up rs w in
      let cancelled = r.cancel w >>= λ w'. set_up rs w' in
      let kept =
        set_up rs w >>= λ t. ok (r ∷ t.0, poll_fd r w ∷ t.1, r.base.interest w || t.2, t.3) in
      if r.base.cancel_requested then erased else (if is_over r w then cancelled else kept)

  -- The callback of a rule whose descriptor is ready.
  abbrev pub serve : FdRule W → W → Outcome W
  serve r w = r.base.callback w >>= λ w'.
      if service_count r w == service_count r w' && (not (r.fd w').closed && r.base.interest w')
      then throws
      else ok w'

  -- The loop over the results of poll.
  unfoldable pub dispatch :
      Polling W → List (FdRule W) → List PollFd → List Revents → W → Outcome (List (FdRule W) × W)
  dispatch sys [] ps vs w = ok ([], w)
  dispatch sys (r ∷ rs) [] vs w = throws
  dispatch sys (r ∷ rs) (p ∷ ps) [] w = throws
  dispatch sys (r ∷ rs) (p ∷ ps) (v ∷ vs) w =
      let next : W → Outcome (List (FdRule W) × W) = λ w'. dispatch sys rs ps vs w' in
      let keep : W → Outcome (List (FdRule W) × W) = λ w'. next w' >>= λ t. ok (r ∷ t.0, t.1) in
      let erase : W → Outcome (List (FdRule W) × W) = λ w'. r.cancel w' >>= next in
      let defunct : W → Outcome (List (FdRule W) × W) =
        λ w'. check_socket (sys.getsockopt (r.fd w').fd w') >>= λ e. erase w' in
      let recovered = r.recover w in
      let ready = poll_ready p.events v in
      if v.err || v.nval
      then (if v.nval
          then defunct w
          else (if recovered.0 then keep recovered.1 else defunct recovered.1))
      else (if v.hup && ((asked p.events && not ready) || is_writing r.direction)
          then erase w
          else (if ready then serve r w >>= (λ w'. ok (r ∷ rs, w')) else keep w))

  -- What wait_next_event does with the result of poll.
  unfoldable pub after_poll :
      Polling W
      → Polled
      → List (FdRule W)
      → List PollFd
      → W
      → Outcome (Result × List (FdRule W) × W)
  after_poll sys poll_failed rs ps w = throws
  after_poll sys (polled n vs) rs ps w =
      let served = dispatch sys rs ps vs w >>= λ t. ok (success, t.0, t.1) in
      if n == 0 then ok (timeout, rs, w) else served

  unfoldable pub wait_next_event : Polling W → EventLoop W → W → Outcome (Result × EventLoop W × W)
  wait_next_event sys l w = serve_rules l.non_fd_rules w >>= λ s.
      let l1 = record l { non_fd_rules = s.1 } in
      let polling = set_up l.fd_rules s.2 >>= λ t.
      let l2 = record l1 { fd_rules = t.0 } in
      let served = after_poll sys (sys.poll t.1 t.3) t.0 t.1 t.3 >>= λ d.
      ok (d.0, record l1 { fd_rules = d.1 }, d.2) in
      if t.2 then served else ok (exit, l2, t.3) in
      if s.0 then ok (success, l1, s.2) else polling
