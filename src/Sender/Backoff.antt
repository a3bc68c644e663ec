-- ===== src/Sender/Backoff.antt =====
-- The retransmissions of src/tcp_sender.cc over a run of ticks: exponential backoff.
use cs144_minnow.Base.{
  ℕ, zero, suc, ◌+◌, ◌*◌, ◌≤◌, ◌<◌, ◌^◌, ◌≡◌, refl, ◌∙◌, sym, ap, subst, true, Bool-cases, inl, inr,
  List, [], ◌∷◌, ◌++◌, arith, leb, leb→le, append_assoc, append-nil, All,
}
use native.Mathlib.Numerals.{unary_clauses}
use cs144_minnow.Base.Outcome.{Outcome, ok, ◌>>=◌}
use cs144_minnow.Sender.Timer.{restart, elapse, is_timeout, set_timeout}
use cs144_minnow.Sender.{Outstanding, TcpSender, tick, resent, resend, elapsed}

-- Calls of tick in a row, and the time that passes in them.
unfoldable pub ticks : List ℕ → TcpSender → Outcome TcpSender
ticks [] s = ok s
ticks (ms ∷ rest) s = tick ms s >>= λ s'. ticks rest s'

abbrev pub total : List ℕ → ℕ
total [] = 0
total (ms ∷ rest) = ms + total rest

abbrev pub replicate {ℓ} : {A : Type ℓ} → ℕ → A → List A
replicate zero x = []
replicate (suc k) x = x ∷ replicate k x

replicate-suc {ℓ} : {A : Type ℓ} (k : ℕ) (x : A) → replicate k x ++ (x ∷ []) ≡ replicate (suc k) x
replicate-suc zero x = refl
replicate-suc (suc k) x = ap (λ l. x ∷ l) (replicate-suc k x)

-- The timer has just been started for the first outstanding message o, the window is open, and no
-- timeout is zero.
pub record IsArmed (o : Outstanding) (s : TcpSender) : Type 0 where
  pub rest : List Outstanding
  pub outstanding : s.m_outstanding_messages ≡ o ∷ rest
  pub timer : s.m_retransmission_timer ≡ restart s.m_rto_ms.m_value
  pub window : 0 < s.m_window_size
  pub timeout : 0 < s.m_rto_ms.m_value

-- What is so after k retransmissions of o since s0, when no tick takes longer than most and the
-- ticks took spent together.
pub record IsBackedOff (o : Outstanding) (s0 : TcpSender) (most k spent : ℕ) (s : TcpSender)
    : Type 0 where
  pub queue : s.m_send_queue ≡ s0.m_send_queue ++ replicate k o.second
  pub outstanding : s.m_outstanding_messages ≡ s0.m_outstanding_messages
  pub window : s.m_window_size ≡ s0.m_window_size
  pub value : s.m_rto_ms.m_value ≡ s0.m_rto_ms.m_value * 2 ^ k
  pub timeout : s.m_retransmission_timer.m_timeout ≡ s.m_rto_ms.m_value
  pub running : s.m_retransmission_timer.m_running ≡ true
  pub count : s.m_consecutive_retransmissions ≡ s0.m_consecutive_retransmissions + k
  pub waits : s.m_retransmission_timer.m_timer < s.m_rto_ms.m_value
  pub not_early :
      s.m_rto_ms.m_value + s.m_retransmission_timer.m_timer ≤ s0.m_rto_ms.m_value + spent
  pub not_late :
      s0.m_rto_ms.m_value + spent ≤ s.m_rto_ms.m_value + s.m_retransmission_timer.m_timer + k * most
  pub few : k ≤ spent

tick_waits :
    (ms : ℕ) (s : TcpSender)
    → s.m_retransmission_timer.m_running ≡ true
    → s.m_retransmission_timer.m_timer + ms < s.m_retransmission_timer.m_timeout
    → s.m_retransmission_timer.m_timer + ms < 2 ^ 64
    → (tick ms s ≡ ok (elapsed ms s))
      × ((elapsed ms s).m_retransmission_timer.m_timer ≡ s.m_retransmission_timer.m_timer + ms)
unfolding tick elapse is_timeout
tick_waits ms s r h w = (ground arith, ground arith)

tick_expires :
    (ms : ℕ) (s : TcpSender) (o : Outstanding) (os : List Outstanding)
    → s.m_outstanding_messages ≡ o ∷ os
    → s.m_retransmission_timer.m_running ≡ true
    → s.m_retransmission_timer.m_timeout ≤ s.m_retransmission_timer.m_timer + ms
    → s.m_retransmission_timer.m_timer + ms < 2 ^ 64
    → tick ms s ≡ ok (resent o (elapsed ms s))
unfolding tick elapse is_timeout resend
tick_expires ms s o os e r h w = ground arith

doubled : (v k : ℕ) → v * 2 ^ k + v * 2 ^ k ≡ v * 2 ^ suc k
doubled v k = simp unary_clauses (omega arith)

once_more : (k most : ℕ) → k * most + most ≡ suc k * most
once_more k most = omega arith

module _ (o : Outstanding) (s0 : TcpSender) (armed : IsArmed o s0) (most : ℕ) where
  waits-IsBackedOff :
      (ms k spent : ℕ) (s : TcpSender)
      → IsBackedOff o s0 most k spent s
      → s.m_retransmission_timer.m_timer + ms < s.m_rto_ms.m_value
      → s.m_retransmission_timer.m_timer + ms < 2 ^ 64
      → (tick ms s ≡ ok (elapsed ms s)) × IsBackedOff o s0 most k (spent + ms) (elapsed ms s)
  unfolding elapse
  waits-IsBackedOff ms k spent s b h w =
      let (call, timer) = tick_waits ms s b.running (omega (arith, b.timeout)) w in
      (
        call,
        record {
          queue = b.queue;
          outstanding = b.outstanding;
          window = b.window;
          value = b.value;
          timeout = b.timeout;
          running = b.running;
          count = b.count;
          waits = omega (arith, timer);
          not_early = omega (arith, timer, b.not_early);
          not_late = omega (arith, timer, b.not_late);
          few = omega (arith, b.few);
        },
      )

  expires-IsBackedOff :
      (ms k spent : ℕ) (s : TcpSender)
      → IsBackedOff o s0 most k spent s
      → ms ≤ most
      → s.m_rto_ms.m_value ≤ s.m_retransmission_timer.m_timer + ms
      → (s0.m_rto_ms.m_value + spent + ms) * 2 < 2 ^ 64
      → s0.m_consecutive_retransmissions + spent + ms < 2 ^ 64
      → (tick ms s ≡ ok (resent o (elapsed ms s)))
        × IsBackedOff o s0 most (suc k) (spent + ms) (resent o (elapsed ms s))
  unfolding resent set_timeout restart
  expires-IsBackedOff ms k spent s b short h w c =
      let rto : (resent o (elapsed ms s)).m_rto_ms.m_value
          ≡ s.m_rto_ms.m_value + s.m_rto_ms.m_value =
        ground (arith, armed.window, b.window, b.not_early) in
      (
        tick_expires ms s o armed.rest (b.outstanding ∙ armed.outstanding) b.running
            (omega (arith, b.timeout)) (omega (arith, b.not_early)),
        record {
          queue =
              ap (λ l. l ++ (o.second ∷ [])) b.queue
              ∙ append_assoc s0.m_send_queue (replicate k o.second) (o.second ∷ [])
              ∙ ap (λ l. s0.m_send_queue ++ l) (replicate-suc k o.second);
          outstanding = b.outstanding;
          window = b.window;
          value = rto ∙ ap (λ v. v + v) b.value ∙ doubled s0.m_rto_ms.m_value k;
          timeout = refl;
          running = refl;
          count = ground (arith, armed.window, b.window, b.count, b.few);
          waits = omega (arith, rto, b.waits);
          not_early = omega (arith, rto, b.not_early, h);
          not_late = omega (arith, rto, b.not_late, once_more k most, b.waits);
          few = omega (arith, b.few, b.waits);
        },
      )

  ticks-IsBackedOff :
      (mss : List ℕ) (k spent : ℕ) (s : TcpSender)
      → IsBackedOff o s0 most k spent s
      → All (λ ms. ms ≤ most) mss
      → (s0.m_rto_ms.m_value + spent + total mss) * 2 < 2 ^ 64
      → s0.m_consecutive_retransmissions + spent + total mss < 2 ^ 64
      → (k' : ℕ) × (s' : TcpSender) × (ticks mss s ≡ ok s')
        × IsBackedOff o s0 most k' (spent + total mss) s'
  unfolding ticks
  ticks-IsBackedOff [] k spent s b short w c =
      (k, s, refl, subst (λ n. IsBackedOff o s0 most k n s) (omega arith) b)
  ticks-IsBackedOff (ms ∷ mss) k spent s b (short, shorts) w c =
      let sum : spent + ms + total mss ≡ spent + (ms + total mss) = omega arith in
      let finish : (k1 : ℕ) (s1 : TcpSender)
          → tick ms s ≡ ok s1
          → IsBackedOff o s0 most k1 (spent + ms) s1
          → (k' : ℕ) × (s' : TcpSender) × (ticks (ms ∷ mss) s ≡ ok s')
            × IsBackedOff o s0 most k' (spent + (ms + total mss)) s' =
        λ k1 s1 e b1.
          let (k', s', call, b') =
            ticks-IsBackedOff mss k1 (spent + ms) s1 b1 shorts (omega arith) (omega arith) in
          (
            k',
            s',
            ap (λ r. r >>= λ s2. ticks mss s2) e ∙ call,
            subst (λ n. IsBackedOff o s0 most k' n s') sum b',
          ) in
      let timer = s.m_retransmission_timer.m_timer in
      elim (Bool-cases (leb s.m_rto_ms.m_value (timer + ms))) [
        | inl late ↦
            let (e, b1) =
              expires-IsBackedOff ms k spent s b short (leb→le _ _ late) (omega arith)
                (omega arith) in
            finish (suc k) (resent o (elapsed ms s)) e b1
        | inr early ↦
            let before : timer + ms < s.m_rto_ms.m_value = ground arith in
            let (e, b1) = waits-IsBackedOff ms k spent s b before (omega (arith, b.not_early)) in
            finish k (elapsed ms s) e b1
      ]

  armed-IsBackedOff : IsBackedOff o s0 most 0 0 s0
  unfolding restart
  armed-IsBackedOff =
      let timer = armed.timer in
      record {
        queue = sym (append-nil s0.m_send_queue);
        outstanding = refl;
        window = refl;
        value = omega arith;
        timeout = ap (λ t. t.m_timeout) timer;
        running = ap (λ t. t.m_running) timer;
        count = omega arith;
        waits = ground (arith, armed.timeout, ap (λ t. t.m_timer) timer);
        not_early = omega (arith, ap (λ t. t.m_timer) timer);
        not_late = omega (arith, ap (λ t. t.m_timer) timer);
        few = omega arith;
      }

-- From a sender whose timer has just been started, with an open window, every run of ticks returns,
-- and retransmits the first outstanding message some number k of times, and queues nothing else: k copies
-- of it stand behind what was queued. The timeout has doubled k times, the consecutive
-- retransmissions have grown by k, the timer runs and is not over, and k is the number that the time
-- asks for: the timeouts that have passed and the timer make at most the time of the ticks, and lack
-- at most one tick of the longest duration for each retransmission. The sums stay below 2^64.
pub ticks-Backoff :
    (o : Outstanding) (s : TcpSender) (most : ℕ) (mss : List ℕ)
    → IsArmed o s
    → All (λ ms. ms ≤ most) mss
    → (s.m_rto_ms.m_value + total mss) * 2 < 2 ^ 64
    → s.m_consecutive_retransmissions + total mss < 2 ^ 64
    → (k : ℕ) × (s' : TcpSender) × (ticks mss s ≡ ok s') × IsBackedOff o s most k (total mss) s'
ticks-Backoff o s most mss armed short w c =
    subst (λ n. (k : ℕ) × (s' : TcpSender) × (ticks mss s ≡ ok s') × IsBackedOff o s most k n s')
      (omega arith)
      (ticks-IsBackedOff o s armed most mss 0 0 s (armed-IsBackedOff o s armed most) short
        (omega arith) (omega arith))
