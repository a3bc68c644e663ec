-- ===== src/Host/Conserved.antt =====
-- The event loop of apps/bidirectional_stream_copy.cc with its four rules.
use cs144_minnow.Base.{
  ℕ, ◌≤◌, ◌<◌, ◌≡◌, ◌≢◌, refl, sym, ap, subst, ◌∙◌, Bool, true, ◌&&◌, List, [], ◌++◌, arith, ltb,
  leb, length, All-append,
}
use cs144_minnow.Base.Outcome.{ok, throws}
use cs144_minnow.Stream.{IsValid, available_capacity, close}
use cs144_minnow.Stream
use cs144_minnow.Stream.Laws.{init-IsValid}
use cs144_minnow.Host.After.{After, After-if, After-bind}
use cs144_minnow.Host.Descriptor.{System, FdWrapper}
use cs144_minnow.Host.EventLoop.{
  Direction, reading, writing, Callback, Interest, EventLoop, Result, init, add_named_rule,
  add_category, add_fd_rule,
}
use cs144_minnow.Host.Waiting.{Polling, PollFd, Revents, polled}
use cs144_minnow.Host.Keeps.{
  Marked, Announced, IsFd, IsLoop, Rounds, here, next, wait_next_event-keeps,
}
use cs144_minnow.Host.Logs.{Log, HasInput}
use cs144_minnow.Host.Copy.{
  World, start, buffer_size, rules, read_input, read_input_interest, read_socket,
  read_socket_interest, close_outbound, close_inbound,
}
use cs144_minnow.Host.Copying.{
  IsCopied, Later, read_input-keeps, write_socket-keeps, read_socket-keeps, write_output-keeps,
}
use cs144_minnow.Host.Flows.{close-IsValid}

room_left : (n m : Bool) (k : ℕ) → (n && (ltb 0 k && m)) ≡ true → 0 < k
room_left n m k h = ground arith

module _ {W : Type 0} (P : W → Type 0) (R : W → W → Type 0)
    (Told : ℕ → Direction → W → Type 0) where
  pub add_named_rule-IsLoop :
      (name : List ℕ) (fd : W → FdWrapper) (direction : Direction) (callback : Callback W)
      (interest : Interest W) (cancel : Callback W) (recover : W → Bool × W) (l : EventLoop W)
      → IsLoop P R Told l
      → ((w0 w : W)
          → interest w0 ≡ true
          → R w0 w
          → Told (fd w0).fd direction w
          → P w
          → After P (callback w))
      → ((w : W) → P w → After (λ w'. P w' × R w w') (cancel w))
      → ((w : W) → P w → P (recover w).1 × R w (recover w).1)
      → After
          (λ (r : ℕ × EventLoop W). IsLoop P R Told r.1)
          (add_named_rule name fd direction callback interest cancel recover l)
  unfolding add_named_rule add_category add_fd_rule
  add_named_rule-IsLoop name fd direction callback interest cancel recover l k hb hc hr =
      let Q : ℕ × EventLoop W → Type 0 = λ r. IsLoop P R Told r.1 in
      After-bind Q Q (add_category name l) _
        (After-if Q (leb l.capacity (length l.rule_categories)) throws _ (λ _. tt)
          (λ _. record { fd_rules = k.fd_rules; non_fd_rules = k.non_fd_rules }))
        (λ r kr.
          After-if Q (leb (length r.1.rule_categories) r.0) throws _ (λ _. tt)
            (λ _. record {
              fd_rules =
                  All-append (IsFd P R Told) r.1.fd_rules _ kr.fd_rules
                    (record { callback = hb; cancel = hc; recover = hr }, tt);
              non_fd_rules = kr.non_fd_rules;
            }))

module _ {E : Type 0} (sys : System E) (log : Log sys) (i o s : ℕ) (i≢s : i ≢ s) (o≢s : o ≢ s) where
  abbrev Copied : World E → Type 0
  Copied = IsCopied sys log i o s i≢s o≢s

  abbrev Then : World E → World E → Type 0
  Then = Later sys log i o s i≢s o≢s

  close_outbound-keeps :
      (w : World E) → Copied w → After (λ w'. Copied w' × Then w w') (close_outbound sys w)
  unfolding close
  close_outbound-keeps w c = (
    record {
      input = c.input;
      output = c.output;
      socket = c.socket;
      outbound = close-IsValid w.outbound c.outbound;
      inbound = c.inbound;
      outward = c.outward;
      inward = c.inward;
    },
    record { outbound = refl; inbound = refl; input = refl; socket = refl; system = refl },
  )

  close_inbound-keeps :
      (w : World E) → Copied w → After (λ w'. Copied w' × Then w w') (close_inbound sys w)
  unfolding close
  close_inbound-keeps w c = (
    record {
      input = c.input;
      output = c.output;
      socket = c.socket;
      outbound = c.outbound;
      inbound = close-IsValid w.inbound c.inbound;
      outward = c.outward;
      inward = c.inward;
    },
    record { outbound = refl; inbound = refl; input = refl; socket = refl; system = refl },
  )

  Then-refl : (w : World E) → Then w w
  Then-refl w = record {
    outbound = refl;
    inbound = refl;
    input = refl;
    socket = refl;
    system = refl;
  }

  Then-trans : (u v w : World E) → Then u v → Then v w → Then u w
  Then-trans u v w a b = record {
    outbound = a.outbound ∙ b.outbound;
    inbound = a.inbound ∙ b.inbound;
    input = a.input ∙ b.input;
    socket = a.socket ∙ b.socket;
    system = a.system ∙ b.system;
  }

  -- Reading is told only of a descriptor that has input.
  abbrev Readable : ℕ → Direction → World E → Type 0
  Readable fd reading w = HasInput sys fd w.system
  Readable fd writing w = Unit

  rule_1 :
      (w0 w : World E)
      → read_input_interest sys w0 ≡ true
      → Then w0 w
      → Readable w0.input.fd reading w
      → Copied w
      → After Copied (read_input sys w)
  rule_1 w0 w e later told c =
      read_input-keeps sys log i o s i≢s o≢s w c
        (subst (λ n. 0 < n) later.outbound (room_left _ _ (available_capacity w0.outbound) e))
        (subst (λ (d : FdWrapper). HasInput sys d.fd w.system) later.input told)

  rule_3 :
      (w0 w : World E)
      → read_socket_interest sys w0 ≡ true
      → Then w0 w
      → Readable w0.socket.fd reading w
      → Copied w
      → After Copied (read_socket sys w)
  rule_3 w0 w e later told c =
      read_socket-keeps sys log i o s i≢s o≢s w c
        (subst (λ n. 0 < n) later.inbound (room_left _ _ (available_capacity w0.inbound) e))
        (subst (λ (d : FdWrapper). HasInput sys d.fd w.system) later.socket told)

  no_recovery-keeps : (w : World E) → Copied w → Copied w × Then w w
  no_recovery-keeps w h = (h, Then-refl w)

  Loops : ℕ × EventLoop (World E) → Type 0
  Loops r = IsLoop Copied Then Readable r.1

  pub rules-IsLoop :
      (n1 n2 n3 n4 : List ℕ) (c : ℕ) (l : EventLoop (World E))
      → rules sys n1 n2 n3 n4 (init c) ≡ ok l
      → IsLoop Copied Then Readable l
  unfolding rules Loops init
  rules-IsLoop n1 n2 n3 n4 c l e = subst (After (IsLoop Copied Then Readable)) e (
      After-bind (IsLoop Copied Then Readable) Loops _ _
        (After-bind Loops Loops _ _
          (After-bind Loops Loops _ _
            (After-bind Loops Loops _ _
              (add_named_rule-IsLoop Copied Then Readable n1 _ _ _ _ _ _ (init c)
                (record { fd_rules = tt; non_fd_rules = tt }) rule_1 close_outbound-keeps
                no_recovery-keeps)
              (λ r1 k.
                add_named_rule-IsLoop Copied Then Readable n2 _ _ _ _ _ _ r1.1 k
                  (λ w0 w _ _ _ h. write_socket-keeps sys log i o s i≢s o≢s w h)
                  close_outbound-keeps no_recovery-keeps))
            (λ r2 k.
              add_named_rule-IsLoop Copied Then Readable n3 _ _ _ _ _ _ r2.1 k rule_3
                close_inbound-keeps no_recovery-keeps))
          (λ r3 k.
            add_named_rule-IsLoop Copied Then Readable n4 _ _ _ _ _ _ r3.1 k
              (λ w0 w _ _ _ h. write_output-keeps sys log i o s i≢s o≢s w h) close_inbound-keeps
              no_recovery-keeps))
        (λ r4 k. k))

  -- poll announces reading on a descriptor only where a read would not block.
  pub record IsTrue (poll : Polling (World E)) : Type 0 where
    pub tells :
        (fds : List PollFd) (w : World E) (number : ℕ) (results : List Revents) (fd : ℕ)
        → poll.poll fds w ≡ polled number results
        → Marked fd reading fds results
        → HasInput sys fd w.system

  tells-Readable :
      (poll : Polling (World E))
      → IsTrue poll
      → (fd : ℕ) (d : Direction) (w : World E) → Announced poll Then fd d w
      → Readable fd d w
  tells-Readable poll true_poll fd reading w a =
      subst (HasInput sys fd) a.later.system
        (true_poll.tells a.pollfds a.world a.number a.results fd a.call a.marked)
  tells-Readable poll true_poll fd writing w a = tt

  Rounds-keeps :
      (poll : Polling (World E)) (l : EventLoop (World E)) (w : World E) {l' : EventLoop (World E)}
      {w' : World E}
      → IsTrue poll
      → IsLoop Copied Then Readable l
      → Copied w
      → Rounds poll l w l' w'
      → IsLoop Copied Then Readable l' × Copied w'
  Rounds-keeps poll l w t k c here = (k, c)
  Rounds-keeps poll l w {l'} {w'} t k c (next {l1 = l1} {w1 = w1} rounds e) =
      let (k1, c1) = Rounds-keeps poll l w t k c rounds in
      subst
        (After (λ (r : Result × EventLoop (World E) × World E).
          IsLoop Copied Then Readable r.1 × Copied r.2))
        e
        (wait_next_event-keeps Copied Then Readable Then-refl Then-trans poll l1 w1
          (tells-Readable poll t) k1 c1)

  -- The logs of the three descriptors are empty.
  pub record IsFresh (e : E) : Type 0 where
    pub taken_i : log.taken i e ≡ []
    pub taken_s : log.taken s e ≡ []
    pub given_s : log.given s e ≡ []
    pub given_o : log.given o e ≡ []

  start-Copied :
      (input output socket : FdWrapper) (e : E)
      → input.fd ≡ i
      → output.fd ≡ o
      → socket.fd ≡ s
      → IsFresh e
      → Copied (start input output socket e)
  unfolding start Stream.init
  start-Copied input output socket e hi ho hs f = record {
    input = hi;
    output = ho;
    socket = hs;
    outbound = init-IsValid buffer_size (omega arith);
    inbound = init-IsValid buffer_size (omega arith);
    outward = ap (λ l. l ++ []) f.given_s ∙ sym f.taken_i;
    inward = ap (λ l. l ++ []) f.given_o ∙ sym f.taken_s;
  }

  -- Whatever else poll says and however the system calls end, in every state that rounds of the event loop
  -- reach, the socket has been given the bytes that standard input gave, in order and each once, but
  -- for those that the outbound stream still holds, and standard output those of the socket, but for
  -- those of the inbound stream. Input and output differ from the socket, the system starts with empty
  -- logs, and poll announces reading on a descriptor only where a read would not block.
  pub rules-conserve :
      (n1 n2 n3 n4 : List ℕ) (c : ℕ) (poll : Polling (World E)) (input output socket : FdWrapper)
      (e : E) {l l' : EventLoop (World E)} {w : World E}
      → rules sys n1 n2 n3 n4 (init c) ≡ ok l
      → input.fd ≡ i
      → output.fd ≡ o
      → socket.fd ≡ s
      → IsFresh e
      → IsTrue poll
      → Rounds poll l (start input output socket e) l' w
      → (log.given s w.system ++ w.outbound.buffer ≡ log.taken i w.system)
        × (log.given o w.system ++ w.inbound.buffer ≡ log.taken s w.system)
        × (length w.outbound.buffer ≤ w.outbound.capacity)
        × (length w.inbound.buffer ≤ w.inbound.capacity)
  rules-conserve n1 n2 n3 n4 c poll input output socket e {l} q hi ho hs f t rounds =
      let (_, k) =
        Rounds-keeps poll l (start input output socket e) t (rules-IsLoop n1 n2 n3 n4 c l q)
          (start-Copied input output socket e hi ho hs f) rounds in
      (k.outward, k.inward, k.outbound.within, k.inbound.within)
