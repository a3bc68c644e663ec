-- ===== src/Sender/Acks.antt =====
-- receive of src/tcp_sender.cc.
use cs144_minnow.Base.{
  ℕ, ◌≤◌, ◌<◌, ◌≡◌, refl, ◌⊎◌, inl, inr, true, false, ◌||◌, some, none, List, [], ◌∷◌, arith, IsU64,
  ltb, Bool-cases, Option-cases, ◌≢◌,
}
use cs144_minnow.Wrap.{Wrap32, unwrap}
use cs144_minnow.Messages.{TcpReceiverMessage}
use cs144_minnow.Sender.Timer.{stop, set_timeout}
use cs144_minnow.Sender.{
  Outstanding, TcpSender, message_end, seqno_after, get_absolute_seqno, acknowledge, receive_ackno,
  receive,
}
use cs144_minnow.Sender.Flight.{Contiguous, Inflight, IsInflight, seqno_after-ge, seqno-Inflight}

-- The loop on messages that start at k, for an ackno among their numbers.
acknowledge-Contiguous :
    (a w k : ℕ) (os : List Outstanding)
    → Contiguous k os
    → IsU64 a
    → k ≤ a
    → a ≤ seqno_after k os
    → let r = acknowledge a w os in Inflight a r.0 × (seqno_after a r.0 ≡ seqno_after k os)
unfolding acknowledge seqno_after
acknowledge-Contiguous a w k [] c u h l = (u, omega arith)
acknowledge-Contiguous a w k (o ∷ os) c u h l =
    elim (Bool-cases (ltb a (message_end o) || ltb (seqno_after (message_end o) os) a)) [
      | inl t ↦ rw t ((omega arith, ground arith, c.2, c.3), refl)
      | inr f ↦ rw f (acknowledge-Contiguous a w (message_end o) os c.3 u (ground arith) l)
    ]

-- What an ackno does to the messages in flight: either nothing is taken off, or what is left is in
-- flight from the ackno on, up to the same end.
acknowledge-Inflight :
    (a w : ℕ) (os : List Outstanding)
    → Inflight w os
    → let r = acknowledge a w os in
      ((r.1 ≡ false) × (r.0 ≡ os))
      ⊎ ((r.1 ≡ true)
          × (w ≤ a)
          × (a ≤ seqno_after w os)
          × Inflight a r.0
          × (seqno_after a r.0 ≡ seqno_after w os))
unfolding acknowledge seqno_after
acknowledge-Inflight a w [] c = inl (refl, refl)
acknowledge-Inflight a w (o ∷ os) c =
    elim (Bool-cases (ltb a (message_end o) || ltb (seqno_after (message_end o) os) a)) [
      | inl t ↦ inl (rw t, rw t)
      | inr f ↦
          let reach = seqno-Inflight w (o ∷ os) c in
          let below : a ≤ seqno_after (message_end o) os = ground arith in
          let rest =
            acknowledge-Contiguous a w (message_end o) os c.3 (omega arith) (ground arith) below in
          inr (rw f, ground arith, below, rw f rest.0, rw f rest.1)
    ]

-- From the state s to s': in flight, the same end, the window's left edge not back.
abbrev pub Advances : TcpSender → TcpSender → Type 0
Advances s s' =
    IsInflight s'
    × (get_absolute_seqno s' ≡ get_absolute_seqno s)
    × (s.m_window_left ≤ s'.m_window_left)
    × (s'.m_window_left ≤ get_absolute_seqno s)

stays : (s : TcpSender) → IsInflight s → Advances s s
stays s c = (c, refl, omega arith, (seqno-Inflight s.m_window_left s.m_outstanding_messages c).0)

receive_ackno-Advances : (a : ℕ) (s : TcpSender) → IsInflight s → Advances s (receive_ackno a s)
unfolding receive_ackno
receive_ackno-Advances a s c =
    elim (acknowledge-Inflight a s.m_window_left s.m_outstanding_messages c) [
      | inl (f, e) ↦ rw (f, e) (stays s c)
      | inr (t, lo, hi, fl, e) ↦ rw t (fl, e, lo, hi)
    ]

-- From messages in flight end to end, receive leaves messages in flight end to end, with the same
-- end of what was sent; the window's left edge does not move back and does not pass that end; and
-- the window's size is the one received, if the message has an ackno, else the former.
pub receive-Advances :
    (msg : TcpReceiverMessage) (s : TcpSender)
    → IsInflight s
    → Advances s (receive msg s)
      × ((receive msg s).m_window_size
          ≡ elim msg.ackno [ none ↦ s.m_window_size | some a ↦ msg.window_size ])
unfolding receive
receive-Advances msg s c = elim (Option-cases msg.ackno) [
  | inl e ↦ rw e (stays s c, refl)
  | inr (a, e) ↦ rw e (receive_ackno-Advances (unwrap a s.m_isn s.m_window_left) s c, refl)
]

acknowledge_useless :
    (a w : ℕ) (xs : List Outstanding) (o : Outstanding) (os : List Outstanding)
    → xs ≡ o ∷ os
    → (a < message_end o) ⊎ (seqno_after w xs < a)
    → acknowledge a w xs ≡ (xs, false)
unfolding acknowledge
acknowledge_useless a w [] o os e h = cc
acknowledge_useless a w (x ∷ xs) o os e h = ground (arith, seqno_after w (x ∷ xs))

acknowledge_all :
    (w k : ℕ) (os : List Outstanding)
    → Contiguous k os
    → (acknowledge (seqno_after k os) w os).0 ≡ []
unfolding acknowledge seqno_after
acknowledge_all w k [] c = refl
acknowledge_all w k (o ∷ os) c =
    ground (arith, acknowledge_all w (message_end o) os c.3, seqno_after-ge (message_end o) os c.3)

acknowledge_all-Inflight :
    (w : ℕ) (os : List Outstanding)
    → Inflight w os
    → os ≢ []
    → acknowledge (seqno_after w os) w os ≡ ([], true)
unfolding acknowledge seqno_after
acknowledge_all-Inflight w [] c h = absurd (h refl)
acknowledge_all-Inflight w (o ∷ os) c h =
    ground (arith, acknowledge_all w (message_end o) os c.3, seqno_after-ge (message_end o) os c.3)

-- Where the ackno lies behind the end of what was sent, or before the end of the first outstanding
-- message, nothing but the window's size changes.
pub receive_useless :
    (a : Wrap32) (window : ℕ) (s : TcpSender) (o : Outstanding) (os : List Outstanding)
    → s.m_outstanding_messages ≡ o ∷ os
    → let ackno = unwrap a s.m_isn s.m_window_left in
      (ackno < message_end o) ⊎ (get_absolute_seqno s < ackno)
      → receive (record { ackno = some a; window_size = window }) s
        ≡ record s { m_window_size = window }
unfolding receive receive_ackno
receive_useless a window s o os e h =
    let ackno = unwrap a s.m_isn s.m_window_left in
    rw (acknowledge_useless ackno s.m_window_left s.m_outstanding_messages o os e h)

-- An ackno for all that is outstanding leaves nothing outstanding, stops the timer, and resets the
-- retransmission timeout and the count of retransmissions; the queue is as before.
pub receive_all :
    (a : Wrap32) (window : ℕ) (s : TcpSender)
    → IsInflight s
    → s.m_outstanding_messages ≢ []
    → unwrap a s.m_isn s.m_window_left ≡ get_absolute_seqno s
    → let s' = receive (record { ackno = some a; window_size = window }) s in
      (s'.m_outstanding_messages ≡ [])
      × (s'.m_retransmission_timer ≡ stop)
      × (s'.m_rto_ms.m_value ≡ s.m_rto_ms.m_init_value)
      × (s'.m_consecutive_retransmissions ≡ 0)
      × (s'.m_window_left ≡ get_absolute_seqno s)
      × (s'.m_send_queue ≡ s.m_send_queue)
unfolding receive receive_ackno
receive_all a window s c h e =
    rw (e, acknowledge_all-Inflight s.m_window_left s.m_outstanding_messages c h)
      (unfold set_timeout in (refl, refl, refl, refl, refl, refl))
