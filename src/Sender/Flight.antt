-- ===== src/Sender/Flight.antt =====
-- The outstanding messages of src/tcp_sender.cc lie end to end.
use cs144_minnow.Base.{ℕ, ◌+◌, ◌≤◌, ◌<◌, ◌^◌, ◌≡◌, refl, Bool, List, [], ◌∷◌, arith, length, IsU64}
use cs144_minnow.Messages.{TcpSenderMessage, sequence_length, bit}
use cs144_minnow.Sender.{
  Outstanding, TcpSender, message_end, seqno_after, get_absolute_seqno, insert_once, push_message,
  message_at,
}

-- From the absolute sequence number k on, no gap, no overlap, no empty message, below 2^64.
abbrev pub Contiguous : ℕ → List Outstanding → Type 0
Contiguous k [] = Unit {0}
Contiguous k (o ∷ os) =
    (o.first ≡ k)
    × (0 < sequence_length o.second)
    × (o.first + sequence_length o.second < 2 ^ 64)
    × Contiguous (message_end o) os

-- The window's left edge lies in the first outstanding message, and the others follow it.
abbrev pub Inflight : ℕ → List Outstanding → Type 0
Inflight w [] = IsU64 w
Inflight w (o ∷ os) =
    (o.first ≤ w)
    × (w < o.first + sequence_length o.second)
    × (o.first + sequence_length o.second < 2 ^ 64)
    × Contiguous (message_end o) os

abbrev pub IsInflight : TcpSender → Type 0
IsInflight s = Inflight s.m_window_left s.m_outstanding_messages

pub seqno_after-ge : (k : ℕ) (os : List Outstanding) → Contiguous k os → k ≤ seqno_after k os
unfolding seqno_after
seqno_after-ge k [] c = omega arith
seqno_after-ge k (o ∷ os) c = omega (arith, seqno_after-ge (message_end o) os c.3)

pub seqno_after-IsU64 :
    (k : ℕ) (os : List Outstanding) → IsU64 k → Contiguous k os → IsU64 (seqno_after k os)
unfolding seqno_after
seqno_after-IsU64 k [] h c = h
seqno_after-IsU64 k (o ∷ os) h c = seqno_after-IsU64 (message_end o) os (omega arith) c.3

pub seqno-Inflight :
    (w : ℕ) (os : List Outstanding)
    → Inflight w os
    → (w ≤ seqno_after w os) × IsU64 (seqno_after w os)
unfolding seqno_after
seqno-Inflight w [] c = (omega arith, c)
seqno-Inflight w (o ∷ os) c = (
  omega (arith, seqno_after-ge (message_end o) os c.3),
  seqno_after-IsU64 (message_end o) os (omega arith) c.3,
)

module _ (m : TcpSenderMessage) (some_numbers : 0 < sequence_length m) where
  abbrev pub at : ℕ → Outstanding
  at e = record { first = e; second = m }

  insert_last :
      (e k : ℕ) (os : List Outstanding)
      → Contiguous k os
      → seqno_after k os ≡ e
      → e + sequence_length m < 2 ^ 64
      → Contiguous k (insert_once (at e) os)
        × (seqno_after k (insert_once (at e) os) ≡ e + sequence_length m)
  unfolding seqno_after insert_once
  insert_last e k [] c q h = ((omega arith, some_numbers, h, tt), omega arith)
  insert_last e k (o ∷ os) c q h =
      let low : o.first < e = omega (arith, seqno_after-ge (message_end o) os c.3) in
      let rest = insert_last e (message_end o) os c.3 q h in ground (arith, rest)

  insert-Inflight :
      (e w : ℕ) (os : List Outstanding)
      → Inflight w os
      → seqno_after w os ≡ e
      → e + sequence_length m < 2 ^ 64
      → Inflight w (insert_once (at e) os)
        × (seqno_after w (insert_once (at e) os) ≡ e + sequence_length m)
  unfolding seqno_after insert_once
  insert-Inflight e w [] c q h = ((omega arith, omega arith, h, tt), omega arith)
  insert-Inflight e w (o ∷ os) c q h =
      let low : o.first < e = omega (arith, seqno_after-ge (message_end o) os c.3) in
      let rest = insert_last e (message_end o) os c.3 q h in ground (arith, rest)

-- A message that is pushed takes the sequence numbers behind all others, however many it takes.
pub push_message-IsInflight :
    (payload : List ℕ) (syn fin : Bool) (s : TcpSender)
    → IsInflight s
    → 0 < bit syn + length payload + bit fin
    → get_absolute_seqno s + (bit syn + length payload + bit fin) < 2 ^ 64
    → IsInflight (push_message payload syn fin s)
      × (get_absolute_seqno (push_message payload syn fin s)
          ≡ get_absolute_seqno s + (bit syn + length payload + bit fin))
unfolding push_message
push_message-IsInflight payload syn fin s c h k =
    insert-Inflight (message_at (get_absolute_seqno s) s.m_isn payload syn fin) h
      (get_absolute_seqno s) s.m_window_left s.m_outstanding_messages c refl k
