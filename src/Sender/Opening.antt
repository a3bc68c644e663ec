-- ===== src/Sender/Opening.antt =====
-- The sender of src/tcp_sender.cc while a connection opens.
use cs144_minnow.Base.{
  ℕ, suc, ◌+◌, ◌≡◌, refl, ap, ◌∙◌, Bool, true, false, some, [], ◌∷◌, arith, not, ◌&&◌, ltb, leb,
  u64, sub64, inl, inr, Bool-cases, IsU32,
}
use cs144_minnow.Base.Outcome.{ok, ◌>>=◌}
use cs144_minnow.Wrap.{Wrap32, wrap}
use cs144_minnow.Stream.{ByteStream}
use cs144_minnow.Stream
use cs144_minnow.Messages.{TcpSenderMessage, max_payload_size}
use cs144_minnow.Sender.{
  TcpSender, Outstanding, message_at, is_idle, get_absolute_seqno, receive_ackno, acknowledge,
}
use cs144_minnow.Sender.Push.{push_syn_old, push_goes_on}
use cs144_minnow.Sender.Timer.{restart, idle, stop, set_timeout}
use cs144_minnow.Wrap.Laws.{unwrap-wrap}
use cs144_minnow.Sender

-- The sender of a new peer.
abbrev pub new_sender : ℕ → Wrap32 → TcpSender
new_sender rto isn = record {
  m_outstanding_messages = [];
  m_send_queue = [];
  m_syc_pushed = false;
  m_fin_pushed = false;
  m_timer = 0;
  m_retransmission_timer = idle;
  m_isn = isn;
  m_rto_ms = record { m_value = rto; m_init_value = rto };
  m_consecutive_retransmissions = 0;
  m_window_left = 0;
  m_window_size = 1;
}

abbrev pub syn_message : Wrap32 → TcpSenderMessage
syn_message isn = message_at 0 isn [] true false

-- It has pushed the SYN, and sent it.
abbrev pub syn_queued : ℕ → Wrap32 → TcpSender
syn_queued rto isn = record (new_sender rto isn) {
  m_outstanding_messages = record { first = 0; second = syn_message isn } ∷ [];
  m_send_queue = syn_message isn ∷ [];
  m_syc_pushed = true;
}

pub push_syn_sent :
    (rto cap : ℕ) (isn : Wrap32)
    → Sender.push (Stream.init cap) (new_sender rto isn) ≡ ok (syn_queued rto isn, Stream.init cap)
unfolding Sender.push Sender.push_syn Sender.push_message Sender.insert_once Sender.fill
    Sender.fill_rest Sender.seqno_after Sender.window_right Stream.init Stream.is_finished
push_syn_sent rto cap isn = refl

never_fin : (b : Bool) → (b && false) ≡ false
never_fin true = refl
never_fin false = refl

read_nothing : (n cap : ℕ) → Stream.read n (Stream.init cap) ≡ ok (Stream.init cap, [])
unfolding Stream.read Stream.read_loop Stream.init
read_nothing n cap = refl

idle_new : (wr cap : ℕ) (s : TcpSender) → is_idle wr [] (Stream.init cap) s ≡ true
unfolding Stream.init Stream.is_finished
idle_new wr cap s = rw (never_fin (ltb (u64 (0 + get_absolute_seqno s)) wr)) refl

fill_nothing :
    (fuel wr cap : ℕ) (s : TcpSender)
    → Sender.fill (suc fuel) wr s (Stream.init cap) ≡ ok (s, Stream.init cap)
unfolding Sender.fill
fill_nothing fuel wr cap s =
    elim (Bool-cases
      (not s.m_fin_pushed && leb (u64 (get_absolute_seqno s + max_payload_size)) wr)) [
        | inl t ↦ rw (t, read_nothing max_payload_size cap, idle_new wr cap s) refl
        | inr f ↦ rw f refl
      ]

fill_rest_nothing :
    (wr cap : ℕ) (s : TcpSender) → Sender.fill_rest wr s (Stream.init cap) ≡ ok (s, Stream.init cap)
unfolding Sender.fill_rest
fill_rest_nothing wr cap s =
    elim (Bool-cases (not s.m_fin_pushed && ltb (get_absolute_seqno s) wr)) [
      | inl t ↦ rw (t, read_nothing (sub64 wr (get_absolute_seqno s)) cap, idle_new wr cap s) refl
      | inr f ↦ rw f refl
    ]

pub push_nothing :
    (cap : ℕ) (s : TcpSender)
    → s.m_syc_pushed ≡ true
    → s.m_fin_pushed ≡ false
    → Sender.push (Stream.init cap) s ≡ ok (s, Stream.init cap)
unfolding Stream.init
push_nothing cap s t f =
    let wr = Sender.window_right s in
    let out = Stream.init cap in
    let old = push_syn_old s out t in
    push_goes_on s out (ap (λ (x : TcpSender). x.m_fin_pushed) old ∙ f) (ap Sender.window_right old)
    ∙ ap (λ x. Sender.fill 2 wr x out >>= λ r. Sender.fill_rest wr r.0 r.1) old
    ∙ ap (λ m. m >>= λ r. Sender.fill_rest wr r.0 r.1) (fill_nothing 1 wr cap s)
    ∙ fill_rest_nothing wr cap s

abbrev pub syn_sent : ℕ → Wrap32 → TcpSender
syn_sent rto isn = record (syn_queued rto isn) {
  m_send_queue = [];
  m_retransmission_timer = restart rto;
}

-- Its SYN is acknowledged.
abbrev pub syn_acked : ℕ → ℕ → Wrap32 → TcpSender
syn_acked window rto isn = record (syn_sent rto isn) {
  m_outstanding_messages = [];
  m_window_left = 1;
  m_window_size = window;
  m_retransmission_timer = stop;
}

pub syn_receive :
    (window rto : ℕ) (isn : Wrap32)
    → IsU32 isn.raw_value
    → Sender.receive (record { ackno = some (wrap 1 isn); window_size = window }) (syn_sent rto isn)
      ≡ syn_acked window rto isn
unfolding Sender.receive receive_ackno set_timeout acknowledge Sender.seqno_after
syn_receive window rto isn h =
    rw (unwrap-wrap 1 isn 0 h (omega arith) (omega arith) (omega arith)) refl
