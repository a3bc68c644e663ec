-- ===== src/Sender.antt =====
-- src/tcp_sender.hh and src/tcp_sender.cc: the stream in segments, acknowledgments, retransmission.
-- m_outstanding_messages_, a std::map, is the list of its entries by rising keys, and
-- m_send_queue_ the list of its messages from the front.
pub mod Timer
pub mod Flight
pub mod Emit
pub mod Push
pub mod Drain
pub mod Opening
pub mod Acks
pub mod Ticks
pub mod Backoff
mod Runs
use cs144_minnow.Base.{
  ℕ, zero, suc, ◌+◌, ◌-◌, ◌<◌, Bool, true, false, not, ◌&&◌, ◌||◌, Option, none, some, List, [],
  ◌∷◌, ◌++◌, ltb, leb, ◌==◌, if◌then◌else◌, length, u64, sub64,
}
use cs144_minnow.Base.Outcome.{Outcome, ok, undefined, stuck, ◌>>=◌}
use cs144_minnow.Wrap.{Wrap32, wrap, unwrap}
use cs144_minnow.Stream.{ByteStream, is_finished, is_empty, read}
use cs144_minnow.Messages.{TcpSenderMessage, TcpReceiverMessage, sequence_length, max_payload_size}
use Timer.{
  RetransmissionTimer, RetransmissionTimeout, timeout, successful_receipt, set_timeout, restart,
  stop, elapse, is_timeout, idle,
}

pub record Outstanding : Type 0 where
  pub first : ℕ
  pub second : TcpSenderMessage

pub record TcpSender : Type 0 where
  pub m_outstanding_messages : List Outstanding
  pub m_send_queue : List TcpSenderMessage
  pub m_syc_pushed : Bool
  pub m_fin_pushed : Bool
  pub m_timer : ℕ
  pub m_retransmission_timer : RetransmissionTimer
  pub m_isn : Wrap32
  pub m_rto_ms : RetransmissionTimeout
  pub m_consecutive_retransmissions : ℕ
  pub m_window_left : ℕ
  pub m_window_size : ℕ

-- random is what random_device gives.
unfoldable pub init : ℕ → ℕ → Option Wrap32 → TcpSender
init random initial_rto_ms fixed_isn = record {
  m_outstanding_messages = [];
  m_send_queue = [];
  m_syc_pushed = false;
  m_fin_pushed = false;
  m_timer = 0;
  m_retransmission_timer = idle;
  m_isn = elim fixed_isn [ none ↦ record { raw_value = random } | some isn ↦ isn ];
  m_rto_ms = record { m_value = initial_rto_ms; m_init_value = initial_rto_ms };
  m_consecutive_retransmissions = 0;
  m_window_left = 0;
  m_window_size = 1;
}

abbrev pub message_end : Outstanding → ℕ
message_end o = u64 (o.first + sequence_length o.second)

-- The end of the last outstanding message, window_left if there is none.
unfoldable pub seqno_after : ℕ → List Outstanding → ℕ
seqno_after window_left [] = window_left
seqno_after window_left (o ∷ os) = seqno_after (message_end o) os

abbrev pub get_absolute_seqno : TcpSender → ℕ
get_absolute_seqno s = seqno_after s.m_window_left s.m_outstanding_messages

-- std::map::insert: an entry under the same key stays.
unfoldable pub insert_once : Outstanding → List Outstanding → List Outstanding
insert_once new [] = new ∷ []
insert_once new (o ∷ os) =
    let rest = insert_once new os in
    if ltb new.first o.first
    then new ∷ o ∷ os
    else (if new.first == o.first then o ∷ os else o ∷ rest)

abbrev pub message_at : ℕ → Wrap32 → List ℕ → Bool → Bool → TcpSenderMessage
message_at seqno isn payload syn fin = record {
  seqno = wrap seqno isn;
  syn = syn;
  payload = payload;
  fin = fin;
}

unfoldable pub push_message : List ℕ → Bool → Bool → TcpSender → TcpSender
unfolding insert_once
push_message payload syn fin s =
    let absolute_seqno = get_absolute_seqno s in
    let message = message_at absolute_seqno s.m_isn payload syn fin in
    record s {
      m_outstanding_messages =
          insert_once (record { first = absolute_seqno; second = message })
            s.m_outstanding_messages;
      m_send_queue = s.m_send_queue ++ (message ∷ []);
    }

unfoldable pub sequence_numbers_in_flight : TcpSender → ℕ
sequence_numbers_in_flight s = sub64 (get_absolute_seqno s) s.m_window_left

-- The message at the front of the queue; the timer is started unless it runs.
unfoldable pub take_front : List TcpSenderMessage → TcpSender → Option TcpSenderMessage × TcpSender
take_front [] s = (none, s)
take_front (message ∷ queue) s = (
  some message,
  record s {
    m_send_queue = queue;
    m_retransmission_timer =
        if s.m_retransmission_timer.m_running
        then s.m_retransmission_timer
        else restart s.m_rto_ms.m_value;
  },
)

unfoldable pub maybe_send : TcpSender → Option TcpSenderMessage × TcpSender
unfolding take_front
maybe_send s = take_front s.m_send_queue s

abbrev pub is_fin_msg : ℕ → List ℕ → ByteStream → TcpSender → Bool
is_fin_msg window_right payload outbound s =
    ltb (u64 (length payload + get_absolute_seqno s)) window_right && is_finished outbound

-- m_fin_pushed and push_message for a payload that was read.
unfoldable pub emit : ℕ → List ℕ → ByteStream → TcpSender → TcpSender
emit window_right payload outbound s =
    let fin = is_fin_msg window_right payload outbound s in
    push_message payload false fin (record s { m_fin_pushed = s.m_fin_pushed || fin })

abbrev pub is_idle : ℕ → List ℕ → ByteStream → TcpSender → Bool
is_idle window_right payload outbound s =
    is_empty payload && not (is_fin_msg window_right payload outbound s)

-- The loop over full segments.
unfoldable pub fill : ℕ → ℕ → TcpSender → ByteStream → Outcome (TcpSender × ByteStream)
fill zero window_right s outbound = stuck
fill (suc fuel) window_right s outbound =
    let round = read max_payload_size outbound >>= λ r.
    let next = fill fuel window_right (emit window_right r.1 r.0 s) r.0 in
    if is_idle window_right r.1 r.0 s then ok (s, r.0) else next in
    if not s.m_fin_pushed && leb (u64 (get_absolute_seqno s + max_payload_size)) window_right
    then round
    else ok (s, outbound)

-- The last segment, as far as the window goes.
unfoldable pub fill_rest : ℕ → TcpSender → ByteStream → Outcome (TcpSender × ByteStream)
fill_rest window_right s outbound =
    let round = read (sub64 window_right (get_absolute_seqno s)) outbound >>= λ r.
    if is_idle window_right r.1 r.0 s then ok (s, r.0) else ok (emit window_right r.1 r.0 s, r.0) in
    if not s.m_fin_pushed && ltb (get_absolute_seqno s) window_right
    then round
    else ok (s, outbound)

unfoldable pub window_right : TcpSender → ℕ
window_right s =
    if s.m_window_size == 0
    then u64 (s.m_window_left + 1)
    else u64 (s.m_window_left + s.m_window_size)

unfoldable pub push_syn : ByteStream → TcpSender → TcpSender
push_syn outbound s =
    if s.m_syc_pushed
    then s
    else push_message [] true (is_finished outbound)
        (record s { m_syc_pushed = true; m_fin_pushed = is_finished outbound })

-- Each round of the loop takes a byte at least, or sends the FIN.
unfoldable pub push : ByteStream → TcpSender → Outcome (TcpSender × ByteStream)
push outbound s =
    let s' = push_syn outbound s in
    let filled = fill (suc (suc (length outbound.buffer))) (window_right s') s' outbound >>= λ r.
    fill_rest (window_right s') r.0 r.1 in
    if s'.m_fin_pushed then ok (s', outbound) else filled

unfoldable pub send_empty_message : TcpSender → TcpSenderMessage
send_empty_message s = message_at (get_absolute_seqno s) s.m_isn [] false false

-- The loop of receive: what stays outstanding, and whether a message was acknowledged.
pub acknowledge : ℕ → ℕ → List Outstanding → List Outstanding × Bool
acknowledge ackno window_left [] = ([], false)
acknowledge ackno window_left (o ∷ os) =
    let rest = acknowledge ackno window_left os in
    if ltb ackno (message_end o) || ltb (seqno_after window_left (o ∷ os)) ackno
    then (o ∷ os, false)
    else (rest.0, true)

abbrev pub is_none_left : List Outstanding → Bool
is_none_left [] = true
is_none_left (o ∷ os) = false

pub receive_ackno : ℕ → TcpSender → TcpSender
unfolding acknowledge
receive_ackno ackno s =
    let left = acknowledge ackno s.m_window_left s.m_outstanding_messages in
    let rto = set_timeout successful_receipt s.m_rto_ms in
    if left.1
    then record s {
      m_outstanding_messages = left.0;
      m_rto_ms = rto;
      m_consecutive_retransmissions = 0;
      m_window_left = ackno;
      m_retransmission_timer = if is_none_left left.0 then stop else restart rto.m_value;
    }
    else record s { m_outstanding_messages = left.0 }

unfoldable pub receive : TcpReceiverMessage → TcpSender → TcpSender
unfolding receive_ackno
receive msg s = elim msg.ackno [
  | none ↦ s
  | some ackno ↦ record (receive_ackno (unwrap ackno s.m_isn s.m_window_left) s) {
    m_window_size = msg.window_size;
  }
]

-- The timeout, with the first outstanding message.
pub resent : Outstanding → TcpSender → TcpSender
resent o s =
    let rto = if ltb 0 s.m_window_size then set_timeout timeout s.m_rto_ms else s.m_rto_ms in
    record s {
      m_send_queue = s.m_send_queue ++ (o.second ∷ []);
      m_rto_ms = rto;
      m_consecutive_retransmissions =
          if ltb 0 s.m_window_size
          then u64 (s.m_consecutive_retransmissions + 1)
          else s.m_consecutive_retransmissions;
      m_retransmission_timer = restart rto.m_value;
    }

-- begin() of the outstanding messages is read, which is undefined if there are none.
pub resend : List Outstanding → TcpSender → Outcome TcpSender
unfolding resent
resend [] s = undefined
resend (o ∷ os) s = ok (resent o s)

abbrev pub elapsed : ℕ → TcpSender → TcpSender
elapsed ms s = record s {
  m_timer = u64 (s.m_timer + ms);
  m_retransmission_timer = elapse ms s.m_retransmission_timer;
}

unfoldable pub tick : ℕ → TcpSender → Outcome TcpSender
unfolding resend
tick ms s =
    let timer = elapse ms s.m_retransmission_timer in
    let s' = elapsed ms s in if is_timeout timer then resend s.m_outstanding_messages s' else ok s'
