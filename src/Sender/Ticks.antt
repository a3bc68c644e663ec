-- ===== src/Sender/Ticks.antt =====
-- tick and maybe_send of src/tcp_sender.cc: the retransmission timer.
use cs144_minnow.Base.{ℕ, ◌+◌, ◌≤◌, ◌<◌, ◌^◌, ◌≡◌, refl, ◌≢◌, ◌∙◌, true, some, List, [], ◌∷◌, arith}
use cs144_minnow.Base.Outcome.{ok, undefined}
use cs144_minnow.Wrap.{Wrap32, unwrap}
use cs144_minnow.Messages.{TcpSenderMessage}
use cs144_minnow.Sender.Timer.{restart, stop, elapse, is_timeout}
use cs144_minnow.Sender.{TcpSender, get_absolute_seqno, tick, maybe_send, receive, resend}
use cs144_minnow.Sender.Flight.{IsInflight}
use cs144_minnow.Sender.Acks.{receive_all}

-- While the timer runs and its time is not over, tick only adds to the two clocks.
pub tick_running :
    (ms : ℕ) (s : TcpSender)
    → s.m_retransmission_timer.m_running ≡ true
    → s.m_timer + ms < 2 ^ 64
    → s.m_retransmission_timer.m_timer + ms < s.m_retransmission_timer.m_timeout
    → s.m_retransmission_timer.m_timeout < 2 ^ 64
    → tick ms s
      ≡ ok (record s {
        m_timer = s.m_timer + ms;
        m_retransmission_timer = record s.m_retransmission_timer {
          m_timer = s.m_retransmission_timer.m_timer + ms;
        };
      })
unfolding tick elapse is_timeout
tick_running ms s t h k w = ground arith

restarted :
    (t : TcpSender) (m : TcpSenderMessage) (queue : List TcpSenderMessage)
    → t.m_send_queue ≡ m ∷ queue
    → t.m_retransmission_timer ≡ stop
    → (maybe_send t).1
      ≡ record t { m_send_queue = queue; m_retransmission_timer = restart t.m_rto_ms.m_value }
unfolding maybe_send stop restart
restarted t m queue q e = simp (q, e)

tick_runs_out :
    (ms value : ℕ) (t : TcpSender)
    → t.m_retransmission_timer ≡ restart value
    → value ≤ ms
    → ms < 2 ^ 64
    → t.m_outstanding_messages ≡ []
    → tick ms t ≡ undefined
unfolding tick elapse is_timeout restart resend
tick_runs_out ms value t e h w q = ground arith

-- The path to an undefined tick: a retransmission is queued, everything outstanding is then
-- acknowledged, maybe_send starts the timer for the queued message, and its time runs out.
pub tick-undefined :
    (a : Wrap32) (window ms : ℕ) (m : TcpSenderMessage) (queue : List TcpSenderMessage)
    (s : TcpSender)
    → IsInflight s
    → s.m_outstanding_messages ≢ []
    → s.m_send_queue ≡ m ∷ queue
    → unwrap a s.m_isn s.m_window_left ≡ get_absolute_seqno s
    → s.m_rto_ms.m_init_value ≤ ms
    → ms < 2 ^ 64
    → let acked = receive (record { ackno = some a; window_size = window }) s in
      tick ms (maybe_send acked).1 ≡ undefined
tick-undefined a window ms m queue s c h q e long w =
    let acked = receive (record { ackno = some a; window_size = window }) s in
    let (none_left, stopped, value, count, edge, kept) = receive_all a window s c h e in
    rw (restarted acked m queue (kept ∙ q) stopped)
      (tick_runs_out ms acked.m_rto_ms.m_value _ refl (omega arith) w none_left)
