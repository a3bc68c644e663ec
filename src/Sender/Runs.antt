-- ===== src/Sender/Runs.antt =====
-- Runs of src/tcp_sender.cc, and its theorems at concrete senders.
use cs144_minnow.Base.{ℕ, ◌≡◌, inr, refl, true, false, some, [], ◌∷◌, arith}
use cs144_minnow.Base.Outcome.{ok, undefined}
use cs144_minnow.Wrap.{Wrap32, unwrap}
use cs144_minnow.Stream.{ByteStream, init as fresh}
use cs144_minnow.Stream.Laws.{init-IsValid}
use cs144_minnow.Messages.{TcpSenderMessage}
use cs144_minnow.Sender.{
  Outstanding, TcpSender, init, push, push_syn, seqno_after, window_right, receive, tick,
  maybe_send, get_absolute_seqno,
}
use cs144_minnow.Sender.Flight.{IsInflight}
use cs144_minnow.Sender.Emit.{IsReady, Sends}
use cs144_minnow.Sender.Push.{push-Sends}
use cs144_minnow.Sender.Acks.{Advances, receive-Advances, receive_useless, receive_all}
use cs144_minnow.Sender.Ticks.{tick_running, tick-undefined}
use cs144_minnow.Sender.Timer.{restart}
use cs144_minnow.Sender.Backoff.{ticks, IsArmed, IsBackedOff, ticks-Backoff}

abbrev isn : Wrap32
isn = record { raw_value = 5000 }

abbrev acked_at : ℕ → Wrap32
acked_at n = record { raw_value = n }

abbrev syn_message : TcpSenderMessage
syn_message = record { seqno = isn; syn = true; payload = []; fin = false }

abbrev syn_outstanding : Outstanding
syn_outstanding = record { first = 0; second = syn_message }

-- The SYN is outstanding, and its retransmission is queued.
abbrev syn_sent : TcpSender
syn_sent = record {
  m_outstanding_messages = syn_outstanding ∷ [];
  m_send_queue = syn_message ∷ [];
  m_syc_pushed = true;
  m_fin_pushed = false;
  m_timer = 1200;
  m_retransmission_timer = record { m_timer = 200; m_timeout = 2000; m_running = true };
  m_isn = isn;
  m_rto_ms = record { m_value = 2000; m_init_value = 1000 };
  m_consecutive_retransmissions = 1;
  m_window_left = 0;
  m_window_size = 1;
}

syn_sent-IsInflight : IsInflight syn_sent
syn_sent-IsInflight = (omega arith, omega arith, omega arith, tt)

fresh_sender-IsReady : IsReady (init 0 1000 (some isn)) (fresh 64)
unfolding init fresh
fresh_sender-IsReady = record {
  flight = omega arith;
  valid = init-IsValid 64 (omega arith);
  small = tt;
}

push-Sends_example :
    (s' : TcpSender) × (out' : ByteStream) × (push (fresh 64) (init 0 1000 (some isn))
      ≡ ok (s', out'))
    × Sends
        (window_right (init 0 1000 (some isn)))
        (push_syn (fresh 64) (init 0 1000 (some isn)))
        (fresh 64)
        s'
        out'
unfolding init window_right seqno_after
push-Sends_example =
    push-Sends (init 0 1000 (some isn)) (fresh 64) fresh_sender-IsReady (omega arith) (omega arith)

receive-Advances_example :
    Advances syn_sent (receive (record { ackno = some (acked_at 5001); window_size = 9 }) syn_sent)
    × ((receive (record { ackno = some (acked_at 5001); window_size = 9 }) syn_sent).m_window_size
        ≡ 9)
receive-Advances_example =
    receive-Advances (record { ackno = some (acked_at 5001); window_size = 9 }) syn_sent
      syn_sent-IsInflight

useless_ackno :
    receive (record { ackno = some (acked_at 5007); window_size = 9 }) syn_sent
    ≡ record syn_sent { m_window_size = 9 }
unfolding unwrap seqno_after
useless_ackno =
    receive_useless (acked_at 5007) 9 syn_sent syn_outstanding [] refl (inr (omega arith))

syn_acked : unwrap (acked_at 5001) isn 0 ≡ get_absolute_seqno syn_sent
unfolding unwrap seqno_after
syn_acked = refl

receive_all_example :
    (receive
      (record { ackno = some (acked_at 5001); window_size = 9 })
      syn_sent).m_outstanding_messages
    ≡ []
receive_all_example =
    (receive_all (acked_at 5001) 9 syn_sent syn_sent-IsInflight (λ e. cc) syn_acked).0

running_tick :
    tick 100 syn_sent
    ≡ ok (record syn_sent {
      m_timer = 1300;
      m_retransmission_timer = record { m_timer = 300; m_timeout = 2000; m_running = true };
    })
running_tick = tick_running 100 syn_sent refl (omega arith) (omega arith) (omega arith)

-- The SYN has been sent with a timeout of a second.
abbrev armed : TcpSender
armed = record syn_sent {
  m_send_queue = [];
  m_retransmission_timer = record { m_timer = 0; m_timeout = 1000; m_running = true };
  m_rto_ms = record { m_value = 1000; m_init_value = 1000 };
  m_consecutive_retransmissions = 0;
}

armed-IsArmed : IsArmed syn_outstanding armed
unfolding restart
armed-IsArmed = record {
  rest = [];
  outstanding = refl;
  timer = refl;
  window = omega arith;
  timeout = omega arith;
}

ticks-Backoff_example :
    (k : ℕ) × (s' : TcpSender) × (ticks (600 ∷ 500 ∷ 1900 ∷ 200 ∷ []) armed ≡ ok s')
    × IsBackedOff syn_outstanding armed 1900 k 3200 s'
ticks-Backoff_example =
    ticks-Backoff syn_outstanding armed 1900 (600 ∷ 500 ∷ 1900 ∷ 200 ∷ []) armed-IsArmed
      (omega arith) (omega arith) (omega arith)

tick-undefined_example :
    tick 1000
      (maybe_send (receive (record { ackno = some (acked_at 5001); window_size = 9 }) syn_sent)).1
    ≡ undefined
tick-undefined_example =
    tick-undefined (acked_at 5001) 9 1000 syn_message [] syn_sent syn_sent-IsInflight (λ e. cc) refl
      syn_acked (omega arith) (omega arith)
