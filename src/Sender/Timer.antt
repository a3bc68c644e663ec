-- ===== src/Sender/Timer.antt =====
-- RetransmissionTimeout and RetransmissionTimer of src/tcp_sender.hh and src/tcp_sender.cc.
use cs144_minnow.Base.{ℕ, ◌+◌, ◌-◌, ◌^◌, Bool, true, false, ◌&&◌, leb, if◌then◌else◌, u64}

pub record RetransmissionTimeout : Type 0 where
  pub m_value : ℕ
  pub m_init_value : ℕ

pub data RetransmissionEvent : Type 0 where
  timeout successful_receipt : RetransmissionEvent

unfoldable pub set_timeout : RetransmissionEvent → RetransmissionTimeout → RetransmissionTimeout
set_timeout timeout t = record t { m_value = u64 (t.m_value + t.m_value) }
set_timeout successful_receipt t = record t { m_value = t.m_init_value }

pub record RetransmissionTimer : Type 0 where
  pub m_timer : ℕ
  pub m_timeout : ℕ
  pub m_running : Bool

unfoldable pub restart : ℕ → RetransmissionTimer
restart ms_timeout = record { m_timer = 0; m_timeout = ms_timeout; m_running = true }

unfoldable pub elapse : ℕ → RetransmissionTimer → RetransmissionTimer
elapse ms t = record t { m_timer = if t.m_running then u64 (t.m_timer + ms) else t.m_timer }

unfoldable pub stop : RetransmissionTimer
stop = record { m_timer = 0; m_timeout = 2 ^ 64 - 1; m_running = false }

-- The members' initialisers, which are what stop sets.
unfoldable pub idle : RetransmissionTimer
idle = record { m_timer = 0; m_timeout = 2 ^ 64 - 1; m_running = false }

unfoldable pub is_timeout : RetransmissionTimer → Bool
is_timeout t = t.m_running && leb t.m_timeout t.m_timer
