-- ===== src/Messages.antt =====
-- util/tcp_sender_message.hh, util/tcp_receiver_message.hh and util/tcp_config.hh. A Buffer
-- (util/buffer.hh) is read as the list of its bytes: the code shares one only to copy it.
use cs144_minnow.Base.{ℕ, ◌+◌, Bool, true, false, Option, List, length}
use cs144_minnow.Wrap.{Wrap32}

pub record TcpSenderMessage : Type 0 where
  pub seqno : Wrap32
  pub syn : Bool
  pub payload : List ℕ
  pub fin : Bool

pub record TcpReceiverMessage : Type 0 where
  pub ackno : Option Wrap32
  pub window_size : ℕ

-- A bool in an integer context.
abbrev pub bit : Bool → ℕ
bit true = 1
bit false = 0

abbrev pub sequence_length : TcpSenderMessage → ℕ
sequence_length m = bit m.syn + length m.payload + bit m.fin

abbrev pub max_payload_size : ℕ
max_payload_size = 1000

abbrev pub default_capacity : ℕ
default_capacity = 64000

abbrev pub timeout_dflt : ℕ
timeout_dflt = 1000
