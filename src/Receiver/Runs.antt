-- ===== src/Receiver/Runs.antt =====
-- Runs of src/tcp_receiver.cc, and its theorems at concrete segments.
use cs144_minnow.Base.{ℕ, ◌+◌, ◌≡◌, inl, inr, refl, ap, true, false, some, none, [], ◌∷◌, arith}
use cs144_minnow.Wrap.{Wrap32, wrap, unwrap}
use cs144_minnow.Stream.{init as fresh}
use cs144_minnow.Stream.Laws.{init-IsValid}
use cs144_minnow.Reassembler.{init as no_segments, insert}
use cs144_minnow.Reassembler.Safety.{Stored}
use cs144_minnow.Reassembler.History.{Reach-Stored, starts}
use cs144_minnow.Messages.{TcpSenderMessage, bit}
use cs144_minnow.Receiver.{TcpReceiver, init, receive, send}
use cs144_minnow.Receiver.Laws.{
  IsSegment, IsTuned, receive_inserts, receive-Stored, silent_before_syn, send_acks,
  window_size-send,
}

abbrev letters : ℕ → ℕ
letters k = k + 97

abbrev isn : Wrap32
isn = record { raw_value = 5000 }

abbrev syn_a : TcpSenderMessage
syn_a = record { seqno = isn; syn = true; payload = 97 ∷ []; fin = false }

abbrev byte_b : TcpSenderMessage
byte_b = record { seqno = record { raw_value = 5002 }; syn = false; payload = 98 ∷ []; fin = true }

abbrev tuned : TcpReceiver
tuned = record { m_recv_zero_point = isn; m_syn_rcvd = true; m_fin_rcvd = false }

syn_a-IsSegment : IsSegment letters isn 0 syn_a
syn_a-IsSegment = record {
  numbered = unfold wrap in refl;
  syn_first = λ e. refl;
  agrees = omega arith;
  word = omega arith;
}

byte_b-IsSegment : IsSegment letters isn 1 byte_b
byte_b-IsSegment = record {
  numbered = unfold wrap in refl;
  syn_first = λ e. ground arith;
  agrees = omega arith;
  word = omega arith;
}

no_segments-Stored : Stored letters no_segments.m_buf no_segments.m_bytes_pending (fresh 9)
no_segments-Stored = Reach-Stored (starts 9 (omega arith))

receive_inserts_example :
    (receive 0 byte_b tuned no_segments (fresh 9)).1
    ≡ (insert 0 1 (98 ∷ []) true no_segments (fresh 9)).0
unfolding fresh
receive_inserts_example =
    ap (λ t. t.1)
      (receive_inserts letters 0 isn 1 byte_b tuned no_segments (fresh 9) byte_b-IsSegment
        (omega arith) (inr refl) refl (omega arith) (omega arith))

receive-Stored_example :
    let q = receive 0 syn_a init no_segments (fresh 9) in
    Stored letters q.1.m_buf q.1.m_bytes_pending q.2 × IsTuned isn q.0
unfolding init fresh
receive-Stored_example =
    receive-Stored letters 0 isn 0 syn_a init no_segments (fresh 9) syn_a-IsSegment (omega arith)
      (inl refl) (omega arith) (omega arith) no_segments-Stored

silent_receiver :
    (receive 0 byte_b init no_segments (fresh 9) ≡ (init, no_segments, fresh 9))
    × ((send init (fresh 9)).ackno ≡ none)
unfolding init
silent_receiver = silent_before_syn 0 byte_b init no_segments (fresh 9) refl refl

send_acks_example :
    (a : Wrap32) × ((send tuned (fresh 9)).ackno ≡ some a)
    × (unwrap a isn 0 ≡ (fresh 9).bytes_pushed + 1 + bit (fresh 9).is_close)
unfolding fresh
send_acks_example =
    send_acks tuned (fresh 9) 0 refl (omega arith) (omega arith) (omega arith) (omega arith)

window_size-send_example : (send tuned (fresh 70000)).window_size ≡ 65535
unfolding fresh
window_size-send_example = window_size-send tuned (fresh 70000) (init-IsValid 70000 (omega arith))
