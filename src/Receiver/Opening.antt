-- ===== src/Receiver/Opening.antt =====
-- The receiver of src/tcp_receiver.cc while a connection opens.
use cs144_minnow.Base.{
  ℕ, ◌+◌, ◌≡◌, refl, ap, ◌∙◌, Bool, true, false, [], arith, ◌-◌, ◌||◌, length, sym, subst, leb, u64,
  sub64, inl, inr, Bool-cases, IsU32,
}
use cs144_minnow.Wrap.{Wrap32, wrap}
use cs144_minnow.Stream.{ByteStream}
use cs144_minnow.Stream
use cs144_minnow.Reassembler
use cs144_minnow.Reassembler.Safety.{insert_early, insert_known}
use cs144_minnow.Messages.{TcpSenderMessage, bit}
use cs144_minnow.Sender.{message_at}
use cs144_minnow.Receiver.{TcpReceiver}
use cs144_minnow.Receiver
use cs144_minnow.Receiver.Laws.{IsSegment, IsTuned, receive_inserts}
use cs144_minnow.Reassembler.Chain.{Agree}
use cs144_minnow.Reassembler.{Reassembler}

-- Nothing is inserted into a new stream at its start.
stored_nothing :
    (past_end len : ℕ) → Reassembler.insert_to_buffer past_end 0 len 0 [] [] 0 ≡ ([], 0)
unfolding Reassembler.clamp_end Reassembler.clamp_begin
stored_nothing past_end len = elim (Bool-cases (leb (u64 (0 + len)) 0)) [
  | inl t ↦ insert_early past_end 0 len 0 [] [] 0 t
  | inr f ↦ insert_known past_end 0 len 0 [] [] 0 (ground arith)
]

insert_nothing :
    (past_end cap : ℕ)
    → Reassembler.insert past_end 0 [] false Reassembler.init (Stream.init cap)
      ≡ (Reassembler.init, Stream.init cap)
unfolding Reassembler.insert Reassembler.init Stream.init Reassembler.write_to_stream
    Reassembler.close_at
insert_nothing past_end cap = rw (stored_nothing past_end (sub64 cap 0)) refl

abbrev pub open_receiver : Wrap32 → TcpReceiver
open_receiver z = record { m_recv_zero_point = z; m_syn_rcvd = true; m_fin_rcvd = false }

starts :
    (z : Wrap32) (m : TcpSenderMessage)
    → m.seqno ≡ wrap (0 + 1 - bit m.syn) z
    → m.payload ≡ []
    → IsSegment (λ i. 0) z 0 m
starts z m h e = record {
  numbered = h;
  syn_first = λ s. refl;
  agrees = subst (Agree (λ i. 0) 0) (sym e) tt;
  word = omega (arith, ap length e);
}

-- A SYN, or an ACK behind one, takes the receiver of an empty stream to the same state.
pub receive_empty :
    (past_end cap : ℕ) (z : Wrap32) (syn : Bool) (rcv : TcpReceiver)
    → IsU32 z.raw_value
    → IsTuned z rcv
    → (rcv.m_syn_rcvd || syn) ≡ true
    → rcv.m_fin_rcvd ≡ false
    → Receiver.receive past_end
        (message_at (0 + 1 - bit syn) z [] syn false)
        rcv
        Reassembler.init
        (Stream.init cap)
      ≡ (open_receiver z, Reassembler.init, Stream.init cap)
receive_empty past_end cap z syn rcv hz tuned known fin =
    let m = message_at (0 + 1 - bit syn) z [] syn false in
    let pushed : (Stream.init cap).bytes_pushed ≡ 0 = unfold Stream.init in refl in
    receive_inserts (λ i. 0) past_end z 0 m rcv Reassembler.init (Stream.init cap)
      (starts z m refl refl) hz tuned known (omega (arith, pushed)) (omega (arith, pushed))
    ∙ ap
        (λ (q : Reassembler × ByteStream). (
          record { m_recv_zero_point = z; m_syn_rcvd = true; m_fin_rcvd = rcv.m_fin_rcvd || false },
          q.0,
          q.1,
        ))
        (insert_nothing past_end cap)
    ∙ ap
        (λ b. (
          record { m_recv_zero_point = z; m_syn_rcvd = true; m_fin_rcvd = b || false },
          Reassembler.init,
          Stream.init cap,
        ))
        fin
