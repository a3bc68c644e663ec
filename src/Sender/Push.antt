-- ===== src/Sender/Push.antt =====
-- push of src/tcp_sender.cc: it ends, stays in the window, and loses no byte of the stream.
use cs144_minnow.Base.{
  All-append, ℕ, zero, suc, ◌+◌, ◌≤◌, ◌<◌, ◌^◌, ◌≡◌, refl, sym, ap, ◌∙◌, subst, ◌⊎◌, inl, inr, Bool,
  true, false, not, ◌&&◌, List, [], ◌∷◌, arith, length, take, drop, u64, ltb, leb, sub64,
  Bool-cases, length-take,
}
use cs144_minnow.Base.Outcome.{ok, ◌>>=◌}
use cs144_minnow.Stream.{ByteStream, pop, is_finished, is_empty}
use cs144_minnow.Stream.Laws.{read_lem, buffer-pop}
use cs144_minnow.Messages.{bit, max_payload_size}
use cs144_minnow.Sender.{
  TcpSender, get_absolute_seqno, push_message, emit, is_idle, fill, fill_rest, window_right,
  push_syn, push,
}
use cs144_minnow.Sender.Flight.{push_message-IsInflight}
use cs144_minnow.Sender.Emit.{
  IsReady, IsSmall, Sends, Sends-trans, Sends-refl, emit-Sends, idle-Sends, emit_smaller,
}

-- Why the loop over full segments ended.
abbrev Full : ℕ → TcpSender → ByteStream → Type 0
Full wr s out =
    (s.m_fin_pushed ≡ true) ⊎ (wr < get_absolute_seqno s + max_payload_size) ⊎ (out.buffer ≡ [])

open_full :
    {P : Type 0} (b : Bool) (x wr : ℕ)
    → (not b && leb (u64 (x + max_payload_size)) wr) ≡ false
    → x + max_payload_size < 2 ^ 64
    → (b ≡ true) ⊎ (wr < x + max_payload_size) ⊎ P
open_full true x wr h k = inl refl
open_full false x wr h k = inr (inl (ground arith))

take_empty :
    (n : ℕ) (xs : List ℕ) (f : Bool)
    → (is_empty (take (suc n) xs) && f) ≡ true
    → drop (suc n) xs ≡ []
take_empty n [] f h = refl
take_empty n (x ∷ xs) f h = ground arith

drained :
    (s : TcpSender) (out : ByteStream) (f : Bool)
    → (is_empty (take max_payload_size out.buffer) && f) ≡ true
    → (pop max_payload_size out).buffer ≡ []
drained s out f h = buffer-pop max_payload_size out ∙ take_empty 999 out.buffer f h

fill-Sends :
    (fuel wr : ℕ) (s : TcpSender) (out : ByteStream)
    → IsReady s out
    → wr + max_payload_size + 2 < 2 ^ 64
    → get_absolute_seqno s + max_payload_size + 2 < 2 ^ 64
    → length out.buffer + bit (not s.m_fin_pushed) < fuel
    → (s' : TcpSender) × (out' : ByteStream) × (fill fuel wr s out ≡ ok (s', out'))
      × Sends wr s out s' out'
      × Full wr s' out'
unfolding fill
fill-Sends zero wr s out r hw hs hf = absurd (omega arith)
fill-Sends (suc fuel) wr s out r hw hs hf =
    elim (Bool-cases
      (not s.m_fin_pushed && leb (u64 (get_absolute_seqno s + max_payload_size)) wr)) [
        | inr f ↦
            (s, out, rw f, Sends-refl wr s out r, open_full s.m_fin_pushed _ wr f (omega arith))
        | inl t ↦
            let nf : s.m_fin_pushed ≡ false = ground arith in
            let fits : get_absolute_seqno s + max_payload_size ≤ wr = ground arith in
            let rd = read_lem max_payload_size out r.valid in
            elim (Bool-cases
              (is_idle wr (take max_payload_size out.buffer) (pop max_payload_size out) s)) [
                | inl i ↦ (
                  s,
                  pop max_payload_size out,
                  rw (t, rd, i),
                  idle-Sends wr max_payload_size s out r i,
                  inr (inr (drained s out _ i)),
                )
                | inr b ↦
                    let em =
                      emit-Sends wr max_payload_size s out r nf
                        (omega (arith, length-take max_payload_size out.buffer)) fits (omega arith)
                        b in
                    let (s', out', q, sent, full) =
                      fill-Sends fuel wr
                        (emit wr (take max_payload_size out.buffer) (pop max_payload_size out) s)
                        (pop max_payload_size out) em.ready hw (omega (arith, em.inside))
                        (omega (
                          arith,
                          emit_smaller wr max_payload_size s out nf (omega arith) b,
                          ap (λ x. bit (not x)) nf,
                        )) in
                    (s', out', rw (t, rd, b) q, Sends-trans wr _ _ _ _ _ _ em sent, full)
              ]
      ]

fill_rest-Sends :
    (wr : ℕ) (s : TcpSender) (out : ByteStream)
    → IsReady s out
    → wr + 2 < 2 ^ 64
    → Full wr s out
    → (s' : TcpSender) × (out' : ByteStream) × (fill_rest wr s out ≡ ok (s', out'))
      × Sends wr s out s' out'
unfolding fill_rest
fill_rest-Sends wr s out r hw full =
    elim (Bool-cases (not s.m_fin_pushed && ltb (get_absolute_seqno s) wr)) [
      | inr f ↦ (s, out, rw f, Sends-refl wr s out r)
      | inl t ↦
          let n = sub64 wr (get_absolute_seqno s) in
          let nf : s.m_fin_pushed ≡ false = ground arith in
          let room : get_absolute_seqno s < wr = ground arith in
          let rd = read_lem n out r.valid in
          elim (Bool-cases (is_idle wr (take n out.buffer) (pop n out) s)) [
            | inl i ↦ (s, pop n out, rw (t, rd, i), idle-Sends wr n s out r i)
            | inr b ↦ (
              emit wr (take n out.buffer) (pop n out) s,
              pop n out,
              rw (t, rd, b),
              emit-Sends wr n s out r nf (short nf room full) (omega arith) hw b,
            )
          ]
    ]
  where
    short :
        s.m_fin_pushed ≡ false
        → get_absolute_seqno s < wr
        → Full wr s out
        → length (take (sub64 wr (get_absolute_seqno s)) out.buffer) ≤ max_payload_size
    short nf room (inl x) = cc
    short nf room (inr (inl x)) =
        omega (arith, length-take (sub64 wr (get_absolute_seqno s)) out.buffer)
    short nf room (inr (inr x)) =
        omega (arith, ap length x, length-take (sub64 wr (get_absolute_seqno s)) out.buffer)

pub push_syn_old : (s : TcpSender) (out : ByteStream) → s.m_syc_pushed ≡ true → push_syn out s ≡ s
unfolding push_syn
push_syn_old s out t = simp t

pub push_syn_new :
    (s : TcpSender) (out : ByteStream)
    → s.m_syc_pushed ≡ false
    → let fin = is_finished out in
      push_syn out s
      ≡ push_message [] true fin (record s { m_syc_pushed = true; m_fin_pushed = fin })
unfolding push_syn
push_syn_new s out f = simp f

abbrev pub Opened : TcpSender → ByteStream → TcpSender → Type 0
Opened s out s0 =
    IsReady s0 out
    × (get_absolute_seqno s0 ≤ get_absolute_seqno s + 2)
    × (window_right s0 ≡ window_right s)

-- The SYN takes a sequence number, as does a FIN with it.
pub push_syn-Opened :
    (s : TcpSender) (out : ByteStream)
    → IsReady s out
    → get_absolute_seqno s + 2 < 2 ^ 64
    → Opened s out (push_syn out s)
push_syn-Opened s out r hs = elim (Bool-cases s.m_syc_pushed) [
  | inl t ↦ subst (Opened s out) (sym (push_syn_old s out t)) (r, omega arith, refl)
  | inr f ↦
      let fin = is_finished out in
      let s0 : TcpSender = record s { m_syc_pushed = true; m_fin_pushed = fin } in
      let pushed =
        push_message-IsInflight [] true fin s0 r.flight (omega arith) (omega (arith, bit-le fin)) in
      subst (Opened s out) (sym (push_syn_new s out f)) (
        record {
          flight = pushed.0;
          valid = r.valid;
          small =
              unfold push_message in
              All-append IsSmall s.m_send_queue (_ ∷ []) r.small (omega arith, tt);
        },
        omega (arith, pushed.1, bit-le fin),
        unfold push_message window_right in refl,
      )
]
  where
    bit-le : (b : Bool) → bit b ≤ 1
    bit-le true = omega arith
    bit-le false = omega arith

push_stops :
    (s : TcpSender) (out : ByteStream)
    → (push_syn out s).m_fin_pushed ≡ true
    → push out s ≡ ok (push_syn out s, out)
unfolding push
push_stops s out t = simp t

pub push_goes_on :
    (s : TcpSender) (out : ByteStream)
    → (push_syn out s).m_fin_pushed ≡ false
    → window_right (push_syn out s) ≡ window_right s
    → push out s ≡ (
        fill (suc (suc (length out.buffer))) (window_right s) (push_syn out s) out >>= λ r.
        fill_rest (window_right s) r.0 r.1)
unfolding push
push_goes_on s out f e = simp (f, e)

-- From a ready state with its numbers well below 2^64, push returns: it ends within its fuel and
-- does not throw. After the SYN, if that was still to be sent, every byte taken off the stream is
-- queued in order and takes a sequence number, as does the FIN; the queued payloads stay within
-- MAX_PAYLOAD_SIZE; the messages in flight stay end to end; and no sequence number beyond the
-- window's right edge is taken.
pub push-Sends :
    (s : TcpSender) (out : ByteStream)
    → IsReady s out
    → window_right s + max_payload_size + 2 < 2 ^ 64
    → get_absolute_seqno s + max_payload_size + 4 < 2 ^ 64
    → (s' : TcpSender) × (out' : ByteStream) × (push out s ≡ ok (s', out'))
      × Sends (window_right s) (push_syn out s) out s' out'
push-Sends s out r hw hs =
    let s0 = push_syn out s in
    let (r0, grown, edge) = push_syn-Opened s out r (omega arith) in
    elim (Bool-cases s0.m_fin_pushed) [
      | inl t ↦ (s0, out, push_stops s out t, Sends-refl (window_right s) s0 out r0)
      | inr f ↦
          let (s1, out1, q1, sent1, full) =
            fill-Sends (suc (suc (length out.buffer))) (window_right s) s0 out r0 hw (omega arith)
              (omega (arith, ap (λ b. bit (not b)) f)) in
          let (s2, out2, q2, sent2) =
            fill_rest-Sends (window_right s) s1 out1 sent1.ready (omega arith) full in
          (
            s2,
            out2,
            push_goes_on s out f edge
                ∙ ap (λ m. m >>= λ r. fill_rest (window_right s) r.0 r.1) q1
                ∙ q2,
            Sends-trans (window_right s) s0 s1 s2 out out1 out2 sent1 sent2,
          )
    ]
