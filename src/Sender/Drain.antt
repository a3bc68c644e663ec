-- ===== src/Sender/Drain.antt =====
-- How much is left to send after push of src/tcp_sender.cc, and that push can be called again.
use cs144_minnow.Base.{
  ℕ, ◌+◌, ◌*◌, ◌≤◌, ◌<◌, ◌^◌, ◌≡◌, refl, sym, ap, ◌∙◌, subst, inl, inr, All, none, some, Bool, true,
  false, not, ◌&&◌, List, [], ◌∷◌, ◌++◌, append-nil, arith, length, length-append, Bool-cases,
}
use cs144_minnow.Base.Outcome.{ok}
use cs144_minnow.Stream.{ByteStream, is_finished}
use cs144_minnow.Messages.{TcpSenderMessage, bit}
use cs144_minnow.Sender.{
  TcpSender, get_absolute_seqno, window_right, push_message, push_syn, push, take_front, maybe_send,
}
use cs144_minnow.Sender.Emit.{IsReady, IsSmall, Sends, payloads, payloads-append}
use cs144_minnow.Sender.Push.{push_syn_old, push_syn_new, push_syn-Opened, push-Sends}

-- A bound on the messages that the sender can still queue, and those that it has queued: each has
-- a byte, the SYN or the FIN.
abbrev pub unsent : TcpSender → ByteStream → ℕ
unsent s out =
    length s.m_send_queue
    + length out.buffer
    + bit (not s.m_syc_pushed)
    + bit (not (s.m_syc_pushed && s.m_fin_pushed))

-- The numbers stay below 2^64 whatever the window lets through.
pub record IsBounded (s : TcpSender) : Type 0 where
  pub right : window_right s + 1004 < 2 ^ 64
  pub next : get_absolute_seqno s + 1004 + 2 * bit (not s.m_syc_pushed) < 2 ^ 64

-- What push leaves: the same bytes, and no more to send.
pub record Pushed (s : TcpSender) (out : ByteStream) (s' : TcpSender) (out' : ByteStream)
    : Type 0 where
  pub ready : IsReady s' out'
  pub bounded : IsBounded s'
  pub kept : payloads s'.m_send_queue ++ out'.buffer ≡ payloads s.m_send_queue ++ out.buffer
  pub fewer : unsent s' out' ≤ unsent s out

record Opens (s : TcpSender) (out : ByteStream) (s0 : TcpSender) : Type 0 where
  opened : s0.m_syc_pushed ≡ true
  kept : payloads s0.m_send_queue ≡ payloads s.m_send_queue
  fewer :
      length s0.m_send_queue + bit (not s0.m_fin_pushed)
      ≤ length s.m_send_queue
        + bit (not s.m_syc_pushed)
        + bit (not (s.m_syc_pushed && s.m_fin_pushed))

bit-le : (b : Bool) → bit b ≤ 1
bit-le true = omega arith
bit-le false = omega arith

push_syn-Opens : (s : TcpSender) (out : ByteStream) → Opens s out (push_syn out s)
push_syn-Opens s out = elim (Bool-cases s.m_syc_pushed) [
  | inl t ↦
      subst (Opens s out) (sym (push_syn_old s out t))
        (record { opened = t; kept = refl; fewer = already s.m_syc_pushed s.m_fin_pushed t })
  | inr f ↦ subst (Opens s out) (sym (push_syn_new s out f)) (record {
    opened = unfold push_message in refl;
    kept =
        unfold push_message in
        (payloads-append s.m_send_queue _ ∙ append-nil (payloads s.m_send_queue));
    fewer = unfold push_message in fresh s.m_syc_pushed s.m_fin_pushed _ f;
  })
]
  where
    already :
        (a b : Bool)
        → a ≡ true
        → length s.m_send_queue + bit (not b)
          ≤ length s.m_send_queue + bit (not a) + bit (not (a && b))
    already true b t = omega arith
    already false b t = absurd (ground arith)

    fresh :
        (a b : Bool) (m : TcpSenderMessage)
        → a ≡ false
        → length (s.m_send_queue ++ (m ∷ [])) + bit (not (is_finished out))
          ≤ length s.m_send_queue + bit (not a) + bit (not (a && b))
    fresh true b m f = absurd (ground arith)
    fresh false b m f =
        omega (arith, length-append s.m_send_queue (m ∷ []), bit-le (not (is_finished out)))

-- The SYN and a FIN with it take numbers, once.
push_syn_next :
    (s : TcpSender) (out : ByteStream)
    → get_absolute_seqno (push_syn out s) ≤ get_absolute_seqno s + 2
    → get_absolute_seqno (push_syn out s) ≤ get_absolute_seqno s + 2 * bit (not s.m_syc_pushed)
push_syn_next s out grown = elim (Bool-cases s.m_syc_pushed) [
  | inl t ↦ omega (arith, ap get_absolute_seqno (push_syn_old s out t))
  | inr f ↦ omega (arith, grown, ap (λ b. bit (not b)) f)
]

window_right-edges :
    (s s' : TcpSender)
    → (s'.m_window_left ≡ s.m_window_left) × (s'.m_window_size ≡ s.m_window_size)
    → window_right s' ≡ window_right s
unfolding window_right
window_right-edges s s' (l, z) = rw (l, z) refl

unsent_opened :
    (a b : Bool) (n k : ℕ)
    → a ≡ true
    → n + k + bit (not a) + bit (not (a && b)) ≡ n + k + bit (not b)
unsent_opened true b n k t = omega arith
unsent_opened false b n k t = absurd (ground arith)

-- What push did after the SYN s0.
Sends-Pushed :
    (s s0 s' : TcpSender) (out out' : ByteStream)
    → IsBounded s
    → Opens s out s0
    → get_absolute_seqno s0 ≤ get_absolute_seqno s + 2 * bit (not s.m_syc_pushed)
    → window_right s0 ≡ window_right s
    → Sends (window_right s) s0 out s' out'
    → Pushed s out s' out'
Sends-Pushed s s0 s' out out' b o next edge sent =
    let opened : s'.m_syc_pushed ≡ true = sent.opened ∙ o.opened in
    let edge' = window_right-edges s0 s' sent.edges ∙ edge in
    record {
      ready = sent.ready;
      bounded = record {
        right = omega (arith, edge', b.right);
        next = ground (arith, sent.inside, next, b.right, b.next, ap (λ c. bit (not c)) opened);
      };
      kept = sent.kept ∙ ap (λ t. t ++ out.buffer) o.kept;
      fewer = omega (
        arith,
        unsent_opened s'.m_syc_pushed s'.m_fin_pushed (length s'.m_send_queue) (length out'.buffer)
            opened,
        sent.fewer,
        o.fewer,
      );
    }

-- From a ready state whose numbers are bounded, push returns in such a state, with the same bytes
-- queued and buffered, and no more to send than before.
pub push-Pushed :
    (s : TcpSender) (out : ByteStream)
    → IsReady s out
    → IsBounded s
    → (s' : TcpSender) × (out' : ByteStream) × (push out s ≡ ok (s', out')) × Pushed s out s' out'
push-Pushed s out r b =
    let (s', out', e, sent) = push-Sends s out r (omega (arith, b.right)) (omega (arith, b.next)) in
    let (r0, grown, edge) = push_syn-Opened s out r (omega (arith, b.next)) in
    (
      s',
      out',
      e,
      Sends-Pushed s (push_syn out s) s' out out' b (push_syn-Opens s out)
          (push_syn_next s out grown) edge sent,
    )

-- maybe_send took the message m off the queue.
pub record Taken (s : TcpSender) (out : ByteStream) (m : TcpSenderMessage) (s' : TcpSender)
    : Type 0 where
  pub call : maybe_send s ≡ (some m, s')
  pub ready : IsReady s' out
  pub bounded : IsBounded s'
  pub kept : m.payload ++ payloads s'.m_send_queue ≡ payloads s.m_send_queue
  pub fewer : unsent s' out < unsent s out

pub maybe_send_empty : (s : TcpSender) → s.m_send_queue ≡ [] → maybe_send s ≡ (none, s)
unfolding maybe_send take_front
maybe_send_empty s q = rw q refl

pub maybe_send-Taken :
    (s : TcpSender) (out : ByteStream) (m : TcpSenderMessage) (ms : List TcpSenderMessage)
    → s.m_send_queue ≡ m ∷ ms
    → IsReady s out
    → IsBounded s
    → (s' : TcpSender) × Taken s out m s'
unfolding maybe_send take_front window_right
maybe_send-Taken s out m ms q r b =
    let s' = (take_front (m ∷ ms) s).1 in
    (
      s',
      record {
        call = rw q refl;
        ready = record {
          flight = r.flight;
          valid = r.valid;
          small = (subst (All IsSmall) q r.small).1;
        };
        bounded = record { right = b.right; next = b.next };
        kept = sym (ap payloads q);
        fewer = omega (arith, ap length q);
      },
    )
