-- ===== src/Peer/Held.antt =====
-- The bytes of util/tcp_peer.hh's inbound stream that were taken, and those that it holds.
use cs144_minnow.Base.{
  ℕ, ◌-◌, ◌≤◌, ◌<◌, ◌^◌, ◌≡◌, subst, List, ◌++◌, arith, length, take, length-append, length-take,
}
use cs144_minnow.Wrap.{Wrap32}
use cs144_minnow.Stream.{pop}
use cs144_minnow.Reassembler.Chain.{Agree, Agree-append, Agree-take}
use cs144_minnow.Reassembler.History.{pop-Stored}
use cs144_minnow.Peer.{TcpPeer}
use cs144_minnow.Peer.Inbound.{IsInbound}

-- The peer holds bytes of src only, and n of them were taken from it.
pub record HeldPeer (src : ℕ → ℕ) (z : Wrap32) (n : ℕ) (p : TcpPeer) : Type 0 where
  pub inbound : IsInbound src z p
  pub popped : p.inbound_stream.bytes_popped ≡ n
  pub small : p.inbound_stream.capacity < 2 ^ 30

pub pushed-small :
    (src : ℕ → ℕ) (z : Wrap32) (n : ℕ) (p : TcpPeer)
    → n < 2 ^ 30
    → HeldPeer src z n p
    → p.inbound_stream.bytes_pushed < 2 ^ 31 - 1
pushed-small src z n p short h =
    let c = h.inbound.stored.output in
    omega (arith, short, h.popped, h.small, c.sum, c.valid.within)

-- n bytes of the inbound stream were written, and are popped.
pub pop-HeldPeer :
    (src : ℕ → ℕ) (z : Wrap32) (given : List ℕ) (n : ℕ) (p : TcpPeer)
    → length given < 2 ^ 30
    → n ≤ length p.inbound_stream.buffer
    → HeldPeer src z (length given) p
    → HeldPeer src z
        (length (given ++ take n p.inbound_stream.buffer))
        (record p { inbound_stream = pop n p.inbound_stream })
pop-HeldPeer src z given n p short le h =
    let c = h.inbound.stored.output in
    let b = p.inbound_stream.buffer in
    record {
      inbound = record {
        stored =
            pop-Stored src n p.reassembler p.inbound_stream
              (omega (arith, pushed-small src z (length given) p short h, h.small))
              h.inbound.stored;
        tuned = h.inbound.tuned;
      };
      popped =
          unfold pop in
          omega (
            arith,
            h.popped,
            h.small,
            c.valid.within,
            length-append given (take n b),
            length-take n b,
          );
      small = unfold pop in h.small;
    }

pub Agree-given :
    (src : ℕ → ℕ) (z : Wrap32) (given : List ℕ) (n : ℕ) (p : TcpPeer)
    → HeldPeer src z (length given) p
    → Agree src 0 given
    → Agree src 0 (given ++ take n p.inbound_stream.buffer)
Agree-given src z given n p h a =
    Agree-append src 0 (length given) given (take n p.inbound_stream.buffer) (omega arith) a (
      Agree-take src n (length given) p.inbound_stream.buffer
        (subst (λ k. Agree src k p.inbound_stream.buffer) h.popped h.inbound.stored.output.agrees))
