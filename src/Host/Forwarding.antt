-- ===== src/Host/Forwarding.antt =====
-- What a round of the router's thread of apps/endtoend.cc sends on.
use cs144_minnow.Base.{
  ℕ, zero, suc, ◌<◌, ◌≡◌, ◌≢◌, refl, sym, ap, ◌∙◌, List, [], ◌∷◌, ◌++◌, append-nil, append_assoc,
  arith, length,
}
use cs144_minnow.Base.Outcome.{Outcome, ok, ◌>>=◌}
use cs144_minnow.Wire.Ethernet.{EthernetFrame}
use cs144_minnow.Net.Interface.{NetworkInterface, maybe_send}
use cs144_minnow.Net.Interface
use cs144_minnow.Net.Router.{AsyncNetworkInterface}
use cs144_minnow.Host.Descriptor.{System}
use cs144_minnow.Host.RouterThread.{
  Network, at_interface, tick_interface, drain, drain_interface, after_event,
}

-- The frames that wait at an interface.
unfoldable pub frames_at : ℕ → List AsyncNetworkInterface → List EthernetFrame
frames_at num [] = []
frames_at zero (a ∷ rest) = a.interface.send_queue
frames_at (suc num) (a ∷ rest) = frames_at num rest

-- A tick neither adds nor drops a frame.
tick_at :
    (num : ℕ) (l : List AsyncNetworkInterface)
    → num < length l
    → (l' : List AsyncNetworkInterface) × (at_interface num (tick_interface 10) l ≡ ok l')
      × (length l' ≡ length l)
      × ((j : ℕ) → frames_at j l' ≡ frames_at j l)
unfolding at_interface frames_at Interface.tick
tick_at num [] h = absurd (omega arith)
tick_at zero (a ∷ rest) h = (_, refl, refl, same)
  where
    same :
        (j : ℕ)
        → frames_at j (record a { interface = Interface.tick 10 a.interface } ∷ rest)
          ≡ frames_at j (a ∷ rest)
    same zero = refl
    same (suc j) = refl
tick_at (suc num) (a ∷ rest) h =
    let (l', e, n, f) = tick_at num rest (omega arith) in
    (a ∷ l', ap (λ m. m >>= λ l. ok (a ∷ l)) e, ap suc n, same l' f)
  where
    same :
        (l' : List AsyncNetworkInterface)
        → ((j : ℕ) → frames_at j l' ≡ frames_at j rest)
        → (j : ℕ) → frames_at j (a ∷ l') ≡ frames_at j (a ∷ rest)
    same l' f zero = refl
    same l' f (suc j) = f j

drain-frames :
    (fuel : ℕ) (queue : List EthernetFrame) (n : NetworkInterface) (out : List EthernetFrame)
    → n.send_queue ≡ queue
    → length queue < fuel
    → drain fuel n out ≡ ok (record n { send_queue = [] }, out ++ queue)
unfolding drain maybe_send
drain-frames zero queue n out e h = absurd (omega arith)
drain-frames (suc fuel) [] n out e h =
    rw e (ap (λ o. ok (record n { send_queue = [] }, o)) (sym (append-nil out)))
drain-frames (suc fuel) (f ∷ queue) n out e h = rw e (
    drain-frames fuel queue (record n { send_queue = queue }) (out ++ (f ∷ [])) refl (omega arith)
    ∙ ap (λ o. ok (record n { send_queue = [] }, o)) (append_assoc out (f ∷ []) queue))

drain_at :
    (num : ℕ) (l : List AsyncNetworkInterface) (out : List EthernetFrame)
    → num < length l
    → (l' : List AsyncNetworkInterface) × (drain_interface num l out
        ≡ ok (l', out ++ frames_at num l))
      × (length l' ≡ length l)
      × (frames_at num l' ≡ [])
      × ((j : ℕ) → j ≢ num → frames_at j l' ≡ frames_at j l)
unfolding drain_interface frames_at
drain_at num [] out h = absurd (omega arith)
drain_at zero (a ∷ rest) out h = (
  record a { interface = record a.interface { send_queue = [] } } ∷ rest,
  ap (λ m. m >>= λ t. ok (record a { interface = t.0 } ∷ rest, t.1))
      (drain-frames (suc (length a.interface.send_queue)) a.interface.send_queue a.interface out
        refl (omega arith)),
  refl,
  refl,
  others,
)
  where
    others :
        (j : ℕ)
        → j ≢ 0
        → frames_at j (record a { interface = record a.interface { send_queue = [] } } ∷ rest)
          ≡ frames_at j (a ∷ rest)
    others zero ne = absurd (ne refl)
    others (suc j) ne = refl
drain_at (suc num) (a ∷ rest) out h =
    let (l', e, n, gone, f) = drain_at num rest out (omega arith) in
    (a ∷ l', ap (λ m. m >>= λ t. ok (a ∷ t.0, t.1)) e, ap suc n, gone, others l' f)
  where
    others :
        (l' : List AsyncNetworkInterface)
        → ((j : ℕ) → j ≢ num → frames_at j l' ≡ frames_at j rest)
        → (j : ℕ) → j ≢ suc num
        → frames_at j (a ∷ l') ≡ frames_at j (a ∷ rest)
    others l' f zero ne = refl
    others l' f (suc j) ne = f j (λ e. ne (ap suc e))

bind_ok {ℓ κ} :
    {A : Type ℓ} {B : Type κ} {m : Outcome A} {a : A} (f : A → Outcome B)
    → m ≡ ok a
    → (m >>= f) ≡ f a
bind_ok f e = ap (λ m. m >>= f) e

-- What a round leaves: the frames of both sides are behind those that waited, and none is at its
-- interface.
pub record Forwards {E : Type 0} (w w' : Network E) : Type 0 where
  pub host_queue : w'.router_to_host ≡ w.router_to_host ++ frames_at w.host_side w.router.interfaces
  pub internet_queue :
      w'.router_to_internet ≡ w.router_to_internet ++ frames_at w.internet_side w.router.interfaces
  pub host_gone : frames_at w.host_side w'.router.interfaces ≡ []
  pub internet_gone : frames_at w.internet_side w'.router.interfaces ≡ []

-- Behind wait_next_event, a round of the router's thread returns; the frames that waited at both
-- interfaces are then queued for their descriptors, in order and each once, behind those that were
-- queued, and none waits at its interface, if the two are different interfaces of the router.
pub after_event-Forwards :
    {E : Type 0} (sys : System E) (w : Network E)
    → w.host_side < length w.router.interfaces
    → w.internet_side < length w.router.interfaces
    → w.host_side ≢ w.internet_side
    → (w' : Network E) × (after_event sys w ≡ ok w') × Forwards w w'
unfolding after_event
after_event-Forwards sys w hh hi ne =
    let (l1, e1, n1, f1) = tick_at w.host_side w.router.interfaces hh in
    let (l2, e2, n2, f2) = tick_at w.internet_side l1 (omega (arith, n1)) in
    let (l3, e3, n3, gone3, f3) =
      drain_at w.host_side l2 w.router_to_host (omega (arith, n1, n2)) in
    let (l4, e4, n4, gone4, f4) =
      drain_at w.internet_side l3 w.router_to_internet (omega (arith, n1, n2, n3)) in
    (
      record w {
        router = record w.router { interfaces = l4 };
        router_to_host = w.router_to_host ++ frames_at w.host_side l2;
        router_to_internet = w.router_to_internet ++ frames_at w.internet_side l3;
      },
      bind_ok _ (ap (λ m. m >>= λ l. ok (record w.router { interfaces = l })) e1)
          ∙ bind_ok _ (ap (λ m. m >>= λ l. ok (record w.router { interfaces = l })) e2)
          ∙ bind_ok _ e3
          ∙ bind_ok _ e4,
      record {
        host_queue = ap (λ q. w.router_to_host ++ q) (f2 w.host_side ∙ f1 w.host_side);
        internet_queue =
            ap (λ q. w.router_to_internet ++ q)
              (f3 w.internet_side (λ e. ne (sym e)) ∙ f2 w.internet_side ∙ f1 w.internet_side);
        host_gone = f4 w.host_side ne ∙ gone3;
        internet_gone = gone4;
      },
    )
