-- ===== src/Host/Sending.antt =====
-- TCPOverIPv4OverEthernetAdapter::send_pending (util/tuntap_adapter.cc).
use cs144_minnow.Base.{
  ℕ, zero, suc, ◌<◌, ◌≡◌, refl, sym, subst, not, ◌&&◌, List, [], ◌∷◌, arith, ltb, ◌==◌, length,
}
use cs144_minnow.Base.Outcome.{Outcome, ok, throws}
use cs144_minnow.Wire.Ethernet.{EthernetFrame, serialize_frame}
use cs144_minnow.Wire.Parser.{serializer, output_of, concat}
use cs144_minnow.Net.Interface.{maybe_send, front_frame}
use cs144_minnow.Host.After.{Ends, Ends-bind, Ends-if}
use cs144_minnow.Host.Descriptor.{
  System, FdWrapper, Call, returned, failed, check_system_call, would_block, write_result, write,
}
use cs144_minnow.Host.Tun.{TapAdapter, write_frame, write_and_go_on, send_loop, send_pending}

-- Any value will do.
abbrev Any {ℓ} : {A : Type ℓ} → A → Type 0
Any a = Unit {0}

check_system_call-Ends : (c : Call) (d : FdWrapper) → Ends Any (check_system_call c d)
unfolding check_system_call
check_system_call-Ends (returned n) d = tt
check_system_call-Ends (failed e) d =
    Ends-if Any (d.non_blocking && would_block e) (ok 0) throws tt tt

module _ {E : Type 0} (sys : System E) where
  write-Ends : (bytes : List ℕ) (d : FdWrapper) (e : E) → Ends Any (write sys bytes d e)
  unfolding write write_result
  write-Ends bytes d e =
      let result = (sys.write d.fd bytes e).0 in
      Ends-bind Any Any _ _
        (Ends-bind Any Any (check_system_call result d) _ (check_system_call-Ends result d) (λ n _.
          Ends-if Any (n == 0 && not (length bytes == 0)) throws _ tt
            (Ends-if Any (ltb (length bytes) n) throws _ tt tt)))
        (λ r _. tt)

  write_frame-Ends : (f : EthernetFrame) (d : FdWrapper) (e : E) → Ends Any (write_frame sys f d e)
  unfolding write_frame
  write_frame-Ends f d e =
      let bytes = concat (output_of (serialize_frame f serializer)) in
      Ends-bind Any Any (write sys bytes d e) _ (write-Ends bytes d e) (λ r _. tt)

  abbrev IsDrained : TapAdapter × E → Type 0
  IsDrained t = t.0.interface.send_queue ≡ []

  -- A round of the loop, for what is in the queue.
  abbrev round : ℕ → TapAdapter → E → List EthernetFrame → Outcome (TapAdapter × E)
  round fuel a e queue =
      let (frame, interface) = front_frame queue a.interface in
      write_and_go_on sys frame (λ a' e'. send_loop sys fuel a' e')
        (record a { interface = interface }) e

  send_loop-Ends :
      (fuel : ℕ) (queue : List EthernetFrame) (a : TapAdapter) (e : E)
      → a.interface.send_queue ≡ queue
      → length queue < fuel
      → Ends IsDrained (send_loop sys fuel a e)
  unfolding send_loop maybe_send
  send_loop-Ends zero queue a e q h = absurd (omega arith)
  send_loop-Ends (suc fuel) [] a e q h = subst (λ l. Ends IsDrained (round fuel a e l)) (sym q) q
  send_loop-Ends (suc fuel) (f ∷ queue) a e q h =
      subst (λ l. Ends IsDrained (round fuel a e l)) (sym q)
        (Ends-bind IsDrained Any (write_frame sys f a.tap e) _ (write_frame-Ends f a.tap e) (λ r _.
          send_loop-Ends fuel queue
            (record a { tap = r.0; interface = record a.interface { send_queue = queue } }) r.1 refl
            (omega arith)))

  -- send_pending comes to an end, and if it returns, no frame is left in the interface's queue.
  pub send_pending-Ends : (a : TapAdapter) (e : E) → Ends IsDrained (send_pending sys a e)
  unfolding send_pending
  send_pending-Ends a e =
      send_loop-Ends (suc (length a.interface.send_queue)) a.interface.send_queue a e refl
        (omega arith)
