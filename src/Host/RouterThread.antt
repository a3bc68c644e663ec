-- ===== src/Host/RouterThread.antt =====
-- apps/endtoend.cc: the router of program_body and the event loop of its thread. The other ends of its
-- descriptors are the system's.
use cs144_minnow.Base.{
  ℕ, zero, suc, ◌+◌, ◌*◌, ◌^◌, Bool, true, false, not, Option, none, some, List, [], ◌∷◌, ◌++◌,
  if◌then◌else◌, length,
}
use cs144_minnow.Base.Outcome.{Outcome, ok, throws, undefined, stuck, ◌>>=◌}
use cs144_minnow.Wire.Parser.{serializer, output_of, concat}
use cs144_minnow.Wire.Ethernet.{EthernetAddress, EthernetFrame, serialize_frame}
use cs144_minnow.Net.Interface.{NetworkInterface, maybe_send}
use cs144_minnow.Net.Interface
use cs144_minnow.Net.Router.{
  AsyncNetworkInterface, Router, router, recv_frame_async, add_interface, add_route, route,
}
use cs144_minnow.Host.Descriptor.{System, FdWrapper, write}
use cs144_minnow.Host.EventLoop.{EventLoop, reading, writing, is_exit, add_named_rule}
use cs144_minnow.Host.Waiting.{Polling, wait_next_event}
use cs144_minnow.Host.EndToEnd.{maybe_receive_frame}

-- The bytes that random_device gives for an address, but for the first three.
unfoldable pub random_router_ethernet_address : EthernetAddress → EthernetAddress
random_router_ethernet_address (b0 ∷ b1 ∷ b2 ∷ bs) = 2 ∷ 0 ∷ 0 ∷ bs
random_router_ethernet_address bs = bs

-- The router's thread.
pub record Network (E : Type 0) : Type 0 where
  pub router : Router
  pub host_side : ℕ
  pub internet_side : ℕ
  pub frame_fd : FdWrapper
  pub internet_socket : FdWrapper
  pub router_to_host : List EthernetFrame
  pub router_to_internet : List EthernetFrame
  pub system : E

-- The numbers of the addresses in program_body.
abbrev pub dotted : ℕ → ℕ → ℕ → ℕ → ℕ
dotted a b c d = a * 2 ^ 24 + b * 2 ^ 16 + c * 2 ^ 8 + d

abbrev pub new_interface : EthernetAddress → ℕ → AsyncNetworkInterface
new_interface eth ip = record { interface = Interface.init eth ip; datagrams_in = [] }

-- The router with its two interfaces and three routes, host_side and internet_side.
unfoldable pub set_up_router : Bool → EthernetAddress → EthernetAddress → Router × ℕ × ℕ
set_up_router true eth_1 eth_2 =
    let (host_side, r1) = add_interface (new_interface eth_1 (dotted 192 168 0 1)) router in
    let (internet_side, r2) = add_interface (new_interface eth_2 (dotted 10 0 0 192)) r1 in
    let r3 = add_route (dotted 192 168 0 0) 16 none host_side r2 in
    let r4 = add_route (dotted 10 0 0 0) 8 none internet_side r3 in
    let r5 = add_route (dotted 172 16 0 0) 12 (some (dotted 10 0 0 172)) internet_side r4 in
    (r5, host_side, internet_side)
set_up_router false eth_1 eth_2 =
    let (host_side, r1) = add_interface (new_interface eth_1 (dotted 172 16 0 1)) router in
    let (internet_side, r2) = add_interface (new_interface eth_2 (dotted 10 0 0 172)) r1 in
    let r3 = add_route (dotted 172 16 0 0) 12 none host_side r2 in
    let r4 = add_route (dotted 10 0 0 0) 8 none internet_side r3 in
    let r5 = add_route (dotted 192 168 0 0) 16 (some (dotted 10 0 0 192)) internet_side r4 in
    (r5, host_side, internet_side)

-- interfaces_.at( num ), changed by an operation.
unfoldable pub at_interface :
    ℕ
    → (AsyncNetworkInterface → Outcome AsyncNetworkInterface)
    → List AsyncNetworkInterface
    → Outcome (List AsyncNetworkInterface)
at_interface num f [] = throws
at_interface zero f (a ∷ rest) = f a >>= λ a'. ok (a' ∷ rest)
at_interface (suc num) f (a ∷ rest) = at_interface num f rest >>= λ l. ok (a ∷ l)

abbrev pub with_interface :
    ℕ → (AsyncNetworkInterface → Outcome AsyncNetworkInterface) → Router → Outcome Router
with_interface num f r = at_interface num f r.interfaces >>= λ l. ok (record r { interfaces = l })

abbrev pub tick_interface : ℕ → AsyncNetworkInterface → Outcome AsyncNetworkInterface
tick_interface ms a = ok (record a { interface = Interface.tick ms a.interface })

abbrev pub first_frame : {A : Type 0} → List EthernetFrame → (EthernetFrame → Outcome A) → Outcome A
first_frame [] f = undefined
first_frame (frame ∷ frames) f = f frame

-- std::queue::pop.
abbrev pub other_frames : List EthernetFrame → List EthernetFrame
other_frames [] = []
other_frames (frame ∷ frames) = frames

abbrev pub is_sent : List EthernetFrame → Bool
is_sent [] = true
is_sent (frame ∷ frames) = false

-- The interface's queue, moved behind another, for a number of rounds.
unfoldable pub drain :
    ℕ → NetworkInterface → List EthernetFrame → Outcome (NetworkInterface × List EthernetFrame)
drain zero n out = stuck
drain (suc fuel) n out =
    let (frame, n') = maybe_send n in
    elim frame [ none ↦ ok (n', out) | some f ↦ drain fuel n' (out ++ (f ∷ [])) ]

-- The loop on interfaces_.at( num ); each round but the last takes a frame.
unfoldable pub drain_interface :
    ℕ
    → List AsyncNetworkInterface
    → List EthernetFrame
    → Outcome (List AsyncNetworkInterface × List EthernetFrame)
drain_interface num [] out = throws
drain_interface zero (a ∷ rest) out =
    drain (suc (length a.interface.send_queue)) a.interface out >>= λ t.
    ok (record a { interface = t.0 } ∷ rest, t.1)
drain_interface (suc num) (a ∷ rest) out = drain_interface num rest out >>= λ t. ok (a ∷ t.0, t.1)

-- What a rule does with the frame that it received on a side of the router.
unfoldable pub receive_on : ℕ → Option EthernetFrame → Router → Outcome Router
receive_on side none r = ok r
receive_on side (some frame) r = with_interface side (recv_frame_async frame) r >>= route

module _ {E : Type 0} (sys : System E) where
  -- Frames from host to router.
  unfoldable pub from_host : Network E → Outcome (Network E)
  from_host w = maybe_receive_frame sys w.frame_fd w.system >>= λ r.
      receive_on w.host_side r.0 w.router >>= λ q.
      ok (record w { router = q; frame_fd = r.1; system = r.2 })

  -- Frames from Internet to router.
  unfoldable pub from_internet : Network E → Outcome (Network E)
  from_internet w = maybe_receive_frame sys w.internet_socket w.system >>= λ r.
      receive_on w.internet_side r.0 w.router >>= λ q.
      ok (record w { router = q; internet_socket = r.1; system = r.2 })

  abbrev pub write_frame : FdWrapper → E → EthernetFrame → Outcome (FdWrapper × E)
  write_frame d e frame =
      write sys (concat (output_of (serialize_frame frame serializer))) d e >>= λ r. ok (r.1, r.2)

  -- Frames from router to host.
  unfoldable pub to_host : Network E → Outcome (Network E)
  to_host w = first_frame w.router_to_host (write_frame w.frame_fd w.system) >>= λ r.
      ok (record w { router_to_host = other_frames w.router_to_host; frame_fd = r.0; system = r.1 })

  -- Frames from router to Internet.
  unfoldable pub to_internet : Network E → Outcome (Network E)
  to_internet w = first_frame w.router_to_internet (write_frame w.internet_socket w.system) >>= λ r.
      ok (record w {
        router_to_internet = other_frames w.router_to_internet;
        internet_socket = r.0;
        system = r.1;
      })

  -- The default for interest, and those for cancel and recover.
  abbrev pub always : Network E → Bool
  always w = true

  abbrev pub no_cancellation : Network E → Outcome (Network E)
  no_cancellation w = ok w

  abbrev pub no_recovery : Network E → Bool × Network E
  no_recovery w = (false, w)

  -- The event loop with the four rules, given the names of their categories.
  unfoldable pub network_rules :
      List ℕ → List ℕ → List ℕ → List ℕ → EventLoop (Network E) → Outcome (EventLoop (Network E))
  network_rules name_1 name_2 name_3 name_4 l =
      add_named_rule name_1 (λ w. w.frame_fd) reading from_host always no_cancellation no_recovery l
      >>= (λ r1.
          add_named_rule name_2 (λ w. w.frame_fd) writing to_host
            (λ w. not (is_sent w.router_to_host)) no_cancellation no_recovery r1.1)
      >>= (λ r2.
          add_named_rule name_3 (λ w. w.internet_socket) writing to_internet
            (λ w. not (is_sent w.router_to_internet)) no_cancellation no_recovery r2.1)
      >>= (λ r3.
          add_named_rule name_4 (λ w. w.internet_socket) reading from_internet always
            no_cancellation no_recovery r3.1)
      >>= (λ r4. ok r4.1)

  -- What a round does behind wait_next_event.
  unfoldable pub after_event : Network E → Outcome (Network E)
  after_event w = with_interface w.host_side (tick_interface 10) w.router >>= λ r1.
      with_interface w.internet_side (tick_interface 10) r1 >>= λ r2.
      drain_interface w.host_side r2.interfaces w.router_to_host >>= λ h.
      drain_interface w.internet_side h.0 w.router_to_internet >>= λ i. ok (record w {
        router = record r2 { interfaces = i.0 };
        router_to_host = h.1;
        router_to_internet = i.1;
      })

  -- The loop, for what poll and getsockopt say in each round, and exit_flag.
  unfoldable pub network_loop :
      List (Polling (Network E) × Bool)
      → EventLoop (Network E)
      → Network E
      → Outcome (EventLoop (Network E) × Network E)
  network_loop [] l w = stuck
  network_loop ((polling, exit_flag) ∷ rounds) l w = wait_next_event polling l w >>= λ t.
      let ticked = after_event t.2 >>= λ w1.
      let again = network_loop rounds t.1 w1 in if exit_flag then ok (t.1, w1) else again in
      if is_exit t.0 then ok (t.1, t.2) else ticked
