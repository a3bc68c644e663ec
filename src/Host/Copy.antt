-- ===== src/Host/Copy.antt =====
-- apps/bidirectional_stream_copy.cc: standard input goes to a socket and what the socket gives goes to
-- standard output, over two byte streams and four rules of an event loop.
use cs144_minnow.Base.{ℕ, zero, suc, Bool, true, false, not, ◌&&◌, ◌||◌, List, ltb, if◌then◌else◌}
use cs144_minnow.Base.Outcome.{Outcome, ok, stuck, ◌>>=◌}
use cs144_minnow.Stream.{
  ByteStream, available_capacity, bytes_buffered, is_finished, peek, push, pop,
}
use cs144_minnow.Stream
use cs144_minnow.Host.Descriptor.{System, FdWrapper, zeros, shut_wr}
use cs144_minnow.Host.Descriptor
use cs144_minnow.Host.EventLoop.{EventLoop, reading, writing, is_exit, add_named_rule}
use cs144_minnow.Host.Waiting.{Polling, wait_next_event}

-- The local variables that the rules share, and the system.
pub record World (E : Type 0) : Type 0 where
  pub input : FdWrapper
  pub output : FdWrapper
  pub socket : FdWrapper
  pub outbound : ByteStream
  pub inbound : ByteStream
  pub outbound_shutdown : Bool
  pub inbound_shutdown : Bool
  pub system : E

abbrev pub buffer_size : ℕ
buffer_size = 1048576

-- The descriptors have been made non-blocking.
unfoldable pub start : {E : Type 0} → FdWrapper → FdWrapper → FdWrapper → E → World E
start input output socket system = record {
  input = input;
  output = output;
  socket = socket;
  outbound = Stream.init buffer_size;
  inbound = Stream.init buffer_size;
  outbound_shutdown = false;
  inbound_shutdown = false;
  system = system;
}

-- What a rule reads goes into a stream, which ends with its descriptor.
abbrev pub push_read : List ℕ → Bool → ByteStream → ByteStream
push_read bytes eof s = if eof then Stream.close (push bytes s) else push bytes s

module _ {E : Type 0} (sys : System E) where
  -- Rule 1: read from stdin into outbound byte stream.
  unfoldable pub read_input : World E → Outcome (World E)
  read_input w =
      Descriptor.read sys (zeros (available_capacity w.outbound)) w.input w.system >>= λ r.
      ok (record w { outbound = push_read r.0 r.1.eof w.outbound; input = r.1; system = r.2 })

  abbrev pub read_input_interest : World E → Bool
  read_input_interest w =
      not w.outbound.error && (ltb 0 (available_capacity w.outbound) && not w.inbound.error)

  abbrev pub close_outbound : World E → Outcome (World E)
  close_outbound w = ok (record w { outbound = Stream.close w.outbound })

  -- The first half of rule 2: what the socket takes is popped.
  unfoldable pub write_buffered : World E → Outcome (World E)
  write_buffered w =
      let written = Descriptor.write sys (peek w.outbound) w.socket w.system >>= λ r.
      ok (record w { outbound = pop r.0 w.outbound; socket = r.1; system = r.2 }) in
      if ltb 0 (bytes_buffered w.outbound) then written else ok w

  -- Rule 2: read from outbound byte stream into socket.
  unfoldable pub write_socket : World E → Outcome (World E)
  write_socket w = write_buffered w >>= λ w1.
      let finished = Descriptor.shutdown sys shut_wr w1.socket w1.system >>= λ r.
      ok (record w1 { socket = r.0; system = r.1; outbound_shutdown = true }) in
      if is_finished w1.outbound then finished else ok w1

  abbrev pub write_socket_interest : World E → Bool
  write_socket_interest w =
      ltb 0 (bytes_buffered w.outbound) || (is_finished w.outbound && not w.outbound_shutdown)

  -- Rule 3: read from socket into inbound byte stream.
  unfoldable pub read_socket : World E → Outcome (World E)
  read_socket w =
      Descriptor.read sys (zeros (available_capacity w.inbound)) w.socket w.system >>= λ r.
      ok (record w { inbound = push_read r.0 r.1.eof w.inbound; socket = r.1; system = r.2 })

  abbrev pub read_socket_interest : World E → Bool
  read_socket_interest w =
      not w.inbound.error && (ltb 0 (available_capacity w.inbound) && not w.outbound.error)

  abbrev pub close_inbound : World E → Outcome (World E)
  close_inbound w = ok (record w { inbound = Stream.close w.inbound })

  unfoldable pub output_buffered : World E → Outcome (World E)
  output_buffered w =
      let written = Descriptor.write sys (peek w.inbound) w.output w.system >>= λ r.
      ok (record w { inbound = pop r.0 w.inbound; output = r.1; system = r.2 }) in
      if ltb 0 (bytes_buffered w.inbound) then written else ok w

  -- Rule 4: read from inbound byte stream into stdout.
  unfoldable pub write_output : World E → Outcome (World E)
  write_output w = output_buffered w >>= λ w1.
      let finished = Descriptor.close sys w1.output w1.system >>= λ r.
      ok (record w1 { output = r.0; system = r.1; inbound_shutdown = true }) in
      if is_finished w1.inbound then finished else ok w1

  abbrev pub write_output_interest : World E → Bool
  write_output_interest w =
      ltb 0 (bytes_buffered w.inbound) || (is_finished w.inbound && not w.inbound_shutdown)

  -- The default for recover.
  abbrev pub no_recovery : World E → Bool × World E
  no_recovery w = (false, w)

  -- The event loop with the four rules, given the names of their categories.
  unfoldable pub rules :
      List ℕ → List ℕ → List ℕ → List ℕ → EventLoop (World E) → Outcome (EventLoop (World E))
  rules name_1 name_2 name_3 name_4 l =
      add_named_rule name_1 (λ w. w.input) reading read_input read_input_interest close_outbound
        no_recovery l
      >>= (λ r1.
          add_named_rule name_2 (λ w. w.socket) writing write_socket write_socket_interest
            close_outbound no_recovery r1.1)
      >>= (λ r2.
          add_named_rule name_3 (λ w. w.socket) reading read_socket read_socket_interest
            close_inbound no_recovery r2.1)
      >>= (λ r3.
          add_named_rule name_4 (λ w. w.output) writing write_output write_output_interest
            close_inbound no_recovery r3.1)
      >>= (λ r4. ok r4.1)

  -- The loop until completion, for a number of rounds.
  unfoldable pub loop :
      ℕ
      → Polling (World E)
      → EventLoop (World E)
      → World E
      → Outcome (EventLoop (World E) × World E)
  loop zero poll l w = stuck
  loop (suc fuel) poll l w = wait_next_event poll l w >>= λ t.
      let again = loop fuel poll t.1 t.2 in if is_exit t.0 then ok (t.1, t.2) else again
