-- ===== src/Host/Copying.antt =====
-- What apps/bidirectional_stream_copy.cc does with the bytes: they go on in order, and each once.
use cs144_minnow.Base.{ℕ, ◌<◌, ◌≡◌, ◌≢◌, sym, ap, subst, ◌∙◌, ◌++◌, ltb, length, take}
use cs144_minnow.Base.Outcome.{ok}
use cs144_minnow.Stream.{IsValid, available_capacity, bytes_buffered, is_finished, peek, pop}
use cs144_minnow.Stream.Laws.{pop-IsValid}
use cs144_minnow.Host.Flows.{push_read-lem, same_flow, read_flow, pop-lem}
use cs144_minnow.Host.After.{After, After-if, After-bind}
use cs144_minnow.Host.Descriptor.{shut_wr, got, System, FdWrapper, zeros, read, write}
use cs144_minnow.Host.Descriptor
use cs144_minnow.Host.Logs.{
  shutdown-After, close-After, reads, writes, Log, HasInput, bytes_written, read-After, write-After,
}
use cs144_minnow.Host.Copy.{
  World, read_input, write_buffered, write_socket, read_socket, output_buffered, write_output,
}

module _ {E : Type 0} (sys : System E) (log : Log sys) (i o s : ℕ) (i≢s : i ≢ s) (o≢s : o ≢ s) where
  -- What has been written, and then what is buffered, is what has been read, both ways.
  pub record IsCopied (w : World E) : Type 0 where
    pub input : w.input.fd ≡ i
    pub output : w.output.fd ≡ o
    pub socket : w.socket.fd ≡ s
    pub outbound : IsValid w.outbound
    pub inbound : IsValid w.inbound
    pub outward : log.given s w.system ++ w.outbound.buffer ≡ log.taken i w.system
    pub inward : log.given o w.system ++ w.inbound.buffer ≡ log.taken s w.system

  -- A cancellation only closes a stream.
  pub record Later (v w : World E) : Type 0 where
    pub outbound : available_capacity v.outbound ≡ available_capacity w.outbound
    pub inbound : available_capacity v.inbound ≡ available_capacity w.inbound
    pub input : v.input ≡ w.input
    pub socket : v.socket ≡ w.socket
    pub system : v.system ≡ w.system

  pub read_input-keeps :
      (w : World E)
      → IsCopied w
      → 0 < available_capacity w.outbound
      → HasInput sys w.input.fd w.system
      → After IsCopied (read_input sys w)
  unfolding read_input
  read_input-keeps w c room never =
      let n = available_capacity w.outbound in
      After-bind IsCopied _ (read sys (zeros n) w.input w.system) _
        (read-After sys n w.input w.system room never)
        (λ r (fd, call, le).
          let (own, others, kept) =
            reads sys log i (length (zeros n)) w.system
              (subst (λ f. sys.read f (length (zeros n)) w.system ≡ (got r.0, r.2)) c.input call) in
          let (valid, buffer) = push_read-lem r.0 r.1.eof w.outbound c.outbound le in
          record {
            input = fd ∙ c.input;
            output = c.output;
            socket = c.socket;
            outbound = valid;
            inbound = c.inbound;
            outward = read_flow _ _ _ _ w.outbound.buffer _ r.0 (kept s) own buffer c.outward;
            inward = same_flow _ _ _ _ w.inbound.buffer (kept o) (others s i≢s) c.inward;
          })

  pub read_socket-keeps :
      (w : World E)
      → IsCopied w
      → 0 < available_capacity w.inbound
      → HasInput sys w.socket.fd w.system
      → After IsCopied (read_socket sys w)
  unfolding read_socket
  read_socket-keeps w c room never =
      let n = available_capacity w.inbound in
      After-bind IsCopied _ (read sys (zeros n) w.socket w.system) _
        (read-After sys n w.socket w.system room never)
        (λ r (fd, call, le).
          let (own, others, kept) =
            reads sys log s (length (zeros n)) w.system (
              subst (λ f. sys.read f (length (zeros n)) w.system ≡ (got r.0, r.2)) c.socket call) in
          let (valid, buffer) = push_read-lem r.0 r.1.eof w.inbound c.inbound le in
          record {
            input = c.input;
            output = c.output;
            socket = fd ∙ c.socket;
            outbound = c.outbound;
            inbound = valid;
            outward =
                same_flow _ _ _ _ w.outbound.buffer (kept s) (others i (λ e. i≢s (sym e)))
                  c.outward;
            inward = read_flow _ _ _ _ w.inbound.buffer _ r.0 (kept o) own buffer c.inward;
          })

  write_buffered-keeps : (w : World E) → IsCopied w → After IsCopied (write_buffered sys w)
  unfolding write_buffered peek
  write_buffered-keeps w c =
      After-if IsCopied (ltb 0 (bytes_buffered w.outbound)) _ (ok w)
        (λ _.
          After-bind IsCopied _ (write sys w.outbound.buffer w.socket w.system) _
            (write-After sys w.outbound.buffer w.socket w.system)
            (λ r (fd, q, le, end).
              let b = w.outbound.buffer in
              let to_s : r.2 ≡ (sys.write s b w.system).1 =
                end ∙ ap (λ f. (sys.write f b w.system).1) c.socket in
              let (own, others) =
                writes sys log s r.0 b w.system (
                  subst (λ f. bytes_written (sys.write f b w.system).0 b ≡ take r.0 b) c.socket
                    q) in
              record {
                input = c.input;
                output = c.output;
                socket = fd ∙ c.socket;
                outbound = pop-IsValid r.0 w.outbound c.outbound;
                inbound = c.inbound;
                outward =
                    same_flow _ _ _ _ (pop r.0 w.outbound).buffer (ap (log.given s) to_s ∙ own)
                      (ap (log.taken i) to_s ∙ log.taken-write s i b w.system)
                      (pop-lem r.0 w.outbound (log.given s w.system) (log.taken i w.system)
                        c.outward);
                inward =
                    same_flow _ _ _ _ w.inbound.buffer
                      (ap (log.given o) to_s ∙ others o (λ e. o≢s (sym e)))
                      (ap (log.taken s) to_s ∙ log.taken-write s s b w.system) c.inward;
              }))
        (λ _. c)

  pub write_socket-keeps : (w : World E) → IsCopied w → After IsCopied (write_socket sys w)
  unfolding write_socket
  write_socket-keeps w c =
      After-bind IsCopied IsCopied (write_buffered sys w) _ (write_buffered-keeps w c) (λ w1 c1.
        After-if IsCopied (is_finished w1.outbound) _ (ok w1)
          (λ _.
            After-bind IsCopied _ (Descriptor.shutdown sys shut_wr w1.socket w1.system) _
              (shutdown-After sys shut_wr w1.socket w1.system)
              (λ r (fd, end). record {
                input = c1.input;
                output = c1.output;
                socket = fd ∙ c1.socket;
                outbound = c1.outbound;
                inbound = c1.inbound;
                outward =
                    same_flow _ _ _ _ w1.outbound.buffer
                      (ap (log.given s) end ∙ log.given-shutdown w1.socket.fd s shut_wr w1.system)
                      (ap (log.taken i) end ∙ log.taken-shutdown w1.socket.fd i shut_wr w1.system)
                      c1.outward;
                inward =
                    same_flow _ _ _ _ w1.inbound.buffer
                      (ap (log.given o) end ∙ log.given-shutdown w1.socket.fd o shut_wr w1.system)
                      (ap (log.taken s) end ∙ log.taken-shutdown w1.socket.fd s shut_wr w1.system)
                      c1.inward;
              }))
          (λ _. c1))

  output_buffered-keeps : (w : World E) → IsCopied w → After IsCopied (output_buffered sys w)
  unfolding output_buffered peek
  output_buffered-keeps w c =
      After-if IsCopied (ltb 0 (bytes_buffered w.inbound)) _ (ok w)
        (λ _.
          After-bind IsCopied _ (write sys w.inbound.buffer w.output w.system) _
            (write-After sys w.inbound.buffer w.output w.system)
            (λ r (fd, q, le, end).
              let b = w.inbound.buffer in
              let to_o : r.2 ≡ (sys.write o b w.system).1 =
                end ∙ ap (λ f. (sys.write f b w.system).1) c.output in
              let (own, others) =
                writes sys log o r.0 b w.system (
                  subst (λ f. bytes_written (sys.write f b w.system).0 b ≡ take r.0 b) c.output
                    q) in
              record {
                input = c.input;
                output = fd ∙ c.output;
                socket = c.socket;
                outbound = c.outbound;
                inbound = pop-IsValid r.0 w.inbound c.inbound;
                outward =
                    same_flow _ _ _ _ w.outbound.buffer (ap (log.given s) to_o ∙ others s o≢s)
                      (ap (log.taken i) to_o ∙ log.taken-write o i b w.system) c.outward;
                inward =
                    same_flow _ _ _ _ (pop r.0 w.inbound).buffer (ap (log.given o) to_o ∙ own)
                      (ap (log.taken s) to_o ∙ log.taken-write o s b w.system)
                      (pop-lem r.0 w.inbound (log.given o w.system) (log.taken s w.system)
                        c.inward);
              }))
        (λ _. c)

  pub write_output-keeps : (w : World E) → IsCopied w → After IsCopied (write_output sys w)
  unfolding write_output
  write_output-keeps w c =
      After-bind IsCopied IsCopied (output_buffered sys w) _ (output_buffered-keeps w c) (λ w1 c1.
        After-if IsCopied (is_finished w1.inbound) _ (ok w1)
          (λ _.
            After-bind IsCopied _ (Descriptor.close sys w1.output w1.system) _
              (close-After sys w1.output w1.system)
              (λ r (fd, end). record {
                input = c1.input;
                output = fd ∙ c1.output;
                socket = c1.socket;
                outbound = c1.outbound;
                inbound = c1.inbound;
                outward =
                    same_flow _ _ _ _ w1.outbound.buffer
                      (ap (log.given s) end ∙ log.given-close w1.output.fd s w1.system)
                      (ap (log.taken i) end ∙ log.taken-close w1.output.fd i w1.system) c1.outward;
                inward =
                    same_flow _ _ _ _ w1.inbound.buffer
                      (ap (log.given o) end ∙ log.given-close w1.output.fd o w1.system)
                      (ap (log.taken s) end ∙ log.taken-close w1.output.fd s w1.system) c1.inward;
              }))
          (λ _. c1))
