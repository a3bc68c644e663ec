-- ===== src/Host/Spurious.antt =====
-- A read of standard input that would block, in apps/bidirectional_stream_copy.cc.
use cs144_minnow.Base.{ℕ, zero, suc, ◌<◌, ◌≡◌, refl, true, false, ◌++◌, arith, length}
use cs144_minnow.Base.Outcome.{ok}
use cs144_minnow.Stream.{IsValid, available_capacity, push}
use cs144_minnow.Host.Descriptor.{System, FdWrapper, refused, eagain, zeros, read, read_result}
use cs144_minnow.Host.Logs.{length-zeros}
use cs144_minnow.Host.Copy.{World, read_input}
use cs144_minnow.Host.Flows.{push_read-lem}

module _ {E : Type 0} (sys : System E) where
  read_blocked :
      (n : ℕ) (d : FdWrapper) (e e' : E)
      → 0 < n
      → d.non_blocking ≡ true
      → sys.read d.fd (length (zeros n)) e ≡ (refused eagain, e')
      → read sys (zeros n) d e ≡ ok (zeros n, d, e')
  unfolding read read_result zeros
  read_blocked zero d e e' h b call = absurd (omega arith)
  read_blocked (suc n) d e e' h b call = rw (call, b) refl

  -- When the read of standard input, which is non-blocking and not at its end, would block, rule 1 fills
  -- the outbound stream, if it is valid and has room, with bytes of value 0 that nobody wrote: as many as
  -- there is room for.
  pub read_input_blocked :
      (w : World E) (e' : E)
      → IsValid w.outbound
      → 0 < available_capacity w.outbound
      → w.input.non_blocking ≡ true
      → w.input.eof ≡ false
      → sys.read w.input.fd (length (zeros (available_capacity w.outbound))) w.system
        ≡ (refused eagain, e')
      → (w' : World E) × (read_input sys w ≡ ok w')
        × (w'.outbound.buffer ≡ w.outbound.buffer ++ zeros (available_capacity w.outbound))
        × (w'.system ≡ e')
  unfolding read_input
  read_input_blocked w e' v room b eof call =
      let n = available_capacity w.outbound in
      (
        record w { outbound = push (zeros n) w.outbound; system = e' },
        rw (read_blocked n w.input w.system e' room b call, eof) refl,
        (push_read-lem (zeros n) false w.outbound v (omega (arith, length-zeros n))).1,
        refl,
      )
