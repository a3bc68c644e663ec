-- ===== src/Host/CopyRuns.antt =====
-- A run of apps/bidirectional_stream_copy.cc over a system with input that waits.
use cs144_minnow.Base.{
  ℕ, zero, suc, ◌≤◌, ◌≡◌, refl, sym, ap, subst, ◌∙◌, inl, inr, Bool, true, false, not, List, [],
  ◌∷◌, ◌++◌, arith, ltb, ◌==◌, if◌then◌else◌, length, take, drop, append-nil,
}
use cs144_minnow.Base.Outcome.{ok}
use cs144_minnow.Stream.{ByteStream, available_capacity, push, pop}
use cs144_minnow.Stream
use cs144_minnow.Host.Descriptor.{
  System, FdWrapper, Errno, Read, got, refused, eagain, returned, would_block, is_empty, wrapper,
  register_read, register_write, zeros, read, read_result,
}
use cs144_minnow.Host.Descriptor
use cs144_minnow.Host.EventLoop.{
  EventLoop, reading, success, init, add_category, add_fd_rule, add_named_rule,
}
use cs144_minnow.Host.Waiting.{
  Polling, PollFd, Revents, Polled, poll_failed, polled, not_a_socket, serve_rules, set_up,
  dispatch, after_poll, wait_next_event, poll_ready,
}
use cs144_minnow.Host.Keeps.{Marked, Rounds, here, next}
use cs144_minnow.Host.Logs.{Log, bytes_read, length-zeros}
use cs144_minnow.Host.Copy.{
  World, start, rules, read_input, read_socket, write_socket, write_buffered,
}
use cs144_minnow.Host.Conserved.{IsTrue, rules-conserve}

-- Bytes wait at each descriptor; a read that finds none would block.
record Kernel : Type 0 where
  waiting : ℕ → List ℕ
  taken : ℕ → List ℕ
  given : ℕ → List ℕ

abbrev read_from : List ℕ → ℕ → ℕ → Kernel → Read × Kernel
read_from [] fd n e = (refused eagain, e)
read_from (b ∷ bs) fd n e = (
  got (take n (b ∷ bs)),
  record e {
    waiting = λ f. if fd == f then drop n (b ∷ bs) else e.waiting f;
    taken = λ f. if fd == f then e.taken f ++ take n (b ∷ bs) else e.taken f;
  },
)

abbrev kernel : System Kernel
kernel = record {
  read = λ fd n e. read_from (e.waiting fd) fd n e;
  write = λ fd bytes e. (
    returned (length bytes),
    record e { given = λ f. if fd == f then e.given f ++ take (length bytes) bytes else e.given f },
  );
  close = λ fd e. (returned 0, e);
  shutdown = λ fd how e. (returned 0, e);
}

nothing_read : (c : Bool) (l : List ℕ) → l ≡ (if c then l ++ [] else l)
nothing_read true l = sym (append-nil l)
nothing_read false l = refl

taken-read_from :
    (l : List ℕ) (fd fd' n : ℕ) (e : Kernel)
    → (read_from l fd n e).1.taken fd'
      ≡ (if fd == fd' then e.taken fd' ++ bytes_read (read_from l fd n e).0 else e.taken fd')
taken-read_from [] fd fd' n e = nothing_read (fd == fd') (e.taken fd')
taken-read_from (b ∷ bs) fd fd' n e = refl

given-read_from :
    (l : List ℕ) (fd fd' n : ℕ) (e : Kernel) → (read_from l fd n e).1.given fd' ≡ e.given fd'
given-read_from [] fd fd' n e = refl
given-read_from (b ∷ bs) fd fd' n e = refl

abbrev log : Log kernel
log = record {
  taken = λ fd e. e.taken fd;
  given = λ fd e. e.given fd;
  taken-read = λ fd fd' n e. taken-read_from (e.waiting fd) fd fd' n e;
  given-read = λ fd fd' n e. given-read_from (e.waiting fd) fd fd' n e;
  taken-write = λ fd fd' bytes e. refl;
  given-write = λ fd fd' bytes e. refl;
  taken-close = λ fd fd' e. refl;
  given-close = λ fd fd' e. refl;
  taken-shutdown = λ fd fd' how e. refl;
  given-shutdown = λ fd fd' how e. refl;
}

-- poll reports a descriptor readable where bytes wait, and always writable.
abbrev status : PollFd → Kernel → Revents
status p e = record {
  readable = not (is_empty (e.waiting p.fd));
  writable = true;
  err = false;
  hup = false;
  nval = false;
}

abbrev statuses : List PollFd → Kernel → List Revents
statuses [] e = []
statuses (p ∷ ps) e = status p e ∷ statuses ps e

abbrev kernel_poll : Polling (World Kernel)
kernel_poll = record {
  poll = λ ps w. polled 1 (statuses ps w.system);
  getsockopt = λ fd w. not_a_socket;
}

abbrev results_of : Polled → List Revents
results_of poll_failed = []
results_of (polled n vs) = vs

negated : (b : Bool) → not b ≡ true → b ≡ false
negated b h = ground arith

Marked-waits :
    (ps : List PollFd) (fd : ℕ) (e : Kernel)
    → Marked fd reading ps (statuses ps e)
    → is_empty (e.waiting fd) ≡ false
Marked-waits [] fd e m = absurd m
Marked-waits (p ∷ ps) fd e (inl (f, d, r)) =
    subst (λ n. is_empty (e.waiting n) ≡ false) f
      (negated (is_empty (e.waiting p.fd))
        (ap (λ events. poll_ready events (status p e)) (sym d) ∙ r))
Marked-waits (p ∷ ps) fd e (inr m) = Marked-waits ps fd e m

read_finds :
    (l : List ℕ) (fd n : ℕ) (e : Kernel) (errno : Errno) (e' : Kernel)
    → is_empty l ≡ false
    → read_from l fd n e ≡ (refused errno, e')
    → would_block errno ≡ false
read_finds [] fd n e errno e' h q = absurd (ground arith)
read_finds (b ∷ bs) fd n e errno e' h q = cc

kernel-IsTrue :
    IsTrue kernel log 0 1 3 (λ e. absurd (omega arith)) (λ e. absurd (omega arith)) kernel_poll
kernel-IsTrue = record {
  tells = λ fds w number results fd call m n errno e' q.
      read_finds (w.system.waiting fd) fd n w.system errno e'
        (Marked-waits fds fd w.system (subst (Marked fd reading fds) (sym (ap results_of call)) m))
        q;
}

read_ready :
    (n b : ℕ) (bs : List ℕ) (d : FdWrapper) (e e' : Kernel)
    → length (b ∷ bs) ≤ n
    → kernel.read d.fd (length (zeros n)) e ≡ (got (b ∷ bs), e')
    → read kernel (zeros n) d e ≡ ok (b ∷ bs, register_read d, e')
unfolding read read_result zeros
read_ready zero b bs d e e' h call = absurd (omega arith)
read_ready (suc n) b bs d e e' h call =
    let fits : ltb (length (zeros (suc n))) (length (b ∷ bs)) ≡ false =
      ground (arith, length-zeros (suc n)) in
    let some_bytes : (length (b ∷ bs) == 0) ≡ false = ground arith in
    rw (call, fits, some_bytes) refl

-- 1 and 2 wait at standard input, and 7 at the socket.
abbrev kernel_0 : Kernel
kernel_0 = record {
  waiting = λ f. if f == 0 then 1 ∷ 2 ∷ [] else (if f == 3 then 7 ∷ [] else []);
  taken = λ f. [];
  given = λ f. [];
}

abbrev kernel_1 : Kernel
kernel_1 = (read_from (1 ∷ 2 ∷ []) 0 1048576 kernel_0).1

abbrev kernel_2 : Kernel
kernel_2 = (kernel.write 3 (1 ∷ 2 ∷ []) kernel_1).1

abbrev kernel_3 : Kernel
kernel_3 = (read_from (7 ∷ []) 3 1048576 kernel_2).1

abbrev at_0 : World Kernel
at_0 = record {
  input = wrapper 0 true;
  output = wrapper 1 true;
  socket = wrapper 3 true;
  outbound = Stream.init 1048576;
  inbound = Stream.init 1048576;
  outbound_shutdown = false;
  inbound_shutdown = false;
  system = kernel_0;
}

-- Standard input has been read, then the socket was written, and then it was read.
abbrev at_1 : World Kernel
at_1 = record at_0 {
  input = register_read (wrapper 0 true);
  outbound = push (1 ∷ 2 ∷ []) (Stream.init 1048576);
  system = kernel_1;
}

abbrev at_2 : World Kernel
at_2 = record at_1 {
  socket = register_write (wrapper 3 true);
  outbound = pop 2 at_1.outbound;
  system = kernel_2;
}

abbrev at_3 : World Kernel
at_3 = record at_2 {
  socket = register_read at_2.socket;
  inbound = push (7 ∷ []) (Stream.init 1048576);
  system = kernel_3;
}

first_read : read_input kernel at_0 ≡ ok at_1
unfolding read_input Stream.init
first_read =
    rw
      (read_ready 1048576 1 (2 ∷ []) (wrapper 0 true) kernel_0 kernel_1 (omega arith)
        (ap (λ n. read_from (1 ∷ 2 ∷ []) 0 n kernel_0) (length-zeros 1048576)))
      refl

second_read : read_socket kernel at_2 ≡ ok at_3
unfolding read_socket Stream.init
second_read =
    rw
      (read_ready 1048576 7 [] at_2.socket kernel_2 kernel_3 (omega arith)
        (ap (λ n. read_from (7 ∷ []) 3 n kernel_2) (length-zeros 1048576)))
      refl

rules-ok : (l : EventLoop (World Kernel)) × (rules kernel [] [] [] [] (init 64) ≡ ok l)
unfolding rules add_named_rule add_category add_fd_rule init
rules-ok = (_, refl)

three_Rounds :
    Rounds kernel_poll rules-ok.0
      (start (wrapper 0 true) (wrapper 1 true) (wrapper 3 true) kernel_0)
      rules-ok.0
      at_3
unfolding rules-ok add_named_rule add_category add_fd_rule init start wait_next_event serve_rules
    set_up dispatch after_poll write_socket write_buffered Stream.init Stream.is_finished
    Stream.push Stream.pop Stream.peek cs144_minnow.Host.Descriptor.write
    cs144_minnow.Host.Descriptor.write_result cs144_minnow.Host.Descriptor.check_system_call
three_Rounds =
    next {l1 = rules-ok.0} {w1 = at_2} {r = success}
      (next {l1 = rules-ok.0} {w1 = at_1} {r = success}
        (next {l1 = rules-ok.0} {w1 = at_0} {r = success} here (rw first_read refl)) refl)
      (rw second_read refl)

rules-conserve_example :
    (kernel_3.given 3 ++ at_3.outbound.buffer ≡ 1 ∷ 2 ∷ [])
    × (kernel_3.given 1 ++ at_3.inbound.buffer ≡ 7 ∷ [])
    × (length at_3.outbound.buffer ≤ at_3.outbound.capacity)
    × (length at_3.inbound.buffer ≤ at_3.inbound.capacity)
unfolding Stream.init Stream.push Stream.pop
rules-conserve_example =
    rules-conserve kernel log 0 1 3 (λ e. absurd (omega arith)) (λ e. absurd (omega arith)) [] [] []
      [] 64 kernel_poll (wrapper 0 true) (wrapper 1 true) (wrapper 3 true) kernel_0 rules-ok.1 refl
      refl refl (record { taken_i = refl; taken_s = refl; given_s = refl; given_o = refl })
      kernel-IsTrue three_Rounds
