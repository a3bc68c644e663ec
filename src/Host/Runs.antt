-- ===== src/Host/Runs.antt =====
-- Runs of util/file_descriptor.cc, util/eventloop.cc and apps/bidirectional_stream_copy.cc.
use cs144_minnow.Base.{
  ℕ, ◌+◌, ◌≤◌, ◌≡◌, some, ◌%◌, ◌∙◌, refl, inl, inr, Bool, true, false, List, [], ◌∷◌, ◌++◌, arith,
  ltb, ◌==◌, if◌then◌else◌, length, take,
}
use cs144_minnow.Base.Outcome.{ok, throws}
use cs144_minnow.Stream.{ByteStream, available_capacity}
use cs144_minnow.Stream
use cs144_minnow.Stream.Laws.{init-IsValid}
use cs144_minnow.Wire.Segment.{TcpSegment}
use cs144_minnow.Wire.Adapter.{FdAdapterBase, tcp_segment}
use cs144_minnow.Wire.Tunnel.{sent}
use cs144_minnow.Host.Tun.{TunAdapter, datagram_bytes}
use cs144_minnow.Host.Tun
use cs144_minnow.Host.TunPair.{wire, read-datagram_bytes}
use cs144_minnow.Host.After.{After}
use cs144_minnow.Host.Descriptor.{
  System, got, refused, eagain, returned, wrapper, register_read, zeros,
}
use cs144_minnow.Host.EventLoop.{EventLoop, BasicRule, FdRule, reading, Result, timeout}
use cs144_minnow.Host.Waiting.{Polling, Revents, polled, not_a_socket, wait_next_event}
use cs144_minnow.Host.Idle.{live_basic, live_fd, some_interested, wait_next_event-idle, busy_wait}
use cs144_minnow.Host.Keeps.{IsLoop, wait_next_event-keeps}
use cs144_minnow.Host.Logs.{Log}
use cs144_minnow.Host.Copy.{World, read_input}
use cs144_minnow.Host.Spurious.{read_input_blocked}

-- A system that records what is read and written; each read brings two bytes or as many as fit.
pub record Os : Type 0 where
  pub taken : ℕ → List ℕ
  pub given : ℕ → List ℕ

abbrev pub os : System Os
os = record {
  read = λ fd n e. (
    got (take n (1 ∷ 2 ∷ [])),
    record e { taken = λ f. if fd == f then e.taken f ++ take n (1 ∷ 2 ∷ []) else e.taken f },
  );
  write = λ fd bytes e. (
    returned (length bytes),
    record e { given = λ f. if fd == f then e.given f ++ take (length bytes) bytes else e.given f },
  );
  close = λ fd e. (returned 0, e);
  shutdown = λ fd how e. (returned 0, e);
}

abbrev pub log : Log os
log = record {
  taken = λ fd e. e.taken fd;
  given = λ fd e. e.given fd;
  taken-read = λ fd fd' n e. refl;
  given-read = λ fd fd' n e. refl;
  taken-write = λ fd fd' bytes e. refl;
  given-write = λ fd fd' bytes e. refl;
  taken-close = λ fd fd' e. refl;
  given-close = λ fd fd' e. refl;
  taken-shutdown = λ fd fd' how e. refl;
  given-shutdown = λ fd fd' how e. refl;
}

abbrev pub fresh : Os
fresh = record { taken = λ f. []; given = λ f. [] }

-- A rule on descriptor 3 that waits to read, and adds 2 to the world while it is 0.
abbrev reader : FdRule ℕ
reader = record {
  base = record {
    handle = 0;
    category_id = 0;
    interest = λ w. ltb w 2;
    callback = λ w. ok (w + 2);
    cancel_requested = false;
  };
  fd = λ w. wrapper 3 false;
  direction = reading;
  cancel = λ w. ok w;
  recover = λ w. (false, w);
}

-- A rule that is always interested.
abbrev counter : Bool → BasicRule ℕ
counter cancelled = record {
  handle = 1;
  category_id = 0;
  interest = λ w. true;
  callback = λ w. ok (w + 1);
  cancel_requested = cancelled;
}

abbrev one_loop : Bool → EventLoop ℕ
one_loop cancelled = record {
  rule_categories = [] ∷ [];
  capacity = 64;
  next_handle = 2;
  fd_rules = reader ∷ [];
  non_fd_rules = counter cancelled ∷ [];
}

abbrev pub revents : Bool → Bool → Bool → Revents
revents readable writable hup = record {
  readable = readable;
  writable = writable;
  err = false;
  hup = hup;
  nval = false;
}

abbrev nothing_ready : Polling ℕ
nothing_ready = record { poll = λ ps w. polled 0 []; getsockopt = λ fd w. not_a_socket }

abbrev all_readable : Polling ℕ
all_readable = record {
  poll = λ ps w. polled 1 (revents true false false ∷ []);
  getsockopt = λ fd w. not_a_socket;
}

-- The counter is cancelled, and the reader waits.
idle_round :
    wait_next_event nothing_ready (one_loop true) 0
    ≡ ok (timeout, record (one_loop true) { non_fd_rules = [] }, 0)
unfolding live_basic live_fd some_interested
idle_round =
    wait_next_event-idle nothing_ready (one_loop true) 0 (inl refl, tt) (inr refl, tt)
      (λ ps. ([], refl))

counter_busy : wait_next_event nothing_ready (one_loop false) 5 ≡ throws
counter_busy =
    busy_wait (λ w. 5 ≤ w) nothing_ready (one_loop false) [] (counter false) [] 5 refl tt refl
      (record { interested = λ w h. refl; callback = λ w h. (w + 1, refl, omega arith) })
      (omega arith)

-- The world stays even.
wait_next_event-keeps_example :
    After
      (λ (t : Result × EventLoop ℕ × ℕ).
        IsLoop (λ w. w % 2 ≡ 0) (λ v w. v ≡ w) (λ fd d w. Unit {0}) t.1 × (t.2 % 2 ≡ 0))
      (wait_next_event all_readable (record (one_loop true) { non_fd_rules = [] }) 0)
wait_next_event-keeps_example =
    wait_next_event-keeps (λ w. w % 2 ≡ 0) (λ v w. v ≡ w) (λ fd d w. Unit {0}) (λ w. refl)
      (λ u v w a b. a ∙ b) all_readable (record (one_loop true) { non_fd_rules = [] }) 0
      (λ fd d w a. tt)
      (record {
        fd_rules = (
          record {
            callback = λ w0 w e later told h. omega (arith, h);
            cancel = λ w h. (h, refl);
            recover = λ w h. (h, refl);
          },
          tt,
        );
        non_fd_rules = tt;
      })
      refl

abbrev at_start : World Os
at_start = record {
  input = wrapper 0 true;
  output = wrapper 1 true;
  socket = wrapper 3 true;
  outbound = Stream.init 1048576;
  inbound = Stream.init 1048576;
  outbound_shutdown = false;
  inbound_shutdown = false;
  system = fresh;
}

-- A system where every read would block.
abbrev empty : System Os
empty = record os { read = λ fd n e. (refused eagain, e) }

abbrev small : World Os
small = record at_start { outbound = Stream.init 2 }

read_input_blocked_example :
    (w' : World Os) × (read_input empty small ≡ ok w')
    × (w'.outbound.buffer ≡ small.outbound.buffer ++ zeros (available_capacity small.outbound))
    × (w'.system ≡ fresh)
unfolding Stream.init
read_input_blocked_example =
    read_input_blocked empty small fresh (init-IsValid 2 (omega arith)) (omega arith) refl refl refl

-- The two ends of a connection from 10.0.0.1:1024 to 10.0.0.2:80, and a segment with three bytes.
abbrev end_1 : FdAdapterBase
end_1 = record {
  config = record {
    source = record { ipv4_numeric = 167772161; port = 1024 };
    destination = record { ipv4_numeric = 167772162; port = 80 };
    loss_rate_dn = 0;
    loss_rate_up = 0;
  };
  listen = false;
}

abbrev end_2 : TunAdapter
end_2 = record {
  base = record {
    config = record {
      source = record { ipv4_numeric = 167772162; port = 80 };
      destination = record { ipv4_numeric = 167772161; port = 1024 };
      loss_rate_dn = 0;
      loss_rate_up = 0;
    };
    listen = false;
  };
  tun = wrapper 5 false;
}

abbrev three_bytes : TcpSegment
three_bytes = record tcp_segment {
  sender_message = record {
    seqno = record { raw_value = 7 };
    syn = false;
    payload = 1 ∷ 2 ∷ 3 ∷ [];
    fin = true;
  };
}

-- A device with one datagram.
abbrev device : System Os
device = record os { read = λ fd n e. (got (wire three_bytes end_1), e) }

read-datagram_bytes_example :
    (datagram_bytes three_bytes end_1 ≡ ok (wire three_bytes end_1, sent three_bytes end_1))
    × (Tun.read device end_2 fresh
        ≡ ok (
          some (sent three_bytes end_1),
          record end_2 { tun = register_read (wrapper 5 false) },
          fresh,
        ))
read-datagram_bytes_example =
    read-datagram_bytes three_bytes end_1 device end_2 fresh fresh
      (record { connected = refl; to_peer = refl; from_peer = refl })
      (record {
        seqno = omega arith;
        payload = omega arith;
        ackno = omega arith;
        window = omega arith;
        src_port = omega arith;
        dst_port = omega arith;
      })
      (omega arith) (omega arith) (omega arith) refl
