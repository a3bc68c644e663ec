-- ===== src/Host/Descriptor.antt =====
-- util/file_descriptor.{hh,cc}. FDWrapper is the object that all duplicates of a descriptor share;
-- the system calls are the operations of an interface over a state of the system.
use cs144_minnow.Base.{
  ℕ, zero, suc, ◌+◌, ◌-◌, ◌/◌, ◌%◌, ◌^◌, Bool, true, false, not, ◌&&◌, Option, none, some, List, [],
  ◌∷◌, ◌++◌, ltb, ◌==◌, if◌then◌else◌, length, take, drop, u32,
}
use cs144_minnow.Base.Outcome.{Outcome, ok, throws, ◌>>=◌}

pub data Errno : Type 0 where
  eagain einprogress enotsock other_error : Errno

-- What a system call returns: a number, or -1 with errno.
pub data Call : Type 0 where
  returned : ℕ → Call
  failed : Errno → Call

-- The same for read, with the bytes that it brings.
pub data Read : Type 0 where
  got : List ℕ → Read
  refused : Errno → Read

pub data How : Type 0 where
  shut_rd shut_wr shut_rdwr : How

-- The system calls, by the number of the descriptor. readv and writev are read and write of the
-- buffers' sizes and bytes together.
pub record System (E : Type 0) : Type 0 where
  pub read : ℕ → ℕ → E → Read × E
  pub write : ℕ → List ℕ → E → Call × E
  pub close : ℕ → E → Call × E
  pub shutdown : ℕ → How → E → Call × E

pub record FdWrapper : Type 0 where
  pub fd : ℕ
  pub eof : Bool
  pub closed : Bool
  pub non_blocking : Bool
  pub read_count : ℕ
  pub write_count : ℕ

abbrev pub would_block : Errno → Bool
would_block eagain = true
would_block einprogress = true
would_block e = false

unfoldable pub check_system_call : Call → FdWrapper → Outcome ℕ
check_system_call (returned n) d = ok n
check_system_call (failed e) d = if d.non_blocking && would_block e then ok 0 else throws

-- O_NONBLOCK is bit 11 of the flags.
abbrev pub o_nonblock : ℕ → Bool
o_nonblock flags = flags / 2 ^ 11 % 2 == 1

abbrev pub wrapper : ℕ → Bool → FdWrapper
wrapper fd non_blocking = record {
  fd = fd;
  eof = false;
  closed = false;
  non_blocking = non_blocking;
  read_count = 0;
  write_count = 0;
}

-- The constructor, for a negative number or a number, and for what fcntl returns.
unfoldable pub construct : Option ℕ → Call → Outcome FdWrapper
construct none flags = throws
construct (some fd) flags =
    check_system_call flags (wrapper fd false) >>= λ n. ok (wrapper fd (o_nonblock n))

-- setfl is what fcntl returns when it sets the flags.
unfoldable pub set_blocking : Bool → Call → (ℕ → Call) → FdWrapper → Outcome FdWrapper
set_blocking blocking getfl setfl d = check_system_call getfl d >>= λ flags.
    let on = o_nonblock flags in
    let flags' =
      if blocking
      then (if on then flags - 2 ^ 11 else flags)
      else (if on then flags else flags + 2 ^ 11) in
    check_system_call (setfl flags') d >>= λ n. ok (record d { non_blocking = not blocking })

abbrev pub register_read : FdWrapper → FdWrapper
register_read d = record d { read_count = u32 (d.read_count + 1) }

abbrev pub register_write : FdWrapper → FdWrapper
register_write d = record d { write_count = u32 (d.write_count + 1) }

abbrev pub set_eof : FdWrapper → FdWrapper
set_eof d = record d { eof = true }

abbrev pub read_buffer_size : ℕ
read_buffer_size = 16384

-- The bytes of a string that resize makes.
unfoldable pub zeros : ℕ → List ℕ
zeros zero = []
zeros (suc n) = 0 ∷ zeros n

abbrev pub is_empty : List ℕ → Bool
is_empty [] = true
is_empty (b ∷ bs) = false

abbrev pub ready_buffer : List ℕ → List ℕ
ready_buffer buffer = if is_empty buffer then zeros read_buffer_size else buffer

-- What becomes of the buffer and of the descriptor.
unfoldable pub read_result : List ℕ → Read → FdWrapper → Outcome (List ℕ × FdWrapper)
read_result buffer (refused e) d =
    if d.non_blocking && would_block e then ok (buffer, d) else throws
read_result buffer (got bytes) d =
    let d1 = register_read d in
    let d2 = if length bytes == 0 then set_eof d1 else d1 in
    if ltb (length buffer) (length bytes) then throws else ok (bytes, d2)

-- The buffers together, in order, with the bytes written over their front.
unfoldable pub scatter : List ℕ → List (List ℕ) → List (List ℕ)
scatter bytes [] = []
scatter bytes (b ∷ bs) =
    (take (length b) bytes ++ drop (length bytes) b) ∷ scatter (drop (length b) bytes) bs

-- The loop that cuts the buffers to the bytes read.
unfoldable pub cut : ℕ → List (List ℕ) → List (List ℕ)
cut remaining_size [] = []
cut remaining_size (b ∷ bs) =
    let keep = b ∷ cut (remaining_size - length b) bs in
    let rest = take remaining_size b ∷ cut 0 bs in
    if ltb remaining_size (length b) then rest else keep

abbrev pub sizes : List (List ℕ) → ℕ
sizes [] = 0
sizes (b ∷ bs) = length b + sizes bs

-- The last buffer becomes one of read_buffer_size bytes.
unfoldable pub ready_last : List (List ℕ) → List (List ℕ)
ready_last [] = []
ready_last (b ∷ []) = zeros read_buffer_size ∷ []
ready_last (b ∷ c ∷ bs) = b ∷ ready_last (c ∷ bs)

unfoldable pub readv_result : List (List ℕ) → Read → FdWrapper → Outcome (List (List ℕ) × FdWrapper)
readv_result buffers (refused e) d =
    if d.non_blocking && would_block e then ok (buffers, d) else throws
readv_result buffers (got bytes) d =
    if ltb (sizes buffers) (length bytes)
    then throws
    else ok (cut (length bytes) (scatter bytes buffers), register_read d)

-- What write checks, for the bytes given and the number that writev returned.
unfoldable pub write_result : List ℕ → Call → FdWrapper → Outcome (ℕ × FdWrapper)
write_result bytes result d = check_system_call result d >>= λ n.
    if n == 0 && not (length bytes == 0)
    then throws
    else (if ltb (length bytes) n then throws else ok (n, register_write d))

abbrev pub register_shutdown : How → FdWrapper → FdWrapper
register_shutdown shut_rd d = register_read d
register_shutdown shut_wr d = register_write d
register_shutdown shut_rdwr d = register_write (register_read d)

module _ {E : Type 0} (sys : System E) where
  unfoldable pub read : List ℕ → FdWrapper → E → Outcome (List ℕ × FdWrapper × E)
  read buffer d e =
      let ready = ready_buffer buffer in
      let (result, e') = sys.read d.fd (length ready) e in
      read_result ready result d >>= λ r. ok (r.0, r.1, e')

  unfoldable pub readv : List (List ℕ) → FdWrapper → E → Outcome (List (List ℕ) × FdWrapper × E)
  readv [] d e = ok ([], d, e)
  readv (b ∷ bs) d e =
      let ready = ready_last (b ∷ bs) in
      let (result, e') = sys.read d.fd (sizes ready) e in
      readv_result ready result d >>= λ r. ok (r.0, r.1, e')

  unfoldable pub write : List ℕ → FdWrapper → E → Outcome (ℕ × FdWrapper × E)
  write bytes d e =
      let (result, e') = sys.write d.fd bytes e in
      write_result bytes result d >>= λ r. ok (r.0, r.1, e')

  unfoldable pub close : FdWrapper → E → Outcome (FdWrapper × E)
  close d e =
      let (result, e') = sys.close d.fd e in
      check_system_call result d >>= λ n. ok (record d { eof = true; closed = true }, e')

  -- Socket::shutdown (util/socket.cc).
  unfoldable pub shutdown : How → FdWrapper → E → Outcome (FdWrapper × E)
  shutdown how d e =
      let (result, e') = sys.shutdown d.fd how e in
      check_system_call result d >>= λ n. ok (register_shutdown how d, e')
