-- ===== src/Host/Socket.antt =====
-- util/socket.{hh,cc} and ::CheckSystemCall (util/exception.hh). Socket::shutdown stands in Descriptor.
-- An Address is its ipv4_numeric() and its port(); the numbers of levels and options are the system's.
use cs144_minnow.Base.{ℕ, not, ◌&&◌, ◌||◌, some, List, [], ◌∷◌, ltb, ◌==◌, if◌then◌else◌, take}
use cs144_minnow.Base.Outcome.{Outcome, ok, throws, ◌>>=◌}
use cs144_minnow.Wire.Adapter.{Address}
use cs144_minnow.Host.Descriptor
use cs144_minnow.Host.Descriptor.{
  Call, returned, failed, Errno, would_block, FdWrapper, check_system_call, register_read,
  register_write, read_buffer_size, zeros,
}

-- The options that the code reads, and those that it sets.
pub data OptionName : Type 0 where
  so_domain so_type so_protocol so_error so_reuseaddr so_bindtodevice : OptionName

-- What getsockopt returns: a failure, or the length of the option and its value.
pub data OptionRead : Type 0 where
  option_refused : Errno → OptionRead
  option_read : ℕ → ℕ → OptionRead

-- What recvfrom returns with MSG_TRUNC: the length of the datagram, the bytes of it that fit, and its
-- source.
pub data Received : Type 0 where
  recv_refused : Errno → Received
  datagram : ℕ → List ℕ → Address → Received

-- The calls on sockets, by the number of the descriptor.
pub record Sockets (E : Type 0) : Type 0 where
  pub socket : ℕ → ℕ → ℕ → E → Call × E
  pub getsockopt : ℕ → OptionName → E → OptionRead × E
  pub setsockopt : ℕ → OptionName → List ℕ → E → Call × E
  pub getfl : ℕ → E → Call
  pub bind : ℕ → Address → E → Call × E
  pub connect : ℕ → Address → E → Call × E
  pub recvfrom : ℕ → ℕ → E → Received × E
  pub sendto : ℕ → List ℕ → Address → E → Call × E
  pub send : ℕ → List ℕ → E → Call × E
  pub listen : ℕ → ℕ → E → Call × E
  pub accept : ℕ → E → Call × E

-- ::CheckSystemCall, which throws whatever the error is.
unfoldable pub throw_on_error : Call → Outcome ℕ
throw_on_error (returned n) = ok n
throw_on_error (failed e) = throws

-- getsockopt: the length and the value of the option. A call that would block leaves the value.
unfoldable pub getsockopt : OptionRead → ℕ → FdWrapper → Outcome (ℕ × ℕ)
getsockopt (option_refused e) value d =
    if d.non_blocking && would_block e then ok (4, value) else throws
getsockopt (option_read optlen value) old d = ok (optlen, value)

-- What recv makes of the call: the source and the payload. A call that would block gives a length of 0,
-- and leaves the source as it was initialised.
unfoldable pub recv_result : Received → Address → FdWrapper → Outcome (Address × List ℕ × FdWrapper)
recv_result (recv_refused e) no_address d =
    if d.non_blocking && would_block e then ok (no_address, [], register_read d) else throws
recv_result (datagram recv_len bytes source) no_address d =
    if ltb read_buffer_size recv_len
    then throws
    else ok (source, take recv_len bytes, register_read d)

module _ {E : Type 0} (sys : Sockets E) where
  -- A check of the constructor from a descriptor.
  unfoldable pub verify_option : OptionName → ℕ → ℕ → FdWrapper → E → Outcome (ℕ × E)
  verify_option name expected old d e =
      let (result, e') = sys.getsockopt d.fd name e in
      getsockopt result old d >>= λ r.
      if not (r.0 == 4) || not (r.1 == expected) then throws else ok (r.1, e')

  unfoldable pub from_descriptor : ℕ → ℕ → ℕ → FdWrapper → E → Outcome (FdWrapper × E)
  from_descriptor domain type protocol d e = verify_option so_domain domain 0 d e >>= λ r1.
      verify_option so_type type r1.0 d r1.1 >>= λ r2.
      verify_option so_protocol protocol r2.0 d r2.1 >>= λ r3. ok (d, r3.1)

  -- The constructor of a new socket.
  unfoldable pub create : ℕ → ℕ → ℕ → E → Outcome (FdWrapper × E)
  create domain type protocol e =
      let (result, e') = sys.socket domain type protocol e in
      throw_on_error result >>= λ n.
      Descriptor.construct (some n) (sys.getfl n e') >>= λ d. ok (d, e')

  unfoldable pub bind : Address → FdWrapper → E → Outcome E
  bind address d e =
      let (result, e') = sys.bind d.fd address e in check_system_call result d >>= λ n. ok e'

  unfoldable pub connect : Address → FdWrapper → E → Outcome E
  connect address d e =
      let (result, e') = sys.connect d.fd address e in check_system_call result d >>= λ n. ok e'

  unfoldable pub recv : Address → FdWrapper → E → Outcome (Address × List ℕ × FdWrapper × E)
  recv no_address d e =
      let (result, e') = sys.recvfrom d.fd read_buffer_size e in
      recv_result result no_address d >>= λ r. ok (r.0, r.1, r.2, e')

  unfoldable pub sendto : Address → List ℕ → FdWrapper → E → Outcome (FdWrapper × E)
  sendto destination payload d e =
      let (result, e') = sys.sendto d.fd payload destination e in
      check_system_call result d >>= λ n. ok (register_write d, e')

  unfoldable pub send : List ℕ → FdWrapper → E → Outcome (FdWrapper × E)
  send payload d e =
      let (result, e') = sys.send d.fd payload e in
      check_system_call result d >>= λ n. ok (register_write d, e')

  unfoldable pub listen : ℕ → FdWrapper → E → Outcome E
  listen backlog d e =
      let (result, e') = sys.listen d.fd backlog e in check_system_call result d >>= λ n. ok e'

  -- The listening socket, and the new one. (AF_INET is 2, SOCK_STREAM 1, and IPPROTO_TCP 6.)
  unfoldable pub accept : FdWrapper → E → Outcome (FdWrapper × FdWrapper × E)
  accept d e =
      let d1 = register_read d in
      let (result, e') = sys.accept d1.fd e in
      check_system_call result d1 >>= λ n. Descriptor.construct (some n) (sys.getfl n e') >>= λ c.
      from_descriptor 2 1 6 c e' >>= λ r. ok (d1, r.0, r.1)

  unfoldable pub set_option : OptionName → List ℕ → FdWrapper → E → Outcome E
  set_option name value d e =
      let (result, e') = sys.setsockopt d.fd name value e in
      check_system_call result d >>= λ n. ok e'

  -- An int { true }, in bytes.
  unfoldable pub set_reuseaddr : FdWrapper → E → Outcome E
  set_reuseaddr d e = set_option so_reuseaddr (1 ∷ 0 ∷ 0 ∷ 0 ∷ []) d e

  unfoldable pub bind_to_device : List ℕ → FdWrapper → E → Outcome E
  bind_to_device device_name d e = set_option so_bindtodevice device_name d e

  unfoldable pub throw_if_error : FdWrapper → E → Outcome E
  throw_if_error d e =
      let (result, e') = sys.getsockopt d.fd so_error e in
      getsockopt result 0 d >>= λ r. if not (r.0 == 4) || not (r.1 == 0) then throws else ok e'
