-- ===== src/Host/SocketAddress.antt =====
-- util/address.hh and util/address.cc: a socket address as the bytes of its sockaddr_storage.
use cs144_minnow.Base.{
  ℕ, ◌+◌, ◌-◌, ◌*◌, ◌^◌, Bool, true, not, ◌&&◌, ◌||◌, Option, none, some, List, [], ◌∷◌, ◌++◌,
  length, take, drop, ltb, ◌==◌, if◌then◌else◌, u16,
}
use cs144_minnow.Base.Outcome.{Outcome, ok, throws, ◌>>=◌}
use cs144_minnow.Wire.Parser.{bytes_of}
use cs144_minnow.Host.Descriptor.{zeros}

-- _size and the bytes of _address.
pub record SocketAddress : Type 0 where
  pub size : ℕ
  pub storage : List ℕ

-- The sizes of sockaddr_storage and sockaddr_in, and the families of IPv4, IPv6 and packets.
abbrev pub storage_size : ℕ
storage_size = 128

abbrev pub sockaddr_in_size : ℕ
sockaddr_in_size = 16

abbrev pub af_inet : ℕ
af_inet = 2

-- The constructor from the bytes of a sockaddr.
unfoldable pub from_sockaddr : List ℕ → Outcome SocketAddress
from_sockaddr addr =
    if ltb storage_size (length addr)
    then throws
    else ok (record { size = length addr; storage = addr ++ zeros (storage_size - length addr) })

-- The first two bytes, the lower one first as on the machines of the program.
unfoldable pub ss_family : List ℕ → ℕ
ss_family [] = 0
ss_family (low ∷ []) = low
ss_family (low ∷ high ∷ bytes) = low + 256 * high

-- be32toh of four bytes in memory.
unfoldable pub be32toh : List ℕ → ℕ
be32toh [] = 0
be32toh (b ∷ bytes) = b * 256 ^ length bytes + be32toh bytes

-- sin_addr stands behind the family and the port.
unfoldable pub ipv4_numeric : SocketAddress → Outcome ℕ
ipv4_numeric a =
    if not (ss_family a.storage == af_inet) || not (a.size == sockaddr_in_size)
    then throws
    else ok (be32toh (take 4 (drop 4 a.storage)))

unfoldable pub from_ipv4_numeric : ℕ → Outcome SocketAddress
from_ipv4_numeric ip_address =
    from_sockaddr (af_inet ∷ 0 ∷ 0 ∷ 0 ∷ (bytes_of 4 ip_address ++ zeros 8))

-- memcmp of two storages of the same length, which gives whether they agree.
unfoldable pub same_bytes : List ℕ → List ℕ → Bool
same_bytes [] ys = true
same_bytes (x ∷ xs) [] = true
same_bytes (x ∷ xs) (y ∷ ys) = x == y && same_bytes xs ys

unfoldable pub same_address : SocketAddress → SocketAddress → Bool
same_address a other =
    a.size == other.size && same_bytes (take a.size a.storage) (take a.size other.storage)

-- as, for a sockaddr type of the given size and family.
unfoldable pub as_sockaddr : ℕ → ℕ → SocketAddress → Outcome (List ℕ)
as_sockaddr type_size family a =
    if ltb type_size a.size || not (ss_family a.storage == family)
    then throws
    else ok (take type_size a.storage)

-- What the C library does with names: getaddrinfo gives the first address for a node, a service,
-- ai_flags and ai_family (nothing on an error, and nothing inside when there is no result);
-- getnameinfo gives the address and the port as text.
pub record Resolver : Type 0 where
  pub getaddrinfo : List ℕ → List ℕ → ℕ → ℕ → Option (Option (List ℕ))
  pub getnameinfo : List ℕ → Option (List ℕ × List ℕ)
  pub decimal : ℕ → List ℕ
  pub stoi : List ℕ → ℕ

unfoldable pub resolved : Option (Option (List ℕ)) → Outcome SocketAddress
resolved none = throws
resolved (some none) = throws
resolved (some (some addr)) = from_sockaddr addr

-- The constructors from a host name and a service, and from a dotted quad and a port.
unfoldable pub from_hostname : Resolver → List ℕ → List ℕ → Outcome SocketAddress
from_hostname r hostname service = resolved (r.getaddrinfo hostname service 16 af_inet)

unfoldable pub from_ip : Resolver → List ℕ → ℕ → Outcome SocketAddress
from_ip r ip port = resolved (r.getaddrinfo ip (r.decimal port) (4 + 1024) af_inet)

unfoldable pub named : Resolver → Option (List ℕ × List ℕ) → Outcome (List ℕ × ℕ)
named r none = throws
named r (some (ip, port)) = ok (ip, u16 (r.stoi port))

unfoldable pub ip_port : Resolver → SocketAddress → Outcome (List ℕ × ℕ)
ip_port r a = named r (r.getnameinfo (take a.size a.storage))

-- The text "ip:port"; 58 is the colon.
unfoldable pub to_string : Resolver → SocketAddress → Outcome (List ℕ)
to_string r a = ip_port r a >>= λ p. ok (p.0 ++ (58 ∷ r.decimal p.1))
