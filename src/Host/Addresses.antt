-- ===== src/Host/Addresses.antt =====
-- util/address.cc: the addresses that from_ipv4_numeric makes.
use cs144_minnow.Base.{ℕ, ◌^◌, ◌<◌, ◌≡◌, ap, arith, ◌==◌}
use cs144_minnow.Base.Outcome.{ok, ◌>>=◌}
use cs144_minnow.Wire.Parser.{bytes_of}
use cs144_minnow.Host.Descriptor.{zeros}
use cs144_minnow.Host.SocketAddress.{
  from_ipv4_numeric, ipv4_numeric, from_sockaddr, ss_family, be32toh, same_bytes, same_address,
}

-- Every 32-bit number makes an address, whose ipv4_numeric is the number again.
ipv4_numeric-from_ipv4_numeric :
    (ip : ℕ) → ip < 2 ^ 32 → (from_ipv4_numeric ip >>= ipv4_numeric) ≡ ok ip
unfolding from_ipv4_numeric ipv4_numeric from_sockaddr ss_family be32toh bytes_of zeros
ipv4_numeric-from_ipv4_numeric ip h = ap ok (omega arith)

-- The addresses of two 32-bit numbers are equal exactly when the numbers are.
same_address-from_ipv4_numeric :
    (ip other : ℕ)
    → ip < 2 ^ 32
    → other < 2 ^ 32
    → (from_ipv4_numeric ip >>= λ a. from_ipv4_numeric other >>= λ b. ok (same_address a b))
      ≡ ok (ip == other)
unfolding from_ipv4_numeric from_sockaddr same_bytes same_address bytes_of zeros
same_address-from_ipv4_numeric ip other h h' = ap ok (ground arith)
