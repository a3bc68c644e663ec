-- ===== src/Host/Routes.antt =====
-- Where the routers of apps/endtoend.cc route.
use cs144_minnow.Base.{
  ℕ, ◌+◌, ◌*◌, ◌%◌, ◌^◌, ◌≡◌, refl, ap, ◌∙◌, Bool, true, false, ◌&&◌, Option, none, some, [], ◌∷◌,
  ltb, leb, ◌==◌, arith, test_self, Bool-cases, inl, inr,
}
use cs144_minnow.Wire.Ethernet.{EthernetAddress}
use cs144_minnow.Base.Maps.{assign, lookup}
use cs144_minnow.Net.Router.{look_up, best, matches, RouteTable, insert, add_route}
use cs144_minnow.Host.RouterThread.{set_up_router}

abbrev key_host : ℕ
key_host = 0xC0A80000 * 2 ^ 32 + 16

abbrev key_internet : ℕ
key_internet = 0x0A000000 * 2 ^ 32 + 8

abbrev key_server : ℕ
key_server = 0xAC100000 * 2 ^ 32 + 12

-- The lowest and the first higher address of a prefix.
abbrev within : ℕ → ℕ → ℕ → Bool
within low high dst = leb low dst && ltb dst high

matches_host : (dst : ℕ) → matches dst key_host ≡ within 0xC0A80000 0xC0A90000 dst
unfolding matches
matches_host dst = ground arith

matches_internet : (dst : ℕ) → matches dst key_internet ≡ within 0x0A000000 0x0B000000 dst
unfolding matches
matches_internet dst = ground arith

matches_server : (dst : ℕ) → matches dst key_server ≡ within 0xAC100000 0xAC200000 dst
unfolding matches
matches_server dst = ground arith

-- A router's table: the first two routes lead straight to the addresses, the third to a next hop.
table : ℕ → ℕ → ℕ → ℕ → RouteTable
table k1 k2 k3 hop = record {
  entries = (k1, 0) ∷ (k2, 1) ∷ (k3, 1) ∷ [];
  next_hops = (k3, hop) ∷ [];
}

-- The route, by which of the three prefixes cover the address.
abbrev pub chosen : ℕ → Bool → Bool → Bool → Option (ℕ × Option ℕ)
chosen hop true b c = some (0, none)
chosen hop false true c = some (1, none)
chosen hop false false true = some (1, some hop)
chosen hop false false false = none

leb_zero : (n : ℕ) → leb 0 n ≡ true
leb_zero n = ground arith

look_up-table :
    (dst k1 k2 k3 hop : ℕ)
    → (k3 == k1) ≡ false
    → (k3 == k2) ≡ false
    → (matches dst k1 && matches dst k2) ≡ false
    → (matches dst k1 && matches dst k3) ≡ false
    → (matches dst k2 && matches dst k3) ≡ false
    → look_up dst (table k1 k2 k3 hop)
      ≡ chosen hop (matches dst k1) (matches dst k2) (matches dst k3)
unfolding look_up best table lookup
look_up-table dst k1 k2 k3 hop n1 n2 d12 d13 d23 = elim (Bool-cases (matches dst k1)) [
  | inl a ↦
      let b : matches dst k2 ≡ false = ground arith in
      let c : matches dst k3 ≡ false = ground arith in rw (a, b, c, leb_zero (k1 % 2 ^ 32), n1) refl
  | inr a ↦ elim (Bool-cases (matches dst k2)) [
    | inl b ↦
        let c : matches dst k3 ≡ false = ground arith in
        rw (a, b, c, leb_zero (k2 % 2 ^ 32), n2) refl
    | inr b ↦ elim (Bool-cases (matches dst k3)) [
      | inl c ↦ rw (a, b, c, leb_zero (k3 % 2 ^ 32), test_self k3) refl
      | inr c ↦ rw (a, b, c) refl
    ]
  ]
]

table-client :
    (eth_1 eth_2 : EthernetAddress)
    → (set_up_router true eth_1 eth_2).0.route_table
      ≡ table key_host key_internet key_server 0x0A0000AC
unfolding set_up_router add_route insert table assign
table-client eth_1 eth_2 = refl

table-server :
    (eth_1 eth_2 : EthernetAddress)
    → (set_up_router false eth_1 eth_2).0.route_table
      ≡ table key_server key_internet key_host 0x0A0000C0
unfolding set_up_router add_route insert table assign
table-server eth_1 eth_2 = refl

-- Both routers of endtoend route every 32-bit address by three ranges: what is on their host side
-- straight to it, 10.0.0.0 to 10.255.255.255 straight to the internet side, and what is on the other
-- router's host side to that router; everything else is dropped.
pub look_up-set_up_router :
    (eth_1 eth_2 : EthernetAddress) (dst : ℕ)
    → let host = within 0xC0A80000 0xC0A90000 dst in
      let internet = within 0x0A000000 0x0B000000 dst in
      let server = within 0xAC100000 0xAC200000 dst in
      (look_up dst (set_up_router true eth_1 eth_2).0.route_table
        ≡ chosen 0x0A0000AC host internet server)
      × (look_up dst (set_up_router false eth_1 eth_2).0.route_table
          ≡ chosen 0x0A0000C0 server internet host)
look_up-set_up_router eth_1 eth_2 dst =
    let m1 = matches_host dst in
    let m2 = matches_internet dst in
    let m3 = matches_server dst in
    let d12 : (matches dst key_host && matches dst key_internet) ≡ false =
      rw (m1, m2) (ground arith) in
    let d13 : (matches dst key_host && matches dst key_server) ≡ false =
      rw (m1, m3) (ground arith) in
    let d32 : (matches dst key_server && matches dst key_internet) ≡ false =
      rw (m3, m2) (ground arith) in
    let d23 : (matches dst key_internet && matches dst key_server) ≡ false =
      rw (m3, m2) (ground arith) in
    let d31 : (matches dst key_server && matches dst key_host) ≡ false =
      rw (m1, m3) (ground arith) in
    let d21 : (matches dst key_internet && matches dst key_host) ≡ false =
      rw (m1, m2) (ground arith) in
    (
      ap (look_up dst) (table-client eth_1 eth_2)
          ∙ look_up-table dst key_host key_internet key_server 0x0A0000AC refl refl d12 d13 d23
          ∙ rw (m1, m2, m3) refl,
      ap (look_up dst) (table-server eth_1 eth_2)
          ∙ look_up-table dst key_server key_internet key_host 0x0A0000C0 refl refl d32 d31 d21
          ∙ rw (m1, m2, m3) refl,
    )
