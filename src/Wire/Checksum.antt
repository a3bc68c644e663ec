-- ===== src/Wire/Checksum.antt =====
-- util/checksum.hh: the Internet checksum.
use cs144_minnow.Base.{
  ℕ, zero, suc, ◌+◌, ◌-◌, ◌*◌, ◌/◌, ◌%◌, ◌^◌, ◌≤◌, ◌≡◌, Bool, false, not, List, [], ◌∷◌, arith, ltb,
  if◌then◌else◌, u16, u32, IsU32,
}

pub record InternetChecksum : Type 0 where
  pub sum : ℕ
  pub parity : Bool

abbrev pub checksum : ℕ → InternetChecksum
checksum sum = record { sum = sum; parity = false }

unfoldable pub add : List ℕ → InternetChecksum → InternetChecksum
add [] c = c
add (i ∷ data_left) c =
    let val = if c.parity then i else u16 (i * 256) in
    add data_left (record { sum = u32 (c.sum + val); parity = not c.parity })

unfoldable pub add_all : List (List ℕ) → InternetChecksum → InternetChecksum
unfolding add
add_all [] c = c
add_all (x ∷ xs) c = add_all xs (add x c)

-- The loop of value, on fuel: two rounds bring a 32-bit sum below 2^16.
pub fold : ℕ → ℕ → ℕ
fold zero ret = ret
fold (suc fuel) ret =
    let rest = fold fuel (u32 (ret / 2 ^ 16 + u16 ret)) in if ltb 0xffff ret then rest else ret

unfoldable pub value : InternetChecksum → ℕ
unfolding fold
value c = u16 (2 ^ 32 - 1 - fold 2 c.sum)

-- For a 32-bit sum the loop ends within its fuel, and the checksum is the 16-bit number that fills
-- the sum up to a multiple of 2^16 - 1.
pub value_lem :
    (c : InternetChecksum)
    → IsU32 c.sum
    → (fold 2 c.sum ≤ 0xffff) × (value c ≤ 0xffff) × ((c.sum + value c) % 0xffff ≡ 0)
unfolding value
value_lem c h = ground arith
