-- ===== src/Wrap.antt =====
-- src/wrapping_integers.hh and src/wrapping_integers.cc: 32-bit sequence numbers.
pub mod Laws
mod Runs
use cs144_minnow.Base.{
  ℕ, ◌+◌, ◌-◌, ◌*◌, ◌/◌, ◌^◌, Bool, ltb, leb, ◌==◌, if◌then◌else◌, u32, u64, sub32, sub64,
}

pub record Wrap32 : Type 0 where
  pub raw_value : ℕ

unfoldable pub wrap : ℕ → Wrap32 → Wrap32
wrap n zero_point = record { raw_value = u32 (u32 n + zero_point.raw_value) }

-- checkpoint & 0xFFFFFFFF00000000
abbrev pub high_32 : ℕ → ℕ
high_32 checkpoint = checkpoint / 2 ^ 32 * 2 ^ 32

abbrev pub distance : ℕ → ℕ → ℕ
distance a b = if ltb b a then sub64 a b else sub64 b a

abbrev pub other_roundpoint : ℕ → ℕ → ℕ
other_roundpoint r checkpoint =
    if leb r checkpoint then u64 (r + 0x100000000) else sub64 r 0x100000000

abbrev pub closer_roundpoint : ℕ → ℕ → ℕ
closer_roundpoint r checkpoint =
    let r2 = other_roundpoint r checkpoint in
    if ltb (distance r checkpoint) (distance r2 checkpoint) then r else r2

unfoldable pub unwrap : Wrap32 → Wrap32 → ℕ → ℕ
unwrap w zero_point checkpoint =
    closer_roundpoint (u64 (sub32 w.raw_value zero_point.raw_value + high_32 checkpoint)) checkpoint

-- operator+ and operator==
pub advance : Wrap32 → ℕ → Wrap32
advance w n = record { raw_value = u32 (w.raw_value + n) }

pub same : Wrap32 → Wrap32 → Bool
same a b = a.raw_value == b.raw_value
