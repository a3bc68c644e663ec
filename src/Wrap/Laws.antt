-- ===== src/Wrap/Laws.antt =====
-- What wrap and unwrap of src/wrapping_integers.cc promise each other.
use cs144_minnow.Base.{ℕ, ◌+◌, ◌-◌, ◌≤◌, ◌<◌, ◌^◌, ◌≡◌, arith, IsU32, IsU64}
use cs144_minnow.Wrap.{Wrap32, wrap, unwrap}

-- The distance of two absolute sequence numbers.
abbrev pub gap : ℕ → ℕ → ℕ
gap a b = (a - b) + (b - a)

-- For 32-bit w and z and a 64-bit checkpoint c, the absolute number that unwrap returns is a
-- 64-bit number and wraps back to w.
pub wrap-unwrap :
    (w z : Wrap32) (c : ℕ)
    → IsU32 w.raw_value
    → IsU32 z.raw_value
    → IsU64 c
    → IsU64 (unwrap w z c) × (wrap (unwrap w z c) z ≡ w)
unfolding wrap unwrap
wrap-unwrap w z c hw hz hc = ground arith

-- An absolute number n less than 2^31 away from the checkpoint c is recovered by unwrap from what
-- wrap makes of it, for a 32-bit zero point z and 64-bit n and c.
pub unwrap-wrap :
    (n : ℕ) (z : Wrap32) (c : ℕ)
    → IsU32 z.raw_value
    → IsU64 c
    → IsU64 n
    → gap n c < 2 ^ 31
    → unwrap (wrap n z) z c ≡ n
unfolding wrap unwrap
unwrap-wrap n z c hz hc hn h = ground arith

-- No 64-bit absolute number n that wraps to w lies closer to the checkpoint c than the one that
-- unwrap returns, for 32-bit w and z and a 64-bit c.
pub unwrap_closest :
    (w z : Wrap32) (c n : ℕ)
    → IsU32 w.raw_value
    → IsU32 z.raw_value
    → IsU64 c
    → IsU64 n
    → wrap n z ≡ w
    → gap (unwrap w z c) c ≤ gap n c
unfolding wrap unwrap
unwrap_closest w z c n hw hz hc hn e = ground arith

pub wrap_zero : (z : Wrap32) → IsU32 z.raw_value → wrap 0 z ≡ z
unfolding wrap
wrap_zero z h = ground arith
