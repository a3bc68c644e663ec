-- ===== src/Wrap/Runs.antt =====
-- Runs of src/wrapping_integers.cc, and its theorems at concrete numbers.
use cs144_minnow.Base.{ℕ, ◌+◌, ◌-◌, ◌*◌, ◌≤◌, ◌^◌, ◌≡◌, refl, arith, IsU64}
use cs144_minnow.Wrap.{Wrap32, wrap, unwrap}
use cs144_minnow.Wrap.Laws.{gap, wrap-unwrap, unwrap-wrap, unwrap_closest}

abbrev w_of : ℕ → Wrap32
w_of n = record { raw_value = n }

-- tests/wrapping_integers_wrap.cc and wrapping_integers_unwrap.cc
wrap_17 : wrap (3 * 2 ^ 32 + 17) (w_of 15) ≡ w_of 32
unfolding wrap
wrap_17 = refl

unwrap_last : unwrap (w_of 0xffffffff) (w_of 10) (3 * 2 ^ 32) ≡ 3 * 2 ^ 32 - 11
unfolding unwrap
unwrap_last = refl

wrap-unwrap_example :
    IsU64 (unwrap (w_of 5) (w_of 9) 2000) × (wrap (unwrap (w_of 5) (w_of 9) 2000) (w_of 9) ≡ w_of 5)
wrap-unwrap_example = wrap-unwrap (w_of 5) (w_of 9) 2000 (omega arith) (omega arith) (omega arith)

unwrap-wrap_example : unwrap (wrap 4294967400 (w_of 77)) (w_of 77) 4294967290 ≡ 4294967400
unwrap-wrap_example =
    unwrap-wrap 4294967400 (w_of 77) 4294967290 (omega arith) (omega arith) (omega arith)
      (omega arith)

unwrap_closest_example : gap (unwrap (w_of 5) (w_of 5) 2000) 2000 ≤ gap (2 ^ 32) 2000
unwrap_closest_example =
    unwrap_closest (w_of 5) (w_of 5) 2000 (2 ^ 32) (omega arith) (omega arith) (omega arith)
      (omega arith) (unfold wrap in refl)
