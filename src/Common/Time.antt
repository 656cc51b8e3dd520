-- ===== src/Common/Time.antt =====
-- Go's time.Time and time.Duration, in nanoseconds. A time counts from Go's zero time, so `IsZero` is
-- a test for 0; a difference of two times saturates at the bounds of int64.
use Prim.Native.Nat.{◌-◌, ◌^◌}
use native.Mathlib.Omega.{arith}
use arc_signv.Common.Tests.{if◌then◌else◌}
use arc_signv.Common.Int.{ℤ, pos, negsuc, ◌-ℤ◌, ◌≤ℤ◌, ltb_ℤ, -ℤ_parts}

abbrev pub max_duration : ℤ
max_duration = pos (2 ^ 63 - 1)

abbrev pub min_duration : ℤ
min_duration = negsuc (2 ^ 63 - 1)

abbrev pub saturate : ℤ → ℤ
saturate d =
    if ltb_ℤ max_duration d then max_duration else if ltb_ℤ d min_duration then min_duration else d

-- t.Sub(u)
unfoldable pub time_sub : ℤ → ℤ → ℤ
unfolding ◌-ℤ◌
time_sub t u = saturate (t -ℤ u)

-- The difference from a fixed time grows with the clock.
pub time_sub-mono : (t t' u : ℤ) → t ≤ℤ t' → time_sub t u ≤ℤ time_sub t' u
unfolding time_sub
time_sub-mono t t' u h = ground (arith, -ℤ_parts t u, -ℤ_parts t' u)
