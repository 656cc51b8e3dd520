-- ===== src/RateLimit.antt =====
-- internal/services/ratelimit/limiter.go. The lock makes each method one step; the clock is an
-- argument.
pub mod Window
use arc_signv.Common.{
  ℕ, suc, ◌+◌, ◌≡◌, Bool, true, false, List, [], ◌∷◌, ◌++◌, Option, none, some, if◌then◌else◌,
  length, select,
}
use arc_signv.Common.Text.{Str}
use arc_signv.Common.Int.{ℤ, pos, leb_ℤ, ltb_ℤ, ◌-ℤ◌}
use arc_signv.Common.Time.{time_sub}
use arc_signv.Common.Dict.{Dict, lookup, insert, erase}

pub record RateLimiter : Type 0 where
  pub max_attempts : ℤ
  pub window : ℤ
  pub attempts : Dict (List ℤ)

unfoldable pub new_rate_limiter : ℤ → ℤ → RateLimiter
new_rate_limiter max_attempts window = record {
  max_attempts = max_attempts;
  window = window;
  attempts = [];
}

-- Go reads a missing key as the nil slice.
unfoldable pub timestamps : Str → RateLimiter → List ℤ
timestamps wallet_id rl = elim (lookup wallet_id rl.attempts) [ none ↦ [] | some ts ↦ ts ]

-- now.Sub(timestamp) < rl.window
unfoldable pub in_window : ℤ → ℤ → ℤ → Bool
in_window window now timestamp = ltb_ℤ (time_sub now timestamp) window

unfoldable pub allow_attempt : ℤ → Str → RateLimiter → RateLimiter × Bool
unfolding timestamps
allow_attempt now wallet_id rl =
    let valid_attempts = select (in_window rl.window now) (timestamps wallet_id rl) in
    if leb_ℤ rl.max_attempts (pos (length valid_attempts))
    then (record rl { attempts = insert wallet_id valid_attempts rl.attempts }, false)
    else (record rl { attempts = insert wallet_id (valid_attempts ++ now ∷ []) rl.attempts }, true)

unfoldable pub get_remaining_attempts : ℤ → Str → RateLimiter → ℤ
unfolding timestamps ◌-ℤ◌
get_remaining_attempts now wallet_id rl =
    let valid_count = length (select (in_window rl.window now) (timestamps wallet_id rl)) in
    let remaining = rl.max_attempts -ℤ pos valid_count in
    if ltb_ℤ remaining (pos 0) then pos 0 else remaining

unfoldable pub reset_wallet : Str → RateLimiter → RateLimiter
reset_wallet wallet_id rl = record rl { attempts = erase wallet_id rl.attempts }
