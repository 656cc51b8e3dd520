-- ===== src/Tests/LimiterRuns.antt =====
-- Runs of the rate limiter.
use arc_signv.Common.{◌-◌, ◌≤◌, ◌≡◌, refl, true, false, [], ◌∷◌, arith, length, select}
use arc_signv.Common.Text.{Str, codes, str_eq}
use arc_signv.Common.Int.{pos, pos_part, ltb_ℤ}
use arc_signv.Common.Time.{time_sub}
use arc_signv.Common.Dict.{lookup, insert}
use arc_signv.RateLimit.{
  RateLimiter, new_rate_limiter, allow_attempt, get_remaining_attempts, in_window, timestamps,
}
use arc_signv.RateLimit.Window.{History, start, attempt, allowed_in_window_le, decides_by_history}

abbrev wallet : Str
wallet = codes "w"

-- Two attempts in a window of 60, then one that is refused.
abbrev after_one : RateLimiter
after_one = (allow_attempt (pos 10) wallet (new_rate_limiter (pos 2) (pos 60))).0

abbrev after_two : RateLimiter
after_two = (allow_attempt (pos 20) wallet after_one).0

limit_run :
    ((allow_attempt (pos 30) wallet after_two).1 ≡ false)
    × ((allow_attempt (pos 70) wallet after_two).1 ≡ true)
unfolding allow_attempt new_rate_limiter in_window timestamps select str_eq lookup insert time_sub
limit_run = (refl, refl)

two_attempts : History wallet after_two (pos 10 ∷ pos 20 ∷ []) (pos 20)
unfolding allow_attempt new_rate_limiter in_window timestamps select str_eq lookup insert time_sub
two_attempts =
    attempt (attempt (start (pos 2) (pos 60) (pos 0)) (pos 10) wallet (omega arith)) (pos 20) wallet
      (omega arith)

allowed_in_window_le_example :
    length (select (in_window after_two.window (pos 30)) (pos 10 ∷ pos 20 ∷ []))
    ≤ pos_part after_two.max_attempts
allowed_in_window_le_example =
    allowed_in_window_le wallet after_two (pos 10 ∷ pos 20 ∷ []) (pos 20) (pos 30) two_attempts
      (omega arith)

decides_by_history_example :
    ((allow_attempt (pos 30) wallet after_two).1
      ≡ ltb_ℤ
          (pos (length (select (in_window after_two.window (pos 30)) (pos 10 ∷ pos 20 ∷ []))))
          after_two.max_attempts)
    × (get_remaining_attempts (pos 30) wallet after_two
        ≡ pos (
            pos_part after_two.max_attempts
            - length (select (in_window after_two.window (pos 30)) (pos 10 ∷ pos 20 ∷ []))))
decides_by_history_example =
    decides_by_history wallet after_two (pos 10 ∷ pos 20 ∷ []) (pos 20) (pos 30) two_attempts
      (omega arith)
