-- ===== src/RateLimit/Window.antt =====
-- The sliding window: how many attempts on a wallet any history of calls can get allowed.
use mathlib.Core.List.{append-nil}
use arc_signv.Common.{
  not, ◌-◌, ◌&&◌, length-select-le, ◌≤◌, ◌≡◌, refl, true, List, [], ◌∷◌, ◌++◌, arith, if◌then◌else◌,
  length, select, length-append, select-append, select-select,
}
use arc_signv.Common.Text.{Str, str_eq, eq_iff}
use arc_signv.Common.Int.{ℤ, pos, pos_part, ◌≤ℤ◌, leb_ℤ, ltb_ℤ}
use arc_signv.Common.Time.{time_sub-mono}
use arc_signv.Common.Dict.{lookup, lookup-insert, lookup-erase}
use arc_signv.RateLimit.{
  RateLimiter, new_rate_limiter, timestamps, in_window, allow_attempt, get_remaining_attempts,
  reset_wallet,
}

-- What is in the window at a time was in it at any earlier time.
in_window_mono :
    (window now now' t : ℤ)
    → now ≤ℤ now'
    → in_window window now' t ≡ true
    → in_window window now t ≡ true
unfolding in_window
in_window_mono window now now' t h e = ground (arith, time_sub-mono now now' t h)

-- What a call to `allow_attempt` leaves on record for a wallet.
timestamps_of_allow :
    (now : ℤ) (w v : Str) (rl : RateLimiter)
    → timestamps v (allow_attempt now w rl).0 ≡ (
        if str_eq w v
        then select (in_window rl.window now) (timestamps v rl)
          ++ (if (allow_attempt now w rl).1 then now ∷ [] else [])
        else timestamps v rl)
unfolding allow_attempt
timestamps_of_allow now w v rl =
    let ts = select (in_window rl.window now) (timestamps w rl) in
    ground (
      arith,
      eq_iff w v,
      lookup-insert w v ts rl.attempts,
      lookup-insert w v (ts ++ now ∷ []) rl.attempts,
      append-nil ts,
    )

timestamps_of_reset :
    (w v : Str) (rl : RateLimiter)
    → timestamps v (reset_wallet w rl) ≡ (if str_eq w v then [] else timestamps v rl)
unfolding reset_wallet timestamps
timestamps_of_reset w v rl = ground (arith, lookup-erase w v rl.attempts)

-- A history of calls as wallet `v` sees it, with the times at which its attempts were allowed since
-- its last reset, and the time of the last call. The clock never runs backwards.
pub data History (v : Str) : RateLimiter → List ℤ → ℤ → Type 0 where
  start : (max_attempts window t : ℤ) → History v (new_rate_limiter max_attempts window) [] t
  attempt :
      {rl : RateLimiter} {log : List ℤ} {t : ℤ}
      → History v rl log t
      → (now : ℤ) (w : Str) → t ≤ℤ now
      → History v
          (allow_attempt now w rl).0
          (if str_eq w v && (allow_attempt now w rl).1 then log ++ now ∷ [] else log)
          now
  reset :
      {rl : RateLimiter} {log : List ℤ} {t : ℤ}
      → History v rl log t
      → (now : ℤ) (w : Str) → t ≤ℤ now
      → History v (reset_wallet w rl) (if str_eq w v then [] else log) now

-- From the time `t` on the record of `v` is as good as its log, and it is short.
record Tracks (v : Str) (rl : RateLimiter) (log : List ℤ) (t : ℤ) : Type 0 where
  same :
      (now : ℤ)
      → t ≤ℤ now
      → select (in_window rl.window now) log ≡ select (in_window rl.window now) (timestamps v rl)
  bounded : length (timestamps v rl) ≤ pos_part rl.max_attempts

start-Tracks :
    (v : Str) (max_attempts window t : ℤ) → Tracks v (new_rate_limiter max_attempts window) [] t
unfolding new_rate_limiter timestamps lookup
start-Tracks v max_attempts window t = record { same = λ now h. refl; bounded = omega arith }

pub kept_settings :
    (now : ℤ) (w : Str) (rl : RateLimiter)
    → ((allow_attempt now w rl).0.window ≡ rl.window)
      × ((allow_attempt now w rl).0.max_attempts ≡ rl.max_attempts)
unfolding allow_attempt
kept_settings now w rl = ground arith

allowed_below :
    (now : ℤ) (w : Str) (rl : RateLimiter)
    → (allow_attempt now w rl).1
      ≡ not (
          leb_ℤ rl.max_attempts (pos (length (select (in_window rl.window now) (timestamps w rl)))))
unfolding allow_attempt
allowed_below now w rl = ground arith

attempt-same :
    (v w : Str) (rl : RateLimiter) (log : List ℤ) (t now now' : ℤ)
    → Tracks v rl log t
    → t ≤ℤ now
    → now ≤ℤ now'
    → select
        (in_window rl.window now')
        (if str_eq w v && (allow_attempt now w rl).1 then log ++ now ∷ [] else log)
      ≡ select (in_window rl.window now') (timestamps v (allow_attempt now w rl).0)
attempt-same v w rl log t now now' k h h' =
    let p = in_window rl.window now' in
    let q = in_window rl.window now in
    ground (
      arith,
      timestamps_of_allow now w v rl,
      k.same now' (omega arith),
      select-append p log (now ∷ []),
      select-append p (select q (timestamps v rl)) (now ∷ []),
      select-select p q (timestamps v rl) (λ x. in_window_mono rl.window now now' x h'),
      append-nil (select q (timestamps v rl)),
    )

attempt-bounded :
    (v w : Str) (rl : RateLimiter) (log : List ℤ) (t now : ℤ)
    → Tracks v rl log t
    → length (timestamps v (allow_attempt now w rl).0) ≤ pos_part rl.max_attempts
attempt-bounded v w rl log t now k =
    let ts = select (in_window rl.window now) (timestamps v rl) in
    ground (
      arith,
      eq_iff w v,
      k.bounded,
      timestamps_of_allow now w v rl,
      allowed_below now w rl,
      length-append ts (now ∷ []),
      append-nil ts,
      length-select-le (in_window rl.window now) (timestamps v rl),
    )

attempt-Tracks :
    (v w : Str) (rl : RateLimiter) (log : List ℤ) (t now : ℤ)
    → Tracks v rl log t
    → t ≤ℤ now
    → Tracks v
        (allow_attempt now w rl).0
        (if str_eq w v && (allow_attempt now w rl).1 then log ++ now ∷ [] else log)
        now
attempt-Tracks v w rl log t now k h = record {
  same = λ now' h'. rw ((kept_settings now w rl).0) (attempt-same v w rl log t now now' k h h');
  bounded = rw ((kept_settings now w rl).1) (attempt-bounded v w rl log t now k);
}

reset-Tracks :
    (v w : Str) (rl : RateLimiter) (log : List ℤ) (t now : ℤ)
    → Tracks v rl log t
    → t ≤ℤ now
    → Tracks v (reset_wallet w rl) (if str_eq w v then [] else log) now
unfolding reset_wallet
reset-Tracks v w rl log t now k h = record {
  same = λ now' h'. ground (arith, timestamps_of_reset w v rl, k.same now' (omega arith));
  bounded = ground (arith, timestamps_of_reset w v rl, k.bounded);
}

history-Tracks :
    (v : Str) {rl : RateLimiter} {log : List ℤ} {t : ℤ} → History v rl log t → Tracks v rl log t
history-Tracks v (start max_attempts window t) = start-Tracks v max_attempts window t
history-Tracks v (attempt {rl} {log} {t} hist now w h) =
    attempt-Tracks v w rl log t now (history-Tracks v hist) h
history-Tracks v (reset {rl} {log} {t} hist now w h) =
    reset-Tracks v w rl log t now (history-Tracks v hist) h

-- After any history of calls, at any time since: of the attempts on a wallet that were allowed since
-- its last reset, at most `max_attempts` (none if that is negative) lie in the window.
pub allowed_in_window_le :
    (v : Str) (rl : RateLimiter) (log : List ℤ) (t now : ℤ)
    → History v rl log t
    → t ≤ℤ now
    → length (select (in_window rl.window now) log) ≤ pos_part rl.max_attempts
allowed_in_window_le v rl log t now hist h =
    let k = history-Tracks v hist in
    rw (k.same now h)
      (omega (arith, length-select-le (in_window rl.window now) (timestamps v rl), k.bounded))

-- After any history, `AllowAttempt` allows exactly if fewer than `max_attempts` of the attempts allowed
-- since the last reset lie in the window, and `GetRemainingAttempts` returns how many are left.
pub decides_by_history :
    (v : Str) (rl : RateLimiter) (log : List ℤ) (t now : ℤ)
    → History v rl log t
    → t ≤ℤ now
    → ((allow_attempt now v rl).1
        ≡ ltb_ℤ (pos (length (select (in_window rl.window now) log))) rl.max_attempts)
      × (get_remaining_attempts now v rl
          ≡ pos (pos_part rl.max_attempts - length (select (in_window rl.window now) log)))
unfolding get_remaining_attempts
decides_by_history v rl log t now hist h =
    let k = history-Tracks v hist in
    rw (k.same now h) (ground (arith, allowed_below now v rl), ground arith)
