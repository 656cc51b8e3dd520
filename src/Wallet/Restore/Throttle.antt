-- ===== src/Wallet/Restore/Throttle.antt =====
-- How many wrong passwords one WalletService can be asked to try.
use mathlib.Core.Path.{subst}
use arc_signv.Common.{
  ◌≤◌, ◌≡◌, refl, Bool, true, false, ◌&&◌, List, [], ◌∷◌, ◌++◌, if◌then◌else◌, length, select,
  arith,
}
use arc_signv.Common.Text.{Str, str_eq}
use arc_signv.Common.Int.{ℤ, pos, pos_part, ◌≤ℤ◌}
use arc_signv.RateLimit.{RateLimiter, new_rate_limiter, in_window, allow_attempt, reset_wallet}
use arc_signv.RateLimit.Window.{History, start, attempt, reset, allowed_in_window_le, kept_settings}
use arc_signv.Wallet.{WalletService, Disk, Env, new_wallet_service}
use arc_signv.Wallet.Restore.{open_wallet, restore_wallet}

-- Whether the limiter lets a call pass, and whether the call then finds the password right.
abbrev pub passes : ℤ → Str → WalletService → Bool
passes now w s = (allow_attempt now w s.rate_limiter).1

abbrev pub succeeds : {Block : Type 0} → Env Block → Str → Str → ℤ → WalletService → Disk → Bool
succeeds env w password now s d =
    (open_wallet env (record s { rate_limiter = (allow_attempt now w s.rate_limiter).0 }) w password
      now d).0

-- The log of the calls that passed since the last success, by what one more call does.
abbrev pub log_call : Bool → Bool → Bool → ℤ → List ℤ → List ℤ
log_call same passed right now log =
    if same && passed then (if right then [] else log ++ now ∷ []) else log

-- Any sequence of calls of `RestoreWallet` on one service, for any wallets, with any passwords, on
-- whatever is then on the disk; with the times of the calls for wallet `v` that passed the limiter and
-- failed since the last success for it, and the time of the last call.
pub data Session {Block : Type 0} (env : Env Block) (v : Str)
    : WalletService → List ℤ → ℤ → Type 0 where
  begin : (path : Str) (t : ℤ) → Session env v (new_wallet_service path) [] t
  call :
      (s : WalletService) (log : List ℤ) (t : ℤ)
      → Session env v s log t
      → (now : ℤ) (w password : Str) (d : Disk) → t ≤ℤ now
      → Session env v
          (restore_wallet env w password now s d).0
          (log_call (str_eq w v) (passes now w s) (succeeds env w password now s d) now log)
          now

-- What a call does to the limiter.
limiter_of_call :
    {Block : Type 0} (env : Env Block) (w password : Str) (now : ℤ) (s : WalletService) (d : Disk)
    → (restore_wallet env w password now s d).0.rate_limiter ≡ (
        if passes now w s && succeeds env w password now s d
        then reset_wallet w (allow_attempt now w s.rate_limiter).0
        else (allow_attempt now w s.rate_limiter).0)
unfolding restore_wallet
limiter_of_call env w password now s d = ground arith

-- The attempt alone, or the attempt and the reset after it.
choose-History :
    (v w : Str) (rl : RateLimiter) (log : List ℤ) (now : ℤ) (same passed right : Bool)
    → History v rl (if same && passed then log ++ now ∷ [] else log) now
    → History v
        (reset_wallet w rl)
        (if same then [] else if same && passed then log ++ now ∷ [] else log)
        now
    → History v
        (if passed && right then reset_wallet w rl else rl)
        (log_call same passed right now log)
        now
choose-History v w rl log now true true true once both = both
choose-History v w rl log now false true true once both = both
choose-History v w rl log now true true false once both = once
choose-History v w rl log now false true false once both = once
choose-History v w rl log now true false right once both = once
choose-History v w rl log now false false right once both = once

call-History :
    (v w : Str) (rl : RateLimiter) (log : List ℤ) (t now : ℤ) (right : Bool)
    → History v rl log t
    → t ≤ℤ now
    → History v
        (if (allow_attempt now w rl).1 && right
          then reset_wallet w (allow_attempt now w rl).0
          else (allow_attempt now w rl).0)
        (log_call (str_eq w v) (allow_attempt now w rl).1 right now log)
        now
call-History v w rl log t now right h le =
    let after = attempt h now w le in
    choose-History v w (allow_attempt now w rl).0 log now (str_eq w v) (allow_attempt now w rl).1
      right after (reset after now w (omega arith))

session-History :
    {Block : Type 0} (env : Env Block) (v : Str) {s : WalletService} {log : List ℤ} {t : ℤ}
    → Session env v s log t
    → History v s.rate_limiter log t
unfolding new_wallet_service
session-History env v (begin path t) = start (pos 3) (pos 60000000000) t
session-History env v (call s log t h now w password d le) =
    rw (limiter_of_call env w password now s d) (
      call-History v w s.rate_limiter log t now (succeeds env w password now s d)
        (session-History env v h) le)

-- Three attempts a minute.
IsMinute : RateLimiter → Type 0
IsMinute rl = (rl.max_attempts ≡ pos 3) × (rl.window ≡ pos 60000000000)

session-IsMinute :
    {Block : Type 0} (env : Env Block) (v : Str) {s : WalletService} {log : List ℤ} {t : ℤ}
    → Session env v s log t
    → IsMinute s.rate_limiter
unfolding new_wallet_service new_rate_limiter IsMinute reset_wallet
session-IsMinute env v (begin path t) = (refl, refl)
session-IsMinute env v (call s log t h now w password d le) = ground (
  arith,
  session-IsMinute env v h,
  limiter_of_call env w password now s d,
  kept_settings now w s.rate_limiter,
)

-- Whatever sequence of calls one service has seen, by a clock that does not run backwards: of the
-- calls of `RestoreWallet` for a wallet that came past the limiter and failed since the last success
-- for it, at most three lie within any minute up to a time after the last call.
pub wrong_attempts_le :
    {Block : Type 0} (env : Env Block) (v : Str) (s : WalletService) (log : List ℤ) (t now : ℤ)
    → Session env v s log t
    → t ≤ℤ now
    → length (select (in_window (pos 60000000000) now) log) ≤ 3
unfolding IsMinute
wrong_attempts_le env v s log t now h le =
    let (three, minute) = session-IsMinute env v h in
    let bound = allowed_in_window_le v s.rate_limiter log t now (session-History env v h) le in
    subst (λ (w : ℤ). length (select (in_window w now) log) ≤ 3) minute
      (subst (λ (m : ℤ). length (select (in_window s.rate_limiter.window now) log) ≤ pos_part m)
        three bound)
