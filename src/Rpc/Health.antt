-- ===== src/Rpc/Health.antt =====
-- src/chainadapter/rpc/health.go and EndpointHealth of rpc/client.go. The lock makes each method one
-- step; the clock, in Unix seconds, is an argument. Counters of calls are plain numbers.
pub mod Calls
pub mod Breaker
pub mod Best
use arc_signv.Common.{
  ℕ, suc, ◌≡◌, Bool, true, false, not, ◌&&◌, List, [], ◌∷◌, Option, none, some, if◌then◌else◌,
}
use arc_signv.Common.Text.{Str, str_eq}
use arc_signv.Common.Int.{ℤ, pos, negsuc, ◌-ℤ◌, quot, ltb_ℤ, leb_ℤ, eqb_ℤ}
use arc_signv.Common.Word.{add64, sub64, mul64}
use arc_signv.Common.Float.{FloatOps}
use arc_signv.Common.Dict.{Dict, lookup, insert, erase}

pub record EndpointHealth : Type 0 where
  pub endpoint : Str
  pub total_calls : ℕ
  pub successful_calls : ℕ
  pub failed_calls : ℕ
  pub avg_latency_ms : ℤ
  pub last_success : ℤ
  pub last_failure : ℤ
  pub circuit_open : Bool

pub record SimpleHealthTracker : Type 0 where
  pub health : Dict EndpointHealth
  pub failure_threshold : ℤ
  pub success_threshold : ℤ
  -- a time.Duration
  pub circuit_open_window : ℤ

unfoldable pub new_simple_health_tracker : SimpleHealthTracker
new_simple_health_tracker = record {
  health = [];
  failure_threshold = pos 3;
  success_threshold = pos 2;
  circuit_open_window = pos 30_000_000_000;
}

abbrev pub blank : Str → EndpointHealth
blank endpoint = record {
  endpoint = endpoint;
  total_calls = 0;
  successful_calls = 0;
  failed_calls = 0;
  avg_latency_ms = pos 0;
  last_success = pos 0;
  last_failure = pos 0;
  circuit_open = false;
}

unfoldable pub get_health : Str → SimpleHealthTracker → EndpointHealth
get_health endpoint t = elim (lookup endpoint t.health) [ none ↦ blank endpoint | some h ↦ h ]

-- The entry that an update works on.
unfoldable pub get_or_create_health : Str → SimpleHealthTracker → EndpointHealth
get_or_create_health endpoint t = elim (lookup endpoint t.health) [
  | none ↦ blank endpoint
  | some h ↦ h
]

unfoldable pub next_latency : ℤ → ℤ → ℤ
next_latency avg duration =
    if eqb_ℤ avg (pos 0) then duration else quot (add64 (mul64 avg (pos 9)) duration) 10

unfoldable pub success_entry : SimpleHealthTracker → ℤ → ℤ → EndpointHealth → EndpointHealth
success_entry t now duration h = record h {
  total_calls = suc h.total_calls;
  successful_calls = suc h.successful_calls;
  last_success = now;
  avg_latency_ms = next_latency h.avg_latency_ms duration;
  circuit_open =
      h.circuit_open
      && not (leb_ℤ t.success_threshold (pos (suc h.successful_calls) -ℤ pos h.failed_calls));
}

unfoldable pub record_success : ℤ → Str → ℤ → SimpleHealthTracker → SimpleHealthTracker
unfolding get_or_create_health success_entry
record_success now endpoint duration t = record t {
  health =
      insert endpoint (success_entry t now duration (get_or_create_health endpoint t)) t.health;
}

unfoldable pub failure_entry : SimpleHealthTracker → ℤ → EndpointHealth → EndpointHealth
failure_entry t now h = record h {
  total_calls = suc h.total_calls;
  failed_calls = suc h.failed_calls;
  last_failure = now;
  circuit_open =
      if leb_ℤ t.failure_threshold (pos (suc h.failed_calls) -ℤ pos h.successful_calls)
      then true
      else h.circuit_open;
}

unfoldable pub record_failure : ℤ → Str → SimpleHealthTracker → SimpleHealthTracker
unfolding get_or_create_health failure_entry
record_failure now endpoint t = record t {
  health = insert endpoint (failure_entry t now (get_or_create_health endpoint t)) t.health;
}

-- int64(t.circuitOpenWindow.Seconds())
unfoldable pub window_seconds : SimpleHealthTracker → ℤ
window_seconds t = quot t.circuit_open_window 1_000_000_000

unfoldable pub is_healthy : ℤ → Str → SimpleHealthTracker → Bool
unfolding window_seconds sub64 quot
is_healthy now endpoint t = elim (lookup endpoint t.health) [
  | none ↦ true
  | some h ↦ not (h.circuit_open && ltb_ℤ (sub64 now h.last_failure) (window_seconds t))
]

unfoldable pub reset : Str → SimpleHealthTracker → SimpleHealthTracker
reset endpoint t = record t { health = erase endpoint t.health }

-- GetBestEndpoint, over the floats in which it scores.
module _ (ops : FloatOps) where
  open ops use {Float, literal, of_int, add, mul, div, lt}

  unfoldable pub score : EndpointHealth → Float
  score h =
      let success_rate = div (of_int (pos h.successful_calls)) (of_int (pos h.total_calls)) in
      let latency_factor =
        div (literal (pos 1) 1) (add (of_int h.avg_latency_ms) (literal (pos 1) 1)) in
      add (mul success_rate (literal (pos 7) 10)) (mul latency_factor (literal (pos 3) 10))

  -- The loop, from the best endpoint and the best score so far.
  unfoldable pub best_loop : ℤ → SimpleHealthTracker → List Str → Str → Float → Str
  best_loop now t [] best best_score = best
  best_loop now t (e ∷ es) best best_score =
      let skip = best_loop now t es best best_score in
      if not (is_healthy now e t) then skip else elim (lookup e t.health) [
        | none ↦ e
        | some h ↦
            let better = best_loop now t es e (score h) in
            if lt best_score (score h) then better else skip
      ]

  unfoldable pub get_best_endpoint : ℤ → SimpleHealthTracker → List Str → Str
  unfolding best_loop
  get_best_endpoint now t endpoints =
      let best = best_loop now t endpoints [] (literal (negsuc 0) 1) in
      if str_eq best [] then elim endpoints [ [] ↦ best | e ∷ es ↦ e ] else best
