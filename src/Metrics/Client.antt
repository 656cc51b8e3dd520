-- ===== src/Metrics/Client.antt =====
-- src/chainadapter/rpc/metrics_client.go: a client that records the calls of another one. What that
-- client returns, and the times before and after it, are arguments.
use arc_signv.Common.{◌+◌, ◌≡◌, refl, Bool, List, [], ◌∷◌, if◌then◌else◌, ltb, length, arith}
use arc_signv.Common.Text.{Str}
use arc_signv.Common.Int.{ℤ, quot}
use arc_signv.Common.Time.{time_sub}
use arc_signv.Chain.{Result, is_ok}
use arc_signv.Metrics.{PrometheusMetrics, record_rpc_call}

-- The recorder's clock is read again in each recording; `now` is what it shows.
unfoldable pub call :
    {A : Type 0} → Str → Result A → ℤ → ℤ → ℤ → PrometheusMetrics → PrometheusMetrics × Result A
call method result before after now m =
    (record_rpc_call method (time_sub after before) (is_ok result) now m, result)

-- One recording for each request, by its method.
unfoldable pub record_each : List Str → ℤ → Bool → ℤ → PrometheusMetrics → PrometheusMetrics
record_each [] duration success now m = m
record_each (method ∷ methods) duration success now m =
    record_each methods duration success now (record_rpc_call method duration success now m)

unfoldable pub call_batch :
    {A : Type 0}
    → List Str
    → Result A
    → ℤ
    → ℤ
    → ℤ
    → PrometheusMetrics
    → PrometheusMetrics × Result A
unfolding record_each
call_batch methods result before after now m =
    let duration = time_sub after before in
    let avg_duration =
      if ltb 0 (length methods) then quot duration (length methods) else duration in
    (record_each methods avg_duration (is_ok result) now m, result)

record_each-counts :
    (methods : List Str) (duration : ℤ) (success : Bool) (now : ℤ) (m : PrometheusMetrics)
    → ((record_each methods duration success now m).total_rpc_calls
        ≡ m.total_rpc_calls + length methods)
      × ((record_each methods duration success now m).successful_rpc_calls
          ≡ (if success then m.successful_rpc_calls + length methods else m.successful_rpc_calls))
      × ((record_each methods duration success now m).failed_rpc_calls
          ≡ (if success then m.failed_rpc_calls else m.failed_rpc_calls + length methods))
unfolding record_each record_rpc_call
record_each-counts [] duration success now m = ground arith
record_each-counts (method ∷ methods) duration success now m = ground (
  arith,
  record_each-counts methods duration success now (record_rpc_call method duration success now m),
)

-- A batch returns what the wrapped client returned, and counts as many calls as it has requests, all
-- of them succeeded or all failed as the batch did.
pub call_batch-counts :
    {A : Type 0} (methods : List Str) (result : Result A) (before after now : ℤ)
    (m : PrometheusMetrics)
    → let m' = (call_batch methods result before after now m).0 in
      ((call_batch methods result before after now m).1 ≡ result)
      × (m'.total_rpc_calls ≡ m.total_rpc_calls + length methods)
      × (m'.successful_rpc_calls ≡ (
          if is_ok result then m.successful_rpc_calls + length methods else m.successful_rpc_calls))
      × (m'.failed_rpc_calls
          ≡ (if is_ok result then m.failed_rpc_calls else m.failed_rpc_calls + length methods))
unfolding call_batch
call_batch-counts methods result before after now m =
    let duration = time_sub after before in
    let counts =
      record_each-counts methods
        (if ltb 0 (length methods) then quot duration (length methods) else duration) (is_ok result)
        now m in
    (refl, counts.0, counts.1, counts.2)
