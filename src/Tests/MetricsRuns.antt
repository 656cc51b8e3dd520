-- ===== src/Tests/MetricsRuns.antt =====
-- Runs of the metrics recorder.
use arc_signv.Common.{ℕ, ◌+◌, ◌≡◌, refl, Bool, true, false, List, [], ◌∷◌, none, some}
use arc_signv.Common.Text.{codes, str_eq}
use arc_signv.Common.Int.{ℤ, pos}
use arc_signv.Common.Dict.{lookup, insert}
use arc_signv.Chain.{Result, ok}
use arc_signv.Metrics.{new_prometheus_metrics, update_stats, record_rpc_call}
use arc_signv.Metrics.Counts.{RpcCall, record_all, IsCounted, Matches, record_all-counts}
use arc_signv.Metrics.Client.{call_batch, call_batch-counts}

abbrev rpc_call : ℤ → Bool → RpcCall
rpc_call duration success = record {
  method = codes "m";
  duration = duration;
  success = success;
  at = pos 9;
}

abbrev two_calls : List RpcCall
two_calls = rpc_call (pos 5) true ∷ rpc_call (pos 0) false ∷ []

-- A duration of 0 is overwritten as if there had been none.
least_duration_lost :
    (elim (lookup (codes "m") (record_all two_calls).rpc_metrics) [
      | none ↦ pos 0
      | some st ↦ st.min_duration
    ])
    ≡ pos 5
unfolding record_all record_rpc_call new_prometheus_metrics lookup insert update_stats str_eq
least_duration_lost = refl

record_all-counts_example :
    IsCounted two_calls (record_all two_calls)
    × Matches (codes "m") two_calls (lookup (codes "m") (record_all two_calls).rpc_metrics)
record_all-counts_example = record_all-counts two_calls (codes "m")

abbrev reply : Result ℕ
reply = ok 7

call_batch-counts_example :
    let m' =
      (call_batch
        (codes "a" ∷ codes "b" ∷ [])
        reply
        (pos 1)
        (pos 9)
        (pos 9)
        new_prometheus_metrics).0 in
    ((call_batch
        (codes "a" ∷ codes "b" ∷ [])
        reply
        (pos 1)
        (pos 9)
        (pos 9)
        new_prometheus_metrics).1
      ≡ reply)
    × (m'.total_rpc_calls ≡ new_prometheus_metrics.total_rpc_calls + 2)
    × (m'.successful_rpc_calls ≡ new_prometheus_metrics.successful_rpc_calls + 2)
    × (m'.failed_rpc_calls ≡ new_prometheus_metrics.failed_rpc_calls)
call_batch-counts_example =
    call_batch-counts (codes "a" ∷ codes "b" ∷ []) reply (pos 1) (pos 9) (pos 9)
      new_prometheus_metrics
