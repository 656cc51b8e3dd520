-- ===== src/Metrics/Counts.antt =====
-- What the recorder holds after any sequence of calls, against the log of the calls itself.
use mathlib.Core.Path.{subst}
use arc_signv.Common.{
  ℕ, ◌≤◌, ◌<◌, ◌≡◌, refl, ap, sym, Bool, Bool-cases, inl, inr, true, false, not, ◌&&◌, List, [],
  ◌∷◌, Option, none, some, length, select, arith,
}
use arc_signv.Common.Text.{Str, str_eq, eq_iff}
use arc_signv.Common.Int.{ℤ, ◌≤ℤ◌}
use arc_signv.Common.Dict.{lookup, lookup-insert}
use arc_signv.Metrics.{
  MethodStats, PrometheusMetrics, new_prometheus_metrics, stats_or_first, update_stats,
  record_rpc_call,
}

pub record RpcCall : Type 0 where
  pub method : Str
  pub duration : ℤ
  pub success : Bool
  pub at : ℤ

-- The recorder after the calls of a log, latest first.
unfoldable pub record_all : List RpcCall → PrometheusMetrics
record_all [] = new_prometheus_metrics
record_all (c ∷ log) = record_rpc_call c.method c.duration c.success c.at (record_all log)

abbrev pub of_method : Str → RpcCall → Bool
of_method method c = str_eq c.method method

-- How many calls of a log pass a test.
abbrev pub how_many : (RpcCall → Bool) → List RpcCall → ℕ
how_many test log = length (select test log)

-- The statistics of a method are those of its calls, and there are some exactly if it was called.
abbrev pub Matches : Str → List RpcCall → Option MethodStats → Type 0
Matches method log none = how_many (of_method method) log ≡ 0
Matches method log (some st) =
    (0 < how_many (of_method method) log)
    × (st.total_calls ≡ how_many (of_method method) log)
    × (st.successful_calls ≡ how_many (λ c. of_method method c && c.success) log)
    × (st.failed_calls ≡ how_many (λ c. of_method method c && not c.success) log)
    × (st.min_duration ≤ℤ st.max_duration)

-- The counters of all methods together.
pub record IsCounted (log : List RpcCall) (m : PrometheusMetrics) : Type 0 where
  pub total : m.total_rpc_calls ≡ length log
  pub successful : m.successful_rpc_calls ≡ how_many (λ c. c.success) log
  pub failed : m.failed_rpc_calls ≡ how_many (λ c. not c.success) log

record_all-IsCounted : (log : List RpcCall) → IsCounted log (record_all log)
unfolding record_all new_prometheus_metrics record_rpc_call select
record_all-IsCounted [] = record { total = refl; successful = refl; failed = refl }
record_all-IsCounted (c ∷ log) = ground (arith, record_all-IsCounted log)

how_many-and :
    (method : Str) (test : RpcCall → Bool) (log : List RpcCall)
    → how_many (λ c. of_method method c && test c) log ≤ how_many (of_method method) log
unfolding select
how_many-and method test [] = omega arith
how_many-and method test (c ∷ log) = ground (arith, how_many-and method test log)

update-Matches :
    (method : Str) (c : RpcCall) (log : List RpcCall) (held : Option MethodStats)
    → str_eq c.method method ≡ true
    → Matches method log held
    → Matches method
        (c ∷ log)
        (some (update_stats c.duration c.success c.at (stats_or_first c.duration held)))
unfolding update_stats select
update-Matches method c log none same h =
    ground (
      arith,
      how_many-and method (λ d. d.success) log,
      how_many-and method (λ d. not d.success) log,
    )
update-Matches method c log (some st) same h = ground arith

other-Matches :
    (method : Str) (c : RpcCall) (log : List RpcCall) (held : Option MethodStats)
    → str_eq c.method method ≡ false
    → Matches method log held
    → Matches method (c ∷ log) held
unfolding select
other-Matches method c log none other h = ground arith
other-Matches method c log (some st) other h = ground arith

Matches-cons :
    (method : Str) (c : RpcCall) (log : List RpcCall)
    → Matches method log (lookup method (record_all log).rpc_metrics)
    → Matches method (c ∷ log) (lookup method (record_all (c ∷ log)).rpc_metrics)
unfolding record_all record_rpc_call
Matches-cons method c log h =
    let m = record_all log in
    let st =
      update_stats c.duration c.success c.at
        (stats_or_first c.duration (lookup c.method m.rpc_metrics)) in
    elim (Bool-cases (str_eq c.method method)) [
      | inl same ↦
          let renamed : c.method ≡ method = (eq_iff c.method method).0 same in
          let moved =
            ap
              (λ (k : Str).
                update_stats c.duration c.success c.at
                  (stats_or_first c.duration (lookup k m.rpc_metrics)))
              (sym renamed) in
          rw (lookup-insert c.method method st m.rpc_metrics, same)
            (subst (λ (x : MethodStats). Matches method (c ∷ log) (some x)) moved
              (update-Matches method c log (lookup method m.rpc_metrics) same h))
      | inr other ↦
          rw (lookup-insert c.method method st m.rpc_metrics, other)
            (other-Matches method c log _ other h)
    ]

record_all-Matches :
    (log : List RpcCall) (method : Str)
    → Matches method log (lookup method (record_all log).rpc_metrics)
unfolding record_all new_prometheus_metrics lookup select
record_all-Matches [] method = refl
record_all-Matches (c ∷ log) method = Matches-cons method c log (record_all-Matches log method)

-- After any log of calls the recorder has counted them: in all, and for each method, how many there
-- were and how many of them succeeded and failed. A method has statistics exactly if it was called, and
-- its least duration never exceeds the greatest.
pub record_all-counts :
    (log : List RpcCall) (method : Str)
    → IsCounted log (record_all log)
      × Matches method log (lookup method (record_all log).rpc_metrics)
record_all-counts log method = (record_all-IsCounted log, record_all-Matches log method)
