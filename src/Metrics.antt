-- ===== src/Metrics.antt =====
-- src/chainadapter/metrics: PrometheusMetrics (prometheus.go) and the results of its queries
-- (metrics.go). The lock makes each method one step; the clock is an argument. Counters are unbounded,
-- sums of durations wrap around at 64 bits.
pub mod Counts
pub mod Export
pub mod Client
use arc_signv.Common.{
  ℕ, suc, ◌+◌, Bool, true, false, not, ◌&&◌, ◌||◌, List, [], ◌∷◌, ◌++◌, Option, none, some,
  if◌then◌else◌, ltb, ◌==◌,
}
use arc_signv.Common.Text.{Str, codes}
use arc_signv.Common.Int.{ℤ, pos, ltb_ℤ, eqb_ℤ, quot}
use arc_signv.Common.Word.{add64}
use arc_signv.Common.Dict.{Dict, lookup, insert}
use arc_signv.Common.Time.{time_sub}
use arc_signv.Common.Float.{FloatOps}

pub record MethodStats : Type 0 where
  pub total_calls : ℕ
  pub successful_calls : ℕ
  pub failed_calls : ℕ
  pub total_duration : ℤ
  pub min_duration : ℤ
  pub max_duration : ℤ
  pub last_successful_call : ℤ
  pub last_failed_call : ℤ

pub record OperationStats : Type 0 where
  pub total_calls : ℕ
  pub successful_calls : ℕ
  pub failed_calls : ℕ
  pub total_duration : ℤ

pub record PrometheusMetrics : Type 0 where
  pub rpc_metrics : Dict MethodStats
  pub build_stats : OperationStats
  pub sign_stats : OperationStats
  pub broadcast_stats : OperationStats
  pub total_rpc_calls : ℕ
  pub successful_rpc_calls : ℕ
  pub failed_rpc_calls : ℕ
  pub last_successful_call : ℤ

abbrev pub no_operations : OperationStats
no_operations = record {
  total_calls = 0;
  successful_calls = 0;
  failed_calls = 0;
  total_duration = pos 0;
}

unfoldable pub new_prometheus_metrics : PrometheusMetrics
new_prometheus_metrics = record {
  rpc_metrics = [];
  build_stats = no_operations;
  sign_stats = no_operations;
  broadcast_stats = no_operations;
  total_rpc_calls = 0;
  successful_rpc_calls = 0;
  failed_rpc_calls = 0;
  last_successful_call = pos 0;
}

-- The statistics of a method that is called for the first time.
abbrev pub first_stats : ℤ → MethodStats
first_stats duration = record {
  total_calls = 0;
  successful_calls = 0;
  failed_calls = 0;
  total_duration = pos 0;
  min_duration = duration;
  max_duration = duration;
  last_successful_call = pos 0;
  last_failed_call = pos 0;
}

abbrev pub stats_or_first : ℤ → Option MethodStats → MethodStats
stats_or_first duration none = first_stats duration
stats_or_first duration (some st) = st

unfoldable pub update_stats : ℤ → Bool → ℤ → MethodStats → MethodStats
update_stats duration success now st = record {
  total_calls = suc st.total_calls;
  successful_calls = if success then suc st.successful_calls else st.successful_calls;
  failed_calls = if success then st.failed_calls else suc st.failed_calls;
  total_duration = add64 st.total_duration duration;
  min_duration =
      if ltb_ℤ duration st.min_duration || eqb_ℤ st.min_duration (pos 0)
      then duration
      else st.min_duration;
  max_duration = if ltb_ℤ st.max_duration duration then duration else st.max_duration;
  last_successful_call = if success then now else st.last_successful_call;
  last_failed_call = if success then st.last_failed_call else now;
}

unfoldable pub record_rpc_call : Str → ℤ → Bool → ℤ → PrometheusMetrics → PrometheusMetrics
record_rpc_call method duration success now m = record m {
  rpc_metrics =
      insert method
        (update_stats duration success now (stats_or_first duration (lookup method m.rpc_metrics)))
        m.rpc_metrics;
  total_rpc_calls = suc m.total_rpc_calls;
  successful_rpc_calls = if success then suc m.successful_rpc_calls else m.successful_rpc_calls;
  failed_rpc_calls = if success then m.failed_rpc_calls else suc m.failed_rpc_calls;
  last_successful_call = if success then now else m.last_successful_call;
}

unfoldable pub count_operation : ℤ → Bool → OperationStats → OperationStats
count_operation duration success st = record {
  total_calls = suc st.total_calls;
  successful_calls = if success then suc st.successful_calls else st.successful_calls;
  failed_calls = if success then st.failed_calls else suc st.failed_calls;
  total_duration = add64 st.total_duration duration;
}

unfoldable pub record_transaction_build : ℤ → Bool → PrometheusMetrics → PrometheusMetrics
unfolding count_operation
record_transaction_build duration success m = record m {
  build_stats = count_operation duration success m.build_stats;
}

unfoldable pub record_transaction_sign : ℤ → Bool → PrometheusMetrics → PrometheusMetrics
unfolding count_operation
record_transaction_sign duration success m = record m {
  sign_stats = count_operation duration success m.sign_stats;
}

unfoldable pub record_transaction_broadcast : ℤ → Bool → PrometheusMetrics → PrometheusMetrics
unfolding count_operation
record_transaction_broadcast duration success m = record m {
  broadcast_stats = count_operation duration success m.broadcast_stats;
}

unfoldable pub reset : PrometheusMetrics → PrometheusMetrics
unfolding new_prometheus_metrics
reset m = new_prometheus_metrics

-- The loop over the map that sums the durations.
unfoldable pub sum_durations : Dict MethodStats → ℤ → ℤ
sum_durations [] total = total
sum_durations ((k, st) ∷ rest) total = sum_durations rest (add64 total st.total_duration)

abbrev pub average : ℤ → ℕ → ℤ
average total n = if n == 0 then pos 0 else quot total n

module _ (F : FloatOps) where
  unfoldable pub rate : ℕ → ℕ → F.Float
  rate successful total =
      if total == 0
      then F.literal (pos 0) 1
      else F.div (F.of_int (pos successful)) (F.of_int (pos total))

  -- The three or four figures of one kind of call, as GetMetrics returns them.
  pub record Figures : Type 0 where
    pub total : ℕ
    pub successful : ℕ
    pub failed : ℕ
    pub success_rate : F.Float
    pub avg_duration : ℤ

  unfoldable pub operation_figures : OperationStats → Figures
  unfolding rate
  operation_figures st = record {
    total = st.total_calls;
    successful = st.successful_calls;
    failed = st.failed_calls;
    success_rate = rate st.successful_calls st.total_calls;
    avg_duration = average st.total_duration st.total_calls;
  }

  pub record AggregatedMetrics : Type 0 where
    pub rpc : Figures
    pub last_successful_call : ℤ
    pub builds : Figures
    pub signs : Figures
    pub broadcasts : Figures

  unfoldable pub get_metrics : PrometheusMetrics → AggregatedMetrics
  unfolding rate operation_figures sum_durations
  get_metrics m = record {
    rpc = record {
      total = m.total_rpc_calls;
      successful = m.successful_rpc_calls;
      failed = m.failed_rpc_calls;
      success_rate = rate m.successful_rpc_calls m.total_rpc_calls;
      avg_duration = average (sum_durations m.rpc_metrics (pos 0)) m.total_rpc_calls;
    };
    last_successful_call = m.last_successful_call;
    builds = operation_figures m.build_stats;
    signs = operation_figures m.sign_stats;
    broadcasts = operation_figures m.broadcast_stats;
  }

  pub record MethodMetrics : Type 0 where
    pub method : Str
    pub calls : Figures
    pub min_duration : ℤ
    pub max_duration : ℤ
    pub last_successful_call : ℤ
    pub last_failed_call : ℤ

  -- `none` is the nil pointer.
  unfoldable pub get_rpc_metrics : Str → PrometheusMetrics → Option MethodMetrics
  unfolding rate
  get_rpc_metrics method m = elim (lookup method m.rpc_metrics) [
    | none ↦ none
    | some st ↦ some (record {
      method = method;
      calls = record {
        total = st.total_calls;
        successful = st.successful_calls;
        failed = st.failed_calls;
        success_rate = rate st.successful_calls st.total_calls;
        avg_duration = average st.total_duration st.total_calls;
      };
      min_duration = st.min_duration;
      max_duration = st.max_duration;
      last_successful_call = st.last_successful_call;
      last_failed_call = st.last_failed_call;
    })
  ]

  -- The status; its message, a text for people, is left out.
  pub record HealthStatus : Type 0 where
    pub status : Str
    pub checked_at : ℤ
    pub low_success_rate : Bool
    pub high_latency : Bool
    pub no_recent_success : Bool

  abbrev pub is_low : PrometheusMetrics → Bool
  is_low m =
      F.lt (rate m.successful_rpc_calls m.total_rpc_calls) (F.literal (pos 90) 100)
      && ltb 0 m.total_rpc_calls

  abbrev pub is_slow : PrometheusMetrics → Bool
  is_slow m =
      ltb_ℤ (pos 5000000000) (average (sum_durations m.rpc_metrics (pos 0)) m.total_rpc_calls)

  abbrev pub is_silent : ℤ → PrometheusMetrics → Bool
  is_silent now m =
      not (eqb_ℤ m.last_successful_call (pos 0))
      && ltb_ℤ (pos 300000000000) (time_sub now m.last_successful_call)

  unfoldable pub get_health_status : ℤ → PrometheusMetrics → HealthStatus
  unfolding rate sum_durations
  get_health_status now m = record {
    status =
        if m.total_rpc_calls == 0
        then codes "OK"
        else if is_low m || is_slow m || is_silent now m
        then codes "Degraded"
        else codes "OK";
    checked_at = now;
    low_success_rate = is_low m;
    high_latency = is_slow m;
    no_recent_success = is_silent now m;
  }
