-- ===== src/Metrics/Export.antt =====
-- Export of src/chainadapter/metrics/prometheus.go. `fixed` prints a float with so many decimals; the
-- map is read in the order of its list.
use arc_signv.Common.{ℕ, [], ◌∷◌, ◌++◌, if◌then◌else◌, ltb}
use arc_signv.Common.Text.{Str, codes, decimal, str_eq}
use arc_signv.Common.Int.{ℤ, pos, quot, ◌-ℤ◌, ◌*ℤ◌}
use arc_signv.Common.Dict.{Dict}
use arc_signv.Common.Float.{FloatOps}
use arc_signv.Metrics.{MethodStats, OperationStats, PrometheusMetrics, get_health_status}

abbrev pub newline : Str
newline = 10 ∷ []

-- # HELP name text, and # TYPE name kind
unfoldable pub headed : Str → Str → Str → Str
headed name text kind =
    codes "# HELP "
    ++ (name
        ++ (codes " "
            ++ (text
                ++ (newline ++ (codes "# TYPE " ++ (name ++ (codes " " ++ (kind ++ newline))))))))

-- name{key="value",second="other"} number
unfoldable pub sample : Str → Str → Str → Str → Str → Str → Str
sample name key value second other number =
    name
    ++ (codes "{"
        ++ (key
            ++ (codes "=\""
                ++ (value
                    ++ (codes "\","
                        ++ (second
                            ++ (codes "=\""
                                ++ (other ++ (codes "\"} " ++ (number ++ newline))))))))))

abbrev pub calls_name : Str
calls_name = codes "chainadapter_rpc_calls_total"

abbrev pub duration_name : Str
duration_name = codes "chainadapter_rpc_duration_seconds"

abbrev pub operations_name : Str
operations_name = codes "chainadapter_tx_operations_total"

unfoldable pub export_calls : Dict MethodStats → Str
unfolding sample
export_calls [] = []
export_calls ((method, st) ∷ rest) =
    sample calls_name (codes "method") method (codes "status") (codes "success")
      (decimal (pos st.successful_calls))
    ++ (sample calls_name (codes "method") method (codes "status") (codes "failure")
          (decimal (pos st.failed_calls))
        ++ export_calls rest)

unfoldable pub export_operation : Str → OperationStats → Str
unfolding sample
export_operation name st =
    sample operations_name (codes "operation") name (codes "status") (codes "success")
      (decimal (pos st.successful_calls))
    ++ sample operations_name (codes "operation") name (codes "status") (codes "failure")
        (decimal (pos st.failed_calls))

module _ (F : FloatOps) (fixed : ℕ → F.Float → Str) where
  -- Duration.Seconds: whole seconds, and the rest divided by 10⁹
  unfoldable pub seconds : ℤ → F.Float
  seconds d =
      let whole = quot d 1000000000 in
      F.add (F.of_int whole)
        (F.div (F.of_int (d -ℤ (whole *ℤ pos 1000000000))) (F.literal (pos 1000000000) 1))

  unfoldable pub export_durations : Dict MethodStats → Str
  unfolding sample seconds
  export_durations [] = []
  export_durations ((method, st) ∷ rest) =
      let others = export_durations rest in
      let line = λ (quantile : Str) (f : F.Float).
        sample duration_name (codes "method") method (codes "quantile") quantile (fixed 6 f) in
      if ltb 0 st.total_calls
      then line (codes "avg") (F.div (seconds st.total_duration) (F.of_int (pos st.total_calls)))
        ++ (line (codes "min") (seconds st.min_duration)
            ++ (line (codes "max") (seconds st.max_duration) ++ others))
      else others

  abbrev pub health_value : Str → F.Float
  health_value status =
      if str_eq status (codes "OK")
      then F.literal (pos 1) 1
      else if str_eq status (codes "Degraded")
      then F.literal (pos 5) 10
      else F.literal (pos 0) 1

  unfoldable pub export : ℤ → PrometheusMetrics → Str
  unfolding headed export_calls export_durations export_operation
  export now m =
      headed calls_name (codes "Total number of RPC calls") (codes "counter")
      ++ (export_calls m.rpc_metrics
          ++ (newline
              ++ (headed duration_name (codes "RPC call duration in seconds") (codes "summary")
                  ++ (export_durations m.rpc_metrics
                      ++ (newline
                          ++ (headed operations_name
                                (codes "Total number of transaction operations") (codes "counter")
                              ++ (export_operation (codes "build") m.build_stats
                                  ++ (export_operation (codes "sign") m.sign_stats
                                      ++ (export_operation (codes "broadcast") m.broadcast_stats
                                          ++ (newline
                                              ++ (headed (codes "chainadapter_health_status")
                                                    (codes
                                                      "Health status (1=OK, 0.5=Degraded, 0=Down)")
                                                    (codes "gauge")
                                                  ++ (codes "chainadapter_health_status "
                                                      ++ (fixed 1 (
                                                            health_value
                                                            (get_health_status F now m).status)
                                                          ++ newline)))))))))))))
