-- ===== src/Rpc/Health/Breaker.antt =====
-- The circuit breaker: what a history of calls to an endpoint makes of its entry.
use arc_signv.Common.Word.{sub64-pos}
use arc_signv.Common.{
  ◌^◌, ◌||◌, length, ℕ, suc, ◌+◌, ◌≤◌, ◌<◌, ◌≡◌, refl, true, false, List, [], ◌∷◌, arith, not, ◌&&◌,
  ltb, leb,
}
use arc_signv.Common.Text.{Str, eq_refl}
use arc_signv.Common.Int.{ℤ, pos, -ℤ_parts}
use arc_signv.Common.Dict.{lookup-insert_self}
use arc_signv.Rpc.Health.{
  SimpleHealthTracker, new_simple_health_tracker, get_health, get_or_create_health, failure_entry,
  record_failure, is_healthy,
}
use arc_signv.Rpc.Health.Calls.{
  Call, record_call, record_calls, successes, failures, get_health-record_call, HasDefaults,
  record_call-HasDefaults, Consistent, Consistent-subst, record_calls-Consistent, blank-Consistent,
  new-HasDefaults, fails,
}

-- After any history of calls the counters of an endpoint are its own successes and failures in that
-- history, whatever happened to other endpoints; its circuit is open whenever its failures lead its
-- successes by three or more, and closed whenever its successes lead its failures by two or more.
pub circuit_by_lead :
    (cs : List Call) (k : Str)
    → ((get_health k (record_calls cs new_simple_health_tracker)).successful_calls ≡ successes k cs)
      × ((get_health k (record_calls cs new_simple_health_tracker)).failed_calls ≡ failures k cs)
      × ((get_health k (record_calls cs new_simple_health_tracker)).total_calls
          ≡ successes k cs + failures k cs)
      × (successes k cs + 3 ≤ failures k cs
          → (get_health k (record_calls cs new_simple_health_tracker)).circuit_open ≡ true)
      × (failures k cs + 2 ≤ successes k cs
          → (get_health k (record_calls cs new_simple_health_tracker)).circuit_open ≡ false)
circuit_by_lead cs k =
    let c =
      record_calls-Consistent cs k 0 0 new_simple_health_tracker new-HasDefaults
        (blank-Consistent k) in
    let c' : Consistent (successes k cs) (failures k cs)
        (get_health k (record_calls cs new_simple_health_tracker)) =
      Consistent-subst c (omega arith) (omega arith) refl in
    (c'.successful, c'.failed, c'.total, c'.opens, c'.closes)

-- A run of failures of one endpoint, at the given times.
abbrev pub failure_run : Str → List ℤ → List Call
failure_run k [] = []
failure_run k (now ∷ ts) = fails now k ∷ failure_run k ts

failure-circuit :
    (now : ℤ) (k : Str) (t : SimpleHealthTracker)
    → HasDefaults t
    → ((get_health k (record_call (fails now k) t)).circuit_open ≡ (
        leb ((get_health k t).successful_calls + 3) ((get_health k t).failed_calls + 1)
        || (get_health k t).circuit_open))
      × ((get_health k (record_call (fails now k) t)).successful_calls
          ≡ (get_health k t).successful_calls)
      × ((get_health k (record_call (fails now k) t)).failed_calls
          ≡ (get_health k t).failed_calls + 1)
unfolding failure_entry
failure-circuit now k t d =
    let h = get_health k t in
    let lead = -ℤ_parts (pos (suc h.failed_calls)) (pos h.successful_calls) in
    (
      ground (arith, get_health-record_call (fails now k) k t, eq_refl k, lead, d.0),
      ground (arith, get_health-record_call (fails now k) k t, eq_refl k),
      ground (arith, get_health-record_call (fails now k) k t, eq_refl k),
    )

failure_run-circuit :
    (ts : List ℤ) (k : Str) (t : SimpleHealthTracker)
    → HasDefaults t
    → (get_health k t).circuit_open
      ≡ leb ((get_health k t).successful_calls + 3) (get_health k t).failed_calls
    → (get_health k (record_calls (failure_run k ts) t)).circuit_open
      ≡ leb ((get_health k t).successful_calls + 3) ((get_health k t).failed_calls + length ts)
unfolding record_calls
failure_run-circuit [] k t d e = ground arith
failure_run-circuit (now ∷ ts) k t d e =
    let step = failure-circuit now k t d in
    ground (
      arith,
      step.0,
      step.1,
      step.2,
      failure_run-circuit ts k (record_call (fails now k) t)
          (record_call-HasDefaults (fails now k) t d),
    )

-- From a closed circuit whose failures do not lead by three, a run of failures opens the circuit
-- exactly if all failures, the earlier ones included, then lead all successes by three: each earlier
-- success makes up for one failure.
pub failure_run_opens :
    (ts : List ℤ) (k : Str) (t : SimpleHealthTracker)
    → HasDefaults t
    → (get_health k t).circuit_open ≡ false
    → (get_health k t).failed_calls < (get_health k t).successful_calls + 3
    → (get_health k (record_calls (failure_run k ts) t)).circuit_open
      ≡ leb ((get_health k t).successful_calls + 3) ((get_health k t).failed_calls + length ts)
failure_run_opens ts k t d closed behind = failure_run-circuit ts k t d (ground arith)

-- After a failure an endpoint is refused exactly if its circuit is now open and less than the open
-- window, 30 seconds, has passed; from then on it is offered again.
pub open_window :
    (at elapsed : ℕ) (k : Str) (t : SimpleHealthTracker)
    → t.circuit_open_window ≡ pos 30_000_000_000
    → at + elapsed < 2 ^ 63
    → is_healthy (pos (at + elapsed)) k (record_failure (pos at) k t)
      ≡ not ((get_health k (record_failure (pos at) k t)).circuit_open && ltb elapsed 30)
unfolding is_healthy get_health record_failure
open_window at elapsed k t w small = ground (
  arith,
  lookup-insert_self k (failure_entry t (pos at) (get_or_create_health k t)) t.health,
  sub64-pos (at + elapsed) at,
)
