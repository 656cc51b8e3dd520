-- ===== src/Tests/ClientRuns.antt =====
-- Runs of the health tracker and of the client.
use arc_signv.Common.{
  ℕ, ◌+◌, ◌≤◌, ◌≡◌, ◌≢◌, refl, true, false, List, [], ◌∷◌, none, some, arith, All, if◌then◌else◌,
}
use arc_signv.Common.Text.{Str, codes, str_eq}
use arc_signv.Common.Int.{pos}
use arc_signv.Common.Dict.{lookup, insert}
use arc_signv.Tests.Values.{plain_floats}
use arc_signv.Rpc.Health.{
  SimpleHealthTracker, new_simple_health_tracker, get_health, record_failure, is_healthy,
  get_best_endpoint,
}
use arc_signv.Rpc.Health.Calls.{Call, fails, record_call, record_calls, successes, failures}
use arc_signv.Rpc.Health.Breaker.{circuit_by_lead}
use arc_signv.Rpc.Health.Best.{mem, best_healthy}
use arc_signv.Rpc.Failover.{
  HttpRpcClient, new_http_rpc_client, Network, Reply, answer, transport_error, Finish, call,
  get_next_healthy_endpoint, RpcResponse, next_healthy,
}
use arc_signv.Rpc.Failover.Choice.{next_endpoint-healthy}
use arc_signv.Rpc.Failover.Exhaustion.{Settles, call-Settles}

abbrev node_a : Str
node_a = codes "https://a"

abbrev node_b : Str
node_b = codes "https://b"

abbrev three_failures : List Call
three_failures = fails (pos 100) node_a ∷ fails (pos 101) node_a ∷ fails (pos 102) node_a ∷ []

abbrev shaken : SimpleHealthTracker
shaken = record_calls three_failures new_simple_health_tracker

breaker_run :
    (is_healthy (pos 103) node_a shaken ≡ false)
    × (is_healthy (pos 132) node_a shaken ≡ true)
    × (is_healthy (pos 103) node_b shaken ≡ true)
unfolding record_calls record_failure is_healthy new_simple_health_tracker lookup insert str_eq
breaker_run = (refl, refl, refl)

circuit_by_lead_example :
    ((get_health node_a shaken).successful_calls ≡ successes node_a three_failures)
    × ((get_health node_a shaken).failed_calls ≡ failures node_a three_failures)
    × ((get_health node_a shaken).total_calls
        ≡ successes node_a three_failures + failures node_a three_failures)
    × (successes node_a three_failures + 3 ≤ failures node_a three_failures
        → (get_health node_a shaken).circuit_open ≡ true)
    × (failures node_a three_failures + 2 ≤ successes node_a three_failures
        → (get_health node_a shaken).circuit_open ≡ false)
circuit_by_lead_example = circuit_by_lead three_failures node_a

abbrev two_nodes : HttpRpcClient
two_nodes = record {
  endpoints = node_a ∷ node_b ∷ [];
  current_index = 0;
  health_tracker = shaken;
  request_id = 0;
}

open_client_run : new_http_rpc_client (node_a ∷ node_b ∷ []) (some shaken) ≡ some two_nodes
unfolding new_http_rpc_client
open_client_run = refl

choice_run : (get_next_healthy_endpoint (pos 103) two_nodes []).1 ≡ node_b
unfolding get_next_healthy_endpoint mem is_healthy record_calls record_call record_failure
    new_simple_health_tracker lookup insert str_eq next_healthy
choice_run = refl

next_endpoint-healthy_example :
    (is_healthy
        (pos 103)
        (get_next_healthy_endpoint (pos 103) two_nodes []).1
        two_nodes.health_tracker
      ≡ true)
    × (mem (get_next_healthy_endpoint (pos 103) two_nodes []).1 [] ≡ false)
    × (mem (get_next_healthy_endpoint (pos 103) two_nodes []).1 two_nodes.endpoints ≡ true)
next_endpoint-healthy_example =
    next_endpoint-healthy (pos 103) two_nodes [] 1 node_b (omega arith) refl (unfold mem in refl)
      breaker_run.2

-- The first node answers nothing, the second everything.
answers : {A : Type 0} → A → ℕ → Str → Reply A
unfolding str_eq
answers a id e = if str_eq e node_b then answer a (pos 12) else transport_error

abbrev half_up : {A : Type 0} → A → Network A
half_up a = record { reply = answers a; clock = λ n. pos (200 + n) }

named_nodes : All (λ (e : Str). e ≢ []) two_nodes.endpoints
named_nodes = (λ p. cc, (λ p. cc, tt))

call-Settles_example :
    (r : Finish Str) × (call (half_up (codes "0x1")) two_nodes ≡ some r)
    × Settles (half_up (codes "0x1")) two_nodes.endpoints r
call-Settles_example = call-Settles (half_up (codes "0x1")) two_nodes named_nodes

abbrev one_response : List RpcResponse
one_response = record { error = none; raw = some (codes "0x1") } ∷ []

best_healthy_example :
    (is_healthy
        (pos 103)
        (get_best_endpoint plain_floats (pos 103) shaken (node_a ∷ node_b ∷ []))
        shaken
      ≡ true)
    × (mem
          (get_best_endpoint plain_floats (pos 103) shaken (node_a ∷ node_b ∷ []))
          (node_a ∷ node_b ∷ [])
        ≡ true)
best_healthy_example =
    best_healthy plain_floats (pos 103) shaken (node_a ∷ node_b ∷ []) (λ e h p. refl) named_nodes
      (rw (breaker_run.0, breaker_run.2) refl)
