-- ===== src/Rpc/Failover.antt =====
-- src/chainadapter/rpc/http.go. The network's answer to a request is an argument, by the number of
-- the request and the endpoint; so is the clock, by the number of the request.
pub mod Choice
pub mod Attempts
pub mod Exhaustion
use arc_signv.Common.{
  ℕ, zero, suc, ◌+◌, ◌%◌, ◌≡◌, Bool, true, false, not, List, [], ◌∷◌, Option, none, some,
  if◌then◌else◌, ltb, length, get_elem?, ◌==◌,
}
use arc_signv.Common.Text.{Str, str_eq, codes}
use arc_signv.Common.Int.{ℤ}
use arc_signv.Rpc.Health.{
  SimpleHealthTracker, record_success, record_failure, is_healthy, new_simple_health_tracker,
}
use arc_signv.Rpc.Health.Best.{mem}

pub record HttpRpcClient : Type 0 where
  pub endpoints : List Str
  pub current_index : ℕ
  pub health_tracker : SimpleHealthTracker
  pub request_id : ℕ

unfoldable pub new_http_rpc_client : List Str → Option SimpleHealthTracker → Option HttpRpcClient
new_http_rpc_client endpoints tracker = elim endpoints [
  | [] ↦ none
  | e ∷ es ↦ some (record {
    endpoints = e ∷ es;
    current_index = 0;
    health_tracker = elim tracker [ none ↦ new_simple_health_tracker | some t ↦ t ];
    request_id = 0;
  })
]

-- What comes of one request to an endpoint, in the order of the tests in `callEndpoint`.
pub data Reply (A : Type 0) : Type 0 where
  not_marshalled : Reply A
  not_created : Reply A
  transport_error : Reply A
  body_unread : Reply A
  status : ℕ → Reply A
  not_parsed : Reply A
  rpc_error : Str → Reply A
  answer : A → ℤ → Reply A

pub record Network (A : Type 0) : Type 0 where
  pub reply : ℕ → Str → Reply A
  pub clock : ℕ → ℤ

pub data CallError : Type 0 where
  marshal_failed create_failed request_failed read_failed parse_failed : CallError
  http_status : ℕ → CallError
  rpc_failed : Str → CallError

pub data Answer (A : Type 0) : Type 0 where
  result : A → Answer A
  failure : CallError → Answer A

module _ {A : Type 0} (net : Network A) where
  -- The tracker learns of a failure only once the request was sent.
  unfoldable pub settle : ℤ → Str → Reply A → SimpleHealthTracker → SimpleHealthTracker × Answer A
  settle now e not_marshalled t = (t, failure marshal_failed)
  settle now e not_created t = (t, failure create_failed)
  settle now e transport_error t = (record_failure now e t, failure request_failed)
  settle now e body_unread t = (record_failure now e t, failure read_failed)
  settle now e (status n) t = (record_failure now e t, failure (http_status n))
  settle now e not_parsed t = (record_failure now e t, failure parse_failed)
  settle now e (rpc_error m) t = (record_failure now e t, failure (rpc_failed m))
  settle now e (answer a duration) t = (record_success now e duration t, result a)

  -- A request takes `ids` request ids: one, or as many as the calls of a batch.
  unfoldable pub call_endpoint : ℕ → Str → HttpRpcClient → HttpRpcClient × Answer A
  unfolding settle
  call_endpoint ids e c =
      let id = c.request_id + ids in
      let (t, r) = settle (net.clock id) e (net.reply id e) c.health_tracker in
      (record c { health_tracker = t; request_id = id }, r)

-- The search for a healthy endpoint, with `left` rounds to go from round `i`.
unfoldable pub next_healthy : ℤ → HttpRpcClient → List Str → ℕ → ℕ → Option ℕ
next_healthy now c attempted zero i = none
next_healthy now c attempted (suc left) i =
    let idx = (c.current_index + i) % length c.endpoints in
    let rest = next_healthy now c attempted left (suc i) in
    elim (get_elem? c.endpoints idx) [
      | none ↦ rest
      | some e ↦
          if mem e attempted
          then rest
          else if is_healthy now e c.health_tracker
          then some idx
          else rest
    ]

unfoldable pub first_unattempted : List Str → List Str → Str
first_unattempted attempted [] = []
first_unattempted attempted (e ∷ es) = if mem e attempted then first_unattempted attempted es else e

unfoldable pub get_next_healthy_endpoint : ℤ → HttpRpcClient → List Str → HttpRpcClient × Str
get_next_healthy_endpoint now c attempted =
    elim (next_healthy now c attempted (length c.endpoints) 0) [
      | some idx ↦ (
        record c { current_index = suc idx % length c.endpoints },
        elim (get_elem? c.endpoints idx) [ none ↦ [] | some e ↦ e ],
      )
      | none ↦ (c, first_unattempted attempted c.endpoints)
    ]

-- How `Call` ends: with the endpoints attempted, latest first.
pub data Finish (A : Type 0) : Type 0 where
  succeeded : HttpRpcClient → List Str → A → Finish A
  all_failed : HttpRpcClient → List Str → Option CallError → Finish A

module _ {A : Type 0} (net : Network A) where
  -- `none` is fuel that ran out.
  unfoldable pub call_loop : ℕ → ℕ → HttpRpcClient → List Str → Option CallError → Option (Finish A)
  call_loop ids zero c attempted last_err = none
  call_loop ids (suc fuel) c attempted last_err =
      let (c', e) = get_next_healthy_endpoint (net.clock c.request_id) c attempted in
      let (c'', r) = call_endpoint net ids e c' in
      let retry = λ (x : CallError). call_loop ids fuel c'' (e ∷ attempted) (some x) in
      if not (ltb (length attempted) (length c.endpoints))
      then some (all_failed c attempted last_err)
      else if str_eq e []
      then some (all_failed c' attempted last_err)
      else elim r [ result a ↦ some (succeeded c'' (e ∷ attempted) a) | failure x ↦ retry x ]

  unfoldable pub call : HttpRpcClient → Option (Finish A)
  unfolding call_loop
  call c = call_loop 1 (suc (length c.endpoints)) c [] none

-- One response of a batch; `json.RawMessage` is its bytes, absent or null as `none`.
pub record RpcResponse : Type 0 where
  pub error : Option Str
  pub raw : Option Str

unfoldable pub extract : List RpcResponse → List (Option Str)
extract [] = []
extract (r ∷ rs) = elim r.error [ none ↦ r.raw | some m ↦ none ] ∷ extract rs

-- An empty batch is answered without a request.
unfoldable pub call_batch :
    Network (List RpcResponse) → ℕ → HttpRpcClient → Option (Finish (List RpcResponse))
unfolding call_loop
call_batch net requests c =
    if requests == 0
    then some (succeeded c [] [])
    else call_loop net requests (suc (length c.endpoints)) c [] none
