-- ===== src/Rpc/Failover/Exhaustion.antt =====
-- The failover loop of `Call` and `CallBatch`: it ends, and it gives up only when every endpoint was
-- attempted.
use arc_signv.Common.{
  ℕ, zero, suc, ◌+◌, ◌≤◌, ◌<◌, ◌≡◌, ◌≢◌, refl, ◌∙◌, ap, true, false, List, [], ◌∷◌, Option, none,
  some, arith, Bool-cases, inl, inr, ◌⊎◌, All, length, ltb,
}
use arc_signv.Common.Text.{Str, str_eq, eq_iff}
use arc_signv.Common.Int.{ℤ}
use arc_signv.Rpc.Health.{SimpleHealthTracker}
use arc_signv.Rpc.Health.Best.{mem}
use arc_signv.Rpc.Failover.{
  HttpRpcClient, Network, Answer, result, failure, CallError, Reply, Finish, succeeded, all_failed,
  call_endpoint, settle, not_marshalled, not_created, transport_error, body_unread, status,
  not_parsed, rpc_error, answer, get_next_healthy_endpoint, call_loop, call, call_batch,
  RpcResponse,
}
use arc_signv.Rpc.Failover.Choice.{next_endpoint-cases, next_endpoint-keeps, AllAttempted}
use arc_signv.Rpc.Failover.Attempts.{
  unattempted, unattempted_all, unattempted_falls, unattempted_none, mem-ne-nil,
}

module _ {A : Type 0} (net : Network A) where
  endpoint_keeps :
      (ids : ℕ) (e : Str) (c : HttpRpcClient)
      → ((call_endpoint net ids e c).0.endpoints ≡ c.endpoints)
        × ((call_endpoint net ids e c).0.request_id ≡ c.request_id + ids)
  unfolding call_endpoint
  endpoint_keeps ids e c = ground arith

  settle-result :
      (now : ℤ) (e : Str) (r : Reply A) (t : SimpleHealthTracker) (a : A)
      → (settle net now e r t).1 ≡ result a
      → (duration : ℤ) × (r ≡ answer a duration)
  unfolding settle
  settle-result now e not_marshalled t a h = cc
  settle-result now e not_created t a h = cc
  settle-result now e transport_error t a h = cc
  settle-result now e body_unread t a h = cc
  settle-result now e (status n) t a h = cc
  settle-result now e not_parsed t a h = cc
  settle-result now e (rpc_error m) t a h = cc
  settle-result now e (answer b duration) t a h = (duration, cc)

  -- The endpoint that a round turns to, the client then, and the client after the request.
  turn : HttpRpcClient → List Str → Str
  turn c attempted = (get_next_healthy_endpoint (net.clock c.request_id) c attempted).1

  turned : HttpRpcClient → List Str → HttpRpcClient
  turned c attempted = (get_next_healthy_endpoint (net.clock c.request_id) c attempted).0

  asked : ℕ → HttpRpcClient → List Str → HttpRpcClient × Answer A
  unfolding turn turned
  asked ids c attempted = call_endpoint net ids (turn c attempted) (turned c attempted)

  Answer-cases : (r : Answer A) → ((a : A) × (r ≡ result a)) ⊎ ((x : CallError) × (r ≡ failure x))
  Answer-cases (result a) = inl (a, refl)
  Answer-cases (failure x) = inr (x, refl)

  -- One round of the loop.
  call_loop-suc :
      (ids fuel : ℕ) (c : HttpRpcClient) (attempted : List Str) (last : Option CallError)
      → ((call_loop net ids (suc fuel) c attempted last ≡ some (all_failed c attempted last))
          × (length c.endpoints ≤ length attempted))
        ⊎ ((call_loop net ids (suc fuel) c attempted last
              ≡ some (all_failed (turned c attempted) attempted last))
            × (turn c attempted ≡ []))
        ⊎ ((a : A) × (call_loop net ids (suc fuel) c attempted last
              ≡ some (succeeded (asked ids c attempted).0 (turn c attempted ∷ attempted) a))
            × (turn c attempted ≢ [])
            × ((asked ids c attempted).1 ≡ result a))
        ⊎ ((x : CallError) × (call_loop net ids (suc fuel) c attempted last
              ≡ call_loop net ids fuel
                  (asked ids c attempted).0
                  (turn c attempted ∷ attempted)
                  (some x))
            × (turn c attempted ≢ [])
            × (length attempted < length c.endpoints))
  unfolding call_loop asked
  call_loop-suc ids fuel c attempted last =
      elim (Bool-cases (ltb (length attempted) (length c.endpoints))) [
        | inr full ↦ inl (rw (full, call_loop), ground arith)
        | inl room ↦ elim (Bool-cases (str_eq (turn c attempted) [])) [
          | inl nothing ↦
              inr (inl (rw (room, nothing, call_loop), (eq_iff (turn c attempted) []).0 nothing))
          | inr named ↦
              let named' : turn c attempted ≢ [] =
                λ p. ground (arith, eq_iff (turn c attempted) []) in
              elim (Answer-cases (asked ids c attempted).1) [
                | inl (a, won) ↦ inr (inr (inl (a, rw (room, named, won, call_loop), named', won)))
                | inr (x, lost) ↦
                    inr (inr (inr (x, rw (room, named, lost, call_loop), named', ground arith)))
              ]
        ]
      ]

  asked_keeps :
      (ids : ℕ) (c : HttpRpcClient) (attempted : List Str)
      → ((asked ids c attempted).0.endpoints ≡ c.endpoints)
        × ((asked ids c attempted).0.request_id ≡ c.request_id + ids)
  unfolding asked turned
  asked_keeps ids c attempted = ground (
    arith,
    next_endpoint-keeps (net.clock c.request_id) c attempted,
    endpoint_keeps ids (turn c attempted) (turned c attempted),
  )

  asked-result :
      (ids : ℕ) (c : HttpRpcClient) (attempted : List Str) (a : A)
      → (asked ids c attempted).1 ≡ result a
      → (duration : ℤ) × (net.reply (asked ids c attempted).0.request_id (turn c attempted)
          ≡ answer a duration)
  unfolding asked
  asked-result ids c attempted a h =
      unfold call_endpoint in
      settle-result _ (turn c attempted) _ (turned c attempted).health_tracker a h

  -- The loop gave up with every endpoint attempted, or the last endpoint that it attempted, one of the
  -- client's that it had not attempted before, answered the last request with the result.
  abbrev pub Settles : List Str → Finish A → Type 0
  Settles es (all_failed c attempted last) = AllAttempted attempted es
  Settles es (succeeded c attempted a) =
      (e : Str) × (earlier : List Str) × (duration : ℤ) × (attempted ≡ e ∷ earlier)
      × (mem e es ≡ true)
      × (mem e earlier ≡ false)
      × (net.reply c.request_id e ≡ answer a duration)

  turn-new :
      (c : HttpRpcClient) (attempted : List Str)
      → turn c attempted ≢ []
      → (mem (turn c attempted) c.endpoints ≡ true) × (mem (turn c attempted) attempted ≡ false)
  unfolding turn
  turn-new c attempted named = elim (next_endpoint-cases (net.clock c.request_id) c attempted) [
    | inl fit ↦ fit
    | inr (nothing, _) ↦ absurd (named nothing)
  ]

  turn-nothing :
      (c : HttpRpcClient) (attempted : List Str)
      → All (λ e. e ≢ []) c.endpoints
      → turn c attempted ≡ []
      → AllAttempted attempted c.endpoints
  unfolding turn
  turn-nothing c attempted named nothing =
      elim (next_endpoint-cases (net.clock c.request_id) c attempted) [
        | inl (here, _) ↦ absurd (mem-ne-nil c.endpoints named (rw (← nothing) here))
        | inr (_, all_old) ↦ all_old
      ]

  call_loop-Settles :
      (es : List Str) (ids fuel : ℕ) (c : HttpRpcClient) (attempted : List Str)
      (last : Option CallError)
      → c.endpoints ≡ es
      → All (λ e. e ≢ []) es
      → unattempted attempted es + length attempted ≤ length es
      → length es < length attempted + fuel
      → (r : Finish A) × (call_loop net ids fuel c attempted last ≡ some r) × Settles es r
  call_loop-Settles es ids zero c attempted last same named count enough = absurd (omega arith)
  call_loop-Settles es ids (suc fuel) c attempted last same named count enough =
      elim (call_loop-suc ids fuel c attempted last) [
        | inl (eq, full) ↦ (
          all_failed c attempted last,
          eq,
          unattempted_none attempted es (omega (arith, ap length same)),
        )
        | inr (inl (eq, nothing)) ↦ (
          all_failed (turned c attempted) attempted last,
          eq,
          rw (← same) (turn-nothing c attempted (rw same named) nothing),
        )
        | inr (inr (inl (a, eq, some_turn, won))) ↦
            let (here, new) = turn-new c attempted some_turn in
            let (duration, said) = asked-result ids c attempted a won in
            (
              succeeded (asked ids c attempted).0 (turn c attempted ∷ attempted) a,
              eq,
              (turn c attempted, attempted, duration, refl, rw (← same) here, new, said),
            )
        | inr (inr (inr (x, eq, some_turn, room))) ↦
            let (here, new) = turn-new c attempted some_turn in
            let falls = unattempted_falls (turn c attempted) attempted es (rw (← same) here) new in
            let (r, ends, good) =
              call_loop-Settles es ids fuel (asked ids c attempted).0 (turn c attempted ∷ attempted)
                (some x) ((asked_keeps ids c attempted).0 ∙ same) named (omega (arith, falls))
                (omega arith) in
            (r, eq ∙ ends, good)
      ]

  -- Where no endpoint is the empty text, `Call` always returns. It returns a result only as the answer
  -- of the endpoint that it attempted last, which no earlier attempt had tried; it gives up only when
  -- every endpoint was attempted. (It takes an empty endpoint for the end of the list.)
  pub call-Settles :
      (c : HttpRpcClient)
      → All (λ e. e ≢ []) c.endpoints
      → (r : Finish A) × (call net c ≡ some r) × Settles c.endpoints r
  unfolding call
  call-Settles c named =
      call_loop-Settles c.endpoints 1 (suc (length c.endpoints)) c [] none refl named
        (omega (arith, unattempted_all c.endpoints)) (omega arith)

-- `CallBatch` with at least one request behaves in the same way, and takes one request id for each.
pub call_batch-Settles :
    (net : Network (List RpcResponse)) (requests : ℕ) (c : HttpRpcClient)
    → 0 < requests
    → All (λ e. e ≢ []) c.endpoints
    → (r : Finish (List RpcResponse)) × (call_batch net requests c ≡ some r)
      × Settles net c.endpoints r
unfolding call_batch
call_batch-Settles net requests c some_requests named =
    let (r, ends, good) =
      call_loop-Settles net c.endpoints requests (suc (length c.endpoints)) c [] none refl named
        (omega (arith, unattempted_all c.endpoints)) (omega arith) in
    (r, ground (arith, ends), good)
