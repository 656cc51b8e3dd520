-- ===== src/Adapter/Broadcast/Idempotence.antt =====
-- A broadcast that succeeded is not sent again.
use arc_signv.Common.{
  ◌≡◌, refl, sym, ap, ◌∙◌, false, [], Option, none, some, inl, inr, if◌then◌else◌,
}
use arc_signv.Common.Text.{Str, str_eq}
use arc_signv.Common.Int.{ℤ, pos, ltb_ℤ}
use arc_signv.Chain.{Result, ok, SignedTransaction, BroadcastReceipt, is_ok}
use arc_signv.Storage.{TxState, TxStore}
use arc_signv.Adapter.{World, note, transaction_broadcast}
use arc_signv.Adapter.Broadcast.{
  Policy, existing_state, already_broadcast, submit, broadcast_with, receipt,
}
use arc_signv.Adapter.Broadcast.Outcomes.{
  IsCount, existing-store, hash_of, send_new_known, submit-cases,
}

module _ {S : TxStore} {Request : Type 0} where
  repeated :
      {Details : Type 0} (q : Policy S Request) (now later : ℤ) (signed : SignedTransaction Details)
      (w : World S Request) (s : TxState)
      → already_broadcast signed.tx_hash w ≡ some s
      → str_eq signed.serialized_tx [] ≡ false
      → submit q now later (some signed) w
        ≡ (w, ok (receipt signed.tx_hash q.chain_id s.last_retry))
  unfolding submit
  repeated q now later signed w s known full = rw (full, known, submit)

  -- A submission that succeeds is on record.
  submit_known :
      {Details : Type 0} (p : Policy S Request) (now later : ℤ) (signed : SignedTransaction Details)
      (w w' : World S Request) (st : S.Store) (r : BroadcastReceipt)
      → ((digits : Str) (v : World S Request) → (p.send digits v).0.store ≡ v.store)
      → w.store ≡ some st
      → ((s : TxState) → existing_state signed.tx_hash w ≡ some s → IsCount s)
      → submit p now later (some signed) w ≡ (w', ok r)
      → (s : TxState) × (already_broadcast signed.tx_hash w' ≡ some s)
        × (r.tx_hash ≡ signed.tx_hash)
        × (str_eq signed.serialized_tx [] ≡ false)
  submit_known p now later signed w w' st r keeps has counts h =
      elim (submit-cases p now later signed w) [
        | inl (empty, (e, failed)) ↦ cc
        | inr (inl (s, old, full, answered)) ↦
            let world : w ≡ w' = ap (λ x. x.0) (sym answered ∙ h) in
            (s, rw (← world) old, hash_of answered h, full)
        | inr (inr (full, new, sends)) ↦
            let (s, known, same) =
              send_new_known p now later signed.tx_hash signed.serialized_tx w w' st r keeps has
                counts (sym sends ∙ h) in
            (s, known, same, full)
      ]

  already-store :
      (tx_hash : Str) (v w : World S Request)
      → v.store ≡ w.store
      → already_broadcast tx_hash v ≡ already_broadcast tx_hash w
  unfolding already_broadcast
  already-store tx_hash v w same =
      ap
        (λ (e : Option TxState). elim e as (λ x. Option TxState) [
          | none ↦ none
          | some s ↦ if ltb_ℤ (pos 0) s.retry_count then some s else none
        ])
        (existing-store tx_hash v w same)

  -- What a broadcast does beyond its submission is to note it.
  pub broadcast_noted :
      {Details : Type 0} (p : Policy S Request) (now later duration : ℤ)
      (signed : Option (SignedTransaction Details)) (w w' : World S Request)
      (r : Result BroadcastReceipt)
      → submit p now later signed w ≡ (w', r)
      → (v : World S Request) × (broadcast_with p now later duration signed w ≡ (v, r))
        × (v.store ≡ w'.store)
        × (v.requests ≡ w'.requests)
  unfolding broadcast_with
  broadcast_noted p now later duration signed w w' r h = (
    note (transaction_broadcast p.chain_id duration (is_ok r)) w',
    ap
        (λ (x : World S Request × Result BroadcastReceipt).
          (note (transaction_broadcast p.chain_id duration (is_ok x.1)) x.0, x.1))
        h,
    (unfold note in refl),
    (unfold note in refl),
  )

  -- Repeating a broadcast that succeeded sends nothing, stores nothing and succeeds again.
  pub repeat_broadcast :
      {Details : Type 0} (p q : Policy S Request) (now later duration now' later' duration' : ℤ)
      (signed : SignedTransaction Details) (w w' : World S Request) (st : S.Store)
      (r : BroadcastReceipt)
      → ((digits : Str) (v : World S Request) → (p.send digits v).0.store ≡ v.store)
      → w.store ≡ some st
      → ((s : TxState) → existing_state signed.tx_hash w ≡ some s → IsCount s)
      → broadcast_with p now later duration (some signed) w ≡ (w', ok r)
      → (w'' : World S Request) × (r' : BroadcastReceipt) × (broadcast_with q now' later' duration'
            (some signed)
            w'
          ≡ (w'', ok r'))
        × (w''.store ≡ w'.store)
        × (w''.requests ≡ w'.requests)
        × (r'.tx_hash ≡ r.tx_hash)
  repeat_broadcast p q now later duration now' later' duration' signed w w' st r keeps has counts
        h =
      let (v, u) = submit p now later (some signed) w in
      let (v', first, stored, _) = broadcast_noted p now later duration (some signed) w v u refl in
      let world : v' ≡ w' = ap (λ x. x.0) (sym first ∙ h) in
      let result : u ≡ ok r = ap (λ x. x.1) (sym first ∙ h) in
      let (s, known, same, full) =
        submit_known p now later signed w v st r keeps has counts (ap (λ x. (v, x)) result) in
      let known' =
        already-store signed.tx_hash w' v
          (sym (ap (λ (x : World S Request). x.store) world) ∙ stored)
        ∙ known in
      let again = repeated q now' later' signed w' s known' full in
      let (w'', second, kept, quiet) =
        broadcast_noted q now' later' duration' (some signed) w' w'
          (ok (receipt signed.tx_hash q.chain_id s.last_retry)) again in
      (w'', receipt signed.tx_hash q.chain_id s.last_retry, second, kept, quiet, sym same)
