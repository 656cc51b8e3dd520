-- ===== src/Adapter/Broadcast/Duplicate.antt =====
-- A failed send that is taken for a duplicate.
use arc_signv.Common.{◌≡◌, refl, ◌∙◌, true, false, [], none, some}
use arc_signv.Common.Text.{Str, str_eq, hex}
use arc_signv.Common.Int.{ℤ}
use arc_signv.Chain.{GoError, ok, err, error_text, SignedTransaction}
use arc_signv.Chain.TxStatus.{pending}
use arc_signv.Storage.{TxState, TxStore}
use arc_signv.Adapter.{World}
use arc_signv.Adapter.Broadcast.{
  Policy, existing_state, already_broadcast, next_state, remember, network_hash, send_new, submit,
  broadcast_with, receipt,
}
use arc_signv.Adapter.Broadcast.Outcomes.{remember_found, existing-store}
use arc_signv.Adapter.Broadcast.Idempotence.{broadcast_noted}

module _ {S : TxStore} {Request : Type 0} (p : Policy S Request) where
  taken_for_sent :
      {Details : Type 0} (now later : ℤ) (signed : SignedTransaction Details) (w : World S Request)
      (x : GoError)
      → already_broadcast signed.tx_hash w ≡ none
      → str_eq signed.serialized_tx [] ≡ false
      → (p.send (hex signed.serialized_tx) w).1 ≡ err x
      → p.is_duplicate (error_text x) ≡ true
      → p.same_hash signed.tx_hash signed.tx_hash ≡ true
      → submit p now later (some signed) w ≡ (
        remember now p.chain_id signed.tx_hash signed.serialized_tx
            (p.send (hex signed.serialized_tx) w).0,
        ok (receipt signed.tx_hash p.chain_id later),
      )
  unfolding submit send_new network_hash
  taken_for_sent now later signed w x new full lost dup same =
      rw (full, new, lost, dup, same, submit, send_new, network_hash)

  -- The transaction is then on record as pending.
  pub duplicate_recorded :
      {Details : Type 0} (now later duration : ℤ) (signed : SignedTransaction Details)
      (w : World S Request) (st : S.Store) (x : GoError)
      → ((digits : Str) (v : World S Request) → (p.send digits v).0.store ≡ v.store)
      → w.store ≡ some st
      → already_broadcast signed.tx_hash w ≡ none
      → str_eq signed.serialized_tx [] ≡ false
      → (p.send (hex signed.serialized_tx) w).1 ≡ err x
      → p.is_duplicate (error_text x) ≡ true
      → p.same_hash signed.tx_hash signed.tx_hash ≡ true
      → (w' : World S Request) × (s : TxState) × (broadcast_with p now later duration
            (some signed)
            w
          ≡ (w', ok (receipt signed.tx_hash p.chain_id later)))
        × (existing_state signed.tx_hash w' ≡ some s)
        × (s.status ≡ pending)
  duplicate_recorded now later duration signed w st x keeps has new full lost dup same =
      let v = (p.send (hex signed.serialized_tx) w).0 in
      let w1 = remember now p.chain_id signed.tx_hash signed.serialized_tx v in
      let (w', done, stored, _) =
        broadcast_noted p now later duration (some signed) w w1 _
          (taken_for_sent now later signed w x new full lost dup same) in
      let s =
        next_state now p.chain_id signed.tx_hash signed.serialized_tx
          (existing_state signed.tx_hash v) in
      (
        w',
        s,
        done,
        existing-store signed.tx_hash w' w1 stored
            ∙ remember_found now p.chain_id signed.tx_hash signed.serialized_tx v st
                (keeps (hex signed.serialized_tx) w ∙ has),
        (unfold next_state in refl),
      )
