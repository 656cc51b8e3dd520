-- ===== src/Adapter/Broadcast.antt =====
-- `Broadcast` of both adapters, over the three points where they differ.
pub mod Outcomes
pub mod Idempotence
pub mod History
pub mod Duplicate
use arc_signv.Common.{
  ℕ, ◌≡◌, Bool, true, false, not, List, [], ◌∷◌, ◌++◌, Option, none, some, if◌then◌else◌,
}
use arc_signv.Common.Text.{Str, str_eq, codes, hex}
use arc_signv.Common.Int.{ℤ, pos, ltb_ℤ, eqb_ℤ}
use arc_signv.Common.Word.{add64}
use arc_signv.Chain.{
  GoError, Result, ok, err, is_ok, error_text, new_non_retryable_error, SignedTransaction,
  BroadcastReceipt,
}
use arc_signv.Chain.TxStatus.{pending}
use arc_signv.Storage.{TxState, TxStore}
use arc_signv.Adapter.{World, Event, transaction_broadcast, note}

-- How an adapter sends a transaction, given in hexadecimal digits; which errors it takes to say that
-- the network has the transaction; and when two hashes are the same.
pub record Policy (S : TxStore) (Request : Type 0) : Type 0 where
  pub chain_id : Str
  pub send : Str → World S Request → World S Request × Result Str
  pub is_duplicate : Str → Bool
  pub same_hash : Str → Str → Bool

abbrev pub invalid_input : Str → GoError
invalid_input message = new_non_retryable_error (codes "ERR_INVALID_INPUT") message none

abbrev pub hash_mismatch : Str → Str → GoError
hash_mismatch theirs ours =
    new_non_retryable_error (codes "ERR_HASH_MISMATCH")
      (codes "broadcasted tx hash " ++ theirs ++ codes " doesn't match signed tx hash " ++ ours)
      none

abbrev pub receipt : Str → Str → ℤ → BroadcastReceipt
receipt tx_hash chain_id submitted_at = record {
  tx_hash = tx_hash;
  chain_id = chain_id;
  submitted_at = submitted_at;
}

-- Step 6, at the time `now`.
unfoldable pub next_state : ℤ → Str → Str → Str → Option TxState → TxState
next_state now chain_id tx_hash raw_tx existing = record {
  tx_hash = tx_hash;
  retry_count = elim existing [ none ↦ pos 1 | some s ↦ add64 s.retry_count (pos 1) ];
  first_seen = elim existing [
    | none ↦ now
    | some s ↦ if eqb_ℤ s.first_seen (pos 0) then now else s.first_seen
  ];
  last_retry = now;
  status = pending;
  chain_id = chain_id;
  raw_tx = raw_tx;
}

module _ {S : TxStore} {Request : Type 0} where
  -- err == nil && existingState != nil
  unfoldable pub existing_state : Str → World S Request → Option TxState
  existing_state tx_hash w = elim w.store [
    | none ↦ none
    | some st ↦ elim (S.get tx_hash st) [ none ↦ none | some found ↦ found ]
  ]

  -- Step 2: the state of an earlier broadcast.
  unfoldable pub already_broadcast : Str → World S Request → Option TxState
  already_broadcast tx_hash w = elim (existing_state tx_hash w) [
    | none ↦ none
    | some s ↦ if ltb_ℤ (pos 0) s.retry_count then some s else none
  ]

  unfoldable pub remember : ℤ → Str → Str → Str → World S Request → World S Request
  remember now chain_id tx_hash raw_tx w = record w {
    store = elim w.store [
      | none ↦ none
      | some st ↦
          some
            (S.set tx_hash (next_state now chain_id tx_hash raw_tx (existing_state tx_hash w)) st).0
    ];
  }

  -- Step 4: the hash that the network knows the transaction by.
  unfoldable pub network_hash : Policy S Request → Str → Result Str → Result Str
  network_hash p tx_hash (ok h) = ok h
  network_hash p tx_hash (err e) = if p.is_duplicate (error_text e) then ok tx_hash else err e

  -- Steps 3 to 7, for a transaction that is not known to have been sent.
  unfoldable pub send_new :
      Policy S Request
      → ℤ
      → ℤ
      → Str
      → Str
      → World S Request
      → World S Request × Result BroadcastReceipt
  send_new p now later tx_hash raw_tx w =
      let (w', sent) = p.send (hex raw_tx) w in
      elim (network_hash p tx_hash sent) [
        | err e ↦ (w', err e)
        | ok h ↦
            if not (p.same_hash h tx_hash)
            then (w', err (hash_mismatch h tx_hash))
            else (remember now p.chain_id tx_hash raw_tx w', ok (receipt tx_hash p.chain_id later))
      ]

  -- The clock is read once when the state is written and once for the receipt.
  unfoldable pub submit :
      {Details : Type 0}
      → Policy S Request
      → ℤ
      → ℤ
      → Option (SignedTransaction Details)
      → World S Request
      → World S Request × Result BroadcastReceipt
  submit p now later none w = (w, err (invalid_input (codes "signed transaction is nil")))
  submit p now later (some signed) w =
      let fresh = send_new p now later signed.tx_hash signed.serialized_tx w in
      if str_eq signed.serialized_tx []
      then (w, err (invalid_input (codes "SerializedTx is empty")))
      else elim (already_broadcast signed.tx_hash w) [
        | some s ↦ (w, ok (receipt signed.tx_hash p.chain_id s.last_retry))
        | none ↦ fresh
      ]

  unfoldable pub broadcast_with :
      {Details : Type 0}
      → Policy S Request
      → ℤ
      → ℤ
      → ℤ
      → Option (SignedTransaction Details)
      → World S Request
      → World S Request × Result BroadcastReceipt
  broadcast_with p now later duration signed w =
      let (w', r) = submit p now later signed w in
      (note (transaction_broadcast p.chain_id duration (is_ok r)) w', r)
