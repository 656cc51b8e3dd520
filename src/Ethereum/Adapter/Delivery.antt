-- ===== src/Ethereum/Adapter/Delivery.antt =====
-- `Broadcast` of the Ethereum adapter: what is sent, and how often.
use arc_signv.Common.{
  ◌≡◌, refl, true, false, [], ◌++◌, none, some, inl, inr, ◌||◌, length, Bool-cases, arith,
}
use arc_signv.Common.Text.{Str, hex, str_eq, codes, contains, eq_refl, contains-append_right}
use arc_signv.Common.Int.{ℤ}
use arc_signv.Chain.{ok, err, SignedTransaction, BroadcastReceipt, error_text, GoError}
use arc_signv.Chain.Faults.{message_says}
use arc_signv.Chain.TxStatus.{pending}
use arc_signv.Storage.{TxState, TxStore}
use arc_signv.Adapter.{World, Node, ask, failed}
use arc_signv.Adapter.Broadcast.{existing_state, already_broadcast, receipt}
use arc_signv.Adapter.Broadcast.Duplicate.{duplicate_recorded}
use arc_signv.Adapter.Broadcast.Outcomes.{IsCount}
use arc_signv.Adapter.Broadcast.Idempotence.{repeat_broadcast}
use arc_signv.Ethereum.Builder.{Details}
use arc_signv.Ethereum.Node.{
  Request, Json, send_raw_transaction, send, sent_hash, says_duplicate, already_sent,
  broadcast_failed,
}
use arc_signv.Ethereum.Adapter.{EthereumAdapter, ethereum_policy, broadcast, normalize_hash}

already_said : contains (codes "transaction already broadcast") (codes "already") ≡ true
unfolding contains
already_said = refl

-- Both errors of a failed send are taken for a duplicate where the node's own text says `known`.
failed_send :
    (json : Json) (raw e e' : Str)
    → json.text raw ≡ inr e'
    → contains e (codes "known") ≡ true
    → (x : GoError) × (sent_hash json (failed raw e) ≡ err x)
      × ((contains (error_text x) (codes "already") || contains (error_text x) (codes "known"))
          ≡ true)
unfolding sent_hash
failed_send json raw e e' unread says = elim (Bool-cases (says_duplicate e)) [
  | inl dup ↦
      let said =
        message_says (codes "ERR_TX_ALREADY_BROADCAST") (codes "transaction already broadcast") e
          (codes "already") already_said in
      (already_sent e, rw (dup, unread, sent_hash), ground arith)
  | inr other ↦
      let said =
        message_says (codes "ERR_BROADCAST_FAILED")
          (codes "eth_sendRawTransaction RPC failed: " ++ e) e (codes "known")
          (contains-append_right (codes "eth_sendRawTransaction RPC failed: ") e (codes "known")
            says) in
      (broadcast_failed e, rw (other, sent_hash), ground arith)
]

module _ (json : Json) {S : TxStore} (node : Node Request) where
  send_keeps :
      (digits : Str) (w : World S Request)
      → (send json node (codes "0x" ++ digits) w).0.store ≡ w.store
  unfolding send ask
  send_keeps digits w = refl

  -- Once `Broadcast` has succeeded, repeating it for the same transaction sends no request, leaves the
  -- store as it is and returns a receipt for the same hash, whatever the node would answer. (There is
  -- a store, and a count that it held before is not negative and not the largest int64.)
  pub broadcast_once :
      (now later duration now' later' duration' : ℤ) (a : EthereumAdapter)
      (signed : SignedTransaction Details) (w w' : World S Request) (st : S.Store)
      (r : BroadcastReceipt)
      → w.store ≡ some st
      → ((s : TxState) → existing_state signed.tx_hash w ≡ some s → IsCount s)
      → broadcast json node now later duration a (some signed) w ≡ (w', ok r)
      → (w'' : World S Request) × (r' : BroadcastReceipt) × (broadcast json node now' later'
            duration' a
            (some signed)
            w'
          ≡ (w'', ok r'))
        × (w''.store ≡ w'.store)
        × (w''.requests ≡ w'.requests)
        × (r'.tx_hash ≡ r.tx_hash)
  unfolding broadcast ethereum_policy
  broadcast_once now later duration now' later' duration' a signed w w' st r has counts h =
      let p = ethereum_policy json node a in
      repeat_broadcast p p now later duration now' later' duration' signed w w' st r send_keeps has
        counts h

  -- A send that fails with any text that contains `known`, such as `unknown authority`, is taken for a
  -- success: `Broadcast` returns a receipt and the store says that the transaction is pending. (The
  -- transaction was not on record, and the failed call returned no text as its result.)
  pub unknown_taken_for_known :
      (now later duration : ℤ) (a : EthereumAdapter) (signed : SignedTransaction Details)
      (w : World S Request) (st : S.Store) (raw e e' : Str)
      → w.store ≡ some st
      → already_broadcast signed.tx_hash w ≡ none
      → str_eq signed.serialized_tx [] ≡ false
      → node.call
          (length w.requests)
          (send_raw_transaction (codes "0x" ++ hex signed.serialized_tx))
        ≡ failed raw e
      → json.text raw ≡ inr e'
      → contains e (codes "known") ≡ true
      → (w' : World S Request) × (s : TxState) × (broadcast json node now later duration a
            (some signed)
            w
          ≡ (w', ok (receipt signed.tx_hash a.chain_id later)))
        × (existing_state signed.tx_hash w' ≡ some s)
        × (s.status ≡ pending)
  unfolding broadcast ethereum_policy
  unknown_taken_for_known now later duration a signed w st raw e e' has new full answer unread
        says =
      let (x, lost, named) = failed_send json raw e e' unread says in
      duplicate_recorded (ethereum_policy json node a) now later duration signed w st x send_keeps
        has new full (unfold send ask in rw answer lost) named
        (eq_refl (normalize_hash signed.tx_hash))
