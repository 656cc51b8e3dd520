-- ===== src/Bitcoin/Adapter/Delivery.antt =====
-- `Broadcast` of the Bitcoin adapter: what is sent, and how often.
use arc_signv.Common.{
  ◌≡◌, refl, true, false, [], ◌++◌, none, some, inl, inr, ◌||◌, length, Bool-cases,
}
use arc_signv.Common.Text.{Str, hex, str_eq, codes, contains, eq_refl, contains-append_right}
use arc_signv.Common.Int.{ℤ}
use arc_signv.Common.Float.{FloatOps}
use arc_signv.Chain.{ok, err, SignedTransaction, BroadcastReceipt, error_text, GoError}
use arc_signv.Chain.Faults.{message_says}
use arc_signv.Storage.{TxState, TxStore}
use arc_signv.Adapter.{World, Node, ask, failed}
use arc_signv.Adapter.Broadcast.{existing_state, already_broadcast, receipt}
use arc_signv.Adapter.Broadcast.Duplicate.{duplicate_recorded}
use arc_signv.Chain.TxStatus.{pending}
use arc_signv.Adapter.Broadcast.Outcomes.{IsCount}
use arc_signv.Adapter.Broadcast.Idempotence.{repeat_broadcast}
use arc_signv.Adapter.Broadcast.History.{Broadcasts, SentOnce, Broadcasts-SentOnce}
use arc_signv.Bitcoin.Builder.{Details}
use arc_signv.Bitcoin.Node.{
  Request, Json, send_raw_transaction, send, sent_hash, already_sent, broadcast_failed,
}
use arc_signv.Bitcoin.Adapter.{BitcoinAdapter, bitcoin_policy, broadcast}

already_said : contains (codes "transaction already broadcast") (codes "already") ≡ true
unfolding contains
already_said = refl

-- Both errors of a failed send say `already` where the node's own text does.
failed_send :
    {Float : Type 0} (json : Json Float) (raw e e' : Str)
    → json.text raw ≡ inr e'
    → contains e (codes "already") ≡ true
    → (x : GoError) × (sent_hash json (failed raw e) ≡ err x)
      × (contains (error_text x) (codes "already") ≡ true)
unfolding sent_hash
failed_send json raw e e' unread says =
    elim (Bool-cases
      (contains e (codes "already in block chain") || contains e (codes "txn-already-known"))) [
        | inl dup ↦ (
          already_sent e,
          rw (dup, unread, sent_hash),
          message_says (codes "ERR_TX_ALREADY_BROADCAST") (codes "transaction already broadcast") e
              (codes "already") already_said,
        )
        | inr other ↦ (
          broadcast_failed e,
          rw (other, sent_hash),
          message_says (codes "ERR_BROADCAST_FAILED") (codes "sendrawtransaction RPC failed: " ++ e)
              e (codes "already")
              (contains-append_right (codes "sendrawtransaction RPC failed: ") e (codes "already")
                says),
        )
      ]

module _ (ops : FloatOps) (json : Json ops.Float) {S : TxStore} (node : Node Request) where
  send_keeps :
      (digits : Str) (w : World S Request) → (send ops json node digits w).0.store ≡ w.store
  unfolding send ask
  send_keeps digits w = refl

  -- Once `Broadcast` has succeeded, repeating it for the same transaction sends no request, leaves the
  -- store as it is and returns a receipt for the same hash, whatever the node would answer. (There is
  -- a store, and a count that it held before is not negative and not the largest int64.)
  pub broadcast_twice :
      (now later duration now' later' duration' : ℤ) (b : BitcoinAdapter)
      (signed : SignedTransaction Details) (w w' : World S Request) (st : S.Store)
      (r : BroadcastReceipt)
      → w.store ≡ some st
      → ((s : TxState) → existing_state signed.tx_hash w ≡ some s → IsCount s)
      → broadcast ops json node now later duration b (some signed) w ≡ (w', ok r)
      → (w'' : World S Request) × (r' : BroadcastReceipt) × (broadcast ops json node now' later'
            duration' b
            (some signed)
            w'
          ≡ (w'', ok r'))
        × (w''.store ≡ w'.store)
        × (w''.requests ≡ w'.requests)
        × (r'.tx_hash ≡ r.tx_hash)
  unfolding broadcast bitcoin_policy
  broadcast_twice now later duration now' later' duration' b signed w w' st r has counts h =
      let p = bitcoin_policy ops json node b in
      repeat_broadcast p p now later duration now' later' duration' signed w w' st r send_keeps has
        counts h

  -- After any sequence of broadcasts from an empty store, whatever the node answers, every state on
  -- record is filed under its own hash, is pending, and has a retry count of one.
  pub retry_count-one :
      (b : BitcoinAdapter) (w : World S Request) (k : Str) (s : TxState)
      → Broadcasts (bitcoin_policy ops json node b) w
      → existing_state k w ≡ some s
      → SentOnce {S = S} (bitcoin_policy ops json node b) k s
  unfolding bitcoin_policy
  retry_count-one b w k s history found =
      Broadcasts-SentOnce (bitcoin_policy ops json node b) w k s send_keeps history found

  -- A send that fails with any text that contains `already` is taken for a success: `Broadcast` returns
  -- a receipt and the store says that the transaction is pending. (The transaction was not on record,
  -- and the failed call returned no text as its result.)
  pub failure_taken_for_success :
      (now later duration : ℤ) (b : BitcoinAdapter) (signed : SignedTransaction Details)
      (w : World S Request) (st : S.Store) (raw e e' : Str)
      → w.store ≡ some st
      → already_broadcast signed.tx_hash w ≡ none
      → str_eq signed.serialized_tx [] ≡ false
      → node.call (length w.requests) (send_raw_transaction (hex signed.serialized_tx))
        ≡ failed raw e
      → json.text raw ≡ inr e'
      → contains e (codes "already") ≡ true
      → (w' : World S Request) × (s : TxState) × (broadcast ops json node now later duration b
            (some signed)
            w
          ≡ (w', ok (receipt signed.tx_hash b.chain_id later)))
        × (existing_state signed.tx_hash w' ≡ some s)
        × (s.status ≡ pending)
  unfolding broadcast bitcoin_policy
  failure_taken_for_success now later duration b signed w st raw e e' has new full answer unread
        says =
      let (x, lost, named) = failed_send json raw e e' unread says in
      duplicate_recorded (bitcoin_policy ops json node b) now later duration signed w st x
        send_keeps has new full (unfold send ask in rw answer lost) named (eq_refl signed.tx_hash)
