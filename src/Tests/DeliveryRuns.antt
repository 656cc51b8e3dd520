-- ===== src/Tests/DeliveryRuns.antt =====
-- Runs of the Bitcoin adapter.
use arc_signv.Common.{◌≡◌, ◌≢◌, refl, ap, sym, ◌∙◌, true, [], none, some, inl, arith}
use arc_signv.Common.Text.{Str, codes, str_eq, hex, contains}
use arc_signv.Common.Int.{pos, pos_part}
use arc_signv.Common.Dict.{lookup, insert}
use arc_signv.Common.Word.{to_unsigned}
use arc_signv.Chain.{
  ok-injective, Result, ok, SignedTransaction, BroadcastReceipt, TransactionStatus,
}
use arc_signv.Chain.TxStatus.{pending, confirmed}
use arc_signv.Storage.{TxState}
use arc_signv.Storage.Memory.{get, set}
use arc_signv.Storage.Refinement.{memory_tx_store}
use arc_signv.Adapter.{World, Node, replied, failed, Signer, ask, note}
use arc_signv.Adapter.Broadcast.{
  existing_state, already_broadcast, broadcast_with, submit, send_new, network_hash, remember,
  next_state, receipt,
}
use arc_signv.Adapter.Broadcast.History.{Broadcasts, start, step}
use arc_signv.Bitcoin.Builder.{Details}
use arc_signv.Bitcoin.Node.{
  Request, send, block, sent_hash, raw_transaction, get_raw_transaction, RawTransactionResult,
}
use arc_signv.Bitcoin.Adapter.{BitcoinAdapter, broadcast, bitcoin_policy, query_status, status_of}
use arc_signv.Bitcoin.Adapter.Delivery.{broadcast_twice, failure_taken_for_success}
use arc_signv.Bitcoin.Adapter.Status.{query_status-reports, IsStatusOf}
use arc_signv.Bitcoin.Node.{smart_fee, smart_fee_of, sat_per_byte}
use arc_signv.Bitcoin.Fee.Bounds.{GivesSmallRates}
use arc_signv.Tests.Values.{plain_floats, plain_json}
use arc_signv.Tests.BitcoinRuns.{paid}

abbrev mainnet : BitcoinAdapter
mainnet = record { chain_id = codes "bitcoin"; network = codes "mainnet" }

abbrev echo : Node Request
echo = record { call = λ n request. replied (codes "cafe") }

abbrev lost : Node Request
lost = record { call = λ n request. failed [] (codes "port already in use") }

-- A wallet that signs with the payload itself, and a hash that is the identity.
abbrev alice : Signer
alice = record { get_address = codes "alice"; sign = λ payload address. inl payload }

abbrev signed_payment : SignedTransaction Details
signed_payment = record {
  unsigned_tx = paid;
  signature = paid.signing_payload;
  signed_by = codes "alice";
  tx_hash = codes "cafe";
  serialized_tx = paid.signing_payload;
  signed_at = paid.created_at;
}

abbrev fresh : World memory_tx_store Request
fresh = record { store = some (record { store = [] }); requests = []; metrics = none }

-- The broadcast at the times 50 and 51.
abbrev first_run : World memory_tx_store Request × Result BroadcastReceipt
first_run =
    broadcast plain_floats plain_json echo (pos 50) (pos 51) (pos 1) mainnet (some signed_payment)
      fresh

first_run-ok : first_run ≡ (first_run.0, ok (receipt (codes "cafe") (codes "bitcoin") (pos 51)))
unfolding broadcast bitcoin_policy broadcast_with submit send_new network_hash already_broadcast
    existing_state send sent_hash ask str_eq hex get lookup
first_run-ok = refl

fresh-empty : (k : Str) → existing_state k fresh ≡ none
unfolding existing_state get lookup
fresh-empty k = refl

none_is_not_some : {s : TxState} → none ≢ some s
none_is_not_some h = cc

broadcast_twice_example :
    (w'' : World memory_tx_store Request) × (r' : BroadcastReceipt) × (broadcast plain_floats
        plain_json echo
        (pos 60)
        (pos 61)
        (pos 1)
        mainnet
        (some signed_payment)
        first_run.0
      ≡ (w'', ok r'))
    × (w''.store ≡ first_run.0.store)
    × (w''.requests ≡ first_run.0.requests)
    × (r'.tx_hash ≡ codes "cafe")
broadcast_twice_example =
    broadcast_twice plain_floats plain_json echo (pos 50) (pos 51) (pos 1) (pos 60) (pos 61) (pos 1)
      mainnet signed_payment fresh first_run.0 (record { store = [] })
      (receipt (codes "cafe") (codes "bitcoin") (pos 51)) refl
      (λ s found. absurd (none_is_not_some (sym (fresh-empty (codes "cafe")) ∙ found))) first_run-ok

abbrev recorded : TxState
recorded = record {
  tx_hash = codes "cafe";
  retry_count = pos 1;
  first_seen = pos 50;
  last_retry = pos 50;
  status = pending;
  chain_id = codes "bitcoin";
  raw_tx = codes "0100";
}

first_run-recorded : existing_state (codes "cafe") first_run.0 ≡ some recorded
unfolding broadcast bitcoin_policy broadcast_with submit send_new network_hash already_broadcast
    existing_state send sent_hash ask str_eq hex get lookup remember next_state set insert note
first_run-recorded = refl

first_run-Broadcasts : Broadcasts (bitcoin_policy plain_floats plain_json echo mainnet) first_run.0
unfolding broadcast
first_run-Broadcasts =
    step (start fresh (record { store = [] }) refl fresh-empty) (pos 50) (pos 51) (pos 1)
      (some signed_payment)

unknown-fresh : already_broadcast (codes "cafe") fresh ≡ none
unfolding already_broadcast existing_state get lookup
unknown-fresh = refl

failure_taken_for_success_example :
    (w' : World memory_tx_store Request) × (s : TxState) × (broadcast plain_floats plain_json lost
        (pos 50)
        (pos 51)
        (pos 1)
        mainnet
        (some signed_payment)
        fresh
      ≡ (w', ok (receipt (codes "cafe") (codes "bitcoin") (pos 51))))
    × (existing_state (codes "cafe") w' ≡ some s)
    × (s.status ≡ pending)
failure_taken_for_success_example =
    failure_taken_for_success plain_floats plain_json lost (pos 50) (pos 51) (pos 1) mainnet
      signed_payment fresh (record { store = [] }) [] (codes "port already in use") (codes "empty")
      refl unknown-fresh (unfold str_eq in refl) refl refl (unfold contains in refl)

reversed_bytes : Str → Str
reversed_bytes s = s

abbrev answered : World memory_tx_store Request × Result TransactionStatus
answered = query_status plain_floats plain_json echo (pos 70) (codes "cafe") fresh

abbrev confirmed_status : TransactionStatus
confirmed_status = record {
  tx_hash = codes "cafe";
  status = confirmed;
  confirmations = pos 4;
  block_number = some (pos 4);
  block_hash = some (codes "b0");
  updated_at = pos 70;
  error = none;
}

answered-ok : answered ≡ (answered.0, ok confirmed_status)
unfolding query_status raw_transaction block status_of str_eq to_unsigned ask
answered-ok = refl

query_status-reports_example :
    (tx : RawTransactionResult) × (raw_transaction plain_floats plain_json echo
        (codes "cafe")
        true
        fresh
      ≡ ((ask echo (get_raw_transaction (codes "cafe") true) fresh).0, ok tx))
    × (confirmed_status.tx_hash ≡ codes "cafe")
    × (confirmed_status.confirmations ≡ tx.confirmations)
    × IsStatusOf tx.confirmations confirmed_status.status
    × (answered.0.store ≡ fresh.store)
query_status-reports_example =
    query_status-reports plain_floats plain_json echo (pos 70) (codes "cafe") fresh answered.0
      confirmed_status answered-ok

small_rates : GivesSmallRates plain_floats plain_json memory_tx_store echo
unfolding smart_fee smart_fee_of sat_per_byte ask
small_rates target w r h = let four : pos 4 ≡ r = ok-injective h in omega (arith, ap pos_part four)
