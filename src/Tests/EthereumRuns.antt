-- ===== src/Tests/EthereumRuns.antt =====
-- Runs of the Ethereum adapter.
use arc_signv.Common.{
  ℕ, ◌+◌, ◌*◌, ◌<◌, ◌≤◌, ◌≡◌, ◌≢◌, ◌↔◌, ◌^◌, ◌/◌, refl, Option, true, not, ◌||◌, [], ◌∷◌, none,
  some, ◌⊎◌, inl, inr, arith, length, leb,
}
use arc_signv.Common.Text.{Str, codes, str_eq, hex, decimal}
use arc_signv.Common.Int.{pos, ◌-ℤ◌, ◌*ℤ◌}
use arc_signv.Common.Dict.{lookup}
use arc_signv.Common.Word.{wrap64}
use arc_signv.Chain.{
  TransactionStatus, Result, ok, fast, SignedTransaction, BroadcastReceipt, UnsignedTransaction,
  TransactionRequest,
}
use arc_signv.Chain.Estimates.{IsOrdered}
use arc_signv.Chain.TxStatus.{confirmed, finalized, failed}
use arc_signv.Storage.{TxState}
use arc_signv.Storage.Memory.{get}
use arc_signv.Storage.Refinement.{memory_tx_store}
use arc_signv.Adapter.{World, Node, replied, Signer, ask}
use arc_signv.Adapter
use arc_signv.Adapter.Broadcast.{
  existing_state, already_broadcast, broadcast_with, submit, send_new, network_hash, receipt,
}
use arc_signv.Ethereum.{EthLib}
use arc_signv.Ethereum.Builder.{
  Details, validate_request, is_valid_address, build, create_human_readable,
}
use arc_signv.Ethereum.Fee.{estimate, estimate_with_gas_limit, multiplier}
use arc_signv.Ethereum.Fee.Bounds.{estimates-IsOrdered}
use arc_signv.Ethereum.Node.{
  Request, Json, TransactionReceipt, send, sent_hash, transaction_count, quantity, gas_estimate,
  base_fee, priority_fee, average_reward, tally, transaction_by_hash, transaction_receipt,
}
use arc_signv.Ethereum.Adapter.{
  EthereumAdapter, broadcast, ethereum_policy, normalize_hash, to_lower, build_transaction, prepare,
  fee_cap, tip_cap, gas_and_fees, buffered,
}
use arc_signv.Ethereum.Adapter.Delivery.{broadcast_once}
use arc_signv.Ethereum.Adapter.Fees.{
  tip_within_cap, is_fast, Quotes, Asked, base_times, tip_times, build-Quotes,
}
use arc_signv.Ethereum.Adapter.Status.{
  success_status, receipt_status, query_status, status_record, reverted,
}
use arc_signv.Ethereum.Adapter.Status.Confirmations.{Tells, mined_by_depth, reverted_retryable}
use arc_signv.Ethereum.Adapter.Signing.{sign}
use arc_signv.Ethereum.Adapter.Signing.Checks.{Appends, IsSignable, sign-Appends}

abbrev account : Str
account = codes "0xabcdefabcdefabcdefabcdefabcdefabcdefabcd"

abbrev hex_lib : EthLib
hex_lib = record {
  Addr = Str;
  hex_to_address = λ a. a;
  is_hex_address = λ a. true;
  hash = λ tx. codes "h1";
  hash_hex = λ h. codes "0xCAFE";
  ether_text = λ n. codes "0.000000";
}

-- Quantities are decoded to their number of digits.
abbrev plain_reader : Json
plain_reader = record {
  text = λ s. elim s [ [] ↦ inr (codes "empty") | c ∷ t ↦ inl (c ∷ t) ];
  base_fee_per_gas = λ s. inl s;
  reward = λ s. inl ((s ∷ []) ∷ []);
  transaction = λ s. inl tt;
  receipt = λ s. inl (record { block_hash = codes "b0"; block_number = s; status = codes "0x1" });
  decode_uint64 = λ s. inl (length s);
  decode_big = λ s. inl (length s);
}

abbrev echo : Node Request
echo = record { call = λ n request. replied (codes "0xcafe") }

abbrev lost : Node Request
lost = record { call = λ n request. Adapter.failed [] (codes "signed by unknown authority") }

abbrev mainnet : EthereumAdapter
mainnet = record { chain_id = codes "ethereum"; network_id = pos 1 }

abbrev fresh : World memory_tx_store Request
fresh = record { store = some (record { store = [] }); requests = []; metrics = none }

abbrev request : TransactionRequest
request = record {
  from = account;
  to = account;
  asset = codes "ETH";
  amount = some (pos 5);
  memo = [];
  fee_speed = fast;
  chain_specific = none;
}

estimates-IsOrdered_example :
    IsOrdered (estimate plain_reader echo request fresh).1
    × IsOrdered (estimate_with_gas_limit plain_reader echo request 50_000 fresh).1
estimates-IsOrdered_example =
    estimates-IsOrdered plain_reader echo request 50_000 fresh (omega arith)

tip_within_cap_example :
    leb (tip_cap fast 7) (fee_cap fast 2 7) ≡ (not (is_fast fast) || leb 7 (3 * 2))
tip_within_cap_example = tip_within_cap fast 2 7

-- The node answers every question with six digits.
abbrev built_run : World memory_tx_store Request × Result (UnsignedTransaction Details)
built_run = build_transaction plain_reader echo hex_lib (pos 7) (pos 1) mainnet request fresh

abbrev built : UnsignedTransaction Details
built = record {
  id = codes "0xCAFE";
  chain_id = codes "ethereum";
  from = account;
  to = account;
  amount = pos 5;
  fee = pos (24 * 6);
  nonce = some (pos 6);
  signing_payload = codes "h1";
  human_readable =
      create_human_readable hex_lib (pos 1) request 6 6 (pos 24) (pos 12) (pos (24 * 6));
  details = record {
    chain_id = pos 1;
    nonce = 6;
    gas_limit = 6;
    max_fee_per_gas = codes "24";
    max_priority_fee_per_gas = codes "12";
    call_data = [];
  };
  created_at = pos 7;
}

built-ok : built_run ≡ (built_run.0, ok built)
unfolding build_transaction prepare build validate_request is_valid_address str_eq transaction_count
    quantity gas_and_fees gas_estimate base_fee priority_fee average_reward tally buffered fee_cap
    tip_cap multiplier ask wrap64 ◌*ℤ◌ decimal
built-ok = refl

build-Quotes_example :
    (nonce : ℕ) × (raw : ℕ) × (base : ℕ) × (priority : ℕ) × Asked hex_lib plain_reader echo request
      fresh nonce raw base priority
    × (limit : ℕ) × (raw * 110 < 2 ^ 64 → limit ≡ raw * 110 / 100)
    × Quotes hex_lib mainnet request nonce limit
        (base * base_times fast + priority)
        (priority * tip_times fast)
        built
build-Quotes_example =
    build-Quotes hex_lib plain_reader echo (pos 7) (pos 1) mainnet request fresh built_run.0 built
      built-ok

abbrev alice : Signer
alice = record { get_address = account; sign = λ payload address. inl (codes "sig") }

sign-Appends_example :
    (((signed : SignedTransaction Details) × ((sign (pos 1) mainnet built alice fresh).1
          ≡ ok signed))
      ↔ IsSignable mainnet built alice)
    × ((signed : SignedTransaction Details)
        → (sign (pos 1) mainnet built alice fresh).1 ≡ ok signed
        → Appends built alice signed)
    × ((sign (pos 1) mainnet built alice fresh).0.store ≡ fresh.store)
    × ((sign (pos 1) mainnet built alice fresh).0.requests ≡ fresh.requests)
sign-Appends_example = sign-Appends (pos 1) mainnet built alice fresh

abbrev signed_built : SignedTransaction Details
signed_built = record {
  unsigned_tx = built;
  signature = codes "sig";
  signed_by = account;
  tx_hash = codes "0xCAFE";
  serialized_tx = codes "h1sig";
  signed_at = pos 7;
}

abbrev first_run : World memory_tx_store Request × Result BroadcastReceipt
first_run = broadcast plain_reader echo (pos 50) (pos 51) (pos 1) mainnet (some signed_built) fresh

first_run-ok : first_run ≡ (first_run.0, ok (receipt (codes "0xCAFE") (codes "ethereum") (pos 51)))
unfolding broadcast ethereum_policy broadcast_with submit send_new network_hash already_broadcast
    existing_state send sent_hash ask str_eq hex get lookup normalize_hash to_lower
first_run-ok = refl

unknown-fresh : already_broadcast (codes "0xCAFE") fresh ≡ none
unfolding already_broadcast existing_state get lookup
unknown-fresh = refl

fresh-empty : (s : TxState) → existing_state (codes "0xCAFE") fresh ≢ some s
unfolding existing_state get lookup
fresh-empty s h = cc

broadcast_once_example :
    (w'' : World memory_tx_store Request) × (r' : BroadcastReceipt) × (broadcast plain_reader echo
        (pos 60)
        (pos 61)
        (pos 1)
        mainnet
        (some signed_built)
        first_run.0
      ≡ (w'', ok r'))
    × (w''.store ≡ first_run.0.store)
    × (w''.requests ≡ first_run.0.requests)
    × (r'.tx_hash ≡ codes "0xCAFE")
broadcast_once_example =
    broadcast_once plain_reader echo (pos 50) (pos 51) (pos 1) (pos 60) (pos 61) (pos 1) mainnet
      signed_built fresh first_run.0 (record { store = [] })
      (receipt (codes "0xCAFE") (codes "ethereum") (pos 51)) refl
      (λ s found. absurd (fresh-empty s found)) first_run-ok

abbrev mined_at_five : TransactionReceipt
mined_at_five = record {
  block_hash = codes "b0";
  block_number = codes "12345";
  status = codes "0x0";
}

mined_by_depth_example :
    ((success_status plain_reader (pos 9) (codes "0xcafe") mined_at_five (ok 20)).confirmations
      ≡ pos 20 -ℤ pos 5)
    × (((5 + 12 ≤ 20)
          × ((success_status plain_reader (pos 9) (codes "0xcafe") mined_at_five (ok 20)).status
              ≡ finalized))
        ⊎ ((20 < 5 + 12)
            × ((success_status plain_reader (pos 9) (codes "0xcafe") mined_at_five (ok 20)).status
                ≡ confirmed)))
mined_by_depth_example =
    mined_by_depth plain_reader (pos 9) (codes "0xcafe") mined_at_five 20 5 refl (omega arith)
      (omega arith)

-- A reader whose receipts are all of reverted transactions.
abbrev revert_reader : Json
revert_reader = record plain_reader {
  receipt = λ s. inl (record { block_hash = codes "b0"; block_number = s; status = codes "0x0" });
}

abbrev reverted_run : World memory_tx_store Request × Result TransactionStatus
reverted_run = query_status revert_reader echo (pos 9) (codes "0xcafe") fresh

reverted_run-ok : reverted_run ≡ (
  reverted_run.0,
  ok (
      status_record
        (pos 9)
        (codes "0xcafe")
        failed
        (pos 0)
        none
        (some (codes "b0"))
        (some reverted)),
)
unfolding query_status transaction_by_hash transaction_receipt receipt_status ask str_eq
reverted_run-ok = refl

reverted_retryable_example :
    let asked =
      transaction_receipt revert_reader echo
        (codes "0xcafe")
        (transaction_by_hash revert_reader echo (codes "0xcafe") fresh).0 in
    (receipt : Option TransactionReceipt) × (asked.1 ≡ ok receipt)
    × Tells asked.0 reverted_run.0 receipt (
        status_record
          (pos 9)
          (codes "0xcafe")
          failed
          (pos 0)
          none
          (some (codes "b0"))
          (some reverted))
reverted_retryable_example =
    reverted_retryable revert_reader echo (pos 9) (codes "0xcafe") fresh reverted_run.0
      (status_record (pos 9) (codes "0xcafe") failed (pos 0) none (some (codes "b0"))
        (some reverted))
      reverted_run-ok
