-- ===== src/Ethereum/Adapter/Status.antt =====
-- `QueryStatus` of the Ethereum adapter.
pub mod Confirmations
use arc_signv.Common.{
  ℕ, ◌+◌, ◌-◌, ◌*◌, ◌/◌, ◌%◌, ◌^◌, ◌==◌, Bool, true, false, not, ◌&&◌, ◌||◌, List, [], ◌∷◌, ◌++◌,
  Option, none, some, ◌⊎◌, inl, inr, if◌then◌else◌, leb,
}
use arc_signv.Common.Text.{Str, str_eq, codes, contains, hex}
use arc_signv.Common.Int.{ℤ, pos, eqb_ℤ, leb_ℤ, ◌-ℤ◌}
use arc_signv.Common.Word.{to_unsigned, wrap64}
use arc_signv.Chain.{
  GoError, chain, retryable, Result, ok, err, is_ok, new_non_retryable_error, FeeSpeed, slow,
  normal, fast, other_speed, TransactionRequest, UnsignedTransaction, SignedTransaction,
  BroadcastReceipt, TransactionStatus, FeeEstimate,
}
use arc_signv.Chain.TxStatus.{pending, confirmed, finalized, failed}
use arc_signv.Storage.{TxStore}
use arc_signv.Adapter.{World, Node, transaction_build, transaction_sign, note, Signer}
use arc_signv.Adapter.Broadcast.{Policy, broadcast_with}
use arc_signv.Ethereum.{EthLib}
use arc_signv.Ethereum.Builder.{Details, build}
use arc_signv.Ethereum.Fee.{multiplier, or_default, estimate}
use arc_signv.Ethereum.Node.{
  Request, Json, TransactionReceipt, transaction_count, gas_estimate, base_fee, priority_fee,
  block_number, send, transaction_by_hash, transaction_receipt, default_priority_fee,
}
use arc_signv.Ethereum.Adapter.{EthereumAdapter}

-- The class is left at its zero value.
abbrev pub reverted : GoError
reverted = chain (record {
  code = codes "ERR_TX_REVERTED";
  message = codes "Transaction reverted";
  classification = retryable;
  retry_after = none;
  cause = none;
})

-- int(currentBlock - receiptBlockNum), in uint64
unfoldable pub confirmations_of : ℕ → ℕ → ℤ
confirmations_of current receipt_block =
    wrap64 (pos (to_unsigned (pos current -ℤ pos receipt_block)))

unfoldable pub mined_status : ℤ → Str
mined_status confirmations = if leb_ℤ (pos 12) confirmations then finalized else confirmed

abbrev pub status_record :
    ℤ → Str → Str → ℤ → Option ℤ → Option Str → Option GoError → TransactionStatus
status_record now tx_hash status confirmations number hash error = record {
  tx_hash = tx_hash;
  status = status;
  confirmations = confirmations;
  block_number = number;
  block_hash = hash;
  updated_at = now;
  error = error;
}

-- The status of a mined transaction that did not fail, by the current block, if it could be fetched.
unfoldable pub success_status : Json → ℤ → Str → TransactionReceipt → Result ℕ → TransactionStatus
success_status json now tx_hash receipt (err e) =
    status_record now tx_hash confirmed (pos 1) none (some receipt.block_hash) none
success_status json now tx_hash receipt (ok current) =
    elim (json.decode_uint64 receipt.block_number) [
      | inr e ↦ status_record now tx_hash confirmed (pos 1) none (some receipt.block_hash) none
      | inl n ↦
          let c = confirmations_of current n in
          status_record now tx_hash (mined_status c) c (some (pos n)) (some receipt.block_hash) none
    ]

module _ (json : Json) {S : TxStore} (node : Node Request) where
  unfoldable pub receipt_status :
      ℤ → Str → Option TransactionReceipt → World S Request → World S Request × TransactionStatus
  receipt_status now tx_hash none w = (w, status_record now tx_hash pending (pos 0) none none none)
  receipt_status now tx_hash (some receipt) w =
      let (w', current) = block_number json node w in
      if str_eq receipt.status (codes "0x0")
      then (
        w,
        status_record now tx_hash failed (pos 0) none (some receipt.block_hash) (some reverted),
      )
      else (w', success_status json now tx_hash receipt current)

  unfoldable pub query_status :
      ℤ → Str → World S Request → World S Request × Result TransactionStatus
  query_status now tx_hash w =
      let (w1, found) = transaction_by_hash json node tx_hash w in
      let (w2, mined) = transaction_receipt json node tx_hash w1 in
      elim found [
        | err e ↦ (w1, err e)
        | ok none ↦ (
          w1,
          err (
              new_non_retryable_error (codes "ERR_TX_NOT_FOUND")
                (codes "transaction not found: " ++ tx_hash) none),
        )
        | ok (some tx) ↦ elim mined [
          | err e ↦ (w2, err e)
          | ok receipt ↦ let (w3, status) = receipt_status now tx_hash receipt w2 in (w3, ok status)
        ]
      ]
