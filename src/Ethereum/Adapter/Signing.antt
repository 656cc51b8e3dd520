-- ===== src/Ethereum/Adapter/Signing.antt =====
-- `Sign` of the Ethereum adapter.
pub mod Checks
use arc_signv.Common.{
  ℕ, ◌+◌, ◌-◌, ◌*◌, ◌/◌, ◌%◌, ◌^◌, ◌==◌, Bool, true, false, not, ◌&&◌, ◌||◌, List, [], ◌∷◌, ◌++◌,
  Option, none, some, ◌⊎◌, inl, inr, if◌then◌else◌, leb,
}
use arc_signv.Common.Text.{Str, str_eq, codes, contains, hex}
use arc_signv.Common.Int.{ℤ, pos, eqb_ℤ, leb_ℤ, ◌-ℤ◌}
use arc_signv.Common.Word.{to_unsigned, wrap64}
use arc_signv.Chain.{
  GoError, chain, retryable, Result, ok, err, is_ok, new_non_retryable_error, FeeSpeed, slow,
  normal, fast, other_speed, TransactionRequest, UnsignedTransaction, SignedTransaction,
  BroadcastReceipt, TransactionStatus, FeeEstimate,
}
use arc_signv.Chain.TxStatus.{pending, confirmed, finalized, failed}
use arc_signv.Storage.{TxStore}
use arc_signv.Adapter.{World, Node, transaction_build, transaction_sign, note, Signer}
use arc_signv.Adapter.Broadcast.{Policy, broadcast_with}
use arc_signv.Ethereum.{EthLib}
use arc_signv.Ethereum.Builder.{Details, build}
use arc_signv.Ethereum.Fee.{multiplier, or_default, estimate}
use arc_signv.Ethereum.Node.{
  Request, Json, TransactionReceipt, transaction_count, gas_estimate, base_fee, priority_fee,
  block_number, send, transaction_by_hash, transaction_receipt, default_priority_fee,
}
use arc_signv.Ethereum.Adapter.{EthereumAdapter, normalize_hash}

-- Signing, which asks no node. What is sent is the payload with the signature after it.
unfoldable pub sign_checked :
    EthereumAdapter → UnsignedTransaction Details → Signer → Result (SignedTransaction Details)
sign_checked a unsigned signer =
    if not (str_eq (normalize_hash signer.get_address) (normalize_hash unsigned.from))
    then err (
        new_non_retryable_error (codes "ERR_INVALID_ADDRESS")
          (codes "address mismatch: signer controls "
            ++ signer.get_address
            ++ codes ", transaction from "
            ++ unsigned.from)
          none)
    else if not (str_eq unsigned.chain_id a.chain_id)
    then err (
        new_non_retryable_error (codes "ERR_CHAIN_MISMATCH")
          (codes "chain mismatch: unsigned tx for "
            ++ unsigned.chain_id
            ++ codes ", adapter for "
            ++ a.chain_id)
          none)
    else if str_eq unsigned.signing_payload []
    then err (
        new_non_retryable_error (codes "ERR_INVALID_PAYLOAD") (codes "SigningPayload is empty")
          none)
    else elim (signer.sign unsigned.signing_payload unsigned.from) [
      | inr e ↦ err (
          new_non_retryable_error (codes "ERR_SIGNING_FAILED") (codes "signing failed: " ++ e)
            (some e))
      | inl signature ↦ ok (record {
        unsigned_tx = unsigned;
        signature = signature;
        signed_by = signer.get_address;
        tx_hash = unsigned.id;
        serialized_tx = unsigned.signing_payload ++ signature;
        signed_at = unsigned.created_at;
      })
    ]

unfoldable pub sign :
    {S : TxStore}
    → ℤ
    → EthereumAdapter
    → UnsignedTransaction Details
    → Signer
    → World S Request
    → World S Request × Result (SignedTransaction Details)
sign duration a unsigned signer w =
    let r = sign_checked a unsigned signer in
    (note (transaction_sign a.chain_id duration (is_ok r)) w, r)
