-- ===== src/Bitcoin/Adapter.antt =====
-- src/chainadapter/bitcoin/adapter.go: the operations of BitcoinAdapter.
pub mod Delivery
pub mod Signing
pub mod Status
use arc_signv.Common.{
  ℕ, ◌≡◌, Bool, true, false, not, ◌||◌, List, [], ◌∷◌, ◌++◌, Option, none, some, ◌⊎◌, inl, inr,
  if◌then◌else◌,
}
use arc_signv.Common.Text.{Str, str_eq, codes, contains, hex}
use arc_signv.Common.Int.{ℤ, pos, eqb_ℤ, leb_ℤ}
use arc_signv.Common.Word.{to_unsigned}
use arc_signv.Common.Float.{FloatOps}
use arc_signv.Chain.{
  GoError, Result, ok, err, is_ok, error_text, new_non_retryable_error, FeeSpeed, slow, normal,
  fast, other_speed, TransactionRequest, UnsignedTransaction, SignedTransaction, BroadcastReceipt,
  TransactionStatus,
}
use arc_signv.Chain.TxStatus.{pending, confirmed, finalized}
use arc_signv.Storage.{TxStore}
use arc_signv.Adapter.{World, Node, Event, transaction_build, transaction_sign, note, Signer}
use arc_signv.Adapter.Broadcast.{Policy, broadcast_with}
use arc_signv.Bitcoin.{Utxo, BtcLib}
use arc_signv.Bitcoin.Builder.{Details, build, new_transaction_builder}
use arc_signv.Bitcoin.Node.{
  Request, Json, BlockResult, RawTransactionResult, list_utxos, smart_fee, raw_transaction, block,
  send,
}

pub record BitcoinAdapter : Type 0 where
  pub chain_id : Str
  pub network : Str

unfoldable pub new_bitcoin_adapter : Str → Result BitcoinAdapter
new_bitcoin_adapter network = elim (new_transaction_builder network) [
  | err e ↦ err e
  | ok n ↦ ok (record {
    chain_id =
        if str_eq network (codes "testnet3")
        then codes "bitcoin-testnet"
        else if str_eq network (codes "regtest")
        then codes "bitcoin-regtest"
        else codes "bitcoin";
    network = n;
  })
]

unfoldable pub target_blocks : FeeSpeed → ℕ
target_blocks fast = 1
target_blocks normal = 3
target_blocks slow = 6
target_blocks (other_speed s) = 3

abbrev pub min_confirmations : ℤ
min_confirmations = pos 6

-- Bitcoin double hashes and shows the bytes in the reverse order.
reverse : List ℕ → List ℕ
reverse [] = []
reverse (c ∷ s) = reverse s ++ c ∷ []

unfoldable pub compute_transaction_hash : (Str → Str) → Str → Str
unfolding reverse
compute_transaction_hash sha256 serialized_tx = hex (reverse (sha256 (sha256 serialized_tx)))

unfoldable pub status_of : ℤ → Str
status_of confirmations =
    if eqb_ℤ confirmations (pos 0)
    then pending
    else if leb_ℤ min_confirmations confirmations
    then finalized
    else confirmed

-- The error of a failed lookup.
abbrev pub not_found : Str → GoError → GoError
not_found tx_hash e =
    if contains (error_text e) (codes "not found") || contains (error_text e) (codes "No such")
    then new_non_retryable_error (codes "ERR_TX_NOT_FOUND")
        (codes "transaction not found: " ++ tx_hash) (some (error_text e))
    else e

-- The block number, where the block could be fetched.
abbrev pub height : Result BlockResult → Option ℤ
height (ok bl) = some (pos (to_unsigned bl.height))
height (err e) = none

module _ (ops : FloatOps) (json : Json ops.Float) {S : TxStore} (node : Node Request) where
  unfoldable pub prepare :
      BtcLib
      → ℤ
      → BitcoinAdapter
      → TransactionRequest
      → World S Request
      → World S Request × Result (UnsignedTransaction Details)
  prepare lib now b req w =
      let (w1, unspent) = list_utxos ops json node req.from w in
      elim unspent [
        | err e ↦ (w1, err e)
        | ok [] ↦ (
          w1,
          err (
              new_non_retryable_error (codes "ERR_INSUFFICIENT_FUNDS")
                (codes "no UTXOs available for address: " ++ req.from) none),
        )
        | ok (u ∷ us) ↦
            let (w2, estimated) = smart_fee ops json node (target_blocks req.fee_speed) w1 in
            let fee_rate : ℤ = elim estimated [ ok r ↦ r | err e ↦ pos 10 ] in
            (
              w2,
              elim (build lib now b.network req (u ∷ us) fee_rate) [
                | err e ↦ err e
                | ok unsigned ↦ ok (record unsigned { chain_id = b.chain_id })
              ],
            )
      ]

  unfoldable pub build_transaction :
      BtcLib
      → ℤ
      → ℤ
      → BitcoinAdapter
      → TransactionRequest
      → World S Request
      → World S Request × Result (UnsignedTransaction Details)
  build_transaction lib now duration b req w =
      let (w', r) = prepare lib now b req w in
      (note (transaction_build b.chain_id duration (is_ok r)) w', r)

  -- Which errors of `SendRawTransaction` count as success.
  unfoldable pub bitcoin_policy : BitcoinAdapter → Policy S Request
  bitcoin_policy b = record {
    chain_id = b.chain_id;
    send = send ops json node;
    is_duplicate = λ message. contains message (codes "already");
    same_hash = str_eq;
  }

  unfoldable pub broadcast :
      ℤ
      → ℤ
      → ℤ
      → BitcoinAdapter
      → Option (SignedTransaction Details)
      → World S Request
      → World S Request × Result BroadcastReceipt
  broadcast now later duration b signed w =
      broadcast_with (bitcoin_policy b) now later duration signed w

  unfoldable pub query_status :
      ℤ → Str → World S Request → World S Request × Result TransactionStatus
  query_status now tx_hash w =
      let (w1, found) = raw_transaction ops json node tx_hash true w in
      elim found [
        | err e ↦ (w1, err (not_found tx_hash e))
        | ok tx ↦
            let status : Option ℤ → Option Str → Result TransactionStatus = λ number hash.
              ok (record {
                tx_hash = tx_hash;
                status = status_of tx.confirmations;
                confirmations = tx.confirmations;
                block_number = number;
                block_hash = hash;
                updated_at = now;
                error = none;
              }) in
            let (w2, fetched) = block ops json node tx.block_hash 1 w1 in
            if str_eq tx.block_hash []
            then (w1, status none none)
            else (w2, status (height fetched) (some tx.block_hash))
      ]

-- Signing, which asks no node.
unfoldable pub sign_checked :
    (Str → Str)
    → BitcoinAdapter
    → UnsignedTransaction Details
    → Signer
    → Result (SignedTransaction Details)
unfolding compute_transaction_hash
sign_checked sha256 b unsigned signer =
    if not (str_eq signer.get_address unsigned.from)
    then err (
        new_non_retryable_error (codes "ERR_INVALID_ADDRESS")
          (codes "address mismatch: signer controls "
            ++ signer.get_address
            ++ codes ", transaction from "
            ++ unsigned.from)
          none)
    else if not (str_eq unsigned.chain_id b.chain_id)
    then err (
        new_non_retryable_error (codes "ERR_CHAIN_MISMATCH")
          (codes "chain mismatch: unsigned tx for "
            ++ unsigned.chain_id
            ++ codes ", adapter for "
            ++ b.chain_id)
          none)
    else if str_eq unsigned.signing_payload []
    then err (
        new_non_retryable_error (codes "ERR_INVALID_PAYLOAD") (codes "SigningPayload is empty")
          none)
    else elim (signer.sign unsigned.signing_payload unsigned.from) [
      | inr e ↦ err (
          new_non_retryable_error (codes "ERR_SIGNING_FAILED") (codes "signing failed: " ++ e)
            (some e))
      | inl signature ↦ ok (record {
        unsigned_tx = unsigned;
        signature = signature;
        signed_by = signer.get_address;
        tx_hash = compute_transaction_hash sha256 unsigned.signing_payload;
        serialized_tx = unsigned.signing_payload;
        signed_at = unsigned.created_at;
      })
    ]

unfoldable pub sign :
    {S : TxStore}
    → (Str → Str)
    → ℤ
    → BitcoinAdapter
    → UnsignedTransaction Details
    → Signer
    → World S Request
    → World S Request × Result (SignedTransaction Details)
unfolding sign_checked
sign sha256 duration b unsigned signer w =
    let r = sign_checked sha256 b unsigned signer in
    (note (transaction_sign b.chain_id duration (is_ok r)) w, r)
