-- ===== src/Ethereum/Adapter.antt =====
-- src/chainadapter/ethereum/adapter.go: the operations of EthereumAdapter.
pub mod Delivery
pub mod Fees
pub mod Status
pub mod Signing
use arc_signv.Common.{
  ℕ, ◌+◌, ◌-◌, ◌*◌, ◌/◌, ◌%◌, ◌^◌, ◌==◌, Bool, true, false, not, ◌&&◌, ◌||◌, List, [], ◌∷◌, ◌++◌,
  Option, none, some, ◌⊎◌, inl, inr, if◌then◌else◌, leb,
}
use arc_signv.Common.Text.{Str, str_eq, codes, contains, hex}
use arc_signv.Common.Int.{ℤ, pos, eqb_ℤ, leb_ℤ, ◌-ℤ◌}
use arc_signv.Common.Word.{to_unsigned, wrap64}
use arc_signv.Chain.{
  GoError, chain, retryable, Result, ok, err, ◌>>=◌, is_ok, new_non_retryable_error, FeeSpeed, slow,
  normal, fast, other_speed, TransactionRequest, UnsignedTransaction, SignedTransaction,
  BroadcastReceipt, TransactionStatus, FeeEstimate,
}
use arc_signv.Chain.TxStatus.{pending, confirmed, finalized, failed}
use arc_signv.Storage.{TxStore}
use arc_signv.Adapter.{World, Node, transaction_build, transaction_sign, note, Signer}
use arc_signv.Adapter.Broadcast.{Policy, broadcast_with}
use arc_signv.Ethereum.{EthLib}
use arc_signv.Ethereum.Builder.{Details, build}
use arc_signv.Ethereum.Fee.{multiplier, or_default, estimate}
use arc_signv.Ethereum.Node.{
  Request, Json, TransactionReceipt, transaction_count, gas_estimate, base_fee, priority_fee,
  block_number, send, transaction_by_hash, transaction_receipt, default_priority_fee,
}

pub record EthereumAdapter : Type 0 where
  pub chain_id : Str
  pub network_id : ℤ

unfoldable pub new_ethereum_adapter : ℤ → EthereumAdapter
new_ethereum_adapter network_id = record {
  chain_id =
      if eqb_ℤ network_id (pos 5)
      then codes "ethereum-goerli"
      else if eqb_ℤ network_id (pos 11_155_111)
      then codes "ethereum-sepolia"
      else codes "ethereum";
  network_id = network_id;
}

unfoldable pub to_lower : Str → Str
to_lower [] = []
to_lower (c ∷ s) = (if leb b'A' c && leb c b'Z' then c + (b'a' - b'A') else c) ∷ to_lower s

unfoldable pub normalize_hash : Str → Str
unfolding to_lower
normalize_hash (c ∷ d ∷ s) = if (c == b'0') && (d == b'x') then to_lower s else to_lower (c ∷ d ∷ s)
normalize_hash (c ∷ []) = to_lower (c ∷ [])
normalize_hash [] = to_lower []

-- gasLimit * 110 / 100, in uint64
unfoldable pub buffered : ℕ → ℕ
buffered gas = gas * 110 % 2 ^ 64 / 100

-- maxFeePerGas and maxPriorityFeePerGas.
unfoldable pub fee_cap : FeeSpeed → ℕ → ℕ → ℕ
fee_cap speed base priority = base * multiplier speed + priority

unfoldable pub tip_cap : FeeSpeed → ℕ → ℕ
tip_cap fast priority = priority * 2
tip_cap normal priority = priority
tip_cap slow priority = priority
tip_cap (other_speed s) priority = priority

module _ (json : Json) {S : TxStore} (node : Node Request) where
  -- What a build asks of the node, whatever it answers: the gas limit, and the two fees.
  unfoldable pub gas_and_fees : TransactionRequest → World S Request → World S Request × ℕ × ℕ × ℕ
  gas_and_fees req w =
      let (w1, gas) = gas_estimate json node req.from req.to req.amount req.memo w in
      let (w2, base) = base_fee json node w1 in
      let (w3, priority) = priority_fee json node 10 w2 in
      (
        w3,
        buffered (or_default 21_000 gas),
        or_default 30_000_000_000 base,
        or_default default_priority_fee priority,
      )

  unfoldable pub prepare :
      EthLib
      → ℤ
      → EthereumAdapter
      → TransactionRequest
      → World S Request
      → World S Request × Result (UnsignedTransaction Details)
  prepare lib now a req w =
      let (w1, counted) = transaction_count json node req.from w in
      let (w2, gas, base, priority) = gas_and_fees req w1 in
      elim counted [
        | err e ↦ (w1, err e)
        | ok nonce ↦ (
          w2,
          build lib now a.network_id req nonce gas (pos (fee_cap req.fee_speed base priority))
                (pos (tip_cap req.fee_speed priority))
              >>= (λ unsigned. ok (record unsigned { chain_id = a.chain_id })),
        )
      ]

  unfoldable pub build_transaction :
      EthLib
      → ℤ
      → ℤ
      → EthereumAdapter
      → TransactionRequest
      → World S Request
      → World S Request × Result (UnsignedTransaction Details)
  build_transaction lib now duration a req w =
      let (w', r) = prepare lib now a req w in
      (note (transaction_build a.chain_id duration (is_ok r)) w', r)

  -- `Estimate` of the adapter.
  unfoldable pub adapter_estimate :
      EthereumAdapter → TransactionRequest → World S Request → World S Request × FeeEstimate
  adapter_estimate a req w =
      let (w', e) = estimate json node req w in (w', record e { chain_id = a.chain_id })

  -- The transaction goes out with the prefix 0x; hashes are compared without case.
  unfoldable pub ethereum_policy : EthereumAdapter → Policy S Request
  ethereum_policy a = record {
    chain_id = a.chain_id;
    send = λ digits w. send json node (codes "0x" ++ digits) w;
    is_duplicate =
        λ message. contains message (codes "already") || contains message (codes "known");
    same_hash = λ theirs ours. str_eq (normalize_hash theirs) (normalize_hash ours);
  }

  unfoldable pub broadcast :
      ℤ
      → ℤ
      → ℤ
      → EthereumAdapter
      → Option (SignedTransaction Details)
      → World S Request
      → World S Request × Result BroadcastReceipt
  broadcast now later duration a signed w =
      broadcast_with (ethereum_policy a) now later duration signed w
