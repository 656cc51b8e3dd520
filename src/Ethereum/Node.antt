-- ===== src/Ethereum/Node.antt =====
-- src/chainadapter/ethereum/rpc.go: the calls of an Ethereum node. What encoding/json and hexutil make
-- of a result is a parameter, the parsed value or an error's text.
use arc_signv.Common.{
  ℕ, suc, ◌+◌, ◌/◌, ◌==◌, Bool, ◌||◌, List, [], ◌∷◌, ◌++◌, Option, none, some, ◌⊎◌, inl, inr,
  if◌then◌else◌,
}
use arc_signv.Common.Text.{Str, str_eq, codes, contains}
use arc_signv.Common.Int.{ℤ, pos, ltb_ℤ}
use arc_signv.Chain.{GoError, Result, ok, err, ◌>>=◌, new_retryable_error, new_non_retryable_error}
use arc_signv.Storage.{TxStore}
use arc_signv.Adapter.{World, Node, Reply, replied, failed, ask}

pub data Request : Type 0 where
  get_transaction_count : Str → Request
  -- from, to, the value if it is positive, and the data if there is any
  estimate_gas : Str → Str → Option ℤ → Option Str → Request
  get_latest_block : Request
  fee_history : ℕ → Request
  get_block_number : Request
  send_raw_transaction : Str → Request
  get_transaction_by_hash : Str → Request
  get_transaction_receipt : Str → Request

-- What the program reads of a receipt.
pub record TransactionReceipt : Type 0 where
  pub block_hash : Str
  pub block_number : Str
  pub status : Str

-- Of a transaction it reads only whether there is one.
pub record Json : Type 0 where
  pub text : Str → Str ⊎ Str
  pub base_fee_per_gas : Str → Str ⊎ Str
  pub reward : Str → List (List Str) ⊎ Str
  pub transaction : Str → Unit {0} ⊎ Str
  pub receipt : Str → TransactionReceipt ⊎ Str
  -- hexutil.DecodeUint64 and hexutil.DecodeBig
  pub decode_uint64 : Str → ℕ ⊎ Str
  pub decode_big : Str → ℕ ⊎ Str

abbrev rpc_unavailable {ℓ} : {A : Type ℓ} → Str → Str → Result A
rpc_unavailable message cause =
    err (new_retryable_error (codes "ERR_RPC_UNAVAILABLE") message none (some cause))

-- A result that cannot be parsed, as the error with a message made from the cause.
abbrev pub parsed {ℓ} : {A : Type ℓ} → (Str → Str) → A ⊎ Str → Result A
parsed message (inl a) = ok a
parsed message (inr e) = err (new_non_retryable_error (codes "ERR_RPC_PARSE") (message e) (some e))

-- The raw result of a call, or the failure with a message made from the cause.
abbrev pub answer_of : (Str → Str) → Reply → Result Str
answer_of message (replied raw) = ok raw
answer_of message (failed raw e) = rpc_unavailable (message e) e

-- `null` is no value.
abbrev pub unless_null {ℓ} : {A : Type ℓ} → (Str → Result A) → Str → Result (Option A)
unless_null parse raw =
    if str_eq raw (codes "null") then ok none else (parse raw >>= λ a. ok (some a))

-- The sum and the number of the rewards that are there and can be decoded.
unfoldable pub tally : (Str → ℕ ⊎ Str) → List (List Str) → ℕ × ℕ
tally decode [] = (0, 0)
tally decode ([] ∷ rest) = tally decode rest
tally decode ((r ∷ rs) ∷ rest) =
    let (sum, count) = tally decode rest in
    elim (decode r) [ inl fee ↦ (sum + fee, suc count) | inr e ↦ (sum, count) ]

abbrev pub default_priority_fee : ℕ
default_priority_fee = 2_000_000_000

unfoldable pub average_reward : (Str → ℕ ⊎ Str) → List (List Str) → ℕ
unfolding tally
average_reward decode rewards =
    let (sum, count) = tally decode rewards in
    if count == 0 then default_priority_fee else sum / count

-- What `SendRawTransaction` makes of the reply.
abbrev pub broadcast_failed : Str → GoError
broadcast_failed e =
    new_retryable_error (codes "ERR_BROADCAST_FAILED")
      (codes "eth_sendRawTransaction RPC failed: " ++ e) none (some e)

abbrev pub already_sent : Str → GoError
already_sent e =
    new_retryable_error (codes "ERR_TX_ALREADY_BROADCAST") (codes "transaction already broadcast")
      none (some e)

unfoldable pub says_duplicate : Str → Bool
says_duplicate e =
    contains e (codes "already known")
    || contains e (codes "known transaction")
    || contains e (codes "replacement transaction underpriced")

unfoldable pub sent_hash : Json → Reply → Result Str
sent_hash json (replied raw) =
    parsed (λ e. codes "failed to parse sendRawTransaction result") (json.text raw)
sent_hash json (failed raw e) =
    if says_duplicate e
    then elim (json.text raw) [
      | inl h ↦ if str_eq h [] then err (already_sent e) else ok h
      | inr e' ↦ err (already_sent e)
    ]
    else err (broadcast_failed e)

module _ (json : Json) {S : TxStore} (node : Node Request) where
  -- A quantity that is sent as a text in hexadecimal.
  unfoldable pub quantity :
      (Str → Str)
      → (Str → Str)
      → (Str → Str)
      → Request
      → World S Request
      → World S Request × Result ℕ
  quantity unavailable unparsed undecoded request w =
      let (w', r) = ask node request w in
      (
        w',
        answer_of unavailable r
            >>= (λ raw. parsed unparsed (json.text raw))
            >>= (λ digits. parsed undecoded (json.decode_uint64 digits)),
      )

  unfoldable pub transaction_count : Str → World S Request → World S Request × Result ℕ
  transaction_count address w =
      quantity (λ e. codes "eth_getTransactionCount RPC failed: " ++ e)
        (λ e. codes "failed to parse nonce: " ++ e) (λ e. codes "failed to decode nonce hex: " ++ e)
        (get_transaction_count address) w

  unfoldable pub gas_estimate :
      Str → Str → Option ℤ → Str → World S Request → World S Request × Result ℕ
  gas_estimate from to value call_data w =
      let sent : Option ℤ = elim value [
        | none ↦ none
        | some v ↦ if ltb_ℤ (pos 0) v then some v else none
      ] in
      quantity (λ e. codes "eth_estimateGas RPC failed: " ++ e)
        (λ e. codes "failed to parse gas estimate: " ++ e)
        (λ e. codes "failed to decode gas hex: " ++ e)
        (estimate_gas from to sent (if str_eq call_data [] then none else some call_data)) w

  -- A block without a base fee is from before the London fork.
  unfoldable pub base_fee : World S Request → World S Request × Result ℕ
  base_fee w =
      let (w', r) = ask node get_latest_block w in
      (
        w',
        answer_of (λ e. codes "eth_getBlockByNumber RPC failed") r
            >>= (λ raw. parsed (λ e. codes "failed to parse block") (json.base_fee_per_gas raw))
            >>= (λ digits.
                if str_eq digits []
                then ok 0
                else parsed (λ e. codes "failed to decode base fee") (json.decode_big digits)),
      )

  unfoldable pub priority_fee : ℕ → World S Request → World S Request × Result ℕ
  priority_fee block_count w =
      let (w', r) = ask node (fee_history block_count) w in
      (
        w',
        answer_of (λ e. codes "eth_feeHistory RPC failed") r
            >>= (λ raw. parsed (λ e. codes "failed to parse fee history") (json.reward raw))
            >>= (λ rewards. ok (average_reward json.decode_big rewards)),
      )

  unfoldable pub block_number : World S Request → World S Request × Result ℕ
  block_number w =
      quantity (λ e. codes "eth_blockNumber RPC failed") (λ e. codes "failed to parse block number")
        (λ e. codes "failed to decode block number hex") get_block_number w

  unfoldable pub send : Str → World S Request → World S Request × Result Str
  send tx_hex w = let (w', r) = ask node (send_raw_transaction tx_hex) w in (w', sent_hash json r)

  unfoldable pub transaction_by_hash :
      Str → World S Request → World S Request × Result (Option (Unit {0}))
  transaction_by_hash tx_hash w =
      let (w', r) = ask node (get_transaction_by_hash tx_hash) w in
      (
        w',
        answer_of (λ e. codes "eth_getTransactionByHash RPC failed: " ++ e) r
            >>= unless_null (λ raw.
              parsed (λ e. codes "failed to parse transaction: " ++ e) (json.transaction raw)),
      )

  unfoldable pub transaction_receipt :
      Str → World S Request → World S Request × Result (Option TransactionReceipt)
  transaction_receipt tx_hash w =
      let (w', r) = ask node (get_transaction_receipt tx_hash) w in
      (
        w',
        answer_of (λ e. codes "eth_getTransactionReceipt RPC failed: " ++ e) r
            >>= unless_null
                (λ raw. parsed (λ e. codes "failed to parse receipt: " ++ e) (json.receipt raw)),
      )
