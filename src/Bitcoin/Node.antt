-- ===== src/Bitcoin/Node.antt =====
-- src/chainadapter/bitcoin/rpc.go: the calls of a Bitcoin node. What encoding/json makes of a result
-- is a parameter, the parsed value or an error's text.
use arc_signv.Common.{
  ℕ, Bool, not, ◌||◌, List, [], ◌∷◌, ◌++◌, Option, none, some, ◌⊎◌, inl, inr, if◌then◌else◌,
}
use arc_signv.Common.Text.{Str, str_eq, codes, contains}
use arc_signv.Common.Int.{ℤ, pos, ltb_ℤ}
use arc_signv.Common.Float.{FloatOps}
use arc_signv.Chain.{GoError, Result, ok, err, ◌>>=◌, new_retryable_error, new_non_retryable_error}
use arc_signv.Storage.{TxStore}
use arc_signv.Adapter.{World, Node, Reply, replied, failed, ask}
use arc_signv.Bitcoin.{Utxo}

pub data Request : Type 0 where
  list_unspent : Str → Request
  estimate_smart_fee : ℕ → Request
  get_block_count : Request
  get_raw_transaction : Str → Bool → Request
  get_block : Str → ℕ → Request
  send_raw_transaction : Str → Request

-- What the program reads of the results.
pub record ListUnspentResult (Float : Type 0) : Type 0 where
  pub tx_id : Str
  pub vout : ℕ
  pub address : Str
  pub script_pub_key : Str
  pub amount : Float
  pub confirmations : ℤ
  pub spendable : Bool

pub record EstimateSmartFeeResult (Float : Type 0) : Type 0 where
  pub fee_rate : Float
  pub errors : List Str

pub record RawTransactionResult : Type 0 where
  pub block_hash : Str
  pub confirmations : ℤ

pub record BlockResult : Type 0 where
  pub height : ℤ

pub record Json (Float : Type 0) : Type 0 where
  pub text : Str → Str ⊎ Str
  pub integer : Str → ℤ ⊎ Str
  pub unspent : Str → List (ListUnspentResult Float) ⊎ Str
  pub smart_fee : Str → EstimateSmartFeeResult Float ⊎ Str
  pub raw_transaction : Str → RawTransactionResult ⊎ Str
  pub block : Str → BlockResult ⊎ Str

abbrev rpc_unavailable {ℓ} : {A : Type ℓ} → Str → Option Str → Result A
rpc_unavailable message cause =
    err (new_retryable_error (codes "ERR_RPC_UNAVAILABLE") message none cause)

abbrev parse_failed {ℓ} : {A : Type ℓ} → Str → Str → Result A
parse_failed message cause =
    err (new_non_retryable_error (codes "ERR_RPC_PARSE") message (some cause))

-- A call whose failure and whose unreadable result both name the method and the cause.
abbrev pub read {ℓ} : {A : Type ℓ} → Str → Str → (Str → A ⊎ Str) → Reply → Result A
read method what parse (failed raw e) =
    rpc_unavailable (method ++ codes " RPC failed: " ++ e) (some e)
read method what parse (replied raw) = elim (parse raw) [
  | inl a ↦ ok a
  | inr e ↦ parse_failed (codes "failed to parse " ++ what ++ codes " result: " ++ e) e
]

-- `%v` of a list of texts
abbrev spaced : List Str → Str
spaced [] = []
spaced (s ∷ []) = s
spaced (s ∷ t ∷ ts) = s ++ codes " " ++ spaced (t ∷ ts)

-- The two errors of a failed send.
abbrev pub broadcast_failed : Str → GoError
broadcast_failed e =
    new_retryable_error (codes "ERR_BROADCAST_FAILED")
      (codes "sendrawtransaction RPC failed: " ++ e) none (some e)

abbrev pub already_sent : Str → GoError
already_sent e =
    new_retryable_error (codes "ERR_TX_ALREADY_BROADCAST") (codes "transaction already broadcast")
      none (some e)

-- What `SendRawTransaction` makes of the reply.
unfoldable pub sent_hash : {Float : Type 0} → Json Float → Reply → Result Str
sent_hash json (replied raw) = elim (json.text raw) [
  | inl h ↦ ok h
  | inr e ↦ parse_failed (codes "failed to parse sendrawtransaction result") e
]
sent_hash json (failed raw e) =
    if contains e (codes "already in block chain") || contains e (codes "txn-already-known")
    then elim (json.text raw) [
      | inl h ↦ if str_eq h [] then err (already_sent e) else ok h
      | inr e' ↦ err (already_sent e)
    ]
    else err (broadcast_failed e)

module _ (ops : FloatOps) where
  open ops use {Float, literal, to_int, mul, div}

  -- The loop that skips what cannot be spent and converts from BTC to satoshis.
  unfoldable pub spendable : List (ListUnspentResult Float) → List Utxo
  spendable [] = []
  spendable (u ∷ us) =
      let rest = spendable us in
      if not u.spendable
      then rest
      else record {
        tx_id = u.tx_id;
        vout = u.vout;
        amount = to_int (mul u.amount (literal (pos 100_000_000) 1));
        script_pub_key = u.script_pub_key;
        address = u.address;
        confirmations = u.confirmations;
      }
        ∷ rest

  -- From BTC per kilobyte to satoshis per byte, at least one.
  unfoldable pub sat_per_byte : Float → ℤ
  sat_per_byte rate =
      let sats = to_int (div (mul rate (literal (pos 100_000_000) 1)) (literal (pos 1_000) 1)) in
      if ltb_ℤ sats (pos 1) then pos 1 else sats

  unfoldable pub smart_fee_of : EstimateSmartFeeResult Float → Result ℤ
  smart_fee_of fee = elim fee.errors [
    | [] ↦ ok (sat_per_byte fee.fee_rate)
    | e ∷ es ↦
        rpc_unavailable
          (codes "estimatesmartfee returned errors: [" ++ spaced (e ∷ es) ++ codes "]") none
  ]

module _ (ops : FloatOps) (json : Json ops.Float) {S : TxStore} (node : Node Request) where
  unfoldable pub list_utxos : Str → World S Request → World S Request × Result (List Utxo)
  list_utxos address w =
      let (w', r) = ask node (list_unspent address) w in
      (
        w',
        elim (read (codes "listunspent") (codes "listunspent") json.unspent r) [
          | ok us ↦ ok (spendable ops us)
          | err e ↦ err e
        ],
      )

  unfoldable pub smart_fee : ℕ → World S Request → World S Request × Result ℤ
  smart_fee target_blocks w =
      let (w', r) = ask node (estimate_smart_fee target_blocks) w in
      (
        w',
        read (codes "estimatesmartfee") (codes "estimatesmartfee") json.smart_fee r
            >>= smart_fee_of ops,
      )

  unfoldable pub block_count : World S Request → World S Request × Result ℤ
  block_count w =
      let (w', r) = ask node get_block_count w in
      (
        w',
        elim r [
          | failed raw e ↦ rpc_unavailable (codes "getblockcount RPC failed") (some e)
          | replied raw ↦ elim (json.integer raw) [
            | inl n ↦ ok n
            | inr e ↦ parse_failed (codes "failed to parse getblockcount result") e
          ]
        ],
      )

  unfoldable pub raw_transaction :
      Str → Bool → World S Request → World S Request × Result RawTransactionResult
  raw_transaction tx_hash verbose w =
      let (w', r) = ask node (get_raw_transaction tx_hash verbose) w in
      (w', read (codes "getrawtransaction") (codes "getrawtransaction") json.raw_transaction r)

  unfoldable pub block : Str → ℕ → World S Request → World S Request × Result BlockResult
  block block_hash verbosity w =
      let (w', r) = ask node (get_block block_hash verbosity) w in
      (w', read (codes "getblock") (codes "getblock") json.block r)

  unfoldable pub send : Str → World S Request → World S Request × Result Str
  send tx_hex w = let (w', r) = ask node (send_raw_transaction tx_hex) w in (w', sent_hash json r)
