-- ===== src/Bitcoin/Builder.antt =====
-- src/chainadapter/bitcoin/builder.go: validation and the assembly of an unsigned transaction.
pub mod Steps
pub mod Balance
pub mod Validation
use arc_signv.Common.{
  ℕ, ◌+◌, ◌-◌, ◌^◌, ◌≡◌, Bool, true, false, not, ◌&&◌, ◌||◌, List, [], ◌∷◌, ◌++◌, Option, none,
  some, ◌⊎◌, inl, inr, if◌then◌else◌, length, ltb,
}
use arc_signv.Common.Text.{Str, str_eq, codes, decimal}
use arc_signv.Common.Int.{ℤ, pos, leb_ℤ, ltb_ℤ}
use arc_signv.Common.Word.{wrap64, mul64}
use arc_signv.Chain.{
  GoError, plain, Result, ok, err, ◌>>=◌, ◌>>◌, refuse_if, new_non_retryable_error,
  TransactionRequest, ChainSpecific, UnsignedTransaction,
}
use arc_signv.Bitcoin.{Utxo, TxIn, TxOut, MsgTx, BtcLib}
use arc_signv.Bitcoin.Select.{select_utxos}

pub record Details : Type 0 where
  pub utxos : List Utxo
  pub change_amount : ℤ
  pub change_address : Str
  pub tx_size : ℤ
  pub fee_rate : ℤ

abbrev invalid_address : Str
invalid_address = codes "ERR_INVALID_ADDRESS"

abbrev invalid_transaction : Str
invalid_transaction = codes "ERR_INVALID_TRANSACTION"

-- The error of a library call, wrapped with a code and a message.
abbrev pub wrap_error {ℓ} : {A : Type ℓ} → A ⊎ Str → Str → Str → Result A
wrap_error (inl a) code message = ok a
wrap_error (inr cause) code message = err (new_non_retryable_error code message (some cause))

-- NewTransactionBuilder: the network's name stands for its parameters.
unfoldable pub new_transaction_builder : Str → Result Str
new_transaction_builder network =
    if str_eq network (codes "mainnet")
      || str_eq network (codes "testnet3")
      || str_eq network (codes "regtest")
    then ok network
    else err (plain (codes "unsupported network: " ++ network))

abbrev pub is_empty : Str → Bool
is_empty [] = true
is_empty (c ∷ s) = false

-- Amount == nil || Amount <= 0
abbrev pub not_positive : Option ℤ → Bool
not_positive none = true
not_positive (some a) = leb_ℤ a (pos 0)

-- The value behind the `Amount` pointer, once validated.
abbrev pub amount_of : TransactionRequest → ℤ
amount_of req = elim req.amount [ none ↦ pos 0 | some a ↦ a ]

abbrev pub rbf_enabled : TransactionRequest → Bool
rbf_enabled req = elim req.chain_specific [
  | none ↦ false
  | some s ↦ elim s.rbf_enabled [ none ↦ false | some b ↦ b ]
]

abbrev pub change_address_of : TransactionRequest → Str
change_address_of req = elim req.chain_specific [
  | none ↦ req.from
  | some s ↦ elim s.change_address [ none ↦ req.from | some a ↦ a ]
]

unfoldable pub max_sequence : ℕ
max_sequence = 2 ^ 32 - 1

-- One line of the readable summary.
abbrev line : Str → Str → Str
line name value = codes "  \"" ++ name ++ codes "\": " ++ value ++ codes "\n"

abbrev quoted : Str → Str
quoted s = codes "\"" ++ s ++ codes "\""

module _ (lib : BtcLib) where
  open lib use {
    Addr, Hash, Script, decode_address, pay_to_addr_script, null_data_script, new_hash_from_str,
    serialize_size, tx_hash, serialize,
  }

  unfoldable pub validate_request : Str → TransactionRequest → Result (Unit {0})
  validate_request network req = do
    refuse_if (is_empty req.from)
        (new_non_retryable_error invalid_address (codes "from address is required") none)
    _ ←
        wrap_error (decode_address req.from network) invalid_address
          (codes "invalid from address: " ++ req.from)
    refuse_if (is_empty req.to)
        (new_non_retryable_error invalid_address (codes "to address is required") none)
    _ ←
        wrap_error (decode_address req.to network) invalid_address
          (codes "invalid to address: " ++ req.to)
    refuse_if (not_positive req.amount) (
        new_non_retryable_error (codes "ERR_INVALID_AMOUNT") (codes "amount must be positive") none)
    refuse_if (not (str_eq req.asset (codes "BTC")) && not (str_eq req.asset (codes "bitcoin"))) (
        new_non_retryable_error (codes "ERR_UNSUPPORTED_ASSET")
          (codes "unsupported asset: " ++ req.asset) none)

  -- The loop over the selected outputs.
  unfoldable pub add_inputs : Bool → List Utxo → Result (List (TxIn Hash))
  add_inputs rbf [] = ok []
  add_inputs rbf (u ∷ us) = do
    hash ←
        wrap_error (new_hash_from_str u.tx_id) invalid_transaction
          (codes "invalid UTXO txid: " ++ u.tx_id)
    rest ← add_inputs rbf us
    ok (
        record {
          previous_hash = hash;
          previous_index = u.vout;
          sequence = if rbf then max_sequence - 2 else max_sequence;
        }
        ∷ rest)

  unfoldable pub pay_to : Str → Str → Str → Str → ℤ → Result (TxOut Script)
  pay_to network address bad_address bad_script value = do
    addr ← wrap_error (decode_address address network) invalid_address (bad_address ++ address)
    script ← wrap_error (pay_to_addr_script addr) invalid_transaction bad_script
    ok (record { value = value; pk_script = script })

  -- The change output, if there is change, and the address that it goes to.
  unfoldable pub change_output : Str → TransactionRequest → ℤ → Result (List (TxOut Script) × Str)
  unfolding pay_to
  change_output network req change_amount =
      if ltb_ℤ (pos 0) change_amount
      then (do
        out ←
            pay_to network (change_address_of req) (codes "invalid change address: ")
              (codes "failed to create change script") change_amount
        ok (out ∷ [], change_address_of req))
      else ok ([], [])

  unfoldable pub memo_output : Str → Result (List (TxOut Script))
  memo_output memo =
      if is_empty memo
      then ok []
      else if ltb 80 (length memo)
      then err (new_non_retryable_error invalid_transaction (codes "memo exceeds 80 bytes") none)
      else (do
        script ←
            wrap_error (null_data_script memo) invalid_transaction
              (codes "failed to create memo script")
        ok (record { value = pos 0; pk_script = script } ∷ []))

  unfoldable pub create_human_readable : Str → TransactionRequest → List Utxo → ℤ → ℤ → Str → Str
  create_human_readable network req utxos fee change_amount change_address =
      codes "{\n"
      ++ line (codes "from") (quoted req.from ++ codes ",")
      ++ line (codes "to") (quoted req.to ++ codes ",")
      ++ line (codes "amount") (decimal (amount_of req) ++ codes " satoshis,")
      ++ line (codes "fee") (decimal fee ++ codes " satoshis,")
      ++ line (codes "inputs") (decimal (pos (length utxos)) ++ codes " UTXOs,")
      ++ line (codes "change")
          (decimal change_amount ++ codes " satoshis to " ++ change_address ++ codes ",")
      ++ line (codes "memo") (quoted req.memo ++ codes ",")
      ++ line (codes "network") (quoted network)
      ++ codes "}"

  -- The transaction that `Build` puts together, with what it was made from.
  pub record Draft : Type 0 where
    pub tx : MsgTx Hash Script
    pub selected : List Utxo
    pub change_amount : ℤ
    pub change_address : Str

  unfoldable pub draft : Str → TransactionRequest → List Utxo → ℤ → Result Draft
  draft network req utxos fee_rate = do
    validate_request network req
    (selected, change_amount) ← select_utxos utxos (wrap64 (amount_of req)) fee_rate
    inputs ← add_inputs (rbf_enabled req) selected
    recipient ←
        pay_to network req.to (codes "invalid recipient address: ")
          (codes "failed to create recipient script") (wrap64 (amount_of req))
    (change, change_address) ← change_output network req change_amount
    memo ← memo_output req.memo
    ok (record {
      tx = record { tx_in = inputs; tx_out = recipient ∷ (change ++ memo) };
      selected = selected;
      change_amount = change_amount;
      change_address = change_address;
    })

  unfoldable pub build :
      ℤ → Str → TransactionRequest → List Utxo → ℤ → Result (UnsignedTransaction Details)
  unfolding mul64
  build now network req utxos fee_rate = do
    d ← draft network req utxos fee_rate
    let tx_size = serialize_size d.tx
    let fee = mul64 tx_size fee_rate
    signing_payload ←
        wrap_error (serialize d.tx) invalid_transaction (codes "failed to serialize transaction")
    ok (record {
      id = tx_hash d.tx;
      chain_id = codes "bitcoin";
      from = req.from;
      to = req.to;
      amount = amount_of req;
      fee = fee;
      nonce = none;
      signing_payload = signing_payload;
      human_readable =
          create_human_readable network req d.selected fee d.change_amount d.change_address;
      details = record {
        utxos = d.selected;
        change_amount = d.change_amount;
        change_address = d.change_address;
        tx_size = tx_size;
        fee_rate = fee_rate;
      };
      created_at = now;
    })
