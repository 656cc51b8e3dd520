-- ===== src/Ethereum/Builder.antt =====
-- src/chainadapter/ethereum/builder.go: validation and the assembly of an EIP-1559 transaction.
pub mod Validation
use arc_signv.Common.{
  ℕ, ◌==◌, Bool, true, false, not, ◌&&◌, ◌||◌, List, [], ◌∷◌, ◌++◌, Option, none, some, length,
  if◌then◌else◌,
}
use arc_signv.Common.Text.{Str, str_eq, codes, decimal}
use arc_signv.Common.Int.{ℤ, pos, ltb_ℤ, div_floor, ◌*ℤ◌}
use arc_signv.Common.Word.{wrap64}
use arc_signv.Chain.{
  Result, ok, err, ◌>>=◌, ◌>>◌, refuse_if, new_non_retryable_error, TransactionRequest,
  UnsignedTransaction,
}
use arc_signv.Ethereum.{DynamicFeeTx, EthLib}

pub record Details : Type 0 where
  pub chain_id : ℤ
  pub nonce : ℕ
  pub gas_limit : ℕ
  pub max_fee_per_gas : Str
  pub max_priority_fee_per_gas : Str
  pub call_data : Str

-- Amount == nil || Amount < 0
abbrev pub negative : Option ℤ → Bool
negative none = true
negative (some a) = ltb_ℤ a (pos 0)

abbrev pub amount_of : TransactionRequest → ℤ
amount_of req = elim req.amount [ none ↦ pos 0 | some a ↦ a ]

abbrev pub gas_of : ℕ → TransactionRequest → ℕ
gas_of gas_limit req = elim req.chain_specific [
  | none ↦ gas_limit
  | some s ↦ elim s.gas_limit [ none ↦ gas_limit | some g ↦ g ]
]

abbrev pub has_prefix : Str → Bool
has_prefix [] = false
has_prefix (c ∷ []) = false
has_prefix (c ∷ d ∷ s) = (c == b'0') && (d == b'x')

abbrev invalid_address : Str
invalid_address = codes "ERR_INVALID_ADDRESS"

abbrev line : Str → Str → Str
line name value = codes "  \"" ++ name ++ codes "\": " ++ value ++ codes "\n"

abbrev quoted : Str → Str
quoted s = codes "\"" ++ s ++ codes "\""

module _ (lib : EthLib) where
  open lib use {Addr, hex_to_address, is_hex_address, hash, hash_hex, ether_text}

  unfoldable pub is_valid_address : Str → Bool
  is_valid_address addr =
      if not (has_prefix addr)
      then false
      else if not (length addr == 42)
      then false
      else if not (is_hex_address addr)
      then false
      else true

  unfoldable pub validate_request : TransactionRequest → Result (Unit {0})
  unfolding is_valid_address
  validate_request req = do
    refuse_if (str_eq req.from [])
        (new_non_retryable_error invalid_address (codes "from address is required") none)
    refuse_if (not (is_valid_address req.from))
        (new_non_retryable_error invalid_address (codes "invalid from address: " ++ req.from) none)
    refuse_if (str_eq req.to [])
        (new_non_retryable_error invalid_address (codes "to address is required") none)
    refuse_if (not (is_valid_address req.to))
        (new_non_retryable_error invalid_address (codes "invalid to address: " ++ req.to) none)
    refuse_if (negative req.amount) (
        new_non_retryable_error (codes "ERR_INVALID_AMOUNT") (codes "amount must be non-negative")
          none)
    refuse_if (not (str_eq req.asset (codes "ETH")) && not (str_eq req.asset (codes "ethereum"))) (
        new_non_retryable_error (codes "ERR_UNSUPPORTED_ASSET")
          (codes "unsupported asset: " ++ req.asset ++ codes " (use 'ETH' for Ethereum)") none)

  unfoldable pub create_human_readable : ℤ → TransactionRequest → ℕ → ℕ → ℤ → ℤ → ℤ → Str
  create_human_readable chain_id req nonce gas_limit max_fee max_priority fee =
      codes "{\n"
      ++ line (codes "from") (quoted req.from ++ codes ",")
      ++ line (codes "to") (quoted req.to ++ codes ",")
      ++ line (codes "amount") (
          ether_text (amount_of req) ++ codes " ETH (" ++ decimal (amount_of req) ++ codes " wei),")
      ++ line (codes "nonce") (decimal (pos nonce) ++ codes ",")
      ++ line (codes "gas_limit") (decimal (pos gas_limit) ++ codes ",")
      ++ line (codes "max_fee_per_gas")
          (decimal (div_floor max_fee 1_000_000_000) ++ codes " Gwei,")
      ++ line (codes "max_priority_fee_per_gas")
          (decimal (div_floor max_priority 1_000_000_000) ++ codes " Gwei,")
      ++ line (codes "estimated_fee") (ether_text fee ++ codes " ETH,")
      ++ line (codes "memo") (quoted req.memo ++ codes ",")
      ++ line (codes "chain_id") (decimal (wrap64 chain_id))
      ++ codes "}"

  unfoldable pub dynamic_fee_tx : ℤ → TransactionRequest → ℕ → ℕ → ℤ → ℤ → DynamicFeeTx Addr
  dynamic_fee_tx chain_id req nonce gas_limit max_fee max_priority = record {
    chain_id = chain_id;
    nonce = nonce;
    gas_fee_cap = max_fee;
    gas_tip_cap = max_priority;
    gas = gas_of gas_limit req;
    to = hex_to_address req.to;
    value = amount_of req;
    call_data = req.memo;
  }

  unfoldable pub build :
      ℤ → ℤ → TransactionRequest → ℕ → ℕ → ℤ → ℤ → Result (UnsignedTransaction Details)
  build now chain_id req nonce gas_limit max_fee max_priority = do
    validate_request req
    let gas = gas_of gas_limit req
    let tx_hash = hash (dynamic_fee_tx chain_id req nonce gas_limit max_fee max_priority)
    let fee = max_fee *ℤ wrap64 (pos gas)
    ok (record {
      id = hash_hex tx_hash;
      chain_id = codes "ethereum-" ++ decimal (wrap64 chain_id);
      from = req.from;
      to = req.to;
      amount = amount_of req;
      fee = fee;
      nonce = some (pos nonce);
      signing_payload = tx_hash;
      human_readable = create_human_readable chain_id req nonce gas max_fee max_priority fee;
      details = record {
        chain_id = wrap64 chain_id;
        nonce = nonce;
        gas_limit = gas;
        max_fee_per_gas = decimal max_fee;
        max_priority_fee_per_gas = decimal max_priority;
        call_data = req.memo;
      };
      created_at = now;
    })
