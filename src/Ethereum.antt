-- ===== src/Ethereum.antt =====
-- src/chainadapter/ethereum: the data of the package, and the library go-ethereum that it calls.
pub mod Node
pub mod Builder
pub mod Fee
pub mod Adapter
use arc_signv.Common.{ℕ, Bool, ◌⊎◌}
use arc_signv.Common.Text.{Str}
use arc_signv.Common.Int.{ℤ}

-- types.DynamicFeeTx
pub record DynamicFeeTx (Addr : Type 0) : Type 0 where
  pub chain_id : ℤ
  pub nonce : ℕ
  pub gas_fee_cap : ℤ
  pub gas_tip_cap : ℤ
  pub gas : ℕ
  pub to : Addr
  pub value : ℤ
  pub call_data : Str

-- common, core/types and math/big.Float. `hash` is the hash that a signer of the chain signs, and
-- `ether_text` is an amount of wei in ether with six decimals.
pub record EthLib : Type 1 where
  pub Addr : Type 0
  pub hex_to_address : Str → Addr
  pub is_hex_address : Str → Bool
  pub hash : DynamicFeeTx Addr → Str
  pub hash_hex : Str → Str
  pub ether_text : ℤ → Str
