-- ===== src/Coin.antt =====
-- The records of internal/models/address.go and internal/services/coinregistry/types.go that the
-- wallet and address services share. Symbols, names and categories are texts, numbers are unbounded.
pub mod Book
pub mod Registry
use arc_signv.Common.{ℕ, List}
use arc_signv.Common.Text.{Str, codes}
use arc_signv.Common.Int.{ℤ}

pub record DerivedAddress : Type 0 where
  pub symbol : Str
  pub coin_name : Str
  pub coin_type : ℕ
  pub address : Str
  pub derivation_path : Str
  pub market_cap_rank : ℤ
  pub category : Str

pub record AddressBook : Type 0 where
  pub addresses : List DerivedAddress

abbrev pub secp256k1 : Str
secp256k1 = codes "secp256k1"

abbrev pub ed25519 : Str
ed25519 = codes "ed25519"

abbrev pub sr25519 : Str
sr25519 = codes "sr25519"

abbrev pub utxo : Str
utxo = codes "UTXO"

abbrev pub evm_mainnet : Str
evm_mainnet = codes "EVM_Mainnet"

abbrev pub layer2 : Str
layer2 = codes "Layer2"

abbrev pub cosmos : Str
cosmos = codes "Cosmos_SDK"

abbrev pub substrate : Str
substrate = codes "Substrate"

abbrev pub custom : Str
custom = codes "Custom"

pub record CoinMetadata : Type 0 where
  pub symbol : Str
  pub name : Str
  pub coin_type : ℕ
  pub formatter_id : Str
  pub market_cap_rank : ℤ
  pub key_type : Str
  pub category : Str
