-- ===== src/Bitcoin.antt =====
-- src/chainadapter/bitcoin: the data of the package, and the library btcd that it calls.
pub mod Node
pub mod Select
pub mod Builder
pub mod Adapter
pub mod Fee
use arc_signv.Common.{ℕ, List, ◌⊎◌}
use arc_signv.Common.Text.{Str}
use arc_signv.Common.Int.{ℤ}

pub record Utxo : Type 0 where
  pub tx_id : Str
  pub vout : ℕ
  pub amount : ℤ
  pub script_pub_key : Str
  pub address : Str
  pub confirmations : ℤ

-- wire.MsgTx, over the hashes and scripts of the library.
pub record TxIn (Hash : Type 0) : Type 0 where
  pub previous_hash : Hash
  pub previous_index : ℕ
  pub sequence : ℕ

pub record TxOut (Script : Type 0) : Type 0 where
  pub value : ℤ
  pub pk_script : Script

pub record MsgTx (Hash Script : Type 0) : Type 0 where
  pub tx_in : List (TxIn Hash)
  pub tx_out : List (TxOut Script)

-- btcutil, txscript, chainhash and wire. An operation that can fail answers with an error's text.
pub record BtcLib : Type 1 where
  pub Addr : Type 0
  pub Hash : Type 0
  pub Script : Type 0
  pub decode_address : Str → Str → Addr ⊎ Str
  pub pay_to_addr_script : Addr → Script ⊎ Str
  pub null_data_script : Str → Script ⊎ Str
  pub new_hash_from_str : Str → Hash ⊎ Str
  pub serialize_size : MsgTx Hash Script → ℤ
  pub tx_hash : MsgTx Hash Script → Str
  pub serialize : MsgTx Hash Script → Str ⊎ Str
