-- ===== src/Storage.antt =====
-- src/chainadapter/storage/store.go: the state of a broadcast, and the interface of its stores.
pub mod Memory
pub mod Sorted
pub mod File
pub mod Refinement
use arc_signv.Common.{ℕ, ◌≡◌, Bool, Option, none, some, if◌then◌else◌}
use arc_signv.Common.Text.{Str, str_eq}
use arc_signv.Common.Int.{ℤ}

pub record TxState : Type 0 where
  pub tx_hash : Str
  pub retry_count : ℤ
  pub first_seen : ℤ
  pub last_retry : ℤ
  pub status : Str
  pub chain_id : Str
  pub raw_tx : Str

-- The part of TransactionStateStore that the adapters call, and the one law that they rely on.
-- `get` answers `none` on a storage failure and `some none` where nothing is stored; `set` says
-- whether it succeeded, and what it wrote can be read back even where it reports a failure.
pub record TxStore : Type 1 where
  pub Store : Type 0
  pub get : Str → Store → Option (Option TxState)
  pub set : Str → TxState → Store → Store × Bool
  pub get-set :
      (k j : Str) (s : TxState) (st : Store)
      → get j (set k s st).0 ≡ (if str_eq k j then some (some s) else get j st)
