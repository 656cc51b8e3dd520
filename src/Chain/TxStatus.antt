-- ===== src/Chain/TxStatus.antt =====
-- The statuses of a transaction: storage.TxStatus in src/chainadapter/storage/store.go and
-- chainadapter.TxStatus in src/chainadapter/adapter.go spell the same four texts.
use arc_signv.Common.Text.{Str, codes}

abbrev pub pending : Str
pending = codes "pending"

abbrev pub confirmed : Str
confirmed = codes "confirmed"

abbrev pub finalized : Str
finalized = codes "finalized"

abbrev pub failed : Str
failed = codes "failed"
