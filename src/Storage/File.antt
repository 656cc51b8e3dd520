-- ===== src/Storage/File.antt =====
-- src/chainadapter/storage/file.go. A file is its bytes, JSON encoding is a parameter, `StateJson`, and
-- the operating system's answers are arguments. A pointer to a state is an `Option`, as in
-- Storage/Memory, and so is the map: parsing the text `null` leaves a nil map.
pub mod Durability
use arc_signv.Common.{ℕ, Bool, true, false, List, [], ◌∷◌, Option, none, some, ◌⊎◌, inl, inr, ◌&&◌}
use arc_signv.Common.Text.{Str}
use arc_signv.Common.Int.{ℤ}
use arc_signv.Common.Dict.{lookup, insert, erase}
use arc_signv.Storage.{TxState}
use arc_signv.Storage.Memory.{States, copy_state, purge, cutoff_at}
use arc_signv.Storage.Memory

-- json.MarshalIndent and json.Unmarshal at a map of states; `none` is an error.
pub record StateJson : Type 0 where
  pub marshal : Option States → Option Str
  pub unmarshal : Str → Option (Option States)

pub data Contents : Type 0 where
  no_file : Contents
  bytes : Str → Contents

pub record FileTxStore : Type 0 where
  pub store : Option States

-- Whether each step of `persist` that calls the operating system succeeds.
pub record Disk : Type 0 where
  pub makes_dir : Bool
  pub writes_tmp : Bool
  pub renames : Bool

pub data Fault : Type 0 where
  read_failed parse_failed mkdir_failed marshal_failed write_failed rename_failed : Fault

-- A method's outcome: its state, the file and an error, or a panic.
pub data Outcome {ℓ} (A : Type ℓ) : Type ℓ where
  returns : FileTxStore → Contents → A → Option Fault → Outcome A
  panics : Outcome A

abbrev parsed : Option (Option States) → (Option States) ⊎ Fault
parsed none = inr parse_failed
parsed (some m) = inl m

unfoldable pub load : StateJson → Bool → Contents → (Option States) ⊎ Fault
load json readable no_file = inl (some [])
load json false (bytes text) = inr read_failed
load json true (bytes []) = inl (some [])
load json true (bytes (b ∷ bs)) = parsed (json.unmarshal (b ∷ bs))

abbrev opened : (Option States) ⊎ Fault → FileTxStore ⊎ Fault
opened (inl m) = inl (record { store = m })
opened (inr e) = inr e

unfoldable pub new_file_tx_store : StateJson → Bool → Contents → FileTxStore ⊎ Fault
unfolding load
new_file_tx_store json readable c = opened (load json readable c)

-- The rename is the one step that touches the file itself.
abbrev written : Disk → Contents → Option Str → Contents × Option Fault
written d c none = (c, some marshal_failed)
written d c (some text) = elim d.writes_tmp [
  | false ↦ (c, some write_failed)
  | true ↦ elim d.renames [ false ↦ (c, some rename_failed) | true ↦ (bytes text, none) ]
]

unfoldable pub persist : StateJson → Disk → FileTxStore → Contents → Contents × Option Fault
persist json d f c = elim d.makes_dir [
  | false ↦ (c, some mkdir_failed)
  | true ↦ written d c (json.marshal f.store)
]

-- Reading a nil map finds nothing.
abbrev pub entries : FileTxStore → States
entries f = elim f.store [ none ↦ [] | some m ↦ m ]

unfoldable pub get : Str → FileTxStore → Option TxState
unfolding copy_state
get k f = elim (lookup k (entries f)) [ none ↦ none | some s ↦ copy_state s ]

abbrev pub persisted {ℓ} : {A : Type ℓ} → FileTxStore → A → Contents × Option Fault → Outcome A
persisted f a (c, e) = returns f c a e

-- Writing to a nil map panics.
unfoldable pub set :
    StateJson → Disk → Str → Option TxState → FileTxStore → Contents → Outcome (Unit {0})
unfolding copy_state persist
set json d k s f c = elim f.store [
  | none ↦ panics
  | some m ↦
      let f' : FileTxStore = record { store = some (insert k (copy_state s) m) } in
      persisted f' tt (persist json d f' c)
]

-- Deleting from a nil map is a no-op.
unfoldable pub delete : StateJson → Disk → Str → FileTxStore → Contents → Outcome (Unit {0})
unfolding persist
delete json d k f c = elim f.store [
  | none ↦ persisted f tt (persist json d f c)
  | some m ↦
      let f' : FileTxStore = record { store = some (erase k m) } in
      persisted f' tt (persist json d f' c)
]

abbrev pub purged : StateJson → Disk → Contents → Option (States × ℕ) → Outcome ℕ
unfolding persist
purged json d c none = panics
purged json d c (some (m, n)) =
    let f' : FileTxStore = record { store = some m } in persisted f' n (persist json d f' c)

-- Reading a nil state panics.
unfoldable pub clean : StateJson → Disk → ℤ → ℤ → FileTxStore → Contents → Outcome ℕ
unfolding persist purged
clean json d now older_than f c = elim f.store [
  | none ↦ persisted f 0 (persist json d f c)
  | some m ↦ purged json d c (purge (cutoff_at now older_than) m)
]

unfoldable pub list : FileTxStore → Option (List (Option TxState))
list f = Memory.list (record { store = entries f })

unfoldable pub list_by_status : Str → FileTxStore → Option (List TxState)
list_by_status status f = Memory.list_by_status status (record { store = entries f })

abbrev pub is_good : Disk → Bool
is_good d = d.makes_dir && d.writes_tmp && d.renames
