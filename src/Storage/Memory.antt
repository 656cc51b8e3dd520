-- ===== src/Storage/Memory.antt =====
-- src/chainadapter/storage/memory.go. The lock makes each method one step, and `copyState` keeps a
-- caller from sharing the stored state. A pointer to a state is an `Option`, nil is `none`; a method's
-- result is `none` where it panics on a nil pointer. The clock is an argument.
use mathlib.Core.List.{Perm}
use arc_signv.Common.{
  ℕ, ◌+◌, ◌≡◌, Bool, true, false, List, [], ◌∷◌, Option, none, some, select, map, ap, refl,
}
use arc_signv.Common.Text.{Str, str_eq}
use arc_signv.Common.Int.{ℤ, pos, ◌+ℤ◌, ltb_ℤ}
use arc_signv.Common.Word.{sub64}
use arc_signv.Common.Dict.{Dict, lookup, insert, erase}
use arc_signv.Storage.{TxState}
use arc_signv.Storage.Sorted.{sort_newest, sort_newest-perm, sort_newest-NewestFirst, NewestFirst}

-- map[string]*TxState
abbrev pub States : Type 0
States = Dict (Option TxState)

pub record MemoryTxStore : Type 0 where
  pub store : States

unfoldable pub new_memory_tx_store : MemoryTxStore
new_memory_tx_store = record { store = [] }

unfoldable pub copy_state : Option TxState → Option TxState
copy_state none = none
copy_state (some s) = some (record {
  tx_hash = s.tx_hash;
  retry_count = s.retry_count;
  first_seen = s.first_seen;
  last_retry = s.last_retry;
  status = s.status;
  chain_id = s.chain_id;
  raw_tx = s.raw_tx;
})

unfoldable pub get : Str → MemoryTxStore → Option TxState
unfolding copy_state
get k m = elim (lookup k m.store) [ none ↦ none | some s ↦ copy_state s ]

unfoldable pub set : Str → Option TxState → MemoryTxStore → MemoryTxStore
unfolding copy_state
set k s m = record { store = insert k (copy_state s) m.store }

unfoldable pub delete : Str → MemoryTxStore → MemoryTxStore
delete k m = record { store = erase k m.store }

-- The loop over the map that collects copies.
unfoldable pub values : States → List (Option TxState)
unfolding copy_state
values [] = []
values ((k, s) ∷ m) = copy_state s ∷ values m

abbrev pub add_state : Option TxState → Option (List TxState) → Option (List TxState)
add_state (some s) (some xs) = some (s ∷ xs)
add_state (some s) none = none
add_state none rest = none

-- The states behind the pointers, if each is read.
unfoldable pub read_all : List (Option TxState) → Option (List TxState)
read_all [] = some []
read_all (s ∷ ss) = add_state s (read_all ss)

abbrev pub sorted_pointers : Option (List TxState) → Option (List (Option TxState))
sorted_pointers none = none
sorted_pointers (some xs) = some (map some (sort_newest xs))

-- The sort of a list compares each of its elements if there are two or more, and then reads all.
unfoldable pub sort_pointers : List (Option TxState) → Option (List (Option TxState))
unfolding read_all
sort_pointers [] = some []
sort_pointers (s ∷ []) = some (s ∷ [])
sort_pointers (s ∷ t ∷ ss) = sorted_pointers (read_all (s ∷ t ∷ ss))

unfoldable pub list : MemoryTxStore → Option (List (Option TxState))
unfolding values sort_pointers
list m = sort_pointers (values m.store)

unfoldable pub has_status : Str → TxState → Bool
has_status status s = str_eq s.status status

abbrev pub of_status : Str → Option (List TxState) → Option (List TxState)
unfolding has_status
of_status status none = none
of_status status (some xs) = some (sort_newest (select (has_status status) xs))

-- The loop reads the status of every state.
unfoldable pub list_by_status : Str → MemoryTxStore → Option (List TxState)
unfolding values read_all of_status
list_by_status status m = of_status status (read_all (values m.store))

-- One turn of the loop, given what comes of the rest of the map.
abbrev pub swept_or_kept : Bool → Str → Option TxState → Option (States × ℕ) → Option (States × ℕ)
swept_or_kept old k s none = none
swept_or_kept true k s (some (rest, n)) = some (rest, n + 1)
swept_or_kept false k s (some (rest, n)) = some ((k, s) ∷ rest, n)

-- The loop over the map that deletes what was first seen before the cutoff, and counts it.
unfoldable pub purge : ℤ → States → Option (States × ℕ)
purge cutoff [] = some ([], 0)
purge cutoff ((k, none) ∷ m) = none
purge cutoff ((k, some s) ∷ m) =
    swept_or_kept (ltb_ℤ s.first_seen cutoff) k (some s) (purge cutoff m)

-- time.Now().Add(-olderThan), where the negation is one of int64
unfoldable pub cutoff_at : ℤ → ℤ → ℤ
cutoff_at now older_than = now +ℤ sub64 (pos 0) older_than

abbrev pub cleaned : Option (States × ℕ) → Option (MemoryTxStore × ℕ)
cleaned none = none
cleaned (some (store, n)) = some (record { store = store }, n)

unfoldable pub clean : ℤ → ℤ → MemoryTxStore → Option (MemoryTxStore × ℕ)
unfolding purge
clean now older_than m = cleaned (purge (cutoff_at now older_than) m.store)

read-sort_pointers :
    (ss : List (Option TxState)) (xs : List TxState)
    → read_all ss ≡ some xs
    → sort_pointers ss ≡ some (map some (sort_newest xs))
unfolding read_all sort_pointers sort_newest
read-sort_pointers [] xs h = ap sorted_pointers h
read-sort_pointers (none ∷ ss) xs h = cc
read-sort_pointers (some s ∷ []) xs h = ap sorted_pointers h
read-sort_pointers (some s ∷ t ∷ ss) xs h = rw h refl

-- Where no state is nil, `List` returns every stored state once, newest first, and `ListByStatus`
-- those of the status.
pub list_sorted :
    (m : MemoryTxStore) (status : Str) (xs : List TxState)
    → read_all (values m.store) ≡ some xs
    → (list m ≡ some (map some (sort_newest xs)))
      × Perm (sort_newest xs) xs
      × NewestFirst (sort_newest xs)
      × (list_by_status status m ≡ some (sort_newest (select (has_status status) xs)))
unfolding list list_by_status
list_sorted m status xs h = (
  read-sort_pointers (values m.store) xs h,
  sort_newest-perm _,
  sort_newest-NewestFirst _,
  ap (of_status status) h,
)
