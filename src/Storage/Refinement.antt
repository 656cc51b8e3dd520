-- ===== src/Storage/Refinement.antt =====
-- The in-memory store implements a finite map from hashes to states.
use mathlib.Core.Path.{fun_ext}
use arc_signv.Common.{
  ℕ, ◌+◌, ◌≡◌, refl, ap, Bool, Bool-cases, Option-cases, true, false, [], ◌∷◌, Option, none, some,
  arith, length, if◌then◌else◌, inl, inr,
}
use arc_signv.Common.Text.{Str, str_eq, eq_iff}
use arc_signv.Common.Int.{ℤ, ltb_ℤ}
use arc_signv.Common.Dict.{
  Distinct, lookup, lookup-insert, lookup-erase, insert-Distinct, erase-Distinct,
}
use arc_signv.Storage.{TxState, TxStore}
use arc_signv.Storage.Memory.{
  MemoryTxStore, States, get, set, delete, clean, purge, cutoff_at, copy_state,
}

-- The abstract view of a store forgets in what order the map is kept, and a nil state is none.
abbrev pub View : Type 0
View = Str → Option TxState

abbrev pub view : MemoryTxStore → View
view m k = get k m

pub data Op : Type 0 where
  sets : Str → Option TxState → Op
  deletes : Str → Op
  cleans : ℤ → ℤ → Op

abbrev pub store_of : Option (MemoryTxStore × ℕ) → Option MemoryTxStore
store_of none = none
store_of (some (m, n)) = some m

-- The store after an operation, `none` if it panics.
unfoldable pub run_op : Op → MemoryTxStore → Option MemoryTxStore
run_op (sets k s) m = some (set k s m)
run_op (deletes k) m = some (delete k m)
run_op (cleans now older_than) m = store_of (clean now older_than m)

abbrev pub keep_recent : ℤ → Option TxState → Option TxState
keep_recent cutoff none = none
keep_recent cutoff (some s) = if ltb_ℤ s.first_seen cutoff then none else some s

-- What each operation means for the map.
abbrev pub meaning : Op → View → View
meaning (sets k s) v j = if str_eq k j then s else v j
meaning (deletes k) v j = if str_eq k j then none else v j
meaning (cleans now older_than) v j = keep_recent (cutoff_at now older_than) (v j)

-- Some hash is bound to a nil state.
unfoldable pub has_nil : States → Bool
has_nil [] = false
has_nil ((k, none) ∷ m) = true
has_nil ((k, some s) ∷ m) = has_nil m

abbrev pub faults : Op → MemoryTxStore → Bool
faults (sets k s) m = false
faults (deletes k) m = false
faults (cleans now older_than) m = has_nil m.store

abbrev behind : Option (Option TxState) → Option TxState
behind none = none
behind (some s) = s

pub copy-eq : (s : Option TxState) → copy_state s ≡ s
unfolding copy_state
copy-eq none = refl
copy-eq (some s) = refl

pub get-lookup : (k : Str) (m : MemoryTxStore) → get k m ≡ behind (lookup k m.store)
unfolding get
get-lookup k m = elim (Option-cases (lookup k m.store)) [
  | inl e ↦ rw (get, e) refl
  | inr (s, e) ↦ rw (get, e) (copy-eq s)
]

-- What the loop of `Clean` leaves, and how much it deletes, where no state is nil.
pub swept : ℤ → States → States
swept cutoff [] = []
swept cutoff ((k, none) ∷ m) = swept cutoff m
swept cutoff ((k, some s) ∷ m) =
    if ltb_ℤ s.first_seen cutoff then swept cutoff m else (k, some s) ∷ swept cutoff m

pub counted : ℤ → States → ℕ
counted cutoff [] = 0
counted cutoff ((k, none) ∷ m) = counted cutoff m
counted cutoff ((k, some s) ∷ m) =
    if ltb_ℤ s.first_seen cutoff then counted cutoff m + 1 else counted cutoff m

pub purge-eq :
    (cutoff : ℤ) (m : States)
    → purge cutoff m ≡ (if has_nil m then none else some (swept cutoff m, counted cutoff m))
unfolding purge has_nil swept counted
purge-eq cutoff [] = refl
purge-eq cutoff ((k, none) ∷ m) = refl
purge-eq cutoff ((k, some s) ∷ m) = rw (purge-eq cutoff m) (elim (Bool-cases (has_nil m)) [
  | inl e ↦ rw e refl
  | inr e ↦ rw e (elim (Bool-cases (ltb_ℤ s.first_seen cutoff)) [
    | inl old ↦ rw old refl
    | inr recent ↦ rw recent refl
  ])
])

swept-absent :
    (cutoff : ℤ) (k : Str) (m : States) → lookup k m ≡ none → lookup k (swept cutoff m) ≡ none
unfolding swept lookup
swept-absent cutoff k [] h = refl
swept-absent cutoff k ((j, none) ∷ m) h = ground (arith, swept-absent cutoff k m)
swept-absent cutoff k ((j, some s) ∷ m) h = ground (arith, swept-absent cutoff k m)

lookup-swept :
    (cutoff : ℤ) (k : Str) (m : States)
    → Distinct m
    → behind (lookup k (swept cutoff m)) ≡ keep_recent cutoff (behind (lookup k m))
unfolding swept lookup
lookup-swept cutoff k [] d = refl
lookup-swept cutoff k ((j, none) ∷ m) d =
    ground (arith, eq_iff j k, lookup-swept cutoff k m, swept-absent cutoff j m)
lookup-swept cutoff k ((j, some s) ∷ m) d =
    ground (arith, eq_iff j k, lookup-swept cutoff k m, swept-absent cutoff j m)

swept-Distinct : (cutoff : ℤ) (m : States) → Distinct m → Distinct (swept cutoff m)
unfolding swept
swept-Distinct cutoff [] d = tt
swept-Distinct cutoff ((j, none) ∷ m) d = swept-Distinct cutoff m d.1
swept-Distinct cutoff ((j, some s) ∷ m) d =
    ground (arith, swept-Distinct cutoff m, swept-absent cutoff j m)

-- What comes of an operation, by whether it panics.
abbrev pub Runs : Op → MemoryTxStore → Option MemoryTxStore → Type 0
Runs op m none = faults op m ≡ true
Runs op m (some m') = (faults op m ≡ false) × (view m' ≡ meaning op (view m))

abbrev KeepsDistinct : Option MemoryTxStore → Type 0
KeepsDistinct none = Unit
KeepsDistinct (some m) = Distinct m.store

-- Every operation that does not panic keeps each hash bound once: the association list stays a map.
pub run_op-Distinct : (op : Op) (m : MemoryTxStore) → Distinct m.store → KeepsDistinct (run_op op m)
unfolding run_op set delete clean
run_op-Distinct (sets k s) m d = insert-Distinct k _ m.store d
run_op-Distinct (deletes k) m d = erase-Distinct k m.store d
run_op-Distinct (cleans now older_than) m d =
    rw (purge-eq (cutoff_at now older_than) m.store) (elim (Bool-cases (has_nil m.store)) [
      | inl e ↦ rw e tt
      | inr e ↦ rw e (swept-Distinct (cutoff_at now older_than) m.store d)
    ])

pub set-Runs :
    (k : Str) (s : Option TxState) (m : MemoryTxStore)
    → view (set k s m) ≡ meaning (sets k s) (view m)
unfolding set
set-Runs k s m = fun_ext λ j.
    rw (get-lookup j (set k s m), get-lookup j m, lookup-insert k j (copy_state s) m.store)
      (elim (Bool-cases (str_eq k j)) [ inl e ↦ rw e (copy-eq s) | inr e ↦ rw e refl ])

delete-Runs : (k : Str) (m : MemoryTxStore) → view (delete k m) ≡ meaning (deletes k) (view m)
unfolding delete
delete-Runs k m = fun_ext λ j.
    rw (get-lookup j (delete k m), get-lookup j m, lookup-erase k j m.store)
      (elim (Bool-cases (str_eq k j)) [ inl e ↦ rw e refl | inr e ↦ rw e refl ])

swept-view :
    (cutoff : ℤ) (m : MemoryTxStore)
    → Distinct m.store
    → view (record { store = swept cutoff m.store }) ≡ (λ j. keep_recent cutoff (view m j))
swept-view cutoff m d = fun_ext λ j.
    rw (get-lookup j (record { store = swept cutoff m.store }), get-lookup j m)
      (lookup-swept cutoff j m.store d)

-- Every operation changes the view exactly as the map operation of its name: `Set` binds its hash, to
-- nothing if the state is nil, `Delete` unbinds it, `Clean` unbinds what was first seen before the
-- cutoff, and all else is kept. `Clean` panics exactly if a stored state is nil, and the others never.
pub view-run_op : (op : Op) (m : MemoryTxStore) → Distinct m.store → Runs op m (run_op op m)
unfolding run_op clean
view-run_op (sets k s) m d = (refl, set-Runs k s m)
view-run_op (deletes k) m d = (refl, delete-Runs k m)
view-run_op (cleans now older_than) m d =
    rw (purge-eq (cutoff_at now older_than) m.store) (elim (Bool-cases (has_nil m.store)) [
      | inl e ↦ rw e e
      | inr e ↦ rw e (e, swept-view (cutoff_at now older_than) m d)
    ])

abbrev Removes : ℕ → Option (MemoryTxStore × ℕ) → Type 0
Removes total none = Unit
Removes total (some (m, n)) = length m.store + n ≡ total

swept-counted :
    (cutoff : ℤ) (m : States)
    → has_nil m ≡ false
    → length (swept cutoff m) + counted cutoff m ≡ length m
unfolding swept counted has_nil
swept-counted cutoff [] h = omega arith
swept-counted cutoff ((k, none) ∷ m) h = cc
swept-counted cutoff ((k, some s) ∷ m) h = ground (arith, swept-counted cutoff m)

-- A `Clean` that returns gives the number of entries that it removed.
pub clean-count :
    (now older_than : ℤ) (m : MemoryTxStore) → Removes (length m.store) (clean now older_than m)
unfolding clean
clean-count now older_than m =
    rw (purge-eq (cutoff_at now older_than) m.store) (elim (Bool-cases (has_nil m.store)) [
      | inl e ↦ rw e tt
      | inr e ↦ rw e (swept-counted (cutoff_at now older_than) m.store e)
    ])

-- The in-memory store as the adapters see it: no operation of it fails.
pub get-set_memory :
    (k j : Str) (s : TxState) (m : MemoryTxStore)
    → some (get j (set k (some s) m)) ≡ (if str_eq k j then some (some s) else some (get j m))
get-set_memory k j s m =
    rw (ap (λ (v : View). v j) (set-Runs k (some s) m))
      (elim (Bool-cases (str_eq k j)) [ inl e ↦ rw e refl | inr e ↦ rw e refl ])

abbrev pub memory_tx_store : TxStore
memory_tx_store = record {
  Store = MemoryTxStore;
  get = λ k m. some (get k m);
  set = λ k s m. (set k (some s) m, true);
  get-set = get-set_memory;
}
