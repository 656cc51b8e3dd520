-- ===== src/Storage/File/Durability.antt =====
-- What the file-based store keeps on disk and in memory, over every answer of the operating system.
use arc_signv.Common.{
  ℕ, ◌≡◌, ◌≢◌, refl, ap, sym, ◌∙◌, not, Bool, Bool-cases, true, false, ◌∷◌, Option, none, some,
  arith, ◌⊎◌, inl, inr, if◌then◌else◌,
}
use arc_signv.Common.Text.{Str, str_eq}
use arc_signv.Common.Int.{ℤ}
use arc_signv.Common.Dict.{lookup, insert, lookup-insert_self}
use arc_signv.Storage.{TxState, TxStore}
use arc_signv.Storage.Memory.{States, MemoryTxStore, copy_state, purge, cutoff_at}
use arc_signv.Storage.Memory
use arc_signv.Storage.Refinement.{copy-eq, get-set_memory, has_nil, purge-eq, swept, counted, view}
use arc_signv.Storage.File.{
  StateJson, Contents, bytes, FileTxStore, Disk, Fault, mkdir_failed, Outcome, returns, panics,
  new_file_tx_store, persist, persisted, purged, entries, is_good, marshal_failed, write_failed,
  rename_failed, get, set, delete, clean,
}

-- `Set` panics on a nil map.
abbrev pub is_nil : Option States → Bool
is_nil none = true
is_nil (some m) = false

-- `Clean` panics on a nil state.
abbrev pub holds_nil : Option States → Bool
holds_nil none = false
holds_nil (some m) = has_nil m

module _ (json : StateJson) where
  -- The file is untouched and an error is returned, or it holds the encoded state in memory and there
  -- is none; and the method panics exactly where it is said to.
  abbrev pub IsAtomic {ℓ} : {A : Type ℓ} → Contents → Bool → Outcome A → Type 0
  IsAtomic c fails panics = fails ≡ true
  IsAtomic c fails (returns f c' a e) =
      (fails ≡ false)
      × (((c' ≡ c) × (e ≢ none))
          ⊎ ((text : Str) × (json.marshal f.store ≡ some text) × (c' ≡ bytes text) × (e ≡ none)))

  written-IsAtomic {ℓ} :
      {A : Type ℓ} (d : Disk) (f : FileTxStore) (c : Contents) (a : A) (dir : Bool)
      (coded : Option Str)
      → d.makes_dir ≡ dir
      → json.marshal f.store ≡ coded
      → IsAtomic c false (persisted f a (persist json d f c))
  unfolding persist
  written-IsAtomic d f c a false coded e h = rw e (refl, inl (refl, λ k. cc))
  written-IsAtomic d f c a true none e h = rw (e, h) (refl, inl (refl, λ k. cc))
  written-IsAtomic d f c a true (some text) e h = rw (e, h) (ground arith)

  persist-IsAtomic {ℓ} :
      {A : Type ℓ} (d : Disk) (f : FileTxStore) (c : Contents) (a : A)
      → IsAtomic c false (persisted f a (persist json d f c))
  persist-IsAtomic d f c a = written-IsAtomic d f c a d.makes_dir (json.marshal f.store) refl refl

  purged-IsAtomic :
      (d : Disk) (now older_than : ℤ) (m : States) (c : Contents)
      → IsAtomic c (has_nil m) (purged json d c (purge (cutoff_at now older_than) m))
  unfolding purged
  purged-IsAtomic d now older_than m c =
      rw (purge-eq (cutoff_at now older_than) m) (elim (Bool-cases (has_nil m)) [
        | inl e ↦ rw e refl
        | inr e ↦ rw e (
            persist-IsAtomic {0} {A = ℕ} d
              (record { store = some (swept (cutoff_at now older_than) m) }) c
              (counted (cutoff_at now older_than) m))
      ])

  write_store-IsAtomic :
      (d : Disk) (k : Str) (s : Option TxState) (now older_than : ℤ) (m : Option States)
      (c : Contents)
      → IsAtomic c (is_nil m) (set json d k s (record { store = m }) c)
        × IsAtomic c false (delete json d k (record { store = m }) c)
        × IsAtomic c (holds_nil m) (clean json d now older_than (record { store = m }) c)
  unfolding set delete clean
  write_store-IsAtomic d k s now older_than none c =
      (refl, persist-IsAtomic {0} d _ c tt, persist-IsAtomic {0} {A = ℕ} d _ c 0)
  write_store-IsAtomic d k s now older_than (some m) c = (
    persist-IsAtomic {0} d _ c tt,
    persist-IsAtomic {0} d _ c tt,
    purged-IsAtomic d now older_than m c,
  )

  -- `Set`, `Delete` and `Clean` write the whole state, as it is encoded, to disk or leave the file as
  -- it was, and they return an error exactly in the second case, whichever step of `persist` fails.
  -- Two of them can panic instead: `Set` does so exactly on a nil map, `Clean` exactly where a stored
  -- state is nil.
  pub write-IsAtomic :
      (d : Disk) (k : Str) (s : Option TxState) (now older_than : ℤ) (f : FileTxStore)
      (c : Contents)
      → IsAtomic c (is_nil f.store) (set json d k s f c)
        × IsAtomic c false (delete json d k f c)
        × IsAtomic c (holds_nil f.store) (clean json d now older_than f c)
  write-IsAtomic d k s now older_than f c = write_store-IsAtomic d k s now older_than f.store c

  -- What JSON does for one map: the text that it writes is not empty, and reads as the map.
  abbrev pub ReadsBack : Option States → Type 0
  ReadsBack m =
      (b : ℕ) × (rest : Str) × (json.marshal m ≡ some (b ∷ rest))
      × (json.unmarshal (b ∷ rest) ≡ some m)

  -- The state in memory as `Get` reads it.
  get-view :
      (k : Str) (m : States) → get k (record { store = some m }) ≡ view (record { store = m }) k
  unfolding get Memory.get
  get-view k m = refl

  get-set_self :
      (k : Str) (s : Option TxState) (m : States)
      → get k (record { store = some (insert k (copy_state s) m) }) ≡ s
  unfolding get
  get-set_self k s m =
      rw (get, lookup-insert_self k (copy_state s) m) (ap copy_state (copy-eq s) ∙ copy-eq s)

  persist-good :
      (d : Disk) (f : FileTxStore) (c : Contents) (text : Str)
      → is_good d ≡ true
      → json.marshal f.store ≡ some text
      → persist json d f c ≡ (bytes text, none)
  unfolding persist
  persist-good d f c text good wrote = ground arith

  -- Where every step of the operating system succeeds, and JSON reads back the map that is written, a
  -- `Set` returns no error, a store that is opened again from the file has the map that is in memory,
  -- and it answers with the state just set.
  pub set-reload :
      (d : Disk) (k : Str) (s : Option TxState) (m : States) (c : Contents)
      → is_good d ≡ true
      → ReadsBack (some (insert k (copy_state s) m))
      → (f' : FileTxStore) × (c' : Contents) × (set json d k s (record { store = some m }) c
          ≡ returns f' c' tt none)
        × (new_file_tx_store json true c' ≡ inl f')
        × (get k f' ≡ s)
  unfolding set persist new_file_tx_store
  set-reload d k s m c good (b, rest, wrote, reads) = (
    record { store = some (insert k (copy_state s) m) },
    bytes (b ∷ rest),
    ap (persisted (record { store = some (insert k (copy_state s) m) }) tt)
        (persist-good d _ c (b ∷ rest) good wrote),
    rw reads refl,
    get-set_self k s m,
  )

  -- The first step of `persist` that fails.
  fault : Disk → FileTxStore → Fault
  fault d f = if not d.makes_dir then mkdir_failed else elim (json.marshal f.store) [
    | none ↦ marshal_failed
    | some text ↦ if not d.writes_tmp then write_failed else rename_failed
  ]

  persist-fault :
      (d : Disk) (f : FileTxStore) (c : Contents)
      → is_good d ≡ false
      → persist json d f c ≡ (c, some (fault d f))
  unfolding persist fault
  persist-fault d f c bad = ground arith

  -- A failed `Set` is still visible: the state in memory has the new value, the file the old ones.
  pub set_fails_visibly :
      (d : Disk) (k : Str) (s : Option TxState) (m : States) (c : Contents)
      → is_good d ≡ false
      → (f' : FileTxStore) × (e : Fault) × (set json d k s (record { store = some m }) c
          ≡ returns f' c tt (some e))
        × (get k f' ≡ s)
  unfolding set
  set_fails_visibly d k s m c bad =
      let f' : FileTxStore = record { store = some (insert k (copy_state s) m) } in
      (f', fault d f', ap (persisted f' tt) (persist-fault d f' c bad), get-set_self k s m)

  -- A file that holds the JSON text `null` opens without an error, as a store whose `Get` finds
  -- nothing and whose `Set` panics on every argument.
  pub null_file_panics :
      (b : ℕ) (rest : Str) (f : FileTxStore)
      → json.unmarshal (b ∷ rest) ≡ some none
      → new_file_tx_store json true (bytes (b ∷ rest)) ≡ inl f
      → (d : Disk) (k : Str) (s : Option TxState) (c : Contents)
      → (get k f ≡ none) × (set json d k s f c ≡ panics)
  unfolding new_file_tx_store set get lookup
  null_file_panics b rest f reads e d k s c =
      let opens : new_file_tx_store json true (bytes (b ∷ rest)) ≡ inl (record { store = none }) =
        rw (new_file_tx_store, reads) refl in
      let same : inl (record { store = none }) ≡ inl f = sym opens ∙ e in
      let empty : f.store ≡ none = ground arith in (rw (get, empty) refl, rw (set, empty) refl)

-- The file-based store as the adapters see it, over a disk that answers alike every time. Its states
-- are the map in memory and the file.
stored : States × Contents → Outcome (Unit {0}) → (States × Contents) × Bool
stored st panics = (st, false)
stored st (returns f c _ none) = ((entries f, c), true)
stored st (returns f c _ (some e)) = ((entries f, c), false)

file_set : StateJson → Disk → Str → TxState → States × Contents → (States × Contents) × Bool
unfolding set stored
file_set json d k s (m, c) = stored (m, c) (set json d k (some s) (record { store = some m }) c)

stored-entries :
    (st : States × Contents) (f : FileTxStore) (written : Contents × Option Fault)
    → (stored st (persisted {0} f tt written)).0.0 ≡ entries f
unfolding stored
stored-entries st f (c, none) = refl
stored-entries st f (c, some e) = refl

file_set-entries :
    (json : StateJson) (d : Disk) (k : Str) (s : TxState) (st : States × Contents)
    → (file_set json d k s st).0.0 ≡ insert k (some s) st.0
unfolding file_set copy_state set
file_set-entries json d k s (m, c) =
    stored-entries (m, c) (record { store = some (insert k (some s) m) })
      (persist json d (record { store = some (insert k (some s) m) }) c)

file_get-set :
    (json : StateJson) (d : Disk) (k j : Str) (s : TxState) (st : States × Contents)
    → some (get j (record { store = some (file_set json d k s st).0.0 }))
      ≡ (if str_eq k j then some (some s) else some (get j (record { store = some st.0 })))
unfolding get Memory.get Memory.set copy_state
file_get-set json d k j s st =
    rw (file_set-entries json d k s st) (get-set_memory k j s (record { store = st.0 }))

pub file_tx_store : StateJson → Disk → TxStore
file_tx_store json d = record {
  Store = States × Contents;
  get = λ k st. some (get k (record { store = some st.0 }));
  set = file_set json d;
  get-set = file_get-set json d;
}
