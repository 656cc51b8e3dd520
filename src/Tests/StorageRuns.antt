-- ===== src/Tests/StorageRuns.antt =====
-- Runs of the transaction stores.
use arc_signv.Common.{◌≡◌, refl, true, false, [], ◌∷◌, none, some, inl}
use arc_signv.Common.Text.{codes, str_eq}
use arc_signv.Common.Int.{pos, ◌+ℤ◌}
use arc_signv.Common.Word.{sub64}
use arc_signv.Common.Dict.{Distinct, insert, lookup}
use arc_signv.Chain.{GoError, new_retryable_error}
use arc_signv.Storage.Memory.{MemoryTxStore, clean, copy_state, cutoff_at, list, set}
use arc_signv.Storage.Refinement.{Runs, has_nil, run_op, cleans, view-run_op}
use arc_signv.Storage.Sorted.{sort_newest, newer}
use arc_signv.Storage.File.{
  Disk, FileTxStore, StateJson, no_file, returns, panics, new_file_tx_store,
}
use arc_signv.Storage.File
use arc_signv.Storage.File.Durability.{IsAtomic, write-IsAtomic, set-reload}
use arc_signv.Tests.Values.{old_state, new_state, good_disk}

abbrev two_states : MemoryTxStore
two_states = record { store = (codes "a", some old_state) ∷ (codes "b", some new_state) ∷ [] }

two_states-Distinct : Distinct two_states.store
unfolding lookup str_eq
two_states-Distinct = (refl, (refl, tt))

list_run : list two_states ≡ some (some new_state ∷ some old_state ∷ [])
unfolding list sort_newest newer
list_run = refl

clean_run :
    clean (pos 100) (pos 50) two_states
    ≡ some (record { store = (codes "b", some new_state) ∷ [] }, 1)
unfolding clean cutoff_at ◌+ℤ◌ sub64
clean_run = refl

-- A nil state, as `Set` stores it when it is given none, makes `Clean` panic.
nil_run : run_op (cleans (pos 100) (pos 50)) (set (codes "c") none two_states) ≡ none
unfolding run_op clean set str_eq insert
nil_run = refl

view-run_op_example :
    Runs (cleans (pos 100) (pos 50)) two_states (run_op (cleans (pos 100) (pos 50)) two_states)
view-run_op_example = view-run_op (cleans (pos 100) (pos 50)) two_states two_states-Distinct

-- JSON that knows one text, `{}`, for one map.
abbrev toy_json : StateJson
toy_json = record {
  marshal = λ m. some (codes "{}");
  unmarshal = λ s. some (some ((codes "a", some old_state) ∷ []));
}

write-IsAtomic_example :
    IsAtomic toy_json no_file false (
      File.set toy_json good_disk (codes "a") (some old_state) (record { store = some [] }) no_file)
    × IsAtomic toy_json no_file false
        (File.delete toy_json good_disk (codes "a") (record { store = some [] }) no_file)
    × IsAtomic toy_json no_file false
        (File.clean toy_json good_disk (pos 100) (pos 50) (record { store = some [] }) no_file)
unfolding has_nil
write-IsAtomic_example =
    write-IsAtomic toy_json good_disk (codes "a") (some old_state) (pos 100) (pos 50)
      (record { store = some [] }) no_file

set-reload_example :
    (f' : FileTxStore) × (c' : File.Contents) × (File.set toy_json good_disk
        (codes "a")
        (some old_state)
        (record { store = some [] })
        no_file
      ≡ returns f' c' tt none)
    × (new_file_tx_store toy_json true c' ≡ inl f')
    × (File.get (codes "a") f' ≡ some old_state)
unfolding insert copy_state
set-reload_example =
    set-reload toy_json good_disk (codes "a") (some old_state) [] no_file refl
      (b'{', codes "}", refl, refl)

abbrev full_disk : Disk
full_disk = record good_disk { writes_tmp = false }

abbrev timeout_error : GoError
timeout_error = new_retryable_error (codes "ERR_RPC_TIMEOUT") (codes "slow") none none
