-- ===== src/Provider/Config.antt =====
-- internal/provider/config.go: the store of provider configurations, a map of maps in memory and one
-- encrypted file. `Set` keeps the caller's pointer; it is taken for a value here, so nothing is said
-- of a caller that changes a configuration after storing it. The temporary file, which nothing reads,
-- is left out, and so are null entries of a file that was written by hand.
pub mod Best
pub mod Saved
use arc_signv.Common.{
  ℕ, Bool, not, List, [], ◌∷◌, ◌++◌, Option, none, some, if◌then◌else◌, length, select, ltb, ◌==◌,
}
use arc_signv.Common.Text.{Str, codes, str_eq}
use arc_signv.Common.Int.{ℤ, pos, ltb_ℤ, eqb_ℤ}
use arc_signv.Common.Dict.{Dict, lookup, insert, erase, keys}
use arc_signv.Chain.{GoError, Result, ok, err, plain, refuse_if, ◌>>=◌, ◌>>◌}
use arc_signv.Crypto.{Bytes, Library, or_wrap, encrypt, decrypt}
use arc_signv.Provider.{ProviderConfig, values}

-- chainID -> providerType -> config
abbrev pub Configs : Type 0
Configs = Dict (Dict ProviderConfig)

-- The path of the file is not part of the state: there is one file.
pub record ProviderConfigStore : Type 0 where
  pub configs : Configs
  pub password : Str

-- A nil map is `none`.
pub record ProviderConfigFile : Type 0 where
  pub version : Str
  pub configs : Option Configs
  pub updated_at : ℤ

-- encoding/json on the file's structure
pub record Codec : Type 0 where
  pub marshal : ProviderConfigFile → Result Bytes
  pub unmarshal : Bytes → Result ProviderConfigFile

-- The file at the store's path as os.ReadFile finds it.
pub data Stored : Type 0 where
  no_file : Stored
  unreadable : GoError → Stored
  contents : Bytes → Stored

-- The answers of the operating system and of rand.Read during one `save`.
pub record Answers : Type 0 where
  pub read_salt : Result Bytes
  pub read_nonce : Result Bytes
  pub makes_dir : Result (Unit {0})
  pub writes_tmp : Result (Unit {0})
  pub renames : Result (Unit {0})

abbrev pub file_of : ℤ → ProviderConfigStore → ProviderConfigFile
file_of now s = record { version = codes "1.0"; configs = some s.configs; updated_at = now }

-- The bytes that `save` gives the file its name for, after every step that can fail.
unfoldable pub saved_bytes :
    {Block : Type 0} → Library Block → Codec → Answers → ℤ → ProviderConfigStore → Result Bytes
saved_bytes lib codec os now s =
    or_wrap (codes "failed to marshal config") (codec.marshal (file_of now s)) >>= λ json.
    or_wrap (codes "failed to encrypt provider config")
      (encrypt lib os.read_salt os.read_nonce json s.password)
    >>= λ sealed.
        or_wrap (codes "failed to create config directory") os.makes_dir
        >> (or_wrap (codes "failed to write temp config") os.writes_tmp
            >> (or_wrap (codes "failed to rename config file") os.renames >> ok sealed))

abbrev pub put_file : Stored → Result Bytes → Stored × Result (Unit {0})
put_file file (ok sealed) = (contents sealed, ok tt)
put_file file (err e) = (file, err e)

-- The rename is the one step that touches the file itself.
unfoldable pub save :
    {Block : Type 0}
    → Library Block
    → Codec
    → Answers
    → ℤ
    → ProviderConfigStore
    → Stored
    → Stored × Result (Unit {0})
save lib codec os now s file = put_file file (saved_bytes lib codec os now s)

-- `os.IsNotExist` of the error is what the caller of `Load` asks.
pub data Loaded : Type 0 where
  missing : Loaded
  failed : GoError → Loaded
  loaded : ProviderConfigStore → Loaded

unfoldable pub parse :
    {Block : Type 0}
    → Library Block
    → Codec
    → Bytes
    → ProviderConfigStore
    → Result ProviderConfigStore
parse lib codec bytes s =
    or_wrap (codes "failed to decrypt provider config") (decrypt lib bytes s.password) >>= λ json.
    or_wrap (codes "failed to parse provider config") (codec.unmarshal json) >>= λ file.
    refuse_if (not (str_eq file.version (codes "1.0")))
      (plain (codes "unsupported config version: " ++ file.version))
    >> ok (record s { configs = elim file.configs [ none ↦ [] | some m ↦ m ] })

abbrev pub to_loaded : Result ProviderConfigStore → Loaded
to_loaded (ok s) = loaded s
to_loaded (err e) = failed e

unfoldable pub load :
    {Block : Type 0} → Library Block → Codec → Stored → ProviderConfigStore → Loaded
load lib codec no_file s = missing
load lib codec (unreadable e) s = failed e
load lib codec (contents bytes) s = to_loaded (parse lib codec bytes s)

-- A file that is not there gives an empty store.
unfoldable pub new_provider_config_store :
    {Block : Type 0} → Library Block → Codec → Stored → Str → Result ProviderConfigStore
unfolding load
new_provider_config_store lib codec file password =
    let empty : ProviderConfigStore = record { configs = []; password = password } in
    elim (load lib codec file empty) [
      | missing ↦ ok empty
      | failed e ↦ or_wrap (codes "failed to load provider config") (err e)
      | loaded s ↦ ok s
    ]

-- The checks of `Set`, in order.
unfoldable pub check_config : ProviderConfig → Result (Unit {0})
check_config c =
    refuse_if (str_eq c.chain_id []) (plain (codes "chain_id is required"))
    >> (refuse_if (str_eq c.provider_type []) (plain (codes "provider_type is required"))
        >> refuse_if (str_eq c.api_key []) (plain (codes "api_key is required")))

unfoldable pub stamped : ℤ → ProviderConfig → ProviderConfig
stamped now c = record c {
  created_at = if eqb_ℤ c.created_at (pos 0) then now else c.created_at;
  updated_at = now;
}

-- The providers of a chain; a missing key reads as a nil map.
abbrev pub of_chain : Str → Configs → Dict ProviderConfig
of_chain chain_id configs = elim (lookup chain_id configs) [ none ↦ [] | some m ↦ m ]

unfoldable pub put : ProviderConfig → Configs → Configs
put c configs = insert c.chain_id (insert c.provider_type c (of_chain c.chain_id configs)) configs

-- A call that ends with `save`: the state in memory, the file and the error.
abbrev pub with_state :
    ProviderConfigStore
    → Stored × Result (Unit {0})
    → ProviderConfigStore × Stored × Result (Unit {0})
with_state s (file, r) = (s, file, r)

unfoldable pub set :
    {Block : Type 0}
    → Library Block
    → Codec
    → Answers
    → ℤ
    → ProviderConfig
    → ProviderConfigStore
    → Stored
    → ProviderConfigStore × Stored × Result (Unit {0})
set lib codec os now c s file = elim (check_config c) [
  | err e ↦ (s, file, err e)
  | ok _ ↦
      let s' = record s { configs = put (stamped now c) s.configs } in
      with_state s' (save lib codec os now s' file)
]

abbrev pub no_providers : Str → GoError
no_providers chain_id = plain (codes "no providers configured for chain: " ++ chain_id)

abbrev pub no_enabled : Str → GoError
no_enabled chain_id = plain (codes "no enabled providers for chain: " ++ chain_id)

-- What the two maps hold: whether the chain has an entry, and what it holds for the type.
unfoldable pub held : Str → Str → Configs → Option (Option ProviderConfig)
held chain_id provider_type configs = elim (lookup chain_id configs) [
  | none ↦ none
  | some m ↦ some (lookup provider_type m)
]

unfoldable pub get : Str → Str → ProviderConfigStore → Result ProviderConfig
unfolding held
get chain_id provider_type s = elim (held chain_id provider_type s.configs) [
  | none ↦ err (no_providers chain_id)
  | some none ↦
      err (
        plain
          (codes "provider " ++ provider_type ++ codes " not configured for chain " ++ chain_id))
  | some (some c) ↦ ok c
]

-- A loop over a Go map meets its values in an order that Go leaves open: `range` gives that order.
unfoldable pub get_all_for_chain :
    (Dict ProviderConfig → List ProviderConfig)
    → Str
    → ProviderConfigStore
    → Result (List ProviderConfig)
get_all_for_chain range chain_id s = elim (lookup chain_id s.configs) [
  | none ↦ err (no_providers chain_id)
  | some m ↦ ok (select (λ c. c.enabled) (range m))
]

-- One round of the loop of `GetBestProvider`.
abbrev pub better : ProviderConfig → Option ProviderConfig → Option ProviderConfig
better c none = some c
better c (some best) = if ltb_ℤ best.priority c.priority then some c else some best

unfoldable pub best_of : List ProviderConfig → Option ProviderConfig → Option ProviderConfig
best_of [] best = best
best_of (c ∷ cs) best = best_of cs (if c.enabled then better c best else best)

unfoldable pub get_best_provider :
    (Dict ProviderConfig → List ProviderConfig) → Str → ProviderConfigStore → Result ProviderConfig
unfolding best_of
get_best_provider range chain_id s = elim (lookup chain_id s.configs) [
  | none ↦ err (no_providers chain_id)
  | some m ↦ elim (best_of (range m) none) [ none ↦ err (no_enabled chain_id) | some c ↦ ok c ]
]

abbrev pub drop_if_empty : Str → Dict ProviderConfig → Configs → Configs
drop_if_empty chain_id [] configs = erase chain_id configs
drop_if_empty chain_id (e ∷ m) configs = insert chain_id (e ∷ m) configs

unfoldable pub delete :
    {Block : Type 0}
    → Library Block
    → Codec
    → Answers
    → ℤ
    → Str
    → Str
    → ProviderConfigStore
    → Stored
    → ProviderConfigStore × Stored × Result (Unit {0})
delete lib codec os now chain_id provider_type s file = elim (lookup chain_id s.configs) [
  | none ↦ (s, file, err (no_providers chain_id))
  | some m ↦
      let s' = record s { configs = drop_if_empty chain_id (erase provider_type m) s.configs } in
      with_state s' (save lib codec os now s' file)
]

unfoldable pub list_chains : ProviderConfigStore → List Str
unfolding keys
list_chains s = keys s.configs

unfoldable pub validate_api_key : ProviderConfig → Result (Unit {0})
validate_api_key c =
    refuse_if (str_eq c.api_key []) (plain (codes "API key is empty"))
    >> (if str_eq c.provider_type (codes "alchemy")
        then refuse_if (ltb (length c.api_key) 20)
            (plain (codes "Alchemy API key appears too short"))
        else if str_eq c.provider_type (codes "infura")
        then refuse_if (not (length c.api_key == 32))
            (plain (codes "Infura project ID should be 32 characters"))
        else if str_eq c.provider_type (codes "quicknode")
        then refuse_if (str_eq c.custom_endpoint [])
            (plain (codes "QuickNode requires custom_endpoint"))
        else ok tt)
