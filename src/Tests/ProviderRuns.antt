-- ===== src/Tests/ProviderRuns.antt =====
-- Runs of internal/provider with toy libraries and providers that are named by numbers.
use mathlib.Core.List.Perm
use mathlib.Core.List.{Perm, Mem}
use arc_signv.Common.{
  ℕ, ◌≡◌, ◌⊎◌, ◌&&◌, refl, true, false, List, [], ◌∷◌, some, if◌then◌else◌, ◌==◌, select,
}
use arc_signv.Common.Text.{Str, codes, str_eq}
use arc_signv.Common.Int.{ℤ, pos, ◌≤ℤ◌}
use arc_signv.Common.Dict.{Dict, lookup, insert}
use arc_signv.Chain.{GoError, ok, err, plain}
use arc_signv.Provider.{ProviderConfig, values}
use arc_signv.Provider.Priority.{sort_configs_by_priority}
use arc_signv.Provider.Config.{
  ProviderConfigStore, Codec, Stored, no_file, file_of, stamped, put, set, get, get_best_provider,
  get_all_for_chain, new_provider_config_store, check_config,
}
use arc_signv.Provider.Config.Best.{get_best_provider_lem}
use arc_signv.Provider.Config.Saved.{ReadsBack, good_answers, set-survives}
use arc_signv.Provider.Registry.{
  ProviderRegistry, Health, cache_key, create_provider, get_provider, get_provider_with_fallback,
  attempt, try_each,
}
use arc_signv.Provider.Registry.Cache.{get_provider_once}
use arc_signv.Tests.CryptoRuns.{toy_library, toy-Documented, some_salt, some_nonce}

abbrev config : Str → Str → ℤ → ProviderConfig
config provider_type api_key priority = record {
  provider_type = provider_type;
  api_key = api_key;
  chain_id = codes "eth";
  network_id = codes "main";
  custom_endpoint = [];
  priority = priority;
  enabled = true;
  created_at = pos 0;
  updated_at = pos 0;
}

abbrev alchemy : ProviderConfig
alchemy = config (codes "alchemy") (codes "k1") (pos 10)

abbrev infura : ProviderConfig
infura = config (codes "infura") (codes "k2") (pos 20)

abbrev providers_of_eth : Dict ProviderConfig
providers_of_eth = (codes "alchemy", alchemy) ∷ (codes "infura", infura) ∷ []

abbrev two_providers : ProviderConfigStore
two_providers = record { configs = (codes "eth", providers_of_eth) ∷ []; password = codes "pw" }

sort_run :
    sort_configs_by_priority (alchemy ∷ infura ∷ alchemy ∷ []) ≡ infura ∷ alchemy ∷ alchemy ∷ []
unfolding sort_configs_by_priority
sort_run = refl

-- The colliding keys of two different chains.
keys_collide :
    cache_key (codes "p") (codes "a-b") (codes "c")
    ≡ cache_key (codes "p") (codes "a") (codes "b-c")
unfolding cache_key
keys_collide = refl

get_best_provider_lem_example :
    ((c : ProviderConfig) × (get_best_provider values (codes "eth") two_providers ≡ ok c)
      × Mem c (values providers_of_eth)
      × (c.enabled ≡ true)
      × ((d : ProviderConfig)
          → Mem d (values providers_of_eth)
          → d.enabled ≡ true
          → d.priority ≤ℤ c.priority))
    ⊎ ((e : GoError) × (get_best_provider values (codes "eth") two_providers ≡ err e)
        × ((d : ProviderConfig) → Mem d (values providers_of_eth) → d.enabled ≡ false))
unfolding lookup str_eq
get_best_provider_lem_example =
    get_best_provider_lem values (codes "eth") two_providers providers_of_eth (Perm.refl _) refl

-- Factories number the providers; the second provider alone is healthy.
abbrev numbered : ProviderRegistry ℕ
numbered = record {
  factories = (codes "alchemy", λ c. ok 1) ∷ (codes "infura", λ c. ok 2) ∷ [];
  providers = [];
}

abbrev only_first : Health ℕ
only_first n p = if p == 1 then ok tt else err (plain (codes "down"))

fallback_run :
    (get_provider_with_fallback values only_first (codes "eth") two_providers numbered).1 ≡ ok 1
unfolding get_provider_with_fallback get_all_for_chain select attempt try_each get_provider
    sort_configs_by_priority lookup insert str_eq values cache_key
fallback_run = refl

abbrev with_infura : ProviderRegistry ℕ
with_infura = record numbered { providers = (codes "infura-eth-main", 2) ∷ [] }

get_provider_once_example :
    (get_provider (some infura) with_infura ≡ (with_infura, ok 2))
    × (create_provider infura with_infura ≡ (with_infura, ok 2))
unfolding get_provider create_provider lookup insert str_eq cache_key
get_provider_once_example = get_provider_once infura infura numbered with_infura 2 refl refl

abbrev written : ProviderConfigStore
written = record two_providers { configs = put (stamped (pos 7) alchemy) two_providers.configs }

-- It writes one text and reads one structure.
abbrev toy_codec : Codec
toy_codec = record { marshal = λ f. ok (codes "{}"); unmarshal = λ b. ok (file_of (pos 7) written) }

toy-ReadsBack : ReadsBack toy_codec (file_of (pos 7) written)
toy-ReadsBack = record {
  json = codes "{}";
  parsed = file_of (pos 7) written;
  written = refl;
  read = refl;
  same_version = refl;
  same_maps = λ chain_id provider_type. refl;
}

set-survives_example :
    (s' : ProviderConfigStore) × (file' : Stored) × (t : ProviderConfigStore) × (set toy_library
        toy_codec
        (good_answers some_salt some_nonce)
        (pos 7)
        alchemy
        two_providers
        no_file
      ≡ (s', file', ok tt))
    × (new_provider_config_store toy_library toy_codec file' (codes "pw") ≡ ok t)
    × (get (codes "eth") (codes "alchemy") t ≡ ok (stamped (pos 7) alchemy))
    × ((chain_id provider_type : Str) (d : ProviderConfig)
        → (str_eq (codes "eth") chain_id && str_eq (codes "alchemy") provider_type) ≡ false
        → get chain_id provider_type two_providers ≡ ok d
        → get chain_id provider_type t ≡ ok d)
unfolding check_config str_eq
set-survives_example =
    set-survives toy_library toy_codec some_salt some_nonce (pos 7) alchemy two_providers no_file
      toy-Documented toy-ReadsBack refl refl refl
