-- ===== src/Provider/Registry.antt =====
-- internal/provider/registry.go. Each method that locks is one step; GetProvider, which reads under
-- one lock and creates under another, is two. A provider is a value of a type `P`, made by a factory;
-- its health check is answered anew each time it is asked.
pub mod Cache
pub mod Fallback
use arc_signv.Common.{
  ℕ, suc, Bool, true, false, List, [], ◌∷◌, ◌++◌, Option, none, some, if◌then◌else◌, is_some,
}
use arc_signv.Common.Text.{Str, codes, str_eq}
use arc_signv.Common.Dict.{Dict, lookup, insert, erase, keys}
use arc_signv.Chain.{GoError, Result, ok, err, plain, error_text}
use arc_signv.Provider.{ProviderConfig}
use arc_signv.Provider.Priority.{sort_configs_by_priority}
use arc_signv.Provider.Config.{ProviderConfigStore, get_all_for_chain, get_best_provider}

abbrev pub ProviderFactory : Type 0 → Type 0
ProviderFactory P = ProviderConfig → Result P

pub record ProviderRegistry (P : Type 0) : Type 0 where
  pub factories : Dict (ProviderFactory P)
  pub providers : Dict P

-- What HealthCheck answers, by the round of the loop that asks.
abbrev pub Health : Type 0 → Type 0
Health P = ℕ → P → Result (Unit {0})

-- fmt.Errorf(text + ": %w", err)
abbrev pub wrapped : Str → GoError → GoError
wrapped text e = plain (text ++ codes ": " ++ error_text e)

-- `%s-%s-%s`
unfoldable pub cache_key : Str → Str → Str → Str
cache_key provider_type chain_id network_id =
    provider_type ++ (codes "-" ++ (chain_id ++ (codes "-" ++ network_id)))

abbrev pub key_of : ProviderConfig → Str
key_of c = cache_key c.provider_type c.chain_id c.network_id

abbrev pub unhealthy : ProviderConfig → Str → GoError → GoError
unhealthy c chain_id =
    wrapped (codes "provider " ++ c.provider_type ++ codes " unhealthy for chain " ++ chain_id)

abbrev pub failed_check : ProviderConfig → GoError → GoError
failed_check c = wrapped (codes "provider " ++ c.provider_type ++ codes " failed health check")

abbrev pub all_unhealthy : Str → Option GoError → GoError
all_unhealthy chain_id none =
    plain (codes "all providers unhealthy for chain " ++ chain_id ++ codes ": %!w(<nil>)")
all_unhealthy chain_id (some e) = wrapped (codes "all providers unhealthy for chain " ++ chain_id) e

module _ {P : Type 0} where
  unfoldable pub register_provider :
      Str → Option (ProviderFactory P) → ProviderRegistry P → ProviderRegistry P × Result (Unit {0})
  register_provider provider_type factory r =
      if str_eq provider_type []
      then (r, err (plain (codes "provider type cannot be empty")))
      else elim factory [
        | none ↦ (r, err (plain (codes "provider factory cannot be nil")))
        | some f ↦
            if is_some (lookup provider_type r.factories)
            then (
              r,
              err (plain (codes "provider type " ++ provider_type ++ codes " already registered")),
            )
            else (record r { factories = insert provider_type f r.factories }, ok tt)
      ]

  -- What a factory's answer does to the cache.
  abbrev pub keep_instance :
      ProviderConfig → ProviderRegistry P → Result P → ProviderRegistry P × Result P
  keep_instance c r (ok p) = (record r { providers = insert (key_of c) p r.providers }, ok p)
  keep_instance c r (err e) =
      (r, err (wrapped (codes "failed to create provider " ++ c.provider_type) e))

  -- The part of `GetProvider` under the write lock, the second look into the cache included.
  unfoldable pub create_provider :
      ProviderConfig → ProviderRegistry P → ProviderRegistry P × Result P
  create_provider c r = elim (lookup (key_of c) r.providers) [
    | some p ↦ (r, ok p)
    | none ↦ elim (lookup c.provider_type r.factories) [
      | none ↦
          (r, err (plain (codes "provider type " ++ c.provider_type ++ codes " not registered")))
      | some factory ↦ keep_instance c r (factory c)
    ]
  ]

  -- `GetProvider` with no other call between its two locks. Its argument is a pointer.
  unfoldable pub get_provider :
      Option ProviderConfig → ProviderRegistry P → ProviderRegistry P × Result P
  unfolding create_provider
  get_provider none r = (r, err (plain (codes "provider config is nil")))
  get_provider (some c) r = elim (lookup (key_of c) r.providers) [
    | some p ↦ (r, ok p)
    | none ↦ create_provider c r
  ]

  abbrev pub checked_provider :
      (GoError → GoError)
      → Health P
      → ℕ
      → ProviderRegistry P × Result P
      → ProviderRegistry P × Result P
  checked_provider text health n (r, err e) = (r, err e)
  checked_provider text health n (r, ok p) = elim (health n p) [
    | ok _ ↦ (r, ok p)
    | err e ↦ (r, err (text e))
  ]

  unfoldable pub get_provider_for_chain :
      (Dict ProviderConfig → List ProviderConfig)
      → Health P
      → Str
      → ProviderConfigStore
      → ProviderRegistry P
      → ProviderRegistry P × Result P
  get_provider_for_chain range health chain_id s r = elim (get_best_provider range chain_id s) [
    | err e ↦ (r, err (wrapped (codes "no provider configured for chain " ++ chain_id) e))
    | ok c ↦ checked_provider (unhealthy c chain_id) health 0 (get_provider (some c) r)
  ]

  -- One round of the loop of `GetProviderWithFallback`.
  unfoldable pub attempt :
      Health P → ProviderConfig → ℕ → ProviderRegistry P → ProviderRegistry P × Result P
  attempt health c n r = checked_provider (failed_check c) health n (get_provider (some c) r)

  -- The loop, with the number of rounds so far and the last error.
  unfoldable pub try_each :
      Health P
      → Str
      → List ProviderConfig
      → ℕ
      → Option GoError
      → ProviderRegistry P
      → ProviderRegistry P × Result P
  try_each health chain_id [] n last_err r = (r, err (all_unhealthy chain_id last_err))
  try_each health chain_id (c ∷ cs) n last_err r =
      let (r', answer) = attempt health c n r in
      elim answer [ ok p ↦ (r', ok p) | err e ↦ try_each health chain_id cs (suc n) (some e) r' ]

  unfoldable pub get_provider_with_fallback :
      (Dict ProviderConfig → List ProviderConfig)
      → Health P
      → Str
      → ProviderConfigStore
      → ProviderRegistry P
      → ProviderRegistry P × Result P
  get_provider_with_fallback range health chain_id s r = elim (get_all_for_chain range chain_id s) [
    | err e ↦ (r, err (wrapped (codes "no providers configured for chain " ++ chain_id) e))
    | ok [] ↦ (r, err (plain (codes "no enabled providers for chain " ++ chain_id)))
    | ok (c ∷ cs) ↦ try_each health chain_id (sort_configs_by_priority (c ∷ cs)) 0 none r
  ]

  -- The providers that are closed, and the registry after it.
  unfoldable pub close_all : Dict P → List P
  close_all [] = []
  close_all ((k, p) ∷ m) = p ∷ close_all m

  unfoldable pub clear_cache : ProviderRegistry P → ProviderRegistry P × List P
  unfolding close_all
  clear_cache r = (record r { providers = [] }, close_all r.providers)

  unfoldable pub remove_from_cache :
      Str → Str → Str → ProviderRegistry P → ProviderRegistry P × List P
  remove_from_cache provider_type chain_id network_id r =
      let key = cache_key provider_type chain_id network_id in
      elim (lookup key r.providers) [
        | none ↦ (r, [])
        | some p ↦ (record r { providers = erase key r.providers }, p ∷ [])
      ]

  unfoldable pub list_registered_providers : ProviderRegistry P → List Str
  list_registered_providers r = keys r.factories

  unfoldable pub is_provider_registered : Str → ProviderRegistry P → Bool
  is_provider_registered provider_type r = is_some (lookup provider_type r.factories)
