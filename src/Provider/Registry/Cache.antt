-- ===== src/Provider/Registry/Cache.antt =====
-- The cache of internal/provider/registry.go: one instance for each key.
use arc_signv.Common.{◌≡◌, ap, ◌∙◌, some, arith}
use arc_signv.Common.Dict.{lookup, lookup-insert_self}
use arc_signv.Chain.{ok}
use arc_signv.Provider.{ProviderConfig}
use arc_signv.Provider.Registry.{ProviderRegistry, key_of, create_provider, get_provider}

module _ {P : Type 0} (c : ProviderConfig) (r : ProviderRegistry P) where
  get_cached :
      (p : P) → lookup (key_of c) r.providers ≡ some p → get_provider (some c) r ≡ (r, ok p)
  unfolding get_provider
  get_cached p e = rw (get_provider, e)

  create_cached : (p : P) → lookup (key_of c) r.providers ≡ some p → create_provider c r ≡ (r, ok p)
  unfolding create_provider
  create_cached p e = rw (create_provider, e)

  -- A provider that was returned is in the cache.
  create-caches :
      (r' : ProviderRegistry P) (p : P)
      → create_provider c r ≡ (r', ok p)
      → lookup (key_of c) r'.providers ≡ some p
  unfolding create_provider
  create-caches r' p e = ground (arith, lookup-insert_self (key_of c) p r.providers)

  get-caches :
      (r' : ProviderRegistry P) (p : P)
      → get_provider (some c) r ≡ (r', ok p)
      → lookup (key_of c) r'.providers ≡ some p
  unfolding get_provider
  get-caches r' p e = ground (arith, create-caches r' p)

-- A provider that `GetProvider` returns is the only instance for its key: until the cache is changed,
-- a call with any configuration of the same type, chain and network in the key returns that instance,
-- whatever its other fields and factory are, and changes nothing. So does a second caller that found
-- nothing before and gets the write lock after.
pub get_provider_once :
    {P : Type 0} (c c' : ProviderConfig) (r r' : ProviderRegistry P) (p : P)
    → get_provider (some c) r ≡ (r', ok p)
    → key_of c' ≡ key_of c
    → (get_provider (some c') r' ≡ (r', ok p)) × (create_provider c' r' ≡ (r', ok p))
get_provider_once c c' r r' p made same =
    let held = ap (λ k. lookup k r'.providers) same ∙ get-caches c r r' p made in
    (get_cached c' r' p held, create_cached c' r' p held)
