-- ===== src/Provider.antt =====
-- internal/provider: the configurations of the hosted providers (config.go) and the registry that
-- makes and caches providers from them (registry.go). The interface of a provider is a parameter.
pub mod Priority
pub mod Config
pub mod Registry
use arc_signv.Common.{ℕ, Bool, List, [], ◌∷◌, Option, none, some, if◌then◌else◌}
use arc_signv.Common.Text.{Str}
use arc_signv.Common.Int.{ℤ}
use arc_signv.Common.Dict.{Dict}

-- Times are nanoseconds since Go's zero time.
pub record ProviderConfig : Type 0 where
  pub provider_type : Str
  pub api_key : Str
  pub chain_id : Str
  pub network_id : Str
  pub custom_endpoint : Str
  pub priority : ℤ
  pub enabled : Bool
  pub created_at : ℤ
  pub updated_at : ℤ

-- The values of a map, in the order of its list.
unfoldable pub values : Dict ProviderConfig → List ProviderConfig
values [] = []
values ((k, c) ∷ m) = c ∷ values m
