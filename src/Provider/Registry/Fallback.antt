-- ===== src/Provider/Registry/Fallback.antt =====
-- GetProviderWithFallback of internal/provider/registry.go: which provider it ends with.
use arc_signv.Common.{ℕ, suc, ◌≡◌, ◌⊎◌, List, [], ◌∷◌, ◌++◌}
use arc_signv.Common.Dict.{Dict}
use arc_signv.Chain.{GoError, Result, ok, err}
use arc_signv.Provider.{ProviderConfig}
use arc_signv.Provider.Registry.{ProviderRegistry, Health, attempt}

module _ {P : Type 0} (health : Health P) where
  -- Attempts that all fail, one for each configuration of the list in turn, from one registry and
  -- round to another.
  pub data AllFail
      : List ProviderConfig → ℕ → ProviderRegistry P → ℕ → ProviderRegistry P → Type 0 where
    done : (n : ℕ) (r : ProviderRegistry P) → AllFail [] n r n r
    fails :
        (c : ProviderConfig) (cs : List ProviderConfig) (n m : ℕ) (r r' r'' : ProviderRegistry P)
        (e : GoError)
        → attempt health c n r ≡ (r', err e)
        → AllFail cs (suc n) r' m r''
        → AllFail (c ∷ cs) n r m r''

  -- The first configuration of the list whose attempt succeeds, after those before it failed.
  pub record Found (cs : List ProviderConfig) (n : ℕ) (r r' : ProviderRegistry P) (p : P)
      : Type 0 where
    pub before : List ProviderConfig
    pub chosen : ProviderConfig
    pub after : List ProviderConfig
    pub round : ℕ
    pub reached : ProviderRegistry P
    pub split : cs ≡ before ++ chosen ∷ after
    pub failed : AllFail before n r round reached
    pub serves : attempt health chosen round reached ≡ (r', ok p)

  -- How the loop ends.
  abbrev pub Ends :
      List ProviderConfig → ℕ → ProviderRegistry P → ProviderRegistry P × Result P → Type 0
  Ends cs n r result =
      ((r' : ProviderRegistry P) × (p : P) × (result ≡ (r', ok p)) × Found cs n r r' p)
      ⊎ ((r' : ProviderRegistry P) × (e : GoError) × (m : ℕ) × (result ≡ (r', err e))
          × AllFail cs n r m r')
