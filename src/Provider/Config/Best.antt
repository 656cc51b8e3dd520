-- ===== src/Provider/Config/Best.antt =====
-- GetBestProvider of internal/provider/config.go, in whatever order the map is read.
use mathlib.Core.Path.{subst}
use mathlib.Core.List.Perm
use mathlib.Core.List.{Perm, Mem, mem-cons_self, mem-cons_of_mem}
use native.Mathlib.Bridge.{le_prop}
use arc_signv.Common.{
  Option-cases, ◌≡◌, refl, ◌⊎◌, inl, inr, Bool, true, false, List, [], ◌∷◌, Option, none, some,
  if◌then◌else◌, All, All→Mem, arith,
}
use arc_signv.Common.Text.{Str}
use arc_signv.Common.Int.{◌≤ℤ◌, ltb_ℤ}
use arc_signv.Common.Dict.{Dict, lookup}
use arc_signv.Chain.{GoError, ok, err}
use arc_signv.Provider.{ProviderConfig, values}
use arc_signv.Provider.Config.{ProviderConfigStore, better, best_of, get_best_provider, no_enabled}

NotAbove : ProviderConfig → ProviderConfig → Type 0
NotAbove c d = d.enabled ≡ true → d.priority ≤ℤ c.priority

abbrev NotAboveStart : ProviderConfig → Option ProviderConfig → Type 0
NotAboveStart c none = Unit
NotAboveStart c (some b) = b.priority ≤ℤ c.priority

-- The loop's result, by where it started and the list it went through.
abbrev Settles : Option ProviderConfig → List ProviderConfig → Option ProviderConfig → Type 0
Settles start cs none = (start ≡ none) × All (λ d. d.enabled ≡ false) cs
Settles start cs (some c) =
    ((start ≡ some c) ⊎ (Mem c cs × (c.enabled ≡ true)))
    × NotAboveStart c start
    × All (NotAbove c) cs

module _ (c : ProviderConfig) (cs : List ProviderConfig) where
  skip-Settles :
      (start r : Option ProviderConfig)
      → c.enabled ≡ false
      → Settles start cs r
      → Settles start (c ∷ cs) r
  unfolding NotAbove
  skip-Settles start none off s = (s.0, (off, s.1))
  skip-Settles start (some d) off (inl e, low, all) = (inl e, low, ((λ on. cc), all))
  skip-Settles start (some d) off (inr (m, on), low, all) =
      (inr (mem-cons_of_mem c m, on), low, ((λ on'. cc), all))

  keep-Settles :
      (b : ProviderConfig) (r : Option ProviderConfig)
      → c.priority ≤ℤ b.priority
      → Settles (some b) cs r
      → Settles (some b) (c ∷ cs) r
  unfolding NotAbove
  keep-Settles b none le s = absurd (cc (s.0))
  keep-Settles b (some d) le (inl e, low, all) = (inl e, low, ((λ on. omega arith), all))
  keep-Settles b (some d) le (inr (m, on), low, all) =
      (inr (mem-cons_of_mem c m, on), low, ((λ on'. omega arith), all))

  placed :
      (d : ProviderConfig)
      → c.enabled ≡ true
      → (some c ≡ some d) ⊎ (Mem d cs × (d.enabled ≡ true))
      → Mem d (c ∷ cs) × (d.enabled ≡ true)
  placed d on (inl e) =
      let same : c ≡ d = cc in
      subst (λ x. Mem x (c ∷ cs) × (x.enabled ≡ true)) same (mem-cons_self, on)
  placed d on (inr (m, on')) = (mem-cons_of_mem c m, on')

  take-Settles :
      (start r : Option ProviderConfig)
      → c.enabled ≡ true
      → NotAboveStart c start
      → Settles (some c) cs r
      → Settles start (c ∷ cs) r
  unfolding NotAbove
  take-Settles start none on low s = absurd (cc (s.0))
  take-Settles none (some d) on low (w, l, all) = (inr (placed d on w), tt, ((λ on. l), all))
  take-Settles (some b) (some d) on low (w, l, all) =
      (inr (placed d on w), omega arith, ((λ on. l), all))

  better-Settles :
      (b : ProviderConfig) (test : Bool)
      → c.enabled ≡ true
      → ltb_ℤ b.priority c.priority ≡ test
      → ((next : Option ProviderConfig) → Settles next cs (best_of cs next))
      → Settles (some b) (c ∷ cs) (best_of cs (if test then some c else some b))
  better-Settles b true on e rest = take-Settles (some b) _ on (ground arith) (rest (some c))
  better-Settles b false on e rest = keep-Settles b _ (ground arith) (rest (some b))

  round-Settles :
      (start : Option ProviderConfig) (test : Bool)
      → c.enabled ≡ test
      → ((next : Option ProviderConfig) → Settles next cs (best_of cs next))
      → Settles start (c ∷ cs) (best_of cs (if test then better c start else start))
  round-Settles start false off rest = skip-Settles start _ off (rest start)
  round-Settles none true on rest = take-Settles none _ on tt (rest (some c))
  round-Settles (some b) true on rest = better-Settles b _ on refl rest

best_of-Settles :
    (cs : List ProviderConfig) (start : Option ProviderConfig) → Settles start cs (best_of cs start)
unfolding best_of
best_of-Settles [] none = (refl, tt)
best_of-Settles [] (some b) = (inl refl, omega arith, tt)
best_of-Settles (c ∷ cs) start = round-Settles c cs start c.enabled refl (best_of-Settles cs)

NotAbove-prop : (c d : ProviderConfig) → IsProp (NotAbove c d)
unfolding NotAbove
NotAbove-prop c d = hlevel (le_prop)

picked :
    (c : ProviderConfig) (cs : List ProviderConfig)
    → (none ≡ some c) ⊎ (Mem c cs × (c.enabled ≡ true))
    → Mem c cs × (c.enabled ≡ true)
picked c cs (inl e) = cc
picked c cs (inr placed) = placed

-- Whatever the order in which the map of a chain is read, `GetBestProvider` returns one of its enabled
-- configurations, of the highest priority among these; or it fails, and none of them is enabled.
pub get_best_provider_lem :
    (range : Dict ProviderConfig → List ProviderConfig) (chain_id : Str) (s : ProviderConfigStore)
    (m : Dict ProviderConfig)
    → Perm (range m) (values m)
    → lookup chain_id s.configs ≡ some m
    → ((c : ProviderConfig) × (get_best_provider range chain_id s ≡ ok c)
        × Mem c (values m)
        × (c.enabled ≡ true)
        × ((d : ProviderConfig) → Mem d (values m) → d.enabled ≡ true → d.priority ≤ℤ c.priority))
      ⊎ ((e : GoError) × (get_best_provider range chain_id s ≡ err e)
          × ((d : ProviderConfig) → Mem d (values m) → d.enabled ≡ false))
unfolding get_best_provider NotAbove
get_best_provider_lem range chain_id s m p found =
    let settled = best_of-Settles (range m) none in
    elim (Option-cases (best_of (range m) none)) [
      | inl e ↦
          let (_, off) = rw e at settled in
          inr (
            no_enabled chain_id,
            rw (get_best_provider, found, e),
            λ d i.
                All→Mem (λ c. c.enabled ≡ false) (λ c. hlevel) (range m) off d
                  ((Perm.mem_iff p).1 i),
          )
      | inr (c, e) ↦
          let (place, _, above) = rw e at settled in
          inl (
            c,
            rw (get_best_provider, found, e),
            (Perm.mem_iff p).0 (picked c (range m) place).0,
            (picked c (range m) place).1,
            λ d i. All→Mem (NotAbove c) (NotAbove-prop c) (range m) above d ((Perm.mem_iff p).1 i),
          )
    ]
