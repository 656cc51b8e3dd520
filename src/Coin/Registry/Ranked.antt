-- ===== src/Coin/Registry/Ranked.antt =====
-- GetAllCoinsSortedByMarketCap of internal/services/coinregistry/registry.go.
use mathlib.Core.List.Perm
use mathlib.Core.List.{Perm}
use arc_signv.Common.{Bool-cases, inl, inr, List, [], ◌∷◌, All, arith}
use arc_signv.Common.Int.{◌≤ℤ◌, ltb_ℤ}
use arc_signv.Coin.{CoinMetadata}
use arc_signv.Coin.Registry.{Registry, place, sort_by_rank, get_all_coins_sorted_by_market_cap}

abbrev NotBefore : CoinMetadata → CoinMetadata → Type 0
NotBefore c d = c.market_cap_rank ≤ℤ d.market_cap_rank

abbrev pub IsRanked : List CoinMetadata → Type 0
IsRanked [] = Unit
IsRanked (c ∷ cs) = All (NotBefore c) cs × IsRanked cs

All-place :
    (b c : CoinMetadata) (ds : List CoinMetadata)
    → NotBefore b c
    → All (NotBefore b) ds
    → All (NotBefore b) (place c ds)
unfolding place
All-place b c [] le all = (le, tt)
All-place b c (d ∷ ds) le all = ground (arith, All-place b c ds)

All-weaken :
    (b c : CoinMetadata) (ds : List CoinMetadata)
    → NotBefore b c
    → All (NotBefore c) ds
    → All (NotBefore b) ds
All-weaken b c [] le all = tt
All-weaken b c (d ∷ ds) le all = (omega (arith, all.0), All-weaken b c ds le all.1)

place-IsRanked : (c : CoinMetadata) (ds : List CoinMetadata) → IsRanked ds → IsRanked (place c ds)
unfolding place
place-IsRanked c [] ranked = (tt, tt)
place-IsRanked c (d ∷ ds) ranked = elim (Bool-cases (ltb_ℤ d.market_cap_rank c.market_cap_rank)) [
  | inl e ↦ rw e (All-place d c ds (ground arith) ranked.0, place-IsRanked c ds ranked.1)
  | inr e ↦
      let le : NotBefore c d = ground arith in rw e ((le, All-weaken c d ds le ranked.0), ranked)
]

place-perm : (c : CoinMetadata) (ds : List CoinMetadata) → Perm (place c ds) (c ∷ ds)
unfolding place
place-perm c [] = Perm.refl _
place-perm c (d ∷ ds) = elim (Bool-cases (ltb_ℤ d.market_cap_rank c.market_cap_rank)) [
  | inl e ↦ rw e (Perm.trans (Perm.cons d (place-perm c ds)) (Perm.swap c d ds))
  | inr e ↦ rw e (Perm.refl _)
]

sort_by_rank-IsRanked : (cs : List CoinMetadata) → IsRanked (sort_by_rank cs)
unfolding sort_by_rank
sort_by_rank-IsRanked [] = tt
sort_by_rank-IsRanked (c ∷ cs) = place-IsRanked c (sort_by_rank cs) (sort_by_rank-IsRanked cs)

sort_by_rank-perm : (cs : List CoinMetadata) → Perm (sort_by_rank cs) cs
unfolding sort_by_rank
sort_by_rank-perm [] = Perm.refl _
sort_by_rank-perm (c ∷ cs) =
    Perm.trans (place-perm c (sort_by_rank cs)) (Perm.cons c (sort_by_rank-perm cs))

-- The list of all coins holds the registry's coins, each as often as the registry does, and no
-- coin in it has a greater rank than a later one.
pub get_all_coins_lem :
    (r : Registry)
    → IsRanked (get_all_coins_sorted_by_market_cap r)
      × Perm (get_all_coins_sorted_by_market_cap r) r.coins
unfolding get_all_coins_sorted_by_market_cap
get_all_coins_lem r = (sort_by_rank-IsRanked r.coins, sort_by_rank-perm r.coins)
