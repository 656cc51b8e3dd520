-- ===== src/Tests/CoinRuns.antt =====
-- The coin registry on concrete coins.
use mathlib.Core.List.{mem-cons_self}
use arc_signv.Common.{◌≡◌, refl, List, [], ◌∷◌, true, some}
use arc_signv.Common.Int.{pos}
use arc_signv.Common.Text.{Str, codes, str_eq}
use arc_signv.Chain.{ok, err, is_ok}
use arc_signv.Coin.{CoinMetadata}
use arc_signv.Coin.Registry.{
  Registry, empty_registry, add_coins, new_registry, get_coin_by_symbol, not_found, to_upper,
  validate,
}
use arc_signv.Coin.Registry.Table.{bitcoin}
use arc_signv.Coin.Registry.Lookup.{last_with, get_coin_by_symbol_lem}
use arc_signv.Coin.Registry.Shipped.{new_registry-finds}

abbrev as_is : Str → Str
as_is s = s

abbrev old_coin : CoinMetadata
old_coin = record bitcoin { name = codes "Old" }

abbrev pub minor_coin : CoinMetadata
minor_coin = record bitcoin { symbol = codes "LTC"; market_cap_rank = pos 9 }

abbrev three_coins : List CoinMetadata
three_coins = old_coin ∷ minor_coin ∷ bitcoin ∷ []

abbrev three : Registry
three = add_coins empty_registry three_coins

-- The later of two coins of one symbol is found, in whatever case the symbol is asked for.
get_coin_by_symbol_lem_example : get_coin_by_symbol as_is three (codes "btc") ≡ some (ok bitcoin)
unfolding get_coin_by_symbol to_upper last_with str_eq
get_coin_by_symbol_lem_example = get_coin_by_symbol_lem as_is three_coins (codes "btc")

unknown_coin : get_coin_by_symbol as_is three (codes "xyz") ≡ some (err (not_found (codes "XYZ")))
unfolding get_coin_by_symbol to_upper last_with str_eq
unknown_coin = get_coin_by_symbol_lem as_is three_coins (codes "xyz")

new_registry-finds_example :
    (is_ok (validate as_is bitcoin) ≡ true)
    × (get_coin_by_symbol as_is new_registry (codes "Btc") ≡ some (ok bitcoin))
unfolding to_upper
new_registry-finds_example = new_registry-finds as_is bitcoin (codes "Btc") mem-cons_self refl
