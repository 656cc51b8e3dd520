-- ===== src/Coin/Registry.antt =====
-- The registry of coins: internal/services/coinregistry/registry.go and the check of a coin in its
-- types.go. The result of a lookup is `none` where the code would index its slice out of range and
-- panic. `strings.ToUpper` is written out on ASCII texts; on others it is `wide`, Unicode's table.
use arc_signv.Common.{
  ℕ, ◌-◌, Bool, true, false, not, List, [], ◌∷◌, ◌++◌, map, Option, none, some, length, get_elem?,
  ltb, leb, ◌&&◌, ◌||◌, if◌then◌else◌,
}
use arc_signv.Common.Text.{Str, codes, str_eq}
use arc_signv.Common.Int.{pos, ltb_ℤ, leb_ℤ}
use arc_signv.Common.Dict.{Dict, lookup, insert}
use arc_signv.Chain.{Result, ok, err, plain, refuse_if, ◌>>◌, GoError}
use arc_signv.Coin.{CoinMetadata, utxo, evm_mainnet, layer2, cosmos, substrate, custom}
pub mod Table
pub mod Lookup
pub mod Shipped
pub mod Ranked
use Table.{all_coins}

abbrev pub upper_letter : ℕ → ℕ
upper_letter c = if leb b'a' c && leb c b'z' then c - 32 else c

abbrev is_ascii : Str → Bool
is_ascii [] = true
is_ascii (c ∷ s) = ltb c 128 && is_ascii s

unfoldable pub to_upper : (Str → Str) → Str → Str
to_upper wide s = if is_ascii s then map upper_letter s else wide s

pub record Registry : Type 0 where
  pub coins : List CoinMetadata
  pub symbol_index : Dict ℕ

abbrev pub empty_registry : Registry
empty_registry = record { coins = []; symbol_index = [] }

unfoldable pub add_coin : Registry → CoinMetadata → Registry
add_coin r coin = record {
  coins = r.coins ++ coin ∷ [];
  symbol_index = insert coin.symbol (length (r.coins ++ coin ∷ []) - 1) r.symbol_index;
}

unfoldable pub add_coins : Registry → List CoinMetadata → Registry
add_coins r [] = r
add_coins r (coin ∷ coins) = add_coins (add_coin r coin) coins

unfoldable pub new_registry : Registry
new_registry = add_coins empty_registry all_coins

-- `&r.coins[index]`, of which nothing comes when the index is out of range
abbrev pub element : Option CoinMetadata → Option (Result CoinMetadata)
element none = none
element (some c) = some (ok c)

abbrev pub at_index : Registry → ℕ → Option (Result CoinMetadata)
at_index r i = element (get_elem? r.coins i)

abbrev pub not_found : Str → GoError
not_found s = plain (codes "coin not found: " ++ s)

abbrev pub indexed : Registry → Str → Option ℕ → Option (Result CoinMetadata)
indexed r s none = some (err (not_found s))
indexed r s (some i) = at_index r i

unfoldable pub get_coin_by_symbol : (Str → Str) → Registry → Str → Option (Result CoinMetadata)
get_coin_by_symbol wide r s =
    let symbol = to_upper wide s in indexed r symbol (lookup symbol r.symbol_index)

-- `sort.Slice` by rank, as an insertion sort: which of two coins of one rank comes first is left
-- open by Go, and no two coins of the shipped registry have one rank.
unfoldable pub place : CoinMetadata → List CoinMetadata → List CoinMetadata
place c [] = c ∷ []
place c (d ∷ ds) = if ltb_ℤ d.market_cap_rank c.market_cap_rank then d ∷ place c ds else c ∷ d ∷ ds

unfoldable pub sort_by_rank : List CoinMetadata → List CoinMetadata
sort_by_rank [] = []
sort_by_rank (c ∷ cs) = place c (sort_by_rank cs)

unfoldable pub get_all_coins_sorted_by_market_cap : Registry → List CoinMetadata
get_all_coins_sorted_by_market_cap r = sort_by_rank r.coins

abbrev pub valid_categories : List Str
valid_categories = utxo ∷ evm_mainnet ∷ layer2 ∷ cosmos ∷ substrate ∷ custom ∷ []

abbrev pub one_of : Str → List Str → Bool
one_of s [] = false
one_of s (t ∷ ts) = if str_eq s t then true else one_of s ts

unfoldable pub validate : (Str → Str) → CoinMetadata → Result (Unit {0})
validate wide c =
    refuse_if (str_eq c.symbol []) (plain (codes "symbol cannot be empty"))
    >> refuse_if (not (str_eq c.symbol (to_upper wide c.symbol)))
        (plain (codes "symbol must be uppercase"))
    >> refuse_if (str_eq c.name []) (plain (codes "name cannot be empty"))
    >> refuse_if (str_eq c.formatter_id []) (plain (codes "formatterID cannot be empty"))
    >> refuse_if (leb_ℤ c.market_cap_rank (pos 0)) (plain (codes "marketCapRank must be positive"))
    >> refuse_if (not (one_of c.category valid_categories) && not (str_eq c.category [])) (
        plain (
          codes
            "category must be one of: UTXO, EVM_Mainnet, Layer2, Cosmos_SDK, Substrate, Custom"))
    >> ok tt
