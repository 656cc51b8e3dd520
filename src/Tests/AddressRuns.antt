-- ===== src/Tests/AddressRuns.antt =====
-- Address generation with toy libraries: a key is its list of child numbers.
use mathlib.Core.List.{mem-cons_self}
use arc_signv.Common.{ℕ, ◌+◌, ◌≡◌, refl, List, [], ◌∷◌, length, select}
use arc_signv.Common.Text.{Str, codes, str_eq}
use arc_signv.Common.Int.{ℤ, pos}
use arc_signv.Chain.{Result, ok, err, plain}
use arc_signv.Crypto.{or_wrap}
use arc_signv.Coin.{CoinMetadata}
use arc_signv.Coin.Book.{get_by_symbol}
use arc_signv.Coin.Registry.{
  new_registry, empty_registry, add_coins, get_all_coins_sorted_by_market_cap,
}
use arc_signv.Coin.Registry.Table.{bitcoin}
use arc_signv.Address.{derived_address, trial_of, generate_multi_coin_addresses}
use arc_signv.Address.Derivation.{Libraries, attempt, derive_address_by_formatter}
use arc_signv.Address.Accounts.{collected, first_fails, generate_multi_coin_addresses_lem}
use arc_signv.Address.Finding.{get_by_symbol-generate_multi_coin_addresses}
use arc_signv.Tests.CoinRuns.{minor_coin}

abbrev unused : List ℕ → Result Str
unused key = err (plain (codes "unused"))

abbrev toy : Libraries (List ℕ) ℕ
toy = record {
  derive = λ key n. ok (n ∷ key);
  ec_private_key = λ key. ok 0;
  bitcoin = λ key. ok (codes "1toy");
  ethereum = unused;
  litecoin = unused;
  dogecoin = unused;
  dash = unused;
  bitcoincash = unused;
  zcash = unused;
  ripple = unused;
  stellar = unused;
  tron = unused;
  solana = unused;
  cosmos = unused;
  starknet = unused;
  harmony = λ n. ok (codes "one");
  osmosis = unused;
  juno = unused;
  evmos = unused;
  secret = unused;
  kusama = unused;
  icon = unused;
  tezos = unused;
  zilliqa = unused;
}

-- A library that is out of order.
abbrev broken : Libraries (List ℕ) ℕ
broken = record toy { derive = λ key n. err (plain (codes "no key")) }

abbrev no_time : CoinMetadata → ℤ
no_time c = pos 0

get_by_symbol-generate_multi_coin_addresses_example :
    get_by_symbol
      (generate_multi_coin_addresses (λ c. broken) (λ c. toy) no_time (pos 0) [] new_registry).0
      (codes "btc")
    ≡ ok (derived_address bitcoin (codes "1toy"))
unfolding attempt derive_address_by_formatter str_eq or_wrap
get_by_symbol-generate_multi_coin_addresses_example =
    get_by_symbol-generate_multi_coin_addresses (λ c. broken) (λ c. toy) no_time (pos 0) [] bitcoin
      (codes "btc") mem-cons_self refl

generate_multi_coin_addresses_lem_example :
    let registry = add_coins empty_registry (bitcoin ∷ minor_coin ∷ []) in
    let trial = trial_of (λ c. broken) (λ c. toy) no_time [] in
    let (book, m) =
      generate_multi_coin_addresses (λ c. broken) (λ c. toy) no_time (pos 0) [] registry in
    let coins = get_all_coins_sorted_by_market_cap registry in
    (book.addresses ≡ collected trial coins)
    × (m.total_chains ≡ length registry.coins)
    × (m.success_count ≡ length book.addresses)
    × (m.success_count + m.failure_count ≡ m.total_chains)
    × (m.retry_count ≡ length (select (first_fails trial) coins))
generate_multi_coin_addresses_lem_example =
    generate_multi_coin_addresses_lem (λ c. broken) (λ c. toy) no_time (pos 0) []
      (add_coins empty_registry (bitcoin ∷ minor_coin ∷ []))
