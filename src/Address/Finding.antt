-- ===== src/Address/Finding.antt =====
-- The addresses that GenerateMultiCoinAddresses of internal/services/address/service.go makes, as
-- GetBySymbol of internal/models/address.go finds them.
use mathlib.Core.List.Perm
use mathlib.Core.Path.{subst}
use mathlib.Core.List.{Mem}
use arc_signv.Common.{
  ap, ◌≡◌, refl, sym, ◌∙◌, true, false, List, [], ◌∷◌, ◌++◌, map, Option, none, some, All, All→Mem,
  arith,
}
use arc_signv.Common.Text.{Str, str_eq, eq_refl, eq_iff}
use arc_signv.Common.Int.{ℤ}
use arc_signv.Chain.{Result, ok, err}
use arc_signv.Coin.{CoinMetadata, DerivedAddress}
use arc_signv.Coin.Book.{first_of, has_symbol, get_by_symbol, no_symbol, or_error}
use arc_signv.Coin.Registry.{
  upper_letter, new_registry, add_coin, add_coins, sort_by_rank, place,
  get_all_coins_sorted_by_market_cap,
}
use arc_signv.Coin.Registry.Table.{all_coins}
use arc_signv.Coin.Registry.Shipped.{unheld, distinct}
use arc_signv.Coin.Registry.Ranked.{get_all_coins_lem}
use arc_signv.Address.{
  Trial, outcome, derived_address, generate_with, trial_of, generate_multi_coin_addresses,
}
use arc_signv.Address.Derivation.{Libraries, retry_once, attempt}
use arc_signv.Address.Accounts.{entry, collected, generate_with_lem}

abbrev pub address_or_none : CoinMetadata → Result Str → Option DerivedAddress
address_or_none c (ok a) = some (derived_address c a)
address_or_none c (err e) = none

module _ (trial : CoinMetadata → Trial) where
  result : CoinMetadata → Result Str
  result c = (outcome (trial c)).0

  find : Str → List CoinMetadata → Option DerivedAddress
  find s cs = first_of (has_symbol s) (collected trial cs)

  first_of-other :
      (c d : CoinMetadata) (r : Result Str) (xs : List DerivedAddress)
      → str_eq d.symbol c.symbol ≡ false
      → first_of (has_symbol c.symbol) (entry d r ++ xs) ≡ first_of (has_symbol c.symbol) xs
  unfolding first_of derived_address
  first_of-other c d (ok a) xs h = rw h refl
  first_of-other c d (err e) xs h = refl

  first_of-own :
      (c : CoinMetadata) (r : Result Str) (xs : List DerivedAddress)
      → first_of (has_symbol c.symbol) xs ≡ none
      → first_of (has_symbol c.symbol) (entry c r ++ xs) ≡ address_or_none c r
  unfolding first_of derived_address
  first_of-own c (ok a) xs h = rw (eq_refl c.symbol) refl
  first_of-own c (err e) xs h = h

  find-unheld :
      (c : CoinMetadata) (cs : List CoinMetadata) → unheld c cs ≡ true → find c.symbol cs ≡ none
  unfolding find collected unheld first_of
  find-unheld c [] h = refl
  find-unheld c (d ∷ ds) h =
      first_of-other c d (outcome (trial d)).0 (collected trial ds) (ground arith)
      ∙ find-unheld c ds (ground arith)

  apart :
      (d : CoinMetadata) (ds : List CoinMetadata)
      → unheld d ds ≡ true
      → All (λ c. str_eq d.symbol c.symbol ≡ false) ds
  unfolding unheld
  apart d [] h = tt
  apart d (b ∷ ds) h = (
    ground (arith, eq_iff d.symbol b.symbol, eq_iff b.symbol d.symbol),
    apart d ds (ground arith),
  )

  All-found :
      (d : CoinMetadata) (cs ds : List CoinMetadata)
      → All (λ c. str_eq d.symbol c.symbol ≡ false) ds
      → All (λ c. find c.symbol cs ≡ address_or_none c (result c)) ds
      → All (λ c. find c.symbol (d ∷ cs) ≡ address_or_none c (result c)) ds
  unfolding find collected
  All-found d cs [] h k = tt
  All-found d cs (c ∷ ds) h k = (
    first_of-other c d (outcome (trial d)).0 (collected trial cs) h.0 ∙ k.0,
    All-found d cs ds h.1 k.1,
  )

  each_found :
      (cs : List CoinMetadata)
      → distinct cs ≡ true
      → All (λ c. find c.symbol cs ≡ address_or_none c (result c)) cs
  unfolding distinct find result collected
  each_found [] h = tt
  each_found (c ∷ cs) h =
      let alone : unheld c cs ≡ true = ground arith in
      (
        first_of-own c (outcome (trial c)).0 (collected trial cs) (find-unheld c cs alone),
        All-found c cs cs (apart c cs alone) (each_found cs (ground arith)),
      )

shipped_list : List CoinMetadata
shipped_list = get_all_coins_sorted_by_market_cap new_registry

shipped_list-distinct : distinct shipped_list ≡ true
unfolding shipped_list get_all_coins_sorted_by_market_cap new_registry add_coins add_coin
    sort_by_rank place distinct unheld str_eq
shipped_list-distinct = refl

new_registry-coins : new_registry.coins ≡ all_coins
unfolding new_registry add_coins add_coin
new_registry-coins = refl

get_by_symbol-generate_with :
    (trial : CoinMetadata → Trial) (took : ℤ) (c : CoinMetadata) (s : Str)
    → Mem c all_coins
    → map upper_letter s ≡ c.symbol
    → get_by_symbol (generate_with trial took new_registry).0 s
      ≡ or_error (no_symbol s) (address_or_none c (outcome (trial c)).0)
unfolding get_by_symbol shipped_list get_all_coins_sorted_by_market_cap first_of find result
get_by_symbol-generate_with trial took c s held e =
    let listed : Mem c shipped_list =
      (Perm.mem_iff (get_all_coins_lem new_registry).1).1
        (subst (Mem c) (sym new_registry-coins) held) in
    let found =
      All→Mem (λ d. find trial d.symbol shipped_list ≡ address_or_none d (result trial d))
        (λ d. hlevel) shipped_list (each_found trial shipped_list shipped_list-distinct) c listed in
    rw ((generate_with_lem trial took new_registry).0, e) (ap (or_error (no_symbol s)) found)

module _ {Key PrivateKey : Type 0} (first second : CoinMetadata → Libraries Key PrivateKey) where
  -- In the book made for the shipped registry, whatever the libraries answer, a lookup by a text that
  -- is a coin's symbol when put in capitals returns the address of the coin's first attempt, or else
  -- of its second; when both fail it returns the error "address not found for symbol: " with
  -- the text.
  pub get_by_symbol-generate_multi_coin_addresses :
      (took : CoinMetadata → ℤ) (total : ℤ) (key : Key) (c : CoinMetadata) (s : Str)
      → Mem c all_coins
      → map upper_letter s ≡ c.symbol
      → let book = (generate_multi_coin_addresses first second took total key new_registry).0 in
        get_by_symbol book s
        ≡ or_error
            (no_symbol s)
            (address_or_none c (retry_once (attempt (first c) key c) (attempt (second c) key c)).0)
  unfolding generate_multi_coin_addresses
  get_by_symbol-generate_multi_coin_addresses took total key c s held e =
      get_by_symbol-generate_with (trial_of first second took key) total c s held e
