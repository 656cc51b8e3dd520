-- ===== src/Coin/Registry/Shipped.antt =====
-- The registry that NewRegistry of internal/services/coinregistry/registry.go returns.
use mathlib.Core.List.{Mem}
use arc_signv.Common.{
  ◌≡◌, refl, Bool, true, not, List, [], ◌∷◌, none, some, ◌&&◌, All, All→Mem, arith,
}
use arc_signv.Common.Text.{Str, str_eq, eq_refl}
use arc_signv.Chain.{ok, is_ok}
use arc_signv.Coin.{CoinMetadata}
use arc_signv.Coin.Registry.{new_registry, get_coin_by_symbol, to_upper, validate}
use arc_signv.Coin.Registry.Table.{all_coins}
use arc_signv.Coin.Registry.Lookup.{last_with, get_coin_by_symbol_lem}

unfoldable pub unheld : CoinMetadata → List CoinMetadata → Bool
unheld c [] = true
unheld c (d ∷ ds) = not (str_eq d.symbol c.symbol) && unheld c ds

unfoldable pub distinct : List CoinMetadata → Bool
distinct [] = true
distinct (c ∷ cs) = unheld c cs && distinct cs

last_with-unheld :
    (c : CoinMetadata) (cs : List CoinMetadata) → unheld c cs ≡ true → last_with c.symbol cs ≡ none
unfolding unheld last_with
last_with-unheld c [] h = refl
last_with-unheld c (d ∷ ds) h =
    let e : last_with c.symbol ds ≡ none = last_with-unheld c ds (ground arith) in
    rw e (ground arith)

last_with-later :
    (c d : CoinMetadata) (cs : List CoinMetadata)
    → last_with c.symbol cs ≡ some c
    → last_with c.symbol (d ∷ cs) ≡ some c
unfolding last_with
last_with-later c d cs h = rw h refl

All-later :
    (d : CoinMetadata) (cs ds : List CoinMetadata)
    → All (λ c. last_with c.symbol cs ≡ some c) ds
    → All (λ c. last_with c.symbol (d ∷ cs) ≡ some c) ds
All-later d cs [] h = tt
All-later d cs (c ∷ ds) h = (last_with-later c d cs h.0, All-later d cs ds h.1)

each_found :
    (cs : List CoinMetadata) → distinct cs ≡ true → All (λ c. last_with c.symbol cs ≡ some c) cs
unfolding distinct last_with
each_found [] h = tt
each_found (c ∷ cs) h =
    let first : last_with c.symbol cs ≡ none = last_with-unheld c cs (ground arith) in
    let others : All (λ d. last_with d.symbol cs ≡ some d) cs = each_found cs (ground arith) in
    (rw (first, eq_refl c.symbol) refl, All-later c cs cs others)

all_coins-distinct : distinct all_coins ≡ true
unfolding distinct unheld str_eq
all_coins-distinct = refl

all_pass : (Str → Str) → List CoinMetadata → Bool
all_pass wide [] = true
all_pass wide (c ∷ cs) = is_ok (validate wide c) && all_pass wide cs

all_coins-pass : (wide : Str → Str) → all_pass wide all_coins ≡ true
unfolding all_pass validate to_upper str_eq
all_coins-pass wide = refl

each_passes :
    (wide : Str → Str) (cs : List CoinMetadata)
    → all_pass wide cs ≡ true
    → All (λ c. is_ok (validate wide c) ≡ true) cs
unfolding all_pass
each_passes wide [] h = tt
each_passes wide (c ∷ cs) h = (ground arith, each_passes wide cs (ground arith))

-- Each coin of the shipped registry passes its check, and the registry finds it under every text
-- that is the coin's symbol when put in capitals.
pub new_registry-finds :
    (wide : Str → Str) (c : CoinMetadata) (s : Str)
    → Mem c all_coins
    → to_upper wide s ≡ c.symbol
    → (is_ok (validate wide c) ≡ true) × (get_coin_by_symbol wide new_registry s ≡ some (ok c))
unfolding new_registry
new_registry-finds wide c s held e =
    let passes =
      All→Mem (λ d. is_ok (validate wide d) ≡ true) (λ d. hlevel) all_coins
        (each_passes wide all_coins (all_coins-pass wide)) c held in
    let found =
      All→Mem (λ d. last_with d.symbol all_coins ≡ some d) (λ d. hlevel) all_coins
        (each_found all_coins all_coins-distinct) c held in
    (passes, rw (get_coin_by_symbol_lem wide all_coins s, e, found) refl)
