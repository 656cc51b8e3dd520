-- ===== src/Coin/Registry/Lookup.antt =====
-- GetCoinBySymbol of internal/services/coinregistry/registry.go, against a search of the coins.
use arc_signv.Common.{
  ℕ, zero, suc, ◌-◌, Bool-cases, Option-cases, ◌<◌, ◌≡◌, refl, inl, inr, List, [], ◌∷◌, ◌++◌,
  Option, none, some, length, length-append, get_elem?, if◌then◌else◌, arith,
}
use arc_signv.Common.Text.{Str, str_eq}
use arc_signv.Common.Dict.{lookup, lookup-insert}
use arc_signv.Chain.{Result, ok, err}
use arc_signv.Coin.{CoinMetadata}
use arc_signv.Coin.Registry.{
  Registry, empty_registry, add_coin, add_coins, indexed, not_found, to_upper, get_coin_by_symbol,
}

-- The coin of a symbol that stands last.
unfoldable pub last_with : Str → List CoinMetadata → Option CoinMetadata
last_with s [] = none
last_with s (c ∷ cs) = elim (last_with s cs) [
  | none ↦ if str_eq c.symbol s then some c else none
  | some d ↦ some d
]

abbrev pub found_or_not : Str → Option CoinMetadata → Result CoinMetadata
found_or_not s none = err (not_found s)
found_or_not s (some c) = ok c

-- What the index holds stands in the slice.
InRange : Registry → Type 0
InRange r = (s : Str) (i : ℕ) → lookup s r.symbol_index ≡ some i → i < length r.coins

get_elem-before :
    {A : Type 0} (xs ys : List A) (i : ℕ) → i < length xs → get_elem? (xs ++ ys) i ≡ get_elem? xs i
get_elem-before [] ys i h = absurd (omega arith)
get_elem-before (x ∷ xs) ys zero h = refl
get_elem-before (x ∷ xs) ys (suc i) h = get_elem-before xs ys i (omega arith)

get_elem-last : {A : Type 0} (xs : List A) (x : A) → get_elem? (xs ++ x ∷ []) (length xs) ≡ some x
get_elem-last [] x = refl
get_elem-last (y ∷ xs) x = get_elem-last xs x

by_symbol : Registry → Str → Option (Result CoinMetadata)
by_symbol r s = indexed r s (lookup s r.symbol_index)

new_index : (r : Registry) (c : CoinMetadata) → length (r.coins ++ c ∷ []) - 1 ≡ length r.coins
new_index r c = omega (arith, length-append r.coins (c ∷ []))

add_coin-InRange : (r : Registry) (c : CoinMetadata) → InRange r → InRange (add_coin r c)
unfolding InRange add_coin
add_coin-InRange r c held s i h =
    let grown = length-append r.coins (c ∷ []) in
    ground (
      arith,
      held s i,
      grown,
      lookup-insert c.symbol s (length (r.coins ++ c ∷ []) - 1) r.symbol_index,
    )

by_symbol-add_coin :
    (r : Registry) (c : CoinMetadata) (s : Str)
    → InRange r
    → by_symbol (add_coin r c) s ≡ (if str_eq c.symbol s then some (ok c) else by_symbol r s)
unfolding InRange add_coin by_symbol
by_symbol-add_coin r c s held =
    rw (lookup-insert c.symbol s (length (r.coins ++ c ∷ []) - 1) r.symbol_index, new_index r c)
      (elim (Bool-cases (str_eq c.symbol s)) [
        | inl e ↦ rw (e, get_elem-last r.coins c) refl
        | inr e ↦ rw e (elim (Option-cases (lookup s r.symbol_index)) [
          | inl none_held ↦ rw none_held refl
          | inr (i, h) ↦ rw (h, get_elem-before r.coins (c ∷ []) i (held s i h)) refl
        ])
      ])

found_else : Option CoinMetadata → Option (Result CoinMetadata) → Option (Result CoinMetadata)
found_else none before = before
found_else (some c) before = some (ok c)

by_symbol-add_coins :
    (cs : List CoinMetadata) (r : Registry) (s : Str)
    → InRange r
    → by_symbol (add_coins r cs) s ≡ found_else (last_with s cs) (by_symbol r s)
unfolding add_coins last_with found_else
by_symbol-add_coins [] r s held = refl
by_symbol-add_coins (c ∷ cs) r s held =
    rw
      (
        by_symbol-add_coins cs (add_coin r c) s (add_coin-InRange r c held),
        by_symbol-add_coin r c s held,
      )
      (elim (Option-cases (last_with s cs)) [
        | inl e ↦ rw e (ground arith)
        | inr (d, e) ↦ rw e refl
      ])

empty-InRange : InRange empty_registry
unfolding InRange lookup
empty-InRange s i h = cc

-- Whatever coins are added to an empty registry, a lookup does not panic: it returns the coin
-- added last whose symbol is the asked one in capitals, and the error "coin not found: " with
-- that symbol when no coin has it.
pub get_coin_by_symbol_lem :
    (wide : Str → Str) (cs : List CoinMetadata) (s : Str)
    → get_coin_by_symbol wide (add_coins empty_registry cs) s
      ≡ some (found_or_not (to_upper wide s) (last_with (to_upper wide s) cs))
unfolding get_coin_by_symbol found_else by_symbol lookup
get_coin_by_symbol_lem wide cs s =
    rw (by_symbol-add_coins cs empty_registry (to_upper wide s) empty-InRange)
      (elim (Option-cases (last_with (to_upper wide s) cs)) [
        | inl e ↦ rw e refl
        | inr (d, e) ↦ rw e refl
      ])
