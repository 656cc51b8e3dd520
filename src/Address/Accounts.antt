-- ===== src/Address/Accounts.antt =====
-- The addresses and counts of GenerateMultiCoinAddresses of internal/services/address/service.go.
use mathlib.Core.List.{append-nil}
use arc_signv.Common.{
  ap, ℕ, suc, ◌+◌, ◌≡◌, refl, sym, ◌∙◌, Bool, not, List, [], ◌∷◌, ◌++◌, select, length,
  length-append, if◌then◌else◌, arith,
}
use arc_signv.Common.Text.{Str}
use arc_signv.Common.Int.{ℤ}
use arc_signv.Chain.{Result, ok, err, is_ok}
use arc_signv.Coin.{CoinMetadata, DerivedAddress}
use arc_signv.Coin.Registry.{Registry, place, sort_by_rank, get_all_coins_sorted_by_market_cap}
use arc_signv.Address.{
  Progress, Trial, GenerationMetrics, outcome, derived_address, note, each_coin, at_start,
  generate_with, trial_of, generate_multi_coin_addresses,
}
use arc_signv.Address.Derivation.{retry_once, Libraries}

abbrev pub entry : CoinMetadata → Result Str → List DerivedAddress
entry coin (ok address) = derived_address coin address ∷ []
entry coin (err e) = []

-- The addresses of the coins whose first or second attempt succeeds, in order.
unfoldable pub collected : (CoinMetadata → Trial) → List CoinMetadata → List DerivedAddress
collected trial [] = []
collected trial (c ∷ cs) = entry c (outcome (trial c)).0 ++ collected trial cs

abbrev pub reached : (CoinMetadata → Trial) → CoinMetadata → Bool
reached trial c = is_ok (outcome (trial c)).0

abbrev pub first_fails : (CoinMetadata → Trial) → CoinMetadata → Bool
first_fails trial c = not (is_ok (trial c).first_attempt)

append_assoc : {A : Type 0} (xs ys zs : List A) → (xs ++ ys) ++ zs ≡ xs ++ (ys ++ zs)
append_assoc [] ys zs = refl
append_assoc (x ∷ xs) ys zs = ap (◌∷◌ x) (append_assoc xs ys zs)

note-addresses :
    (c : CoinMetadata) (d : ℤ) (r : Result Str) (n : ℕ) (p : Progress)
    → (note c d (r, n) p).addresses ≡ p.addresses ++ entry c r
unfolding note
note-addresses c d (ok a) n p = refl
note-addresses c d (err e) n p = sym (append-nil p.addresses)

pub each_coin-addresses :
    (trial : CoinMetadata → Trial) (cs : List CoinMetadata) (p : Progress)
    → (each_coin trial cs p).addresses ≡ p.addresses ++ collected trial cs
unfolding each_coin collected
each_coin-addresses trial [] p = sym (append-nil p.addresses)
each_coin-addresses trial (c ∷ cs) p =
    let (r, n) = outcome (trial c) in
    rw
      (
        each_coin-addresses trial cs (note c (trial c).duration (outcome (trial c)) p),
        note-addresses c (trial c).duration (outcome (trial c)).0 (outcome (trial c)).1 p,
      )
      (append_assoc p.addresses (entry c (outcome (trial c)).0) (collected trial cs))

-- What the counts are after a list of coins, by what they were before.
record Counted (trial : CoinMetadata → Trial) (cs : List CoinMetadata)
    (before after : GenerationMetrics) : Type 0 where
  total_kept : after.total_chains ≡ before.total_chains
  successes : after.success_count ≡ before.success_count + length (collected trial cs)
  failures : after.failure_count + length (collected trial cs) ≡ before.failure_count + length cs
  retries : after.retry_count ≡ before.retry_count + length (select (first_fails trial) cs)

note-Counted :
    (c : CoinMetadata) (d : ℤ) (a b : Result Str) (p : Progress)
    → let before = p.metrics in
      let after = (note c d (retry_once a b) p).metrics in
      let got = length (entry c (retry_once a b).0) in
      (after.total_chains ≡ before.total_chains)
      × (after.success_count ≡ before.success_count + got)
      × (after.failure_count + got ≡ suc before.failure_count)
      × (after.retry_count ≡ (if is_ok a then before.retry_count else suc before.retry_count))
unfolding note
note-Counted c d (ok x) b p = (refl, omega arith, omega arith, refl)
note-Counted c d (err e) (ok y) p = (refl, omega arith, omega arith, refl)
note-Counted c d (err e) (err f) p = (refl, omega arith, omega arith, refl)

each_coin-Counted :
    (trial : CoinMetadata → Trial) (cs : List CoinMetadata) (p : Progress)
    → Counted trial cs p.metrics (each_coin trial cs p).metrics
unfolding each_coin collected select
each_coin-Counted trial [] p = record {
  total_kept = refl;
  successes = omega arith;
  failures = omega arith;
  retries = omega arith;
}
each_coin-Counted trial (c ∷ cs) p =
    let t = trial c in
    let one = note-Counted c t.duration t.first_attempt t.second_attempt p in
    let rest = each_coin-Counted trial cs (note c t.duration (outcome t) p) in
    let grown = length-append (entry c (outcome t).0) (collected trial cs) in
    record {
      total_kept = rest.total_kept ∙ one.0;
      successes = omega (arith, rest.successes, one.1, grown);
      failures = omega (arith, rest.failures, one.2, grown);
      retries = ground (arith, rest.retries, one.3);
    }

length-place : (c : CoinMetadata) (ds : List CoinMetadata) → length (place c ds) ≡ suc (length ds)
unfolding place
length-place c [] = refl
length-place c (d ∷ ds) = ground (arith, length-place c ds)

length-sort_by_rank : (cs : List CoinMetadata) → length (sort_by_rank cs) ≡ length cs
unfolding sort_by_rank
length-sort_by_rank [] = refl
length-sort_by_rank (c ∷ cs) = length-place c (sort_by_rank cs) ∙ ap suc (length-sort_by_rank cs)

pub generate_with_lem :
    (trial : CoinMetadata → Trial) (took : ℤ) (r : Registry)
    → let (book, m) = generate_with trial took r in
      let coins = get_all_coins_sorted_by_market_cap r in
      (book.addresses ≡ collected trial coins)
      × (m.total_chains ≡ length r.coins)
      × (m.success_count ≡ length book.addresses)
      × (m.success_count + m.failure_count ≡ m.total_chains)
      × (m.retry_count ≡ length (select (first_fails trial) coins))
unfolding generate_with get_all_coins_sorted_by_market_cap
generate_with_lem trial took r =
    let coins = sort_by_rank r.coins in
    let start = at_start (length coins) in
    let book = each_coin-addresses trial coins start in
    let c = each_coin-Counted trial coins start in
    let size = length-sort_by_rank r.coins in
    (
      book,
      c.total_kept ∙ size,
      omega (arith, c.successes, ap length book),
      omega (arith, c.successes, c.failures, c.total_kept),
      omega (arith, c.retries),
    )

module _ {Key PrivateKey : Type 0} (first second : CoinMetadata → Libraries Key PrivateKey) where
  -- Whatever the libraries answer, the book holds the addresses of the coins of which one of two
  -- attempts succeeds, by rank. The total is the number of the registry's coins, the successes are
  -- the addresses of the book, the successes and the failures add up to the total, and the retries
  -- are the coins whose first attempt fails.
  pub generate_multi_coin_addresses_lem :
      (took : CoinMetadata → ℤ) (total : ℤ) (key : Key) (r : Registry)
      → let trial = trial_of first second took key in
        let (book, m) = generate_multi_coin_addresses first second took total key r in
        let coins = get_all_coins_sorted_by_market_cap r in
        (book.addresses ≡ collected trial coins)
        × (m.total_chains ≡ length r.coins)
        × (m.success_count ≡ length book.addresses)
        × (m.success_count + m.failure_count ≡ m.total_chains)
        × (m.retry_count ≡ length (select (first_fails trial) coins))
  unfolding generate_multi_coin_addresses
  generate_multi_coin_addresses_lem took total key r =
      generate_with_lem (trial_of first second took key) total r
