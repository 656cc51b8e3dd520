-- ===== src/Address.antt =====
-- GenerateMultiCoinAddresses of internal/services/address/service.go and the metrics it fills,
-- internal/models/metrics.go. The libraries answer each attempt for each coin anew, and the time
-- that a coin took is an argument.
use arc_signv.Common.{
  ℕ, suc, ◌+◌, ◌%◌, ◌^◌, Bool, true, false, List, [], ◌∷◌, ◌++◌, if◌then◌else◌, ltb, length, ◌==◌,
}
use arc_signv.Common.Text.{Str, codes, str_eq, decimal}
use arc_signv.Common.Int.{ℤ, pos}
use arc_signv.Common.Float
use arc_signv.Common.Float.{FloatOps}
use arc_signv.Common.Dict.{Dict, insert}
use arc_signv.Chain.{Result, ok, err, plain, error_text, ◌>>=◌, is_ok}
use arc_signv.Crypto.{or_wrap}
use arc_signv.Coin.{CoinMetadata, DerivedAddress, AddressBook}
use arc_signv.Coin.Registry.{Registry, get_all_coins_sorted_by_market_cap}
pub mod Derivation
pub mod Accounts
pub mod Finding
use Derivation.{Libraries, retry_once, attempt}

pub record ChainMetric : Type 0 where
  pub symbol : Str
  pub success : Bool
  pub duration : ℤ
  pub attempts : ℕ
  pub error_message : Str

pub record GenerationMetrics : Type 0 where
  pub total_chains : ℕ
  pub success_count : ℕ
  pub failure_count : ℕ
  pub retry_count : ℕ
  pub total_duration : ℤ
  pub per_chain_metrics : Dict ChainMetric

unfoldable pub derived_address : CoinMetadata → Str → DerivedAddress
derived_address coin address = record {
  symbol = coin.symbol;
  coin_name = coin.name;
  coin_type = coin.coin_type;
  address = address;
  derivation_path = codes "m/44'/" ++ decimal (pos coin.coin_type) ++ codes "'/0'/0/0";
  market_cap_rank = coin.market_cap_rank;
  category = coin.category;
}

-- What the loop holds.
pub record Progress : Type 0 where
  pub addresses : List DerivedAddress
  pub metrics : GenerationMetrics

abbrev pub retried : ℕ → ℕ → ℕ
retried attempts count = if ltb 1 attempts then suc count else count

unfoldable pub note : CoinMetadata → ℤ → Result Str × ℕ → Progress → Progress
note coin duration (ok address, attempts) p = record {
  addresses = p.addresses ++ derived_address coin address ∷ [];
  metrics = record p.metrics {
    success_count = suc p.metrics.success_count;
    retry_count = retried attempts p.metrics.retry_count;
    per_chain_metrics =
        insert coin.symbol
          (record {
            symbol = coin.symbol;
            success = true;
            duration = duration;
            attempts = attempts;
            error_message = [];
          })
          p.metrics.per_chain_metrics;
  };
}
note coin duration (err e, attempts) p = record {
  addresses = p.addresses;
  metrics = record p.metrics {
    failure_count = suc p.metrics.failure_count;
    retry_count = retried attempts p.metrics.retry_count;
    per_chain_metrics =
        insert coin.symbol
          (record {
            symbol = coin.symbol;
            success = false;
            duration = duration;
            attempts = attempts;
            error_message = error_text e;
          })
          p.metrics.per_chain_metrics;
  };
}

-- What a coin's two attempts come to, and how long they took.
pub record Trial : Type 0 where
  pub first_attempt : Result Str
  pub second_attempt : Result Str
  pub duration : ℤ

abbrev pub outcome : Trial → Result Str × ℕ
outcome t = retry_once t.first_attempt t.second_attempt

unfoldable pub each_coin : (CoinMetadata → Trial) → List CoinMetadata → Progress → Progress
each_coin trial [] p = p
each_coin trial (coin ∷ coins) p =
    each_coin trial coins (note coin (trial coin).duration (outcome (trial coin)) p)

abbrev pub at_start : ℕ → Progress
at_start total = record {
  addresses = [];
  metrics = record {
    total_chains = total;
    success_count = 0;
    failure_count = 0;
    retry_count = 0;
    total_duration = pos 0;
    per_chain_metrics = [];
  };
}

unfoldable pub generate_with :
    (CoinMetadata → Trial) → ℤ → Registry → AddressBook × GenerationMetrics
generate_with trial total_duration registry =
    let coins = get_all_coins_sorted_by_market_cap registry in
    let p = each_coin trial coins (at_start (length coins)) in
    (record { addresses = p.addresses }, record p.metrics { total_duration = total_duration })

module _ {Key PrivateKey : Type 0} where
  -- The libraries of a coin's first attempt and of its second, by the coin.
  abbrev pub trial_of :
      (CoinMetadata → Libraries Key PrivateKey)
      → (CoinMetadata → Libraries Key PrivateKey)
      → (CoinMetadata → ℤ)
      → Key
      → CoinMetadata
      → Trial
  trial_of first second took master_key coin = record {
    first_attempt = attempt (first coin) master_key coin;
    second_attempt = attempt (second coin) master_key coin;
    duration = took coin;
  }

  unfoldable pub generate_multi_coin_addresses :
      (CoinMetadata → Libraries Key PrivateKey)
      → (CoinMetadata → Libraries Key PrivateKey)
      → (CoinMetadata → ℤ)
      → ℤ
      → Key
      → Registry
      → AddressBook × GenerationMetrics
  generate_multi_coin_addresses first second took total_duration master_key registry =
      generate_with (trial_of first second took master_key) total_duration registry

module _ (F : FloatOps) where
  unfoldable pub success_rate : GenerationMetrics → F.Float
  success_rate m =
      if m.total_chains == 0
      then F.literal (pos 0) 1
      else F.mul (F.div (F.of_int (pos m.success_count)) (F.of_int (pos m.total_chains)))
          (F.literal (pos 100) 1)
