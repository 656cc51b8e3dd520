-- ===== src/Bitcoin/Fee.antt =====
-- src/chainadapter/bitcoin/fee.go: fee estimates, in int64 arithmetic.
pub mod Bounds
use arc_signv.Common.{
  ℕ, ◌+◌, ◌*◌, ◌/◌, Bool, not, List, [], ◌++◌, Option, none, some, if◌then◌else◌, length,
}
use arc_signv.Common.Text.{Str, codes, decimal, str_eq}
use arc_signv.Common.Int.{ℤ, pos, quot, ltb_ℤ, leb_ℤ, eqb_ℤ, ◌-ℤ◌, ◌*ℤ◌, div_floor}
use arc_signv.Common.Word.{sub64, mul64}
use arc_signv.Common.Float.{FloatOps}
use arc_signv.Chain.{
  Result, ok, err, FeeSpeed, slow, normal, fast, other_speed, FeeEstimate, TransactionRequest,
}
use arc_signv.Storage.{TxStore}
use arc_signv.Adapter.{World, Node}
use arc_signv.Bitcoin.{Utxo}
use arc_signv.Bitcoin.Node.{Request, Json, smart_fee}
use arc_signv.Bitcoin.Adapter.{BitcoinAdapter, target_blocks}

abbrev pub estimated_size : ℤ
estimated_size = pos 140

unfoldable pub fallback_rate : FeeSpeed → ℤ
fallback_rate fast = pos 50
fallback_rate normal = pos 20
fallback_rate slow = pos 10
fallback_rate (other_speed s) = pos 20

abbrev percent : ℤ → ℤ → ℤ
percent rate share = quot (mul64 rate share) 100

unfoldable pub fallback_estimate : FeeSpeed → FeeEstimate
fallback_estimate speed = record {
  chain_id = codes "bitcoin";
  min_fee = mul64 (percent (fallback_rate speed) (pos 80)) estimated_size;
  max_fee = mul64 (percent (fallback_rate speed) (pos 150)) estimated_size;
  recommended = mul64 (fallback_rate speed) estimated_size;
  confidence = pos 50;
  reason = codes "Using fallback estimates (RPC unavailable)";
  estimated_blocks = pos (target_blocks speed);
  base_fee = none;
}

-- The bounds on the rate, from the rates for a slower and a faster confirmation; 0 is no answer.
unfoldable pub min_rate : ℤ → ℤ → ℤ
min_rate rate slower =
    let r = if eqb_ℤ slower (pos 0) then percent rate (pos 80) else slower in
    if ltb_ℤ rate r then percent rate (pos 90) else r

unfoldable pub max_rate : ℤ → ℤ → ℤ
max_rate rate faster =
    let r = if eqb_ℤ faster (pos 0) then percent rate (pos 150) else faster in
    if ltb_ℤ r rate then percent rate (pos 120) else r

unfoldable pub generate_reason : ℤ → ℤ → Str
generate_reason confidence fee_rate =
    if leb_ℤ (pos 90) confidence
    then codes "Network stable, fee rate "
      ++ decimal fee_rate
      ++ codes " sat/byte with high certainty"
    else if leb_ℤ (pos 70) confidence
    then codes "Network conditions normal, fee rate " ++ decimal fee_rate ++ codes " sat/byte"
    else if leb_ℤ (pos 50) confidence
    then codes "Network volatile, fee rate " ++ decimal fee_rate ++ codes " sat/byte may fluctuate"
    else codes "Insufficient data for reliable estimate, using fallback rates"

unfoldable pub clamp : ℤ → ℤ
clamp confidence =
    let c = if ltb_ℤ confidence (pos 50) then pos 50 else confidence in
    if ltb_ℤ (pos 100) c then pos 100 else c

-- The second result of a call whose error is dropped.
abbrev pub or_zero : Result ℤ → ℤ
or_zero (ok r) = r
or_zero (err e) = pos 0

module _ (ops : FloatOps) where
  open ops use {Float, literal, of_int, to_int, add, mul, div}

  unfoldable pub calculate_confidence : ℤ → ℤ → ℤ → ℤ
  calculate_confidence min recommended max =
      let lower_spread = div (of_int (sub64 recommended min)) (of_int recommended) in
      let upper_spread = div (of_int (sub64 max recommended)) (of_int recommended) in
      let avg_spread = div (add lower_spread upper_spread) (literal (pos 2) 1) in
      if eqb_ℤ recommended (pos 0)
      then pos 50
      else clamp (sub64 (pos 100) (to_int (mul avg_spread (literal (pos 100) 1))))

  -- The estimate for a rate, with its neighbours.
  unfoldable pub estimate_of : FeeSpeed → ℤ → ℤ → ℤ → FeeEstimate
  estimate_of speed rate slower faster =
      let low = min_rate rate slower in
      let high = max_rate rate faster in
      let confidence = calculate_confidence low rate high in
      record {
        chain_id = codes "bitcoin";
        min_fee = mul64 low estimated_size;
        max_fee = mul64 high estimated_size;
        recommended = mul64 rate estimated_size;
        confidence = confidence;
        reason = generate_reason confidence rate;
        estimated_blocks = pos (target_blocks speed);
        base_fee = none;
      }

  -- int64(sizeRatio * 100)
  unfoldable pub size_percent : TransactionRequest → List Utxo → ℤ
  size_percent req utxos =
      let num_outputs = if str_eq req.memo [] then 2 else 3 in
      let actual_size = 10 + length utxos * 68 + num_outputs * 31 in
      to_int (mul (div (of_int (pos actual_size)) (literal (pos 140) 1)) (literal (pos 100) 1))

  unfoldable pub rescale : ℤ → FeeEstimate → FeeEstimate
  rescale share base = record base {
    min_fee = div_floor (base.min_fee *ℤ share) 100;
    recommended = div_floor (base.recommended *ℤ share) 100;
    max_fee = div_floor (base.max_fee *ℤ share) 100;
    base_fee = none;
  }

module _ (ops : FloatOps) (json : Json ops.Float) {S : TxStore} (node : Node Request) where
  -- An error for the target itself ends in the fallback; errors for its neighbours are dropped.
  unfoldable pub estimate : TransactionRequest → World S Request → World S Request × FeeEstimate
  estimate req w =
      let target = target_blocks req.fee_speed in
      let (w1, found) = smart_fee ops json node target w in
      let (w2, slower) = smart_fee ops json node (target * 2) w1 in
      let (w3, faster) = smart_fee ops json node (target / 2 + 1) w2 in
      elim found [
        | err e ↦ (w1, fallback_estimate req.fee_speed)
        | ok rate ↦ (w3, estimate_of ops req.fee_speed rate (or_zero slower) (or_zero faster))
      ]

  unfoldable pub estimate_with_utxos :
      TransactionRequest → List Utxo → World S Request → World S Request × FeeEstimate
  estimate_with_utxos req utxos w =
      let (w', base) = estimate req w in (w', rescale ops (size_percent ops req utxos) base)

  -- `Estimate` of the adapter.
  unfoldable pub adapter_estimate :
      BitcoinAdapter → TransactionRequest → World S Request → World S Request × FeeEstimate
  adapter_estimate b req w =
      let (w', e) = estimate req w in (w', record e { chain_id = b.chain_id })
