-- ===== src/Ethereum/Fee.antt =====
-- src/chainadapter/ethereum/fee.go: fee estimates over unbounded integers.
pub mod Bounds
use arc_signv.Common.{
  ℕ, ◌+◌, ◌-◌, ◌*◌, ◌/◌, Bool, List, [], ◌++◌, Option, none, some, if◌then◌else◌, ltb,
}
use arc_signv.Common.Text.{Str, codes, decimal}
use arc_signv.Common.Int.{ℤ, pos, ltb_ℤ, leb_ℤ, ◌*ℤ◌, div_floor}
use arc_signv.Common.Word.{wrap64}
use arc_signv.Chain.{
  Result, ok, err, FeeSpeed, slow, normal, fast, other_speed, FeeEstimate, TransactionRequest,
}
use arc_signv.Storage.{TxStore}
use arc_signv.Adapter.{World, Node}
use arc_signv.Ethereum.Node.{Request, Json, base_fee, priority_fee, default_priority_fee}

abbrev pub gwei : ℕ
gwei = 1_000_000_000

abbrev pub simple_gas : ℕ
simple_gas = 21_000

-- baseMultiplier, and priorityMultiplier, which is always the same.
unfoldable pub multiplier : FeeSpeed → ℕ
multiplier fast = 3
multiplier normal = 2
multiplier slow = 1
multiplier (other_speed s) = 2

unfoldable pub estimated_blocks : FeeSpeed → ℤ
estimated_blocks fast = pos 1
estimated_blocks normal = pos 3
estimated_blocks slow = pos 6
estimated_blocks (other_speed s) = pos 3

unfoldable pub calculate_confidence : ℕ → ℕ → ℤ
calculate_confidence base priority =
    let base_penalty =
      if ltb 100 (base / gwei) then 15 else if ltb 50 (base / gwei) then 10 else 0 in
    let priority_penalty =
      if ltb 10 (priority / gwei) then 10 else if ltb 5 (priority / gwei) then 5 else 0 in
    let confidence = pos (80 - base_penalty - priority_penalty) in
    let raised = if ltb_ℤ confidence (pos 50) then pos 50 else confidence in
    if ltb_ℤ (pos 100) raised then pos 100 else raised

unfoldable pub generate_reason : ℤ → ℕ → ℕ → Str
generate_reason confidence base priority =
    let base_gwei = decimal (pos (base / gwei)) in
    let priority_gwei = decimal (pos (priority / gwei)) in
    if leb_ℤ (pos 80) confidence
    then codes "Network stable, base fee "
      ++ base_gwei
      ++ codes " Gwei, priority fee "
      ++ priority_gwei
      ++ codes " Gwei"
    else if leb_ℤ (pos 65) confidence
    then codes "Network conditions normal, base fee "
      ++ base_gwei
      ++ codes " Gwei, priority fee "
      ++ priority_gwei
      ++ codes " Gwei"
    else if leb_ℤ (pos 50) confidence
    then codes "Network congested, base fee " ++ base_gwei ++ codes " Gwei may fluctuate"
    else codes "Insufficient data for reliable estimate, using fallback rates"

-- A share of a fee in percent, rounded down.
abbrev pub share : ℤ → ℕ → ℤ
share fee percent = div_floor (fee *ℤ pos percent) 100

unfoldable pub estimate_of : FeeSpeed → ℕ → ℕ → FeeEstimate
estimate_of speed base priority =
    let m = multiplier speed in
    let max_fee_per_gas = pos (base * m + priority * m) in
    let confidence = calculate_confidence base priority in
    record {
      chain_id = codes "ethereum";
      min_fee = share max_fee_per_gas 80 *ℤ pos simple_gas;
      max_fee = share max_fee_per_gas 150 *ℤ pos simple_gas;
      recommended = max_fee_per_gas *ℤ pos simple_gas;
      confidence = confidence;
      reason = generate_reason confidence base priority;
      estimated_blocks = estimated_blocks speed;
      base_fee = some (pos base);
    }

unfoldable pub fallback_base_gwei : FeeSpeed → ℕ
fallback_base_gwei fast = 50
fallback_base_gwei normal = 30
fallback_base_gwei slow = 20
fallback_base_gwei (other_speed s) = 30

unfoldable pub fallback_priority_gwei : FeeSpeed → ℕ
fallback_priority_gwei fast = 3
fallback_priority_gwei normal = 2
fallback_priority_gwei slow = 1
fallback_priority_gwei (other_speed s) = 2

unfoldable pub fallback_estimate : FeeSpeed → FeeEstimate
fallback_estimate speed =
    let fee =
      pos ((fallback_base_gwei speed + fallback_priority_gwei speed) * gwei) *ℤ pos simple_gas in
    record {
      chain_id = codes "ethereum";
      min_fee = share fee 80;
      max_fee = share fee 150;
      recommended = fee;
      confidence = pos 50;
      reason = codes "Using fallback estimates (RPC unavailable)";
      estimated_blocks = estimated_blocks speed;
      base_fee = some (pos (fallback_base_gwei speed * gwei));
    }

-- The estimate for another amount of gas, which is read as an int64.
unfoldable pub rescale : ℕ → FeeEstimate → FeeEstimate
rescale gas_limit base =
    let fee = div_floor base.recommended simple_gas *ℤ wrap64 (pos gas_limit) in
    record base { min_fee = share fee 80; recommended = fee; max_fee = share fee 150 }

abbrev pub or_default : ℕ → Result ℕ → ℕ
or_default d (ok n) = n
or_default d (err e) = d

module _ (json : Json) {S : TxStore} (node : Node Request) where
  unfoldable pub estimate : TransactionRequest → World S Request → World S Request × FeeEstimate
  estimate req w =
      let (w1, base) = base_fee json node w in
      let (w2, priority) = priority_fee json node 10 w1 in
      elim base [
        | err e ↦ (w1, fallback_estimate req.fee_speed)
        | ok b ↦ (w2, estimate_of req.fee_speed b (or_default default_priority_fee priority))
      ]

  unfoldable pub estimate_with_gas_limit :
      TransactionRequest → ℕ → World S Request → World S Request × FeeEstimate
  estimate_with_gas_limit req gas_limit w =
      let (w', base) = estimate req w in (w', rescale gas_limit base)
