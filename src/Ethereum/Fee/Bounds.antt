-- ===== src/Ethereum/Fee/Bounds.antt =====
-- The order of the bounds of an estimate, and its confidence.
use arc_signv.Common.{ℕ, ◌+◌, ◌*◌, ◌/◌, ◌^◌, ◌<◌, ◌≡◌, refl, arith, inl, inr}
use arc_signv.Common.Int.{pos, pos_part, ◌≤ℤ◌, ◌*ℤ◌, div_floor}
use arc_signv.Common.Word.{wrap64-pos}
use arc_signv.Chain.{Result-cases, FeeEstimate, FeeSpeed, TransactionRequest}
use arc_signv.Storage.{TxStore}
use arc_signv.Adapter.{World, Node}
use arc_signv.Chain.Estimates.{IsOrdered}
use arc_signv.Ethereum.Node.{Request, Json, base_fee}
use arc_signv.Ethereum.Fee.{
  multiplier, calculate_confidence, estimate_of, fallback_estimate, fallback_base_gwei,
  fallback_priority_gwei, share, rescale, estimate, estimate_with_gas_limit, simple_gas, gwei,
}

confidence-bounds :
    (base priority : ℕ)
    → (pos 50 ≤ℤ calculate_confidence base priority)
      × (calculate_confidence base priority ≤ℤ pos 100)
unfolding calculate_confidence
confidence-bounds base priority = ground arith

mul-pos : (a b : ℕ) → pos a *ℤ pos b ≡ pos (a * b)
unfolding ◌*ℤ◌
mul-pos a b = ground arith

share-pos : (a p : ℕ) → share (pos a) p ≡ pos (a * p / 100)
unfolding div_floor
share-pos a p = rw (mul-pos a p) refl

estimate_of-IsOrdered :
    (speed : FeeSpeed) (base priority : ℕ) → IsOrdered (estimate_of speed base priority)
unfolding estimate_of
estimate_of-IsOrdered speed base priority =
    let f = base * multiplier speed + priority * multiplier speed in
    record {
      low =
          rw (share-pos f 80, mul-pos (f * 80 / 100) simple_gas, mul-pos f simple_gas)
            (omega arith);
      high =
          rw (share-pos f 150, mul-pos (f * 150 / 100) simple_gas, mul-pos f simple_gas)
            (omega arith);
      nonneg = rw (share-pos f 80, mul-pos (f * 80 / 100) simple_gas) (omega arith);
      unsure = (confidence-bounds base priority).0;
      sure = (confidence-bounds base priority).1;
    }

shares-ordered :
    (a : ℕ)
    → (share (pos a) 80 ≤ℤ pos a) × (pos a ≤ℤ share (pos a) 150) × (pos 0 ≤ℤ share (pos a) 80)
shares-ordered a = ground (arith, share-pos a 80, share-pos a 150)

fallback-IsOrdered : (speed : FeeSpeed) → IsOrdered (fallback_estimate speed)
unfolding fallback_estimate
fallback-IsOrdered speed =
    let a = (fallback_base_gwei speed + fallback_priority_gwei speed) * gwei in
    let s = shares-ordered (a * simple_gas) in
    record {
      low = rw (mul-pos a simple_gas) s.0;
      high = rw (mul-pos a simple_gas) s.1;
      nonneg = rw (mul-pos a simple_gas) s.2;
      unsure = omega arith;
      sure = omega arith;
    }

rescale-IsOrdered :
    (gas_limit : ℕ) (e : FeeEstimate)
    → gas_limit < 2 ^ 63
    → IsOrdered e
    → IsOrdered (rescale gas_limit e)
unfolding rescale
rescale-IsOrdered gas_limit e small h =
    let rate = pos_part e.recommended / simple_gas in
    let rate_is : div_floor e.recommended simple_gas ≡ pos rate =
      unfold div_floor in ground (arith, h.low, h.nonneg) in
    let s = shares-ordered (rate * gas_limit) in
    record {
      low = rw (wrap64-pos gas_limit small, rate_is, mul-pos rate gas_limit) s.0;
      high = rw (wrap64-pos gas_limit small, rate_is, mul-pos rate gas_limit) s.1;
      nonneg = rw (wrap64-pos gas_limit small, rate_is, mul-pos rate gas_limit) s.2;
      unsure = h.unsure;
      sure = h.sure;
    }

module _ (json : Json) {S : TxStore} (node : Node Request) where
  base-IsOrdered :
      (req : TransactionRequest) (w : World S Request) → IsOrdered (estimate json node req w).1
  base-IsOrdered req w = elim (Result-cases (base_fee json node w).1) [
    | inr (e, lost) ↦ unfold estimate in rw (lost, estimate) (fallback-IsOrdered req.fee_speed)
    | inl (b, found) ↦
        unfold estimate in rw (found, estimate) (estimate_of-IsOrdered req.fee_speed b _)
  ]

  -- Both estimates have their bounds in order, none negative, and a confidence between 50 and 100,
  -- whatever the node answers: for a simple transfer, and for an amount of gas below 2^63.
  pub estimates-IsOrdered :
      (req : TransactionRequest) (gas_limit : ℕ) (w : World S Request)
      → gas_limit < 2 ^ 63
      → IsOrdered (estimate json node req w).1
        × IsOrdered (estimate_with_gas_limit json node req gas_limit w).1
  unfolding estimate_with_gas_limit
  estimates-IsOrdered req gas_limit w small =
      (base-IsOrdered req w, rescale-IsOrdered gas_limit _ small (base-IsOrdered req w))
