-- ===== src/Chain/Estimates.antt =====
-- What the contract of `Estimate` in src/chainadapter/adapter.go asks of an estimate.
use arc_signv.Common.Int.{pos, ◌≤ℤ◌}
use arc_signv.Chain.{FeeEstimate}

-- Bounds in order, and a confidence between 50 and 100.
pub record IsOrdered (e : FeeEstimate) : Type 0 where
  pub low : e.min_fee ≤ℤ e.recommended
  pub high : e.recommended ≤ℤ e.max_fee
  pub nonneg : pos 0 ≤ℤ e.min_fee
  pub unsure : pos 50 ≤ℤ e.confidence
  pub sure : e.confidence ≤ℤ pos 100
