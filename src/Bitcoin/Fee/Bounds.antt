-- ===== src/Bitcoin/Fee/Bounds.antt =====
-- The order of the bounds of an estimate, and its confidence.
use arc_signv.Common.{
  ℕ, ◌+◌, ◌*◌, ◌/◌, ◌^◌, ◌≤◌, ◌<◌, ◌≡◌, refl, arith, ◌⊎◌, inl, inr, if◌then◌else◌, Bool-cases, ltb,
  ◌==◌,
}
use arc_signv.Common.Text.{codes}
use arc_signv.Common.Int.{ℤ, pos, pos_part, quot, eqb_ℤ, ◌≤ℤ◌}
use arc_signv.Common.Word.{mul64, mul64-pos}
use arc_signv.Common.Float.{FloatOps}
use arc_signv.Chain.{
  bind_ok, ok, Result-cases, FeeSpeed, slow, normal, fast, other_speed, TransactionRequest,
}
use arc_signv.Chain.Estimates.{IsOrdered}
use arc_signv.Storage.{TxStore}
use arc_signv.Adapter.{World, Node, ask}
use arc_signv.Bitcoin.Node.{
  Request, Json, smart_fee, smart_fee_of, sat_per_byte, read, estimate_smart_fee,
  EstimateSmartFeeResult,
}
use arc_signv.Bitcoin.Adapter.{target_blocks}
use arc_signv.Bitcoin.Fee.{
  min_rate, max_rate, clamp, calculate_confidence, estimate_of, fallback_estimate, fallback_rate,
  estimate, or_zero,
}

percent-pos :
    (rate share : ℕ)
    → rate * share < 2 ^ 63
    → quot (mul64 (pos rate) (pos share)) 100 ≡ pos (rate * share / 100)
unfolding quot
percent-pos rate share small = rw (mul64-pos rate share small) refl

min_rate-le :
    (rate slower : ℕ)
    → rate * 150 < 2 ^ 63
    → (r : ℕ) × (min_rate (pos rate) (pos slower) ≡ pos r) × (r ≤ rate)
unfolding min_rate
min_rate-le rate slower small =
    let r =
      if slower == 0
      then rate * 80 / 100
      else if ltb rate slower
      then rate * 90 / 100
      else slower in
    (r, ground (arith, percent-pos rate 80, percent-pos rate 90), ground arith)

max_rate-ge :
    (rate faster : ℕ)
    → rate * 150 < 2 ^ 63
    → (r : ℕ) × (max_rate (pos rate) (pos faster) ≡ pos r)
      × (rate ≤ r)
      × ((r ≤ rate * 150 / 100) ⊎ (r ≡ faster))
unfolding max_rate
max_rate-ge rate faster small =
    let r =
      if faster == 0
      then rate * 150 / 100
      else if ltb faster rate
      then rate * 120 / 100
      else faster in
    (r, ground (arith, percent-pos rate 150, percent-pos rate 120), ground arith, ground arith)

clamp-bounds : (c : ℤ) → (pos 50 ≤ℤ clamp c) × (clamp c ≤ℤ pos 100)
unfolding clamp
clamp-bounds c = ground arith

fallback-IsOrdered : (speed : FeeSpeed) → IsOrdered (fallback_estimate speed)
unfolding fallback_estimate fallback_rate mul64 quot
fallback-IsOrdered slow = record {
  low = omega arith;
  high = omega arith;
  nonneg = omega arith;
  unsure = omega arith;
  sure = omega arith;
}
fallback-IsOrdered normal = record {
  low = omega arith;
  high = omega arith;
  nonneg = omega arith;
  unsure = omega arith;
  sure = omega arith;
}
fallback-IsOrdered fast = record {
  low = omega arith;
  high = omega arith;
  nonneg = omega arith;
  unsure = omega arith;
  sure = omega arith;
}
fallback-IsOrdered (other_speed s) = record {
  low = omega arith;
  high = omega arith;
  nonneg = omega arith;
  unsure = omega arith;
  sure = omega arith;
}

module _ (ops : FloatOps) where
  confidence-bounds :
      (low rate high : ℤ)
      → (pos 50 ≤ℤ calculate_confidence ops low rate high)
        × (calculate_confidence ops low rate high ≤ℤ pos 100)
  unfolding calculate_confidence
  confidence-bounds low rate high = elim (Bool-cases (eqb_ℤ rate (pos 0))) [
    | inl none_known ↦ rw (none_known, calculate_confidence) (omega arith, omega arith)
    | inr known ↦ rw (known, calculate_confidence) (clamp-bounds _)
  ]

  -- A neighbour's rate is no answer, or not too large.
  estimate_of-IsOrdered :
      (speed : FeeSpeed) (rate slower faster : ℕ)
      → rate * 210 < 2 ^ 63
      → faster * 210 < 2 ^ 63
      → IsOrdered (estimate_of ops speed (pos rate) (pos slower) (pos faster))
  unfolding estimate_of
  estimate_of-IsOrdered speed rate slower faster small small' =
      let (l, low_is, below) = min_rate-le rate slower (omega arith) in
      let (h, high_is, above, from) = max_rate-ge rate faster (omega arith) in
      let sure =
        confidence-bounds (min_rate (pos rate) (pos slower)) (pos rate)
          (max_rate (pos rate) (pos faster)) in
      let low_fee : mul64 (min_rate (pos rate) (pos slower)) (pos 140) ≡ pos (l * 140) =
        rw low_is (mul64-pos l 140 (omega arith)) in
      let high_fee : mul64 (max_rate (pos rate) (pos faster)) (pos 140) ≡ pos (h * 140) =
        rw high_is (mul64-pos h 140 (ground (arith, from))) in
      let fee : mul64 (pos rate) (pos 140) ≡ pos (rate * 140) = mul64-pos rate 140 (omega arith) in
      record {
        low = rw (low_fee, fee) (omega arith);
        high = rw (high_fee, fee) (omega arith);
        nonneg = rw low_fee (omega arith);
        unsure = sure.0;
        sure = sure.1;
      }

module _ (ops : FloatOps) where
  -- A rate that the node gives is at least one satoshi per byte.
  sat_per_byte-ge : (f : ops.Float) → pos 1 ≤ℤ sat_per_byte ops f
  unfolding sat_per_byte
  sat_per_byte-ge f = ground arith

  smart_fee_of-ge :
      (fee : EstimateSmartFeeResult ops.Float) (r : ℤ) → smart_fee_of ops fee ≡ ok r → pos 1 ≤ℤ r
  unfolding smart_fee_of
  smart_fee_of-ge fee r h = ground (arith, sat_per_byte-ge fee.fee_rate)

-- Every rate that the node can give is small enough for the arithmetic.
abbrev pub GivesSmallRates : (ops : FloatOps) → Json ops.Float → TxStore → Node Request → Type 0
GivesSmallRates ops json S node =
    (target : ℕ) (w : World S Request) (r : ℤ)
    → (smart_fee ops json node target w).1 ≡ ok r
    → pos_part r * 210 < 2 ^ 63

module _ (ops : FloatOps) (json : Json ops.Float) {S : TxStore} (node : Node Request) where
  smart_fee-ge :
      (target : ℕ) (w : World S Request) (r : ℤ)
      → (smart_fee ops json node target w).1 ≡ ok r
      → pos 1 ≤ℤ r
  unfolding smart_fee ask
  smart_fee-ge target w r h =
      let (fee, _, given) =
        bind_ok
          (read (codes "estimatesmartfee") (codes "estimatesmartfee") json.smart_fee
            (node.call _ (estimate_smart_fee target)))
          (smart_fee_of ops) h in
      smart_fee_of-ge ops fee r given

  or_zero-small :
      GivesSmallRates ops json S node
      → (target : ℕ) (w : World S Request)
      → (n : ℕ) × (or_zero (smart_fee ops json node target w).1 ≡ pos n) × (n * 210 < 2 ^ 63)
  or_zero-small small target w = elim (Result-cases (smart_fee ops json node target w).1) [
    | inl (r, found) ↦ (
      pos_part r,
      rw found (ground (arith, smart_fee-ge target w r found)),
      small target w r found,
    )
    | inr (e, none_found) ↦ (0, rw none_found refl, omega arith)
  ]

  -- `Estimate` returns bounds in order, none negative, and a confidence between 50 and 100, whichever
  -- of its three calls fail (for rates below 2^63 / 210 satoshis per byte).
  pub estimate-IsOrdered :
      (req : TransactionRequest) (w : World S Request)
      → GivesSmallRates ops json S node
      → IsOrdered (estimate ops json node req w).1
  unfolding estimate
  estimate-IsOrdered req w small =
      let target = target_blocks req.fee_speed in
      let w1 = (smart_fee ops json node target w).0 in
      let w2 = (smart_fee ops json node (target * 2) w1).0 in
      elim (Result-cases (smart_fee ops json node target w).1) [
        | inr (e, lost) ↦ rw (lost, estimate) (fallback-IsOrdered req.fee_speed)
        | inl (r, found) ↦
            let r_is : r ≡ pos (pos_part r) = ground (arith, smart_fee-ge target w r found) in
            let (n, slower, _) = or_zero-small small (target * 2) w1 in
            let (m, faster, bound) = or_zero-small small (target / 2 + 1) w2 in
            rw (found, slower, faster, r_is, estimate)
              (estimate_of-IsOrdered ops req.fee_speed (pos_part r) n m (small target w r found)
                bound)
      ]
