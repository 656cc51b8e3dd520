-- ===== src/Bitcoin/Select/Funds.antt =====
-- What the selection of inputs promises, for amounts whose sums stay in int64.
use mathlib.Core.Path.{subst}
use arc_signv.Common.{
  ◌&&◌, ℕ, ◌+◌, ◌-◌, ◌*◌, ◌^◌, ◌≤◌, ◌<◌, ◌≡◌, refl, sym, ap, ◌∙◌, List, [], ◌∷◌, ◌++◌, arith, ◌⊎◌,
  inl, inr, if◌then◌else◌, length, All, Bool-cases, ltb,
}
use arc_signv.Common.Int.{ℤ, pos, pos_part, ◌≤ℤ◌, leb_ℤ, ltb_ℤ}
use arc_signv.Common.Word.{add64, sub64, mul64, add64-pos, sub64-pos, mul64-pos}
use arc_signv.Chain.{ok, err}
use arc_signv.Bitcoin.{Utxo}
use arc_signv.Bitcoin.Select.{take_until, insufficient_funds, estimated_size, select_utxos}

abbrev pub value : Utxo → ℕ
value u = pos_part u.amount

abbrev pub total_value : List Utxo → ℕ
total_value [] = 0
total_value (u ∷ us) = value u + total_value us

-- No amount is negative.
abbrev pub AreAmounts : List Utxo → Type 0
AreAmounts = All λ u. pos 0 ≤ℤ u.amount

amount_value : (u : Utxo) → pos 0 ≤ℤ u.amount → u.amount ≡ pos (value u)
amount_value u h = ground arith

-- A prefix whose total, added to what was there, reaches the target, or everything.
abbrev Takes : ℕ → ℕ → List Utxo → List Utxo × ℤ → Type 0
Takes needed sofar us r =
    (rest : List Utxo) × (r.0 ++ rest ≡ us)
    × (r.1 ≡ pos (sofar + total_value r.0))
    × ((needed ≤ sofar + total_value r.0) ⊎ (rest ≡ []))

take_until-Takes :
    (needed sofar : ℕ) (us : List Utxo)
    → AreAmounts us
    → sofar + total_value us < 2 ^ 63
    → Takes needed sofar us (take_until (pos needed) (pos sofar) us)
take_until-Takes needed sofar [] nonneg small =
    unfold take_until in ([], refl, ground arith, inr refl)
take_until-Takes needed sofar (u ∷ us) nonneg small =
    let t = sofar + value u in
    let sum : add64 (pos sofar) u.amount ≡ pos t =
      rw (amount_value u nonneg.0) (add64-pos sofar (value u) (omega arith)) in
    elim (Bool-cases (leb_ℤ (pos needed) (pos t))) [
      | inl reached ↦
          let eq : take_until (pos needed) (pos sofar) (u ∷ us) ≡ (u ∷ [], pos t) =
            unfold take_until in rw (sum, reached) in
          subst (Takes needed sofar (u ∷ us)) (sym eq) (us, refl, ground arith, inl (ground arith))
      | inr short ↦
          let r = take_until (pos needed) (pos t) us in
          let eq : take_until (pos needed) (pos sofar) (u ∷ us) ≡ (u ∷ r.0, r.1) =
            unfold take_until in rw (sum, short) in
          let (rest, split, total, enough) = take_until-Takes needed t us nonneg.1 (omega arith) in
          subst (Takes needed sofar (u ∷ us)) (sym eq)
            (rest, ap (◌∷◌ u) split, rw total (ap pos (omega arith)), ground (arith, enough))
    ]

estimated_size-pos : (n : ℕ) → 148 * n + 78 < 2 ^ 63 → estimated_size n ≡ pos (148 * n + 78)
unfolding estimated_size
estimated_size-pos n small =
    rw (mul64-pos 148 n (omega arith), add64-pos 10 (148 * n) (omega arith))
      (add64-pos (10 + 148 * n) 68 (omega arith) ∙ ap pos (omega arith))

-- The fee that the selection sets aside: for a transaction that spends every candidate.
abbrev pub fee_for : ℕ → ℕ → ℕ
fee_for inputs rate = (148 * inputs + 78) * rate

total_value-append : (us vs : List Utxo) → total_value (us ++ vs) ≡ total_value us + total_value vs
total_value-append [] vs = omega arith
total_value-append (u ∷ us) vs = omega (arith, total_value-append us vs)

-- The inputs that pay for an amount at a rate: how the selected prefix splits into the amount, the
-- change and what the miners get, which is the fee set aside and less than the dust threshold more.
pub record Pays (utxos : List Utxo) (amount rate : ℕ) (selected : List Utxo) (change : ℕ)
    : Type 0 where
  pub unspent : List Utxo
  pub paid : ℕ
  pub IsPrefix : selected ++ unspent ≡ utxos
  pub balance : total_value selected ≡ amount + change + paid
  pub covers : fee_for (length utxos) rate ≤ paid
  pub rounds : paid < fee_for (length utxos) rate + 546
  pub no_dust : (change ≡ 0) ⊎ (546 ≤ change)

module _ (utxos : List Utxo) (amount rate : ℕ) (nonneg : AreAmounts utxos)
    (small : total_value utxos < 2 ^ 63) (positive : 0 < rate)
    (fits : amount + fee_for (length utxos) rate < 2 ^ 63) where
  needed : ℕ
  needed = amount + fee_for (length utxos) rate

  reached : List Utxo × ℤ
  reached = take_until (pos needed) (pos 0) utxos

  fee_set_aside :
      mul64 (estimated_size (length utxos)) (pos rate) ≡ pos (fee_for (length utxos) rate)
  fee_set_aside =
      let size = 148 * length utxos + 78 in
      let bound : size ≤ size * rate = grind arith in
      rw (estimated_size-pos (length utxos) (omega arith)) (mul64-pos size rate (omega arith))

  target : add64 (pos amount) (pos (fee_for (length utxos) rate)) ≡ pos needed
  unfolding needed
  target = add64-pos amount (fee_for (length utxos) rate) fits

  -- The change before dust goes to the fee.
  remainder : ℕ
  remainder = total_value reached.0 - amount - fee_for (length utxos) rate

  change : ℕ
  change = if ltb remainder 546 then 0 else remainder

  select-eq : select_utxos utxos (pos amount) (pos rate) ≡ (
      if ltb_ℤ reached.1 (pos needed)
      then err (insufficient_funds reached.1 (pos needed))
      else if ltb_ℤ
            (pos 0)
            (sub64 (sub64 reached.1 (pos amount)) (pos (fee_for (length utxos) rate)))
          && ltb_ℤ
              (sub64 (sub64 reached.1 (pos amount)) (pos (fee_for (length utxos) rate)))
              (pos 546)
      then ok (reached.0, pos 0)
      else ok (reached.0, sub64 (sub64 reached.1 (pos amount)) (pos (fee_for (length utxos) rate))))
  unfolding select_utxos reached
  select-eq = rw (fee_set_aside, target)

  taken : Takes needed 0 utxos reached
  unfolding reached
  taken = take_until-Takes needed 0 utxos nonneg (omega arith)

  prefix_value : total_value reached.0 + total_value taken.0 ≡ total_value utxos
  prefix_value = sym (total_value-append reached.0 taken.0) ∙ ap total_value taken.1

  select_fails :
      total_value utxos < needed
      → select_utxos utxos (pos amount) (pos rate) ≡ err (insufficient_funds reached.1 (pos needed))
  select_fails poor = select-eq ∙ ground (arith, taken.2, prefix_value)

  reaches : needed ≤ total_value utxos → needed ≤ total_value reached.0
  reaches rich = ground (arith, taken.3, prefix_value)

  change-eq :
      needed ≤ total_value utxos
      → sub64 (sub64 reached.1 (pos amount)) (pos (fee_for (length utxos) rate)) ≡ pos remainder
  unfolding needed remainder
  change-eq rich =
      let total : reached.1 ≡ pos (total_value reached.0) = taken.2 ∙ ap pos (omega arith) in
      rw
        (
          total,
          sub64-pos (total_value reached.0) amount (omega (arith, reaches rich))
              (omega (arith, prefix_value)),
        )
        (sub64-pos (total_value reached.0 - amount) (fee_for (length utxos) rate)
          (omega (arith, reaches rich)) (omega (arith, prefix_value)))

  select_succeeds :
      needed ≤ total_value utxos
      → select_utxos utxos (pos amount) (pos rate) ≡ ok (reached.0, pos change)
  unfolding change
  select_succeeds rich = select-eq ∙ rw (change-eq rich) (ground (arith, taken.2, reaches rich))

  select-Pays : needed ≤ total_value utxos → Pays utxos amount rate reached.0 change
  unfolding change remainder needed
  select-Pays rich = record {
    unspent = taken.0;
    paid = total_value reached.0 - amount - change;
    IsPrefix = taken.1;
    balance = ground (arith, reaches rich);
    covers = ground (arith, reaches rich);
    rounds = ground (arith, reaches rich);
    no_dust = ground arith;
  }

  -- For candidates with amounts that are not negative, a fee rate that is positive, and both the sum of
  -- all candidates and the amount with the fee set aside below 2^63: `selectUTXOs` fails with
  -- insufficient funds if all candidates together are worth less than the amount and that fee; else
  -- what it selects pays for both, and the change is never dust.
  pub select_lem :
      (total_value utxos < amount + fee_for (length utxos) rate
        → (have : ℤ) × (select_utxos utxos (pos amount) (pos rate)
            ≡ err (insufficient_funds have (pos (amount + fee_for (length utxos) rate)))))
      × (amount + fee_for (length utxos) rate ≤ total_value utxos
          → (selected : List Utxo) × (left : ℕ) × (select_utxos utxos (pos amount) (pos rate)
              ≡ ok (selected, pos left))
            × Pays utxos amount rate selected left)
  unfolding needed
  select_lem = (
    λ poor. (reached.1, select_fails poor),
    λ rich. (reached.0, change, select_succeeds rich, select-Pays rich),
  )
