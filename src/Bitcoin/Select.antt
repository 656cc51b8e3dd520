-- ===== src/Bitcoin/Select.antt =====
-- `selectUTXOs` of src/chainadapter/bitcoin/builder.go, in int64 arithmetic.
pub mod Funds
use arc_signv.Common.{ℕ, ◌+◌, ◌*◌, Bool, ◌&&◌, List, [], ◌∷◌, ◌++◌, none, if◌then◌else◌, length}
use arc_signv.Common.Text.{Str, codes, decimal}
use arc_signv.Common.Int.{ℤ, pos, leb_ℤ, ltb_ℤ}
use arc_signv.Common.Word.{add64, sub64, mul64}
use arc_signv.Chain.{Result, ok, err, GoError, new_non_retryable_error}
use arc_signv.Bitcoin.{Utxo}

-- The loop: what is selected from here on, and the total with it.
unfoldable pub take_until : ℤ → ℤ → List Utxo → List Utxo × ℤ
take_until total_needed total_selected [] = ([], total_selected)
take_until total_needed total_selected (u ∷ us) =
    let total = add64 total_selected u.amount in
    let (selected, reached) = take_until total_needed total us in
    if leb_ℤ total_needed total then (u ∷ [], total) else (u ∷ selected, reached)

unfoldable pub insufficient_funds : ℤ → ℤ → GoError
insufficient_funds have need =
    new_non_retryable_error (codes "ERR_INSUFFICIENT_FUNDS")
      (codes "insufficient funds: have "
        ++ decimal have
        ++ codes " satoshis, need "
        ++ decimal need
        ++ codes " satoshis")
      none

unfoldable pub estimated_size : ℕ → ℤ
estimated_size inputs = add64 (add64 (pos 10) (mul64 (pos 148) (pos inputs))) (pos (34 * 2))

abbrev pub dust_threshold : ℤ
dust_threshold = pos 546

unfoldable pub select_utxos : List Utxo → ℤ → ℤ → Result (List Utxo × ℤ)
select_utxos utxos amount fee_rate =
    let estimated_fee = mul64 (estimated_size (length utxos)) fee_rate in
    let total_needed = add64 amount estimated_fee in
    let (selected, total_selected) = take_until total_needed (pos 0) utxos in
    let change_amount = sub64 (sub64 total_selected amount) estimated_fee in
    if ltb_ℤ total_selected total_needed
    then err (insufficient_funds total_selected total_needed)
    else if ltb_ℤ (pos 0) change_amount && ltb_ℤ change_amount dust_threshold
    then ok (selected, pos 0)
    else ok (selected, change_amount)
