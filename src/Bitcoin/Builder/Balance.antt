-- ===== src/Bitcoin/Builder/Balance.antt =====
-- Where the money of a built transaction goes.
use mathlib.Core.Path.{subst, subst₂}
use arc_signv.Common.{
  Option, ltb→lt, ◌⊎◌, ℕ, ◌+◌, ◌-◌, ◌^◌, ◌<◌, ◌≡◌, sym, ap, ◌∙◌, List, ◌∷◌, ◌++◌, arith, none, some,
  if◌then◌else◌, length, ltb, Bool-cases, inl, inr,
}
use arc_signv.Common.Text.{Str}
use arc_signv.Common.Int.{ℤ, pos, pos_part}
use arc_signv.Common.Word.{mul64, wrap64, wrap64-pos}
use arc_signv.Chain.{ok, bind_ok, ok-injective, TransactionRequest, UnsignedTransaction}
use arc_signv.Bitcoin.{Utxo, TxOut, MsgTx, BtcLib}
use arc_signv.Bitcoin.Select.{select_utxos}
use arc_signv.Bitcoin.Select.Funds.{total_value, AreAmounts, fee_for, Pays, select_lem}
use arc_signv.Bitcoin.Builder.{
  Details, Draft, draft, build, amount_of, rbf_enabled, wrap_error, max_sequence,
}
use arc_signv.Bitcoin.Builder.Steps.{
  draft-Steps, pay_to-value, memo-total, change-total, total_out-append, total_out, Spend,
  add_inputs-Spend,
}

module _ (lib : BtcLib) where
  open lib use {Hash, Script, serialize_size, serialize, tx_hash, new_hash_from_str}

  -- What a built transaction is to a request: it spends the selected outputs, pays the amount in its
  -- first output and the change and no more in the others, and what is left over is paid as the fee.
  pub record Honours (req : TransactionRequest) (utxos : List Utxo) (amount rate : ℕ)
      (tx : MsgTx Hash Script) (u : UnsignedTransaction Details) : Type 0 where
    pub change : ℕ
    pub pays : Pays utxos amount rate u.details.utxos change
    pub spends :
        Spend lib
          (if rbf_enabled req then max_sequence - 2 else max_sequence)
          tx.tx_in
          u.details.utxos
    pub outputs : total_out lib tx.tx_out ≡ amount + change
    pub recipient : TxOut Script
    pub others : List (TxOut Script)
    pub first : tx.tx_out ≡ recipient ∷ others
    pub first_pays : recipient.value ≡ pos amount
    pub reported_change : u.details.change_amount ≡ pos change
    pub reported_fee : u.fee ≡ mul64 (serialize_size tx) (pos rate)
    pub reported_size : u.details.tx_size ≡ serialize_size tx
    pub identified : u.id ≡ tx_hash tx
    pub payload : serialize tx ≡ inl u.signing_payload

  selected_of :
      (utxos : List Utxo) (amount rate : ℕ) (s : List Utxo × ℤ)
      → AreAmounts utxos
      → total_value utxos < 2 ^ 63
      → 0 < rate
      → amount + fee_for (length utxos) rate < 2 ^ 63
      → select_utxos utxos (pos amount) (pos rate) ≡ ok s
      → (left : ℕ) × (s.1 ≡ pos left) × Pays utxos amount rate s.0 left
  selected_of utxos amount rate s nonneg small positive fits h =
      let (fails, succeeds) = select_lem utxos amount rate nonneg small positive fits in
      elim (Bool-cases (ltb (total_value utxos) (amount + fee_for (length utxos) rate))) [
        | inl poor ↦ let (have, failed) = fails (ltb→lt _ _ poor) in cc
        | inr rich ↦
            let (selected, left, succeeded, pays) = succeeds (ground arith) in
            let same : (selected, pos left) ≡ s = ok-injective (sym succeeded ∙ h) in
            (
              left,
              sym (ap (λ r. r.1) same),
              subst (λ l. Pays utxos amount rate l left) (ap (λ r. r.0) same) pays,
            )
      ]

  payload_of : (r : Str ⊎ Str) (code message x : Str) → wrap_error r code message ≡ ok x → r ≡ inl x
  payload_of (inl y) code message x h = ap inl (ok-injective h)
  payload_of (inr t) code message x h = cc

  -- A transaction that `Build` returns spends a prefix of the candidates, in which the amount, the
  -- change and the miners' part add up (for amounts whose sums stay in int64, at a positive rate).
  pub build-Honours :
      (now : ℤ) (network : Str) (req : TransactionRequest) (utxos : List Utxo) (amount rate : ℕ)
      (u : UnsignedTransaction Details)
      → req.amount ≡ some (pos amount)
      → AreAmounts utxos
      → total_value utxos < 2 ^ 63
      → 0 < rate
      → amount + fee_for (length utxos) rate < 2 ^ 63
      → build lib now network req utxos (pos rate) ≡ ok u
      → (tx : MsgTx Hash Script) × Honours req utxos amount rate tx u
  unfolding build
  build-Honours now network req utxos amount rate u asked nonneg small positive fits h =
      let (d, drafted, h1) = bind_ok (draft lib network req utxos (pos rate)) _ h in
      let (payload, wrote, h2) = bind_ok (wrap_error (serialize d.tx) _ _) _ h1 in
      let st = draft-Steps lib network req utxos (pos rate) d drafted in
      let built = sym (ok-injective h2) in
      let asked' : wrap64 (amount_of req) ≡ pos amount =
        ap (λ (a : Option ℤ). wrap64 (elim a [ none ↦ pos 0 | some b ↦ b ])) asked
        ∙ wrap64-pos amount (omega arith) in
      let selects : select_utxos utxos (pos amount) (pos rate) ≡ ok st.selection =
        ap (λ a. select_utxos utxos a (pos rate)) (sym asked') ∙ st.selects in
      let (left, same, pays) =
        selected_of utxos amount rate st.selection nonneg small positive fits selects in
      let e_sel : u.details.utxos ≡ st.selection.0 =
        ap (λ (v : UnsignedTransaction Details). v.details.utxos) built
        ∙ ap (λ (e : Draft lib). e.selected) st.made in
      let e_in = ap (λ (e : Draft lib). e.tx.tx_in) st.made in
      let e_out = ap (λ (e : Draft lib). e.tx.tx_out) st.made in
      (
        d.tx,
        record {
          change = left;
          pays = subst (λ l. Pays utxos amount rate l left) (sym e_sel) pays;
          spends =
              subst₂ (Spend lib (if rbf_enabled req then max_sequence - 2 else max_sequence))
                (sym e_in) (sym e_sel)
                (add_inputs-Spend lib (rbf_enabled req) st.selection.0 st.inputs st.adds);
          outputs =
              ap (total_out lib) e_out
              ∙ omega (
                arith,
                ap pos_part (pay_to-value lib network req.to _ _ _ st.recipient st.pays ∙ asked'),
                total_out-append lib st.change.0 st.memo,
                change-total lib network req left st.change (rw (← same) st.changes),
                memo-total lib req.memo st.memo st.notes,
              );
          recipient = st.recipient;
          others = st.change.0 ++ st.memo;
          first = e_out;
          first_pays = pay_to-value lib network req.to _ _ _ st.recipient st.pays ∙ asked';
          reported_change =
              ap (λ (v : UnsignedTransaction Details). v.details.change_amount) built
              ∙ ap (λ (e : Draft lib). e.change_amount) st.made
              ∙ same;
          reported_fee = ap (λ (v : UnsignedTransaction Details). v.fee) built;
          reported_size = ap (λ (v : UnsignedTransaction Details). v.details.tx_size) built;
          identified = ap (λ (v : UnsignedTransaction Details). v.id) built;
          payload =
              payload_of (serialize d.tx) _ _ payload wrote
              ∙ ap inl (sym (ap (λ (v : UnsignedTransaction Details). v.signing_payload) built));
        },
      )
