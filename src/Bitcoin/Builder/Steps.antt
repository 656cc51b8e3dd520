-- ===== src/Bitcoin/Builder/Steps.antt =====
-- The steps of a build that succeeds, and what each of them adds to the transaction.
use mathlib.Core.Path.{subst}
use arc_signv.Common.{
  ◌⊎◌, ℕ, ◌+◌, ◌-◌, ◌≡◌, refl, sym, ap, Bool, List, [], ◌∷◌, ◌++◌, arith, if◌then◌else◌, inl, inr,
}
use arc_signv.Common.Text.{Str, codes}
use arc_signv.Common.Int.{ℤ, pos, pos_part}
use arc_signv.Common.Word.{wrap64}
use arc_signv.Chain.{ok, bind_ok, ok-injective, TransactionRequest}
use arc_signv.Bitcoin.{Utxo, TxIn, TxOut, BtcLib}
use arc_signv.Bitcoin.Select.{select_utxos}
use arc_signv.Bitcoin.Builder.{
  Draft, validate_request, add_inputs, pay_to, change_output, memo_output, draft, amount_of,
  rbf_enabled, wrap_error, max_sequence,
}

module _ (lib : BtcLib) where
  open lib use {Hash, Script, serialize_size, serialize, tx_hash, new_hash_from_str}

  abbrev pub total_out : List (TxOut Script) → ℕ
  total_out [] = 0
  total_out (o ∷ os) = pos_part o.value + total_out os

  -- What the steps of a successful draft produced.
  pub record Steps (network : Str) (req : TransactionRequest) (utxos : List Utxo) (rate : ℤ)
      (d : Draft lib) : Type 0 where
    pub valid : validate_request lib network req ≡ ok tt
    pub selection : List Utxo × ℤ
    pub selects : select_utxos utxos (wrap64 (amount_of req)) rate ≡ ok selection
    pub inputs : List (TxIn Hash)
    pub adds : add_inputs lib (rbf_enabled req) selection.0 ≡ ok inputs
    pub recipient : TxOut Script
    pub pays :
        pay_to lib network req.to
          (codes "invalid recipient address: ")
          (codes "failed to create recipient script")
          (wrap64 (amount_of req))
        ≡ ok recipient
    pub change : List (TxOut Script) × Str
    pub changes : change_output lib network req selection.1 ≡ ok change
    pub memo : List (TxOut Script)
    pub notes : memo_output lib req.memo ≡ ok memo
    pub made : d ≡ record {
      tx = record { tx_in = inputs; tx_out = recipient ∷ (change.0 ++ memo) };
      selected = selection.0;
      change_amount = selection.1;
      change_address = change.1;
    }

  pub draft-Steps :
      (network : Str) (req : TransactionRequest) (utxos : List Utxo) (rate : ℤ) (d : Draft lib)
      → draft lib network req utxos rate ≡ ok d
      → Steps network req utxos rate d
  unfolding draft
  draft-Steps network req utxos rate d h =
      let (_, valid, h1) = bind_ok (validate_request lib network req) _ h in
      let (s, selects, h2) = bind_ok (select_utxos utxos (wrap64 (amount_of req)) rate) _ h1 in
      let (inputs, adds, h3) = bind_ok (add_inputs lib (rbf_enabled req) s.0) _ h2 in
      let (recipient, pays, h4) =
        bind_ok (pay_to lib network req.to _ _ (wrap64 (amount_of req))) _ h3 in
      let (c, changes, h5) = bind_ok (change_output lib network req s.1) _ h4 in
      let (memo, notes, h6) = bind_ok (memo_output lib req.memo) _ h5 in
      record {
        valid = valid;
        selection = s;
        selects = selects;
        inputs = inputs;
        adds = adds;
        recipient = recipient;
        pays = pays;
        change = c;
        changes = changes;
        memo = memo;
        notes = notes;
        made = sym (ok-injective h6);
      }

  pub pay_to-value :
      (network address bad_address bad_script : Str) (v : ℤ) (o : TxOut Script)
      → pay_to lib network address bad_address bad_script v ≡ ok o
      → o.value ≡ v
  unfolding pay_to
  pay_to-value network address bad_address bad_script v o h = ground arith

  pub memo-total :
      (memo : Str) (os : List (TxOut Script)) → memo_output lib memo ≡ ok os → total_out os ≡ 0
  unfolding memo_output
  memo-total memo os h = ground arith

  pub change-total :
      (network : Str) (req : TransactionRequest) (v : ℕ) (c : List (TxOut Script) × Str)
      → change_output lib network req (pos v) ≡ ok c
      → total_out c.0 ≡ v
  unfolding change_output
  change-total network req v c h = ground arith

  pub total_out-append :
      (os ps : List (TxOut Script)) → total_out (os ++ ps) ≡ total_out os + total_out ps
  total_out-append [] ps = omega arith
  total_out-append (o ∷ os) ps = omega (arith, total_out-append os ps)

  -- The inputs are those outputs, in their order, all with one sequence number.
  abbrev pub Spend : ℕ → List (TxIn Hash) → List Utxo → Type 0
  Spend n [] [] = Unit
  Spend n [] (u ∷ us) = ⊥
  Spend n (i ∷ ins) [] = ⊥
  Spend n (i ∷ ins) (u ∷ us) =
      (new_hash_from_str u.tx_id ≡ inl i.previous_hash)
      × (i.previous_index ≡ u.vout)
      × (i.sequence ≡ n)
      × Spend n ins us

  hash_of :
      (r : Hash ⊎ Str) (code message : Str) (x : Hash)
      → wrap_error r code message ≡ ok x
      → r ≡ inl x
  hash_of (inl y) code message x h = ap inl (ok-injective h)
  hash_of (inr t) code message x h = cc

  pub add_inputs-Spend :
      (rbf : Bool) (us : List Utxo) (ins : List (TxIn Hash))
      → add_inputs lib rbf us ≡ ok ins
      → Spend (if rbf then max_sequence - 2 else max_sequence) ins us
  unfolding add_inputs
  add_inputs-Spend rbf [] ins h =
      let eq : [] ≡ ins = ok-injective h in
      subst (λ l. Spend (if rbf then max_sequence - 2 else max_sequence) l []) eq tt
  add_inputs-Spend rbf (u ∷ us) ins h =
      let (x, hashed, h1) = bind_ok (wrap_error (new_hash_from_str u.tx_id) _ _) _ h in
      let (rest, added, h2) = bind_ok (add_inputs lib rbf us) _ h1 in
      subst (λ l. Spend (if rbf then max_sequence - 2 else max_sequence) l (u ∷ us))
        (ok-injective h2)
        (
          hash_of (new_hash_from_str u.tx_id) _ _ x hashed,
          refl,
          refl,
          add_inputs-Spend rbf us rest added,
        )
