-- ===== src/Bitcoin/Adapter/Status.antt =====
-- `QueryStatus` of the Bitcoin adapter.
use mathlib.Core.Path.{subst}
use arc_signv.Common.{
  ◌≡◌, refl, sym, ap, ◌∙◌, true, [], ◌⊎◌, inl, inr, Bool-cases, arith, Option, none, some,
}
use arc_signv.Common.Text.{Str, str_eq}
use arc_signv.Common.Int.{ℤ, pos, ◌≤ℤ◌, ◌<ℤ◌}
use arc_signv.Common.Float.{FloatOps}
use arc_signv.Chain.{GoError, ok, err, Result-cases, ok-injective, TransactionStatus}
use arc_signv.Chain.TxStatus.{pending, confirmed, finalized}
use arc_signv.Storage.{TxStore}
use arc_signv.Adapter.{World, Node, ask}
use arc_signv.Bitcoin.Node.{
  Request, Json, RawTransactionResult, raw_transaction, block, get_raw_transaction,
}
use arc_signv.Bitcoin.Adapter.{query_status, status_of, not_found, height}

-- The three statuses, by the number of confirmations. A negative number, by which a node reports a
-- conflict, counts as confirmed.
abbrev pub IsStatusOf : ℤ → Str → Type 0
IsStatusOf c s =
    ((c ≡ pos 0) × (s ≡ pending))
    ⊎ ((pos 6 ≤ℤ c) × (s ≡ finalized))
    ⊎ ((pos 1 ≤ℤ c) × (c <ℤ pos 6) × (s ≡ confirmed))
    ⊎ ((c <ℤ pos 0) × (s ≡ confirmed))

status_of-IsStatusOf : (c : ℤ) → IsStatusOf c (status_of c)
unfolding status_of
status_of-IsStatusOf c = ground arith

module _ (ops : FloatOps) (json : Json ops.Float) {S : TxStore} (node : Node Request) where
  raw_world :
      (tx_hash : Str) (w : World S Request)
      → (raw_transaction ops json node tx_hash true w).0
        ≡ (ask node (get_raw_transaction tx_hash true) w).0
  unfolding raw_transaction
  raw_world tx_hash w = refl

  raw_found :
      (tx_hash : Str) (w : World S Request) (tx : RawTransactionResult)
      → (raw_transaction ops json node tx_hash true w).1 ≡ ok tx
      → raw_transaction ops json node tx_hash true w
        ≡ ((ask node (get_raw_transaction tx_hash true) w).0, ok tx)
  raw_found tx_hash w tx found =
      ap (λ x. ((raw_transaction ops json node tx_hash true w).0, x)) found
      ∙ ap (λ v. (v, ok tx)) (raw_world tx_hash w)

  raw_store :
      (tx_hash : Str) (w : World S Request)
      → (raw_transaction ops json node tx_hash true w).0.store ≡ w.store
  unfolding raw_transaction ask
  raw_store tx_hash w = refl

  block_store :
      (block_hash : Str) (w : World S Request)
      → (block ops json node block_hash 1 w).0.store ≡ w.store
  unfolding block ask
  block_store block_hash w = refl

  query_status-cases :
      (now : ℤ) (tx_hash : Str) (w : World S Request)
      → ((v : World S Request) × (e : GoError) × (query_status ops json node now tx_hash w
            ≡ (v, err e)))
        ⊎ ((v : World S Request) × (tx : RawTransactionResult) × (number : Option ℤ)
            × (hash : Option Str) × ((raw_transaction ops json node tx_hash true w).1 ≡ ok tx)
            × (query_status ops json node now tx_hash w ≡ (
              v,
              ok (record {
                tx_hash = tx_hash;
                status = status_of tx.confirmations;
                confirmations = tx.confirmations;
                block_number = number;
                block_hash = hash;
                updated_at = now;
                error = none;
              }),
            ))
            × (v.store ≡ w.store))
  query_status-cases now tx_hash w =
      let w1 = (raw_transaction ops json node tx_hash true w).0 in
      elim (Result-cases (raw_transaction ops json node tx_hash true w).1) [
        | inr (e, lost) ↦
            inl (w1, not_found tx_hash e, (unfold query_status in rw (lost, query_status)))
        | inl (tx, found) ↦ elim (Bool-cases (str_eq tx.block_hash [])) [
          | inl loose ↦ inr (
            w1,
            tx,
            none,
            none,
            found,
            (unfold query_status in rw (found, loose, query_status)),
            raw_store tx_hash w,
          )
          | inr mined ↦ inr (
            (block ops json node tx.block_hash 1 w1).0,
            tx,
            height (block ops json node tx.block_hash 1 w1).1,
            some tx.block_hash,
            found,
            (unfold query_status in rw (found, mined, query_status)),
            block_store tx.block_hash w1 ∙ raw_store tx_hash w,
          )
        ]
      ]

  -- What `QueryStatus` reports is what the node answered to the request for the transaction, read as
  -- a status by its confirmations; the store is left as it is.
  pub query_status-reports :
      (now : ℤ) (tx_hash : Str) (w w' : World S Request) (st : TransactionStatus)
      → query_status ops json node now tx_hash w ≡ (w', ok st)
      → (tx : RawTransactionResult) × (raw_transaction ops json node tx_hash true w
          ≡ ((ask node (get_raw_transaction tx_hash true) w).0, ok tx))
        × (st.tx_hash ≡ tx_hash)
        × (st.confirmations ≡ tx.confirmations)
        × IsStatusOf tx.confirmations st.status
        × (w'.store ≡ w.store)
  query_status-reports now tx_hash w w' st h = elim (query_status-cases now tx_hash w) [
    | inl (v, e, lost) ↦ cc
    | inr (v, tx, number, hash, found, said, kept) ↦
        let st_is = ok-injective (ap (λ x. x.1) (sym said ∙ h)) in
        let w_is : v ≡ w' = ap (λ x. x.0) (sym said ∙ h) in
        (
          tx,
          raw_found tx_hash w tx found,
          sym (ap (λ (x : TransactionStatus). x.tx_hash) st_is),
          sym (ap (λ (x : TransactionStatus). x.confirmations) st_is),
          subst (IsStatusOf tx.confirmations) (ap (λ (x : TransactionStatus). x.status) st_is)
              (status_of-IsStatusOf tx.confirmations),
          ap (λ (x : World S Request). x.store) (sym w_is) ∙ kept,
        )
  ]
