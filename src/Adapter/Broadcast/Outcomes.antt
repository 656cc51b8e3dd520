-- ===== src/Adapter/Broadcast/Outcomes.antt =====
-- How a submission can end, and what it leaves on record.
use arc_signv.Common.{
  ◌+◌, ◌^◌, ◌<◌, ◌≡◌, refl, sym, ap, ◌∙◌, true, false, [], Option, none, some, arith, ◌⊎◌, inl, inr,
  Bool-cases, Option-cases,
}
use arc_signv.Common.Text.{Str, codes, str_eq, hex, eq_refl}
use arc_signv.Common.Int.{ℤ, pos, pos_part, ◌≤ℤ◌, ltb_ℤ}
use arc_signv.Common.Word.{add64-pos}
use arc_signv.Chain.{
  Result, ok-injective, Result-cases, ok, err, GoError, SignedTransaction, BroadcastReceipt,
}
use arc_signv.Storage.{TxState, TxStore}
use arc_signv.Adapter.{World}
use arc_signv.Adapter.Broadcast.{
  Policy, existing_state, already_broadcast, next_state, remember, network_hash, send_new, submit,
  hash_mismatch, receipt, invalid_input,
}

-- The count is not below zero, and not the largest int64.
abbrev pub IsCount : TxState → Type 0
IsCount s = (pos 0 ≤ℤ s.retry_count) × (pos_part s.retry_count + 1 < 2 ^ 63)

pub next_count :
    (now : ℤ) (chain_id tx_hash raw_tx : Str) (existing : Option TxState)
    → ((s : TxState) → existing ≡ some s → IsCount s)
    → ltb_ℤ (pos 0) (next_state now chain_id tx_hash raw_tx existing).retry_count ≡ true
unfolding next_state
next_count now chain_id tx_hash raw_tx none h = refl
next_count now chain_id tx_hash raw_tx (some s) h =
    ground (arith, h s refl, add64-pos (pos_part s.retry_count) 1)

module _ {S : TxStore} {Request : Type 0} where
  -- Only the store matters to what is found in it.
  pub existing-store :
      (tx_hash : Str) (v w : World S Request)
      → v.store ≡ w.store
      → existing_state tx_hash v ≡ existing_state tx_hash w
  unfolding existing_state
  existing-store tx_hash v w same = rw same refl

  -- What is remembered is found.
  pub remember_found :
      (now : ℤ) (chain_id tx_hash raw_tx : Str) (w : World S Request) (st : S.Store)
      → w.store ≡ some st
      → existing_state tx_hash (remember now chain_id tx_hash raw_tx w)
        ≡ some (next_state now chain_id tx_hash raw_tx (existing_state tx_hash w))
  unfolding remember existing_state
  remember_found now chain_id tx_hash raw_tx w st has =
      rw (has, S.get-set tx_hash tx_hash, eq_refl tx_hash)
        (ap (λ e. some (next_state now chain_id tx_hash raw_tx e))
          (existing-store tx_hash w (record w { store = some st }) has))

  pub on_record :
      (tx_hash : Str) (w : World S Request) (s : TxState)
      → existing_state tx_hash w ≡ some s
      → ltb_ℤ (pos 0) s.retry_count ≡ true
      → already_broadcast tx_hash w ≡ some s
  unfolding already_broadcast
  on_record tx_hash w s found counted = rw (found, counted, already_broadcast)

  -- How a send ends: with an error, and the store as it was, or with the transaction remembered.
  pub send_new-cases :
      (p : Policy S Request) (now later : ℤ) (tx_hash raw_tx : Str) (w : World S Request)
      → ((e : GoError) × (send_new p now later tx_hash raw_tx w
            ≡ ((p.send (hex raw_tx) w).0, err e)))
        ⊎ ((send_new p now later tx_hash raw_tx w) ≡ (
          remember now p.chain_id tx_hash raw_tx (p.send (hex raw_tx) w).0,
          ok (record { tx_hash = tx_hash; chain_id = p.chain_id; submitted_at = later }),
        ))
  unfolding send_new
  send_new-cases p now later tx_hash raw_tx w =
      elim (Result-cases (network_hash p tx_hash (p.send (hex raw_tx) w).1)) [
        | inr (e, failed) ↦ inl (e, rw (failed, send_new))
        | inl (h, known) ↦ elim (Bool-cases (p.same_hash h tx_hash)) [
          | inl same ↦ inr (rw (known, same, send_new))
          | inr other ↦ inl (hash_mismatch h tx_hash, rw (known, other, send_new))
        ]
      ]

  pub hash_of :
      {x : World S Request × Result BroadcastReceipt} {w w' : World S Request}
      {tx_hash chain_id : Str} {at : ℤ} {r : BroadcastReceipt}
      → x ≡ (w, ok (receipt tx_hash chain_id at))
      → x ≡ (w', ok r)
      → r.tx_hash ≡ tx_hash
  hash_of answered h =
      sym
        (ap (λ (b : BroadcastReceipt). b.tx_hash) (ok-injective (ap (λ y. y.1) (sym answered ∙ h))))

  -- A send that succeeds is remembered as one.
  pub send_new_known :
      (p : Policy S Request) (now later : ℤ) (tx_hash raw_tx : Str) (w w' : World S Request)
      (st : S.Store) (r : BroadcastReceipt)
      → ((digits : Str) (v : World S Request) → (p.send digits v).0.store ≡ v.store)
      → w.store ≡ some st
      → ((s : TxState) → existing_state tx_hash w ≡ some s → IsCount s)
      → send_new p now later tx_hash raw_tx w ≡ (w', ok r)
      → (s : TxState) × (already_broadcast tx_hash w' ≡ some s) × (r.tx_hash ≡ tx_hash)
  send_new_known p now later tx_hash raw_tx w w' st r keeps has counts h =
      let v = (p.send (hex raw_tx) w).0 in
      let kept : existing_state tx_hash v ≡ existing_state tx_hash w =
        existing-store tx_hash v w (keeps (hex raw_tx) w) in
      elim (send_new-cases p now later tx_hash raw_tx w) [
        | inl (e, failed) ↦ cc
        | inr sent ↦
            let s = next_state now p.chain_id tx_hash raw_tx (existing_state tx_hash v) in
            let world : remember now p.chain_id tx_hash raw_tx v ≡ w' =
              ap (λ x. x.0) (sym sent ∙ h) in
            let found : existing_state tx_hash w' ≡ some s =
              rw (← world)
                (remember_found now p.chain_id tx_hash raw_tx v st (keeps (hex raw_tx) w ∙ has)) in
            let counted =
              next_count now p.chain_id tx_hash raw_tx (existing_state tx_hash v)
                (λ s e. counts s (sym kept ∙ e)) in
            (s, on_record tx_hash w' s found counted, hash_of sent h)
      ]

  -- How a submission ends: refused, or answered from the store, or sent.
  pub submit-cases :
      {Details : Type 0} (p : Policy S Request) (now later : ℤ) (signed : SignedTransaction Details)
      (w : World S Request)
      → ((str_eq signed.serialized_tx [] ≡ true)
          × ((e : GoError) × (submit p now later (some signed) w ≡ (w, err e))))
        ⊎ ((s : TxState) × (already_broadcast signed.tx_hash w ≡ some s)
            × (str_eq signed.serialized_tx [] ≡ false)
            × (submit p now later (some signed) w
                ≡ (w, ok (receipt signed.tx_hash p.chain_id s.last_retry))))
        ⊎ ((str_eq signed.serialized_tx [] ≡ false)
            × (already_broadcast signed.tx_hash w ≡ none)
            × (submit p now later (some signed) w
                ≡ send_new p now later signed.tx_hash signed.serialized_tx w))
  unfolding submit
  submit-cases p now later signed w = elim (Bool-cases (str_eq signed.serialized_tx [])) [
    | inl empty ↦ inl (empty, (invalid_input (codes "SerializedTx is empty"), rw (empty, submit)))
    | inr full ↦ elim (Option-cases (already_broadcast signed.tx_hash w)) [
      | inl new ↦ inr (inr (full, new, rw (full, new, submit)))
      | inr (s, old) ↦ inr (inl (s, old, full, rw (full, old, submit)))
    ]
  ]
