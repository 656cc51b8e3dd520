-- ===== src/Adapter/Broadcast/History.antt =====
-- What any sequence of broadcasts leaves in a store.
use mathlib.Core.Path.{subst}
use arc_signv.Common.{
  ◌≡◌, ◌≢◌, refl, sym, ap, ◌∙◌, false, Option, none, some, inl, inr, Bool-cases, Option-cases,
}
use arc_signv.Common.Text.{Str, str_eq, hex, eq_sound}
use arc_signv.Common.Int.{ℤ, pos}
use arc_signv.Chain.{SignedTransaction}
use arc_signv.Chain.TxStatus.{pending}
use arc_signv.Storage.{TxState, TxStore}
use arc_signv.Adapter.{World, note}
use arc_signv.Adapter.Broadcast.{
  Policy, existing_state, already_broadcast, next_state, remember, submit, broadcast_with,
}
use arc_signv.Adapter.Broadcast.Outcomes.{
  send_new-cases, submit-cases, existing-store, remember_found, on_record,
}

some_inj {ℓ} : {A : Type ℓ} {a b : A} → some a ≡ some b → a ≡ b
some_inj h = cc

none-ne-some {ℓ} : {A : Type ℓ} {a : A} → none ≢ some a
none-ne-some h = cc

module _ {S : TxStore} {Request : Type 0} (p : Policy S Request) where
  -- Worlds with a store, empty at first, that broadcasts alone have changed.
  pub data Broadcasts : World S Request → Type 1 where
    start :
        (w : World S Request) (st : S.Store)
        → w.store ≡ some st
        → ((k : Str) → existing_state k w ≡ none)
        → Broadcasts w
    step :
        {w : World S Request} {Details : Type 0}
        → Broadcasts w
        → (now later duration : ℤ) (signed : Option (SignedTransaction Details))
        → Broadcasts (broadcast_with p now later duration signed w).0

  -- What is on record for a hash was sent once.
  pub record SentOnce (k : Str) (s : TxState) : Type 0 where
    pub hash : s.tx_hash ≡ k
    pub count : s.retry_count ≡ pos 1
    pub status : s.status ≡ pending
    pub chain : s.chain_id ≡ p.chain_id

  abbrev AllSentOnce : World S Request → Type 0
  AllSentOnce w = (k : Str) (s : TxState) → existing_state k w ≡ some s → SentOnce k s

  -- The states of other hashes stay.
  remember_other :
      (now : ℤ) (chain_id tx_hash raw_tx k : Str) (w : World S Request) (st : S.Store)
      → w.store ≡ some st
      → str_eq tx_hash k ≡ false
      → existing_state k (remember now chain_id tx_hash raw_tx w) ≡ existing_state k w
  unfolding remember existing_state
  remember_other now chain_id tx_hash raw_tx k w st has other =
      rw (has, S.get-set tx_hash k, other) refl

  new_on_record :
      (k : Str) (w : World S Request)
      → AllSentOnce w
      → already_broadcast k w ≡ none
      → existing_state k w ≡ none
  new_on_record k w all new = elim (Option-cases (existing_state k w)) [
    | inl nothing ↦ nothing
    | inr (s, found) ↦ let old = on_record k w s found (rw ((all k s found).count) refl) in cc
  ]

  -- The store is kept by sending.
  abbrev pub KeepsStore : Type 0
  KeepsStore = (digits : Str) (v : World S Request) → (p.send digits v).0.store ≡ v.store

  remember-AllSentOnce :
      (now : ℤ) (tx_hash raw_tx : Str) (w : World S Request) (st : S.Store)
      → w.store ≡ some st
      → AllSentOnce w
      → existing_state tx_hash w ≡ none
      → AllSentOnce (remember now p.chain_id tx_hash raw_tx w)
  remember-AllSentOnce now tx_hash raw_tx w st has all new k s found =
      elim (Bool-cases (str_eq tx_hash k)) [
        | inl same ↦
            let here : existing_state tx_hash (remember now p.chain_id tx_hash raw_tx w)
                ≡ some (next_state now p.chain_id tx_hash raw_tx none) =
              remember_found now p.chain_id tx_hash raw_tx w st has
              ∙ ap (λ e. some (next_state now p.chain_id tx_hash raw_tx e)) new in
            let k_is : tx_hash ≡ k = eq_sound tx_hash k same in
            let s_is : next_state now p.chain_id tx_hash raw_tx none ≡ s = some_inj (
              sym here
              ∙ subst (λ j. existing_state j (remember now p.chain_id tx_hash raw_tx w) ≡ some s)
                  (sym k_is) found) in
            unfold next_state in
            record {
              hash = sym (ap (λ (x : TxState). x.tx_hash) s_is) ∙ k_is;
              count = sym (ap (λ (x : TxState). x.retry_count) s_is);
              status = sym (ap (λ (x : TxState). x.status) s_is);
              chain = sym (ap (λ (x : TxState). x.chain_id) s_is);
            }
        | inr other ↦
            all k s (sym (remember_other now p.chain_id tx_hash raw_tx k w st has other) ∙ found)
      ]

  same_store-AllSentOnce :
      (w v : World S Request) → v.store ≡ w.store → AllSentOnce w → AllSentOnce v
  same_store-AllSentOnce w v same all k s found = all k s (sym (existing-store k v w same) ∙ found)

  remember_store :
      (now : ℤ) (tx_hash raw_tx : Str) (w : World S Request) (st : S.Store)
      → w.store ≡ some st
      → (st' : S.Store) × ((remember now p.chain_id tx_hash raw_tx w).store ≡ some st')
  unfolding remember
  remember_store now tx_hash raw_tx w st has = (
    (S.set tx_hash (next_state now p.chain_id tx_hash raw_tx (existing_state tx_hash w)) st).0,
    ap
        (λ (o : Option S.Store). elim o as (λ x. Option S.Store) [
          | none ↦ none
          | some x ↦
              some
                (S.set tx_hash (next_state now p.chain_id tx_hash raw_tx (existing_state tx_hash w))
                  x).0
        ])
        has,
  )

  submit-AllSentOnce :
      {Details : Type 0}
      → KeepsStore
      → (now later : ℤ) (signed : SignedTransaction Details) (w : World S Request) (st : S.Store)
      → w.store ≡ some st
      → AllSentOnce w
      → AllSentOnce (submit p now later (some signed) w).0
        × ((st' : S.Store) × ((submit p now later (some signed) w).0.store ≡ some st'))
  submit-AllSentOnce keeps now later signed w st has all =
      elim (submit-cases p now later signed w) [
        | inl (empty, (e, failed)) ↦ rw failed (all, (st, has))
        | inr (inl (s, old, full, answered)) ↦ rw answered (all, (st, has))
        | inr (inr (full, new, sends)) ↦
            let v = (p.send (hex signed.serialized_tx) w).0 in
            let kept = keeps (hex signed.serialized_tx) w in
            let fresh =
              existing-store signed.tx_hash v w kept ∙ new_on_record signed.tx_hash w all new in
            elim (send_new-cases p now later signed.tx_hash signed.serialized_tx w) [
              | inl (e, failed) ↦
                  rw (sends, failed) (same_store-AllSentOnce w v kept all, (st, kept ∙ has))
              | inr sent ↦
                  rw (sends, sent)
                    (
                      remember-AllSentOnce now signed.tx_hash signed.serialized_tx v st (kept ∙ has)
                          (same_store-AllSentOnce w v kept all) fresh,
                      remember_store now signed.tx_hash signed.serialized_tx v st (kept ∙ has),
                    )
            ]
      ]

  noted :
      {Details : Type 0} (now later duration : ℤ) (signed : Option (SignedTransaction Details))
      (w : World S Request)
      → (broadcast_with p now later duration signed w).0.store
        ≡ (submit p now later signed w).0.store
  unfolding broadcast_with note
  noted now later duration signed w = refl

  noted_none :
      (Details : Type 0) (now later duration : ℤ) (w : World S Request)
      → (broadcast_with {Details = Details} p now later duration none w).0.store ≡ w.store
  unfolding broadcast_with note submit
  noted_none Details now later duration w = refl

  Broadcasts-AllSentOnce :
      {w : World S Request}
      → KeepsStore
      → Broadcasts w
      → AllSentOnce w × ((st : S.Store) × (w.store ≡ some st))
  Broadcasts-AllSentOnce keeps (start w st has empty) =
      (λ k s found. absurd (none-ne-some (sym (empty k) ∙ found)), (st, has))
  Broadcasts-AllSentOnce keeps (step {w} {Details} b now later duration none) =
      let (all, (st, has)) = Broadcasts-AllSentOnce keeps b in
      let same = noted_none Details now later duration w in
      (same_store-AllSentOnce w _ same all, (st, same ∙ has))
  Broadcasts-AllSentOnce keeps (step {w} b now later duration (some signed)) =
      let (all, (st, has)) = Broadcasts-AllSentOnce keeps b in
      let (all', (st', has')) = submit-AllSentOnce keeps now later signed w st has all in
      let same = noted now later duration (some signed) w in
      (
        same_store-AllSentOnce (submit p now later (some signed) w).0 _ same all',
        (st', same ∙ has'),
      )

  -- After any sequence of broadcasts from an empty store, whatever the network answers, every state
  -- on record is filed under its own hash, is pending, and has a retry count of exactly one.
  pub Broadcasts-SentOnce :
      (w : World S Request) (k : Str) (s : TxState)
      → KeepsStore
      → Broadcasts w
      → existing_state k w ≡ some s
      → SentOnce k s
  Broadcasts-SentOnce w k s keeps b found = (Broadcasts-AllSentOnce keeps b).0 k s found
