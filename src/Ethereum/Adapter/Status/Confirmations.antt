-- ===== src/Ethereum/Adapter/Status/Confirmations.antt =====
-- How the Ethereum adapter counts confirmations, and what it says of a reverted transaction.
use mathlib.Core.Path.{subst}
use arc_signv.Common.{
  ℕ, ◌+◌, ◌-◌, ◌^◌, ◌≤◌, ◌<◌, ◌≡◌, ◌≢◌, refl, sym, ap, ◌∙◌, Bool-cases, true, false, Option, none,
  some, arith, ◌⊎◌, inl, inr,
}
use arc_signv.Common.Text.{Str, str_eq, codes, eq_sound, eq_iff}
use arc_signv.Common.Int.{ℤ, pos, negsuc, leb_ℤ, ◌-ℤ◌, -ℤ_parts}
use arc_signv.Common.Word.{to_unsigned, wrap64, to_signed}
use arc_signv.Chain.{
  Result, is_ok, Result-cases, ok, err, ok-injective, GoError, is_retryable, TransactionStatus,
}
use arc_signv.Chain.TxStatus.{confirmed, finalized, failed}
use arc_signv.Storage.{TxStore}
use arc_signv.Adapter.{World, Node}
use arc_signv.Ethereum.Node.{
  Request, Json, TransactionReceipt, transaction_by_hash, transaction_receipt, block_number,
}
use arc_signv.Ethereum.Adapter.Status.{
  confirmations_of, mined_status, success_status, receipt_status, query_status, reverted,
  status_record,
}

-- A signed difference survives its way through uint64.
pos_survives : (k : ℕ) → k < 2 ^ 63 → wrap64 (pos (to_unsigned (pos k))) ≡ pos k
unfolding wrap64 to_unsigned to_signed
pos_survives k small = ground arith

negsuc_survives : (k : ℕ) → k < 2 ^ 63 → wrap64 (pos (to_unsigned (negsuc k))) ≡ negsuc k
unfolding wrap64 to_unsigned to_signed
negsuc_survives k small = ground arith

confirmations-difference :
    (current n : ℕ)
    → current < 2 ^ 63
    → n < 2 ^ 63
    → confirmations_of current n ≡ pos current -ℤ pos n
unfolding confirmations_of ◌-ℤ◌
confirmations-difference current n small small' =
    ground (arith, pos_survives (current - n), negsuc_survives (n - current - 1))

success-record :
    (json : Json) (now : ℤ) (tx_hash : Str) (receipt : TransactionReceipt) (current n : ℕ)
    → json.decode_uint64 receipt.block_number ≡ inl n
    → success_status json now tx_hash receipt (ok current)
      ≡ status_record now tx_hash
          (mined_status (confirmations_of current n))
          (confirmations_of current n)
          (some (pos n))
          (some receipt.block_hash)
          none
unfolding success_status
success-record json now tx_hash receipt current n decoded = rw (decoded, success_status)

-- A transaction that did not fail, mined in block `n` with the chain at block `current`, has their
-- difference for its confirmations, also where that is negative since the node lags behind; it is
-- finalized exactly from twelve on, and else confirmed. (Both blocks are below 2^63.)
pub mined_by_depth :
    (json : Json) (now : ℤ) (tx_hash : Str) (receipt : TransactionReceipt) (current n : ℕ)
    → json.decode_uint64 receipt.block_number ≡ inl n
    → current < 2 ^ 63
    → n < 2 ^ 63
    → ((success_status json now tx_hash receipt (ok current)).confirmations ≡ pos current -ℤ pos n)
      × (((n + 12 ≤ current)
            × ((success_status json now tx_hash receipt (ok current)).status ≡ finalized))
          ⊎ ((current < n + 12)
              × ((success_status json now tx_hash receipt (ok current)).status ≡ confirmed)))
unfolding mined_status
mined_by_depth json now tx_hash receipt current n decoded small small' =
    let depth = confirmations-difference current n small small' in
    let made = success-record json now tx_hash receipt current n decoded in
    (
      ap (λ (x : TransactionStatus). x.confirmations) made ∙ depth,
      rw (ap (λ (x : TransactionStatus). x.status) made, depth)
          (ground (arith, -ℤ_parts (pos current) (pos n))),
    )

-- The receipt says that the transaction was reverted.
abbrev pub IsReverted : Option TransactionReceipt → Type 0
IsReverted none = ⊥
IsReverted (some receipt) = receipt.status ≡ codes "0x0"

-- What a status says of a receipt, fetched in the world `before`.
pub record Tells {S : TxStore} (before after : World S Request)
    (receipt : Option TransactionReceipt) (s : TransactionStatus) : Type 0 where
  pub failed_only : s.status ≡ failed → IsReverted receipt
  pub failed_if : IsReverted receipt → s.status ≡ failed
  pub retryable_error :
      IsReverted receipt → (e : GoError) × (s.error ≡ some e) × (is_retryable e ≡ true)
  pub not_asked : IsReverted receipt → after ≡ before
  pub no_error : (IsReverted receipt → ⊥) → s.error ≡ none

mined-not_failed : (c : ℤ) → mined_status c ≢ failed
unfolding mined_status
mined-not_failed c k = elim (Bool-cases (leb_ℤ (pos 12) c)) [
  | inl e ↦ let done : finalized ≡ failed = rw e at k in cc
  | inr e ↦ let done : confirmed ≡ failed = rw e at k in cc
]

decoded-error :
    (json : Json) (now : ℤ) (h : Str) (receipt : TransactionReceipt) (current : ℕ) (d : ℕ ⊎ Str)
    → json.decode_uint64 receipt.block_number ≡ d
    → ((success_status json now h receipt (ok current)).error ≡ none)
      × ((success_status json now h receipt (ok current)).status ≢ failed)
unfolding success_status
decoded-error json now h receipt current (inr e) decoded =
    rw (success_status, decoded) (refl, λ k. cc)
decoded-error json now h receipt current (inl n) decoded =
    rw (success_status, decoded) (refl, mined-not_failed (confirmations_of current n))

success-error :
    (json : Json) (now : ℤ) (h : Str) (receipt : TransactionReceipt) (current : Result ℕ)
    → ((success_status json now h receipt current).error ≡ none)
      × ((success_status json now h receipt current).status ≢ failed)
unfolding success_status mined_status
success-error json now h receipt (err e) = (refl, λ k. cc)
success-error json now h receipt (ok current) =
    decoded-error json now h receipt current (json.decode_uint64 receipt.block_number) refl

module _ (json : Json) {S : TxStore} (node : Node Request) where
  receipt-Tells :
      (now : ℤ) (h : Str) (receipt : Option TransactionReceipt) (w : World S Request)
      → Tells w
          (receipt_status json node now h receipt w).0
          receipt
          (receipt_status json node now h receipt w).1
  unfolding receipt_status is_retryable
  receipt-Tells now h none w = record {
    failed_only = λ k. cc;
    failed_if = λ k. absurd k;
    retryable_error = λ k. absurd k;
    not_asked = λ k. absurd k;
    no_error = λ k. refl;
  }
  receipt-Tells now h (some receipt) w = elim (Bool-cases (str_eq receipt.status (codes "0x0"))) [
    | inl e ↦ rw e (record {
      failed_only = λ k. eq_sound receipt.status (codes "0x0") e;
      failed_if = λ k. refl;
      retryable_error = λ k. (reverted, refl, refl);
      not_asked = λ k. refl;
      no_error = λ k. absurd (k (eq_sound receipt.status (codes "0x0") e));
    })
    | inr e ↦
        let success = success-error json now h receipt (block_number json node w).1 in
        let fine : receipt.status ≡ codes "0x0" → ⊥ =
          λ k. ground (arith, eq_iff receipt.status (codes "0x0")) in
        rw e (record {
          failed_only = λ k. absurd (success.1 k);
          failed_if = λ k. absurd (fine k);
          retryable_error = λ k. absurd (fine k);
          not_asked = λ k. absurd (fine k);
          no_error = λ k. success.0;
        })
  ]

  -- Whenever `QueryStatus` returns a status, a receipt was asked for, if without finding one: the
  -- status is failed exactly if the receipt says that the transaction was reverted, and only then is
  -- there an error, without a request for the current block, and it tells the caller to try again.
  pub reverted_retryable :
      (now : ℤ) (h : Str) (w w' : World S Request) (s : TransactionStatus)
      → query_status json node now h w ≡ (w', ok s)
      → let asked = transaction_receipt json node h (transaction_by_hash json node h w).0 in
        (receipt : Option TransactionReceipt) × (asked.1 ≡ ok receipt) × Tells asked.0 w' receipt s
  unfolding query_status
  reverted_retryable now h w w' s done =
      let found = transaction_by_hash json node h w in
      let mined = transaction_receipt json node h found.0 in
      let answered : (query_status json node now h w).1 ≡ ok s = ap (λ x. x.1) done in
      elim (Result-cases found.1) [
        | inr (e, lost) ↦
            let failing : (query_status json node now h w).1 ≡ err e =
              rw (query_status, lost) refl in
            absurd cc
        | inl (none, unknown) ↦
            let failing : is_ok (query_status json node now h w).1 ≡ false =
              rw (query_status, unknown) refl in
            absurd cc
        | inl (some tx, known) ↦ elim (Result-cases mined.1) [
          | inr (e, lost) ↦
              let failing : (query_status json node now h w).1 ≡ err e =
                rw (query_status, known, lost) refl in
              absurd cc
          | inl (receipt, fetched) ↦
              let r = receipt_status json node now h receipt mined.0 in
              let made : query_status json node now h w ≡ (r.0, ok r.1) =
                rw (query_status, known, fetched) refl in
              let after : r.0 ≡ w' = ap (λ x. x.0) (sym made ∙ done) in
              let told : r.1 ≡ s = ok-injective (ap (λ x. x.1) (sym made ∙ done)) in
              (
                receipt,
                fetched,
                subst (λ (x : World S Request). Tells mined.0 x receipt s) after
                    (subst (λ (x : TransactionStatus). Tells mined.0 r.0 receipt x) told
                      (receipt-Tells now h receipt mined.0)),
              )
        ]
      ]
