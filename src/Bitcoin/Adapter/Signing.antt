-- ===== src/Bitcoin/Adapter/Signing.antt =====
-- `Sign` of the Bitcoin adapter.
use arc_signv.Common.{◌≡◌, ◌⊎◌, refl, Bool, true, false, not, ◌&&◌, inl, inr, arith, []}
use arc_signv.Common.Text.{Str, str_eq, eq_iff}
use arc_signv.Common.Int.{ℤ}
use arc_signv.Chain.{ok, is_ok, UnsignedTransaction, SignedTransaction}
use arc_signv.Storage.{TxStore}
use arc_signv.Adapter.{World, Signer, note}
use arc_signv.Bitcoin.Builder.{Details}
use arc_signv.Bitcoin.Node.{Request}
use arc_signv.Bitcoin.Adapter.{BitcoinAdapter, sign, sign_checked, compute_transaction_hash}

abbrev succeeds {ℓ} : {A : Type ℓ} → A ⊎ Str → Bool
succeeds (inl a) = true
succeeds (inr t) = false

-- What a signed transaction keeps of the unsigned one.
pub record Signs (sha256 : Str → Str) (unsigned : UnsignedTransaction Details) (signer : Signer)
    (signed : SignedTransaction Details) : Type 0 where
  pub keeps : signed.unsigned_tx ≡ unsigned
  pub signature : signer.sign unsigned.signing_payload unsigned.from ≡ inl signed.signature
  pub by : signed.signed_by ≡ unsigned.from
  pub payload : signed.serialized_tx ≡ unsigned.signing_payload
  pub hash : signed.tx_hash ≡ compute_transaction_hash sha256 signed.serialized_tx

-- `Sign` succeeds exactly if the signer has the sender's address, the transaction is for this chain,
-- its payload is not empty, and the signer signs; then the result carries the signer's signature on
-- the payload, and the hash of what it would send. The store is not touched and no request is sent.
pub sign_decides :
    {S : TxStore} (sha256 : Str → Str) (duration : ℤ) (b : BitcoinAdapter)
    (unsigned : UnsignedTransaction Details) (signer : Signer) (w : World S Request)
    → (is_ok (sign sha256 duration b unsigned signer w).1 ≡ (
        str_eq signer.get_address unsigned.from
        && str_eq unsigned.chain_id b.chain_id
        && not (str_eq unsigned.signing_payload [])
        && succeeds (signer.sign unsigned.signing_payload unsigned.from)))
      × ((signed : SignedTransaction Details)
          → (sign sha256 duration b unsigned signer w).1 ≡ ok signed
          → Signs sha256 unsigned signer signed)
      × ((sign sha256 duration b unsigned signer w).0.store ≡ w.store)
      × ((sign sha256 duration b unsigned signer w).0.requests ≡ w.requests)
unfolding sign sign_checked note
sign_decides sha256 duration b unsigned signer w = (
  ground arith,
  λ signed h. record {
    keeps = ground arith;
    signature = ground arith;
    by = ground (arith, eq_iff signer.get_address unsigned.from);
    payload = ground arith;
    hash = ground arith;
  },
  refl,
  refl,
)
