-- ===== src/Bitcoin/Builder/Validation.antt =====
-- Which requests the Bitcoin builder accepts.
use arc_signv.Common.{◌≡◌, ◌≢◌, ◌↔◌, refl, false, List, [], Option, none, some, arith, ◌⊎◌, inl}
use arc_signv.Common.Text.{Str, eq_iff, codes}
use arc_signv.Common.Int.{ℤ, pos, ◌<ℤ◌}
use arc_signv.Chain.{ok, bind_ok, TransactionRequest, UnsignedTransaction}
use arc_signv.Bitcoin.{BtcLib, Utxo}
use arc_signv.Bitcoin.Builder.{Details, validate_request, build, draft, not_positive}

-- What a request must be, whatever the order in which it is checked.
pub record IsAcceptable (lib : BtcLib) (network : Str) (req : TransactionRequest) : Type 0 where
  pub from_given : req.from ≢ []
  pub from_decodes : (a : lib.Addr) × (lib.decode_address req.from network ≡ inl a)
  pub to_given : req.to ≢ []
  pub to_decodes : (a : lib.Addr) × (lib.decode_address req.to network ≡ inl a)
  pub pays : (a : ℤ) × (req.amount ≡ some a) × (pos 0 <ℤ a)
  pub asset_known : (req.asset ≡ codes "BTC") ⊎ (req.asset ≡ codes "bitcoin")

paying : (m : Option ℤ) → not_positive m ≡ false → (a : ℤ) × (m ≡ some a) × (pos 0 <ℤ a)
paying none h = cc
paying (some a) h = (a, refl, ground arith)

module _ (lib : BtcLib) (network : Str) where
  validate-IsAcceptable :
      (req : TransactionRequest)
      → validate_request lib network req ≡ ok tt
      → IsAcceptable lib network req
  unfolding validate_request
  validate-IsAcceptable req h = record {
    from_given = ground arith;
    from_decodes = ground arith;
    to_given = ground arith;
    to_decodes = ground arith;
    pays = paying req.amount (ground arith);
    asset_known =
        ground (arith, eq_iff req.asset (codes "BTC"), eq_iff req.asset (codes "bitcoin"));
  }

  acceptable-validate :
      (req : TransactionRequest)
      → IsAcceptable lib network req
      → validate_request lib network req ≡ ok tt
  unfolding validate_request
  acceptable-validate req a =
      ground (arith, a, eq_iff req.asset (codes "BTC"), eq_iff req.asset (codes "bitcoin"))

  -- A request is accepted exactly if both addresses are given and decode for the network, the amount
  -- is given and greater than zero, and the asset is called BTC or bitcoin; and no other request makes
  -- a transaction, whatever the candidates and the fee rate.
  pub validate_decides :
      (req : TransactionRequest)
      → ((validate_request lib network req ≡ ok tt) ↔ IsAcceptable lib network req)
        × ((now : ℤ) (utxos : List Utxo) (rate : ℤ) (u : UnsignedTransaction Details)
            → build lib now network req utxos rate ≡ ok u
            → IsAcceptable lib network req)
  unfolding build draft
  validate_decides req = (
    (validate-IsAcceptable req, acceptable-validate req),
    λ now utxos rate u built.
        let (d, drafted, rest) = bind_ok (draft lib network req utxos rate) _ built in
        let (_, valid, more) = bind_ok (validate_request lib network req) _ drafted in
        validate-IsAcceptable req valid,
  )
