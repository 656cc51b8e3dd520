-- ===== src/Ethereum/Adapter/Signing/Checks.antt =====
-- When the Ethereum adapter signs, and what it makes of the signature.
use arc_signv.Common.{
  ℕ, ◌+◌, ◌≤◌, ◌≡◌, ◌≢◌, ◌↔◌, ◌⊎◌, ◌∙◌, refl, sym, true, false, ◌&&◌, ◌==◌, if◌then◌else◌, ◌++◌, [],
  ◌∷◌, inl, arith,
}
use arc_signv.Common.Text.{Str, str_eq, eq_sound, eq_refl}
use arc_signv.Common.Int.{ℤ}
use arc_signv.Chain.{ok, UnsignedTransaction, SignedTransaction}
use arc_signv.Storage.{TxStore}
use arc_signv.Adapter.{World, Signer, note}
use arc_signv.Ethereum.Builder.{Details}
use arc_signv.Ethereum.Node.{Request}
use arc_signv.Ethereum.Adapter.{EthereumAdapter, normalize_hash, to_lower}
use arc_signv.Ethereum.Adapter.Signing.{sign, sign_checked}

-- What a signed transaction keeps of the unsigned one. Its hash is still the one that was signed.
pub record Appends (unsigned : UnsignedTransaction Details) (signer : Signer)
    (signed : SignedTransaction Details) : Type 0 where
  pub keeps : signed.unsigned_tx ≡ unsigned
  pub signature : signer.sign unsigned.signing_payload unsigned.from ≡ inl signed.signature
  pub by : signed.signed_by ≡ signer.get_address
  pub payload : signed.serialized_tx ≡ unsigned.signing_payload ++ signed.signature
  pub hash : signed.tx_hash ≡ unsigned.id

-- Two letters that differ in their case at most.
abbrev pub IsUpper : ℕ → Type 0
IsUpper c = (b'A' ≤ c) × (c ≤ b'Z')

abbrev pub SameLetter : ℕ → ℕ → Type 0
SameLetter c d = (c ≡ d) ⊎ (IsUpper c × (d ≡ c + 32)) ⊎ (IsUpper d × (c ≡ d + 32))

abbrev pub SameText : Str → Str → Type 0
SameText [] [] = Unit
SameText [] (d ∷ t) = ⊥
SameText (c ∷ s) [] = ⊥
SameText (c ∷ s) (d ∷ t) = SameLetter c d × SameText s t

-- An address without a prefix 0x.
abbrev pub bare : Str → Str
bare [] = []
bare (c ∷ []) = c ∷ []
bare (c ∷ d ∷ s) = if (c == b'0') && (d == b'x') then s else c ∷ d ∷ s

lower_same : (s t : Str) → to_lower s ≡ to_lower t → SameText s t
unfolding to_lower
lower_same [] [] h = tt
lower_same [] (d ∷ t) h = cc
lower_same (c ∷ s) [] h = cc
lower_same (c ∷ s) (d ∷ t) h = (ground arith, lower_same s t (ground arith))

same_lower : (s t : Str) → SameText s t → to_lower s ≡ to_lower t
unfolding to_lower
same_lower [] [] h = refl
same_lower [] (d ∷ t) h = absurd h
same_lower (c ∷ s) [] h = absurd h
same_lower (c ∷ s) (d ∷ t) h = ground (arith, same_lower s t h.1)

normalize-bare : (s : Str) → normalize_hash s ≡ to_lower (bare s)
unfolding normalize_hash
normalize-bare [] = refl
normalize-bare (c ∷ []) = refl
normalize-bare (c ∷ d ∷ s) = ground arith

normalize-same : (s t : Str) → normalize_hash s ≡ normalize_hash t → SameText (bare s) (bare t)
normalize-same s t h = lower_same (bare s) (bare t) (sym (normalize-bare s) ∙ h ∙ normalize-bare t)

same-normalize : (s t : Str) → SameText (bare s) (bare t) → normalize_hash s ≡ normalize_hash t
same-normalize s t h = normalize-bare s ∙ same_lower (bare s) (bare t) h ∙ sym (normalize-bare t)

signed-Appends :
    (a : EthereumAdapter) (unsigned : UnsignedTransaction Details) (signer : Signer)
    (signed : SignedTransaction Details)
    → sign_checked a unsigned signer ≡ ok signed
    → Appends unsigned signer signed
unfolding sign_checked
signed-Appends a unsigned signer signed h = record {
  keeps = ground arith;
  signature = ground arith;
  by = ground arith;
  payload = ground arith;
  hash = ground arith;
}

-- What must hold for a signature to be taken, whatever it is.
pub record IsSignable (a : EthereumAdapter) (unsigned : UnsignedTransaction Details)
    (signer : Signer) : Type 0 where
  pub by_sender : SameText (bare signer.get_address) (bare unsigned.from)
  pub for_chain : unsigned.chain_id ≡ a.chain_id
  pub payload_given : unsigned.signing_payload ≢ []
  pub signs :
      (signature : Str) × (signer.sign unsigned.signing_payload unsigned.from ≡ inl signature)

signed-IsSignable :
    (a : EthereumAdapter) (unsigned : UnsignedTransaction Details) (signer : Signer)
    (signed : SignedTransaction Details)
    → sign_checked a unsigned signer ≡ ok signed
    → IsSignable a unsigned signer
unfolding sign_checked
signed-IsSignable a unsigned signer signed h = record {
  by_sender = normalize-same signer.get_address unsigned.from (eq_sound _ _ (ground arith));
  for_chain = eq_sound _ _ (ground arith);
  payload_given = λ e. ground (arith, eq_refl unsigned.signing_payload);
  signs = ground arith;
}

abbrev signed_with : UnsignedTransaction Details → Signer → Str → SignedTransaction Details
signed_with unsigned signer signature = record {
  unsigned_tx = unsigned;
  signature = signature;
  signed_by = signer.get_address;
  tx_hash = unsigned.id;
  serialized_tx = unsigned.signing_payload ++ signature;
  signed_at = unsigned.created_at;
}

signable-signs :
    (a : EthereumAdapter) (unsigned : UnsignedTransaction Details) (signer : Signer)
    → IsSignable a unsigned signer
    → (signed : SignedTransaction Details) × (sign_checked a unsigned signer ≡ ok signed)
unfolding sign_checked
signable-signs a unsigned signer s =
    let (signature, signs) = s.signs in
    let by_sender : str_eq (normalize_hash signer.get_address) (normalize_hash unsigned.from)
        ≡ true =
      rw (same-normalize signer.get_address unsigned.from s.by_sender) (eq_refl _) in
    let for_chain : str_eq unsigned.chain_id a.chain_id ≡ true =
      rw s.for_chain (eq_refl a.chain_id) in
    let given : str_eq unsigned.signing_payload [] ≡ false =
      ground (arith, s.payload_given, eq_sound unsigned.signing_payload []) in
    (
      signed_with unsigned signer signature,
      rw (sign_checked, by_sender, for_chain, given, signs) refl,
    )

-- `Sign` succeeds exactly if the signer's address is the sender's but for the case of its letters and
-- a prefix 0x, the transaction is for this chain, its payload is not empty, and the signer returns a
-- signature, whatever that is: it is not checked against the payload. The signature is appended to the
-- payload and the hash stays that of the unsigned transaction. The store is not touched and no request
-- is sent.
pub sign-Appends :
    {S : TxStore} (duration : ℤ) (a : EthereumAdapter) (unsigned : UnsignedTransaction Details)
    (signer : Signer) (w : World S Request)
    → (((signed : SignedTransaction Details) × ((sign duration a unsigned signer w).1 ≡ ok signed))
        ↔ IsSignable a unsigned signer)
      × ((signed : SignedTransaction Details)
          → (sign duration a unsigned signer w).1 ≡ ok signed
          → Appends unsigned signer signed)
      × ((sign duration a unsigned signer w).0.store ≡ w.store)
      × ((sign duration a unsigned signer w).0.requests ≡ w.requests)
unfolding sign note
sign-Appends duration a unsigned signer w = (
  (λ s. signed-IsSignable a unsigned signer s.0 s.1, signable-signs a unsigned signer),
  signed-Appends a unsigned signer,
  refl,
  refl,
)
