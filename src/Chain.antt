-- ===== src/Chain.antt =====
-- src/chainadapter/error.go and the data types of src/chainadapter/adapter.go.
pub mod Faults
pub mod TxStatus
pub mod Estimates
use arc_signv.Common.{ℕ, ◌⊎◌, inl, inr, ◌≡◌, refl, Bool, true, false, ◌++◌, Option, none, some}
use arc_signv.Common.Text.{Str, codes}
use arc_signv.Common.Int.{ℤ}

pub data ErrorClassification : Type 0 where
  retryable non_retryable user_intervention : ErrorClassification

-- The wrapped cause enters through its text alone.
pub record ChainError : Type 0 where
  pub code : Str
  pub message : Str
  pub classification : ErrorClassification
  pub retry_after : Option ℤ
  pub cause : Option Str

-- A value of Go's `error`: one of this package, or any other by its text.
pub data GoError : Type 0 where
  chain : ChainError → GoError
  plain : Str → GoError

-- An operation's result, `(value, nil)` or `(nil, error)`.
pub data Result {ℓ} (A : Type ℓ) : Type ℓ where
  ok : A → Result A
  err : GoError → Result A

abbrev pub is_ok {ℓ} : {A : Type ℓ} → Result A → Bool
is_ok (err e) = false
is_ok (ok a) = true

infixl 5 ◌>>=◌ ◌>>◌
abbrev pub ◌>>=◌ {ℓ κ} : {A : Type ℓ} {B : Type κ} → Result A → (A → Result B) → Result B
err e >>= next = err e
ok a >>= next = next a

-- `if failed { return nil, e }`
abbrev pub refuse_if : Bool → GoError → Result (Unit {0})
refuse_if true e = err e
refuse_if false e = ok tt

abbrev pub ◌>>◌ {ℓ} : {B : Type ℓ} → Result (Unit {0}) → Result B → Result B
checked >> rest = checked >>= λ _. rest

-- Inversion of a chain that succeeds.
pub bind_ok {ℓ κ} :
    {A : Type ℓ} {B : Type κ} (m : Result A) (next : A → Result B) {b : B}
    → (m >>= next) ≡ ok b
    → (a : A) × (m ≡ ok a) × (next a ≡ ok b)
bind_ok (err e) next h = cc
bind_ok (ok a) next h = (a, refl, h)

pub Result-cases {ℓ} :
    {A : Type ℓ} (m : Result A) → ((a : A) × (m ≡ ok a)) ⊎ ((e : GoError) × (m ≡ err e))
Result-cases (ok a) = inl (a, refl)
Result-cases (err e) = inr (e, refl)

pub ok-injective {ℓ} : {A : Type ℓ} {a b : A} → ok a ≡ ok b → a ≡ b
ok-injective h = cc

unfoldable pub new_chain_error : Str → Str → ErrorClassification → Option Str → GoError
new_chain_error code message classification cause = chain (record {
  code = code;
  message = message;
  classification = classification;
  retry_after = none;
  cause = cause;
})

unfoldable pub new_retryable_error : Str → Str → Option ℤ → Option Str → GoError
new_retryable_error code message retry_after cause = chain (record {
  code = code;
  message = message;
  classification = retryable;
  retry_after = retry_after;
  cause = cause;
})

unfoldable pub new_non_retryable_error : Str → Str → Option Str → GoError
new_non_retryable_error code message cause = chain (record {
  code = code;
  message = message;
  classification = non_retryable;
  retry_after = none;
  cause = cause;
})

unfoldable pub new_user_intervention_error : Str → Str → Option Str → GoError
new_user_intervention_error code message cause = chain (record {
  code = code;
  message = message;
  classification = user_intervention;
  retry_after = none;
  cause = cause;
})

-- The `Error` method.
unfoldable pub error_text : GoError → Str
error_text (plain t) = t
error_text (chain e) = elim e.cause [
  | some t ↦ e.code ++ codes ": " ++ e.message ++ codes " (caused by: " ++ t ++ codes ")"
  | none ↦ e.code ++ codes ": " ++ e.message
]

abbrev same_class : ErrorClassification → ErrorClassification → Bool
same_class retryable retryable = true
same_class non_retryable non_retryable = true
same_class user_intervention user_intervention = true
same_class _ _ = false

-- A type assertion to `*ChainError`, then a test of the class.
has_class : ErrorClassification → GoError → Bool
has_class c (chain e) = same_class e.classification c
has_class c (plain t) = false

unfoldable pub is_retryable : GoError → Bool
unfolding has_class
is_retryable = has_class retryable

unfoldable pub is_non_retryable : GoError → Bool
unfolding has_class
is_non_retryable = has_class non_retryable

unfoldable pub is_user_intervention : GoError → Bool
unfolding has_class
is_user_intervention = has_class user_intervention

-- `type FeeSpeed string`: the three constants, or any other text.
pub data FeeSpeed : Type 0 where
  slow normal fast : FeeSpeed
  other_speed : Str → FeeSpeed

-- What the adapters read of the `ChainSpecific` map: each entry of the asserted type, if any.
pub record ChainSpecific : Type 0 where
  pub rbf_enabled : Option Bool
  pub change_address : Option Str
  pub gas_limit : Option ℕ

pub record TransactionRequest : Type 0 where
  pub from : Str
  pub to : Str
  pub asset : Str
  pub amount : Option ℤ
  pub memo : Str
  pub fee_speed : FeeSpeed
  pub chain_specific : Option ChainSpecific

pub record FeeEstimate : Type 0 where
  pub chain_id : Str
  pub min_fee : ℤ
  pub max_fee : ℤ
  pub recommended : ℤ
  pub confidence : ℤ
  pub reason : Str
  pub estimated_blocks : ℤ
  pub base_fee : Option ℤ

-- The chain's own entries of `ChainSpecific` are a record of the chain.
pub record UnsignedTransaction (Details : Type 0) : Type 0 where
  pub id : Str
  pub chain_id : Str
  pub from : Str
  pub to : Str
  pub amount : ℤ
  pub fee : ℤ
  pub nonce : Option ℤ
  pub signing_payload : Str
  pub human_readable : Str
  pub details : Details
  pub created_at : ℤ

pub record SignedTransaction (Details : Type 0) : Type 0 where
  pub unsigned_tx : UnsignedTransaction Details
  pub signature : Str
  pub signed_by : Str
  pub tx_hash : Str
  pub serialized_tx : Str
  pub signed_at : ℤ

pub record BroadcastReceipt : Type 0 where
  pub tx_hash : Str
  pub chain_id : Str
  pub submitted_at : ℤ

pub record TransactionStatus : Type 0 where
  pub tx_hash : Str
  pub status : Str
  pub confirmations : ℤ
  pub block_number : Option ℤ
  pub block_hash : Option Str
  pub updated_at : ℤ
  pub error : Option GoError
