-- ===== src/Ffi/Errors.antt =====
-- internal/lib/errors.go: the response envelope, and the codes for the errors of the wallet service.
use arc_signv.Common.{ℕ, ◌+◌, Bool, false, ◌&&◌, ◌||◌, List, [], ◌∷◌, if◌then◌else◌, leb, map}
use arc_signv.Common.Text.{Str, codes, contains}
use arc_signv.Chain.{GoError, error_text}

-- An error response has a code and a message.
pub data Response (A : Type 0) : Type 0 where
  success : A → Response A
  failure : Str → Str → Response A

-- strings.ToLower on ASCII
unfoldable pub to_lower : ℕ → ℕ
to_lower c = if leb b'A' c && leb c b'Z' then c + 32 else c

unfoldable pub contains_any : Str → List Str → Bool
contains_any message [] = false
contains_any message (part ∷ parts) = contains message part || contains_any message parts

-- The cases of the switch, in order: the parts that a message is searched for, and the code.
abbrev pub rules : List (List Str × Str)
rules =
    (
      codes "invalid mnemonic" ∷ codes "bip39" ∷ codes "word count" ∷ codes "invalid phrase" ∷ [],
      codes "INVALID_MNEMONIC",
    )
    ∷ (
      codes "wrong password"
          ∷ codes "incorrect password"
          ∷ codes "authentication failed"
          ∷ codes "invalid password"
          ∷ codes "password mismatch"
          ∷ [],
      codes "INVALID_PASSWORD",
    )
    ∷ (
      codes "wallet not found" ∷ codes "does not exist" ∷ codes "no such wallet" ∷ [],
      codes "WALLET_NOT_FOUND",
    )
    ∷ (
      codes "already exists" ∷ codes "duplicate wallet" ∷ codes "wallet exists" ∷ [],
      codes "WALLET_ALREADY_EXISTS",
    )
    ∷ (
      codes "usb"
          ∷ codes "storage"
          ∷ codes "device not found"
          ∷ codes "no such file"
          ∷ codes "permission denied"
          ∷ codes "i/o error"
          ∷ codes "read error"
          ∷ codes "write error"
          ∷ [],
      codes "STORAGE_ERROR",
    )
    ∷ (
      codes "encryption" ∷ codes "decryption" ∷ codes "cipher" ∷ codes "argon2" ∷ codes "gcm" ∷ [],
      codes "ENCRYPTION_ERROR",
    )
    ∷ (
      codes "invalid blockchain" ∷ codes "unsupported chain" ∷ codes "unknown coin" ∷ [],
      codes "INVALID_BLOCKCHAIN",
    )
    ∷ (codes "invalid" ∷ codes "malformed" ∷ codes "parse error" ∷ [], codes "INVALID_INPUT")
    ∷ []

unfoldable pub first_match : Str → List (List Str × Str) → Str
unfolding contains_any
first_match message [] = codes "INVALID_INPUT"
first_match message ((parts, code) ∷ rest) =
    if contains_any message parts then code else first_match message rest

unfoldable pub map_wallet_error : GoError → Str
unfolding first_match to_lower
map_wallet_error e = first_match (map to_lower (error_text e)) rules

abbrev pub failed_with : {A : Type 0} → GoError → Response A
failed_with e = failure (map_wallet_error e) (error_text e)
