-- ===== src/Wallet/Create.antt =====
-- CreateWallet of internal/services/wallet/service.go, with GenerateSecureUUID of internal/utils and
-- GenerateMnemonic of internal/services/bip39service.
use arc_signv.Common.{
  ℕ, ◌+◌, ◌%◌, Bool, [], ◌∷◌, ◌++◌, Option, none, some, if◌then◌else◌, ◌==◌, take, drop,
}
use arc_signv.Common.Text.{Str, codes, decimal, hex}
use arc_signv.Common.Int.{ℤ, pos}
use arc_signv.Chain.{GoError, Result, ok, err, plain, error_text, ◌>>=◌, ◌>>◌}
use arc_signv.Coin.{AddressBook}
use arc_signv.Crypto.{Bytes, or_wrap, encrypt_mnemonic, serialize_encrypted_data}
use arc_signv.Wallet.Password.{validate_password}
use arc_signv.Wallet.{
  Wallet, AuditLogEntry, WalletService, Disk, Env, join, validate_wallet_name, audit_path,
  metadata_path, atomic_write_file, log_operation,
}

-- uuid[6] & 0x0f | 0x40, and uuid[8] & 0x3f | 0x80
abbrev pub versioned : Bytes → Bytes
versioned [] = []
versioned (b ∷ bs) = (b % 16 + 64) ∷ bs

abbrev pub variant : Bytes → Bytes
variant [] = []
variant (b ∷ bs) = (b % 64 + 128) ∷ bs

-- GenerateSecureUUID: the version and the variant are put into the bytes 6 and 8.
abbrev pub uuid_text : Bytes → Str
uuid_text u =
    hex (take 4 u)
    ++ (codes "-"
        ++ (hex (take 2 (drop 4 u))
            ++ (codes "-"
                ++ (hex (versioned (take 2 (drop 6 u)))
                    ++ (codes "-"
                        ++ (hex (variant (take 2 (drop 8 u)))
                            ++ (codes "-" ++ hex (drop 10 u))))))))

unfoldable pub generate_secure_uuid : Result Bytes → Result Str
generate_secure_uuid read =
    or_wrap (codes "failed to generate random UUID") read >>= λ u. ok (uuid_text u)

abbrev pub invalid_word_count : ℤ → GoError
invalid_word_count n =
    plain (codes "invalid word count " ++ decimal n ++ codes ": must be 12 or 24")

-- GenerateMnemonic of internal/services/bip39service/service.go; a failed read of random bytes is a
-- failure of `new_mnemonic`.
unfoldable pub generate_mnemonic : (ℕ → Result Str) → ℤ → Result Str
generate_mnemonic new_mnemonic (pos n) =
    if n == 12
    then new_mnemonic 16
    else if n == 24
    then new_mnemonic 32
    else err (invalid_word_count (pos n))
generate_mnemonic new_mnemonic n = err (invalid_word_count n)

-- Either the address book or the error of its generation is there.
abbrev pub book_of : Result AddressBook → Option AddressBook
book_of (ok book) = some book
book_of (err e) = none

-- The entries that `CreateWallet` logs: the creation, and how the addresses came out.
abbrev pub creation_entry : Str → ℤ → AuditLogEntry
creation_entry wallet_id now = record {
  id = wallet_id ++ codes "-create";
  wallet_id = wallet_id;
  timestamp = now;
  operation = codes "WALLET_CREATE";
  status = codes "SUCCESS";
  failure_reason = [];
}

abbrev pub addresses_entry : Str → ℤ → Result AddressBook → AuditLogEntry
addresses_entry wallet_id now (ok book) = record {
  id = wallet_id ++ codes "-addresses";
  wallet_id = wallet_id;
  timestamp = now;
  operation = codes "ADDRESS_GENERATION";
  status = codes "SUCCESS";
  failure_reason = [];
}
addresses_entry wallet_id now (err e) = record {
  id = wallet_id ++ codes "-addresses-fail";
  wallet_id = wallet_id;
  timestamp = now;
  operation = codes "ADDRESS_GENERATION";
  status = codes "FAILURE";
  failure_reason = error_text e;
}

-- What `CreateWallet` has before it writes anything.
pub record Prepared : Type 0 where
  pub wallet_id : Str
  pub mnemonic : Str
  pub sealed : Bytes

abbrev pub mnemonic_path : WalletService → Str → Str
mnemonic_path s wallet_id = join (join s.storage_path wallet_id) (codes "mnemonic.enc")

abbrev pub new_wallet : WalletService → Str → Str → Bool → Result AddressBook → ℤ → Wallet
new_wallet s wallet_id name uses_passphrase book now = record {
  id = wallet_id;
  name = name;
  created_at = now;
  last_accessed_at = now;
  encrypted_mnemonic_path = mnemonic_path s wallet_id;
  uses_passphrase = uses_passphrase;
  address_book = book_of book;
}

module _ {Block : Type 0} (env : Env Block) where
  unfoldable pub log_creation : Str → Str → ℤ → Result AddressBook → Disk → Disk
  log_creation path wallet_id now book d =
      log_operation env path (addresses_entry wallet_id now book)
        (log_operation env path (creation_entry wallet_id now) d)

  unfoldable pub prepare_wallet : Str → Str → ℤ → Result Prepared
  prepare_wallet name password word_count =
      or_wrap (codes "password validation failed") (validate_password env.unicode password)
      >> (or_wrap (codes "wallet name validation failed") (validate_wallet_name name)
          >> (or_wrap (codes "failed to generate wallet ID") (generate_secure_uuid env.read_uuid)
              >>= λ wallet_id.
                  or_wrap (codes "failed to generate mnemonic")
                    (generate_mnemonic env.new_mnemonic word_count)
                  >>= λ mnemonic.
                      or_wrap (codes "failed to encrypt mnemonic")
                        (encrypt_mnemonic env.lib env.read_salt env.read_nonce mnemonic password)
                      >>= λ encrypted. ok (record {
                        wallet_id = wallet_id;
                        mnemonic = mnemonic;
                        sealed = serialize_encrypted_data encrypted;
                      })))

  -- The metadata is saved, then the audit log written; a failed save leaves the encrypted mnemonic.
  abbrev pub saved_wallet :
      WalletService
      → Prepared
      → Wallet
      → Result AddressBook
      → ℤ
      → Disk × Result (Unit {0})
      → Disk × Result (Wallet × Str)
  saved_wallet s p w book now (d, err e) = (d, err e)
  saved_wallet s p w book now (d, ok _) =
      (log_creation (audit_path s p.wallet_id) p.wallet_id now book d, ok (w, p.mnemonic))

  abbrev pub put_metadata : WalletService → Wallet → Disk → Disk × Result (Unit {0})
  put_metadata s w d = elim (env.marshal w) [
    | err e ↦ (d, or_wrap (codes "failed to marshal wallet metadata") (err e))
    | ok json ↦
        let (d', r) = atomic_write_file env (metadata_path s w.id) json d in
        (d', or_wrap (codes "failed to save wallet metadata") r)
  ]

  abbrev pub stored_mnemonic :
      WalletService
      → Str
      → Bool
      → Str
      → ℤ
      → Prepared
      → Disk × Result (Unit {0})
      → Disk × Result (Wallet × Str)
  stored_mnemonic s name uses_passphrase passphrase now p (d, err e) =
      (d, or_wrap (codes "failed to save encrypted mnemonic") (err e))
  stored_mnemonic s name uses_passphrase passphrase now p (d, ok _) =
      let book = env.addresses p.mnemonic passphrase in
      let w = new_wallet s p.wallet_id name uses_passphrase book now in
      saved_wallet s p w book now (put_metadata s w d)

  unfoldable pub create_wallet :
      Str → Str → ℤ → Bool → Str → ℤ → WalletService → Disk → Disk × Result (Wallet × Str)
  create_wallet name password word_count uses_passphrase passphrase now s d =
      elim (prepare_wallet name password word_count) [
        | err e ↦ (d, err e)
        | ok p ↦
            stored_mnemonic s name uses_passphrase passphrase now p
              (atomic_write_file env (mnemonic_path s p.wallet_id) p.sealed d)
      ]
