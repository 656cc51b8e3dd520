-- ===== src/Wallet/Restore.antt =====
-- RestoreWallet of internal/services/wallet/service.go.
pub mod RoundTrip
pub mod Throttle
use arc_signv.Common.{
  ℕ, ◌+◌, ◌/◌, ◌%◌, Bool, true, false, not, ◌||◌, ◌&&◌, List, [], ◌∷◌, ◌++◌, Option, none, some,
  if◌then◌else◌, ltb, ◌==◌, length, take, drop,
}
use arc_signv.Common.Text.{Str, codes, decimal, hex}
use arc_signv.Common.Int.{ℤ, pos, quot, ◌-ℤ◌}
use arc_signv.Chain.{GoError, Result, ok, err, plain, error_text, refuse_if, ◌>>=◌, ◌>>◌}
use arc_signv.Coin.{AddressBook}
use arc_signv.Crypto.{
  Bytes, EncryptedMnemonic, or_wrap, encrypt_mnemonic, decrypt_mnemonic, serialize_encrypted_data,
  deserialize_encrypted_data,
}
use arc_signv.RateLimit.{allow_attempt, reset_wallet}
use arc_signv.Wallet.Password.{validate_password}
use arc_signv.Wallet.{
  Wallet, AuditLogEntry, WalletService, Disk, Env, join, validate_wallet_name, decryption_failed,
  rate_limit_exceeded, no_such_file, audit_path, absent, failing, found, metadata_path, read_file,
  atomic_write_file, log_operation, load_wallet, save_wallet_metadata, log_audit_success,
  log_audit_failure,
}

module _ {Block : Type 0} (env : Env Block) where
  -- The last steps of `RestoreWallet`: whether it came to the reset of the limiter, the disk and the
  -- result.
  abbrev pub decrypted :
      WalletService → Str → Wallet → ℤ → Disk → Result Str → Bool × Disk × Result Str
  decrypted s wallet_id w now d (err e) = (
    false,
    log_audit_failure env s wallet_id (codes "wrong_password") now d,
    err decryption_failed,
  )
  decrypted s wallet_id w now d (ok mnemonic) = (
    true,
    (save_wallet_metadata env s (record w { last_accessed_at = now })
        (log_audit_success env s wallet_id now d)).0,
    ok mnemonic,
  )

  abbrev pub deserialized :
      WalletService
      → Str
      → Str
      → Wallet
      → ℤ
      → Disk
      → Result EncryptedMnemonic
      → Bool × Disk × Result Str
  deserialized s wallet_id password w now d (err e) = (
    false,
    log_audit_failure env s wallet_id (codes "corrupted_data") now d,
    or_wrap (codes "failed to deserialize encrypted data") (err e),
  )
  deserialized s wallet_id password w now d (ok encrypted) =
      decrypted s wallet_id w now d (decrypt_mnemonic env.lib (some encrypted) password)

  unfoldable pub open_wallet : WalletService → Str → Str → ℤ → Disk → Bool × Disk × Result Str
  open_wallet s wallet_id password now d = elim (load_wallet env s wallet_id d) [
    | err e ↦ (false, d, err e)
    | ok w ↦ elim (read_file env w.encrypted_mnemonic_path d) [
      | absent ↦ (
        false,
        log_audit_failure env s wallet_id (codes "file_read_error") now d,
        or_wrap (codes "failed to read encrypted mnemonic") (err no_such_file),
      )
      | failing e ↦ (
        false,
        log_audit_failure env s wallet_id (codes "file_read_error") now d,
        or_wrap (codes "failed to read encrypted mnemonic") (err e),
      )
      | found bytes ↦ deserialized s wallet_id password w now d (deserialize_encrypted_data bytes)
    ]
  ]

  -- The limiter is reset once the password was right.
  abbrev pub settled :
      Str → WalletService → Bool × Disk × Result Str → WalletService × Disk × Result Str
  settled wallet_id s (right, d, r) =
      (if right then record s { rate_limiter = reset_wallet wallet_id s.rate_limiter } else s, d, r)

  unfoldable pub restore_wallet :
      Str → Str → ℤ → WalletService → Disk → WalletService × Disk × Result Str
  restore_wallet wallet_id password now s d =
      let (limiter, allowed) = allow_attempt now wallet_id s.rate_limiter in
      let s' = record s { rate_limiter = limiter } in
      if allowed
      then settled wallet_id s' (open_wallet s' wallet_id password now d)
      else (s', d, err rate_limit_exceeded)
