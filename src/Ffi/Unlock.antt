-- ===== src/Ffi/Unlock.antt =====
-- What UnlockWallet and ImportWallet of internal/lib/exports.go come to.
use arc_signv.Common.{◌≡◌, ◌≢◌, refl, sym, ap, ◌∙◌, true, not, [], if◌then◌else◌, arith, select}
use arc_signv.Common.Text.{Str, str_eq}
use arc_signv.Common.Int.{ℤ}
use arc_signv.Common.Dict.{lookup}
use arc_signv.Chain.{Result, ok, err, ok-injective}
use arc_signv.Crypto.{Bytes}
use arc_signv.RateLimit.{allow_attempt, reset_wallet, new_rate_limiter, timestamps, RateLimiter}
use arc_signv.Wallet.{
  Wallet, WalletService, Disk, Env, new_wallet_service, load_wallet, log_audit_failure,
  log_audit_success, save_wallet_metadata,
}
use arc_signv.Wallet.Create.{uuid_text, new_wallet}
use arc_signv.Wallet.Restore.{open_wallet, restore_wallet}
use arc_signv.Wallet.Restore.RoundTrip.{
  IsSmooth, Accepts, ReadsWallet, restore_wallet-create_wallet,
}
use arc_signv.Wallet.Restore.Throttle.{passes}
use arc_signv.Ffi.{
  WalletInfo, info_of, loaded, guessed_word_count, unlocked, ffi_import_wallet, ffi_unlock_wallet,
}
use arc_signv.Ffi.Errors.{Response, success, failed_with}

-- A service that is made for one call lets that call pass.
fresh_passes :
    (now : ℤ) (wallet_id path : Str) → passes now wallet_id (new_wallet_service path) ≡ true
unfolding allow_attempt new_wallet_service new_rate_limiter timestamps lookup select
fresh_passes now wallet_id path = refl

open_wallet_of_path :
    {Block : Type 0} (env : Env Block) (s : WalletService) (rl : RateLimiter)
    (wallet_id password : Str) (now : ℤ) (d : Disk)
    → open_wallet env (record s { rate_limiter = rl }) wallet_id password now d
      ≡ open_wallet env s wallet_id password now d
unfolding open_wallet load_wallet log_audit_failure log_audit_success save_wallet_metadata
open_wallet_of_path env s rl wallet_id password now d = refl

-- A call that passes opens the wallet.
restore_wallet_passed :
    {Block : Type 0} (env : Env Block) (s : WalletService) (wallet_id password : Str) (now : ℤ)
    (d : Disk)
    → passes now wallet_id s ≡ true
    → (rl : RateLimiter) × (restore_wallet env wallet_id password now s d ≡ (
      record s { rate_limiter = rl },
      (open_wallet env s wallet_id password now d).1,
      (open_wallet env s wallet_id password now d).2,
    ))
unfolding restore_wallet
restore_wallet_passed env s wallet_id password now d passed =
    let (limiter, _) = allow_attempt now wallet_id s.rate_limiter in
    let same = open_wallet_of_path env s limiter wallet_id password now d in
    (
      (if (open_wallet env s wallet_id password now d).0
          then reset_wallet wallet_id limiter
          else limiter),
      ground (arith, same),
    )

-- The response, by the result of opening the wallet and the wallet that is loaded after it.
abbrev pub answered : ℤ → Result Str → Result Wallet → Response WalletInfo
answered now (err e) w = failed_with e
answered now (ok mnemonic) w = loaded now w

unlocked_lem :
    {Block : Type 0} (env : Env Block) (s : WalletService) (rl : RateLimiter) (wallet_id : Str)
    (now : ℤ) (d : Disk) (r : Result Str)
    → unlocked env wallet_id now (record s { rate_limiter = rl }, d, r)
      ≡ (d, answered now r (load_wallet env s wallet_id d))
unfolding load_wallet
unlocked_lem env s rl wallet_id now d (ok mnemonic) = refl
unlocked_lem env s rl wallet_id now d (err e) = refl

-- `UnlockWallet` tries the password that it is given in every call: its outcome is that of opening the
-- wallet and loading it, whatever attempts went before, and the limit of three attempts a minute never
-- stops it.
pub ffi_unlock_wallet_lem :
    {Block : Type 0} (env : Env Block) (usb_path wallet_id password : Str) (now : ℤ) (d : Disk)
    → ffi_unlock_wallet env usb_path wallet_id password now d ≡ (
      (open_wallet env (new_wallet_service usb_path) wallet_id password now d).1,
      answered now (open_wallet env (new_wallet_service usb_path) wallet_id password now d).2 (
          load_wallet env
            (new_wallet_service usb_path)
            wallet_id
            (open_wallet env (new_wallet_service usb_path) wallet_id password now d).1),
    )
unfolding ffi_unlock_wallet
ffi_unlock_wallet_lem env usb_path wallet_id password now d =
    let s = new_wallet_service usb_path in
    let opened = open_wallet env s wallet_id password now d in
    let (rl, restored) =
      restore_wallet_passed env s wallet_id password now d (fresh_passes now wallet_id usb_path) in
    rw (ffi_unlock_wallet, restored) (unlocked_lem env s rl wallet_id now opened.1 opened.2)

-- `ImportWallet` does not import: where nothing fails, it answers that the wallet is there, and what the
-- password then restores is the mnemonic that was newly generated. The mnemonic that was handed over is lost,
-- unless the two happen to be equal.
pub import_loses_mnemonic :
    {Block : Type 0} (env : Env Block) (salt nonce uuid : Bytes)
    (usb_path name mnemonic password passphrase generated : Str) (now later : ℤ) (d : Disk)
    → IsSmooth env salt nonce
    → Accepts env name password (guessed_word_count mnemonic) uuid generated
    → ReadsWallet env (
        new_wallet
          (new_wallet_service usb_path)
          (uuid_text uuid)
          name
          (not (str_eq passphrase []))
          (env.addresses generated passphrase)
          now)
    → mnemonic ≢ generated
    → (d' : Disk) × (w : WalletInfo) × (ffi_import_wallet env usb_path name mnemonic password
          passphrase now d
        ≡ (d', success w))
      × ((restore_wallet env w.wallet_id password later (new_wallet_service usb_path) d').2
          ≡ ok generated)
      × ((restore_wallet env w.wallet_id password later (new_wallet_service usb_path) d').2
          ≢ ok mnemonic)
unfolding ffi_import_wallet
import_loses_mnemonic env salt nonce uuid usb_path name mnemonic password passphrase generated now
      later d smooth accepts r other =
    let s = new_wallet_service usb_path in
    let (d', d'', w, t', made, restored, _) =
      restore_wallet-create_wallet env salt nonce uuid name password (guessed_word_count mnemonic)
        now later (not (str_eq passphrase [])) passphrase generated s s d smooth accepts r refl
        (fresh_passes later (uuid_text uuid) usb_path) in
    let result : (restore_wallet env w.id password later s d').2 ≡ ok generated =
      ap (λ (x : WalletService × Disk × Result Str). x.2) restored in
    (
      d',
      info_of w w.created_at,
      rw (ffi_import_wallet, made),
      result,
      λ h. other (ok-injective (sym h ∙ result)),
    )
