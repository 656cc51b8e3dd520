-- ===== src/Tests/WalletRuns.antt =====
-- Runs of the wallet service and of the functions of internal/lib, with toy libraries.
use arc_signv.Common.{
  ◌≤◌, ◌≡◌, ◌≢◌, ◌↔◌, refl, true, false, List, [], ◌∷◌, none, length, select, arith,
}
use arc_signv.Common.Text.{Str, codes, str_eq, contains}
use arc_signv.Common.Int.{ℤ, pos}
use arc_signv.Common.Dict.{lookup}
use arc_signv.Chain.{ok, err, plain, error_text}
use arc_signv.Crypto.{Bytes}
use arc_signv.RateLimit.{allow_attempt, in_window, new_rate_limiter, timestamps, reset_wallet}
use arc_signv.Wallet.{
  Wallet, WalletService, Disk, Env, new_wallet_service, load_wallet, read_file,
  validate_wallet_name,
}
use arc_signv.Wallet.Password.{Unicode, other, kinds, validate_password, validate_password_iff}
use arc_signv.Wallet.Create.{uuid_text, new_wallet, create_wallet, generate_mnemonic}
use arc_signv.Wallet.Restore.{open_wallet, restore_wallet}
use arc_signv.Wallet.Restore.RoundTrip.{
  IsSmooth, Accepts, ReadsWallet, restore_wallet-create_wallet,
}
use arc_signv.Wallet.Restore.Throttle.{
  Session, begin, call, log_call, passes, succeeds, wrong_attempts_le,
}
use arc_signv.Ffi.{WalletInfo, ffi_import_wallet, ffi_unlock_wallet}
use arc_signv.Ffi.Errors.{success, map_wallet_error}
use arc_signv.Ffi.Unlock.{answered, ffi_unlock_wallet_lem, import_loses_mnemonic}
use arc_signv.Tests.CryptoRuns.{toy_library, toy-Documented, some_salt, some_nonce}

abbrev ascii : Unicode
ascii = record { runes = λ s. s; wide = λ c. other }

abbrev good_password : Str
good_password = codes "Correct-Horse1"

validate_password_run :
    (validate_password ascii good_password ≡ ok tt)
    × (validate_password ascii (codes "Short1!")
        ≡ err (plain (codes "password must be at least 12 characters long")))
unfolding validate_password
validate_password_run = (refl, refl)

validate_password_iff_example :
    (validate_password ascii good_password ≡ ok tt)
    ↔ ((12 ≤ length good_password) × (3 ≤ kinds ascii good_password))
validate_password_iff_example = validate_password_iff ascii good_password

abbrev sixteen : Bytes
sixteen = codes "0123456789abcdef"

abbrev service : WalletService
service = new_wallet_service (codes "/usb")

abbrev made_wallet : Wallet
made_wallet =
    new_wallet service (uuid_text sixteen) (codes "main") false (err (plain (codes "offline")))
      (pos 5)

abbrev toy_env : Env Bytes
toy_env = record {
  unicode = ascii;
  lib = toy_library;
  read_uuid = ok sixteen;
  read_salt = ok some_salt;
  read_nonce = ok some_nonce;
  new_mnemonic = λ n. ok (codes "abandon ability");
  addresses = λ mnemonic passphrase. err (plain (codes "offline"));
  marshal = λ w. ok (codes "{}");
  unmarshal = λ bytes. ok made_wallet;
  writes = λ path. ok tt;
  unreadable = λ path. none;
  opens_log = true;
  appends_log = true;
}

toy-IsSmooth : IsSmooth toy_env some_salt some_nonce
toy-IsSmooth = record {
  documented = toy-Documented;
  salted = refl;
  nonced = refl;
  salt_length = refl;
  nonce_length = refl;
  written = λ path. refl;
  readable = λ path. refl;
}

toy-Accepts :
    Accepts toy_env (codes "main") good_password (pos 12) sixteen (codes "abandon ability")
unfolding validate_password validate_wallet_name generate_mnemonic
toy-Accepts = record { password_ok = refl; name_ok = refl; uuid_read = refl; generated = refl }

toy-ReadsWallet : ReadsWallet toy_env made_wallet
toy-ReadsWallet = record { json = codes "{}"; marshalled = refl; unmarshalled = refl }

abbrev empty_disk : Disk
empty_disk = record { files = []; logs = [] }

restore_wallet-create_wallet_example :
    (d' d'' : Disk) × (w : Wallet) × (t' : WalletService) × (create_wallet toy_env
        (codes "main")
        good_password
        (pos 12)
        false
        []
        (pos 5)
        service
        empty_disk
      ≡ (d', ok (w, codes "abandon ability")))
    × (restore_wallet toy_env w.id good_password (pos 9) service d'
        ≡ (t', d'', ok (codes "abandon ability")))
    × (t'.rate_limiter ≡ reset_wallet w.id (allow_attempt (pos 9) w.id service.rate_limiter).0)
unfolding allow_attempt new_wallet_service new_rate_limiter timestamps lookup select
restore_wallet-create_wallet_example =
    restore_wallet-create_wallet toy_env some_salt some_nonce sixteen (codes "main") good_password
      (pos 12) (pos 5) (pos 9) false [] (codes "abandon ability") service service empty_disk
      toy-IsSmooth toy-Accepts toy-ReadsWallet refl refl

abbrev after_one : WalletService
after_one = (restore_wallet toy_env (codes "w1") (codes "guess") (pos 10) service empty_disk).0

abbrev log_of_one : List ℤ
log_of_one =
    log_call (str_eq (codes "w1") (codes "w1")) (passes (pos 10) (codes "w1") service)
      (succeeds toy_env (codes "w1") (codes "guess") (pos 10) service empty_disk) (pos 10) []

one_guess : Session toy_env (codes "w1") after_one log_of_one (pos 10)
one_guess =
    call service [] (pos 0) (begin (codes "/usb") (pos 0)) (pos 10) (codes "w1") (codes "guess")
      empty_disk (omega arith)

-- The guess is on the log: there is no such wallet.
log_run : log_of_one ≡ pos 10 ∷ []
unfolding str_eq allow_attempt new_wallet_service new_rate_limiter timestamps lookup select
    open_wallet load_wallet read_file
log_run = refl

wrong_attempts_le_example : length (select (in_window (pos 60000000000) (pos 20)) log_of_one) ≤ 3
wrong_attempts_le_example =
    wrong_attempts_le toy_env (codes "w1") after_one log_of_one (pos 10) (pos 20) one_guess
      (omega arith)

ffi_unlock_wallet_lem_example :
    ffi_unlock_wallet toy_env (codes "/usb") (codes "w1") (codes "guess") (pos 10) empty_disk ≡ (
      (open_wallet toy_env service (codes "w1") (codes "guess") (pos 10) empty_disk).1,
      answered
          (pos 10)
          (open_wallet toy_env service (codes "w1") (codes "guess") (pos 10) empty_disk).2
          (load_wallet toy_env service
            (codes "w1")
            (open_wallet toy_env service (codes "w1") (codes "guess") (pos 10) empty_disk).1),
    )
ffi_unlock_wallet_lem_example =
    ffi_unlock_wallet_lem toy_env (codes "/usb") (codes "w1") (codes "guess") (pos 10) empty_disk

-- The limiter's error has no code of its own.
limit_code :
    map_wallet_error (plain (codes "rate limit exceeded - too many failed attempts, please wait"))
    ≡ codes "INVALID_INPUT"
unfolding map_wallet_error error_text contains
limit_code = refl

import_loses_mnemonic_example :
    (d' : Disk) × (w : WalletInfo) × (ffi_import_wallet toy_env
        (codes "/usb")
        (codes "main")
        (codes "zoo zone")
        good_password
        []
        (pos 5)
        empty_disk
      ≡ (d', success w))
    × ((restore_wallet toy_env w.wallet_id good_password (pos 9) service d').2
        ≡ ok (codes "abandon ability"))
    × ((restore_wallet toy_env w.wallet_id good_password (pos 9) service d').2
        ≢ ok (codes "zoo zone"))
unfolding str_eq
import_loses_mnemonic_example =
    import_loses_mnemonic toy_env some_salt some_nonce sixteen (codes "/usb") (codes "main")
      (codes "zoo zone") good_password [] (codes "abandon ability") (pos 5) (pos 9) empty_disk
      toy-IsSmooth toy-Accepts toy-ReadsWallet (λ h. cc)
