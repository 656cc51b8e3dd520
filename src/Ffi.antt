-- ===== src/Ffi.antt =====
-- The wallet functions of internal/lib/exports.go, from the decoded input to the response before it is
-- encoded, and internal/lib/errors.go. The clearing of buffers and the recovery from panics are left out.
pub mod Errors
pub mod Unlock
use arc_signv.Common.{
  ℕ, ◌/◌, Bool, true, false, not, ◌||◌, ◌&&◌, List, [], ◌∷◌, ◌++◌, Option, none, some,
  if◌then◌else◌, ltb, ◌==◌, length,
}
use arc_signv.Common.Text.{Str, codes, str_eq}
use arc_signv.Common.Int.{ℤ, pos, eqb_ℤ}
use arc_signv.Chain.{GoError, Result, ok, err, error_text}
use arc_signv.Coin.{AddressBook, DerivedAddress}
use arc_signv.Wallet.{
  Wallet, Disk, Env, WalletService, new_wallet_service, load_wallet, list_wallets,
}
use arc_signv.Wallet.Create.{create_wallet}
use arc_signv.Wallet.Restore.{restore_wallet}
use arc_signv.Ffi.Errors.{Response, success, failure, failed_with}

-- The fields of the responses; the times in them are formatted by the caller of these functions.
pub record WalletInfo : Type 0 where
  pub wallet_id : Str
  pub wallet_name : Str
  pub at : ℤ

pub record NewWalletInfo : Type 0 where
  pub info : WalletInfo
  pub mnemonic : Str

abbrev pub info_of : Wallet → ℤ → WalletInfo
info_of w at = record { wallet_id = w.id; wallet_name = w.name; at = at }

abbrev pub word_count_or_default : ℤ → ℤ
word_count_or_default n = if eqb_ℤ n (pos 12) || eqb_ℤ n (pos 24) then n else pos 24

abbrev pub created : Result (Wallet × Str) → Response NewWalletInfo
created (err e) = failed_with e
created (ok (w, mnemonic)) = success (record { info = info_of w w.created_at; mnemonic = mnemonic })

abbrev pub imported : Result (Wallet × Str) → Response WalletInfo
imported (err e) = failed_with e
imported (ok (w, mnemonic)) = success (info_of w w.created_at)

abbrev pub loaded : ℤ → Result Wallet → Response WalletInfo
loaded now (err e) = failed_with e
loaded now (ok w) = success (info_of w now)

-- The word count that `ImportWallet` takes from the length of the mnemonic.
abbrev pub guessed_word_count : Str → ℤ
guessed_word_count mnemonic = if ltb (length mnemonic / 8) 20 then pos 12 else pos 24

-- The addresses whose coin is asked for by its name or symbol; all, if none is.
unfoldable pub asked_for : List Str → DerivedAddress → Bool
asked_for [] a = false
asked_for (b ∷ bs) a = (str_eq a.coin_name b || str_eq a.symbol b) || asked_for bs a

unfoldable pub pick_addresses : List Str → List DerivedAddress → List DerivedAddress
unfolding asked_for
pick_addresses blockchains [] = []
pick_addresses [] addresses = addresses
pick_addresses (b ∷ bs) (a ∷ addresses) =
    let rest = pick_addresses (b ∷ bs) addresses in if asked_for (b ∷ bs) a then a ∷ rest else rest

abbrev pub no_addresses : Str
no_addresses = codes "Wallet has no addresses. Please regenerate addresses."

abbrev pub addresses_of : List Str → Result Wallet → Response (List DerivedAddress)
addresses_of blockchains (err e) = failed_with e
addresses_of blockchains (ok w) = elim w.address_book [
  | none ↦ failure (codes "STORAGE_ERROR") no_addresses
  | some book ↦ elim book.addresses [
    | [] ↦ failure (codes "STORAGE_ERROR") no_addresses
    | a ∷ addresses ↦ success (pick_addresses blockchains (a ∷ addresses))
  ]
]

module _ {Block : Type 0} (env : Env Block) where
  unfoldable pub ffi_create_wallet :
      Str → Str → Str → ℤ → Str → ℤ → Disk → Disk × Response NewWalletInfo
  ffi_create_wallet usb_path name password word_count passphrase now d =
      let (d', r) =
        create_wallet env name password (word_count_or_default word_count)
          (not (str_eq passphrase [])) passphrase now (new_wallet_service usb_path) d in
      (d', created r)

  -- The mnemonic that is to be imported goes no further than the guess of its word count.
  unfoldable pub ffi_import_wallet :
      Str → Str → Str → Str → Str → ℤ → Disk → Disk × Response WalletInfo
  ffi_import_wallet usb_path name mnemonic password passphrase now d =
      let (d', r) =
        create_wallet env name password (guessed_word_count mnemonic) (not (str_eq passphrase []))
          passphrase now (new_wallet_service usb_path) d in
      (d', imported r)

  abbrev pub unlocked : Str → ℤ → WalletService × Disk × Result Str → Disk × Response WalletInfo
  unlocked wallet_id now (s, d, err e) = (d, failed_with e)
  unlocked wallet_id now (s, d, ok mnemonic) = (d, loaded now (load_wallet env s wallet_id d))

  unfoldable pub ffi_unlock_wallet : Str → Str → Str → ℤ → Disk → Disk × Response WalletInfo
  ffi_unlock_wallet usb_path wallet_id password now d =
      unlocked wallet_id now
        (restore_wallet env wallet_id password now (new_wallet_service usb_path) d)

  unfoldable pub ffi_generate_addresses :
      Str → Str → List Str → Disk → Response (List DerivedAddress)
  ffi_generate_addresses usb_path wallet_id blockchains d =
      addresses_of blockchains (load_wallet env (new_wallet_service usb_path) wallet_id d)
