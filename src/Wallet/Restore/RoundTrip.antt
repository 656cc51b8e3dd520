-- ===== src/Wallet/Restore/RoundTrip.antt =====
-- What RestoreWallet returns for a wallet that CreateWallet made.
use arc_signv.Common.{
  ◌≡◌, refl, ap, ◌∙◌, Bool, true, false, [], ◌∷◌, ◌++◌, none, some, length, arith,
}
use arc_signv.Common.Text.{Str, codes, str_eq}
use arc_signv.Common.Int.{ℤ}
use arc_signv.Common.Dict.{Dict, lookup, insert, lookup-insert, lookup-insert_self}
use arc_signv.Chain.{Result, ok}
use arc_signv.Coin.{AddressBook}
use arc_signv.Crypto.{
  Bytes, EncryptedMnemonic, or_wrap, decrypt_mnemonic, argon2_salt_len, aes_nonce_len,
  serialize_encrypted_data,
}
use arc_signv.Crypto.RoundTrip.{
  Documented, FitsFormat, deserialize-serialize, decrypt_mnemonic-encrypt_mnemonic,
}
use arc_signv.RateLimit.{allow_attempt, reset_wallet}
use arc_signv.Wallet.Password.{validate_password}
use arc_signv.Wallet.{
  Wallet, AuditLogEntry, WalletService, Disk, Env, join, audit_path, validate_wallet_name, found,
  metadata_path, read_file, atomic_write_file, log_operation, load_wallet,
}
use arc_signv.Wallet.Create.{
  Prepared, uuid_text, generate_secure_uuid, generate_mnemonic, prepare_wallet, mnemonic_path,
  new_wallet, log_creation, create_wallet, put_metadata, saved_wallet,
}
use arc_signv.Wallet.Restore.{open_wallet, restore_wallet}

-- No write or read fails, and the libraries do as documented.
pub record IsSmooth {Block : Type 0} (env : Env Block) (salt nonce : Bytes) : Type 0 where
  pub documented : Documented env.lib
  pub salted : env.read_salt ≡ ok salt
  pub nonced : env.read_nonce ≡ ok nonce
  pub salt_length : length salt ≡ argon2_salt_len
  pub nonce_length : length nonce ≡ aes_nonce_len
  pub written : (path : Str) → env.writes path ≡ ok tt
  pub readable : (path : Str) → env.unreadable path ≡ none

-- The metadata is written as JSON and read back.
pub record ReadsWallet {Block : Type 0} (env : Env Block) (w : Wallet) : Type 0 where
  pub json : Bytes
  pub marshalled : env.marshal w ≡ ok json
  pub unmarshalled : env.unmarshal json ≡ ok w

-- What `CreateWallet` asks of its input and gets from its libraries.
pub record Accepts {Block : Type 0} (env : Env Block) (name password : Str) (word_count : ℤ)
    (uuid : Bytes) (mnemonic : Str) : Type 0 where
  pub password_ok : validate_password env.unicode password ≡ ok tt
  pub name_ok : validate_wallet_name name ≡ ok tt
  pub uuid_read : env.read_uuid ≡ ok uuid
  pub generated : generate_mnemonic env.new_mnemonic word_count ≡ ok mnemonic

str_eq-append : (p s t : Str) → str_eq (p ++ s) (p ++ t) ≡ str_eq s t
unfolding str_eq
str_eq-append [] s t = refl
str_eq-append (c ∷ p) s t = ground (arith, str_eq-append p s t)

module _ {Block : Type 0} (env : Env Block) where
  log_operation-files :
      (path : Str) (entry : AuditLogEntry) (d : Disk)
      → (log_operation env path entry d).files ≡ d.files
  unfolding log_operation
  log_operation-files path entry d = ground arith

  log_creation-files :
      (path wallet_id : Str) (now : ℤ) (book : Result AddressBook) (d : Disk)
      → (log_creation env path wallet_id now book d).files ≡ d.files
  unfolding log_creation
  log_creation-files path wallet_id now book d =
      log_operation-files path _ _ ∙ log_operation-files path _ d

  module _ (salt nonce : Bytes) (smooth : IsSmooth env salt nonce) where
    read_file_lem :
        (path : Str) (bytes : Bytes) (d : Disk)
        → lookup path d.files ≡ some bytes
        → read_file env path d ≡ found bytes
    unfolding read_file
    read_file_lem path bytes d e = rw (read_file, e, smooth.readable path)

    load_wallet_lem :
        (s : WalletService) (w : Wallet) (d : Disk) (r : ReadsWallet env w)
        → lookup (metadata_path s w.id) d.files ≡ some r.json
        → load_wallet env s w.id d ≡ ok w
    unfolding load_wallet or_wrap
    load_wallet_lem s w d r e =
        rw (load_wallet, read_file_lem (metadata_path s w.id) r.json d e, r.unmarshalled)

    atomic_write_file_lem :
        (path : Str) (bytes : Bytes) (d : Disk)
        → atomic_write_file env path bytes d
          ≡ (record d { files = insert path bytes d.files }, ok tt)
    unfolding atomic_write_file
    atomic_write_file_lem path bytes d = rw (atomic_write_file, smooth.written path)

    prepare_wallet_lem :
        (name password : Str) (word_count : ℤ) (uuid : Bytes) (mnemonic : Str)
        → Accepts env name password word_count uuid mnemonic
        → (e : EncryptedMnemonic) × (prepare_wallet env name password word_count
            ≡ ok (record {
              wallet_id = uuid_text uuid;
              mnemonic = mnemonic;
              sealed = serialize_encrypted_data e;
            }))
          × FitsFormat e
          × (decrypt_mnemonic env.lib (some e) password ≡ ok mnemonic)
    unfolding prepare_wallet or_wrap generate_secure_uuid
    prepare_wallet_lem name password word_count uuid mnemonic a =
        let (e, made, fits, opened) =
          decrypt_mnemonic-encrypt_mnemonic env.lib smooth.documented salt nonce mnemonic password
            smooth.salt_length smooth.nonce_length in
        (
          e,
          rw (
            prepare_wallet, a.password_ok, a.name_ok, a.uuid_read, a.generated, smooth.salted,
            smooth.nonced, made,
          ),
          fits,
          opened,
        )

    open_wallet_lem :
        (s : WalletService) (w : Wallet) (password mnemonic : Str) (now : ℤ) (d : Disk)
        (r : ReadsWallet env w) (e : EncryptedMnemonic)
        → lookup (metadata_path s w.id) d.files ≡ some r.json
        → lookup w.encrypted_mnemonic_path d.files ≡ some (serialize_encrypted_data e)
        → FitsFormat e
        → decrypt_mnemonic env.lib (some e) password ≡ ok mnemonic
        → ((open_wallet env s w.id password now d).0 ≡ true)
          × ((open_wallet env s w.id password now d).2 ≡ ok mnemonic)
    unfolding open_wallet
    open_wallet_lem s w password mnemonic now d r e p q fits opened =
        let loads = load_wallet_lem s w d r p in
        let reads = read_file_lem w.encrypted_mnemonic_path (serialize_encrypted_data e) d q in
        (
          rw (open_wallet, loads, reads, deserialize-serialize e fits, opened),
          rw (open_wallet, loads, reads, deserialize-serialize e fits, opened),
        )

put_metadata_lem :
    {Block : Type 0} (env : Env Block) (salt nonce : Bytes)
    → IsSmooth env salt nonce
    → (s : WalletService) (w : Wallet) (d : Disk) (r : ReadsWallet env w)
    → put_metadata env s w d
      ≡ (record d { files = insert (metadata_path s w.id) r.json d.files }, ok tt)
unfolding or_wrap
put_metadata_lem env salt nonce smooth s w d r = rw (
  put_metadata,
  r.marshalled,
  atomic_write_file_lem env salt nonce smooth (metadata_path s w.id) r.json d,
)

-- The two files of a wallet.
metadata-other :
    (s : WalletService) (wallet_id : Str)
    → str_eq (metadata_path s wallet_id) (mnemonic_path s wallet_id) ≡ false
unfolding join str_eq
metadata-other s wallet_id =
    str_eq-append (join s.storage_path wallet_id) (codes "/wallet.json") (codes "/mnemonic.enc")

lookup_files :
    (s : WalletService) (wallet_id : Str) (json sealed : Bytes) (files : Dict Bytes)
    → (lookup (metadata_path s wallet_id) (
          insert (metadata_path s wallet_id) json (insert (mnemonic_path s wallet_id) sealed files))
        ≡ some json)
      × (lookup (mnemonic_path s wallet_id) (
            insert
              (metadata_path s wallet_id)
              json
              (insert (mnemonic_path s wallet_id) sealed files))
          ≡ some sealed)
lookup_files s wallet_id json sealed files =
    let meta = metadata_path s wallet_id in
    let mnem = mnemonic_path s wallet_id in
    (
      lookup-insert_self meta json (insert mnem sealed files),
      lookup-insert meta mnem json (insert mnem sealed files)
          ∙ rw (metadata-other s wallet_id) (lookup-insert_self mnem sealed files),
    )

-- The disk after a creation that put both files there, and logged.
abbrev created_disk :
    {Block : Type 0}
    → Env Block
    → WalletService
    → Str
    → Bytes
    → Bytes
    → Result AddressBook
    → ℤ
    → Disk
    → Disk
created_disk env s id sealed json book now d =
    log_creation env (audit_path s id) id now book (record d {
      files = insert (metadata_path s id) json (insert (mnemonic_path s id) sealed d.files);
    })

create_wallet_lem :
    {Block : Type 0} (env : Env Block) (salt nonce : Bytes) (name password : Str)
    (word_count now : ℤ) (uses_passphrase : Bool) (passphrase : Str) (p : Prepared)
    (s : WalletService) (d : Disk)
    → IsSmooth env salt nonce
    → prepare_wallet env name password word_count ≡ ok p
    → (r : ReadsWallet env
        (new_wallet s p.wallet_id name uses_passphrase (env.addresses p.mnemonic passphrase) now))
    → create_wallet env name password word_count uses_passphrase passphrase now s d ≡ (
      created_disk env s p.wallet_id p.sealed r.json (env.addresses p.mnemonic passphrase) now d,
      ok (
        new_wallet s p.wallet_id name uses_passphrase (env.addresses p.mnemonic passphrase) now,
        p.mnemonic,
      ),
    )
unfolding create_wallet or_wrap
create_wallet_lem env salt nonce name password word_count now uses_passphrase passphrase p s d
      smooth prepared r =
    let book = env.addresses p.mnemonic passphrase in
    let w = new_wallet s p.wallet_id name uses_passphrase book now in
    let d1 = record d { files = insert (mnemonic_path s p.wallet_id) p.sealed d.files } in
    rw
      (
        create_wallet,
        prepared,
        atomic_write_file_lem env salt nonce smooth (mnemonic_path s p.wallet_id) p.sealed d,
      )
      (ap (saved_wallet env s p w book now) (put_metadata_lem env salt nonce smooth s w d1 r))

restore_wallet_lem :
    {Block : Type 0} (env : Env Block) (t : WalletService) (wallet_id password mnemonic : Str)
    (later : ℤ) (d : Disk)
    → let limiter = (allow_attempt later wallet_id t.rate_limiter).0 in
      let opened =
        open_wallet env (record t { rate_limiter = limiter }) wallet_id password later d in
      (allow_attempt later wallet_id t.rate_limiter).1 ≡ true
      → opened.0 ≡ true
      → opened.2 ≡ ok mnemonic
      → restore_wallet env wallet_id password later t d
        ≡ (record t { rate_limiter = reset_wallet wallet_id limiter }, opened.1, ok mnemonic)
unfolding restore_wallet
restore_wallet_lem env t wallet_id password mnemonic later d allowed right result = ground arith

-- A wallet that was created, where nothing fails, is restored under its password by any service at
-- the same place whose limiter allows the attempt: the result is the mnemonic that the creation
-- returned, and the limiter is reset.
pub restore_wallet-create_wallet :
    {Block : Type 0} (env : Env Block) (salt nonce uuid : Bytes) (name password : Str)
    (word_count now later : ℤ) (uses_passphrase : Bool) (passphrase mnemonic : Str)
    (s t : WalletService) (d : Disk)
    → IsSmooth env salt nonce
    → Accepts env name password word_count uuid mnemonic
    → ReadsWallet env
        (new_wallet s (uuid_text uuid) name uses_passphrase (env.addresses mnemonic passphrase) now)
    → t.storage_path ≡ s.storage_path
    → (allow_attempt later (uuid_text uuid) t.rate_limiter).1 ≡ true
    → (d' d'' : Disk) × (w : Wallet) × (t' : WalletService) × (create_wallet env name password
          word_count uses_passphrase passphrase now s d
        ≡ (d', ok (w, mnemonic)))
      × (restore_wallet env w.id password later t d' ≡ (t', d'', ok mnemonic))
      × (t'.rate_limiter ≡ reset_wallet w.id (allow_attempt later w.id t.rate_limiter).0)
unfolding create_wallet restore_wallet
restore_wallet-create_wallet env salt nonce uuid name password word_count now later uses_passphrase
      passphrase mnemonic s t d smooth accepts r place allowed =
    let (e, prepared, fits, opened) =
      prepare_wallet_lem env salt nonce smooth name password word_count uuid mnemonic accepts in
    let id = uuid_text uuid in
    let book = env.addresses mnemonic passphrase in
    let w = new_wallet s id name uses_passphrase book now in
    let d' = created_disk env s id (serialize_encrypted_data e) r.json book now d in
    let (limiter, _) = allow_attempt later id t.rate_limiter in
    let t1 = record t { rate_limiter = limiter } in
    let all_files =
      insert (metadata_path s id) r.json
        (insert (mnemonic_path s id) (serialize_encrypted_data e) d.files) in
    let files =
      log_creation-files env (audit_path s id) id now book (record d { files = all_files }) in
    let held = lookup_files s id r.json (serialize_encrypted_data e) d.files in
    let meta : lookup (metadata_path t1 id) d'.files ≡ some r.json =
      ap (λ (f : Dict Bytes). lookup (metadata_path t1 id) f) files
      ∙ ap (λ (p : Str). lookup (join (join p id) (codes "wallet.json")) all_files) place
      ∙ held.0 in
    let mnem : lookup w.encrypted_mnemonic_path d'.files ≡ some (serialize_encrypted_data e) =
      ap (λ (f : Dict Bytes). lookup w.encrypted_mnemonic_path f) files ∙ held.1 in
    let (right, result) =
      open_wallet_lem env salt nonce smooth t1 w password mnemonic later d' r e meta mnem fits
        opened in
    (
      d',
      (open_wallet env t1 id password later d').1,
      w,
      record t { rate_limiter = reset_wallet id limiter },
      create_wallet_lem env salt nonce name password word_count now uses_passphrase passphrase _ s d
          smooth prepared r,
      restore_wallet_lem env t id password mnemonic later d' allowed right result,
      refl,
    )
