-- ===== src/Wallet.antt =====
-- internal/services/wallet/service.go with what it uses of internal/models/wallet.go, internal/utils
-- and internal/services/{audit,storage}. Paths are clean, so that filepath.Join puts a slash between
-- its parts. A call reads the clock once; what it asks of the operating system, of rand.Read and of
-- the libraries is answered by `Env`. Warnings printed to the console are left out.
pub mod Password
pub mod Create
pub mod Restore
use arc_signv.Common.{
  ℕ, ◌+◌, ◌/◌, ◌%◌, Bool, true, false, not, ◌||◌, ◌&&◌, List, [], ◌∷◌, ◌++◌, Option, none, some,
  if◌then◌else◌, ltb, ◌==◌, length, take, drop,
}
use arc_signv.Common.Text.{Str, codes, decimal, hex}
use arc_signv.Common.Int.{ℤ, pos, quot, ◌-ℤ◌}
use arc_signv.Common.Dict.{Dict, lookup, insert}
use arc_signv.Chain.{GoError, Result, ok, err, plain, error_text, refuse_if, ◌>>=◌, ◌>>◌}
use arc_signv.Coin.{AddressBook}
use arc_signv.Crypto.{
  Bytes, Library, EncryptedMnemonic, or_wrap, encrypt_mnemonic, decrypt_mnemonic,
  serialize_encrypted_data, deserialize_encrypted_data,
}
use arc_signv.RateLimit.{RateLimiter, new_rate_limiter, allow_attempt, reset_wallet}
use arc_signv.Wallet.Password.{Unicode, validate_password}

pub record Wallet : Type 0 where
  pub id : Str
  pub name : Str
  pub created_at : ℤ
  pub last_accessed_at : ℤ
  pub encrypted_mnemonic_path : Str
  pub uses_passphrase : Bool
  pub address_book : Option AddressBook

pub record AuditLogEntry : Type 0 where
  pub id : Str
  pub wallet_id : Str
  pub timestamp : ℤ
  pub operation : Str
  pub status : Str
  pub failure_reason : Str

pub record WalletService : Type 0 where
  pub storage_path : Str
  pub rate_limiter : RateLimiter

-- The files by their paths, and the audit logs by theirs.
pub record Disk : Type 0 where
  pub files : Dict Bytes
  pub logs : Dict (List AuditLogEntry)

pub record Env (Block : Type 0) : Type 0 where
  pub unicode : Unicode
  pub lib : Library Block
  pub read_uuid : Result Bytes
  pub read_salt : Result Bytes
  pub read_nonce : Result Bytes
  -- bip39.NewMnemonic of so many random bytes
  pub new_mnemonic : ℕ → Result Str
  -- the addresses of a mnemonic and a passphrase
  pub addresses : Str → Str → Result AddressBook
  pub marshal : Wallet → Result Bytes
  pub unmarshal : Bytes → Result Wallet
  -- AtomicWriteFile at a path, and a failure of os.ReadFile at one that exists
  pub writes : Str → Result (Unit {0})
  pub unreadable : Str → Option GoError
  -- NewAuditLogger and LogOperation
  pub opens_log : Bool
  pub appends_log : Bool

unfoldable pub join : Str → Str → Str
join dir name = dir ++ (codes "/" ++ name)

unfoldable pub new_wallet_service : Str → WalletService
new_wallet_service storage_path = record {
  storage_path = storage_path;
  rate_limiter = new_rate_limiter (pos 3) (pos 60000000000);
}

unfoldable pub validate_wallet_name : Str → Result (Unit {0})
validate_wallet_name name =
    refuse_if (ltb 64 (length name)) (plain (codes "wallet name must be 64 characters or less"))

-- The sentinel errors of internal/utils/errors.go.
abbrev pub wallet_not_found : GoError
wallet_not_found = plain (codes "wallet not found")

abbrev pub decryption_failed : GoError
decryption_failed = plain (codes "decryption failed - wrong password or corrupted wallet data")

abbrev pub rate_limit_exceeded : GoError
rate_limit_exceeded = plain (codes "rate limit exceeded - too many failed attempts, please wait")

abbrev pub log_at : Str → Dict (List AuditLogEntry) → List AuditLogEntry
log_at path logs = elim (lookup path logs) [ none ↦ [] | some entries ↦ entries ]

abbrev pub no_such_file : GoError
no_such_file = plain (codes "no such file or directory")

abbrev pub audit_path : WalletService → Str → Str
audit_path s wallet_id = join (join s.storage_path wallet_id) (codes "audit.log")

-- time.Unix of a time that counts from Go's zero time
abbrev pub unix : ℤ → ℤ
unix now = quot now 1000000000 -ℤ pos 62135596800

-- os.ReadFile: absent, unreadable or the contents
pub data Reading : Type 0 where
  absent : Reading
  failing : GoError → Reading
  found : Bytes → Reading

abbrev pub metadata_path : WalletService → Str → Str
metadata_path s wallet_id = join (join s.storage_path wallet_id) (codes "wallet.json")

abbrev pub keep_loaded : Result Wallet → List Wallet → List Wallet
keep_loaded (ok w) rest = w ∷ rest
keep_loaded (err e) rest = rest

module _ {Block : Type 0} (env : Env Block) where
  unfoldable pub read_file : Str → Disk → Reading
  read_file path d = elim (lookup path d.files) [
    | none ↦ absent
    | some bytes ↦ elim (env.unreadable path) [ none ↦ found bytes | some e ↦ failing e ]
  ]

  unfoldable pub atomic_write_file : Str → Bytes → Disk → Disk × Result (Unit {0})
  atomic_write_file path bytes d = elim (env.writes path) [
    | err e ↦ (d, err e)
    | ok _ ↦ (record d { files = insert path bytes d.files }, ok tt)
  ]

  -- A logger that cannot be opened, or an entry that cannot be written, is passed over.
  unfoldable pub log_operation : Str → AuditLogEntry → Disk → Disk
  log_operation path entry d =
      if env.opens_log && env.appends_log
      then record d { logs = insert path (log_at path d.logs ++ entry ∷ []) d.logs }
      else d

  unfoldable pub load_wallet : WalletService → Str → Disk → Result Wallet
  load_wallet s wallet_id d = elim (read_file (metadata_path s wallet_id) d) [
    | absent ↦ err wallet_not_found
    | failing e ↦ or_wrap (codes "failed to read wallet metadata") (err e)
    | found bytes ↦ or_wrap (codes "failed to parse wallet metadata") (env.unmarshal bytes)
  ]

  unfoldable pub save_wallet_metadata : WalletService → Wallet → Disk → Disk × Result (Unit {0})
  save_wallet_metadata s w d =
      elim (or_wrap (codes "failed to marshal wallet metadata") (env.marshal w)) [
        | err e ↦ (d, err e)
        | ok json ↦ atomic_write_file (metadata_path s w.id) json d
      ]

  unfoldable pub log_audit_success : WalletService → Str → ℤ → Disk → Disk
  log_audit_success s wallet_id now = log_operation (audit_path s wallet_id) (record {
    id = wallet_id ++ (codes "-access-" ++ decimal (unix now));
    wallet_id = wallet_id;
    timestamp = now;
    operation = codes "WALLET_ACCESS";
    status = codes "SUCCESS";
    failure_reason = [];
  })

  unfoldable pub log_audit_failure : WalletService → Str → Str → ℤ → Disk → Disk
  log_audit_failure s wallet_id reason now = log_operation (audit_path s wallet_id) (record {
    id = wallet_id ++ (codes "-access-fail-" ++ decimal (unix now));
    wallet_id = wallet_id;
    timestamp = now;
    operation = codes "WALLET_ACCESS";
    status = codes "FAILURE";
    failure_reason = reason;
  })

  -- The wallets of the directories among the entries (a name, and whether it is a directory); those
  -- that do not load are passed over.
  unfoldable pub collect_wallets : WalletService → Disk → List (Str × Bool) → List Wallet
  collect_wallets s d [] = []
  collect_wallets s d ((name, is_dir) ∷ entries) =
      let rest = collect_wallets s d entries in
      if is_dir then keep_loaded (load_wallet s name d) rest else rest

  -- What os.ReadDir answers: `none` if the storage path does not exist.
  unfoldable pub list_wallets :
      WalletService → Disk → Result (Option (List (Str × Bool))) → Result (List Wallet)
  unfolding collect_wallets
  list_wallets s d (err e) = or_wrap (codes "failed to read storage directory") (err e)
  list_wallets s d (ok none) = ok []
  list_wallets s d (ok (some entries)) = ok (collect_wallets s d entries)
