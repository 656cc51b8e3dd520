-- ===== src/Crypto.antt =====
-- internal/services/crypto/encryption.go and the record of internal/models/mnemonic.go. Argon2, AES
-- and GCM are a `Library`; what the two reads of random bytes answer is an argument. ClearBytes, which
-- overwrites buffers that nobody reads again, is left out.
pub mod RoundTrip
use arc_signv.Common.{
  ℕ, ◌+◌, ◌*◌, ◌/◌, ◌%◌, ◌^◌, Bool, not, List, [], ◌∷◌, ◌++◌, Option, none, some, if◌then◌else◌,
  ltb, ◌==◌, length, take, drop, get_elem?,
}
use arc_signv.Common.Int.{pos}
use arc_signv.Common.Text.{Str, codes, decimal}
use arc_signv.Chain.{GoError, Result, ok, err, plain, error_text, refuse_if, ◌>>=◌, ◌>>◌}

-- A slice of bytes, and a string by its bytes.
abbrev pub Bytes : Type 0
Bytes = List ℕ

abbrev pub argon2_time : ℕ
argon2_time = 4

abbrev pub argon2_memory : ℕ
argon2_memory = 256 * 1024

abbrev pub argon2_threads : ℕ
argon2_threads = 4

abbrev pub argon2_salt_len : ℕ
argon2_salt_len = 16

abbrev pub aes_nonce_len : ℕ
aes_nonce_len = 12

pub record EncryptedMnemonic : Type 0 where
  pub salt : Bytes
  pub nonce : Bytes
  pub ciphertext : Bytes
  pub time : ℕ
  pub memory : ℕ
  pub threads : ℕ
  pub version : ℕ

-- crypto/cipher's AEAD, by a nonce and a text, without additional data
pub record Aead : Type 0 where
  pub seal : Bytes → Bytes → Bytes
  pub open_sealed : Bytes → Bytes → Option Bytes

-- golang.org/x/crypto/argon2, crypto/aes and crypto/cipher. `id_key` takes the password, the salt, the
-- time, the memory and the threads; the length of the key is always 32.
pub record Library (Block : Type 0) : Type 0 where
  pub id_key : Bytes → Bytes → ℕ → ℕ → ℕ → Bytes
  pub new_cipher : Bytes → Result Block
  pub new_gcm : Block → Result Aead

-- fmt.Errorf("text: %w", err)
abbrev pub wrap_error : Str → GoError → GoError
wrap_error text e = plain (text ++ codes ": " ++ error_text e)

-- `if err != nil { return nil, fmt.Errorf("text: %w", err) }`
unfoldable pub or_wrap {ℓ} : {A : Type ℓ} → Str → Result A → Result A
or_wrap text (ok a) = ok a
or_wrap text (err e) = err (wrap_error text e)

unfoldable pub new_aead : {Block : Type 0} → Library Block → Bytes → Result Aead
new_aead lib key = or_wrap (codes "failed to create cipher") (lib.new_cipher key) >>= λ block.
    or_wrap (codes "failed to create GCM") (lib.new_gcm block)

-- `read_salt` and `read_nonce` are what rand.Read put into the two buffers.
unfoldable pub encrypt_mnemonic :
    {Block : Type 0}
    → Library Block
    → Result Bytes
    → Result Bytes
    → Str
    → Str
    → Result EncryptedMnemonic
encrypt_mnemonic lib read_salt read_nonce mnemonic password =
    or_wrap (codes "failed to generate salt") read_salt >>= λ salt.
    new_aead lib (lib.id_key password salt argon2_time argon2_memory argon2_threads) >>= λ gcm.
    or_wrap (codes "failed to generate nonce") read_nonce >>= λ nonce. ok (record {
      salt = salt;
      nonce = nonce;
      ciphertext = gcm.seal nonce mnemonic;
      time = argon2_time;
      memory = argon2_memory;
      threads = argon2_threads;
      version = 1;
    })

-- fmt.Errorf("invalid x length: got %d, want %d", got, want)
abbrev pub wrong_length : Str → ℕ → ℕ → GoError
wrong_length what got want = plain (
    codes "invalid "
    ++ what
    ++ codes " length: got "
    ++ decimal (pos got)
    ++ codes ", want "
    ++ decimal (pos want))

abbrev pub authentication_failed : GoError
authentication_failed = plain (codes "authentication failed: wrong password or corrupted data")

unfoldable pub opened : Option Bytes → Result Str
opened none = err authentication_failed
opened (some plaintext) = ok plaintext

-- The argument is a pointer, which may be nil.
unfoldable pub decrypt_mnemonic :
    {Block : Type 0} → Library Block → Option EncryptedMnemonic → Str → Result Str
decrypt_mnemonic lib none password = err (plain (codes "encrypted data is nil"))
decrypt_mnemonic lib (some e) password =
    refuse_if (not (length e.salt == argon2_salt_len))
      (wrong_length (codes "salt") (length e.salt) argon2_salt_len)
    >> (refuse_if (not (length e.nonce == aes_nonce_len))
          (wrong_length (codes "nonce") (length e.nonce) aes_nonce_len)
        >> (new_aead lib (lib.id_key password e.salt e.time e.memory e.threads) >>= λ gcm.
            opened (gcm.open_sealed e.nonce e.ciphertext)))

-- binary.BigEndian.PutUint32
unfoldable pub put_uint32 : ℕ → Bytes
put_uint32 v = v / 2 ^ 24 % 256 ∷ v / 2 ^ 16 % 256 ∷ v / 2 ^ 8 % 256 ∷ v % 256 ∷ []

-- binary.BigEndian.Uint32; of fewer than four bytes it panics, and the guard of
-- `deserialize_encrypted_data` excludes that.
unfoldable pub uint32 : Bytes → ℕ
uint32 (a ∷ b ∷ c ∷ d ∷ rest) = a * 2 ^ 24 + b * 2 ^ 16 + c * 2 ^ 8 + d
uint32 short = 0

-- The buffer is filled from left to right.
unfoldable pub serialize_encrypted_data : EncryptedMnemonic → Bytes
unfolding put_uint32
serialize_encrypted_data e =
    e.version
    ∷ (put_uint32 e.time
        ++ (put_uint32 e.memory ++ (e.threads ∷ (e.salt ++ (e.nonce ++ e.ciphertext)))))

-- data[offset], inside the length that the guard establishes
unfoldable pub byte_at : ℕ → Bytes → ℕ
byte_at offset bytes = elim (get_elem? bytes offset) [ none ↦ 0 | some b ↦ b ]

abbrev pub min_size : ℕ
min_size = 1 + 4 + 4 + 1 + argon2_salt_len + aes_nonce_len

unfoldable pub deserialize_encrypted_data : Bytes → Result EncryptedMnemonic
unfolding byte_at uint32
deserialize_encrypted_data bytes =
    if ltb (length bytes) min_size
    then err (
        plain (
          codes "invalid encrypted data: size "
          ++ decimal (pos (length bytes))
          ++ codes " < minimum "
          ++ decimal (pos min_size)))
    else ok (record {
      salt = take argon2_salt_len (drop 10 bytes);
      nonce = take aes_nonce_len (drop 26 bytes);
      ciphertext = drop 38 bytes;
      time = uint32 (drop 1 bytes);
      memory = uint32 (drop 5 bytes);
      threads = byte_at 9 bytes;
      version = byte_at 0 bytes;
    })

unfoldable pub encrypt :
    {Block : Type 0} → Library Block → Result Bytes → Result Bytes → Bytes → Str → Result Bytes
encrypt lib read_salt read_nonce bytes password =
    encrypt_mnemonic lib read_salt read_nonce bytes password >>= λ encrypted.
    ok (serialize_encrypted_data encrypted)

unfoldable pub decrypt : {Block : Type 0} → Library Block → Bytes → Str → Result Bytes
decrypt lib encrypted_data password = deserialize_encrypted_data encrypted_data >>= λ encrypted.
    decrypt_mnemonic lib (some encrypted) password
