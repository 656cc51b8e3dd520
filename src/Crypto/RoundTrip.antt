-- ===== src/Crypto/RoundTrip.antt =====
-- The binary format and the encryption of encryption.go, back and forth.
use arc_signv.Common.{
  ℕ, suc, ◌+◌, ◌^◌, ◌<◌, false, ltb, ◌≡◌, refl, sym, ap, ◌∙◌, [], ◌∷◌, ◌++◌, some, length, take,
  drop, arith, take-append, drop-append, length-append,
}
use arc_signv.Chain.{ok}
use arc_signv.Crypto.{
  Bytes, EncryptedMnemonic, argon2_salt_len, aes_nonce_len, min_size, uint32, put_uint32, byte_at,
  Aead, Library, new_aead, or_wrap, encrypt_mnemonic, decrypt_mnemonic, opened, encrypt, decrypt,
  argon2_time, argon2_memory, argon2_threads, serialize_encrypted_data, deserialize_encrypted_data,
}

uint32-put_uint32 : (v : ℕ) (rest : Bytes) → v < 2 ^ 32 → uint32 (put_uint32 v ++ rest) ≡ v
unfolding uint32 put_uint32
uint32-put_uint32 v rest h = omega arith

take_exact : (n : ℕ) (xs ys : Bytes) → length xs ≡ n → take n (xs ++ ys) ≡ xs
take_exact n xs ys h = ap (λ m. take m (xs ++ ys)) (sym h) ∙ take-append xs ys

drop_exact : (n : ℕ) (xs ys : Bytes) → length xs ≡ n → drop n (xs ++ ys) ≡ ys
drop_exact n xs ys h = ap (λ m. drop m (xs ++ ys)) (sym h) ∙ drop-append xs ys

-- What the format can hold: numbers of four bytes, and the two fixed lengths.
pub record FitsFormat (e : EncryptedMnemonic) : Type 0 where
  pub time_fits : e.time < 2 ^ 32
  pub memory_fits : e.memory < 2 ^ 32
  pub salt_fits : length e.salt ≡ argon2_salt_len
  pub nonce_fits : length e.nonce ≡ aes_nonce_len

drop_more : (xs ys : Bytes) (n : ℕ) → drop (length xs + n) (xs ++ ys) ≡ drop n ys
drop_more [] ys n = ap (λ m. drop m ys) (omega arith)
drop_more (x ∷ xs) ys n =
    let shifted : suc (length xs) + n ≡ suc (length xs + n) = omega arith in
    ap (λ m. drop m (x ∷ xs ++ ys)) shifted ∙ drop_more xs ys n

drop_twice :
    (salt nonce rest : Bytes)
    → length salt ≡ argon2_salt_len
    → length nonce ≡ aes_nonce_len
    → drop 28 (salt ++ (nonce ++ rest)) ≡ rest
drop_twice salt nonce rest h k =
    ap (λ m. drop (m + 12) (salt ++ (nonce ++ rest))) (sym h)
    ∙ drop_more salt (nonce ++ rest) 12
    ∙ drop_exact 12 nonce rest k

length-serialize :
    (e : EncryptedMnemonic)
    → FitsFormat e
    → length (serialize_encrypted_data e) ≡ min_size + length e.ciphertext
unfolding serialize_encrypted_data put_uint32
length-serialize e f = omega (
  arith,
  length-append e.salt (e.nonce ++ e.ciphertext),
  length-append e.nonce e.ciphertext,
  f.salt_fits,
  f.nonce_fits,
)

-- Each field stands where the reader looks for it.
module _ (e : EncryptedMnemonic) (f : FitsFormat e) where
  long_enough : ltb (length (serialize_encrypted_data e)) min_size ≡ false
  long_enough = ground (arith, length-serialize e f)

  salt_at : take argon2_salt_len (drop 10 (serialize_encrypted_data e)) ≡ e.salt
  unfolding serialize_encrypted_data put_uint32
  salt_at = take_exact 16 e.salt (e.nonce ++ e.ciphertext) f.salt_fits

  nonce_at : take aes_nonce_len (drop 26 (serialize_encrypted_data e)) ≡ e.nonce
  unfolding serialize_encrypted_data put_uint32
  nonce_at =
      ap (take 12) (drop_exact 16 e.salt (e.nonce ++ e.ciphertext) f.salt_fits)
      ∙ take_exact 12 e.nonce e.ciphertext f.nonce_fits

  ciphertext_at : drop 38 (serialize_encrypted_data e) ≡ e.ciphertext
  unfolding serialize_encrypted_data put_uint32
  ciphertext_at = drop_twice e.salt e.nonce e.ciphertext f.salt_fits f.nonce_fits

  time_at : uint32 (drop 1 (serialize_encrypted_data e)) ≡ e.time
  unfolding serialize_encrypted_data
  time_at =
      uint32-put_uint32 e.time
        (put_uint32 e.memory ++ (e.threads ∷ (e.salt ++ (e.nonce ++ e.ciphertext)))) f.time_fits

  memory_at : uint32 (drop 5 (serialize_encrypted_data e)) ≡ e.memory
  unfolding serialize_encrypted_data put_uint32
  memory_at =
      uint32-put_uint32 e.memory (e.threads ∷ (e.salt ++ (e.nonce ++ e.ciphertext))) f.memory_fits

  threads_at : byte_at 9 (serialize_encrypted_data e) ≡ e.threads
  unfolding serialize_encrypted_data put_uint32 byte_at
  threads_at = refl

  version_at : byte_at 0 (serialize_encrypted_data e) ≡ e.version
  unfolding serialize_encrypted_data put_uint32 byte_at
  version_at = refl

  -- Whatever the format can hold is read back as it was written, each field at its place.
  pub deserialize-serialize : deserialize_encrypted_data (serialize_encrypted_data e) ≡ ok e
  unfolding deserialize_encrypted_data
  deserialize-serialize = rw (
    deserialize_encrypted_data, long_enough, salt_at, nonce_at, ciphertext_at, time_at, memory_at,
    threads_at, version_at,
  )

abbrev pub Opens : Aead → Type 0
Opens gcm = (nonce text : Bytes) → gcm.open_sealed nonce (gcm.seal nonce text) ≡ some text

-- What the libraries document: a key has 32 bytes, a cipher and GCM take any key of that length, and
-- GCM opens what it sealed with the same nonce.
pub record Documented {Block : Type 0} (lib : Library Block) : Type 0 where
  pub key_length :
      (password salt : Bytes) (t m p : ℕ) → length (lib.id_key password salt t m p) ≡ 32
  pub cipher_of_key :
      (key : Bytes) → length key ≡ 32 → (block : Block) × (lib.new_cipher key ≡ ok block)
  pub gcm_of_block : (block : Block) → (gcm : Aead) × (lib.new_gcm block ≡ ok gcm)
  pub opens_sealed : (block : Block) (gcm : Aead) → lib.new_gcm block ≡ ok gcm → Opens gcm

aead_of_key :
    {Block : Type 0} (lib : Library Block)
    → Documented lib
    → (key : Bytes) → length key ≡ 32
    → (gcm : Aead) × (new_aead lib key ≡ ok gcm) × Opens gcm
unfolding new_aead or_wrap
aead_of_key lib d key h =
    let (block, b) = d.cipher_of_key key h in
    let (gcm, g) = d.gcm_of_block block in (gcm, rw (b, g), d.opens_sealed block gcm g)

-- A mnemonic that was encrypted fits the format and is decrypted under the same password.
pub decrypt_mnemonic-encrypt_mnemonic :
    {Block : Type 0} (lib : Library Block)
    → Documented lib
    → (salt nonce text password : Bytes) → length salt ≡ argon2_salt_len
    → length nonce ≡ aes_nonce_len
    → (e : EncryptedMnemonic) × (encrypt_mnemonic lib (ok salt) (ok nonce) text password ≡ ok e)
      × FitsFormat e
      × (decrypt_mnemonic lib (some e) password ≡ ok text)
unfolding encrypt_mnemonic decrypt_mnemonic or_wrap opened
decrypt_mnemonic-encrypt_mnemonic lib d salt nonce text password h k =
    let key = lib.id_key password salt argon2_time argon2_memory argon2_threads in
    let (gcm, made, opens) =
      aead_of_key lib d key (d.key_length password salt argon2_time argon2_memory argon2_threads) in
    (
      record {
        salt = salt;
        nonce = nonce;
        ciphertext = gcm.seal nonce text;
        time = argon2_time;
        memory = argon2_memory;
        threads = argon2_threads;
        version = 1;
      },
      rw made,
      record { time_fits = omega arith; memory_fits = omega arith; salt_fits = h; nonce_fits = k },
      rw (h, k, made, opens nonce text),
    )

-- With the libraries as documented and sixteen and twelve random bytes, encrypting any data under any
-- password succeeds, and decrypting the result under that password gives the data back.
pub decrypt-encrypt :
    {Block : Type 0} (lib : Library Block)
    → Documented lib
    → (salt nonce bytes password : Bytes) → length salt ≡ argon2_salt_len
    → length nonce ≡ aes_nonce_len
    → (sealed : Bytes) × (encrypt lib (ok salt) (ok nonce) bytes password ≡ ok sealed)
      × (decrypt lib sealed password ≡ ok bytes)
unfolding encrypt decrypt
decrypt-encrypt lib d salt nonce bytes password h k =
    let (e, made, fits, opened) =
      decrypt_mnemonic-encrypt_mnemonic lib d salt nonce bytes password h k in
    (serialize_encrypted_data e, rw made, rw (deserialize-serialize e fits, opened))
