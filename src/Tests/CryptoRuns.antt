-- ===== src/Tests/CryptoRuns.antt =====
-- Runs of internal/services/crypto with a toy library in the place of Argon2, AES and GCM.
use arc_signv.Common.{
  ◌*◌, ◌≡◌, refl, sym, ap, ◌∙◌, [], ◌∷◌, ◌++◌, some, length, drop, drop-append, arith,
}
use arc_signv.Common.Text.{codes, decimal}
use arc_signv.Chain.{ok, err, plain, ok-injective}
use arc_signv.Crypto.{
  Bytes, Aead, Library, EncryptedMnemonic, serialize_encrypted_data, deserialize_encrypted_data,
  encrypt, decrypt,
}
use arc_signv.Crypto.RoundTrip.{FitsFormat, Documented, deserialize-serialize, decrypt-encrypt}

abbrev pub toy_aead : Aead
toy_aead = record {
  seal = λ nonce text. nonce ++ text;
  open_sealed = λ nonce text. some (drop (length nonce) text);
}

abbrev pub toy_library : Library Bytes
toy_library = record {
  id_key = λ password salt t m p. codes "0123456789abcdef0123456789abcdef";
  new_cipher = λ key. ok key;
  new_gcm = λ block. ok toy_aead;
}

abbrev pub some_salt : Bytes
some_salt = codes "saltsaltsaltsalt"

abbrev pub some_nonce : Bytes
some_nonce = codes "noncenonceno"

abbrev stored : EncryptedMnemonic
stored = record {
  salt = some_salt;
  nonce = some_nonce;
  ciphertext = 7 ∷ 255 ∷ [];
  time = 4;
  memory = 256 * 1024;
  threads = 4;
  version = 1;
}

pub toy-Documented : Documented toy_library
toy-Documented = record {
  key_length = λ password salt t m p. refl;
  cipher_of_key = λ key h. (key, refl);
  gcm_of_block = λ block. (toy_aead, refl);
  opens_sealed = λ block gcm h nonce text.
      ap (λ g. g.open_sealed nonce (g.seal nonce text)) (sym (ok-injective h))
      ∙ ap some (drop-append nonce text);
}

stored-FitsFormat : FitsFormat stored
stored-FitsFormat = record {
  time_fits = omega arith;
  memory_fits = omega arith;
  salt_fits = refl;
  nonce_fits = refl;
}

too_short :
    deserialize_encrypted_data (1 ∷ 2 ∷ [])
    ≡ err (plain (codes "invalid encrypted data: size 2 < minimum 38"))
unfolding deserialize_encrypted_data decimal
too_short = refl

deserialize-serialize_example :
    deserialize_encrypted_data (serialize_encrypted_data stored) ≡ ok stored
deserialize-serialize_example = deserialize-serialize stored stored-FitsFormat

decrypt-encrypt_example :
    (sealed : Bytes) × (encrypt toy_library
        (ok some_salt)
        (ok some_nonce)
        (codes "abandon ability")
        (codes "pw1")
      ≡ ok sealed)
    × (decrypt toy_library sealed (codes "pw1") ≡ ok (codes "abandon ability"))
decrypt-encrypt_example =
    decrypt-encrypt toy_library toy-Documented some_salt some_nonce (codes "abandon ability")
      (codes "pw1") refl refl
