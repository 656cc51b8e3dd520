-- ===== src/Provider/Config/Saved.antt =====
-- What the encrypted file of internal/provider/config.go holds after a call that writes it.
use arc_signv.Common.{◌≡◌, ◌∙◌, false, ◌&&◌, [], none, some, length, arith}
use arc_signv.Common.Text.{Str, codes, str_eq, eq_iff, eq_refl}
use arc_signv.Common.Int.{ℤ}
use arc_signv.Common.Dict.{insert, lookup-insert, lookup-insert_self}
use arc_signv.Chain.{ok}
use arc_signv.Crypto.{Bytes, Library, or_wrap, decrypt, argon2_salt_len, aes_nonce_len}
use arc_signv.Crypto.RoundTrip.{Documented, decrypt-encrypt}
use arc_signv.Provider.{ProviderConfig}
use arc_signv.Provider.Config.{
  Configs, ProviderConfigStore, ProviderConfigFile, Codec, Stored, contents, Answers, saved_bytes,
  save, file_of, parse, load, new_provider_config_store, check_config, stamped, of_chain, put, set,
  held, get,
}

abbrev pub maps : ProviderConfigFile → Configs
maps f = elim f.configs [ none ↦ [] | some m ↦ m ]

-- The structure is written, and read back as one of the same version whose maps hold the same.
pub record ReadsBack (codec : Codec) (f : ProviderConfigFile) : Type 0 where
  pub json : Bytes
  pub parsed : ProviderConfigFile
  pub written : codec.marshal f ≡ ok json
  pub read : codec.unmarshal json ≡ ok parsed
  pub same_version : parsed.version ≡ f.version
  pub same_maps :
      (chain_id provider_type : Str)
      → held chain_id provider_type (maps parsed) ≡ held chain_id provider_type (maps f)

-- Random bytes of the right lengths, and no failure.
abbrev pub good_answers : Bytes → Bytes → Answers
good_answers salt nonce = record {
  read_salt = ok salt;
  read_nonce = ok nonce;
  makes_dir = ok tt;
  writes_tmp = ok tt;
  renames = ok tt;
}

abbrev pub SameConfigs : ProviderConfigStore → ProviderConfigStore → Type 0
SameConfigs s t =
    (chain_id provider_type : Str)
    → held chain_id provider_type s.configs ≡ held chain_id provider_type t.configs

parse_lem :
    {Block : Type 0} (lib : Library Block) (codec : Codec) (sealed json : Bytes)
    (f : ProviderConfigFile) (s : ProviderConfigStore)
    → decrypt lib sealed s.password ≡ ok json
    → codec.unmarshal json ≡ ok f
    → f.version ≡ codes "1.0"
    → parse lib codec sealed s ≡ ok (record s { configs = maps f })
unfolding parse or_wrap
parse_lem lib codec sealed json f s e u v = rw (parse, e, u, v, eq_refl (codes "1.0"))

saved_bytes-new_store :
    {Block : Type 0} (lib : Library Block) (codec : Codec) (salt nonce : Bytes) (now : ℤ)
    (s : ProviderConfigStore)
    → Documented lib
    → ReadsBack codec (file_of now s)
    → length salt ≡ argon2_salt_len
    → length nonce ≡ aes_nonce_len
    → (sealed : Bytes) × (t : ProviderConfigStore) × (saved_bytes lib codec
          (good_answers salt nonce)
          now
          s
        ≡ ok sealed)
      × (new_provider_config_store lib codec (contents sealed) s.password ≡ ok t)
      × SameConfigs t s
unfolding saved_bytes new_provider_config_store or_wrap
saved_bytes-new_store lib codec salt nonce now s d r h k =
    let (sealed, encrypted, decrypted) = decrypt-encrypt lib d salt nonce r.json s.password h k in
    (
      sealed,
      record { configs = maps r.parsed; password = s.password },
      rw (r.written, encrypted),
      rw (
        new_provider_config_store,
        load,
        parse_lem lib codec sealed r.json r.parsed (record { configs = []; password = s.password })
            decrypted r.read r.same_version,
      ),
      r.same_maps,
    )

held-put_self :
    (c : ProviderConfig) (m : Configs) → held c.chain_id c.provider_type (put c m) ≡ some (some c)
unfolding held put
held-put_self c m =
    let inner = insert c.provider_type c (of_chain c.chain_id m) in
    rw (
      held,
      put,
      lookup-insert_self c.chain_id inner m,
      lookup-insert_self c.provider_type c (of_chain c.chain_id m),
    )

held-put_other :
    (c : ProviderConfig) (m : Configs) (chain_id provider_type : Str) (d : ProviderConfig)
    → (str_eq c.chain_id chain_id && str_eq c.provider_type provider_type) ≡ false
    → held chain_id provider_type m ≡ some (some d)
    → held chain_id provider_type (put c m) ≡ some (some d)
unfolding held put
held-put_other c m chain_id provider_type d other e =
    let inner = insert c.provider_type c (of_chain c.chain_id m) in
    ground (
      arith,
      eq_iff c.chain_id chain_id,
      lookup-insert c.chain_id chain_id inner m,
      lookup-insert c.provider_type provider_type c (of_chain c.chain_id m),
    )

get_of_held :
    (chain_id provider_type : Str) (s : ProviderConfigStore) (c : ProviderConfig)
    → held chain_id provider_type s.configs ≡ some (some c)
    → get chain_id provider_type s ≡ ok c
unfolding get
get_of_held chain_id provider_type s c e = rw (get, e)

held_of_get :
    (chain_id provider_type : Str) (s : ProviderConfigStore) (c : ProviderConfig)
    → get chain_id provider_type s ≡ ok c
    → held chain_id provider_type s.configs ≡ some (some c)
unfolding get
held_of_get chain_id provider_type s c e = ground arith

-- Where nothing fails, a valid configuration that is `Set` survives: the file then opens under the
-- store's password, the new store returns the configuration with its time stamps, and each of the
-- others that was there before it returns unchanged.
pub set-survives :
    {Block : Type 0} (lib : Library Block) (codec : Codec) (salt nonce : Bytes) (now : ℤ)
    (c : ProviderConfig) (s : ProviderConfigStore) (file : Stored)
    → Documented lib
    → ReadsBack codec (file_of now (record s { configs = put (stamped now c) s.configs }))
    → length salt ≡ argon2_salt_len
    → length nonce ≡ aes_nonce_len
    → check_config c ≡ ok tt
    → (s' : ProviderConfigStore) × (file' : Stored) × (t : ProviderConfigStore) × (set lib codec
          (good_answers salt nonce)
          now
          c
          s
          file
        ≡ (s', file', ok tt))
      × (new_provider_config_store lib codec file' s.password ≡ ok t)
      × (get c.chain_id c.provider_type t ≡ ok (stamped now c))
      × ((chain_id provider_type : Str) (d : ProviderConfig)
          → (str_eq c.chain_id chain_id && str_eq c.provider_type provider_type) ≡ false
          → get chain_id provider_type s ≡ ok d
          → get chain_id provider_type t ≡ ok d)
unfolding set save stamped
set-survives lib codec salt nonce now c s file d r h k valid =
    let s' = record s { configs = put (stamped now c) s.configs } in
    let (sealed, t, saved, opened, same) =
      saved_bytes-new_store lib codec salt nonce now s' d r h k in
    (
      s',
      contents sealed,
      t,
      rw (set, valid, save, saved),
      opened,
      get_of_held c.chain_id c.provider_type t (stamped now c)
          (same c.chain_id c.provider_type ∙ held-put_self (stamped now c) s.configs),
      λ chain_id provider_type e other before. get_of_held chain_id provider_type t e (
          same chain_id provider_type
          ∙ held-put_other (stamped now c) s.configs chain_id provider_type e other
              (held_of_get chain_id provider_type s e before)),
    )
