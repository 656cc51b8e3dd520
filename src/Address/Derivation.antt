-- ===== src/Address/Derivation.antt =====
-- One coin's attempt in GenerateMultiCoinAddresses of internal/services/address/service.go, its
-- retry, and the choice of a format. The keys' library and the address formats of the chains are
-- a parameter, `Libraries`.
use arc_signv.Common.{ℕ, ◌+◌, ◌%◌, ◌^◌, ◌++◌, if◌then◌else◌}
use arc_signv.Common.Text.{Str, codes, str_eq}
use arc_signv.Chain.{Result, ok, err, plain, ◌>>=◌}
use arc_signv.Crypto.{or_wrap}
use arc_signv.Coin.{CoinMetadata}

pub record Libraries (Key PrivateKey : Type 0) : Type 0 where
  pub derive : Key → ℕ → Result Key
  pub ec_private_key : Key → Result PrivateKey
  pub bitcoin : Key → Result Str
  pub ethereum : Key → Result Str
  pub litecoin : Key → Result Str
  pub dogecoin : Key → Result Str
  pub dash : Key → Result Str
  pub bitcoincash : Key → Result Str
  pub zcash : Key → Result Str
  pub ripple : Key → Result Str
  pub stellar : Key → Result Str
  pub tron : Key → Result Str
  pub solana : Key → Result Str
  pub cosmos : Key → Result Str
  pub starknet : Key → Result Str
  pub harmony : PrivateKey → Result Str
  pub osmosis : Key → Result Str
  pub juno : Key → Result Str
  pub evmos : Key → Result Str
  pub secret : Key → Result Str
  pub kusama : Key → Result Str
  pub icon : Key → Result Str
  pub tezos : Key → Result Str
  pub zilliqa : Key → Result Str

-- The call `fn()` twice, on what it answers the first time and the second.
abbrev pub retry_once {ℓ} : {A : Type ℓ} → Result A → Result A → Result A × ℕ
retry_once (ok a) second = (ok a, 1)
retry_once (err e) (ok b) = (ok b, 2)
retry_once (err e) (err f) = (err f, 2)

-- `hdkeychain.HardenedKeyStart + n` on uint32
abbrev pub hardened : ℕ → ℕ
hardened n = (2147483648 + n) % 2 ^ 32

module _ {Key PrivateKey : Type 0} where
  unfoldable pub derive_address_by_formatter : Libraries Key PrivateKey → Key → Str → Result Str
  derive_address_by_formatter lib key id =
      if str_eq id (codes "bitcoin")
      then lib.bitcoin key
      else if str_eq id (codes "ethereum")
      then lib.ethereum key
      else if str_eq id (codes "litecoin")
      then lib.litecoin key
      else if str_eq id (codes "dogecoin")
      then lib.dogecoin key
      else if str_eq id (codes "dash")
      then lib.dash key
      else if str_eq id (codes "bitcoincash")
      then lib.bitcoincash key
      else if str_eq id (codes "zcash")
      then lib.zcash key
      else if str_eq id (codes "ripple")
      then lib.ripple key
      else if str_eq id (codes "stellar")
      then lib.stellar key
      else if str_eq id (codes "tron")
      then lib.tron key
      else if str_eq id (codes "solana")
      then lib.solana key
      else if str_eq id (codes "cosmos")
      then lib.cosmos key
      else if str_eq id (codes "starknet")
      then lib.starknet key
      else if str_eq id (codes "harmony")
      then (or_wrap (codes "failed to get ECDSA private key for Harmony") (lib.ec_private_key key)
          >>= λ secret. lib.harmony secret)
      else if str_eq id (codes "osmosis")
      then lib.osmosis key
      else if str_eq id (codes "juno")
      then lib.juno key
      else if str_eq id (codes "evmos")
      then lib.evmos key
      else if str_eq id (codes "secret")
      then lib.secret key
      else if str_eq id (codes "kusama")
      then lib.kusama key
      else if str_eq id (codes "icon")
      then lib.icon key
      else if str_eq id (codes "tezos")
      then lib.tezos key
      else if str_eq id (codes "zilliqa")
      then lib.zilliqa key
      else err (plain (codes "unsupported formatter: " ++ id))

  unfoldable pub attempt : Libraries Key PrivateKey → Key → CoinMetadata → Result Str
  attempt lib master_key coin =
      or_wrap (codes "failed to derive purpose") (lib.derive master_key (hardened 44))
      >>= λ purpose.
          or_wrap (codes "failed to derive coin type")
            (lib.derive purpose (hardened coin.coin_type))
          >>= λ coin_type_key.
              or_wrap (codes "failed to derive account") (lib.derive coin_type_key (hardened 0))
              >>= λ account_key.
                  or_wrap (codes "failed to derive external chain") (lib.derive account_key 0)
                  >>= λ external_key.
                      or_wrap (codes "failed to derive address key") (lib.derive external_key 0)
                      >>= λ address_key.
                          derive_address_by_formatter lib address_key coin.formatter_id
