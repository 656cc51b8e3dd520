-- ===== src/Coin/Registry/Table.antt =====
-- The coins that NewRegistry of internal/services/coinregistry/registry.go adds, in its order. A
-- field that the source leaves out has Go's zero value, the empty text.
use arc_signv.Common.{ℕ, List, [], ◌∷◌, ◌++◌}
use arc_signv.Common.Int.{pos}
use arc_signv.Common.Text.{Str, codes}
use arc_signv.Coin.{
  CoinMetadata, secp256k1, ed25519, sr25519, utxo, evm_mainnet, layer2, substrate, custom,
}
use Prim.Native.String.{String}

abbrev coin : String → String → ℕ → String → ℕ → Str → Str → CoinMetadata
coin s n t f r k c = record {
  symbol = codes s;
  name = codes n;
  coin_type = t;
  formatter_id = codes f;
  market_cap_rank = pos r;
  key_type = k;
  category = c;
}

-- A coin of the first version of the registry has no key type and no category.
abbrev plain : String → String → ℕ → String → ℕ → CoinMetadata
plain s n t f r = coin s n t f r [] []

abbrev pub bitcoin : CoinMetadata
bitcoin = coin "BTC" "Bitcoin" 0 "bitcoin" 1 secp256k1 utxo

abbrev pub first_coins : List CoinMetadata
first_coins =
    bitcoin
    ∷ plain "ETH" "Ethereum" 60 "ethereum" 2
    ∷ plain "BNB" "BNB" 60 "ethereum" 4
    ∷ plain "SOL" "Solana" 501 "solana" 5
    ∷ plain "XRP" "XRP" 144 "ripple" 7
    ∷ plain "DOGE" "Dogecoin" 3 "dogecoin" 8
    ∷ plain "TRX" "TRON" 195 "tron" 10
    ∷ plain "AVAX" "Avalanche" 60 "ethereum" 11
    ∷ plain "MATIC" "Polygon" 60 "ethereum" 15
    ∷ plain "LTC" "Litecoin" 2 "litecoin" 16
    ∷ plain "BCH" "Bitcoin Cash" 145 "bitcoincash" 17
    ∷ plain "XLM" "Stellar" 148 "stellar" 18
    ∷ plain "UNI" "Uniswap" 60 "ethereum" 19
    ∷ plain "ETC" "Ethereum Classic" 60 "ethereum" 21
    ∷ []

abbrev pub next_coins : List CoinMetadata
next_coins =
    plain "VET" "VeChain" 60 "ethereum" 26
    ∷ plain "ZEC" "Zcash" 133 "zcash" 29
    ∷ plain "DASH" "Dash" 5 "dash" 30
    ∷ coin "ARB" "Arbitrum" 60 "ethereum" 31 secp256k1 layer2
    ∷ coin "OP" "Optimism" 60 "ethereum" 32 secp256k1 layer2
    ∷ coin "BASE" "Base" 60 "ethereum" 33 secp256k1 layer2
    ∷ coin "ZKS" "zkSync" 60 "ethereum" 34 secp256k1 layer2
    ∷ coin "LINEA" "Linea" 60 "ethereum" 35 secp256k1 layer2
    ∷ coin "STRK" "Starknet" 9004 "starknet" 36 secp256k1 layer2
    ∷ coin "KLAY" "Klaytn" 60 "ethereum" 37 secp256k1 custom
    ∷ coin "CRO" "Cronos" 60 "ethereum" 38 secp256k1 custom
    ∷ coin "HT" "HECO" 60 "ethereum" 39 secp256k1 custom
    ∷ []

abbrev pub layer_coins : List CoinMetadata
layer_coins =
    coin "ONE" "Harmony" 1023 "harmony" 40 secp256k1 evm_mainnet
    ∷ coin "FTM" "Fantom" 60 "ethereum" 45 secp256k1 evm_mainnet
    ∷ coin "CELO" "Celo" 60 "ethereum" 46 secp256k1 evm_mainnet
    ∷ coin "GLMR" "Moonbeam" 60 "ethereum" 47 secp256k1 evm_mainnet
    ∷ coin "METIS" "Metis" 60 "ethereum" 48 secp256k1 evm_mainnet
    ∷ coin "GNO" "Gnosis" 60 "ethereum" 49 secp256k1 evm_mainnet
    ∷ coin "WAN" "Wanchain" 60 "ethereum" 50 secp256k1 evm_mainnet
    ∷ coin "KSM" "Kusama" 434 "kusama" 51 sr25519 substrate
    ∷ coin "ICX" "ICON" 74 "icon" 52 secp256k1 custom
    ∷ coin "XTZ" "Tezos" 1729 "tezos" 53 ed25519 custom
    ∷ coin "ZIL" "Zilliqa" 313 "zilliqa" 54 secp256k1 custom
    ∷ []

abbrev pub all_coins : List CoinMetadata
all_coins = first_coins ++ next_coins ++ layer_coins
