-- ===== src/Lib.antt =====
-- Verification library of arcSign, a multi-chain wallet.
--
-- The modelled program, with the files that model its parts:
--   * Chain: src/chainadapter/error.go and the data types of src/chainadapter/adapter.go. `Result` is
--     Go's pair of a value and an error; the errors of the package keep their class and code.
--   * Storage: src/chainadapter/storage. Storage/Memory is memory.go and Storage/File is file.go, one
--     function per method. A pointer to a state is an `Option`, so nil states and the panics that they
--     cause are modelled; JSON encoding is a parameter, `StateJson`, of which a theorem assumes at most
--     that it reads back the one map it wrote. `TxStore` is what the adapters call of a store.
--     Storage/Refinement compares the in-memory store with a function from hashes to states.
--   * RateLimit: internal/services/ratelimit/limiter.go, and what it promises over any history.
--   * Rpc/Health and Rpc/Failover: src/chainadapter/rpc/health.go and http.go. A client keeps a health
--     tracker, asks it before each request and tells it the outcome after.
--   * Bitcoin: src/chainadapter/bitcoin. Bitcoin/Select is the selection of inputs and
--     Bitcoin/Builder the validation and assembly of a transaction, both of builder.go; Bitcoin/Node
--     is rpc.go, Bitcoin/Fee is fee.go and Bitcoin/Adapter is adapter.go.
--   * Ethereum: src/chainadapter/ethereum, file by file in the same way: Ethereum/Builder,
--     Ethereum/Node, Ethereum/Fee and Ethereum/Adapter, with QueryStatus in Adapter/Status and Sign in
--     Adapter/Signing.
--   * Adapter: what the adapters of both chains spell out alike, above all `Broadcast`. A `World` is
--     the store, the requests sent and the metrics noted; a `Node` answers each request anew.
--   * Crypto: internal/services/crypto/encryption.go, the encrypted form in which a wallet is stored;
--     Argon2, AES and GCM are a parameter, `Library`, and the random bytes are arguments.
--   * Provider: internal/provider. Provider/Config is the store of configurations and its encrypted file
--     (config.go), over Crypto; Provider/Registry makes, caches and tries providers (registry.go), and
--     Provider/Priority is its sort.
--   * Coin: the records of internal/models that wallets and addresses share. Coin/Registry:
--     internal/services/coinregistry (registry.go, types.go), with the shipped coins in its Table;
--     an index out of range, a panic in Go, is `none`. Coin/Book: the lookups and checks of
--     internal/models/address.go and account.go.
--   * Address: internal/services/address/service.go, the generation of an address for every coin of
--     the registry. Address/Derivation is one coin's attempt and its retry; the keys' library and
--     the chains' formats are a parameter, `Libraries`.
--   * Wallet: internal/services/wallet/service.go. Wallet/Create is CreateWallet and Wallet/Restore is
--     RestoreWallet, over Crypto and RateLimit; Wallet/Password is ValidatePassword. A `Disk` is the
--     files and the audit logs, an `Env` answers for the operating system and the libraries.
--   * Ffi: internal/lib. The exported wallet functions without their JSON, each of which makes a
--     wallet service of its own, and the codes of errors (Ffi/Errors).
--   * Metrics: src/chainadapter/metrics and src/chainadapter/rpc/metrics_client.go. Metrics/Counts
--     compares the recorder with a log of calls.
--   * Common: what they share, integers, int64 words, texts, maps, times and floats among it.
--   * Tests: runs of the definitions, and each theorem applied to a concrete case.
--
-- A method with a lock is one step from a state to a state; the clock, the network, the disk and the
-- libraries (btcd, go-ethereum, the ciphers) are arguments. Go's int64 arithmetic wraps around where
-- the program computes with it (Common/Word); counters of calls are unbounded. Floats are a record of operations, whose rounding
-- is left open. The failover loop runs on fuel, one round more than the client has endpoints, which
-- is shown to be enough.
--
-- Not modelled: key derivation and signing (calls of cryptographic libraries), the WebSocket client,
-- the clients of hosted providers, the address formats, the exported
-- transaction functions and the dashboard.
mod Common
pub mod Chain
pub mod Crypto
pub mod Provider
pub mod Address
pub mod Coin
pub mod Wallet
pub mod Ffi
pub mod Metrics
pub mod Storage
pub mod RateLimit
pub mod Rpc
pub mod Bitcoin
pub mod Adapter
pub mod Ethereum
mod Tests
