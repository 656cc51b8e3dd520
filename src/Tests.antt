-- ===== src/Tests.antt =====
-- Runs of the definitions, and the theorems applied to concrete values.
mod Values
mod StorageRuns
mod ClientRuns
mod LimiterRuns
mod BitcoinRuns
mod DeliveryRuns
mod EthereumRuns
mod CryptoRuns
mod ProviderRuns
mod WalletRuns
mod MetricsRuns
mod CoinRuns
mod AddressRuns
