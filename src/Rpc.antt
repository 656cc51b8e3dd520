-- ===== src/Rpc.antt =====
-- src/chainadapter/rpc: the health of endpoints and the client that fails over between them.
pub mod Health
pub mod Failover
