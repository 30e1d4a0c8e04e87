-- ===== src/RpcManager.antt =====
-- orchestrator-node/src/modules/rpc-manager: providers, their metrics, failover and promotion.
pub mod ClassifyError
pub mod Metrics
pub mod Providers
pub mod ExecuteRequest
pub mod HealthCheck
pub mod Promotion
