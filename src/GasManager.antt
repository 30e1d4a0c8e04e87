-- ===== src/GasManager.antt =====
-- `GasManagerService` of orchestrator-node/src/modules/gas-manager/gas-manager.service.ts.
pub mod LegacyPrice
pub mod GasInfos
pub mod FetchGuard
