-- ===== src/GasEstimator.antt =====
-- The gas estimator of orchestrator-node/src/modules/gas-estimator/gas-estimator-v2.service.ts.
pub mod Conditions
pub mod Layer1
pub mod Sessions
