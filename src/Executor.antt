-- ===== src/Executor.antt =====
-- The processor of the executor queue, orchestrator-node/src/modules/executor.
pub mod ParseError
pub mod Messages
pub mod Records
pub mod Confirmation
pub mod Reverts
pub mod Retry
pub mod Block
pub mod Start
pub mod AfterExecution
pub mod ProcessJob
