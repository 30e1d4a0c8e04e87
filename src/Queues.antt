-- ===== src/Queues.antt =====
-- The queues of orchestrator-node/src/modules/core/queue: how a job's data is written to a queue
-- and read back.
pub mod Decimal
pub mod JobData
