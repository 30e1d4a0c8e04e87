-- ===== src/EntryPoint.antt =====
-- The entry point service of orchestrator-node/src/modules/entry-point: how it reads the trace of a
-- simulated call.
pub mod Traces
pub mod Reverts
pub mod HandleOps
