-- ===== src/UserOps.antt =====
-- orchestrator-node/src/modules/user-ops: the user operations and their packed gas fields.
pub mod Interfaces
pub mod Packing
pub mod GasLimits
pub mod Estimates
pub mod Transfers
