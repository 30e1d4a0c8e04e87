-- ===== src/Quotes.antt =====
-- The quotes of orchestrator-node/src/modules/quotes.
pub mod Balances
pub mod Context
pub mod Execute
pub mod Explorer
pub mod Request
pub mod Scheduling
pub mod Senders
pub mod Signatures
pub mod Versions
