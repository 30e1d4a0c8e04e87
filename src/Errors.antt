-- ===== src/Errors.antt =====
-- The error texts that the executor and the RPC manager recognise.
pub mod Patterns
pub mod Sanitize
