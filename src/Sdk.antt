-- ===== src/Sdk.antt =====
-- The SDK for composable batches: sdk/src/core.
pub mod Params
pub mod Encode
pub mod Batch
