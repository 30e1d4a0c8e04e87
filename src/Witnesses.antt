-- ===== src/Witnesses.antt =====
-- The theorems at concrete inputs: a chain with two providers, a worker, a block of two user
-- operations, one of which is past its upper bound, quotes of a few user operations, and a step of
-- the SDK.
mod Samples
mod Execution
mod Providers
mod Gas
mod Batches
mod Simulation
mod Encoded
mod Quotes
mod Stored
