-- ===== src/Simulator/ProcessJob/Outcome.antt =====
-- How one attempt of a simulator job ends.
use composable_batch_erc.Common.Text.{Text}
