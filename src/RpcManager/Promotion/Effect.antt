-- ===== src/RpcManager/Promotion/Effect.antt =====
-- What a promotion does to the providers of a chain.
use composable_batch_erc.Common.{ℕ, ◌≡◌, refl, List, Option, true}
use composable_batch_erc.RpcManager.Providers.{RpcProvider, degraded}
use composable_batch_erc.RpcManager.HealthCheck.Recovery.{check_run, check_run-stuck, AllPassed}
use composable_batch_erc.RpcManager.Promotion.{take_priority}

-- A provider that is degraded when a promotion gives it fresh metrics stays degraded, and so is
-- passed over, through any number of successful health checks that follow.
pub take_priority-stays_degraded :
    (threshold now priority : ℕ) (replies : List (Option ℕ)) (p : RpcProvider)
    → p.client ≡ true
    → p.state ≡ degraded
    → AllPassed replies
    → (check_run threshold now replies (take_priority priority p)).state ≡ degraded
unfolding take_priority
take_priority-stays_degraded threshold now priority replies p c d h =
    check_run-stuck threshold now replies _ c d refl h
