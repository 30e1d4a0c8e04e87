-- ===== src/RpcManager/HealthCheck.antt =====
-- `performHealthCheck` of orchestrator-node/src/modules/rpc-manager/rpc-manager.service.ts. The
-- answer of `debug.traceCall` is an argument: the response time, or `none` if it fails. Each
-- provider's check touches that provider alone, so the parallel checks are made in turn.
pub mod Recovery
use composable_batch_erc.Common.{
  ℕ, Bool, true, false, List, [], ◌∷◌, Option, none, some, if◌then◌else◌, ltb, leb,
}
use composable_batch_erc.RpcManager.Metrics.{record_success, record_failure}
use composable_batch_erc.RpcManager.Providers.{
  RpcProvider, RpcChainConfig, RpcProviderSyncConfig, RpcProviderState, active, degraded,
}

-- What a check leaves: the provider, the `sync` events, and whether a promotion check was queued.
pub record Checked : Type 0 where
  pub provider : RpcProvider
  pub events : List RpcProviderSyncConfig
  pub promotion_check : Bool

abbrev state_event : RpcProvider → RpcProviderState → RpcProviderSyncConfig
state_event p state = record { url = p.url; priority = none; state = some state }

-- The rest of the `try` once the trace call has succeeded.
unfoldable pub check_passed : ℕ → RpcProvider → Checked
unfolding record_success
check_passed response_time p =
    let recovers = ltb 0 p.metrics.consecutive_failures in
    record {
      provider = record p {
        state = if recovers then active else p.state;
        metrics = record_success response_time p.metrics;
      };
      events = if recovers then state_event p active ∷ [] else [];
      promotion_check = true;
    }

-- The `catch`.
unfoldable pub check_failed : ℕ → ℕ → RpcProvider → Checked
unfolding record_failure
check_failed failure_threshold now p =
    let metrics' = record_failure now p.metrics in
    let degrades = leb failure_threshold metrics'.consecutive_failures in
    record {
      provider = record p { state = if degrades then degraded else p.state; metrics = metrics' };
      events = if degrades then state_event p degraded ∷ [] else [];
      promotion_check = false;
    }

unfoldable pub check_provider : ℕ → ℕ → Option ℕ → RpcProvider → Checked
unfolding check_passed check_failed
check_provider failure_threshold now none p = check_failed failure_threshold now p
check_provider failure_threshold now (some response_time) p =
    if p.client then check_passed response_time p else check_failed failure_threshold now p

unfoldable pub check_all : ℕ → ℕ → (RpcProvider → Option ℕ) → List RpcProvider → List Checked
unfolding check_provider
check_all failure_threshold now trace_call [] = []
check_all failure_threshold now trace_call (p ∷ ps) =
    check_provider failure_threshold now (trace_call p) p
    ∷ check_all failure_threshold now trace_call ps

abbrev checked_providers : List Checked → List RpcProvider
checked_providers [] = []
checked_providers (c ∷ cs) = c.provider ∷ checked_providers cs

-- A check is skipped while another one of the chain is in progress.
unfoldable pub perform_health_check :
    Bool → ℕ → (RpcProvider → Option ℕ) → RpcChainConfig → RpcChainConfig × List Checked
unfolding check_all
perform_health_check in_progress now trace_call config =
    let cs = check_all config.failure_threshold now trace_call config.providers in
    if in_progress then (config, []) else (record config { providers = checked_providers cs }, cs)
