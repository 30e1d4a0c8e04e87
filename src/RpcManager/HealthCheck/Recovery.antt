-- ===== src/RpcManager/HealthCheck/Recovery.antt =====
-- When a provider is degraded, and when it recovers.
use composable_batch_erc.Common.{
  ℕ, ◌≤◌, ◌<◌, ◌≡◌, ◌↔◌, arith, true, List, [], ◌∷◌, Option, none, some, All,
}
use composable_batch_erc.RpcManager.Providers.{RpcProvider, degraded}
use composable_batch_erc.RpcManager.HealthCheck.{check_provider}

-- The state of a provider agrees with its failure count.
abbrev pub AgreesWithCount : ℕ → RpcProvider → Type 0
AgreesWithCount threshold p = (p.state ≡ degraded) ↔ (threshold ≤ p.metrics.consecutive_failures)

-- A health check keeps the agreement of state and failure count, for a threshold of at least 1: a
-- provider is degraded exactly while its last checks failed often enough in a row.
pub check_provider-AgreesWithCount :
    (threshold now : ℕ) (reply : Option ℕ) (p : RpcProvider)
    → 0 < threshold
    → AgreesWithCount threshold p
    → AgreesWithCount threshold (check_provider threshold now reply p).provider
unfolding check_provider
check_provider-AgreesWithCount threshold now none p h a = ground arith
check_provider-AgreesWithCount threshold now (some t) p h a = ground arith

-- A run of health checks of one provider, by the replies of its client.
unfoldable pub check_run : ℕ → ℕ → List (Option ℕ) → RpcProvider → RpcProvider
check_run threshold now [] p = p
check_run threshold now (reply ∷ replies) p =
    check_run threshold now replies (check_provider threshold now reply p).provider

-- Replies that are all a success.
abbrev pub AllPassed : List (Option ℕ) → Type 0
AllPassed = All (λ r. (t : ℕ) × (r ≡ some t))

check_provider-stuck :
    (threshold now t : ℕ) (p : RpcProvider)
    → p.client ≡ true
    → p.state ≡ degraded
    → p.metrics.consecutive_failures ≡ 0
    → let p' = (check_provider threshold now (some t) p).provider in
      (p'.client ≡ true) × (p'.state ≡ degraded) × (p'.metrics.consecutive_failures ≡ 0)
unfolding check_provider
check_provider-stuck threshold now t p c d z = ground arith

-- A degraded provider whose failure count is 0 stays degraded through any number of successful
-- health checks: the recovery waits for a failure count above 0.
pub check_run-stuck :
    (threshold now : ℕ) (replies : List (Option ℕ)) (p : RpcProvider)
    → p.client ≡ true
    → p.state ≡ degraded
    → p.metrics.consecutive_failures ≡ 0
    → AllPassed replies
    → (check_run threshold now replies p).state ≡ degraded
unfolding check_run
check_run-stuck threshold now [] p c d z h = d
check_run-stuck threshold now (reply ∷ replies) p c d z ((t, e), h) =
    let (c', d', z') = check_provider-stuck threshold now t p c d z in
    rw e (
      check_run-stuck threshold now replies (check_provider threshold now (some t) p).provider c' d'
        z' h)
