-- ===== src/RpcManager/Promotion.antt =====
-- `checkForPromotion` and `promoteProvider` of
-- orchestrator-node/src/modules/rpc-manager/rpc-manager.service.ts. A reference to a provider is
-- its position in the list. The flag `promotionInProgress` is an argument: a check ends at once
-- while it is set.
pub mod Selection
pub mod Effect
use composable_batch_erc.Common.{
  ℕ, zero, suc, ◌+◌, Bool, true, false, ◌&&◌, ◌||◌, List, [], ◌∷◌, Option, none, some,
  if◌then◌else◌, leb, ◌==◌,
}
use composable_batch_erc.RpcManager.Metrics.{
  Ratio, ratio, ProviderMetrics, is_greater, is_at_least, success_rate, reset,
}
use composable_batch_erc.RpcManager.Providers.{
  RpcProvider, RpcChainConfig, RpcProviderSyncConfig, sort_providers,
}

abbrev pub minimum_requests_for_promotion : ℕ
minimum_requests_for_promotion = 10

-- A provider and its position.
pub record Found : Type 0 where
  pub index : ℕ
  pub provider : RpcProvider

unfoldable pub find_primary_from : ℕ → List RpcProvider → Option Found
find_primary_from index [] = none
find_primary_from index (p ∷ ps) =
    let rest = find_primary_from (index + 1) ps in
    if p.priority == 0 then some (record { index = index; provider = p }) else rest

-- The promotion criteria but for the comparison with the best rate so far.
unfoldable pub is_candidate : Ratio → RpcProvider → Bool
is_candidate promotion_threshold p =
    leb minimum_requests_for_promotion p.metrics.total_requests
    && is_at_least (success_rate p.metrics) promotion_threshold

-- `bestFallback` and `bestSuccessRate`.
pub record Best : Type 0 where
  pub fallback : Option Found
  pub rate : Ratio

unfoldable pub consider : Ratio → ℕ → RpcProvider → Best → Best
unfolding is_candidate
consider promotion_threshold index p best =
    if p.priority == 0
    then best
    else if is_candidate promotion_threshold p && is_greater (success_rate p.metrics) best.rate
    then record {
      fallback = some (record { index = index; provider = p });
      rate = success_rate p.metrics;
    }
    else best

unfoldable pub select_fallback : Ratio → ℕ → List RpcProvider → Best → Best
unfolding consider
select_fallback promotion_threshold index [] best = best
select_fallback promotion_threshold index (p ∷ ps) best =
    select_fallback promotion_threshold (index + 1) ps (consider promotion_threshold index p best)

abbrev pub set_at : ℕ → RpcProvider → List RpcProvider → List RpcProvider
set_at i p [] = []
set_at zero p (q ∷ qs) = p ∷ qs
set_at (suc i) p (q ∷ qs) = q ∷ set_at i p qs

sync_configs : List RpcProvider → List RpcProviderSyncConfig
sync_configs [] = []
sync_configs (p ∷ ps) =
    record { url = p.url; priority = some p.priority; state = some p.state } ∷ sync_configs ps

-- What a promotion does to either provider: the other's priority, and fresh metrics.
unfoldable pub take_priority : ℕ → RpcProvider → RpcProvider
unfolding reset
take_priority priority p = record p { priority = priority; metrics = reset p.metrics }

-- `promoteProvider`: the configuration and the `sync` event that it emits.
unfoldable pub promote_provider :
    Found → Found → RpcChainConfig → RpcChainConfig × List RpcProviderSyncConfig
unfolding sync_configs take_priority sort_providers
promote_provider new_primary old_primary config =
    let old = old_primary.provider in
    let new = new_primary.provider in
    let demoted = take_priority new.priority old in
    let promoted = take_priority old.priority new in
    let swapped =
      set_at new_primary.index promoted (set_at old_primary.index demoted config.providers) in
    let sorted = sort_providers swapped in
    (record config { providers = sorted }, sync_configs sorted)

-- How a promotion check ends.
pub data PromotionCheck : Type 0 where
  in_progress no_primary no_fallback not_better : PromotionCheck
  promoted : Found → Found → PromotionCheck

unfoldable pub check_for_promotion : Bool → RpcChainConfig → PromotionCheck
unfolding find_primary_from select_fallback
check_for_promotion true config = in_progress
check_for_promotion false config = elim (find_primary_from 0 config.providers) [
  | none ↦ no_primary
  | some primary ↦
      let best =
        select_fallback config.promotion_threshold 0 config.providers
          (record { fallback = none; rate = ratio 0 1 }) in
      elim best.fallback [
        | none ↦ no_fallback
        | some found ↦
            if is_greater best.rate (success_rate primary.provider.metrics)
              || leb config.failure_threshold primary.provider.metrics.consecutive_failures
            then promoted found primary
            else not_better
      ]
]

-- The configuration after a promotion check.
unfoldable pub after_check : RpcChainConfig → PromotionCheck → RpcChainConfig
unfolding promote_provider
after_check config (promoted new old) = (promote_provider new old config).0
after_check config in_progress = config
after_check config no_primary = config
after_check config no_fallback = config
after_check config not_better = config
