-- ===== src/RpcManager/Providers.antt =====
-- The providers of a chain, of orchestrator-node/src/modules/rpc-manager/interfaces.ts and
-- rpc-manager.service.ts. A provider's client is told by whether it is there.
use composable_batch_erc.Common.{
  ℕ, ◌+◌, Bool, true, false, List, [], ◌∷◌, Option, none, some, if◌then◌else◌, ◌==◌,
}
use composable_batch_erc.Common.Text.{Text, text_eq}
use composable_batch_erc.Common.Sorting.{sort_by}
use composable_batch_erc.RpcManager.Metrics.{ProviderMetrics, Ratio, ratio, new_metrics}

pub data RpcProviderState : Type 0 where
  active degraded : RpcProviderState

pub record RpcProvider : Type 0 where
  pub url : Text
  pub priority : ℕ
  pub metrics : ProviderMetrics
  pub state : RpcProviderState
  pub client : Bool

pub record RpcChainConfig : Type 0 where
  pub chain_id : Text
  pub providers : List RpcProvider
  pub failure_threshold : ℕ
  pub promotion_threshold : Ratio
  pub health_check_interval : ℕ

-- An absent field of an update is `none`.
pub record RpcProviderSyncConfig : Type 0 where
  pub url : Text
  pub priority : Option ℕ
  pub state : Option RpcProviderState

unfoldable pub is_degraded : RpcProviderState → Bool
is_degraded degraded = true
is_degraded active = false

-- `providers.sort((a, b) => a.priority - b.priority)`.
unfoldable pub sort_providers : List RpcProvider → List RpcProvider
unfolding sort_by
sort_providers = sort_by (λ (p : RpcProvider). p.priority)

prepare_from : ℕ → List Text → List RpcProvider
prepare_from index [] = []
prepare_from index (rpc ∷ rpcs) =
    record { url = rpc; priority = index; metrics = new_metrics; state = active; client = false }
    ∷ prepare_from (index + 1) rpcs

-- `prepareRpcChainConfig`; the clients are made later, by `setup`.
unfoldable pub prepare_rpc_chain_config : Text → List Text → Bool → RpcChainConfig
unfolding prepare_from new_metrics
prepare_rpc_chain_config chain_id rpcs is_test_chain = record {
  chain_id = chain_id;
  providers = prepare_from 0 rpcs;
  failure_threshold = 3;
  promotion_threshold = ratio 95 100;
  health_check_interval = if is_test_chain then 120000 else 30000;
}

-- `config.providers.find((p) => p.priority === 0)`.
unfoldable pub find_primary : List RpcProvider → Option RpcProvider
find_primary [] = none
find_primary (p ∷ ps) = if p.priority == 0 then some p else find_primary ps

abbrev or_keep {ℓ} : {A : Type ℓ} → Option A → A → A
or_keep none a = a
or_keep (some b) a = b

-- One round of the loop of `syncProviders`: the first provider with the url is updated.
unfoldable pub sync_provider : RpcProviderSyncConfig → List RpcProvider → List RpcProvider
sync_provider update [] = []
sync_provider update (p ∷ ps) =
    if text_eq p.url update.url
    then record p {
      priority = or_keep update.priority p.priority;
      state = or_keep update.state p.state;
    }
      ∷ ps
    else p ∷ sync_provider update ps

unfoldable pub apply_updates : List RpcProviderSyncConfig → List RpcProvider → List RpcProvider
unfolding sync_provider
apply_updates [] ps = ps
apply_updates (update ∷ updates) ps = apply_updates updates (sync_provider update ps)

-- `syncProviders` on the configuration of its chain, run under the mutex.
unfoldable pub sync_providers : List RpcProviderSyncConfig → RpcChainConfig → RpcChainConfig
unfolding apply_updates sort_providers
sync_providers updates config = record config {
  providers = sort_providers (apply_updates updates config.providers);
}
