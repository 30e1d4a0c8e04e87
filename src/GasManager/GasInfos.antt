-- ===== src/GasManager/GasInfos.antt =====
-- The stored gas information of orchestrator-node/src/modules/gas-manager/gas-manager.service.ts.
-- A fee history is an answer of the RPC provider, of any type.
pub mod Updates
use composable_batch_erc.Common.{
  ℕ, Bool, true, false, List, [], ◌∷◌, ◌++◌, Option, none, some, if◌then◌else◌,
}
use composable_batch_erc.Common.Text.{Text, codes}
use composable_batch_erc.Common.Assoc.{lookup, insert}
use composable_batch_erc.GasManager.LegacyPrice.{GasPriceMode, standard, fast, rapid}

-- `null` is `none`.
pub record GasInfo (F : Type 0) : Type 0 where
  pub gas_price : Option ℕ
  pub fee_history : Option F
  pub max_priority_fee : Option ℕ

-- `newer !== null ? newer : previous`.
unfoldable pub newer_or {ℓ} : {A : Type ℓ} → Option A → Option A → Option A
newer_or none previous = previous
newer_or (some a) previous = some a

-- The state that `setGasInfo` changes, with the `sync` events that it emitted.
pub record GasInfos (F : Type 0) : Type 0 where
  pub gas_infos_by_chain : List (Text × GasInfo F)
  pub sync : Bool
  pub emitted : List (Text × GasInfo F)

-- What `getLatest…` gives, or the message of its `BadRequestException`.
pub data Latest (A : Type 0) : Type 0 where
  latest : A → Latest A
  bad_request : Text → Latest A

module _ {F : Type 0} where
  unfoldable pub merge_gas_info : GasInfo F → GasInfo F → GasInfo F
  unfolding newer_or
  merge_gas_info new previous = record {
    gas_price = newer_or new.gas_price previous.gas_price;
    fee_history = newer_or new.fee_history previous.fee_history;
    max_priority_fee = newer_or new.max_priority_fee previous.max_priority_fee;
  }

  unfoldable pub store : Text → GasInfo F → GasInfos F → GasInfos F
  store chain_id info s = record s {
    gas_infos_by_chain = insert chain_id info s.gas_infos_by_chain;
    emitted = if s.sync then s.emitted ++ (chain_id, info) ∷ [] else s.emitted;
  }

  unfoldable pub set_gas_info : Text → GasInfo F → GasInfos F → GasInfos F
  set_gas_info chain_id new s = elim (lookup chain_id s.gas_infos_by_chain) [
    | none ↦ store chain_id new s
    | some previous ↦ store chain_id (merge_gas_info new previous) s
  ]

  -- `if (!gasInfo) throw …; if (field === null) throw …`. A forced fetch comes before this part.
  unfoldable pub latest_field :
      {A : Type 0} → (GasInfo F → Option A) → Text → Text → GasInfos F → Latest A
  latest_field field message chain_id s = elim (lookup chain_id s.gas_infos_by_chain) [
    | none ↦ bad_request message
    | some info ↦ elim (field info) [ none ↦ bad_request message | some a ↦ latest a ]
  ]

  unfoldable pub get_latest_gas_price : Text → GasInfos F → Latest ℕ
  unfolding latest_field
  get_latest_gas_price = latest_field (λ info. info.gas_price) (codes "Failed to fetch gas price")

  unfoldable pub get_latest_fee_history : Text → GasInfos F → Latest F
  unfolding latest_field
  get_latest_fee_history =
      latest_field (λ info. info.fee_history) (codes "Failed to fetch fee history")

  unfoldable pub get_latest_max_priority_fee : Text → GasInfos F → Latest ℕ
  unfolding latest_field
  get_latest_max_priority_fee =
      latest_field (λ info. info.max_priority_fee) (codes "Failed to fetch max priority fee")

-- The parameters of `getFeeHistroy`.
pub record FeeHistoryRequest : Type 0 where
  pub block_count : ℕ
  pub block_tag : Text
  pub reward_percentiles : List ℕ

unfoldable pub reward_percentile : GasPriceMode → ℕ
reward_percentile standard = 50
reward_percentile fast = 75
reward_percentile rapid = 95

unfoldable pub block_count : GasPriceMode → ℕ
block_count standard = 10
block_count fast = 5
block_count rapid = 2

unfoldable pub fee_history_request : GasPriceMode → Option Text → FeeHistoryRequest
unfolding reward_percentile block_count
fee_history_request mode override = record {
  block_count = block_count mode;
  block_tag = elim override [ none ↦ codes "pending" | some tag ↦ tag ];
  reward_percentiles = reward_percentile mode ∷ [];
}
