-- ===== src/GasEstimator/Layer1.antt =====
-- `getL1Gas` of orchestrator-node/src/modules/gas-estimator/gas-estimator-v2.service.ts: its
-- arithmetic on the answers of the chains. A failure is `none`, such as a division by 0, which
-- throws on `bigint`.
use composable_batch_erc.Common.{ℕ, ◌*◌, ◌/◌, Option, none, some, if◌then◌else◌, ◌==◌}

pub record L1Gas : Type 0 where
  pub l1_gas_used_in_terms_of_l2 : ℕ
  pub l1_fee : ℕ

-- The chain's type, with what the provider answers.
pub data L1Source : Type 0 where
  optimism : Option ℕ → L1Source
  arbitrum : (gas_estimate_for_l1 base_fee l1_base_fee_estimate : ℕ) → L1Source
  no_answer other_chain : L1Source

abbrev pub optimism_l1_gas : ℕ → Option ℕ → Option L1Gas
optimism_l1_gas l2_base_fee none = none
optimism_l1_gas l2_base_fee (some l1_fee) =
    if l1_fee == 0
    then none
    else if l2_base_fee == 0
    then none
    else some (record { l1_gas_used_in_terms_of_l2 = l1_fee / l2_base_fee; l1_fee = l1_fee })

unfoldable pub parent_chain_size : (cost price : ℕ) → ℕ
parent_chain_size cost price = if price == 0 then 0 else (cost / price)

unfoldable pub l1_cost : (gas_estimate base_fee l1_base_fee : ℕ) → ℕ
unfolding parent_chain_size
l1_cost gas_estimate base_fee l1_base_fee =
    let price = l1_base_fee * 16 in price * parent_chain_size (gas_estimate * base_fee) price

unfoldable pub get_l1_gas : ℕ → L1Source → Option L1Gas
unfolding l1_cost
get_l1_gas l2_base_fee (optimism answer) = optimism_l1_gas l2_base_fee answer
get_l1_gas l2_base_fee (arbitrum gas_estimate base_fee l1_base_fee) =
    let cost = l1_cost gas_estimate base_fee l1_base_fee in
    if base_fee == 0
    then none
    else some (record { l1_gas_used_in_terms_of_l2 = cost / base_fee; l1_fee = cost })
get_l1_gas l2_base_fee no_answer = none
get_l1_gas l2_base_fee other_chain = some (record { l1_gas_used_in_terms_of_l2 = 0; l1_fee = 0 })
