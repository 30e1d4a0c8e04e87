-- ===== src/GasEstimator/Conditions/Bounds.antt =====
-- How far the fees can be from the base fee and from the median of the rewards.
use composable_batch_erc.Common.{
  ℕ, ◌+◌, ◌*◌, ◌≤◌, true, ◌&&◌, List, some, ◌≡◌, refl, arith, ltb, if_lem,
}
use composable_batch_erc.GasManager.LegacyPrice.{GasPriceMode, standard, fast, rapid}
use composable_batch_erc.GasManager.LegacyPrice.Bounds.{estimate_price_bounds}
use composable_batch_erc.GasEstimator.Conditions.{
  FeeHistory, GasSettings, GasAnswers, GasConditions, median_priority_fee, priority_fees,
  chosen_priority_fee, is_used_above, with_congestion, max_priority_fee_of, multiplier, or_zero,
  conditions_from, latest_base_fee, eip1559_conditions, conditions_at,
}

-- At least the median and at most 5.01 times the median.
abbrev IsNear : ℕ → ℕ → Type 0
IsNear median_fee fee = (median_fee ≤ fee) × (100 * fee ≤ 501 * median_fee)

chosen-IsNear :
    (rpc_fee median_fee : ℕ) → IsNear median_fee (chosen_priority_fee rpc_fee median_fee)
unfolding chosen_priority_fee
chosen-IsNear rpc_fee median_fee =
    if_lem (IsNear median_fee) (ltb 0 rpc_fee && ltb 0 median_fee) _ median_fee
      (λ h.
        let (low, _, high) = estimate_price_bounds rpc_fee median_fee (ground arith) in
        (low, omega (arith, high)))
      (λ _. (omega arith, omega arith))

with_congestion-bounds :
    (ratios : List ℕ) (fee : ℕ)
    → (fee ≤ with_congestion ratios fee) × (10 * with_congestion ratios fee ≤ 15 * fee)
unfolding with_congestion
with_congestion-bounds ratios fee =
    let P : ℕ → Type 0 = λ raised. (fee ≤ raised) × (10 * raised ≤ 15 * fee) in
    if_lem P (is_used_above 9 ratios) _ _ (λ _. (omega arith, omega arith))
      λ _.
        if_lem P (is_used_above 7 ratios) _ _ (λ _. (omega arith, omega arith))
          (λ _. (omega arith, omega arith))

max_priority_fee-bounds :
    (mode : GasPriceMode) (rpc_fee : ℕ) (history : FeeHistory)
    → let median_fee = median_priority_fee mode (priority_fees history.reward) in
      let fee = max_priority_fee_of mode rpc_fee history in
      (median_fee ≤ fee) × (1000 * fee ≤ 7515 * median_fee)
unfolding max_priority_fee_of
max_priority_fee-bounds standard rpc_fee history = (omega arith, omega arith)
max_priority_fee-bounds fast rpc_fee history =
    let median_fee = median_priority_fee fast (priority_fees history.reward) in
    let (low, high) = chosen-IsNear rpc_fee median_fee in
    let (low', high') =
      with_congestion-bounds history.gas_used_ratio (chosen_priority_fee rpc_fee median_fee) in
    (omega (arith, low, low'), omega (arith, high, high'))
max_priority_fee-bounds rapid rpc_fee history =
    let median_fee = median_priority_fee rapid (priority_fees history.reward) in
    let (low, high) = chosen-IsNear rpc_fee median_fee in
    let (low', high') =
      with_congestion-bounds history.gas_used_ratio (chosen_priority_fee rpc_fee median_fee) in
    (omega (arith, low, low'), omega (arith, high, high'))

-- Where the fee history of an EIP-1559 chain has a base fee, and the gas price of the first
-- layer is known, the conditions are computed: the base fee is the last of the history, the
-- maximal fee is that base fee taken once, twice or three times by the mode and the priority
-- fee, and the priority fee is at least the median of the positive rewards (its default where
-- there is none) and at most 7.515 times that median.
pub conditions_at-bounds :
    (settings : GasSettings) (answers : GasAnswers) (history : FeeHistory)
    (base_fee l1_gas_price : ℕ)
    → settings.is_eip1559 ≡ true
    → answers.fee_history ≡ some history
    → latest_base_fee history ≡ some base_fee
    → let median_fee = median_priority_fee settings.gas_price_mode (priority_fees history.reward) in
      (c : GasConditions) × (conditions_at settings answers l1_gas_price ≡ some c)
      × (c.base_fee ≡ base_fee)
      × (c.max_fee_per_gas
          ≡ base_fee * multiplier settings.gas_price_mode + c.max_priority_fee_per_gas)
      × (median_fee ≤ c.max_priority_fee_per_gas)
      × (1000 * c.max_priority_fee_per_gas ≤ 7515 * median_fee)
unfolding conditions_at eip1559_conditions conditions_from
conditions_at-bounds settings answers history base_fee l1_gas_price on h e =
    let rpc_fee = or_zero answers.max_priority_fee in
    let (low, high) = max_priority_fee-bounds settings.gas_price_mode rpc_fee history in
    let fee = max_priority_fee_of settings.gas_price_mode rpc_fee history in
    (
      record {
        max_fee_per_gas = base_fee * multiplier settings.gas_price_mode + fee;
        max_priority_fee_per_gas = fee;
        l1_gas_price = l1_gas_price;
        base_fee = base_fee;
      },
      ground (arith, on, h, e),
      refl,
      refl,
      low,
      high,
    )
