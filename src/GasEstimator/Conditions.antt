-- ===== src/GasEstimator/Conditions.antt =====
-- `getCurrentGasConditions` of
-- orchestrator-node/src/modules/gas-estimator/gas-estimator-v2.service.ts. The answers of the gas
-- manager are arguments; a failure, which the function turns into a `BadRequestException`, is
-- `none`. A ratio of used gas is a number of parts of `whole`; how floating-point numbers are
-- rounded is left out.
pub mod Bounds
use composable_batch_erc.Common.{
  ℕ, zero, suc, ◌+◌, ◌-◌, ◌*◌, ◌/◌, Bool, true, false, not, ◌&&◌, List, [], ◌∷◌, Option, none, some,
  if◌then◌else◌, ltb, length, get_elem?, sum,
}
use composable_batch_erc.GasManager.LegacyPrice.{
  GasPriceMode, standard, fast, rapid, median, estimate_price,
}

pub record FeeHistory : Type 0 where
  pub base_fee_per_gas : List ℕ
  pub reward : Option (List (List ℕ))
  pub gas_used_ratio : List ℕ

pub record GasSettings : Type 0 where
  pub is_eip1559 : Bool
  pub min_max_fee_per_gas : Option ℕ
  pub gas_price_mode : GasPriceMode
  pub has_l1_chain : Bool

-- What the gas manager has for a chain; `none` is a call that fails.
pub record GasAnswers : Type 0 where
  pub gas_price : Option ℕ
  pub fee_history : Option FeeHistory
  pub max_priority_fee : Option ℕ

pub record GasConditions : Type 0 where
  pub max_fee_per_gas : ℕ
  pub max_priority_fee_per_gas : ℕ
  pub l1_gas_price : ℕ
  pub base_fee : ℕ

abbrev pub whole : ℕ
whole = 1000000000

abbrev pub or_zero : Option ℕ → ℕ
or_zero none = 0
or_zero (some n) = n

abbrev pub is_standard : GasPriceMode → Bool
is_standard standard = true
is_standard fast = false
is_standard rapid = false

-- The floor of a chain with one gas price.
unfoldable pub effective_gas_price : Option ℕ → ℕ → ℕ
effective_gas_price min_fee price =
    let min_gas = or_zero min_fee in if ltb 0 min_gas && ltb price min_gas then min_gas else price

unfoldable pub legacy_conditions : GasSettings → ℕ → GasConditions
unfolding effective_gas_price
legacy_conditions settings price =
    let effective = effective_gas_price settings.min_max_fee_per_gas price in
    record {
      max_fee_per_gas = effective;
      max_priority_fee_per_gas = effective;
      l1_gas_price = 0;
      base_fee = effective;
    }

abbrev pub add_reward : List ℕ → List ℕ → List ℕ
add_reward [] fees = fees
add_reward (fee ∷ others) fees = if ltb 0 fee then fee ∷ fees else fees

-- The first reward of each block, where it is above 0.
unfoldable pub positive_rewards : List (List ℕ) → List ℕ
positive_rewards [] = []
positive_rewards (reward ∷ rewards) = add_reward reward (positive_rewards rewards)

unfoldable pub priority_fees : Option (List (List ℕ)) → List ℕ
unfolding positive_rewards
priority_fees none = []
priority_fees (some rewards) = positive_rewards rewards

unfoldable pub median_priority_fee : GasPriceMode → List ℕ → ℕ
unfolding median
median_priority_fee mode [] = if is_standard mode then 0 else 1000000000
median_priority_fee mode (fee ∷ fees) = median (fee ∷ fees)

-- The choice between the provider's fee and the median is that of the legacy gas price.
unfoldable pub chosen_priority_fee : (rpc_fee median_fee : ℕ) → ℕ
unfolding estimate_price
chosen_priority_fee rpc_fee median_fee =
    if ltb 0 rpc_fee && ltb 0 median_fee then estimate_price rpc_fee median_fee else median_fee

abbrev pub drop : {A : Type 0} → ℕ → List A → List A
drop zero xs = xs
drop (suc n) [] = []
drop (suc n) (x ∷ xs) = drop n xs

-- The average of the last three ratios is above `tenths` tenths.
unfoldable pub is_used_above : ℕ → List ℕ → Bool
is_used_above tenths ratios =
    let recent = drop (length ratios - 3) ratios in
    ltb (tenths * whole * length recent) (sum recent * 10)

unfoldable pub with_congestion : List ℕ → ℕ → ℕ
unfolding is_used_above
with_congestion ratios fee =
    if is_used_above 9 ratios
    then fee * 15 / 10
    else if is_used_above 7 ratios
    then fee * 12 / 10
    else fee

unfoldable pub max_priority_fee_of : GasPriceMode → ℕ → FeeHistory → ℕ
unfolding median_priority_fee chosen_priority_fee with_congestion priority_fees
max_priority_fee_of mode rpc_fee history =
    let median_fee = median_priority_fee mode (priority_fees history.reward) in
    if is_standard mode
    then median_fee
    else with_congestion history.gas_used_ratio (chosen_priority_fee rpc_fee median_fee)

abbrev pub multiplier : GasPriceMode → ℕ
multiplier standard = 1
multiplier fast = 2
multiplier rapid = 3

-- Without a base fee the product below is no number, which throws.
unfoldable pub conditions_from : GasSettings → ℕ → FeeHistory → Option ℕ → ℕ → Option GasConditions
unfolding max_priority_fee_of
conditions_from settings rpc_fee history none l1_gas_price = none
conditions_from settings rpc_fee history (some base_fee) l1_gas_price =
    let priority_fee = max_priority_fee_of settings.gas_price_mode rpc_fee history in
    some (record {
      max_fee_per_gas = base_fee * multiplier settings.gas_price_mode + priority_fee;
      max_priority_fee_per_gas = priority_fee;
      l1_gas_price = l1_gas_price;
      base_fee = base_fee;
    })

abbrev pub latest_base_fee : FeeHistory → Option ℕ
latest_base_fee history = get_elem? history.base_fee_per_gas (length history.base_fee_per_gas - 1)

unfoldable pub eip1559_conditions :
    GasSettings → GasAnswers → Option FeeHistory → ℕ → Option GasConditions
unfolding conditions_from
eip1559_conditions settings answers none l1_gas_price = none
eip1559_conditions settings answers (some history) l1_gas_price =
    conditions_from settings (or_zero answers.max_priority_fee) history (latest_base_fee history)
      l1_gas_price

abbrev pub map_price : (ℕ → GasConditions) → Option ℕ → Option GasConditions
map_price f none = none
map_price f (some price) = some (f price)

-- The conditions of a chain, given the gas price of its first layer.
unfoldable pub conditions_at : GasSettings → GasAnswers → ℕ → Option GasConditions
unfolding legacy_conditions eip1559_conditions
conditions_at settings answers l1_gas_price =
    if settings.is_eip1559
    then eip1559_conditions settings answers answers.fee_history l1_gas_price
    else map_price (legacy_conditions settings) answers.gas_price

abbrev pub with_l1 : Option GasConditions → (ℕ → Option GasConditions) → Option GasConditions
with_l1 none next = none
with_l1 (some l1) next = next l1.base_fee

-- The last two arguments are the settings and the answers of the first layer's chain.
unfoldable pub get_current_gas_conditions :
    GasSettings → GasAnswers → Bool → GasSettings → GasAnswers → Option GasConditions
unfolding conditions_at
get_current_gas_conditions settings answers fetch_l1 l1_settings l1_answers =
    let without_l1 = conditions_at settings answers 0 in
    let l1_conditions = conditions_at l1_settings l1_answers 0 in
    if settings.is_eip1559 && settings.has_l1_chain && fetch_l1
    then with_l1 l1_conditions (conditions_at settings answers)
    else without_l1
