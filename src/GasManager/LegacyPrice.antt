-- ===== src/GasManager/LegacyPrice.antt =====
-- `getGasPrice` of orchestrator-node/src/modules/gas-manager/gas-manager.service.ts: the legacy gas
-- price, taken against a history of prices that all chains share. A `bigint` division by zero
-- throws, and the function then returns `null`: `none`.
pub mod Bounds
use composable_batch_erc.Common.{
  ℕ, ◌+◌, ◌-◌, ◌*◌, ◌/◌, ◌%◌, Bool, true, false, ◌&&◌, List, [], ◌∷◌, ◌++◌, Option, none, some,
  if◌then◌else◌, ltb, ◌==◌, length, get_or,
}
use composable_batch_erc.Common.Sorting.{sort_by}

pub data GasPriceMode : Type 0 where
  standard fast rapid : GasPriceMode

abbrev pub max_history_size : ℕ
max_history_size = 20

abbrev pub shift : List ℕ → List ℕ
shift [] = []
shift (x ∷ xs) = xs

unfoldable pub push_history : ℕ → List ℕ → List ℕ
push_history price history =
    let pushed = history ++ price ∷ [] in
    if ltb max_history_size (length pushed) then shift pushed else pushed

unfoldable pub buffer : GasPriceMode → ℕ
buffer standard = 10
buffer fast = 50
buffer rapid = 70

unfoldable pub with_buffer : GasPriceMode → ℕ → ℕ
unfolding buffer
with_buffer mode price = price * (100 + buffer mode) / 100

-- `[...history].sort(…)` and the middle of it.
unfoldable pub median : List ℕ → ℕ
unfolding sort_by
median history =
    let sorted = sort_by (λ (price : ℕ). price) history in
    let mid = length sorted / 2 in
    if length sorted % 2 == 0
    then (get_or sorted (mid - 1) 0 + get_or sorted mid 0) / 2
    else get_or sorted mid 0

-- The choice between the current price and the median.
unfoldable pub estimate_price : ℕ → ℕ → ℕ
estimate_price current median_price =
    let ratio = current * 100 / median_price in
    if ltb 200 ratio && ltb ratio 500
    then (median_price * 2 + current) / 3
    else if ltb 500 ratio
    then median_price
    else if ltb ratio 50
    then median_price
    else if ltb median_price current
    then current
    else median_price

unfoldable pub price_from_history : GasPriceMode → ℕ → List ℕ → Option ℕ
unfolding with_buffer median estimate_price
price_from_history mode current history =
    if ltb (length history) 3
    then some (with_buffer mode current)
    else if median history == 0
    then none
    else some (with_buffer mode (estimate_price current (median history)))

-- The answer of the RPC provider is an argument; a failed request leaves the history alone.
unfoldable pub get_gas_price : GasPriceMode → Option ℕ → List ℕ → Option ℕ × List ℕ
unfolding price_from_history push_history
get_gas_price mode none history = (none, history)
get_gas_price mode (some current) history =
    let history' = push_history current history in
    (price_from_history mode current history', history')
