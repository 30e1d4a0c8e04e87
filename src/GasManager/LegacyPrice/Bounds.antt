-- ===== src/GasManager/LegacyPrice/Bounds.antt =====
-- How far the estimated price can be from the current price and from the median.
use composable_batch_erc.Common.{
  ℕ, ◌+◌, ◌*◌, ◌/◌, ◌≤◌, ◌<◌, ◌≡◌, arith, List, [], ◌∷◌, ◌++◌, Option, some, none, length,
  length-append, ◌⊎◌,
}
use composable_batch_erc.GasManager.LegacyPrice.{
  GasPriceMode, standard, fast, rapid, max_history_size, shift, push_history, with_buffer, median,
  estimate_price, price_from_history, get_gas_price,
}

div-bounds : (a m : ℕ) → 0 < m → (a / m * m ≤ a) × (a < (a / m + 1) * m)
div-bounds a m h = (omega arith, omega arith)

mul_mono : (a b k : ℕ) → a ≤ b → a * k ≤ b * k
mul_mono a b k h = grind arith

quotient_above : (a m k : ℕ) → 0 < m → k ≤ a / m → k * m ≤ a
quotient_above a m k h e = omega (arith, (div-bounds a m h).0, mul_mono k (a / m) m e)

quotient_below : (a m k : ℕ) → 0 < m → a / m < k → a < k * m
quotient_below a m k h e =
    omega (arith, (div-bounds a m h).1, mul_mono (a / m + 1) k m (omega arith))

quotient_lt : (a m k : ℕ) → 0 < m → a < k * m → a / m < k
quotient_lt a m k h e = grind (arith, div-bounds a m h, mul_mono k (a / m) m)

-- For a median above 0, the estimate is at least the median, at most the larger of the median and
-- the current price, and less than 5.01 times the median.
pub estimate_price_bounds :
    (current median_price : ℕ)
    → 0 < median_price
    → (median_price ≤ estimate_price current median_price)
      × ((estimate_price current median_price ≤ current)
          ⊎ (estimate_price current median_price ≡ median_price))
      × (100 * estimate_price current median_price < 501 * median_price)
unfolding estimate_price
estimate_price_bounds c m h =
    let above = quotient_above (c * 100) m 201 h in
    let below = quotient_below (c * 100) m 500 h in
    let most = quotient_below (c * 100) m 501 h in (ground arith, ground arith, ground arith)

length-shift : (xs : List ℕ) → 0 < length xs → length (shift xs) + 1 ≡ length xs
length-shift [] h = elim h [ ]
length-shift (x ∷ xs) h = omega arith

-- At most 20 prices are kept, whatever the answers were.
pub get_gas_price-history :
    (mode : GasPriceMode) (answer : Option ℕ) (history : List ℕ)
    → length history ≤ max_history_size
    → length (get_gas_price mode answer history).1 ≤ max_history_size
unfolding get_gas_price push_history
get_gas_price-history mode none history h = h
get_gas_price-history mode (some price) history h =
    ground (arith, length-append history (price ∷ []), length-shift (history ++ price ∷ []))

with_buffer-le : (mode : GasPriceMode) (price : ℕ) → price ≤ with_buffer mode price
unfolding with_buffer
with_buffer-le standard price = omega arith
with_buffer-le fast price = omega arith
with_buffer-le rapid price = omega arith

-- A price that is given is at least the current one while there are fewer than three samples, and
-- from then on at least the median of the history.
pub get_gas_price-lower :
    (mode : GasPriceMode) (current price : ℕ) (history : List ℕ)
    → (get_gas_price mode (some current) history).0 ≡ some price
    → let history' = push_history current history in
      ((length history' < 3) × (current ≤ price))
      ⊎ ((3 ≤ length history') × (median history' ≤ price))
unfolding get_gas_price price_from_history
get_gas_price-lower mode c p history h =
    let k = push_history c history in
    ground (
      arith,
      with_buffer-le mode c,
      with_buffer-le mode (estimate_price c (median k)),
      estimate_price_bounds c (median k),
    )

median_of_other :
    (other current : ℕ) → current < other → median (other ∷ other ∷ other ∷ current ∷ []) ≡ other
unfolding median
median_of_other a c h = ground arith

estimate_price_stale :
    (current median_price : ℕ)
    → 2 * current < median_price
    → estimate_price current median_price ≡ median_price
unfolding estimate_price
estimate_price_stale c m h =
    let low : c * 100 / m < 50 = quotient_lt (c * 100) m 50 (omega arith) (omega arith) in
    ground arith

-- The history belongs to no chain: after three prices `other` fetched for one chain, a chain whose
-- own price is below half of that is given the price of the other chain.
pub get_gas_price-other_chain :
    (mode : GasPriceMode) (other current : ℕ)
    → 2 * current < other
    → (get_gas_price mode (some current) (other ∷ other ∷ other ∷ [])).0
      ≡ some (with_buffer mode other)
unfolding get_gas_price price_from_history push_history
get_gas_price-other_chain mode a c h = ground (arith, median_of_other a c, estimate_price_stale c a)
