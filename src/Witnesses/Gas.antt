-- ===== src/Witnesses/Gas.antt =====
-- The gas manager at concrete prices.
use composable_batch_erc.Common.{ℕ, ◌≡◌, refl, true, [], ◌∷◌, none, some}
use composable_batch_erc.Common.Text.{codes, text_eq}
use composable_batch_erc.Common.Assoc.{lookup}
use composable_batch_erc.GasManager.GasInfos.{GasInfo, GasInfos, latest, get_latest_gas_price}

-- A fetched price, and a failed fetch.
abbrev priced : GasInfo ℕ
priced = record { gas_price = some 90; fee_history = none; max_priority_fee = none }

abbrev failed : GasInfo ℕ
failed = record { gas_price = none; fee_history = none; max_priority_fee = none }

abbrev known : GasInfos ℕ
known = record { gas_infos_by_chain = (codes "8453", priced) ∷ []; sync = true; emitted = [] }

knows : get_latest_gas_price (codes "8453") known ≡ latest 90
unfolding get_latest_gas_price lookup text_eq
knows = refl
