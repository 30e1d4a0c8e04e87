-- ===== src/GasEstimator/Sessions/Access.antt =====
-- A later call of an action never costs more than the first one, and what that bounds.
use composable_batch_erc.Common.{
  ℕ, zero, suc, ◌+◌, ◌≤◌, Bool, true, false, not, ◌&&◌, ltb, leb, List, [], ◌∷◌, Option, none, some,
  ◌≡◌, refl, arith,
}
use composable_batch_erc.Common.Text.{Text, text_eq, eq_of_text_eq, to_lower_case}
use composable_batch_erc.Common.Assoc.{lookup}
use composable_batch_erc.Simulator.{or_default}
use composable_batch_erc.GasEstimator.Sessions.{
  SessionAction, DecodedCalldata, cold_policy_gas, warm_policy_gas, policy_gas, policies_gas,
  action_gas, find_action, is_seen, selector_of, action_key, found_gas, seen_after, calls_gas,
  decoding_gas, get_smart_session_use_mode_verification_gas_limit,
}

-- The first table has the keys of the second, with values that are above 0 and not above its.
abbrev is_cheaper : List (Text × ℕ) → List (Text × ℕ) → Bool
is_cheaper [] [] = true
is_cheaper ((j, a) ∷ warm) ((k, b) ∷ cold) =
    text_eq j k && ltb 0 a && leb a b && is_cheaper warm cold
is_cheaper _ _ = false

lookup-cheaper :
    (policy : Text) (warm cold : List (Text × ℕ))
    → is_cheaper warm cold ≡ true
    → or_default (lookup policy warm) 10000 ≤ or_default (lookup policy cold) 20000
unfolding lookup
lookup-cheaper policy [] [] h = omega arith
lookup-cheaper policy [] ((k, b) ∷ cold) h = ground arith
lookup-cheaper policy ((j, a) ∷ warm) [] h = ground arith
lookup-cheaper policy ((j, zero) ∷ warm) ((k, b) ∷ cold) h = ground arith
lookup-cheaper policy ((j, suc a) ∷ warm) ((k, zero) ∷ cold) h = ground arith
lookup-cheaper policy ((j, suc a) ∷ warm) ((k, suc b) ∷ cold) h =
    ground (arith, eq_of_text_eq j k, lookup-cheaper policy warm cold)

tables-cheaper : is_cheaper warm_policy_gas cold_policy_gas ≡ true
unfolding text_eq
tables-cheaper = refl

policy_gas-warm : (policy : Text) → policy_gas false policy ≤ policy_gas true policy
unfolding policy_gas
policy_gas-warm policy =
    lookup-cheaper (to_lower_case policy) warm_policy_gas cold_policy_gas tables-cheaper

policies_gas-warm :
    (policies : List Text) → policies_gas false policies ≤ policies_gas true policies
unfolding policies_gas
policies_gas-warm [] = omega arith
policies_gas-warm (policy ∷ policies) =
    omega (arith, policy_gas-warm policy, policies_gas-warm policies)

action_gas-warm :
    (is_cold : Bool) (action : SessionAction) → action_gas is_cold action ≤ action_gas true action
unfolding action_gas
action_gas-warm true action = omega arith
action_gas-warm false action = omega (arith, policies_gas-warm action.action_policies)

found_gas-warm :
    (is_cold : Bool) (found : Option SessionAction) → found_gas is_cold found ≤ found_gas true found
found_gas-warm is_cold none = omega arith
found_gas-warm is_cold (some action) = action_gas-warm is_cold action

-- The gas of the calls if each of them were the first of its action.
abbrev all_cold : List SessionAction → List DecodedCalldata → ℕ
all_cold actions [] = 0
all_cold actions (call ∷ calls) =
    found_gas true (find_action (to_lower_case call.target) (selector_of call) actions)
    + all_cold actions calls

calls_gas-all_cold :
    (actions : List SessionAction) (calls : List DecodedCalldata) (seen : List Text)
    → calls_gas actions calls seen ≤ all_cold actions calls
unfolding calls_gas
calls_gas-all_cold actions [] seen = omega arith
calls_gas-all_cold actions (call ∷ calls) seen =
    let found = find_action (to_lower_case call.target) (selector_of call) actions in
    omega (
      arith,
      found_gas-warm (not (is_seen (action_key call) seen)) found,
      calls_gas-all_cold actions calls (seen_after (action_key call) found seen),
    )

-- The limit for calls that can be decoded lies between the fixed gas and the fixed gas with every
-- call of an action counted as its first.
pub get_smart_session_use_mode_verification_gas_limit-bounds :
    (call : DecodedCalldata) (calls : List DecodedCalldata) (actions : List SessionAction)
    → let fixed = 120000 + decoding_gas (call ∷ calls) in
      (limit : ℕ) × (get_smart_session_use_mode_verification_gas_limit (some (call ∷ calls)) actions
        ≡ some limit)
      × (fixed ≤ limit)
      × (limit ≤ fixed + all_cold actions (call ∷ calls))
unfolding get_smart_session_use_mode_verification_gas_limit
get_smart_session_use_mode_verification_gas_limit-bounds call calls actions = (
  120000 + decoding_gas (call ∷ calls) + calls_gas actions (call ∷ calls) [],
  refl,
  omega arith,
  omega (arith, calls_gas-all_cold actions (call ∷ calls) []),
)
