-- ===== src/GasEstimator/Sessions.antt =====
-- `getSmartSessionUseModeVerificationGasLimit` of
-- orchestrator-node/src/modules/gas-estimator/gas-estimator-v2.service.ts, with its constants. The
-- decoded calls of the user operation are given, or `none` where their decoding throws.
pub mod Access
use composable_batch_erc.Common.{
  ℕ, ◌+◌, ◌*◌, Bool, true, false, not, ◌&&◌, ◌||◌, List, [], ◌∷◌, ◌++◌, Option, none, some,
  if◌then◌else◌, length, suc, zero,
}
use composable_batch_erc.Common.Text.{Text, codes, text_eq, to_lower_case}
use composable_batch_erc.Common.Assoc.{lookup}
use composable_batch_erc.Simulator.{or_default}

pub record SessionAction : Type 0 where
  pub action_target : Text
  pub action_target_selector : Text
  pub action_policies : List Text

pub record DecodedCalldata : Type 0 where
  pub target : Text
  pub calldata : Text

abbrev pub cold_policy_gas : List (Text × ℕ)
cold_policy_gas =
    (codes "0x0000003111cd8e92337c100f22b7a9dbf8dee301", 1600)
    ∷ (codes "0x1f34ef8311345a3a4a4566af321b313052f51493", 10000)
    ∷ (codes "0x00000088d48cf102a8cdb0137a9b173f957c6343", 12250)
    ∷ (codes "0x0000006dda6c463511c4e9b05cfc34c1247fcf1f", 20000)
    ∷ (codes "0x8177451511de0577b911c254e9551d981c26dc72", 6800)
    ∷ (codes "0x0000000000feec8d74e3143fbabbca515358d869", 1600)
    ∷ (codes "0x00000000001d4479fa2a947026204d0283cede4b", 9800)
    ∷ (codes "0x000000000033212e272655d8a22402db819477a6", 15200)
    ∷ (codes "0x0000000000714cf48fcf88a0bfba70d313415032", 20000)
    ∷ (codes "0x0000000000d30f611fa3bf652ac6879428586930", 6800)
    ∷ []

abbrev pub warm_policy_gas : List (Text × ℕ)
warm_policy_gas =
    (codes "0x0000003111cd8e92337c100f22b7a9dbf8dee301", 1600)
    ∷ (codes "0x1f34ef8311345a3a4a4566af321b313052f51493", 2600)
    ∷ (codes "0x00000088d48cf102a8cdb0137a9b173f957c6343", 5800)
    ∷ (codes "0x0000006dda6c463511c4e9b05cfc34c1247fcf1f", 10000)
    ∷ (codes "0x8177451511de0577b911c254e9551d981c26dc72", 2300)
    ∷ (codes "0x0000000000feec8d74e3143fbabbca515358d869", 1600)
    ∷ (codes "0x00000000001d4479fa2a947026204d0283cede4b", 2600)
    ∷ (codes "0x000000000033212e272655d8a22402db819477a6", 6700)
    ∷ (codes "0x0000000000714cf48fcf88a0bfba70d313415032", 10000)
    ∷ (codes "0x0000000000d30f611fa3bf652ac6879428586930", 2300)
    ∷ []

-- A policy that is not in the table costs 20,000 or 10,000.
unfoldable pub policy_gas : Bool → Text → ℕ
unfolding lookup to_lower_case
policy_gas true policy = or_default (lookup (to_lower_case policy) cold_policy_gas) 20000
policy_gas false policy = or_default (lookup (to_lower_case policy) warm_policy_gas) 10000

unfoldable pub policies_gas : Bool → List Text → ℕ
unfolding policy_gas
policies_gas is_cold [] = 0
policies_gas is_cold (policy ∷ policies) = policy_gas is_cold policy + policies_gas is_cold policies

-- What one call of an action adds.
unfoldable pub action_gas : Bool → SessionAction → ℕ
unfolding policies_gas
action_gas is_cold action =
    2000
    + (if is_cold then 3500 else 1000)
    + (if is_cold then 3500 else 1000) * length action.action_policies
    + policies_gas is_cold action.action_policies

unfoldable pub find_action : (target selector : Text) → List SessionAction → Option SessionAction
unfolding to_lower_case text_eq
find_action target selector [] = none
find_action target selector (action ∷ actions) =
    if text_eq (to_lower_case action.action_target) target
      && text_eq (to_lower_case action.action_target_selector) selector
    then some action
    else find_action target selector actions

-- `hasActionAlreadySeen.has`.
unfoldable pub is_seen : Text → List Text → Bool
unfolding text_eq
is_seen key [] = false
is_seen key (k ∷ keys) = text_eq k key || is_seen key keys

-- `slice(0, count)`.
abbrev pub take : {A : Type 0} → ℕ → List A → List A
take zero xs = []
take (suc n) [] = []
take (suc n) (x ∷ xs) = x ∷ take n xs

abbrev pub selector_of : DecodedCalldata → Text
selector_of call = to_lower_case (take 10 call.calldata)

abbrev pub action_key : DecodedCalldata → Text
action_key call = to_lower_case call.target ++ codes "::" ++ selector_of call

-- A call without an action adds nothing, and its key is not stored.
abbrev pub found_gas : Bool → Option SessionAction → ℕ
found_gas is_cold none = 0
found_gas is_cold (some action) = action_gas is_cold action

abbrev pub seen_after : Text → Option SessionAction → List Text → List Text
seen_after key none seen = seen
seen_after key (some action) seen = key ∷ seen

-- The loop over the calls.
unfoldable pub calls_gas : List SessionAction → List DecodedCalldata → List Text → ℕ
unfolding find_action action_gas is_seen to_lower_case
calls_gas actions [] seen = 0
calls_gas actions (call ∷ calls) seen =
    let found = find_action (to_lower_case call.target) (selector_of call) actions in
    let rest = calls_gas actions calls (seen_after (action_key call) found seen) in
    found_gas (not (is_seen (action_key call) seen)) found + rest

abbrev pub decoding_gas : List DecodedCalldata → ℕ
decoding_gas (call ∷ []) = 3000
decoding_gas calls = 6000

unfoldable pub get_smart_session_use_mode_verification_gas_limit :
    Option (List DecodedCalldata) → List SessionAction → Option ℕ
unfolding calls_gas
get_smart_session_use_mode_verification_gas_limit none actions = none
get_smart_session_use_mode_verification_gas_limit (some []) actions = none
get_smart_session_use_mode_verification_gas_limit (some (call ∷ calls)) actions =
    some (120000 + decoding_gas (call ∷ calls) + calls_gas actions (call ∷ calls) [])
