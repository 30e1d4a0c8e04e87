-- ===== src/Quotes/Balances.antt =====
-- The token balances that `requestQuote` of orchestrator-node/src/modules/quotes/quotes.service.ts
-- asks for and checks. `isAddressEqual` is a parameter; an answer of a chain is `none` where the
-- request throws, and is read only if it was asked for.
pub mod Laws
use composable_batch_erc.Common.{
  ℕ, Bool, true, false, not, ◌&&◌, List, [], ◌∷◌, ◌++◌, Option, none, some, if◌then◌else◌, ltb,
  get_or, Reply, ok, thrown,
}
use composable_batch_erc.Common.Text.{Text}

pub record TriggerInfo : Type 0 where
  pub token_address : Text
  pub chain_id : Text
  pub amount : ℕ

-- The balances of the payment token on its chain, and of the trigger's token on its chain.
pub record BalanceAnswers : Type 0 where
  pub of_payment_token : Option ℕ
  pub of_trigger_token : Option ℕ

pub data RequestFailure : Type 0 where
  mixed_chains token_not_supported sponsored_token_not_supported calldata_failed : RequestFailure
  mixed_versions no_account : RequestFailure
  no_trigger insufficient_funding balance_failed no_quote_type : RequestFailure
  simulation_failed : ℕ → RequestFailure
  estimate_failed insufficient_balance pricing_failed : RequestFailure

-- A promise that was made is some answer.
abbrev pub payment_promise : (is_trusted_sponsorship : Bool) → BalanceAnswers → List (Option ℕ)
payment_promise trusted answers = if trusted then [] else answers.of_payment_token ∷ []

abbrev pub trigger_promise :
    (is_trusted_sponsorship is_same_token : Bool) → BalanceAnswers → List (Option ℕ)
trigger_promise trusted same answers =
    if same && not trusted then [] else answers.of_trigger_token ∷ []

-- `Promise.all`.
abbrev pub push_balance : Option ℕ → Option (List ℕ) → Option (List ℕ)
push_balance none rest = none
push_balance (some n) none = none
push_balance (some n) (some rest) = some (n ∷ rest)

unfoldable pub all_balances : List (Option ℕ) → Option (List ℕ)
all_balances [] = some []
all_balances (promise ∷ promises) = push_balance promise (all_balances promises)

abbrev pub trigger_token_balance : (is_trusted_sponsorship is_same_token : Bool) → List ℕ → ℕ
trigger_token_balance trusted same balances =
    if trusted
    then get_or balances 0 0
    else if same
    then get_or balances 0 0
    else get_or balances 1 0

-- The payment token's balance, 0 for a trusted sponsorship.
abbrev pub judge_payment : Bool → Option (List ℕ) → Reply RequestFailure ℕ
judge_payment trusted none = thrown balance_failed
judge_payment trusted (some balances) = ok (if trusted then 0 else get_or balances 0 0)

abbrev pub judge_balances :
    (is_trusted_sponsorship is_same_token : Bool)
    → TriggerInfo
    → Option (List ℕ)
    → Reply RequestFailure ℕ
judge_balances trusted same trigger none = thrown balance_failed
judge_balances trusted same trigger (some balances) =
    if ltb (trigger_token_balance trusted same balances) trigger.amount
    then thrown insufficient_funding
    else ok (if trusted then 0 else get_or balances 0 0)

-- In fusion mode, `permit`, there has to be a trigger, and its funds have to suffice.
unfoldable pub check_balances :
    (is_address_equal : Text → Text → Bool)
    → (permit is_trusted_sponsorship : Bool) → (payment_token : Text) → Option TriggerInfo
    → BalanceAnswers
    → Reply RequestFailure ℕ
unfolding all_balances
check_balances is_address_equal false trusted token trigger answers =
    judge_payment trusted (all_balances (payment_promise trusted answers))
check_balances is_address_equal true trusted token none answers = thrown no_trigger
check_balances is_address_equal true trusted token (some trigger) answers =
    let same = is_address_equal token trigger.token_address in
    judge_balances trusted same trigger
      (all_balances (payment_promise trusted answers ++ trigger_promise trusted same answers))
