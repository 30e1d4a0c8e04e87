-- ===== src/Quotes/Balances/Laws.antt =====
-- Which balances the checks of a quote's request rely on.
use composable_batch_erc.Common.{
  ℕ, ◌≤◌, Bool, true, false, ◌&&◌, [], ◌∷◌, Option, none, some, if◌then◌else◌, ok, ◌≡◌, ◌↔◌, refl,
  arith,
}
use composable_batch_erc.Common.Text.{Text}
use composable_batch_erc.Quotes.Balances.{
  TriggerInfo, BalanceAnswers, all_balances, check_balances, judge_balances, push_balance,
}

judge_balances-permit :
    (same : Bool) (trigger : TriggerInfo) (payment funds : Option ℕ) (balance : ℕ)
    → (judge_balances false same trigger
          (push_balance payment (all_balances (if same && true then [] else funds ∷ [])))
        ≡ ok balance)
      ↔ ((payment ≡ some balance)
          × ((available : ℕ) × ((if same then payment else funds) ≡ some available)
              × (trigger.amount ≤ available)))
unfolding all_balances
judge_balances-permit same trigger none funds balance =
    (λ h. absurd (cc h), λ (e, _). absurd (cc e))
judge_balances-permit true trigger (some n) funds balance =
    (λ h. (ground arith, (n, refl, ground arith)), λ h. ground arith)
judge_balances-permit false trigger (some n) none balance =
    (λ h. absurd (cc h), λ (e, (m, f, _)). absurd (cc f))
judge_balances-permit false trigger (some n) (some m) balance =
    (λ h. (ground arith, (m, refl, ground arith)), λ h. ground arith)

module _ (is_address_equal : Text → Text → Bool) (token : Text) where
  -- In fusion mode without a trusted sponsorship a request passes the check of the balances exactly
  -- if the payment token's balance is known, the trigger's amount is covered, and the balance that
  -- is handed on is the payment token's. What has to cover the amount is the payment token's balance
  -- if the two tokens have one address, and else the trigger token's balance, which is then known.
  pub check_balances-permit :
      (trigger : TriggerInfo) (answers : BalanceAnswers) (balance : ℕ)
      → (check_balances is_address_equal true false token (some trigger) answers ≡ ok balance) ↔ (
          (answers.of_payment_token ≡ some balance)
          × ((available : ℕ) × ((if is_address_equal token trigger.token_address
                  then answers.of_payment_token
                  else answers.of_trigger_token)
                ≡ some available)
              × (trigger.amount ≤ available)))
  unfolding check_balances
  check_balances-permit trigger answers balance =
      judge_balances-permit (is_address_equal token trigger.token_address) trigger
        answers.of_payment_token answers.of_trigger_token balance
