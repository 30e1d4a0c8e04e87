-- ===== src/Executor/Retry.antt =====
-- `adjustNonceAndGasByError` of orchestrator-node/src/modules/executor/executor.processor.ts: the
-- nonce and the fees of the immediate retry. The gas conditions of the gas estimator are an
-- argument that is told whether to force a fetch.
pub mod Bump
use composable_batch_erc.Common.{
  ℕ, ◌+◌, ◌*◌, ◌/◌, ◌==◌, Bool, true, false, Option, none, some, if◌then◌else◌, Reply, ok, thrown,
}
use composable_batch_erc.NonceManager.{Nonces, get_nonce}
use composable_batch_erc.Executor.ParseError.{
  ExecutionError, execution_failed, gas_price_too_low, max_fee_too_low, nonce_expired,
  priority_fee_too_high, unrecognized_error, transaction_receipt_error,
  transaction_receipt_timeout_error, block_gas_limit_exceeds_error,
  replacement_transaction_gas_price_too_low, transaction_execution_sync_error,
}
use composable_batch_erc.Executor.Records.{Context, ExecuteOptions, Failure}

-- The fields of `GasConditions` that the executor reads.
pub record Fees : Type 0 where
  pub max_fee_per_gas : ℕ
  pub max_priority_fee_per_gas : ℕ

-- The cases of the `switch`.
unfoldable pub is_adjusted : ExecutionError → Bool
is_adjusted replacement_transaction_gas_price_too_low = true
is_adjusted gas_price_too_low = true
is_adjusted max_fee_too_low = true
is_adjusted priority_fee_too_high = true
is_adjusted nonce_expired = true
is_adjusted _ = false

unfoldable pub is_nonce_expired : ExecutionError → Bool
is_nonce_expired nonce_expired = true
is_nonce_expired _ = false

-- `forceFetchGasConditions` is this comparison alone: the semicolon after it leaves the other
-- three as a statement of their own, whose value is not used.
unfoldable pub is_replacement_too_low : ExecutionError → Bool
is_replacement_too_low replacement_transaction_gas_price_too_low = true
is_replacement_too_low _ = false

-- `BigInt(executionAttempts || 1) * 20n`.
unfoldable pub bump_percentage : ℕ → ℕ
bump_percentage execution_attempts =
    (if execution_attempts == 0 then 1 else execution_attempts) * 20

unfoldable pub gas_price_bump_percentage : ExecutionError → ℕ → ℕ
unfolding is_replacement_too_low
gas_price_bump_percentage error percentage =
    if is_replacement_too_low error then 50 + percentage else percentage

unfoldable pub bump : ℕ → ℕ → ℕ
bump percentage fee = fee * (100 + percentage) / 100

unfoldable pub bump_options : ℕ → ℕ → Fees → ExecuteOptions
unfolding bump
bump_options percentage nonce fees = record {
  max_fee_per_gas = bump percentage fees.max_fee_per_gas;
  max_priority_fee_per_gas = bump percentage fees.max_priority_fee_per_gas;
  nonce = nonce;
}

-- The gas conditions of the chain, once the nonce is known.
unfoldable pub adjust_gas :
    ExecutionError → ℕ → (Bool → Reply Failure Fees) → ℕ → Reply Failure ExecuteOptions
unfolding is_replacement_too_low gas_price_bump_percentage bump_options
adjust_gas error percentage gas_conditions nonce =
    elim (gas_conditions (is_replacement_too_low error)) [
      | thrown e ↦ thrown e
      | ok fees ↦ ok (bump_options (gas_price_bump_percentage error percentage) nonce fees)
    ]

unfoldable pub adjust_nonce_and_gas_by_error :
    Context
    → ExecutionError
    → ℕ
    → ExecuteOptions
    → Reply Failure ℕ
    → (Bool → Reply Failure Fees)
    → Nonces
    → Reply Failure ExecuteOptions × Nonces
unfolding is_adjusted is_nonce_expired adjust_gas
adjust_nonce_and_gas_by_error ctx error percentage options rpc_nonce gas_conditions nonces =
    if is_adjusted error
    then (let (nonce, nonces') =
          get_nonce ctx.worker_address ctx.chain_id (is_nonce_expired error) rpc_nonce nonces in
        elim nonce [
          | thrown e ↦ (thrown e, nonces')
          | ok n ↦ (adjust_gas error percentage gas_conditions n, nonces')
        ])
    else (ok options, nonces)

-- `nonce || executionOptions.nonce` and the same for the two fees.
unfoldable pub or_else : ℕ → ℕ → ℕ
or_else a b = if a == 0 then b else a

unfoldable pub merge_options : ExecuteOptions → ExecuteOptions → ExecuteOptions
unfolding or_else
merge_options adjusted options = record {
  max_fee_per_gas = or_else adjusted.max_fee_per_gas options.max_fee_per_gas;
  max_priority_fee_per_gas =
      or_else adjusted.max_priority_fee_per_gas options.max_priority_fee_per_gas;
  nonce = or_else adjusted.nonce options.nonce;
}
