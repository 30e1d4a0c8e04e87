-- ===== src/Executor/Retry/Bump.antt =====
-- The fees of the immediate retry.
use composable_batch_erc.Common.{
  ℕ, ◌≤◌, ◌+◌, ◌*◌, ◌≡◌, false, arith, Reply, ok, thrown, if◌then◌else◌,
}
use composable_batch_erc.NonceManager.{Nonces}
use composable_batch_erc.Executor.ParseError.{ExecutionError}
use composable_batch_erc.Executor.Records.{Context, ExecuteOptions, Failure}
use composable_batch_erc.Executor.Retry.{
  Fees, is_replacement_too_low, adjust_gas, adjust_nonce_and_gas_by_error,
}

-- Only the error that a replacement transaction is underpriced makes a difference between forced
-- and cached gas conditions: after any other error the retry uses the cached ones, whatever a forced
-- fetch would give.
pub adjust_nonce_and_gas_by_error-cached :
    (ctx : Context) (error : ExecutionError) (percentage : ℕ) (options : ExecuteOptions)
    (rpc_nonce : Reply Failure ℕ) (cached forced forced' : Reply Failure Fees) (nonces : Nonces)
    → is_replacement_too_low error ≡ false
    → adjust_nonce_and_gas_by_error ctx error percentage options rpc_nonce
        (λ force. if force then forced else cached)
        nonces
      ≡ adjust_nonce_and_gas_by_error ctx error percentage options rpc_nonce
          (λ force. if force then forced' else cached)
          nonces
unfolding adjust_nonce_and_gas_by_error adjust_gas
adjust_nonce_and_gas_by_error-cached ctx error percentage options rpc_nonce cached forced forced'
      nonces h =
    ground arith

-- Each fee is at least the current one, and at most the current one raised by the percentage.
abbrev pub IsRaised : ℕ → Fees → ExecuteOptions → Type 0
IsRaised percentage fees options =
    (fees.max_fee_per_gas ≤ options.max_fee_per_gas)
    × (options.max_fee_per_gas * 100 ≤ fees.max_fee_per_gas * (100 + percentage))
    × (fees.max_priority_fee_per_gas ≤ options.max_priority_fee_per_gas)
    × (options.max_priority_fee_per_gas * 100 ≤ fees.max_priority_fee_per_gas * (100 + percentage))

abbrev Holds {ℓ} : (ExecuteOptions → Type ℓ) → Reply Failure ExecuteOptions → Type ℓ
Holds P (ok options) = P options
Holds P (thrown e) = Unit
