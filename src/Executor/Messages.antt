-- ===== src/Executor/Messages.antt =====
-- The error messages of `USER_OP_ERROR_MESSAGES`, orchestrator-node/src/modules/executor/interfaces.ts.
use composable_batch_erc.Common.{Bool, true, false}
use composable_batch_erc.Common.Text.{Text, codes}
use composable_batch_erc.Executor.ParseError.{
  ExecutionError, execution_failed, gas_price_too_low, max_fee_too_low, nonce_expired,
  priority_fee_too_high, unrecognized_error, transaction_receipt_error,
  transaction_receipt_timeout_error, block_gas_limit_exceeds_error,
  replacement_transaction_gas_price_too_low, transaction_execution_sync_error,
}

-- `USER_OP_ERROR_MESSAGES`.
unfoldable pub user_op_error_message : ExecutionError → Text
user_op_error_message execution_failed = codes "Transaction execution failed"
user_op_error_message gas_price_too_low = codes "Gas price is too low for this transaction"
user_op_error_message max_fee_too_low = codes "Maximum fee per gas is too low"
user_op_error_message priority_fee_too_high =
    codes "Maximum priority fee per gas is higher than the maximum fee per gas"
user_op_error_message nonce_expired = codes "Transaction nonce has expired"
user_op_error_message unrecognized_error = codes "An unrecognized error occurred"
user_op_error_message transaction_receipt_error = codes "Failed to retrieve transaction receipt"
user_op_error_message transaction_receipt_timeout_error = codes "Transaction receipt timeout"
user_op_error_message block_gas_limit_exceeds_error = codes "Block gas limit exceeds"
user_op_error_message replacement_transaction_gas_price_too_low =
    codes "Replacement transaction gas price is too low for this transaction"
user_op_error_message transaction_execution_sync_error =
    codes "Failed to execute transaction from the mempool"

unfoldable pub is_block_gas_limit_exceeds : ExecutionError → Bool
is_block_gas_limit_exceeds block_gas_limit_exceeds_error = true
is_block_gas_limit_exceeds _ = false
