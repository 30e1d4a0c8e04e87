-- ===== src/Executor/ParseError.antt =====
-- `parseExecutionError` of orchestrator-node/src/modules/executor/executor.processor.ts.
use composable_batch_erc.Common.{Bool, true, false, if◌then◌else◌}
use composable_batch_erc.Common.Text.{Text, codes, to_lower_case, includes}
use composable_batch_erc.Errors.Patterns.{
  nonce_error_messages, replacement_transaction_gas_price_error_messages, gas_price_error_messages,
  max_fee_error_messages, priority_fee_error_messages, time_out_error_messages,
  block_gas_limit_exceeds_error_messages, transaction_execution_sync_error_messages, includes_any,
}

-- `USER_OP_EXECUTION_ERRORS`.
pub data ExecutionError : Type 0 where
  execution_failed gas_price_too_low max_fee_too_low nonce_expired : ExecutionError
  priority_fee_too_high unrecognized_error transaction_receipt_error : ExecutionError
  transaction_receipt_timeout_error block_gas_limit_exceeds_error : ExecutionError
  replacement_transaction_gas_price_too_low transaction_execution_sync_error : ExecutionError

pub record ParsedError : Type 0 where
  pub is_retriable_error : Bool
  pub error_type : ExecutionError

abbrev parsed : Bool → ExecutionError → ParsedError
parsed retry kind = record { is_retriable_error = retry; error_type = kind }

unfoldable pub parse_execution_error : Text → ParsedError
parse_execution_error err_message =
    let m = to_lower_case err_message in
    if includes m (codes "0x220266b6")
    then parsed false execution_failed
    else if includes_any m block_gas_limit_exceeds_error_messages
    then parsed false block_gas_limit_exceeds_error
    else if includes_any m nonce_error_messages
    then parsed true nonce_expired
    else if includes_any m replacement_transaction_gas_price_error_messages
    then parsed true replacement_transaction_gas_price_too_low
    else if includes_any m gas_price_error_messages
    then parsed true gas_price_too_low
    else if includes_any m time_out_error_messages
    then parsed true transaction_receipt_timeout_error
    else if includes_any m max_fee_error_messages
    then parsed true max_fee_too_low
    else if includes_any m priority_fee_error_messages
    then parsed true priority_fee_too_high
    else if includes_any m transaction_execution_sync_error_messages
    then parsed true transaction_execution_sync_error
    else parsed false unrecognized_error
