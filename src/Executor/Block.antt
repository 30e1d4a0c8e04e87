-- ===== src/Executor/Block.antt =====
-- `executeBlock`, `handleTransactionExecutionError` and `handleDefaultBlockTxReceipt` of
-- orchestrator-node/src/modules/executor/executor.processor.ts. What the RPC providers answer is an
-- argument, `BlockAnswers`.
pub mod Response
pub mod Nonce
use composable_batch_erc.Common.{
  ℕ, ltb, ◌==◌, Bool, true, false, ◌&&◌, List, [], ◌∷◌, ◌++◌, Option, none, some, if◌then◌else◌,
  Reply, ok, thrown,
}
use composable_batch_erc.Common.Text.{Text, codes}
use composable_batch_erc.NonceManager.{mark_nonce_as_used}
use composable_batch_erc.UserOps.Interfaces.{MeeUserOp}
use composable_batch_erc.Executor.ParseError.{
  ExecutionError, ParsedError, parse_execution_error, unrecognized_error,
  transaction_receipt_timeout_error,
}
use composable_batch_erc.Executor.Records.{
  Receipt, Failure, error_of, unrecoverable, not_an_error, ExecuteOptions, ExecutorTxRequest,
  legacy, eip1559, eip7702, Sent, Context, World, and_then,
}
use composable_batch_erc.Executor.Confirmation.{handle_supertransaction_execution_result}

-- The answers of the providers during one `executeBlock`, each read only where the code asks.
pub record BlockAnswers : Type 0 where
  pub sync_supported : Reply Failure Bool
  pub providers_tried : ℕ
  pub write_contract_sync : Reply Failure Receipt
  pub write_contract : Reply Failure Text
  pub fast_receipt : Reply Failure Receipt
  pub default_receipt : Reply Failure Receipt

-- `ExecuteBlockResponse`; `isError` is only compared with true.
pub record ExecuteBlockResponse : Type 0 where
  pub transaction_receipt : Option Receipt
  pub tx_hash : Option Text
  pub is_error : Bool
  pub error_type : Option ExecutionError
  pub is_retriable_error : Option Bool

unfoldable pub error_response : ParsedError → Option Text → ExecuteBlockResponse
error_response parsed tx_hash = record {
  transaction_receipt = none;
  tx_hash = tx_hash;
  is_error = true;
  error_type = some parsed.error_type;
  is_retriable_error = some parsed.is_retriable_error;
}

unfoldable pub receipt_response : Option Receipt → Text → ExecuteBlockResponse
receipt_response receipt tx_hash = record {
  transaction_receipt = receipt;
  tx_hash = some tx_hash;
  is_error = false;
  error_type = none;
  is_retriable_error = none;
}

unfoldable pub handle_transaction_execution_error : Failure → ExecuteBlockResponse
unfolding error_response
handle_transaction_execution_error (error_of message) =
    error_response (parse_execution_error message) none
handle_transaction_execution_error (unrecoverable message) =
    error_response (parse_execution_error message) none
handle_transaction_execution_error not_an_error =
    error_response (record { is_retriable_error = false; error_type = unrecognized_error }) none

unfoldable pub is_timeout : ExecutionError → Bool
is_timeout transaction_receipt_timeout_error = true
is_timeout _ = false

-- The catch of `handleDefaultBlockTxReceipt`, for an `Error` with this message.
unfoldable pub default_receipt_failed : Text → Text → ExecuteBlockResponse
unfolding is_timeout error_response receipt_response
default_receipt_failed message tx_hash =
    let parsed = parse_execution_error message in
    if parsed.is_retriable_error && is_timeout parsed.error_type
    then error_response parsed (some tx_hash)
    else receipt_response none tx_hash

unfoldable pub mark_used : Context → ℕ → World → World
mark_used ctx nonce w = record w {
  nonces = mark_nonce_as_used ctx.worker_address ctx.chain_id nonce w.nonces;
}

unfoldable pub handle_default_block_tx_receipt :
    Context → Text → ℕ → Reply Failure Receipt → World → ExecuteBlockResponse × World
unfolding default_receipt_failed receipt_response mark_used
handle_default_block_tx_receipt ctx tx_hash nonce (ok receipt) w =
    (receipt_response (some receipt) tx_hash, mark_used ctx nonce w)
handle_default_block_tx_receipt ctx tx_hash nonce (thrown (error_of message)) w =
    (default_receipt_failed message tx_hash, w)
handle_default_block_tx_receipt ctx tx_hash nonce (thrown (unrecoverable message)) w =
    (default_receipt_failed message tx_hash, w)
handle_default_block_tx_receipt ctx tx_hash nonce (thrown not_an_error) w =
    (receipt_response none tx_hash, w)

abbrev pub reverted_failure : Failure
reverted_failure = error_of (codes "Block reverted, failed to execute userOps")

-- What both paths do with the result of `handleDefaultBlockTxReceipt`, the throw of a reverted
-- receipt and its catch included.
unfoldable pub conclude : ExecuteBlockResponse → ExecuteBlockResponse
unfolding handle_transaction_execution_error
conclude result = if result.is_error then result else elim result.transaction_receipt [
  | none ↦ result
  | some receipt ↦
      if receipt.is_reverted
      then handle_transaction_execution_error reverted_failure
      else record result { is_error = false; error_type = none; is_retriable_error = none }
]

-- `if (fee < minGas) fee = minGas`, under `minGas > 0n`.
unfoldable pub raise_to_min : Option ℕ → ℕ → ℕ
raise_to_min none fee = fee
raise_to_min (some min_gas) fee =
    if ltb 0 min_gas then (if ltb fee min_gas then min_gas else fee) else fee

unfoldable pub tx_request_of : List Text → ℕ → ℕ → ℕ → ExecutorTxRequest
tx_request_of [] nonce max_fee max_priority_fee =
    if max_fee == max_priority_fee
    then legacy nonce max_fee
    else eip1559 nonce max_fee max_priority_fee
tx_request_of (auth ∷ auths) nonce max_fee max_priority_fee =
    eip7702 nonce max_fee max_priority_fee (auth ∷ auths)

unfoldable pub build_tx_request : Context → List Text → ExecuteOptions → ExecutorTxRequest
unfolding raise_to_min tx_request_of
build_tx_request ctx authorization_list options =
    tx_request_of authorization_list options.nonce
      (raise_to_min ctx.min_max_fee_per_gas options.max_fee_per_gas)
      (raise_to_min ctx.min_max_fee_per_gas options.max_priority_fee_per_gas)

unfoldable pub send : List MeeUserOp → ExecutorTxRequest → (providers_tried : ℕ) → World → World
send ops request tried w = record w {
  sent = w.sent ++ record { user_ops = ops; request = request; providers_tried = tried } ∷ [];
}

module _ (ctx : Context) (ops : List MeeUserOp) (nonce : ℕ) where
  -- The quick status update for a receipt that is not reverted.
  unfoldable pub quick_update : Text → Receipt → World → World
  unfolding handle_supertransaction_execution_result
  quick_update tx_hash receipt w =
      handle_supertransaction_execution_result ctx tx_hash false ops (some receipt) w

  unfoldable pub confirm_block : Text → Reply Failure Receipt → World → ExecuteBlockResponse × World
  unfolding conclude handle_default_block_tx_receipt
  confirm_block tx_hash answer w =
      let (result, w') = handle_default_block_tx_receipt ctx tx_hash nonce answer w in
      (conclude result, w')

  -- The path with `writeContractSync`.
  unfoldable pub execute_block_sync :
      Reply Failure Receipt → Reply Failure Receipt → World → ExecuteBlockResponse × World
  unfolding quick_update confirm_block mark_used handle_transaction_execution_error
  execute_block_sync (thrown e) default_receipt w = (handle_transaction_execution_error e, w)
  execute_block_sync (ok receipt) default_receipt w =
      let w1 = mark_used ctx nonce w in
      if receipt.is_reverted
      then (handle_transaction_execution_error reverted_failure, w1)
      else confirm_block receipt.transaction_hash default_receipt
          (quick_update receipt.transaction_hash receipt w1)

  -- The wait for one confirmation, whose errors are only logged.
  unfoldable pub fast_confirmation : Text → Reply Failure Receipt → World → World
  unfolding quick_update mark_used
  fast_confirmation tx_hash (thrown e) w = w
  fast_confirmation tx_hash (ok receipt) w =
      let w1 = mark_used ctx nonce w in
      if receipt.is_reverted then w1 else quick_update tx_hash receipt w1

  -- The path with `writeContract`.
  unfoldable pub execute_block_async :
      Reply Failure Text
      → Reply Failure Receipt
      → Reply Failure Receipt
      → World
      → ExecuteBlockResponse × World
  unfolding fast_confirmation confirm_block handle_transaction_execution_error
  execute_block_async (thrown e) fast_receipt default_receipt w =
      (handle_transaction_execution_error e, w)
  execute_block_async (ok tx_hash) fast_receipt default_receipt w =
      confirm_block tx_hash default_receipt (fast_confirmation tx_hash fast_receipt w)

-- `if (isLowBlockTimeChain && sendTransactionSyncSupported)`.
unfoldable pub send_block :
    Context → List MeeUserOp → ℕ → BlockAnswers → Bool → World → ExecuteBlockResponse × World
unfolding execute_block_sync execute_block_async
send_block ctx ops nonce answers sync_supported w =
    if ctx.is_low_block_time_chain && sync_supported
    then execute_block_sync ctx ops nonce answers.write_contract_sync answers.default_receipt w
    else execute_block_async ctx ops nonce answers.write_contract answers.fast_receipt
        answers.default_receipt w

unfoldable pub execute_block :
    Context
    → List MeeUserOp
    → List Text
    → ExecuteOptions
    → BlockAnswers
    → World
    → Reply Failure ExecuteBlockResponse × World
unfolding build_tx_request send send_block and_then
execute_block ctx ops authorization_list options answers w =
    and_then (answers.sync_supported, w)
      (λ sync_supported w1.
        let (response, w2) =
          send_block ctx ops options.nonce answers sync_supported (
            send ops (build_tx_request ctx authorization_list options) answers.providers_tried
              w1) in
        (ok response, w2))
