-- ===== src/Executor/AfterExecution.antt =====
-- What `processJob` of orchestrator-node/src/modules/executor/executor.processor.ts does with the
-- result of an execution: the immediate retry, the receipt that timed out, the block that is
-- simulated again. `JobAnswers` holds what the services outside say during one attempt.
pub mod Sends
pub mod Confirms
use composable_batch_erc.Common.{
  ℕ, ◌==◌, Bool, true, false, ◌&&◌, List, ◌++◌, Option, none, some, if◌then◌else◌, length, Reply,
  ok, thrown,
}
use composable_batch_erc.Common.Text.{Text, codes}
use composable_batch_erc.NonceManager.{get_nonce}
use composable_batch_erc.UserOps.Interfaces.{MeeUserOp, MeeUserOpBatch}
use composable_batch_erc.Executor.ParseError.{ExecutionError}
use composable_batch_erc.Executor.Records.{
  Receipt, Failure, error_of, unrecoverable, ExecuteOptions, Context, and_then, with_nonces, World,
  total_gas_limit,
}
use composable_batch_erc.Executor.Confirmation.{handle_supertransaction_execution_result}
use composable_batch_erc.Executor.Reverts.{RequeueAnswers, handle_user_ops_reverts_from_block}
use composable_batch_erc.Executor.Retry.{
  Fees, adjust_nonce_and_gas_by_error, bump_percentage, merge_options,
}
use composable_batch_erc.Executor.Block.{
  BlockAnswers, ExecuteBlockResponse, execute_block, is_timeout,
}
use composable_batch_erc.Executor.Start.{authorization_list}
use composable_batch_erc.Executor.Messages.{user_op_error_message, is_block_gas_limit_exceeds}

-- What one attempt asks of the services, each answer read only where the code asks.
pub record JobAnswers : Type 0 where
  pub previous_receipt : Reply Failure Receipt
  pub fees : Reply Failure Fees
  pub rpc_nonce : Reply Failure ℕ
  pub first_block : BlockAnswers
  pub timeout_nonce : Reply Failure ℕ
  pub retry_nonce : Reply Failure ℕ
  pub retry_fees : Bool → Reply Failure Fees
  pub retry_block : BlockAnswers
  pub requeue : RequeueAnswers

-- What an attempt, or a part of it, returns or throws, and the state that it leaves.
abbrev pub Step : Type 0
Step = Reply Failure Bool × World

-- The error that `isError === true && errorType !== undefined` finds.
abbrev pub failed_with : ExecuteBlockResponse → Option ExecutionError
failed_with r = if r.is_error then r.error_type else none

-- `isRetriableError === false`.
abbrev pub is_not_retriable : Option Bool → Bool
is_not_retriable (some false) = true
is_not_retriable _ = false

module _ (ctx : Context) (attempts : ℕ) (answers : JobAnswers) where
  unfoldable pub handle_post_execution :
      List MeeUserOp → Option Text → Option Receipt → World → Step
  unfolding handle_supertransaction_execution_result
  handle_post_execution ops none receipt w = (
    thrown
        (unrecoverable (codes "Block reverted, failed to execute meeUserOps due to unknown error")),
    w,
  )
  handle_post_execution ops (some tx_hash) receipt w =
      (ok true, handle_supertransaction_execution_result ctx tx_hash true ops receipt w)

  -- A non-retriable error: the user operations are simulated again and put into new blocks.
  unfoldable pub fail_or_requeue : Text → ExecutionError → List MeeUserOp → World → Step
  unfolding is_block_gas_limit_exceeds handle_user_ops_reverts_from_block
  fail_or_requeue message error ops w =
      let exceeds = is_block_gas_limit_exceeds error in
      if exceeds && (length ops == 1)
      then (thrown (error_of message), w)
      else handle_user_ops_reverts_from_block ctx answers.requeue ops exceeds w

  unfoldable pub due_to : Text → ExecutionError → Text
  unfolding user_op_error_message
  due_to what error = what ++ codes " (" ++ user_op_error_message error ++ codes ")"

  -- The result of the immediate retry.
  unfoldable pub after_retry : ExecuteBlockResponse → List MeeUserOp → World → Step
  unfolding fail_or_requeue handle_post_execution due_to
  after_retry r ops w =
      let message =
        due_to
          (codes "Block reverted during retry, failed to execute meeUserOps due to the error") in
      elim (failed_with r) [
        | none ↦ handle_post_execution ops r.tx_hash r.transaction_receipt w
        | some error ↦
            if is_not_retriable r.is_retriable_error
            then fail_or_requeue (message error) error ops w
            else (thrown (error_of (message error)), w)
      ]

  unfoldable pub immediate_retry : ExecutionError → ExecuteOptions → List MeeUserOp → World → Step
  unfolding and_then adjust_nonce_and_gas_by_error bump_percentage merge_options execute_block
      after_retry
  immediate_retry error options ops w =
      and_then
        (with_nonces w (
          adjust_nonce_and_gas_by_error ctx error (bump_percentage attempts) options
            answers.retry_nonce answers.retry_fees w.nonces))
        (λ adjusted w1.
          and_then
            (execute_block ctx ops (authorization_list ops) (merge_options adjusted options)
              answers.retry_block w1)
            (λ r w2. after_retry r ops w2))

  -- A receipt that timed out: the nonce is fetched again, and the job remembers the transaction.
  unfoldable pub receipt_timed_out : ExecutionError → Text → List MeeUserOp → World → Step
  unfolding and_then total_gas_limit due_to
  receipt_timed_out error tx_hash ops w =
      let job : MeeUserOpBatch = record {
        batch_gas_limit = total_gas_limit ops;
        mee_user_ops = ops;
        previous_tx_hash = some tx_hash;
      } in
      and_then
        (with_nonces (record w { job = job })
          (get_nonce ctx.worker_address ctx.chain_id true answers.timeout_nonce w.nonces))
        (λ nonce w1. (
          thrown (
              error_of (
                due_to (codes "Failed to fetch the transaction receipt, request timed out") error)),
          w1,
        ))

  -- The result of the first execution.
  unfoldable pub after_execution :
      ExecuteBlockResponse → ExecuteOptions → List MeeUserOp → World → Step
  unfolding fail_or_requeue receipt_timed_out immediate_retry handle_post_execution is_timeout
      due_to
  after_execution r options ops w =
      let message =
        due_to (codes "Block reverted, failed to execute meeUserOps due to the error") in
      elim (failed_with r) [
        | none ↦ handle_post_execution ops r.tx_hash r.transaction_receipt w
        | some error ↦
            if is_not_retriable r.is_retriable_error
            then fail_or_requeue (message error) error ops w
            else elim (if is_timeout error then r.tx_hash else none) [
              | none ↦ immediate_retry error options ops w
              | some tx_hash ↦ receipt_timed_out error tx_hash ops w
            ]
      ]
