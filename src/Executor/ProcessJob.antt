-- ===== src/Executor/ProcessJob.antt =====
-- `processJob` of orchestrator-node/src/modules/executor/executor.processor.ts: one attempt of a
-- job of the executor queue. The child modules state what it
-- guarantees.
pub mod Sends
pub mod Outcome
pub mod Confirms
use composable_batch_erc.Common.{
  ℕ, ◌+◌, ◌==◌, Bool, true, false, ◌&&◌, ◌||◌, List, [], ◌∷◌, ◌++◌, Option, none, some,
  if◌then◌else◌, length, Reply, ok, thrown,
}
use composable_batch_erc.Common.Text.{Text, codes}
use composable_batch_erc.Errors.Sanitize.{sanitize_url}
use composable_batch_erc.NonceManager.{get_nonce}
use composable_batch_erc.UserOps.Interfaces.{MeeUserOp}
use composable_batch_erc.Executor.ParseError.{
  ExecutionError, execution_failed, gas_price_too_low, max_fee_too_low, nonce_expired,
  priority_fee_too_high, unrecognized_error, transaction_receipt_error,
  transaction_receipt_timeout_error, block_gas_limit_exceeds_error,
  replacement_transaction_gas_price_too_low, transaction_execution_sync_error,
}
use composable_batch_erc.Executor.Records.{
  Receipt, Failure, error_of, unrecoverable, not_an_error, ExecuteOptions, Context, and_then,
  with_nonces, World, call_storage, total_gas_limit,
}
use composable_batch_erc.Executor.Confirmation.{handle_supertransaction_execution_result}
use composable_batch_erc.Executor.Reverts.{
  validate_mee_user_op_timebounds, handle_user_ops_reverts_from_block, fail_all,
}
use composable_batch_erc.Executor.Retry.{
  Fees, adjust_nonce_and_gas_by_error, bump_percentage, merge_options,
}
use composable_batch_erc.Executor.Block.{
  BlockAnswers, ExecuteBlockResponse, execute_block, is_timeout,
}
use composable_batch_erc.Executor.Start.{authorization_list, started_calls, expired_calls}
use composable_batch_erc.Executor.Messages.{user_op_error_message}
use composable_batch_erc.Executor.AfterExecution.{
  JobAnswers, Step, handle_post_execution, after_execution,
}

module _ (ctx : Context) (attempts : ℕ) (answers : JobAnswers) where
  -- The two answers that are awaited together.
  abbrev pub first_options : Reply Failure Fees → Reply Failure ℕ → Reply Failure ExecuteOptions
  first_options (thrown e) nonce = thrown e
  first_options (ok fees) (thrown e) = thrown e
  first_options (ok fees) (ok n) = ok (record {
    max_fee_per_gas = fees.max_fee_per_gas;
    max_priority_fee_per_gas = fees.max_priority_fee_per_gas;
    nonce = n;
  })

  -- From the loop over the authorizations to the end of the `try`.
  unfoldable pub execute_user_ops : List MeeUserOp → World → Step
  unfolding and_then authorization_list started_calls execute_block after_execution
  execute_user_ops ops w0 =
      let w = call_storage (started_calls ctx ops) w0 in
      let (nonce, nonces) =
        get_nonce ctx.worker_address ctx.chain_id false answers.rpc_nonce w.nonces in
      and_then (with_nonces w (first_options answers.fees nonce, nonces)) (λ options w1.
        and_then (execute_block ctx ops (authorization_list ops) options answers.first_block w1)
          (λ r w2. after_execution ctx attempts answers r options ops w2))

  -- The new data of the job when user operations expired.
  unfoldable pub store_valid : List MeeUserOp → World → World
  unfolding total_gas_limit
  store_valid valid w = record w {
    job = record {
      batch_gas_limit = total_gas_limit valid;
      mee_user_ops = valid;
      previous_tx_hash = none;
    };
  }

  -- The valid user operations of a block, of which `expired` were taken out.
  unfoldable pub execute_valid : (valid expired : List MeeUserOp) → World → Step
  unfolding execute_user_ops store_valid expired_calls
  execute_valid valid [] w = execute_user_ops valid w
  execute_valid [] (op ∷ expired) w =
      (ok false, store_valid [] (call_storage (expired_calls ctx (op ∷ expired)) w))
  execute_valid (v ∷ valid) (op ∷ expired) w =
      execute_user_ops (v ∷ valid)
        (store_valid (v ∷ valid) (call_storage (expired_calls ctx (op ∷ expired)) w))

  abbrev pub error_message : Failure → Text
  error_message (error_of message) = message
  error_message (unrecoverable message) = message
  error_message not_an_error = user_op_error_message execution_failed

  abbrev pub is_unrecoverable : Failure → Bool
  is_unrecoverable (unrecoverable message) = true
  is_unrecoverable _ = false

  unfoldable pub is_last_execution_attempt : Failure → Bool
  is_last_execution_attempt e = (attempts + 1 == ctx.queue_job_attempts) || is_unrecoverable e

  -- The `catch` of `processJob`.
  unfoldable pub handle_failure : List MeeUserOp → Step → Step
  unfolding is_last_execution_attempt fail_all sanitize_url
  handle_failure ops (ok result, w) = (ok result, w)
  handle_failure ops (thrown e, w) = (
    thrown e,
    if is_last_execution_attempt e
        then call_storage (fail_all (sanitize_url (error_message e)) ctx.now ops) w
        else w,
  )

  -- The attempt, once the previous transaction is dealt with.
  unfoldable pub fresh_execution : List MeeUserOp → World → Step
  unfolding validate_mee_user_op_timebounds execute_valid handle_failure
  fresh_execution ops w =
      let (valid, expired) = validate_mee_user_op_timebounds ctx ops in
      handle_failure valid (execute_valid valid expired w)

  -- The receipt of the previous transaction was found.
  unfoldable pub finish_previous : Text → Receipt → World → Step
  unfolding handle_user_ops_reverts_from_block handle_post_execution
  finish_previous tx_hash receipt w =
      let ops = w.job.mee_user_ops in
      if receipt.is_reverted
      then handle_user_ops_reverts_from_block ctx answers.requeue ops false w
      else handle_post_execution ctx attempts answers ops (some tx_hash) (some receipt) w

  abbrev pub forget_previous : World → World
  forget_previous w = record w { job = record w.job { previous_tx_hash = none } }

  -- The catch around the previous transaction also catches what its handling throws.
  unfoldable pub or_fresh : List MeeUserOp → Step → Step
  unfolding fresh_execution
  or_fresh ops (ok result, w) = (ok result, w)
  or_fresh ops (thrown e, w) = fresh_execution ops (forget_previous w)

  unfoldable pub process_job : World → Step
  unfolding finish_previous fresh_execution or_fresh
  process_job w = elim w.job.previous_tx_hash [
    | none ↦ fresh_execution w.job.mee_user_ops w
    | some tx_hash ↦ elim answers.previous_receipt [
      | ok receipt ↦ or_fresh w.job.mee_user_ops (finish_previous tx_hash receipt w)
      | thrown e ↦ fresh_execution w.job.mee_user_ops (forget_previous w)
    ]
  ]
