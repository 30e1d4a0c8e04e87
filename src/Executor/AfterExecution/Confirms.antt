-- ===== src/Executor/AfterExecution/Confirms.antt =====
-- What an execution, and the retry that may follow it, has written when it returns true.
use composable_batch_erc.Common.{
  ℕ, Bool, true, false, List, Option, none, some, Bool-cases, Option-cases, inl, inr, ok, thrown,
  All, if◌then◌else◌, ◌&&◌, ◌==◌, length,
}
use composable_batch_erc.Common.Text.{Text, codes}
use composable_batch_erc.UserOps.Interfaces.{MeeUserOp, MeeUserOpBatch}
use composable_batch_erc.NonceManager.{get_nonce}
use composable_batch_erc.Executor.ParseError.{ExecutionError}
use composable_batch_erc.Executor.Records.{
  Receipt, error_of, total_gas_limit, ExecuteOptions, Context, World, and_then, and_then_lem,
  with_nonces,
}
use composable_batch_erc.Executor.Confirmation.Updates.{
  IsSettledBy, handle_supertransaction_execution_result-settles,
}
use composable_batch_erc.Executor.Retry.{
  adjust_nonce_and_gas_by_error, bump_percentage, merge_options,
}
use composable_batch_erc.Executor.Start.{authorization_list}
use composable_batch_erc.Executor.Messages.{is_block_gas_limit_exceeds}
use composable_batch_erc.Executor.Block.{
  is_timeout, ExecuteBlockResponse, BlockAnswers, execute_block,
}
use composable_batch_erc.Executor.Reverts.{
  handle_user_ops_reverts_from_block, simulate_block_execution, add_new_jobs, new_jobs,
}
use composable_batch_erc.Executor.AfterExecution.{
  JobAnswers, Step, due_to, failed_with, is_not_retriable, handle_post_execution, fail_or_requeue,
  after_retry, immediate_retry, receipt_timed_out, after_execution,
}

module _ (ctx : Context) where
  -- If the step returns true, each of the user operations is settled as confirmed by one
  -- transaction.
  abbrev pub ConfirmsIfTrue : List MeeUserOp → Step → Type 0
  ConfirmsIfTrue ops (ok true, w) =
      (tx_hash : Text) × All (λ op. IsSettledBy ctx tx_hash true w.calls op.mee_user_op_hash) ops
  ConfirmsIfTrue ops (ok false, w) = Unit
  ConfirmsIfTrue ops (thrown e, w) = Unit

module _ (ctx : Context) (attempts : ℕ) (answers : JobAnswers) (ops : List MeeUserOp) where
  handle_post_execution-Confirms :
      (tx_hash : Option Text) (receipt : Option Receipt) (w : World)
      → ConfirmsIfTrue ctx ops (handle_post_execution ctx attempts answers ops tx_hash receipt w)
  unfolding handle_post_execution
  handle_post_execution-Confirms none receipt w = tt
  handle_post_execution-Confirms (some tx_hash) receipt w =
      (tx_hash, handle_supertransaction_execution_result-settles ctx tx_hash true ops receipt w)

  pub handle_user_ops_reverts_from_block-Confirms :
      (all : List MeeUserOp) (split : Bool) (w : World)
      → ConfirmsIfTrue ctx ops (handle_user_ops_reverts_from_block ctx answers.requeue all split w)
  unfolding handle_user_ops_reverts_from_block
  handle_user_ops_reverts_from_block-Confirms all split w =
      let (valid, invalid) = simulate_block_execution answers.requeue.is_faulty all in
      and_then_lem (ConfirmsIfTrue ctx ops) (add_new_jobs answers.requeue (new_jobs split valid) w)
        _
        (λ _.
          and_then_lem (ConfirmsIfTrue ctx ops) (answers.requeue.update_data, _) _ (λ _. tt)
            (λ e. tt))
        (λ e. tt)

  fail_or_requeue-Confirms :
      (message : Text) (error : ExecutionError) (w : World)
      → ConfirmsIfTrue ctx ops (fail_or_requeue ctx attempts answers message error ops w)
  unfolding fail_or_requeue
  fail_or_requeue-Confirms message error w =
      elim (Bool-cases (is_block_gas_limit_exceeds error && (length ops == 1))) [
        | inl e ↦ rw e tt
        | inr e ↦
            rw e
              (handle_user_ops_reverts_from_block-Confirms ops (is_block_gas_limit_exceeds error) w)
      ]

  after_retry-Confirms :
      (r : ExecuteBlockResponse) (w : World)
      → ConfirmsIfTrue ctx ops (after_retry ctx attempts answers r ops w)
  unfolding after_retry
  after_retry-Confirms r w = elim (Option-cases (failed_with r)) [
    | inl e ↦ rw (e, after_retry) (handle_post_execution-Confirms r.tx_hash r.transaction_receipt w)
    | inr (error, e) ↦ elim (Bool-cases (is_not_retriable r.is_retriable_error)) [
      | inl f ↦ rw (e, after_retry) (rw f (fail_or_requeue-Confirms _ error w))
      | inr f ↦ rw (e, after_retry) (rw f tt)
    ]
  ]

  receipt_timed_out-Confirms :
      (error : ExecutionError) (tx_hash : Text) (w : World)
      → ConfirmsIfTrue ctx ops (receipt_timed_out ctx attempts answers error tx_hash ops w)
  unfolding receipt_timed_out
  receipt_timed_out-Confirms error tx_hash w =
      let job : MeeUserOpBatch = record {
        batch_gas_limit = total_gas_limit ops;
        mee_user_ops = ops;
        previous_tx_hash = some tx_hash;
      } in
      and_then_lem (ConfirmsIfTrue ctx ops)
        (with_nonces (record w { job = job })
          (get_nonce ctx.worker_address ctx.chain_id true answers.timeout_nonce w.nonces))
        (λ nonce w1. (
          thrown (
              error_of (
                due_to ctx attempts answers
                  (codes "Failed to fetch the transaction receipt, request timed out") error)),
          w1,
        ))
        (λ nonce. tt) (λ e. tt)

  -- What follows an execution decides.
  pub execute_then :
      (auths : List Text) (options : ExecuteOptions) (block : BlockAnswers) (w : World)
      (next : ExecuteBlockResponse → World → Step)
      → ((r : ExecuteBlockResponse) (w' : World) → ConfirmsIfTrue ctx ops (next r w'))
      → ConfirmsIfTrue ctx ops (and_then (execute_block ctx ops auths options block w) next)
  execute_then auths options block w next h =
      and_then_lem (ConfirmsIfTrue ctx ops) (execute_block ctx ops auths options block w) next
        (λ r. h r _) (λ e. tt)

  immediate_retry-Confirms :
      (error : ExecutionError) (options : ExecuteOptions) (w : World)
      → ConfirmsIfTrue ctx ops (immediate_retry ctx attempts answers error options ops w)
  unfolding immediate_retry
  immediate_retry-Confirms error options w =
      and_then_lem (ConfirmsIfTrue ctx ops)
        (with_nonces w (
          adjust_nonce_and_gas_by_error ctx error (bump_percentage attempts) options
            answers.retry_nonce answers.retry_fees w.nonces))
        (λ adjusted w1.
          and_then
            (execute_block ctx ops (authorization_list ops) (merge_options adjusted options)
              answers.retry_block w1)
            (λ r w2. after_retry ctx attempts answers r ops w2))
        (λ adjusted.
          execute_then (authorization_list ops) (merge_options adjusted options) answers.retry_block
            _ (λ r w2. after_retry ctx attempts answers r ops w2)
            (λ r w2. after_retry-Confirms r w2))
        (λ e. tt)

  pub after_execution-Confirms :
      (r : ExecuteBlockResponse) (options : ExecuteOptions) (w : World)
      → ConfirmsIfTrue ctx ops (after_execution ctx attempts answers r options ops w)
  unfolding after_execution
  after_execution-Confirms r options w = elim (Option-cases (failed_with r)) [
    | inl e ↦
        rw (e, after_execution) (handle_post_execution-Confirms r.tx_hash r.transaction_receipt w)
    | inr (error, e) ↦ elim (Bool-cases (is_not_retriable r.is_retriable_error)) [
      | inl f ↦ rw (e, after_execution) (rw f (fail_or_requeue-Confirms _ error w))
      | inr f ↦ elim (Option-cases (if is_timeout error then r.tx_hash else none)) [
        | inl g ↦ rw (e, after_execution) (rw f (rw g (immediate_retry-Confirms error options w)))
        | inr (tx_hash, g) ↦
            rw (e, after_execution) (rw f (rw g (receipt_timed_out-Confirms error tx_hash w)))
      ]
    ]
  ]
