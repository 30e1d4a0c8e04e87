-- ===== src/Witnesses/Execution.antt =====
-- The executor, the batcher and the nonces at concrete inputs.
use mathlib.Core.List.{Perm}
use composable_batch_erc.Common.{
  ◌∷◌, ◌≡◌, refl, true, false, ◌||◌, List, [], ◌++◌, none, some, ok, All, if◌then◌else◌, inr,
}
use composable_batch_erc.Common.Text.{Text, codes}
use composable_batch_erc.UserOps.Interfaces.{MeeUserOp, MeeUserOpBatch}
use composable_batch_erc.NonceManager.{get_nonce}
use composable_batch_erc.Common.Assoc.{lookup}
use composable_batch_erc.Executor.ParseError.{gas_price_too_low}
use composable_batch_erc.Executor.Records.{ExecuteOptions}
use composable_batch_erc.Executor.Retry.{Fees, is_replacement_too_low}
use composable_batch_erc.Executor.Block.{ExecuteBlockResponse, execute_block, send_block}
use composable_batch_erc.Executor.Block.Response.{IsSound, execute_block-IsSound}
use composable_batch_erc.Executor.Block.Nonce.{
  send_block-tracked, has_first_receipt, has_default_receipt,
}
use composable_batch_erc.Executor.Confirmation.{handle_supertransaction_execution_result}
use composable_batch_erc.Executor.Confirmation.Updates.{
  IsSettledBy, handle_supertransaction_execution_result-settles,
}
use composable_batch_erc.Executor.Reverts.{
  handle_user_ops_reverts_from_block, validate_mee_user_op_timebounds,
}
use composable_batch_erc.Executor.Reverts.Requeue.{
  all_user_ops, AllTest, IsExact, handle_user_ops_reverts_from_block-shares,
}
use composable_batch_erc.Executor.AfterExecution.{JobAnswers}
use composable_batch_erc.Executor.ProcessJob.{process_job, is_last_execution_attempt}
use composable_batch_erc.Executor.AfterExecution.Sends.{SendsAtMost}
use composable_batch_erc.Executor.ProcessJob.Sends.{process_job-sends, process_job-previous_receipt}
use composable_batch_erc.Executor.ProcessJob.Confirms.{process_job-Confirms}
use composable_batch_erc.Executor.ProcessJob.Outcome.{
  IsFinalFailure, AllFailed, process_job-AllFailed,
}
use composable_batch_erc.NonceManager.{tracked}
use composable_batch_erc.Witnesses.Samples.{
  mined, expired_op, valid_op, both_ops, sample_context, no_nonces, job_after, sample_receipt,
  fast_block, retried, without_fees, sample_options,
}

process_job-sends_example :
    SendsAtMost 2
      (validate_mee_user_op_timebounds sample_context both_ops).0
      []
      (process_job sample_context 0 retried (job_after none)).1.sent
process_job-sends_example = process_job-sends sample_context 0 retried (job_after none)

succeeds : (process_job sample_context 0 mined (job_after none)).0 ≡ ok true
unfolding process_job get_nonce lookup
succeeds = refl

process_job-Confirms_example :
    (tx_hash : Text) × All
      (λ op.
        IsSettledBy sample_context tx_hash true
          (process_job sample_context 0 mined (job_after none)).1.calls
          op.mee_user_op_hash)
      (validate_mee_user_op_timebounds sample_context both_ops).0
process_job-Confirms_example = process_job-Confirms sample_context 0 mined (job_after none) succeeds

-- The previous transaction is mined and reverted.
abbrev reverted_before : JobAnswers
reverted_before = record retried {
  previous_receipt = ok (record sample_receipt { is_reverted = true });
}

process_job-previous_receipt_example :
    ((process_job sample_context 1 reverted_before (job_after (some (codes "0xtx")))).1.sent ≡ [])
    × ((process_job sample_context 1 reverted_before (job_after (some (codes "0xtx")))).0
        ≡ ok false)
process_job-previous_receipt_example =
    process_job-previous_receipt sample_context 1 reverted_before (job_after (some (codes "0xtx")))
      (codes "0xtx") (record sample_receipt { is_reverted = true }) refl refl
      (inr ((λ new. refl), refl))

abbrev authorized : List MeeUserOp
authorized =
    record valid_op { eip7702_auth = some (codes "auth") }
    ∷ record expired_op { eip7702_auth = some (codes "auth") }
    ∷ []

-- The last of three attempts, without gas conditions, fails for good.
fails :
    IsFinalFailure sample_context 2 without_fees
      (process_job sample_context 2 without_fees (job_after none))
unfolding process_job is_last_execution_attempt
fails = refl

process_job-AllFailed_example :
    AllFailed sample_context 2 without_fees
      (validate_mee_user_op_timebounds sample_context both_ops).0
      (process_job sample_context 2 without_fees (job_after none))
process_job-AllFailed_example =
    process_job-AllFailed sample_context 2 without_fees (job_after none) fails

handle_user_ops_reverts_from_block-shares_example :
    let (reply, w') =
      handle_user_ops_reverts_from_block sample_context retried.requeue both_ops true
        (job_after none) in
    (reply ≡ ok false)
    × ((new : List MeeUserOpBatch) × (w'.added_jobs ≡ [] ++ new)
        × Perm (all_user_ops new ++ w'.job.mee_user_ops) both_ops
        × AllTest retried.requeue.is_faulty false (all_user_ops new)
        × AllTest retried.requeue.is_faulty true w'.job.mee_user_ops
        × All IsExact new
        × IsExact w'.job
        × (w'.job.previous_tx_hash ≡ none))
handle_user_ops_reverts_from_block-shares_example =
    handle_user_ops_reverts_from_block-shares sample_context retried.requeue both_ops true
      (job_after none) (λ new. refl) refl

handle_supertransaction_execution_result-settles_example :
    All
      (λ op.
        IsSettledBy sample_context
          (codes "0xtx")
          true
          (handle_supertransaction_execution_result sample_context
            (codes "0xtx")
            true
            both_ops
            (some sample_receipt)
            (job_after none)).calls
          op.mee_user_op_hash)
      both_ops
handle_supertransaction_execution_result-settles_example =
    handle_supertransaction_execution_result-settles sample_context (codes "0xtx") true both_ops
      (some sample_receipt) (job_after none)

abbrev mined_response : ExecuteBlockResponse
mined_response = record {
  transaction_receipt = some sample_receipt;
  tx_hash = some (codes "0xtx");
  is_error = false;
  error_type = none;
  is_retriable_error = none;
}

responds :
    (execute_block sample_context both_ops [] sample_options fast_block (job_after none)).0
    ≡ ok mined_response
unfolding execute_block
responds = refl

execute_block-IsSound_example : IsSound mined_response
execute_block-IsSound_example =
    execute_block-IsSound sample_context both_ops [] sample_options fast_block (job_after none)
      mined_response responds

send_block-tracked_example :
    let mined = has_first_receipt true fast_block || has_default_receipt true fast_block in
    let nonces = (send_block sample_context both_ops 7 fast_block true (job_after none)).1.nonces in
    let now_tracked = tracked (codes "0xWorker") (codes "8453") in
    (now_tracked nonces.used_nonce_tracker_by_chain
      ≡ (if mined then some 7 else now_tracked no_nonces.used_nonce_tracker_by_chain))
    × (now_tracked nonces.unused_nonce_tracker_by_chain
        ≡ (if mined then some 8 else now_tracked no_nonces.unused_nonce_tracker_by_chain))
send_block-tracked_example =
    send_block-tracked sample_context both_ops 7 fast_block true (job_after none)

abbrev current_fees : Fees
current_fees = record { max_fee_per_gas = 110; max_priority_fee_per_gas = 3 }

abbrev raised : ExecuteOptions
raised = record { max_fee_per_gas = 132; max_priority_fee_per_gas = 3; nonce = 8 }

not_replacement : is_replacement_too_low gas_price_too_low ≡ false
unfolding is_replacement_too_low
not_replacement = refl
