-- ===== src/Executor/Reverts.antt =====
-- `handleUserOpsRevertsFromBlock`, `simulateBlockExecution` and `validateMeeUserOpTimebounds` of
-- orchestrator-node/src/modules/executor/executor.processor.ts. What the entry
-- point service, the queue and the job answer is an argument, `RequeueAnswers`.
pub mod Requeue
use composable_batch_erc.Common.{
  ℕ, Bool, true, false, List, [], ◌∷◌, ◌++◌, Option, none, some, if◌then◌else◌, ltb, map, Reply, ok,
  thrown,
}
use composable_batch_erc.Common.Text.{Text, codes}
use composable_batch_erc.UserOps.Interfaces.{MeeUserOp, MeeUserOpBatch}
use composable_batch_erc.Executor.Records.{
  StorageCall, update_fields, no_fields, World, Context, total_gas_limit, Failure, and_then,
}

-- The two lists that a check splits a block into: those that pass and those that do not.
unfoldable pub split_by : (MeeUserOp → Bool) → List MeeUserOp → List MeeUserOp × List MeeUserOp
split_by is_bad [] = ([], [])
split_by is_bad (op ∷ ops) =
    let (good, bad) = split_by is_bad ops in
    if is_bad op then (good, op ∷ bad) else (op ∷ good, bad)

-- `{ validMeeUserOps, expiredMeeUserOps }`.
unfoldable pub validate_mee_user_op_timebounds :
    Context → List MeeUserOp → List MeeUserOp × List MeeUserOp
unfolding split_by
validate_mee_user_op_timebounds ctx =
    split_by (λ op. ltb op.upper_bound_timestamp ctx.unix_timestamp)

-- `{ validMeeUserOps, invalidMeeUserOps }`.
unfoldable pub simulate_block_execution :
    (MeeUserOp → Bool) → List MeeUserOp → List MeeUserOp × List MeeUserOp
unfolding split_by
simulate_block_execution is_faulty = split_by is_faulty

unfoldable pub new_block : List MeeUserOp → MeeUserOpBatch
unfolding total_gas_limit
new_block ops = record {
  batch_gas_limit = total_gas_limit ops;
  mee_user_ops = ops;
  previous_tx_hash = none;
}

unfoldable pub single_block : MeeUserOp → MeeUserOpBatch
single_block op = record {
  batch_gas_limit = op.max_gas_limit;
  mee_user_ops = op ∷ [];
  previous_tx_hash = none;
}

-- The jobs that are added for the valid user operations.
unfoldable pub new_jobs : Bool → List MeeUserOp → List MeeUserOpBatch
unfolding new_block single_block
new_jobs split [] = []
new_jobs true (op ∷ ops) = map single_block (op ∷ ops)
new_jobs false (op ∷ ops) = new_block (op ∷ ops) ∷ []

-- `updateUserOpCustomFields` on each user operation of a list.
unfoldable pub fail_all : Text → ℕ → List MeeUserOp → List StorageCall
fail_all error now [] = []
fail_all error now (op ∷ ops) =
    update_fields op.mee_user_op_hash
      (record no_fields { error = some error; execution_finished_at = some now })
    ∷ fail_all error now ops

-- What `simulateHandleOps` says of a user operation, which jobs `addJobs` adds and whether it throws,
-- and whether `job.updateData` does.
pub record RequeueAnswers : Type 0 where
  pub is_faulty : MeeUserOp → Bool
  pub add_jobs : List MeeUserOpBatch → List MeeUserOpBatch × Reply Failure (Unit {0})
  pub update_data : Reply Failure (Unit {0})

-- Without a valid user operation nothing is added.
unfoldable pub add_new_jobs :
    RequeueAnswers → List MeeUserOpBatch → World → Reply Failure (Unit {0}) × World
add_new_jobs answers [] w = (ok tt, w)
add_new_jobs answers (block ∷ blocks) w =
    let (added, reply) = answers.add_jobs (block ∷ blocks) in
    (reply, record w { added_jobs = w.added_jobs ++ added })

-- The flag is `splitUserOpsIntoSeparateBlocks`. `job.updateData` replaces the whole data, so the
-- job has no `previousTxHash` afterwards, be it set to undefined (`removePreviousTxHash`) or left
-- out. Where a call throws, what was done before it stays.
unfoldable pub handle_user_ops_reverts_from_block :
    Context → RequeueAnswers → List MeeUserOp → Bool → World → Reply Failure Bool × World
unfolding simulate_block_execution new_jobs fail_all total_gas_limit and_then add_new_jobs
handle_user_ops_reverts_from_block ctx answers ops split w =
    let (valid, invalid) = simulate_block_execution answers.is_faulty ops in
    and_then (add_new_jobs answers (new_jobs split valid) w) (λ _ w1.
      and_then (answers.update_data, w1)
        (λ _ w2. (
          ok false,
          record w2 {
            job = record {
              batch_gas_limit = total_gas_limit invalid;
              mee_user_ops = invalid;
              previous_tx_hash = none;
            };
            calls = w2.calls ++ fail_all (codes "UserOperation reverted") ctx.now invalid;
          },
        )))
