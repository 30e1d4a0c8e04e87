-- ===== src/Executor/ProcessJob/Confirms.antt =====
-- What an attempt of a job that returns true has written.
use composable_batch_erc.Common.{
  ◌≡◌, ℕ, Bool, true, false, List, [], ◌∷◌, some, Bool-cases, Option-cases, Reply-cases, inl, inr,
  ok, thrown, All,
}
use composable_batch_erc.Common.Text.{Text}
use composable_batch_erc.UserOps.Interfaces.{MeeUserOp}
use composable_batch_erc.NonceManager.{get_nonce}
use composable_batch_erc.Executor.Records.{
  Receipt, Context, World, call_storage, and_then, and_then_lem, with_nonces,
}
use composable_batch_erc.Executor.Confirmation.Updates.{
  IsSettledBy, handle_supertransaction_execution_result-settles,
}
use composable_batch_erc.Executor.Start.{authorization_list, started_calls}
use composable_batch_erc.Executor.Reverts.{split_by, validate_mee_user_op_timebounds}
use composable_batch_erc.Executor.Block.{execute_block}
use composable_batch_erc.Executor.AfterExecution.{
  JobAnswers, Step, handle_post_execution, after_execution,
}
use composable_batch_erc.Executor.ProcessJob.{
  first_options, execute_user_ops, execute_valid, handle_failure, fresh_execution, finish_previous,
  forget_previous, process_job, or_fresh,
}
use composable_batch_erc.Executor.AfterExecution.Confirms.{
  ConfirmsIfTrue, execute_then, after_execution-Confirms,
  handle_user_ops_reverts_from_block-Confirms,
}

split_by-All :
    (P : MeeUserOp → Type 0) (is_bad : MeeUserOp → Bool) (ops : List MeeUserOp)
    → All P ops
    → All P (split_by is_bad ops).0
unfolding split_by
split_by-All P is_bad [] h = tt
split_by-All P is_bad (op ∷ ops) (p, h) = elim (Bool-cases (is_bad op)) [
  | inl e ↦ rw e (split_by-All P is_bad ops h)
  | inr e ↦ rw e (p, split_by-All P is_bad ops h)
]

module _ (ctx : Context) (attempts : ℕ) (answers : JobAnswers) (ops : List MeeUserOp) where
  execute_user_ops-Confirms :
      (w : World) → ConfirmsIfTrue ctx ops (execute_user_ops ctx attempts answers ops w)
  unfolding execute_user_ops
  execute_user_ops-Confirms w =
      let w' = call_storage (started_calls ctx ops) w in
      let (nonce, nonces) =
        get_nonce ctx.worker_address ctx.chain_id false answers.rpc_nonce w'.nonces in
      and_then_lem (ConfirmsIfTrue ctx ops)
        (with_nonces w' (first_options ctx attempts answers answers.fees nonce, nonces))
        (λ options w1.
          and_then (execute_block ctx ops (authorization_list ops) options answers.first_block w1)
            (λ r w2. after_execution ctx attempts answers r options ops w2))
        (λ options.
          execute_then ctx attempts answers ops (authorization_list ops) options answers.first_block
            _ (λ r w2. after_execution ctx attempts answers r options ops w2)
            (λ r w2. after_execution-Confirms ctx attempts answers ops r options w2))
        (λ e. tt)

  handle_failure-Confirms :
      (step : Step)
      → ConfirmsIfTrue ctx ops step
      → ConfirmsIfTrue ctx ops (handle_failure ctx attempts answers ops step)
  unfolding handle_failure
  handle_failure-Confirms (ok b, w) h = h
  handle_failure-Confirms (thrown e, w) h = tt

module _ (ctx : Context) (attempts : ℕ) (answers : JobAnswers) where
  execute_valid-Confirms :
      (valid expired : List MeeUserOp) (w : World)
      → ConfirmsIfTrue ctx valid (execute_valid ctx attempts answers valid expired w)
  unfolding execute_valid
  execute_valid-Confirms valid [] w = execute_user_ops-Confirms ctx attempts answers valid w
  execute_valid-Confirms [] (op ∷ expired) w = tt
  execute_valid-Confirms (v ∷ valid) (op ∷ expired) w =
      execute_user_ops-Confirms ctx attempts answers (v ∷ valid) _

  fresh_execution-Confirms :
      (ops : List MeeUserOp) (w : World)
      → ConfirmsIfTrue ctx
          (validate_mee_user_op_timebounds ctx ops).0
          (fresh_execution ctx attempts answers ops w)
  unfolding fresh_execution
  fresh_execution-Confirms ops w =
      let (valid, expired) = validate_mee_user_op_timebounds ctx ops in
      handle_failure-Confirms ctx attempts answers valid
        (execute_valid ctx attempts answers valid expired w)
        (execute_valid-Confirms valid expired w)

  finish_previous-Confirms :
      (tx_hash : Text) (receipt : Receipt) (w : World)
      → ConfirmsIfTrue ctx
          (validate_mee_user_op_timebounds ctx w.job.mee_user_ops).0
          (finish_previous ctx attempts answers tx_hash receipt w)
  unfolding finish_previous handle_post_execution validate_mee_user_op_timebounds
  finish_previous-Confirms tx_hash receipt w = elim (Bool-cases receipt.is_reverted) [
    | inl e ↦
        rw (e, finish_previous)
          (handle_user_ops_reverts_from_block-Confirms ctx attempts answers
            (validate_mee_user_op_timebounds ctx w.job.mee_user_ops).0 w.job.mee_user_ops false w)
    | inr e ↦
        rw (e, finish_previous)
          (
            tx_hash,
            split_by-All _ _ w.job.mee_user_ops (
                handle_supertransaction_execution_result-settles ctx tx_hash true w.job.mee_user_ops
                  (some receipt) w),
          )
  ]

  or_fresh-Confirms :
      (ops : List MeeUserOp) (step : Step)
      → ConfirmsIfTrue ctx (validate_mee_user_op_timebounds ctx ops).0 step
      → ConfirmsIfTrue ctx
          (validate_mee_user_op_timebounds ctx ops).0
          (or_fresh ctx attempts answers ops step)
  unfolding or_fresh
  or_fresh-Confirms ops (ok b, w) h = h
  or_fresh-Confirms ops (thrown e, w) h = fresh_execution-Confirms ops _

  process_job-ConfirmsIfTrue :
      (w : World)
      → ConfirmsIfTrue ctx
          (validate_mee_user_op_timebounds ctx w.job.mee_user_ops).0
          (process_job ctx attempts answers w)
  unfolding process_job
  process_job-ConfirmsIfTrue w = elim (Option-cases w.job.previous_tx_hash) [
    | inl e ↦ rw (e, process_job) (fresh_execution-Confirms w.job.mee_user_ops w)
    | inr (tx_hash, e) ↦ elim (Reply-cases answers.previous_receipt) [
      | inl (receipt, f) ↦
          rw (e, process_job)
            (rw f
              (or_fresh-Confirms w.job.mee_user_ops _ (finish_previous-Confirms tx_hash receipt w)))
      | inr (failure, f) ↦
          rw (e, process_job)
            (rw f (
              fresh_execution-Confirms w.job.mee_user_ops (forget_previous ctx attempts answers w)))
    ]
  ]

  ConfirmsIfTrue-true :
      (ops : List MeeUserOp) (step : Step)
      → ConfirmsIfTrue ctx ops step
      → step.0 ≡ ok true
      → (tx_hash : Text) × All
          (λ op. IsSettledBy ctx tx_hash true step.1.calls op.mee_user_op_hash)
          ops
  ConfirmsIfTrue-true ops (ok true, w) c h = c
  ConfirmsIfTrue-true ops (ok false, w) c h = cc
  ConfirmsIfTrue-true ops (thrown e, w) c h = cc

  -- When an attempt returns true, one transaction settles every user operation of the job that was
  -- not past its upper bound: each has that transaction's hash, the time at which it finished and
  -- the mark that it is confirmed.
  pub process_job-Confirms :
      (w : World)
      → (process_job ctx attempts answers w).0 ≡ ok true
      → (tx_hash : Text) × All
          (λ op.
            IsSettledBy ctx tx_hash true
              (process_job ctx attempts answers w).1.calls
              op.mee_user_op_hash)
          (validate_mee_user_op_timebounds ctx w.job.mee_user_ops).0
  process_job-Confirms w h = ConfirmsIfTrue-true _ _ (process_job-ConfirmsIfTrue w) h
