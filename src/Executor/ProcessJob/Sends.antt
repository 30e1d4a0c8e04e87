-- ===== src/Executor/ProcessJob/Sends.antt =====
-- Which transactions one attempt of a job sends.
use composable_batch_erc.Common.{
  ℕ, ◌≡◌, refl, subst, Reply-cases, sym, false, List, [], ◌∷◌, some, arith, Option-cases, inl, inr,
  ok, thrown, Bool, true, Bool-cases, ◌⊎◌, if◌then◌else◌,
}
use composable_batch_erc.Common.Text.{Text}
use composable_batch_erc.UserOps.Interfaces.{MeeUserOp, MeeUserOpBatch}
use composable_batch_erc.Executor.Records.{
  Receipt, Sent, Context, World, call_storage, and_then, and_then_lem, with_nonces,
}
use composable_batch_erc.NonceManager.{get_nonce}
use composable_batch_erc.Executor.Start.{authorization_list, started_calls}
use composable_batch_erc.Executor.Reverts.{validate_mee_user_op_timebounds}
use composable_batch_erc.Executor.Reverts.Requeue.{handle_user_ops_reverts_from_block-shares}
use composable_batch_erc.Executor.Block.{execute_block}
use composable_batch_erc.Executor.AfterExecution.{
  JobAnswers, Step, handle_post_execution, after_execution,
}
use composable_batch_erc.Executor.ProcessJob.{
  first_options, forget_previous, execute_user_ops, execute_valid, handle_failure, fresh_execution,
  finish_previous, process_job, or_fresh,
}
use composable_batch_erc.Executor.AfterExecution.Sends.{
  SendsAtMost, none_sent, handle_user_ops_reverts_from_block-sent, execute_then,
  after_execution-sends,
}

module _ (ctx : Context) (attempts : ℕ) (answers : JobAnswers) where
  execute_user_ops-sends :
      (ops : List MeeUserOp) (w : World)
      → SendsAtMost 2 ops w.sent (execute_user_ops ctx attempts answers ops w).1.sent
  unfolding execute_user_ops
  execute_user_ops-sends ops w =
      let w' = call_storage (started_calls ctx ops) w in
      let (nonce, nonces) =
        get_nonce ctx.worker_address ctx.chain_id false answers.rpc_nonce w'.nonces in
      and_then_lem (λ s. SendsAtMost 2 ops w.sent s.1.sent)
        (with_nonces w' (first_options ctx attempts answers answers.fees nonce, nonces))
        (λ options w1.
          and_then (execute_block ctx ops (authorization_list ops) options answers.first_block w1)
            (λ r w2. after_execution ctx attempts answers r options ops w2))
        (λ options.
          execute_then ctx attempts answers ops 1 (authorization_list ops) options
            answers.first_block _ (λ r w2. after_execution ctx attempts answers r options ops w2)
            (λ r w2. after_execution-sends ctx attempts answers ops r options w2))
        (λ e. none_sent 2 ops w.sent w.sent refl)

  execute_valid-sends :
      (valid expired : List MeeUserOp) (w : World)
      → SendsAtMost 2 valid w.sent (execute_valid ctx attempts answers valid expired w).1.sent
  unfolding execute_valid
  execute_valid-sends valid [] w = execute_user_ops-sends valid w
  execute_valid-sends [] (op ∷ expired) w = none_sent 2 [] w.sent w.sent refl
  execute_valid-sends (v ∷ valid) (op ∷ expired) w = execute_user_ops-sends (v ∷ valid) _

  handle_failure-sent :
      (ops : List MeeUserOp) (step : Step)
      → (handle_failure ctx attempts answers ops step).1.sent ≡ step.1.sent
  unfolding handle_failure
  handle_failure-sent ops (ok b, w) = refl
  handle_failure-sent ops (thrown e, w) = ground arith

  fresh_execution-sends :
      (ops : List MeeUserOp) (w : World)
      → SendsAtMost 2
          (validate_mee_user_op_timebounds ctx ops).0
          w.sent
          (fresh_execution ctx attempts answers ops w).1.sent
  unfolding fresh_execution
  fresh_execution-sends ops w =
      let (valid, expired) = validate_mee_user_op_timebounds ctx ops in
      subst (SendsAtMost 2 valid w.sent) (sym (handle_failure-sent valid _))
        (execute_valid-sends valid expired w)

  finish_previous-sent :
      (tx_hash : Text) (receipt : Receipt) (w : World)
      → (finish_previous ctx attempts answers tx_hash receipt w).1.sent ≡ w.sent
  unfolding finish_previous handle_post_execution
  finish_previous-sent tx_hash receipt w = ground (
    arith,
    handle_user_ops_reverts_from_block-sent ctx attempts answers w.job.mee_user_ops false w,
  )

  or_fresh-sends :
      (ops : List MeeUserOp) (sent : List Sent) (step : Step)
      → step.1.sent ≡ sent
      → SendsAtMost 2
          (validate_mee_user_op_timebounds ctx ops).0
          sent
          (or_fresh ctx attempts answers ops step).1.sent
  unfolding or_fresh
  or_fresh-sends ops sent (ok b, w) h = none_sent 2 _ sent w.sent h
  or_fresh-sends ops sent (thrown e, w) h =
      subst
        (λ l.
          SendsAtMost 2 (validate_mee_user_op_timebounds ctx ops).0 l
            (fresh_execution ctx attempts answers ops
              (forget_previous ctx attempts answers w)).1.sent)
        h (fresh_execution-sends ops (forget_previous ctx attempts answers w))

  -- One attempt of a job asks the RPC manager at most twice to send a transaction, and each time it
  -- carries exactly those user operations of the job that are not past their upper bound. The RPC
  -- manager may try several providers for each.
  pub process_job-sends :
      (w : World)
      → SendsAtMost 2
          (validate_mee_user_op_timebounds ctx w.job.mee_user_ops).0
          w.sent
          (process_job ctx attempts answers w).1.sent
  unfolding process_job
  process_job-sends w = elim (Option-cases w.job.previous_tx_hash) [
    | inl e ↦ rw (e, process_job) (fresh_execution-sends w.job.mee_user_ops w)
    | inr (tx_hash, e) ↦ elim (Reply-cases answers.previous_receipt) [
      | inl (receipt, f) ↦
          rw (e, process_job)
            (rw f
              (or_fresh-sends w.job.mee_user_ops w.sent _ (finish_previous-sent tx_hash receipt w)))
      | inr (failure, f) ↦
          rw (e, process_job)
            (rw f
              (fresh_execution-sends w.job.mee_user_ops (forget_previous ctx attempts answers w)))
    ]
  ]

  -- The services take what the handling of a reverted block gives them.
  finish_previous-returns :
      (tx_hash : Text) (receipt : Receipt) (w : World)
      → (receipt.is_reverted ≡ false)
        ⊎ (((new : List MeeUserOpBatch) → answers.requeue.add_jobs new ≡ (new, ok tt))
            × (answers.requeue.update_data ≡ ok tt))
      → (finish_previous ctx attempts answers tx_hash receipt w).0
        ≡ ok (if receipt.is_reverted then false else true)
  unfolding finish_previous handle_post_execution
  finish_previous-returns tx_hash receipt w (inl mined) = rw mined refl
  finish_previous-returns tx_hash receipt w (inr (taken, updated)) =
      elim (Bool-cases receipt.is_reverted) [
        | inl e ↦
            rw e
              (handle_user_ops_reverts_from_block-shares ctx answers.requeue w.job.mee_user_ops
                false w taken updated).0
        | inr e ↦ rw e refl
      ]

  or_fresh-returned :
      (ops : List MeeUserOp) (step : Step) (b : Bool)
      → step.0 ≡ ok b
      → or_fresh ctx attempts answers ops step ≡ step
  unfolding or_fresh
  or_fresh-returned ops (ok a, w) b h = refl
  or_fresh-returned ops (thrown e, w) b h = absurd (cc h)

  -- A job whose previous transaction has a receipt sends nothing and returns, true exactly if the
  -- receipt is not reverted: the block is not executed again. If it is reverted, the queue has to
  -- take the new jobs and the job its new data.
  pub process_job-previous_receipt :
      (w : World) (tx_hash : Text) (receipt : Receipt)
      → w.job.previous_tx_hash ≡ some tx_hash
      → answers.previous_receipt ≡ ok receipt
      → (receipt.is_reverted ≡ false)
        ⊎ (((new : List MeeUserOpBatch) → answers.requeue.add_jobs new ≡ (new, ok tt))
            × (answers.requeue.update_data ≡ ok tt))
      → ((process_job ctx attempts answers w).1.sent ≡ w.sent)
        × ((process_job ctx attempts answers w).0
            ≡ ok (if receipt.is_reverted then false else true))
  unfolding process_job
  process_job-previous_receipt w tx_hash receipt h k taken =
      let returned = finish_previous-returns tx_hash receipt w taken in
      rw (h, process_job)
        (rw k (
          rw
            (or_fresh-returned w.job.mee_user_ops
              (finish_previous ctx attempts answers tx_hash receipt w) _ returned)
            (finish_previous-sent tx_hash receipt w, returned)))
