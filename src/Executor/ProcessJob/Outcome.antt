-- ===== src/Executor/ProcessJob/Outcome.antt =====
-- How one attempt of a job ends.
use composable_batch_erc.Common.{
  ℕ, ◌≡◌, ◌⊎◌, refl, true, List, [], ◌∷◌, ◌++◌, some, Option-cases, Reply-cases, inl, inr, ok,
  thrown, All, All-map,
}
use composable_batch_erc.Common.Text.{Text}
use composable_batch_erc.Errors.Sanitize.{sanitize_url}
use composable_batch_erc.UserOps.Interfaces.{MeeUserOp}
use composable_batch_erc.Executor.Records.{
  StorageCall, update_fields, create_execution_started_at, Context, World,
}
use composable_batch_erc.Executor.Reverts.{validate_mee_user_op_timebounds, fail_all}
use composable_batch_erc.Executor.AfterExecution.{JobAnswers, Step}
use composable_batch_erc.Executor.ProcessJob.{
  error_message, is_last_execution_attempt, handle_failure, fresh_execution, finish_previous,
  process_job, forget_previous, or_fresh,
}

-- The call that marks the user operation `hash` as failed with this error.
abbrev pub Fails : Text → ℕ → Text → StorageCall → Type 0
Fails error now hash (create_execution_started_at h t) = ⊥
Fails error now hash (update_fields h fields) =
    (h ≡ hash) × (fields.error ≡ some error) × (fields.execution_finished_at ≡ some now)

-- One of the calls does.
abbrev pub IsFailedBy : Text → ℕ → List StorageCall → Text → Type 0
IsFailedBy error now [] hash = ⊥
IsFailedBy error now (call ∷ calls) hash =
    Fails error now hash call ⊎ IsFailedBy error now calls hash

IsFailedBy-right :
    (error : Text) (now : ℕ) (earlier calls : List StorageCall) (hash : Text)
    → IsFailedBy error now calls hash
    → IsFailedBy error now (earlier ++ calls) hash
IsFailedBy-right error now [] calls hash h = h
IsFailedBy-right error now (call ∷ earlier) calls hash h =
    inr (IsFailedBy-right error now earlier calls hash h)

fail_all-IsFailedBy :
    (error : Text) (now : ℕ) (ops : List MeeUserOp)
    → All (λ op. IsFailedBy error now (fail_all error now ops) op.mee_user_op_hash) ops
unfolding fail_all
fail_all-IsFailedBy error now [] = tt
fail_all-IsFailedBy error now (op ∷ ops) =
    (inl (refl, refl, refl), All-map _ _ (λ op' h. inr h) ops (fail_all-IsFailedBy error now ops))

module _ (ctx : Context) (attempts : ℕ) (answers : JobAnswers) where
  -- The attempt threw, and the queue will not retry the job.
  abbrev pub IsFinalFailure : Step → Type 0
  IsFinalFailure (ok b, w) = ⊥
  IsFinalFailure (thrown e, w) = is_last_execution_attempt ctx attempts answers e ≡ true

  -- Each of the user operations has the failure's message, without URLs, as its error.
  abbrev pub AllFailed : List MeeUserOp → Step → Type 0
  AllFailed ops (ok b, w) = ⊥
  AllFailed ops (thrown e, w) =
      All
        (λ op.
          IsFailedBy (sanitize_url (error_message ctx attempts answers e)) ctx.now w.calls
            op.mee_user_op_hash)
        ops

  handle_failure-AllFailed :
      (ops : List MeeUserOp) (step : Step)
      → IsFinalFailure (handle_failure ctx attempts answers ops step)
      → AllFailed ops (handle_failure ctx attempts answers ops step)
  unfolding handle_failure
  handle_failure-AllFailed ops (ok b, w) h = absurd h
  handle_failure-AllFailed ops (thrown e, w) h =
      let message = sanitize_url (error_message ctx attempts answers e) in
      rw h (
        All-map _ _ (λ op k. IsFailedBy-right message ctx.now w.calls _ op.mee_user_op_hash k) ops
          (fail_all-IsFailedBy message ctx.now ops))

  fresh_execution-AllFailed :
      (ops : List MeeUserOp) (w : World)
      → IsFinalFailure (fresh_execution ctx attempts answers ops w)
      → AllFailed
          (validate_mee_user_op_timebounds ctx ops).0
          (fresh_execution ctx attempts answers ops w)
  unfolding fresh_execution
  fresh_execution-AllFailed ops w h = handle_failure-AllFailed _ _ h

  or_fresh-AllFailed :
      (ops : List MeeUserOp) (step : Step)
      → IsFinalFailure (or_fresh ctx attempts answers ops step)
      → AllFailed
          (validate_mee_user_op_timebounds ctx ops).0
          (or_fresh ctx attempts answers ops step)
  unfolding or_fresh
  or_fresh-AllFailed ops (ok b, w) h = absurd h
  or_fresh-AllFailed ops (thrown e, w) h = fresh_execution-AllFailed ops _ h

  -- When an attempt fails for good, be it the last one or the failure unrecoverable, every user
  -- operation of the job that was not past its upper bound is marked as failed, with the time and
  -- with the message that `sanitizeUrl` made of the failure's.
  pub process_job-AllFailed :
      (w : World)
      → IsFinalFailure (process_job ctx attempts answers w)
      → AllFailed
          (validate_mee_user_op_timebounds ctx w.job.mee_user_ops).0
          (process_job ctx attempts answers w)
  unfolding process_job
  process_job-AllFailed w = elim (Option-cases w.job.previous_tx_hash) [
    | inl e ↦ rw (e, process_job) (fresh_execution-AllFailed w.job.mee_user_ops w)
    | inr (tx_hash, e) ↦ elim (Reply-cases answers.previous_receipt) [
      | inl (receipt, f) ↦
          rw (e, process_job)
            (rw f (
              or_fresh-AllFailed w.job.mee_user_ops
                (finish_previous ctx attempts answers tx_hash receipt w)))
      | inr (failure, f) ↦
          rw (e, process_job)
            (rw f (
              fresh_execution-AllFailed w.job.mee_user_ops
                (forget_previous ctx attempts answers w)))
    ]
  ]
