-- ===== src/Simulator.antt =====
-- The simulator of orchestrator-node/src/modules/simulator: what its processor,
-- simulator.processor.ts, reads and changes.
pub mod Validation
pub mod ProcessJob
pub mod Endings
use composable_batch_erc.Common.{
  ℕ, zero, suc, Bool, true, List, [], ◌∷◌, ◌++◌, Option, none, some, Reply, ok, thrown,
}
use composable_batch_erc.Common.Text.{Text}
use composable_batch_erc.UserOps.Interfaces.{MeeUserOp}
use composable_batch_erc.Executor.Records.{Failure, unrecoverable}

-- An `isRetryJob` that is left out is false.
pub record SimulatorJobData : Type 0 where
  pub mee_user_op : MeeUserOp
  pub force_execute : Bool
  pub is_retry_job : Bool

pub record AccountValidationData : Type 0 where
  pub sig_failed : ℕ
  pub valid_after : ℕ
  pub valid_until : ℕ

pub record ExecSimulation : Type 0 where
  pub is_error : Bool
  pub error_message : Text

-- What `simulateSimulateHandleOp` throws, with its message: `[]` where it has none.
pub data ValidationFailure : Type 0 where
  something_went_wrong other_error : Text → ValidationFailure

-- The calls of the storage service. The last is the one that `trackSimulationTransactionData`
-- makes once it has the data.
pub data SimulatorCall : Type 0 where
  create_simulation_started_at : Text → ℕ → SimulatorCall
  create_error : Text → Text → SimulatorCall
  update_simulation_finished : (hash : Text) (attempts now : ℕ) → SimulatorCall
  create_transaction_data : Text → SimulatorCall

pub record AddedJob : Type 0 where
  pub data_of : SimulatorJobData
  pub delay : ℕ

-- What an attempt changes: the storage calls and the jobs in the simulator's queue, in order.
pub record SimulatorState : Type 0 where
  pub calls : List SimulatorCall
  pub added : List AddedJob

-- The settings and the clocks: `now` is `Date.now()`, the others are `unixTimestamp()` after the
-- validation and before the check of the deadline.
pub record SimulatorContext : Type 0 where
  pub now : ℕ
  pub validated_at : ℕ
  pub unix_timestamp : ℕ
  pub safe_window_before_exec_end : ℕ
  pub trace_call_retry_delay : ℕ

-- The answers of the calls, and when each of the concurrent ones settles.
pub record SimulatorAnswers : Type 0 where
  pub has_user_op : Reply Failure Bool
  pub has_user_op_at : ℕ
  pub validation : Reply ValidationFailure AccountValidationData
  pub validation_at : ℕ
  pub handle_ops : Reply Failure ExecSimulation
  pub handle_ops_at : ℕ
  pub add_job_failure : Option Failure

abbrev pub SimulatorStep : Type 0 → Type 0
SimulatorStep A = Reply Failure A × SimulatorState

-- `value || other` on an optional number.
abbrev pub or_default : Option ℕ → ℕ → ℕ
or_default none other = other
or_default (some zero) other = other
or_default (some (suc n)) other = suc n

abbrev pub retry_job : SimulatorJobData → ℕ → AddedJob
retry_job job delay = record { data_of = record job { is_retry_job = true }; delay = delay }

-- `addJob` with the retry flag, whose failure is the argument, and the `UnrecoverableError` that
-- follows when it succeeds.
unfoldable pub add_retry_job :
    {A : Type 0} → Option Failure → SimulatorJobData → ℕ → SimulatorState → SimulatorStep A
add_retry_job none job delay s =
    (thrown (unrecoverable []), record s { added = s.added ++ retry_job job delay ∷ [] })
add_retry_job (some e) job delay s = (thrown e, s)

unfoldable pub requeue :
    {A : Type 0} → SimulatorAnswers → SimulatorJobData → ℕ → SimulatorState → SimulatorStep A
unfolding add_retry_job
requeue answers job delay s = add_retry_job answers.add_job_failure job delay s

-- The error field, the tracking, and the `UnrecoverableError`.
unfoldable pub fail_op : {A : Type 0} → SimulatorJobData → Text → SimulatorState → SimulatorStep A
fail_op job error s =
    let hash = job.mee_user_op.mee_user_op_hash in
    (
      thrown (unrecoverable []),
      record s { calls = s.calls ++ create_error hash error ∷ create_transaction_data hash ∷ [] },
    )
