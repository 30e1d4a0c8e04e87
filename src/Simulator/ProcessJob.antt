-- ===== src/Simulator/ProcessJob.antt =====
-- `processJob` of orchestrator-node/src/modules/simulator/simulator.processor.ts.
pub mod Outcome
pub mod Retry
use composable_batch_erc.Common.{
  ℕ, ◌+◌, Bool, true, false, not, ◌&&◌, List, [], ◌∷◌, ◌++◌, Option, none, some, Reply, ok, thrown,
  if◌then◌else◌, ltb, leb, ◌==◌,
}
use composable_batch_erc.Common.Text.{codes}
use composable_batch_erc.Executor.Records.{Failure, unrecoverable}
use composable_batch_erc.Simulator.{
  SimulatorJobData, ExecSimulation, update_simulation_finished, SimulatorState, SimulatorContext,
  SimulatorAnswers, SimulatorStep, or_default, requeue, fail_op,
}
use composable_batch_erc.Simulator.Validation.{simulate_validation}

-- When a call settles, and what it throws if it does.
abbrev pub settled_at : {A : Type 0} → ℕ → Reply Failure A → ℕ × Option Failure
settled_at time (ok a) = (time, none)
settled_at time (thrown e) = (time, some e)

abbrev pub earlier_of : ℕ → Failure → Option (ℕ × Failure) → Option (ℕ × Failure)
earlier_of time e none = some (time, e)
earlier_of time e (some (time', e')) = if ltb time' time then some (time', e') else some (time, e)

-- `Promise.all` rejects with the failure that comes first.
unfoldable pub first_rejection : List (ℕ × Option Failure) → Option (ℕ × Failure)
first_rejection [] = none
first_rejection ((time, none) ∷ calls) = first_rejection calls
first_rejection ((time, some e) ∷ calls) = earlier_of time e (first_rejection calls)

abbrev pub is_forced : SimulatorJobData → Bool
is_forced job = job.force_execute && not job.mee_user_op.is_clean_up_user_op

module _ (ctx : SimulatorContext) (answers : SimulatorAnswers) (job : SimulatorJobData) where
  -- The concurrent calls of the first attempt and the check of the quote. The validation runs to
  -- its end also when another call rejects first.
  abbrev pub concurrent_calls : Reply Failure Unit → List (ℕ × Option Failure)
  concurrent_calls validated =
      settled_at answers.has_user_op_at answers.has_user_op
      ∷ settled_at answers.validation_at validated
      ∷ settled_at answers.handle_ops_at answers.handle_ops
      ∷ []

  unfoldable pub check_quote : Reply Failure Bool → SimulatorState → SimulatorStep ExecSimulation
  check_quote (ok true) s = (answers.handle_ops, s)
  check_quote (ok false) s = (thrown (unrecoverable []), s)
  check_quote (thrown e) s = (thrown e, s)

  unfoldable pub after_all : Option (ℕ × Failure) → SimulatorState → SimulatorStep ExecSimulation
  unfolding check_quote
  after_all (some (time, e)) s = (thrown e, s)
  after_all none s = check_quote answers.has_user_op s

  unfoldable pub await_all : SimulatorStep Unit → SimulatorStep ExecSimulation
  unfolding first_rejection after_all
  await_all (validated, s) = after_all (first_rejection (concurrent_calls validated)) s

  unfoldable pub first_attempt : SimulatorState → SimulatorStep ExecSimulation
  unfolding simulate_validation await_all
  first_attempt s = await_all (simulate_validation ctx answers job s)

  -- From `execSimulationResult.isError` on.
  unfoldable pub conclude : ℕ → ExecSimulation → SimulatorState → SimulatorStep Bool
  unfolding requeue
  conclude attempts result s =
      if result.is_error
      then requeue answers job
          (or_default job.mee_user_op.execution_simulation_retry_delay ctx.trace_call_retry_delay) s
      else (
        ok true,
        record s {
          calls =
              s.calls
              ++ update_simulation_finished job.mee_user_op.mee_user_op_hash attempts ctx.now ∷ [];
        },
      )

  unfoldable pub after_simulation :
      ℕ → Reply Failure ExecSimulation → SimulatorState → SimulatorStep Bool
  unfolding conclude
  after_simulation attempts (ok result) s = conclude attempts result s
  after_simulation attempts (thrown e) s = (thrown e, s)

  -- The simulation of the execution, unless the first attempt has its result.
  unfoldable pub simulate_execution :
      ℕ → Option ExecSimulation → SimulatorState → SimulatorStep Bool
  unfolding after_simulation
  simulate_execution attempts (some result) s = conclude attempts result s
  simulate_execution attempts none s = after_simulation attempts answers.handle_ops s

  -- From `const now = unixTimestamp()` on.
  unfoldable pub check_deadline : ℕ → Option ExecSimulation → SimulatorState → SimulatorStep Bool
  unfolding simulate_execution fail_op
  check_deadline attempts result s =
      let upper = job.mee_user_op.upper_bound_timestamp in
      if is_forced job
      then if leb upper (ctx.unix_timestamp + ctx.safe_window_before_exec_end)
        then (ok false, s)
        else simulate_execution attempts result s
      else if ltb upper ctx.unix_timestamp
      then fail_op job (codes "Execution deadline limit exceeded") s
      else simulate_execution attempts result s

  unfoldable pub after_first_attempt : SimulatorStep ExecSimulation → SimulatorStep Bool
  unfolding check_deadline
  after_first_attempt (ok result, s) = check_deadline 0 (some result) s
  after_first_attempt (thrown e, s) = (thrown e, s)

  -- `attempts` is the job's `attemptsMade`.
  unfoldable pub process_job : ℕ → SimulatorState → SimulatorStep Bool
  unfolding first_attempt check_deadline after_first_attempt
  process_job attempts s =
      if attempts == 0 && not job.is_retry_job
      then after_first_attempt (first_attempt s)
      else check_deadline attempts none s
