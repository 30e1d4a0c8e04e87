-- ===== src/Simulator/ProcessJob/Retry.antt =====
-- What an attempt checks when its job is a retry.
use composable_batch_erc.Common.{
  ℕ, ◌+◌, Bool, true, false, Reply, ok, thrown, ltb, leb, if◌then◌else◌, ◌≡◌, ◌↔◌, inl, inr, arith,
  Option-cases,
}
use composable_batch_erc.Executor.Records.{Failure}
use composable_batch_erc.Simulator.{
  SimulatorJobData, ExecSimulation, SimulatorState, SimulatorContext, SimulatorAnswers, requeue,
  fail_op,
}
use composable_batch_erc.Simulator.ProcessJob.{
  is_forced, conclude, after_simulation, simulate_execution, check_deadline, process_job,
}

-- The time is left that the kind of the job asks for.
abbrev pub is_in_window : SimulatorContext → SimulatorJobData → Bool
is_in_window ctx job =
    let upper = job.mee_user_op.upper_bound_timestamp in
    if is_forced job
    then ltb (ctx.unix_timestamp + ctx.safe_window_before_exec_end) upper
    else leb ctx.unix_timestamp upper

abbrev pub IsExecutable : Reply Failure ExecSimulation → Type 0
IsExecutable (ok result) = result.is_error ≡ false
IsExecutable (thrown e) = ⊥

after_simulation-returns_true :
    (ctx : SimulatorContext) (answers : SimulatorAnswers) (job : SimulatorJobData) (attempts : ℕ)
    (reply : Reply Failure ExecSimulation) (s : SimulatorState)
    → ((after_simulation ctx answers job attempts reply s).0 ≡ ok true) ↔ IsExecutable reply
unfolding after_simulation conclude requeue
after_simulation-returns_true ctx answers job attempts (thrown e) s = (λ h. cc, λ h. absurd h)
after_simulation-returns_true ctx answers job attempts (ok result) s =
    elim (Option-cases answers.add_job_failure) [
      | inl e ↦ ground (arith, e)
      | inr (failure, e) ↦ ground (arith, e)
    ]

-- The attempt of a retry returns true if and only if its time has not run out (a forced user
-- operation has more than the safe window left, another is not past its upper bound) and the
-- trace of its execution answered without an error.
pub process_job-returns_true :
    (ctx : SimulatorContext) (answers : SimulatorAnswers) (job : SimulatorJobData)
    → job.is_retry_job ≡ true
    → (attempts : ℕ) (s : SimulatorState)
    → ((process_job ctx answers job attempts s).0 ≡ ok true)
      ↔ ((is_in_window ctx job ≡ true) × IsExecutable answers.handle_ops)
unfolding process_job check_deadline simulate_execution fail_op
process_job-returns_true ctx answers job retried attempts s =
    ground (arith, after_simulation-returns_true ctx answers job attempts answers.handle_ops s)
