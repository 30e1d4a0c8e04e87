-- ===== src/Witnesses/Simulation.antt =====
-- The simulator and the traces of the entry point at concrete inputs.
use composable_batch_erc.Common.{
  ℕ, ◌/◌, ◌≡◌, ◌↔◌, refl, Bool, true, false, [], none, ok, thrown, All, map,
}
use composable_batch_erc.Common.Text.{Text, codes}
use composable_batch_erc.Simulator.{
  SimulatorJobData, something_went_wrong, SimulatorState, SimulatorContext, SimulatorAnswers,
}
use composable_batch_erc.Simulator.ProcessJob.{process_job}
use composable_batch_erc.Simulator.ProcessJob.Retry.{
  is_in_window, IsExecutable, process_job-returns_true,
}
use composable_batch_erc.EntryPoint.Traces.{Frame, CallResult, call, no_calls, then_call}
use composable_batch_erc.EntryPoint.Traces.Parents.{number_calls}
use composable_batch_erc.EntryPoint.Reverts.{flat_trace_call_result}
use composable_batch_erc.EntryPoint.Reverts.Marks.{
  without_marks, flat_trace_call_result-number_calls,
}
use composable_batch_erc.EntryPoint.Reverts.Ignored.{
  IsIgnoredRightly, flat_trace_call_result-IsIgnoredRightly,
}
use composable_batch_erc.EntryPoint.HandleOps.{simulate_handle_ops}
use composable_batch_erc.EntryPoint.HandleOps.Reports.{simulate_handle_ops-failed}
use composable_batch_erc.Witnesses.Samples.{valid_op}

abbrev context_at : ℕ → SimulatorContext
context_at clock = record {
  now = clock;
  validated_at = clock / 1000;
  unix_timestamp = clock / 1000;
  safe_window_before_exec_end = 45;
  trace_call_retry_delay = 2000;
}

abbrev job_of : (is_retry : Bool) → SimulatorJobData
job_of is_retry = record { mee_user_op = valid_op; force_execute = false; is_retry_job = is_retry }

-- The validation succeeds, and the trace of the execution shows an error.
abbrev reverting : SimulatorAnswers
reverting = record {
  has_user_op = ok true;
  has_user_op_at = 1;
  validation = ok (record { sig_failed = 0; valid_after = 0; valid_until = 0 });
  validation_at = 2;
  handle_ops = ok (record { is_error = true; error_message = codes "execution reverted" });
  handle_ops_at = 3;
  add_job_failure = none;
}

abbrev nothing_yet : SimulatorState
nothing_yet = record { calls = []; added = [] }

-- The account is not deployed, and the storage does not know the user operation.
abbrev unknown_op : SimulatorAnswers
unknown_op = record reverting {
  has_user_op = ok false;
  validation = thrown (something_went_wrong (codes "FailedOp: AA20 account not deployed"));
}

process_job-returns_true_example :
    ((process_job (context_at 1000000) reverting (job_of true) 0 nothing_yet).0 ≡ ok true)
    ↔ ((is_in_window (context_at 1000000) (job_of true) ≡ true) × IsExecutable reverting.handle_ops)
process_job-returns_true_example =
    process_job-returns_true (context_at 1000000) reverting (job_of true) refl 0 nothing_yet

abbrev frame_of : Text → Text → Frame
frame_of error input = record { error = error; revert_reason = []; input = input }

-- A call that reverts, and one after it that succeeds.
abbrev sample_trace : CallResult
sample_trace = call (frame_of [] (codes "0x1fad948c")) (
    then_call (call (frame_of (codes "execution reverted") (codes "0x01")) no_calls)
      (then_call (call (frame_of [] (codes "0x02")) no_calls) no_calls))

abbrev failed_trace : CallResult
failed_trace = call (frame_of (codes "execution reverted") (codes "0x1fad948c")) no_calls

flat_trace_call_result-number_calls_example :
    map without_marks (flat_trace_call_result sample_trace) ≡ number_calls sample_trace 0 0 none
flat_trace_call_result-number_calls_example = flat_trace_call_result-number_calls sample_trace

flat_trace_call_result-IsIgnoredRightly_example :
    All
      (IsIgnoredRightly (number_calls sample_trace 0 0 none))
      (flat_trace_call_result sample_trace)
flat_trace_call_result-IsIgnoredRightly_example =
    flat_trace_call_result-IsIgnoredRightly sample_trace

simulate_handle_ops-failed_example :
    (simulate_handle_ops (λ trace. none) (λ attempt. ok failed_trace) true 2).0.is_error ≡ true
simulate_handle_ops-failed_example =
    simulate_handle_ops-failed (λ trace. none) true (λ attempt. ok failed_trace) (λ attempt e. cc) 2
