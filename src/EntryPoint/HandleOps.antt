-- ===== src/EntryPoint/HandleOps.antt =====
-- `simulateHandleOps` of orchestrator-node/src/modules/entry-point/entry-point.service.ts: how the
-- trace of an execution is judged. What `generateErrorMessage` says of a call, if its target is an
-- address, is the argument `describe`; the trace of each attempt is the argument `answers`, by the
-- retries that are left.
pub mod Reports
use composable_batch_erc.Common.{
  ℕ, zero, suc, Bool, true, false, not, ◌||◌, List, [], ◌∷◌, ◌++◌, Option, none, some, Reply, ok,
  thrown, if◌then◌else◌, keep,
}
use composable_batch_erc.Common.Text.{Text, codes, text_eq}
use composable_batch_erc.Errors.Sanitize.{sanitize_url}
use composable_batch_erc.Executor.Records.{Failure}
use composable_batch_erc.Simulator.{ExecSimulation}
use composable_batch_erc.EntryPoint.Traces.{Frame, CallResult, TraceWithMetadata}
use composable_batch_erc.EntryPoint.Reverts.{is_nil, flat_trace_call_result}

abbrev pub has_error : TraceWithMetadata → Bool
has_error trace = not (is_nil trace.frame.error) || not (is_nil trace.frame.revert_reason)

-- `flattenedResult.reverse().find(…)`.
unfoldable pub last_error : List TraceWithMetadata → Option TraceWithMetadata
last_error [] = none
last_error (trace ∷ traces) = elim (last_error traces) [
  | some later ↦ some later
  | none ↦ if has_error trace then some trace else none
]

-- `a || b` on texts.
abbrev pub or_text : Text → Text → Text
or_text [] other = other
or_text (c ∷ s) other = c ∷ s

abbrev pub or_described : Option Text → Text → Text
or_described none message = message
or_described (some description) message = description

-- Traces that are ignored are left out.
unfoldable pub last_visible_error : List TraceWithMetadata → Option TraceWithMetadata
unfolding last_error
last_visible_error traces = last_error (keep (λ trace. not trace.should_ignore) traces)

-- The trace that is reported, if any.
unfoldable pub err_call : CallResult → Option TraceWithMetadata
unfolding flat_trace_call_result last_visible_error
err_call result = last_visible_error (flat_trace_call_result result)

module _ (describe : TraceWithMetadata → Option Text) where
  unfoldable pub error_message : TraceWithMetadata → Text
  unfolding text_eq
  error_message trace =
      let message = or_text trace.frame.revert_reason (
        or_text trace.frame.error
          (codes "Unknown error during simulation. Possible 'out of gas' exception.")) in
      if text_eq message (codes "execution reverted")
      then or_described (describe trace) message
      else message

  module _ (answers : ℕ → Reply Failure CallResult) (use_storage : Bool) where
    abbrev pub recorded : Text → List Text
    recorded message = if use_storage then sanitize_url message ∷ [] else []

    -- The result and the revert reasons that are stored.
    unfoldable pub judge :
        ℕ → Option TraceWithMetadata → ExecSimulation × List Text → ExecSimulation × List Text
    unfolding error_message
    judge retries none next = (record { is_error = false; error_message = [] }, [])
    judge zero (some trace) next =
        let message = error_message trace in
        (record { is_error = true; error_message = message }, recorded message)
    judge (suc retries) (some trace) next = (next.0, recorded (error_message trace) ++ next.1)

    unfoldable pub judge_answer :
        ℕ → Reply Failure CallResult → ExecSimulation × List Text → ExecSimulation × List Text
    unfolding judge err_call
    judge_answer retries (ok result) next = judge retries (err_call result) next
    judge_answer retries (thrown e) next =
        (record { is_error = true; error_message = codes "Error during simulation" }, [])

    unfoldable pub simulate_handle_ops : ℕ → ExecSimulation × List Text
    unfolding judge_answer
    simulate_handle_ops zero =
        judge_answer zero (answers zero) (record { is_error = true; error_message = [] }, [])
    simulate_handle_ops (suc retries) =
        judge_answer (suc retries) (answers (suc retries)) (simulate_handle_ops retries)
