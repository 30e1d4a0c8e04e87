-- ===== src/EntryPoint/HandleOps/Reports.antt =====
-- What `simulateHandleOps` reports of a failed execution.
use composable_batch_erc.Common.{
  ℕ, zero, suc, Bool, true, not, List, [], ◌∷◌, Option, some, Reply, ok, thrown, ◌≡◌, ◌≢◌, refl,
  ◌∙◌, ap, ap₂, arith, keep, Option-cases, inl, inr,
}
use composable_batch_erc.Common.Text.{Text}
use composable_batch_erc.Executor.Records.{Failure}
use composable_batch_erc.Simulator.{ExecSimulation}
use composable_batch_erc.EntryPoint.Traces.{
  Frame, CallResult, call, Calls, enhanced, TraceWithMetadata, flatten_calls, assign_trace_indices,
}
use composable_batch_erc.EntryPoint.Reverts.{
  Relationships, mark, mark_from, analyze_reverts, build_sequential_relationships,
  flat_trace_call_result, is_nil,
}
use composable_batch_erc.EntryPoint.HandleOps.{
  has_error, last_error, last_visible_error, err_call, judge, judge_answer, simulate_handle_ops,
}

-- The call of the entry point itself failed, or there is no trace.
abbrev pub HasFailed : Reply Failure CallResult → Type 0
HasFailed (ok (call frame calls)) = frame.error ≢ []
HasFailed (thrown e) = Unit

last_error-head :
    (trace : TraceWithMetadata) (traces : List TraceWithMetadata)
    → has_error trace ≡ true
    → (e : TraceWithMetadata) × (last_error (trace ∷ traces) ≡ some e)
unfolding last_error
last_error-head trace traces h = elim (Option-cases (last_error traces)) [
  | inl e ↦ (trace, ground (arith, e, h))
  | inr (later, e) ↦ (later, ground (arith, e))
]

not_nil : (s : Text) → s ≢ [] → not (is_nil s) ≡ true
not_nil [] h = absurd (h refl)
not_nil (c ∷ s) h = refl

mark-root :
    (traces : List TraceWithMetadata) (r : Relationships) (frame : Frame)
    → mark traces r 0 (enhanced frame 0) ≡ enhanced frame 0
unfolding mark
mark-root traces r frame = ground arith

-- The first trace is that of the root, and it is not ignored.
flat_trace_call_result-head :
    (frame : Frame) (calls : Calls)
    → (rest : List TraceWithMetadata) × (flat_trace_call_result (call frame calls)
        ≡ enhanced frame 0 ∷ rest)
unfolding flat_trace_call_result analyze_reverts mark_from assign_trace_indices flatten_calls
flat_trace_call_result-head frame calls =
    let traces = assign_trace_indices (flatten_calls (call frame calls) 0) in
    (_, ap₂ ◌∷◌ (mark-root traces (build_sequential_relationships traces) frame) refl)

err_call-failed :
    (frame : Frame) (calls : Calls)
    → frame.error ≢ []
    → (trace : TraceWithMetadata) × (err_call (call frame calls) ≡ some trace)
unfolding err_call last_visible_error
err_call-failed frame calls h =
    let (rest, e) = flat_trace_call_result-head frame calls in
    let visible = keep (λ trace. not trace.should_ignore) rest in
    let failed : has_error (enhanced frame 0) ≡ true = rw (not_nil frame.error h) refl in
    let (trace, f) = last_error-head (enhanced frame 0) visible failed in
    (trace, ap last_visible_error e ∙ f)

module _ (describe : TraceWithMetadata → Option Text) (use_storage : Bool) where
  judge-failed :
      (answers : ℕ → Reply Failure CallResult) (retries : ℕ) (trace : TraceWithMetadata)
      (next : ExecSimulation × List Text)
      → next.0.is_error ≡ true
      → (judge describe answers use_storage retries (some trace) next).0.is_error ≡ true
  unfolding judge
  judge-failed answers zero trace next h = refl
  judge-failed answers (suc retries) trace next h = h

  judge_answer-failed :
      (answers : ℕ → Reply Failure CallResult) (retries : ℕ) (reply : Reply Failure CallResult)
      (next : ExecSimulation × List Text)
      → HasFailed reply
      → next.0.is_error ≡ true
      → (judge_answer describe answers use_storage retries reply next).0.is_error ≡ true
  unfolding judge_answer
  judge_answer-failed answers retries (ok (call frame calls)) next h k =
      let (trace, e) = err_call-failed frame calls h in
      rw e (judge-failed answers retries trace next k)
  judge_answer-failed answers retries (thrown e) next h k = refl

-- When the entry point's own call fails in every trace, or there is none, the simulation reports an
-- error, however many retries it is given and whatever the calls inside are.
pub simulate_handle_ops-failed :
    (describe : TraceWithMetadata → Option Text) (use_storage : Bool)
    (answers : ℕ → Reply Failure CallResult)
    → ((attempt : ℕ) → HasFailed (answers attempt))
    → (retries : ℕ) → (simulate_handle_ops describe answers use_storage retries).0.is_error ≡ true
unfolding simulate_handle_ops
simulate_handle_ops-failed describe use_storage answers h zero =
    judge_answer-failed describe use_storage answers zero (answers zero) _ (h zero) refl
simulate_handle_ops-failed describe use_storage answers h (suc retries) =
    judge_answer-failed describe use_storage answers (suc retries) (answers (suc retries)) _
      (h (suc retries)) (simulate_handle_ops-failed describe use_storage answers h retries)
