-- ===== src/EntryPoint/Reverts/Marks.antt =====
-- Which traces are marked as handled reverts, and what the marks leave alone.
use mathlib.Core.List.{map-append}
use composable_batch_erc.Common.{
  ℕ, suc, ◌+◌, false, List, [], ◌∷◌, ◌++◌, Option, none, some, ◌≡◌, refl, ◌∙◌, ap, ap₂, arith, map,
}
use composable_batch_erc.EntryPoint.Traces.{
  CallResult, call, Calls, no_calls, then_call, TraceWithMetadata, flatten_calls,
  assign_trace_indices,
}
use composable_batch_erc.EntryPoint.Traces.Parents.{
  size, number_calls, number_all, assign_trace_indices-flatten_calls,
}
use composable_batch_erc.EntryPoint.Reverts.{
  Relationships, mark, mark_from, analyze_reverts, flat_trace_call_result,
}

abbrev pub without_marks : TraceWithMetadata → TraceWithMetadata
without_marks trace = record trace { is_handled_revert = false; should_ignore = false }

mark-without_marks :
    (traces : List TraceWithMetadata) (r : Relationships) (i : ℕ) (trace : TraceWithMetadata)
    → without_marks (mark traces r i trace) ≡ without_marks trace
unfolding mark
mark-without_marks traces r i trace = ground arith

mark_from-without_marks :
    (traces : List TraceWithMetadata) (r : Relationships) (i : ℕ) (rest : List TraceWithMetadata)
    → map without_marks (mark_from traces r i rest) ≡ map without_marks rest
unfolding mark_from
mark_from-without_marks traces r i [] = refl
mark_from-without_marks traces r i (trace ∷ rest) =
    ap₂ ◌∷◌ (mark-without_marks traces r i trace) (mark_from-without_marks traces r (suc i) rest)

mutual
  unfolding number_calls

  number_calls-without_marks :
      (c : CallResult) (depth index : ℕ) (caller : Option ℕ)
      → map without_marks (number_calls c depth index caller) ≡ number_calls c depth index caller
  number_calls-without_marks (call frame calls) depth index caller =
      ap₂ ◌∷◌ refl (number_all-without_marks calls (suc depth) (suc index) (some index))

  number_all-without_marks :
      (calls : Calls) (depth index : ℕ) (caller : Option ℕ)
      → map without_marks (number_all calls depth index caller)
        ≡ number_all calls depth index caller
  number_all-without_marks no_calls depth index caller = refl
  number_all-without_marks (then_call c calls) depth index caller =
      map-append without_marks (number_calls c depth index caller) _
      ∙ ap₂ ◌++◌ (number_calls-without_marks c depth index caller)
          (number_all-without_marks calls depth (index + size c) caller)

analyze_reverts-without_marks :
    (traces : List TraceWithMetadata)
    → map without_marks (analyze_reverts traces) ≡ map without_marks traces
unfolding analyze_reverts
analyze_reverts-without_marks traces = mark_from-without_marks traces _ 0 traces

-- Apart from the two marks of a handled revert, the flat list of a trace is the list of all calls
-- of the tree in their order, each with its depth, its own place and the place of its caller: no
-- call is lost, repeated or given to another caller.
pub flat_trace_call_result-number_calls :
    (c : CallResult) → map without_marks (flat_trace_call_result c) ≡ number_calls c 0 0 none
unfolding flat_trace_call_result
flat_trace_call_result-number_calls c =
    analyze_reverts-without_marks (assign_trace_indices (flatten_calls c 0))
    ∙ ap (map without_marks) (assign_trace_indices-flatten_calls c)
    ∙ number_calls-without_marks c 0 0 none
