-- ===== src/EntryPoint/Traces.antt =====
-- `flattenCalls` and `assignTraceIndices` of
-- orchestrator-node/src/modules/entry-point/utils/flat-trace-call-result.ts.
pub mod Parents
use composable_batch_erc.Common.{
  ℕ, zero, suc, Bool, true, false, List, [], ◌∷◌, ◌++◌, Option, none, some, if◌then◌else◌, ◌==◌,
}
use composable_batch_erc.Common.Text.{Text}

-- What `debug_traceCall` says of one call, as far as it is read: a text that is missing is `[]`.
pub record Frame : Type 0 where
  pub error : Text
  pub revert_reason : Text
  pub input : Text

mutual
  pub data CallResult : Type 0 where
    call : Frame → Calls → CallResult

  pub data Calls : Type 0 where
    no_calls : Calls
    then_call : CallResult → Calls → Calls

-- A parent's index of -1 is `none`.
pub record TraceWithMetadata : Type 0 where
  pub frame : Frame
  pub should_ignore : Bool
  pub is_handled_revert : Bool
  pub depth : ℕ
  pub current_trace_index : ℕ
  pub parent_trace_index : Option ℕ

abbrev pub enhanced : Frame → ℕ → TraceWithMetadata
enhanced frame depth = record {
  frame = frame;
  should_ignore = false;
  is_handled_revert = false;
  depth = depth;
  current_trace_index = 0;
  parent_trace_index = none;
}

unfoldable mutual
  pub flatten_calls : CallResult → ℕ → List TraceWithMetadata
  flatten_calls (call frame calls) depth = enhanced frame depth ∷ flatten_all calls (suc depth)

  pub flatten_all : Calls → ℕ → List TraceWithMetadata
  flatten_all no_calls depth = []
  flatten_all (then_call c calls) depth = flatten_calls c depth ++ flatten_all calls depth

-- A sparse array of indices.
abbrev pub Recent : Type 0
Recent = ℕ → Option ℕ

abbrev pub nothing_recent : Recent
nothing_recent depth = none

abbrev pub set_recent : ℕ → ℕ → Recent → Recent
set_recent depth index recent other = if other == depth then some index else recent other

-- The most recent trace at the depth above.
abbrev pub recent_parent : Recent → ℕ → Option ℕ
recent_parent recent zero = none
recent_parent recent (suc depth) = recent depth

-- The loop, from the index `i` on.
unfoldable pub assign_from : ℕ → Recent → List TraceWithMetadata → List TraceWithMetadata
assign_from i recent [] = []
assign_from i recent (trace ∷ traces) =
    record trace { current_trace_index = i; parent_trace_index = recent_parent recent trace.depth }
    ∷ assign_from (suc i) (set_recent trace.depth i recent) traces

unfoldable pub assign_trace_indices : List TraceWithMetadata → List TraceWithMetadata
unfolding assign_from
assign_trace_indices traces = assign_from 0 nothing_recent traces
