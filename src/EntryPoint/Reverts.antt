-- ===== src/EntryPoint/Reverts.antt =====
-- `analyzeReverts` and `flatTraceCallResult` of
-- orchestrator-node/src/modules/entry-point/utils/flat-trace-call-result.ts. The two maps are
-- functions on indices; a list of children that is missing is empty.
pub mod Marks
pub mod Ignored
pub mod Walk
use composable_batch_erc.Common.{
  ℕ, zero, suc, Bool, true, false, not, ◌&&◌, ◌||◌, List, [], ◌∷◌, ◌++◌, Option, none, some,
  if◌then◌else◌, ◌==◌, ltb, get_elem?, any, length,
}
use composable_batch_erc.Common.Text.{Text, codes, starts_with, includes}
use composable_batch_erc.EntryPoint.Traces.{
  CallResult, TraceWithMetadata, Recent, nothing_recent, set_recent, recent_parent, flatten_calls,
  assign_trace_indices,
}

pub record Relationships : Type 0 where
  pub parent_map : ℕ → Option ℕ
  pub children_map : ℕ → List ℕ

abbrev pub no_relationships : Relationships
no_relationships = record { parent_map = λ i. none; children_map = λ i. [] }

abbrev pub relate : ℕ → Option ℕ → Relationships → Relationships
relate i none r = r
relate i (some parent) r = record {
  parent_map = λ k. if k == i then some parent else r.parent_map k;
  children_map = λ k. if k == parent then r.children_map k ++ i ∷ [] else r.children_map k;
}

-- `recentParentAtDepth.length = depth`.
abbrev pub trim : ℕ → Recent → Recent
trim depth recent d = if ltb d depth then recent d else none

unfoldable pub build_from : ℕ → Recent → Relationships → List TraceWithMetadata → Relationships
build_from i recent r [] = r
build_from i recent r (trace ∷ traces) =
    let kept : Recent = trim trace.depth recent in
    build_from (suc i) (set_recent trace.depth i kept) (relate i (recent_parent kept trace.depth) r)
      traces

unfoldable pub build_sequential_relationships : List TraceWithMetadata → Relationships
unfolding build_from
build_sequential_relationships traces = build_from 0 nothing_recent no_relationships traces

abbrev pub is_nil : Text → Bool
is_nil [] = true
is_nil (c ∷ s) = false

-- The call of the function whose selector is 0x0042dc53.
unfoldable pub is_inner_handle_op : TraceWithMetadata → Bool
unfolding starts_with
is_inner_handle_op trace = starts_with trace.frame.input (codes "0x0042dc53")

-- A property of the trace at an index.
abbrev pub holds_at : (TraceWithMetadata → Bool) → Option TraceWithMetadata → Bool
holds_at test none = false
holds_at test (some trace) = test trace

-- What follows the first occurrence of an index.
unfoldable pub after_first : ℕ → List ℕ → List ℕ
after_first i [] = []
after_first i (k ∷ ks) = let rest = after_first i ks in if k == i then ks else rest

unfoldable pub top_level_indices : ℕ → List TraceWithMetadata → List ℕ
top_level_indices i [] = []
top_level_indices i (trace ∷ traces) =
    let rest = top_level_indices (suc i) traces in if trace.depth == 0 then i ∷ rest else rest

module _ (traces : List TraceWithMetadata) where
  abbrev pub succeeded : ℕ → Bool
  succeeded i = holds_at (λ trace. is_nil trace.frame.error) (get_elem? traces i)

  abbrev pub is_inner : ℕ → Bool
  is_inner i = holds_at is_inner_handle_op (get_elem? traces i)

  abbrev pub is_at_depth : ℕ → ℕ → Bool
  is_at_depth depth i = holds_at (λ trace. trace.depth == depth) (get_elem? traces i)

  abbrev pub is_inner_parent : Option ℕ → Bool
  is_inner_parent none = false
  is_inner_parent (some parent) = is_inner parent

module _ (traces : List TraceWithMetadata) (r : Relationships) where
  -- The walk up, with fuel for its steps.
  unfoldable pub find_ancestor_at_depth : (fuel child target : ℕ) → Option ℕ
  find_ancestor_at_depth zero child target = none
  find_ancestor_at_depth (suc fuel) child target = elim (r.parent_map child) [
    | none ↦ none
    | some parent ↦
        let further = find_ancestor_at_depth fuel parent target in
        if is_at_depth traces target parent then some parent else further
  ]

  -- The calls that the ancestor's caller made after it.
  abbrev pub later_siblings : ℕ → List ℕ
  later_siblings ancestor = elim (r.parent_map ancestor) [
    | none ↦ []
    | some parent ↦ after_first ancestor (r.children_map parent)
  ]

  unfoldable pub check_continuation_after_revert : (ancestor revert : ℕ) → Bool
  unfolding after_first top_level_indices
  check_continuation_after_revert ancestor revert =
      any (succeeded traces) (later_siblings ancestor)
      || (is_at_depth traces 0 ancestor
          && any (succeeded traces) (after_first ancestor (top_level_indices 0 traces)))
      || any (λ child. ltb revert child && succeeded traces child) (r.children_map ancestor)

  unfoldable pub is_handled_by : ℕ → Option ℕ → Bool
  unfolding is_inner_handle_op check_continuation_after_revert
  is_handled_by revert none = false
  is_handled_by revert (some ancestor) =
      not (is_inner traces ancestor)
      && succeeded traces ancestor
      && check_continuation_after_revert ancestor revert

  -- The ancestors at the depths below `depth`, from the nearest on; no walk has more steps than the
  -- revert's index.
  unfoldable pub is_revert_handled_by_ancestor : (depth revert : ℕ) → Bool
  unfolding find_ancestor_at_depth is_handled_by
  is_revert_handled_by_ancestor zero revert = false
  is_revert_handled_by_ancestor (suc depth) revert =
      is_handled_by revert (find_ancestor_at_depth revert revert depth)
      || is_revert_handled_by_ancestor depth revert

  -- One round of the loop, for the trace at the index `i`.
  unfoldable pub mark : ℕ → TraceWithMetadata → TraceWithMetadata
  unfolding includes is_revert_handled_by_ancestor is_inner_handle_op
  mark i trace =
      if includes trace.frame.error (codes "revert") && ltb 0 trace.depth
      then if is_inner_parent traces trace.parent_trace_index
        then record trace { is_handled_revert = false; should_ignore = false }
        else if is_revert_handled_by_ancestor trace.depth i
        then record trace { is_handled_revert = true; should_ignore = true }
        else trace
      else trace

  unfoldable pub mark_from : ℕ → List TraceWithMetadata → List TraceWithMetadata
  unfolding mark
  mark_from i [] = []
  mark_from i (trace ∷ rest) = mark i trace ∷ mark_from (suc i) rest

unfoldable pub analyze_reverts : List TraceWithMetadata → List TraceWithMetadata
unfolding build_sequential_relationships mark_from
analyze_reverts traces = mark_from traces (build_sequential_relationships traces) 0 traces

unfoldable pub flat_trace_call_result : CallResult → List TraceWithMetadata
unfolding flatten_calls assign_trace_indices analyze_reverts
flat_trace_call_result c = analyze_reverts (assign_trace_indices (flatten_calls c 0))
