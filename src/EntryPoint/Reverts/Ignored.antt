-- ===== src/EntryPoint/Reverts/Ignored.antt =====
-- When a trace is ignored.
use composable_batch_erc.Common.{
  ℕ, zero, suc, ◌+◌, ◌<◌, true, false, ◌&&◌, List, [], ◌∷◌, Option, none, some, ◌≡◌, ◌⊎◌, inl, inr,
  refl, arith, All, All-append, if_lem, ltb, Bool-cases, Option-cases,
}
use composable_batch_erc.Common.Text.{codes, includes}
use composable_batch_erc.EntryPoint.Traces.{
  CallResult, call, Calls, no_calls, then_call, TraceWithMetadata,
}
use composable_batch_erc.EntryPoint.Traces.Parents.{
  size, number_calls, number_all, assign_trace_indices-flatten_calls,
}
use composable_batch_erc.EntryPoint.Reverts.{
  Relationships, succeeded, is_inner, is_at_depth, find_ancestor_at_depth, is_handled_by,
  is_revert_handled_by_ancestor, is_inner_parent, mark, mark_from, analyze_reverts,
  build_sequential_relationships, flat_trace_call_result,
}

-- A call at a lesser depth that did not fail and is no innerHandleOp.
abbrev pub HasHandler : List TraceWithMetadata → ℕ → Type 0
HasHandler traces depth =
    (handler d : ℕ) × (d < depth)
    × (is_at_depth traces d handler ≡ true)
    × (succeeded traces handler ≡ true)
    × (is_inner traces handler ≡ false)

-- A trace is not ignored, or it is a revert of a call with a caller, its caller is no
-- innerHandleOp, and some call can have handled it.
abbrev pub IsIgnoredRightly : List TraceWithMetadata → TraceWithMetadata → Type 0
IsIgnoredRightly traces trace =
    (trace.should_ignore ≡ false)
    ⊎ ((includes trace.frame.error (codes "revert") ≡ true)
        × (0 < trace.depth)
        × (is_inner_parent traces trace.parent_trace_index ≡ false)
        × HasHandler traces trace.depth)

module _ (traces : List TraceWithMetadata) (r : Relationships) where
  find_ancestor_at_depth-depth :
      (fuel child target ancestor : ℕ)
      → find_ancestor_at_depth traces r fuel child target ≡ some ancestor
      → is_at_depth traces target ancestor ≡ true
  unfolding find_ancestor_at_depth
  find_ancestor_at_depth-depth zero child target ancestor h = absurd (cc)
  find_ancestor_at_depth-depth (suc fuel) child target ancestor h =
      elim (Option-cases (r.parent_map child)) [
        | inl e ↦ ground (arith, e)
        | inr (parent, e) ↦
            ground (arith, e, find_ancestor_at_depth-depth fuel parent target ancestor)
      ]

  is_handled_by-some :
      (revert : ℕ) (found : Option ℕ)
      → is_handled_by traces r revert found ≡ true
      → (ancestor : ℕ) × (found ≡ some ancestor)
        × (succeeded traces ancestor ≡ true)
        × (is_inner traces ancestor ≡ false)
  unfolding is_handled_by
  is_handled_by-some revert none h = absurd (ground arith)
  is_handled_by-some revert (some ancestor) h = (ancestor, refl, ground arith, ground arith)

  is_revert_handled_by_ancestor-HasHandler :
      (depth revert : ℕ)
      → is_revert_handled_by_ancestor traces r depth revert ≡ true
      → HasHandler traces depth
  unfolding is_revert_handled_by_ancestor
  is_revert_handled_by_ancestor-HasHandler zero revert h = absurd (ground arith)
  is_revert_handled_by_ancestor-HasHandler (suc depth) revert h =
      let found = find_ancestor_at_depth traces r revert revert depth in
      elim (Bool-cases (is_handled_by traces r revert found)) [
        | inl e ↦
            let (handler, f, succeeds, outer) = is_handled_by-some revert found e in
            (
              handler,
              depth,
              omega arith,
              find_ancestor_at_depth-depth revert revert depth handler f,
              succeeds,
              outer,
            )
        | inr e ↦
            let (handler, d, lt, at_depth, succeeds, outer) =
              is_revert_handled_by_ancestor-HasHandler depth revert (ground (arith, e, h)) in
            (handler, d, omega arith, at_depth, succeeds, outer)
      ]

  mark-IsIgnoredRightly :
      (i : ℕ) (trace : TraceWithMetadata)
      → trace.should_ignore ≡ false
      → IsIgnoredRightly traces (mark traces r i trace)
  unfolding mark
  mark-IsIgnoredRightly i trace seen =
      let P : TraceWithMetadata → Type 0 = IsIgnoredRightly traces in
      if_lem P (includes trace.frame.error (codes "revert") && ltb 0 trace.depth) _ trace
        (λ reverts.
          if_lem P (is_inner_parent traces trace.parent_trace_index) _ _ (λ _. inl refl)
            λ outer.
              if_lem P (is_revert_handled_by_ancestor traces r trace.depth i) _ trace
                (λ h. inr (
                  ground arith,
                  ground arith,
                  outer,
                  is_revert_handled_by_ancestor-HasHandler trace.depth i h,
                ))
                (λ _. inl seen))
        (λ _. inl seen)

  mark_from-IsIgnoredRightly :
      (i : ℕ) (rest : List TraceWithMetadata)
      → All (λ trace. trace.should_ignore ≡ false) rest
      → All (IsIgnoredRightly traces) (mark_from traces r i rest)
  unfolding mark_from
  mark_from-IsIgnoredRightly i [] h = tt
  mark_from-IsIgnoredRightly i (trace ∷ rest) (seen, h) =
      (mark-IsIgnoredRightly i trace seen, mark_from-IsIgnoredRightly (suc i) rest h)

mutual
  unfolding number_calls

  number_calls-seen :
      (c : CallResult) (depth index : ℕ) (caller : Option ℕ)
      → All (λ trace. trace.should_ignore ≡ false) (number_calls c depth index caller)
  number_calls-seen (call frame calls) depth index caller =
      (refl, number_all-seen calls (suc depth) (suc index) (some index))

  number_all-seen :
      (calls : Calls) (depth index : ℕ) (caller : Option ℕ)
      → All (λ trace. trace.should_ignore ≡ false) (number_all calls depth index caller)
  number_all-seen no_calls depth index caller = tt
  number_all-seen (then_call c calls) depth index caller =
      All-append _ (number_calls c depth index caller) _ (number_calls-seen c depth index caller)
        (number_all-seen calls depth (index + size c) caller)

analyze_reverts-IsIgnoredRightly :
    (traces : List TraceWithMetadata)
    → All (λ trace. trace.should_ignore ≡ false) traces
    → All (IsIgnoredRightly traces) (analyze_reverts traces)
unfolding analyze_reverts
analyze_reverts-IsIgnoredRightly traces h =
    mark_from-IsIgnoredRightly traces (build_sequential_relationships traces) 0 traces h

-- A call of a trace is ignored only if its error speaks of a revert, it was made by another call,
-- that caller is no innerHandleOp, and a call at a lesser depth succeeded that is no innerHandleOp
-- either. So the failure of the whole call, a failure that is no revert, and what a user operation
-- reverts with directly under innerHandleOp are always seen.
pub flat_trace_call_result-IsIgnoredRightly :
    (c : CallResult) → All (IsIgnoredRightly (number_calls c 0 0 none)) (flat_trace_call_result c)
unfolding flat_trace_call_result
flat_trace_call_result-IsIgnoredRightly c =
    rw (assign_trace_indices-flatten_calls c)
      (analyze_reverts-IsIgnoredRightly _ (number_calls-seen c 0 0 none))
