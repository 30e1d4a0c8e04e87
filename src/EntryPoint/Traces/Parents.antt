-- ===== src/EntryPoint/Traces/Parents.antt =====
-- The indices that the flat list of traces has are those of the tree of calls.
use mathlib.Core.List.{append-nil, append_assoc}
use composable_batch_erc.Common.{
  ℕ, zero, suc, ◌+◌, ◌<◌, false, List, [], ◌∷◌, ◌++◌, Option, none, some, ◌≡◌, refl, sym, ◌∙◌, ap,
  ap₂, arith,
}
use composable_batch_erc.EntryPoint.Traces.{
  Frame, CallResult, call, Calls, no_calls, then_call, TraceWithMetadata, enhanced, flatten_calls,
  flatten_all, Recent, nothing_recent, set_recent, recent_parent, assign_from, assign_trace_indices,
}

-- The number of calls in a tree.
unfoldable mutual
  pub size : CallResult → ℕ
  size (call frame calls) = suc (size_all calls)

  pub size_all : Calls → ℕ
  size_all no_calls = 0
  size_all (then_call c calls) = size c + size_all calls

-- The tree in the order of its calls, each call with its own number and its caller's.
unfoldable mutual
  unfolding size

  pub number_calls : CallResult → (depth index : ℕ) (caller : Option ℕ) → List TraceWithMetadata
  number_calls (call frame calls) depth index caller =
      record {
        frame = frame;
        should_ignore = false;
        is_handled_revert = false;
        depth = depth;
        current_trace_index = index;
        parent_trace_index = caller;
      }
      ∷ number_all calls (suc depth) (suc index) (some index)

  pub number_all : Calls → (depth index : ℕ) (caller : Option ℕ) → List TraceWithMetadata
  number_all no_calls depth index caller = []
  number_all (then_call c calls) depth index caller =
      number_calls c depth index caller ++ number_all calls depth (index + size c) caller

-- Above a depth the two arrays are the same.
SameAbove : ℕ → Recent → Recent → Type 0
SameAbove depth recent recent' = (d : ℕ) → d < depth → recent' d ≡ recent d

-- The loop reads the traces of a part of the tree as they are numbered, and leaves the array
-- unchanged above the depth of that part.
ReadsAs :
    List TraceWithMetadata → List TraceWithMetadata → (depth index count : ℕ) → Recent → Type 0
ReadsAs traces numbered depth index count recent =
    (recent' : Recent) × SameAbove depth recent recent'
    × ((rest : List TraceWithMetadata)
        → assign_from index recent (traces ++ rest)
          ≡ numbered ++ assign_from (index + count) recent' rest)

recent_parent-same :
    (depth : ℕ) (recent recent' : Recent)
    → SameAbove depth recent recent'
    → recent_parent recent' depth ≡ recent_parent recent depth
unfolding SameAbove
recent_parent-same zero recent recent' h = refl
recent_parent-same (suc d) recent recent' h = h d (omega arith)

set_recent-above :
    (depth index d : ℕ) (recent : Recent) → d < depth → set_recent depth index recent d ≡ recent d
set_recent-above depth index d recent lt = ground arith

set_recent-at :
    (depth index : ℕ) (recent : Recent) → set_recent depth index recent depth ≡ some index
set_recent-at depth index recent = ground arith

call-ReadsAs :
    (frame : Frame) (depth index count : ℕ) (caller : Option ℕ) (recent : Recent)
    (traces numbered : List TraceWithMetadata)
    → recent_parent recent depth ≡ caller
    → ReadsAs traces numbered (suc depth) (suc index) count (set_recent depth index recent)
    → ReadsAs
        (enhanced frame depth ∷ traces)
        (record (enhanced frame depth) { current_trace_index = index; parent_trace_index = caller }
          ∷ numbered)
        depth
        index
        (suc count)
        recent
unfolding ReadsAs SameAbove assign_from
call-ReadsAs frame depth index count caller recent traces numbered h (recent', same, reads) = (
  recent',
  λ d lt. same d (omega arith) ∙ set_recent-above depth index d recent lt,
  λ rest.
      ap₂
        (λ parent traces.
          record (enhanced frame depth) { current_trace_index = index; parent_trace_index = parent }
          ∷ traces)
        h (reads rest ∙ ap (λ n. numbered ++ assign_from n recent' rest) (omega arith)),
)

append-ReadsAs :
    (depth index count count' : ℕ) (recent : Recent)
    (traces numbered traces' numbered' : List TraceWithMetadata)
    → ReadsAs traces numbered depth index count recent
    → ((recent' : Recent)
        → SameAbove depth recent recent'
        → ReadsAs traces' numbered' depth (index + count) count' recent')
    → ReadsAs (traces ++ traces') (numbered ++ numbered') depth index (count + count') recent
unfolding ReadsAs SameAbove
append-ReadsAs depth index count count' recent traces numbered traces' numbered'
      (recent', same, reads) h =
    let (recent'', same', reads') = h recent' same in
    (
      recent'',
      λ d lt. same' d lt ∙ same d lt,
      λ rest.
          ap (assign_from index recent) (append_assoc traces traces' rest)
          ∙ reads (traces' ++ rest)
          ∙ ap (λ xs. numbered ++ xs) (reads' rest)
          ∙ sym (append_assoc numbered numbered' _)
          ∙ ap (λ n. (numbered ++ numbered') ++ assign_from n recent'' rest) (omega arith),
    )

nothing-ReadsAs : (depth index : ℕ) (recent : Recent) → ReadsAs [] [] depth index 0 recent
unfolding ReadsAs SameAbove
nothing-ReadsAs depth index recent =
    (recent, λ d lt. refl, λ rest. ap (λ n. assign_from n recent rest) (omega arith))

mutual
  unfolding flatten_calls number_calls size

  flatten_calls-ReadsAs :
      (c : CallResult) (depth index : ℕ) (caller : Option ℕ) (recent : Recent)
      → recent_parent recent depth ≡ caller
      → ReadsAs
          (flatten_calls c depth)
          (number_calls c depth index caller)
          depth
          index
          (size c)
          recent
  flatten_calls-ReadsAs (call frame calls) depth index caller recent h =
      call-ReadsAs frame depth index (size_all calls) caller recent _ _ h (
        flatten_all-ReadsAs calls (suc depth) (suc index) (some index)
          (set_recent depth index recent) (set_recent-at depth index recent))

  flatten_all-ReadsAs :
      (calls : Calls) (depth index : ℕ) (caller : Option ℕ) (recent : Recent)
      → recent_parent recent depth ≡ caller
      → ReadsAs
          (flatten_all calls depth)
          (number_all calls depth index caller)
          depth
          index
          (size_all calls)
          recent
  flatten_all-ReadsAs no_calls depth index caller recent h = nothing-ReadsAs depth index recent
  flatten_all-ReadsAs (then_call c calls) depth index caller recent h =
      append-ReadsAs depth index (size c) (size_all calls) recent _ _ _ _
        (flatten_calls-ReadsAs c depth index caller recent h)
        λ recent' same.
          flatten_all-ReadsAs calls depth (index + size c) caller recent'
            (recent_parent-same depth recent recent' same ∙ h)

-- The single pass that numbers the flat list, which knows a trace's depth but not its caller, gives
-- the list of all calls of the tree, each with its place in the order of the calls and the place of
-- the call that made it.
pub assign_trace_indices-flatten_calls :
    (c : CallResult) → assign_trace_indices (flatten_calls c 0) ≡ number_calls c 0 0 none
unfolding assign_trace_indices ReadsAs
assign_trace_indices-flatten_calls c =
    let (recent, _, reads) = flatten_calls-ReadsAs c 0 0 none nothing_recent refl in
    ap (assign_from 0 nothing_recent) (sym (append-nil (flatten_calls c 0)))
    ∙ reads []
    ∙ append-nil (number_calls c 0 0 none)
