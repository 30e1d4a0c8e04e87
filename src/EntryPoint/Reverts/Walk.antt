-- ===== src/EntryPoint/Reverts/Walk.antt =====
-- The fuel of `find_ancestor_at_depth` is enough.
use composable_batch_erc.Common.{
  ℕ, zero, suc, ◌≤◌, ◌<◌, List, [], ◌∷◌, Option, none, some, ◌≡◌, refl, ◌∙◌, ap, arith,
  Option-cases, Bool-cases, inl, inr, leb, leb→le,
}
use composable_batch_erc.EntryPoint.Traces.{
  TraceWithMetadata, Recent, nothing_recent, set_recent, recent_parent,
}
use composable_batch_erc.EntryPoint.Reverts.{
  Relationships, no_relationships, relate, trim, build_from, build_sequential_relationships,
  find_ancestor_at_depth,
}

-- A caller comes before the calls that it makes.
IsDecreasing : Relationships → Type 0
IsDecreasing r = (child parent : ℕ) → r.parent_map child ≡ some parent → parent < child

IsBefore : ℕ → Recent → Type 0
IsBefore i recent = (depth j : ℕ) → recent depth ≡ some j → j < i

set_recent-IsBefore :
    (i depth : ℕ) (recent : Recent)
    → IsBefore i recent
    → IsBefore (suc i) (set_recent depth i (trim depth recent))
unfolding IsBefore
set_recent-IsBefore i depth recent h d j e = ground (arith, h d j)

parent-IsBefore :
    (i depth parent : ℕ) (recent : Recent)
    → IsBefore i recent
    → recent_parent (trim depth recent) depth ≡ some parent
    → parent < i
unfolding IsBefore
parent-IsBefore i zero parent recent h e = absurd (cc)
parent-IsBefore i (suc depth) parent recent h e = ground (arith, h depth parent)

relate-IsDecreasing :
    (i : ℕ) (parent : Option ℕ) (r : Relationships)
    → ((p : ℕ) → parent ≡ some p → p < i)
    → IsDecreasing r
    → IsDecreasing (relate i parent r)
unfolding IsDecreasing
relate-IsDecreasing i none r h k child p e = k child p e
relate-IsDecreasing i (some parent) r h k child p e = ground (arith, h parent refl, k child p)

build_from-IsDecreasing :
    (i : ℕ) (recent : Recent) (r : Relationships) (traces : List TraceWithMetadata)
    → IsBefore i recent
    → IsDecreasing r
    → IsDecreasing (build_from i recent r traces)
unfolding build_from
build_from-IsDecreasing i recent r [] h k = k
build_from-IsDecreasing i recent r (trace ∷ traces) h k =
    build_from-IsDecreasing (suc i) _ _ traces (set_recent-IsBefore i trace.depth recent h)
      (relate-IsDecreasing i _ r (λ p. parent-IsBefore i trace.depth p recent h) k)

build_sequential_relationships-IsDecreasing :
    (traces : List TraceWithMetadata) → IsDecreasing (build_sequential_relationships traces)
unfolding build_sequential_relationships IsBefore IsDecreasing
build_sequential_relationships-IsDecreasing traces =
    build_from-IsDecreasing 0 nothing_recent no_relationships traces (λ depth j e. absurd (cc))
      (λ child p e. absurd (cc))

module _ (traces : List TraceWithMetadata) (r : Relationships) (h : IsDecreasing r) where
  one_more :
      (fuel child target : ℕ)
      → child ≤ fuel
      → find_ancestor_at_depth traces r (suc fuel) child target
        ≡ find_ancestor_at_depth traces r fuel child target
  unfolding find_ancestor_at_depth IsDecreasing
  one_more zero child target enough = elim (Option-cases (r.parent_map child)) [
    | inl e ↦ rw (find_ancestor_at_depth, e) refl
    | inr (parent, e) ↦ absurd (omega (arith, h child parent e))
  ]
  one_more (suc fuel) child target enough = elim (Option-cases (r.parent_map child)) [
    | inl e ↦ rw (find_ancestor_at_depth, e) refl
    | inr (parent, e) ↦
        rw (find_ancestor_at_depth, e)
          (ground (arith, one_more fuel parent target (omega (arith, h child parent e))))
  ]

  find_ancestor_at_depth-enough :
      (fuel child target : ℕ)
      → child ≤ fuel
      → find_ancestor_at_depth traces r fuel child target
        ≡ find_ancestor_at_depth traces r child child target
  find_ancestor_at_depth-enough zero child target h =
      ap (λ n. find_ancestor_at_depth traces r n child target) (omega arith)
  find_ancestor_at_depth-enough (suc fuel) child target enough =
      elim (Bool-cases (leb child fuel)) [
        | inl e ↦
            one_more fuel child target (leb→le child fuel e)
            ∙ find_ancestor_at_depth-enough fuel child target (leb→le child fuel e)
        | inr e ↦ ap (λ n. find_ancestor_at_depth traces r n child target) (ground arith)
      ]

-- The walk from a call to its ancestor at a depth ends by itself: with any fuel of at least the
-- call's index it finds what it finds with that index as its fuel.
pub find_ancestor_at_depth-ends :
    (traces : List TraceWithMetadata) (fuel child target : ℕ)
    → child ≤ fuel
    → let r = build_sequential_relationships traces in
      find_ancestor_at_depth traces r fuel child target
      ≡ find_ancestor_at_depth traces r child child target
find_ancestor_at_depth-ends traces fuel child target =
    find_ancestor_at_depth-enough traces (build_sequential_relationships traces)
      (build_sequential_relationships-IsDecreasing traces) fuel child target
