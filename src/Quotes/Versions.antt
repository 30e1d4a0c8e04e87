-- ===== src/Quotes/Versions.antt =====
-- `isVersionConsistentAndAboveTarget` of
-- orchestrator-node/src/modules/quotes/quotes.service.ts. The comparisons of semver are parameters.
use composable_batch_erc.Common.{
  Bool, true, false, not, List, [], ◌∷◌, Option, none, some, if◌then◌else◌, all, All, ◌≡◌, ◌↔◌,
  arith,
}
use composable_batch_erc.Common.Text.{Text}

pub record Semver : Type 0 where
  pub gte : Text → Text → Bool
  pub lt : Text → Text → Bool

module _ (semver : Semver) where
  -- The side of the target on which every version has to be.
  abbrev pub is_on_side : Bool → Text → Text → Bool
  is_on_side above target version =
      if above then semver.gte version target else semver.lt version target

  -- `none` is the exception for versions on both sides.
  unfoldable pub is_version_consistent_and_above_target : Text → List Text → Option Bool
  is_version_consistent_and_above_target target [] = some false
  is_version_consistent_and_above_target target (version ∷ []) = some (semver.gte version target)
  is_version_consistent_and_above_target target (version ∷ second ∷ versions) =
      let res = semver.gte version target in
      if all (is_on_side res target) (version ∷ second ∷ versions) then some res else none

  module _ (opposite : (v t : Text) → semver.lt v t ≡ not (semver.gte v t)) where
    all_on_side :
        (above : Bool) (target : Text) (versions : List Text)
        → (all (is_on_side above target) versions ≡ true)
          ↔ All (λ v. semver.gte v target ≡ above) versions
    all_on_side above target [] = ground arith
    all_on_side true target (v ∷ versions) = ground (arith, all_on_side true target versions)
    all_on_side false target (v ∷ versions) =
        ground (arith, opposite v target, all_on_side false target versions)

    -- If there is a version, the answer is `above` exactly if every version is on that side of the
    -- target; in particular versions on both sides have no answer. semver's `lt` is the negation of
    -- its `gte`.
    pub is_version_consistent_and_above_target_iff :
        (target version : Text) (versions : List Text) (above : Bool)
        → (is_version_consistent_and_above_target target (version ∷ versions) ≡ some above)
          ↔ All (λ v. semver.gte v target ≡ above) (version ∷ versions)
    unfolding is_version_consistent_and_above_target
    is_version_consistent_and_above_target_iff target version [] above = ground arith
    is_version_consistent_and_above_target_iff target version (second ∷ versions) above = ground (
      arith,
      all_on_side above target (version ∷ second ∷ versions),
      all_on_side (semver.gte version target) target (version ∷ second ∷ versions),
    )
