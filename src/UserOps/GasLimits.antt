-- ===== src/UserOps/GasLimits.antt =====
-- `getOverrideOrDefault` of orchestrator-node/src/modules/user-ops/utils/get-override-or-default.ts.
-- The overrides of a chain are an object with optional values, or absent.
use composable_batch_erc.Common.{ℕ, Option, none, some, List}
use composable_batch_erc.Common.Text.{Text}
use composable_batch_erc.Common.Assoc.{lookup}

abbrev pub Overrides : Type 0
Overrides = Option (List (Text × Option ℕ))

unfoldable pub get_override_or_default : Text → ℕ → Overrides → ℕ
get_override_or_default key default_value none = default_value
get_override_or_default key default_value (some overrides) = elim (lookup key overrides) [
  | none ↦ default_value
  | some none ↦ default_value
  | some (some override_value) ↦ override_value
]
