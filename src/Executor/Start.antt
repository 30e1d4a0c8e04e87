-- ===== src/Executor/Start.antt =====
-- How `processJob` of orchestrator-node/src/modules/executor/executor.processor.ts prepares a
-- block: the authorizations without repetition, and what it writes of started and of expired user
-- operations. An authorization is its serialized form, by which the code compares them.
pub mod Distinct
use composable_batch_erc.Common.{Bool, List, [], ◌∷◌, none, some, if◌then◌else◌, any}
use composable_batch_erc.Common.Text.{Text, codes, text_eq}
use composable_batch_erc.UserOps.Interfaces.{MeeUserOp}
use composable_batch_erc.Executor.Records.{
  Context, StorageCall, update_fields, create_execution_started_at, no_fields,
}

abbrev pub has : Text → List Text → Bool
has auth = any (λ other. text_eq other auth)

-- The loop, with `authHashMap`, the authorizations that were met.
unfoldable pub authorizations_after : List Text → List MeeUserOp → List Text
authorizations_after met [] = []
authorizations_after met (op ∷ ops) = elim op.eip7702_auth [
  | none ↦ authorizations_after met ops
  | some auth ↦
      let again = authorizations_after met ops in
      let first = authorizations_after (auth ∷ met) ops in
      if has auth met then again else auth ∷ first
]

unfoldable pub authorization_list : List MeeUserOp → List Text
unfolding authorizations_after
authorization_list = authorizations_after []

unfoldable pub started_calls : Context → List MeeUserOp → List StorageCall
started_calls ctx [] = []
started_calls ctx (op ∷ ops) =
    create_execution_started_at op.mee_user_op_hash ctx.now ∷ started_calls ctx ops

unfoldable pub expired_calls : Context → List MeeUserOp → List StorageCall
expired_calls ctx [] = []
expired_calls ctx (op ∷ ops) =
    update_fields op.mee_user_op_hash (record no_fields {
      error = some (codes "Execution deadline limit exceeded");
      execution_started_at = some ctx.now;
      execution_finished_at = some ctx.now;
    })
    ∷ expired_calls ctx ops
