-- ===== src/Quotes/Scheduling.antt =====
-- `executeQuote` of orchestrator-node/src/modules/quotes/quotes.service.ts: the simulator's jobs for
-- the user operations of a quote, grouped by their chains. The groups of an object are listed in the
-- order of their first user operations; their calls of `addJobs` are concurrent.
pub mod Groups
use composable_batch_erc.Common.{
  Bool, true, false, ◌&&◌, List, [], ◌∷◌, ◌++◌, Option, none, some, if◌then◌else◌, map,
}
use composable_batch_erc.Common.Text.{Text}
use composable_batch_erc.Common.Assoc.{lookup, insert}
use composable_batch_erc.MerkleTree.{QuotedUserOp}

-- `SimulatorJobData` as far as it is set here.
pub record ScheduledJob : Type 0 where
  pub mee_user_op : QuotedUserOp
  pub force_execute : Bool

abbrev pub Groups : Type 0
Groups = List (Text × List QuotedUserOp)

abbrev pub or_empty : Option (List QuotedUserOp) → List QuotedUserOp
or_empty none = []
or_empty (some ops) = ops

abbrev pub or_false : Option Bool → Bool
or_false none = false
or_false (some b) = b

unfoldable pub push_op : QuotedUserOp → Groups → Groups
push_op op groups = insert op.chain_id (or_empty (lookup op.chain_id groups) ++ op ∷ []) groups

unfoldable pub user_ops_by_chain : List QuotedUserOp → Groups → Groups
user_ops_by_chain [] groups = groups
user_ops_by_chain (op ∷ ops) groups = user_ops_by_chain ops (push_op op groups)

-- A clean-up operation lets all user operations of its chain be executed in any case.
unfoldable pub force_execute_by_chain : List QuotedUserOp → List (Text × Bool) → List (Text × Bool)
force_execute_by_chain [] forced = forced
force_execute_by_chain (op ∷ ops) forced =
    force_execute_by_chain ops
      (if op.op.is_clean_up_user_op then insert op.chain_id true forced else forced)

abbrev pub jobs_of : List (Text × Bool) → Text × List QuotedUserOp → Text × List ScheduledJob
jobs_of forced (chain_id, ops) = (
  chain_id,
  map (λ op. record { mee_user_op = op; force_execute = or_false (lookup chain_id forced) }) ops,
)

-- The calls of `addJobs`.
unfoldable pub scheduled_jobs : List QuotedUserOp → List (Text × List ScheduledJob)
scheduled_jobs ops = map (jobs_of (force_execute_by_chain ops [])) (user_ops_by_chain ops [])
