-- ===== src/Executor/Confirmation.antt =====
-- `handleSupertransactionExecutionResult` of
-- orchestrator-node/src/modules/executor/executor.processor.ts: what a block's receipt writes to
-- the storage. The asset transfers, which the node looks up and stores afterwards, are left out.
pub mod Updates
use composable_batch_erc.Common.{
  ℕ, Bool, true, false, List, [], ◌∷◌, ◌++◌, Option, none, some, if◌then◌else◌, keep,
}
use composable_batch_erc.Common.Text.{Text, codes, text_eq, to_lower_case}
use composable_batch_erc.Common.Assoc.{lookup, insert}
use composable_batch_erc.UserOps.Interfaces.{MeeUserOp}
use composable_batch_erc.Executor.Records.{
  CustomFields, StorageCall, update_fields, EntryPointEvent, user_operation_event, other_event,
  Receipt, no_fields, World, call_storage, Context,
}

unfoldable pub find_user_op : Text → List MeeUserOp → Option MeeUserOp
find_user_op user_op_hash [] = none
find_user_op user_op_hash (op ∷ ops) =
    if text_eq (to_lower_case op.user_op_hash) (to_lower_case user_op_hash)
    then some op
    else find_user_op user_op_hash ops

-- `meeUserOpProcessedStateMap`.
abbrev pub Processed : Type 0
Processed = List (Text × Bool)

unfoldable pub is_processed : Processed → Text → Bool
is_processed processed hash = elim (lookup hash processed) [ none ↦ false | some b ↦ b ]

module _ (ctx : Context) (tx_hash : Text) (is_confirmed : Bool) where
  unfoldable pub result_fields : Option ℕ → Option Text → CustomFields
  result_fields actual_gas_cost error = record no_fields {
    error = error;
    tx_hash = some tx_hash;
    execution_finished_at = some ctx.now;
    actual_gas_cost = actual_gas_cost;
    is_confirmed = some is_confirmed;
    confirmations = some (if is_confirmed then ctx.wait_confirmations else 1);
  }

  -- No receipt: the user operations are taken as executed.
  unfoldable pub without_receipt : List MeeUserOp → List StorageCall
  unfolding result_fields
  without_receipt [] = []
  without_receipt (op ∷ ops) =
      update_fields op.mee_user_op_hash (result_fields none none) ∷ without_receipt ops

  unfoldable pub event_fields : Bool → ℕ → CustomFields
  unfolding result_fields
  event_fields success actual_gas_cost =
      result_fields (some actual_gas_cost)
        (if success then none else some (codes "UserOperation reverted"))

  -- The loop over the events.
  unfoldable pub handle_events :
      List MeeUserOp → List EntryPointEvent → Processed → List StorageCall × Processed
  unfolding event_fields
  handle_events ops [] processed = ([], processed)
  handle_events ops (other_event ∷ events) processed = handle_events ops events processed
  handle_events ops (user_operation_event user_op_hash success cost ∷ events) processed =
      elim (find_user_op user_op_hash ops) [
        | none ↦ handle_events ops events processed
        | some op ↦
            let (calls, processed') =
              handle_events ops events (insert op.mee_user_op_hash true processed) in
            (update_fields op.mee_user_op_hash (event_fields success cost) ∷ calls, processed')
      ]

  -- The loop over the user operations that no event named.
  unfoldable pub mark_unprocessed : Processed → List MeeUserOp → List StorageCall
  unfolding result_fields is_processed
  mark_unprocessed processed [] = []
  mark_unprocessed processed (op ∷ ops) =
      let rest = mark_unprocessed processed ops in
      if is_processed processed op.mee_user_op_hash
      then rest
      else update_fields op.mee_user_op_hash
          (result_fields none (some (codes "Failed to execute userOp")))
        ∷ rest

  unfoldable pub result_calls : List MeeUserOp → Option Receipt → List StorageCall
  unfolding without_receipt handle_events mark_unprocessed
  result_calls ops none = without_receipt ops
  result_calls ops (some receipt) =
      let (calls, processed) = handle_events ops receipt.events [] in
      calls ++ mark_unprocessed processed ops

  unfoldable pub handle_supertransaction_execution_result :
      List MeeUserOp → Option Receipt → World → World
  unfolding result_calls
  handle_supertransaction_execution_result ops receipt w = call_storage (result_calls ops receipt) w
