-- ===== src/Executor/Records.antt =====
-- What the processor of orchestrator-node/src/modules/executor/executor.processor.ts reads and
-- changes: the user operations' fields in storage, the job's data, the executor queue, the nonces
-- and the transactions that were sent. Interfaces are those of executor/interfaces.ts.
use composable_batch_erc.Common.{ℕ, ◌+◌, Bool, List, [], ◌∷◌, ◌++◌, Option, none, Reply, ok, thrown}
use composable_batch_erc.Common.Text.{Text}
use composable_batch_erc.NonceManager.{Nonces}
use composable_batch_erc.UserOps.Interfaces.{MeeUserOp, MeeUserOpBatch}

-- The fields that one `updateUserOpCustomFields` sets; `none` is a field that it leaves alone.
pub record CustomFields : Type 0 where
  pub error : Option Text
  pub tx_hash : Option Text
  pub execution_started_at : Option ℕ
  pub execution_finished_at : Option ℕ
  pub actual_gas_cost : Option ℕ
  pub is_confirmed : Option Bool
  pub confirmations : Option ℕ

abbrev pub no_fields : CustomFields
no_fields = record {
  error = none;
  tx_hash = none;
  execution_started_at = none;
  execution_finished_at = none;
  actual_gas_cost = none;
  is_confirmed = none;
  confirmations = none;
}

-- The calls of the storage service, each with the hash of its user operation.
pub data StorageCall : Type 0 where
  update_fields : Text → CustomFields → StorageCall
  create_execution_started_at : Text → ℕ → StorageCall

-- The events of the entry point that `parseEventLogs` reads in a receipt.
pub data EntryPointEvent : Type 0 where
  user_operation_event : Text → Bool → ℕ → EntryPointEvent
  other_event : EntryPointEvent

pub record Receipt : Type 0 where
  pub transaction_hash : Text
  pub is_reverted : Bool
  pub events : List EntryPointEvent

-- What the code throws or catches: an `Error` with its message, an `UnrecoverableError`, or any
-- other value.
pub data Failure : Type 0 where
  error_of unrecoverable : Text → Failure
  not_an_error : Failure

pub record ExecuteOptions : Type 0 where
  pub max_fee_per_gas : ℕ
  pub max_priority_fee_per_gas : ℕ
  pub nonce : ℕ

pub data ExecutorTxRequest : Type 0 where
  legacy : (nonce gas_price : ℕ) → ExecutorTxRequest
  eip1559 : (nonce max_fee_per_gas max_priority_fee_per_gas : ℕ) → ExecutorTxRequest
  eip7702 :
      (nonce max_fee_per_gas max_priority_fee_per_gas : ℕ) (authorization_list : List Text)
      → ExecutorTxRequest

-- One `executeRequest` with `writeContract` or `writeContractSync`, which calls one provider after
-- another, each with the same request; `providers_tried` counts the calls.
pub record Sent : Type 0 where
  pub user_ops : List MeeUserOp
  pub request : ExecutorTxRequest
  pub providers_tried : ℕ

-- The settings of the chain, the worker's address and the time, which the processor only reads.
pub record Context : Type 0 where
  pub chain_id : Text
  pub worker_address : Text
  pub now : ℕ
  pub unix_timestamp : ℕ
  pub wait_confirmations : ℕ
  pub min_max_fee_per_gas : Option ℕ
  pub is_low_block_time_chain : Bool
  pub queue_job_attempts : ℕ

-- All that the processor changes. Storage calls, added jobs and transactions are in their order.
pub record World : Type 0 where
  pub calls : List StorageCall
  pub nonces : Nonces
  pub job : MeeUserOpBatch
  pub added_jobs : List MeeUserOpBatch
  pub sent : List Sent

abbrev pub call_storage : List StorageCall → World → World
call_storage calls w = record w { calls = w.calls ++ calls }

-- An awaited call that returns or throws, and what follows it if it returns.
unfoldable pub and_then :
    {A B : Type 0}
    → Reply Failure A × World
    → (A → World → Reply Failure B × World)
    → Reply Failure B × World
and_then (ok a, w) next = next a w
and_then (thrown e, w) next = (thrown e, w)

-- What holds of each answer and of the failures of a call holds of the whole.
pub and_then_lem :
    {A B : Type 0} (P : Reply Failure B × World → Type 0) (call : Reply Failure A × World)
    (next : A → World → Reply Failure B × World)
    → ((a : A) → P (next a call.1))
    → ((e : Failure) → P (thrown e, call.1))
    → P (and_then call next)
unfolding and_then
and_then_lem P (ok a, w) next h k = h a
and_then_lem P (thrown e, w) next h k = k e

-- A call that changes the nonces only.
abbrev pub with_nonces : {A : Type 0} → World → Reply Failure A × Nonces → Reply Failure A × World
with_nonces w (reply, nonces) = (reply, record w { nonces = nonces })

-- `meeUserOps.reduce((gasLimit, { maxGasLimit }) => gasLimit + maxGasLimit, 0n)`.
unfoldable pub total_gas_limit : List MeeUserOp → ℕ
total_gas_limit [] = 0
total_gas_limit (op ∷ ops) = op.max_gas_limit + total_gas_limit ops
