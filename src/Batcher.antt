-- ===== src/Batcher.antt =====
-- `tryToBatchCompletedSimulations` of orchestrator-node/src/modules/batcher/batcher.service.ts. The
-- answers of the queues are arguments; what the function does to them is its result.
pub mod Blocks
pub mod Conservation
pub mod Limits
use composable_batch_erc.Common.{
  ℕ, ◌+◌, Bool, true, false, ◌&&◌, List, [], ◌∷◌, ◌++◌, Option, none, some, if◌then◌else◌, ltb,
}
use composable_batch_erc.Common.Text.{Text, codes}
use composable_batch_erc.UserOps.Interfaces.{MeeUserOp, MeeUserOpBatch}
use composable_batch_erc.UserOps.GasLimits.{Overrides, get_override_or_default}
use composable_batch_erc.UserOps.Packing.{HexOps, unpack_packed_user_op}

-- `gasEstimatorConfiguration`, as far as it is read here.
pub record BatcherConfig : Type 0 where
  pub paymaster_verification_gas : ℕ
  pub paymaster_post_op_gas : ℕ
  pub gas_limit_overrides : Overrides

module _ (hex : HexOps) (config : BatcherConfig) where
  -- All limits but `preVerificationGas`; a packed field that cannot be unpacked throws.
  unfoldable pub batched_gas_limit : MeeUserOp → Option ℕ
  unfolding get_override_or_default unpack_packed_user_op
  batched_gas_limit mee_user_op = elim (unpack_packed_user_op hex mee_user_op.user_op) [
    | none ↦ none
    | some user_op ↦ some (
        user_op.verification_gas_limit
        + user_op.call_gas_limit
        + get_override_or_default (codes "paymasterVerificationGasLimit")
            config.paymaster_verification_gas config.gas_limit_overrides
        + config.paymaster_post_op_gas)
  ]

-- The variables of the loop: the finished batches, the open one, and the hashes that were marked
-- with the error "Invalid maxGasLimit".
pub record Loop : Type 0 where
  pub batches : List MeeUserOpBatch
  pub batch : MeeUserOpBatch
  pub marked : List Text

abbrev pub empty_batch : MeeUserOpBatch
empty_batch = record { batch_gas_limit = 0; mee_user_ops = []; previous_tx_hash = none }

abbrev pub push_op : MeeUserOp → ℕ → MeeUserOpBatch → MeeUserOpBatch
push_op op gas batch = record batch {
  mee_user_ops = batch.mee_user_ops ++ op ∷ [];
  batch_gas_limit = batch.batch_gas_limit + gas;
}

-- One round of the loop, for an operation with its gas limit.
unfoldable pub add_op : ℕ → MeeUserOp → ℕ → Loop → Loop
add_op cap op gas s =
    if ltb cap gas
    then record s { marked = s.marked ++ op.mee_user_op_hash ∷ [] }
    else if ltb cap (s.batch.batch_gas_limit + gas)
    then record s { batches = s.batches ++ s.batch ∷ []; batch = push_op op gas empty_batch }
    else record s { batch = push_op op gas s.batch }

-- The loop; the Boolean tells whether it ended, or threw at an operation.
unfoldable pub batch_ops : (MeeUserOp → Option ℕ) → ℕ → List MeeUserOp → Loop → Loop × Bool
batch_ops limit cap [] s = (s, true)
batch_ops limit cap (op ∷ ops) s =
    let next = λ (gas : ℕ). batch_ops limit cap ops (add_op cap op gas s) in
    elim (limit op) [ none ↦ (s, false) | some gas ↦ next gas ]

abbrev pub is_empty {ℓ} : {A : Type ℓ} → List A → Bool
is_empty [] = true
is_empty (x ∷ xs) = false

-- `if (batch.meeUserOps.length > 0) batches.push(batch)`.
unfoldable pub finish_batches : Loop → List MeeUserOpBatch
finish_batches s = if is_empty s.batch.mee_user_ops then s.batches else s.batches ++ s.batch ∷ []

-- What a run does to the queues: the blocks it adds to the executor's queue, the operations whose
-- simulator jobs it removes, and the operations it marks.
pub record BatchRun : Type 0 where
  pub added : List MeeUserOpBatch
  pub removed : List MeeUserOp
  pub marked : List Text

abbrev pub idle : BatchRun
idle = record { added = []; removed = []; marked = [] }

-- `waiting` tells whether executor jobs wait, `add_succeeds` whether the queue takes the blocks.
unfoldable pub try_to_batch_completed_simulations :
    (MeeUserOp → Option ℕ) → ℕ → Bool → List MeeUserOp → Bool → BatchRun
unfolding batch_ops add_op finish_batches
try_to_batch_completed_simulations limit cap waiting jobs add_succeeds =
    let (s, ended) =
      batch_ops limit cap jobs (record { batches = []; batch = empty_batch; marked = [] }) in
    if waiting
    then idle
    else if is_empty jobs
    then idle
    else if ended && add_succeeds
    then record { added = finish_batches s; removed = jobs; marked = s.marked }
    else record { added = []; removed = []; marked = s.marked }
