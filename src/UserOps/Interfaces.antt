-- ===== src/UserOps/Interfaces.antt =====
-- `SignedPackedMeeUserOp` and `MeeUserOpBatch` of
-- orchestrator-node/src/modules/user-ops/interfaces.ts and schemas.ts, with the fields that the
-- modelled code reads. Hex values are texts; an authorization is its serialized form.
use composable_batch_erc.Common.{ℕ, Bool, List, Option}
use composable_batch_erc.Common.Text.{Text}

pub record PackedUserOp : Type 0 where
  pub sender : Text
  pub nonce : ℕ
  pub init_code : Text
  pub call_data : Text
  pub account_gas_limits : Text
  pub pre_verification_gas : ℕ
  pub gas_fees : Text
  pub paymaster_and_data : Text
  pub signature : Text

pub record UserOp : Type 0 where
  pub sender : Text
  pub nonce : ℕ
  pub init_code : Text
  pub call_data : Text
  pub call_gas_limit : ℕ
  pub verification_gas_limit : ℕ
  pub max_fee_per_gas : ℕ
  pub max_priority_fee_per_gas : ℕ
  pub paymaster_and_data : Text
  pub pre_verification_gas : ℕ
  pub signature : Text

pub record MeeUserOp : Type 0 where
  pub user_op : PackedUserOp
  pub user_op_hash : Text
  pub mee_user_op_hash : Text
  pub lower_bound_timestamp : ℕ
  pub upper_bound_timestamp : ℕ
  pub execution_simulation_retry_delay : Option ℕ
  pub max_gas_limit : ℕ
  pub is_clean_up_user_op : Bool
  pub eip7702_auth : Option Text

pub record MeeUserOpBatch : Type 0 where
  pub batch_gas_limit : ℕ
  pub mee_user_ops : List MeeUserOp
  pub previous_tx_hash : Option Text
