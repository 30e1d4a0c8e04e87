-- ===== src/UserOps/Estimates/Packed.antt =====
-- `getPackedMeeUserOpWithGasEstimates` of orchestrator-node/src/modules/user-ops/userop.service.ts.
use mathlib.Core.Option.{bind}
use composable_batch_erc.Common.{ℕ, ◌+◌, not, ◌&&◌, [], Option, none, some, if◌then◌else◌}
use composable_batch_erc.Common.Text.{Text}
use composable_batch_erc.UserOps.Interfaces.{PackedUserOp, UserOp, MeeUserOp}
use composable_batch_erc.UserOps.Packing.{HexOps, pack_user_op}
use composable_batch_erc.UserOps.Estimates.{
  GasConfig, Windows, MeeUserOpRequest, PaymentInfo, EstimationGasLimits, EstimateFlags, Hashes,
  UserOpGas, or_missing, are_timestamps_valid, no_code, get_paymaster_and_data, init_code_of,
  is_trusted_payment, user_op_gas,
}
use composable_batch_erc.GasEstimator.Conditions.{GasConditions}
use composable_batch_erc.GasEstimator.Layer1.{L1Gas}

abbrev pub crafted : MeeUserOpRequest → EstimateFlags → UserOpGas → GasConditions → Text → UserOp
crafted request flags gas fees paymaster_and_data = record {
  sender = request.sender;
  nonce = request.nonce;
  init_code = init_code_of request flags;
  call_data = request.call_data;
  call_gas_limit = gas.call_gas_limit;
  verification_gas_limit = gas.verification_gas_limit;
  max_fee_per_gas = if is_trusted_payment flags then 0 else fees.max_fee_per_gas;
  max_priority_fee_per_gas = if is_trusted_payment flags then 0 else fees.max_priority_fee_per_gas;
  paymaster_and_data = paymaster_and_data;
  pre_verification_gas = gas.pre_verification_gas;
  signature = [];
}

-- The sum of all limits.
abbrev pub max_gas_limit_of : UserOpGas → ℕ → ℕ
max_gas_limit_of gas pre_verification_gas =
    pre_verification_gas + gas.verification_gas_limit + gas.call_gas_limit
    + gas.paymaster_verification_gas_limit + gas.post_op_gas_limit

abbrev pub lower_bound : Windows → MeeUserOpRequest → EstimateFlags → ℕ
lower_bound windows request flags =
    or_missing request.lower_bound_timestamp (if flags.is_payment_user_op then 0 else windows.now)

abbrev pub upper_bound : Windows → MeeUserOpRequest → ℕ
upper_bound windows request =
    or_missing request.upper_bound_timestamp (windows.now + windows.default_exec_window)

-- From the packed user operation and the gas of the first layer on.
unfoldable pub finish_estimates :
    Windows
    → Hashes
    → MeeUserOpRequest
    → EstimateFlags
    → UserOpGas
    → L1Gas
    → PackedUserOp
    → MeeUserOp
finish_estimates windows hashes request flags gas l1_gas packed =
    let pre_verification_gas = gas.pre_verification_gas + l1_gas.l1_gas_used_in_terms_of_l2 in
    let user_op : PackedUserOp = record packed { pre_verification_gas = pre_verification_gas } in
    let user_op_hash = hashes.user_op_hash_of (is_trusted_payment flags) user_op in
    let lower = lower_bound windows request flags in
    let upper = upper_bound windows request in
    record {
      user_op = user_op;
      user_op_hash = user_op_hash;
      mee_user_op_hash = hashes.mee_user_op_hash_of user_op_hash lower upper;
      lower_bound_timestamp = lower;
      upper_bound_timestamp = upper;
      execution_simulation_retry_delay = request.execution_simulation_retry_delay;
      max_gas_limit = max_gas_limit_of gas pre_verification_gas;
      is_clean_up_user_op = request.is_clean_up_user_op;
      eip7702_auth = request.eip7702_auth;
    }

abbrev pub no_l1_gas : L1Gas
no_l1_gas = record { l1_gas_used_in_terms_of_l2 = 0; l1_fee = 0 }

-- `conditions` and `l1_gas` are the given ones or the answers of the gas estimator; the gas of the
-- first layer is not asked for where a trusted sponsorship pays.
unfoldable pub get_packed_mee_user_op_with_gas_estimates :
    GasConfig
    → HexOps
    → Hashes
    → Windows
    → MeeUserOpRequest
    → PaymentInfo
    → EstimateFlags
    → Option EstimationGasLimits
    → (conditions : Option GasConditions) → (l1_gas : Option L1Gas)
    → Option (MeeUserOp × GasConditions × L1Gas)
unfolding bind
get_packed_mee_user_op_with_gas_estimates config hex hashes windows request payment flags simulated
      conditions l1_gas =
    let gas = user_op_gas config request flags simulated in
    let lower = lower_bound windows request flags in
    let upper = upper_bound windows request in
    if not flags.is_payment_user_op && not (are_timestamps_valid windows lower upper)
    then none
    else bind conditions λ fees.
      bind
        (if is_trusted_payment flags
          then some no_code
          else get_paymaster_and_data config hex payment flags.is_trusted_sponsorship)
        λ paymaster. bind (pack_user_op hex (crafted request flags gas fees paymaster)) λ packed.
          bind (if is_trusted_payment flags then some no_l1_gas else l1_gas)
            λ l1. some (finish_estimates windows hashes request flags gas l1 packed, fees, l1)
