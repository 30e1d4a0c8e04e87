-- ===== src/UserOps/Estimates.antt =====
-- `getDefaultUserOpGasLimits`, `getPaymasterAndData` and the gas limits of
-- `getPackedMeeUserOpWithGasEstimates` of orchestrator-node/src/modules/user-ops/userop.service.ts,
-- and `validateTimestamps` of common/utils/timestamp.ts. The hashes and viem's operations on hex values are parameters; what
-- throws is `none`.
pub mod Packed
use mathlib.Core.Option.{bind}
use composable_batch_erc.Common.{
  ℕ, zero, suc, ◌+◌, Bool, true, false, not, ◌&&◌, ◌||◌, List, [], ◌∷◌, Option, none, some,
  if◌then◌else◌, ltb,
}
use composable_batch_erc.Common.Text.{Text, codes, text_eq}
use composable_batch_erc.UserOps.Interfaces.{PackedUserOp, UserOp, MeeUserOp}
use composable_batch_erc.UserOps.GasLimits.{Overrides, get_override_or_default}
use composable_batch_erc.UserOps.Packing.{HexOps, pack_user_op}
use composable_batch_erc.GasEstimator.Conditions.{GasConditions}
use composable_batch_erc.GasEstimator.Layer1.{L1Gas}
use composable_batch_erc.Simulator.{or_default}

-- `gasEstimatorConfiguration`, the overrides of the chain, and the address of its paymaster.
pub record GasConfig : Type 0 where
  pub paymaster_verification_gas : ℕ
  pub paymaster_post_op_gas : ℕ
  pub sender_create_gas_limit : ℕ
  pub base_verification_gas_limit : ℕ
  pub fixed_handle_ops_gas : ℕ
  pub per_auth_base_cost : ℕ
  pub gas_limit_overrides : Overrides
  pub paymaster_address : Text

-- The windows of `userOpConfiguration`, in seconds, and `unixTimestamp()`.
pub record Windows : Type 0 where
  pub now : ℕ
  pub default_exec_window : ℕ
  pub max_wait_before_exec_start : ℕ
  pub max_exec_window : ℕ
  pub min_exec_window : ℕ

pub record MeeUserOpRequest : Type 0 where
  pub sender : Text
  pub nonce : ℕ
  pub init_code : Text
  pub call_data : Text
  pub call_gas_limit : ℕ
  pub verification_gas_limit : Option ℕ
  pub lower_bound_timestamp : Option ℕ
  pub upper_bound_timestamp : Option ℕ
  pub execution_simulation_retry_delay : Option ℕ
  pub eip7702_auth : Option Text
  pub is_clean_up_user_op : Bool

pub record PaymentInfo : Type 0 where
  pub sponsored : Bool
  pub gas_refund_address : Option Text
  pub sender : Text

pub record EstimationGasLimits : Type 0 where
  pub verification_gas_limit : ℕ
  pub call_gas_limit : ℕ

-- The flags of a call.
pub record EstimateFlags : Type 0 where
  pub is_trusted_sponsorship : Bool
  pub is_account_deployment_required : Bool
  pub is_payment_user_op : Bool

-- The hash of the packed user operation (random for the payment of a trusted sponsorship), and the
-- hash that adds the time bounds to it.
pub record Hashes : Type 0 where
  pub user_op_hash_of : Bool → PackedUserOp → Text
  pub mee_user_op_hash_of : Text → ℕ → ℕ → Text

pub record UserOpGas : Type 0 where
  pub verification_gas_limit : ℕ
  pub call_gas_limit : ℕ
  pub paymaster_verification_gas_limit : ℕ
  pub post_op_gas_limit : ℕ
  pub pre_verification_gas : ℕ

-- `value ?? other`.
abbrev pub or_missing {ℓ} : {A : Type ℓ} → Option A → A → A
or_missing none other = other
or_missing (some a) other = a

unfoldable pub are_timestamps_valid : Windows → (lower upper : ℕ) → Bool
are_timestamps_valid windows lower upper =
    not (ltb (windows.now + windows.max_wait_before_exec_start) lower)
    && not (ltb (lower + windows.max_exec_window) upper)
    && not (ltb upper (lower + windows.min_exec_window))

abbrev pub no_code : Text
no_code = codes "0x"

abbrev pub is_given : Option Text → Bool
is_given none = false
is_given (some auth) = true

abbrev pub simulated_or : Option EstimationGasLimits → (verification call : ℕ) → ℕ × ℕ
simulated_or none verification call = (verification, call)
simulated_or (some limits) verification call = (
  or_default (some limits.verification_gas_limit) verification,
  or_default (some limits.call_gas_limit) call,
)

abbrev pub no_gas : UserOpGas
no_gas = record {
  verification_gas_limit = 0;
  call_gas_limit = 0;
  paymaster_verification_gas_limit = 0;
  post_op_gas_limit = 0;
  pre_verification_gas = 0;
}

-- The code that deploys the account, if it is to be deployed.
abbrev pub init_code_of : MeeUserOpRequest → EstimateFlags → Text
init_code_of request flags =
    if not (text_eq request.init_code no_code) && flags.is_account_deployment_required
    then request.init_code
    else no_code

abbrev pub is_trusted_payment : EstimateFlags → Bool
is_trusted_payment flags = flags.is_payment_user_op && flags.is_trusted_sponsorship

module _ (config : GasConfig) where
  abbrev pub override : Text → ℕ → ℕ
  override key default_value = get_override_or_default key default_value config.gas_limit_overrides

  unfoldable pub default_verification_gas_limit : MeeUserOpRequest → Text → ℕ
  unfolding get_override_or_default text_eq
  default_verification_gas_limit request init_code =
      or_default request.verification_gas_limit
        (override (codes "baseVerificationGasLimit") config.base_verification_gas_limit)
      + (if text_eq init_code no_code
          then 0
          else override (codes "senderCreateGasLimit") config.sender_create_gas_limit)

  unfoldable pub default_pre_verification_gas : Option Text → ℕ
  unfolding get_override_or_default
  default_pre_verification_gas auth =
      override (codes "fixedHandleOpsGas") config.fixed_handle_ops_gas
      + (if is_given auth then override (codes "perAuthBaseCost") config.per_auth_base_cost else 0)

  unfoldable pub paymaster_verification_gas_limit : ℕ
  unfolding get_override_or_default
  paymaster_verification_gas_limit =
      override (codes "paymasterVerificationGasLimit") config.paymaster_verification_gas

  -- The data behind the two gas limits: the mode, and unless it is KEEP who gets the refund.
  unfoldable pub paymaster_data : HexOps → PaymentInfo → Bool → Text
  paymaster_data hex payment trusted =
      let mode =
        if payment.sponsored || is_given payment.gas_refund_address
        then codes "0x170de001"
        else codes "0x170de000" in
      let refund_address =
        if payment.sponsored
        then payment.sender
        else or_missing payment.gas_refund_address no_code in
      if trusted
      then hex.concat_hex (codes "0x170de002" ∷ [])
      else hex.concat_hex (mode ∷ codes "0x9ee4ce01" ∷ refund_address ∷ [])

  unfoldable pub get_paymaster_and_data : HexOps → PaymentInfo → Bool → Option Text
  unfolding paymaster_data paymaster_verification_gas_limit bind
  get_paymaster_and_data hex payment trusted =
      bind (hex.pad_left (hex.to_hex paymaster_verification_gas_limit) 16) λ verification.
        bind (hex.pad_left (hex.to_hex config.paymaster_post_op_gas) 16) λ post_op. some (
          hex.concat_hex (
            config.paymaster_address
            ∷ verification
            ∷ post_op
            ∷ paymaster_data hex payment trusted
            ∷ []))

  -- The gas limits, before the gas of the first layer.
  unfoldable pub user_op_gas :
      MeeUserOpRequest → EstimateFlags → Option EstimationGasLimits → UserOpGas
  unfolding default_verification_gas_limit default_pre_verification_gas
      paymaster_verification_gas_limit
  user_op_gas request flags simulated =
      let limits =
        simulated_or simulated (default_verification_gas_limit request (init_code_of request flags))
          request.call_gas_limit in
      if is_trusted_payment flags then no_gas else record {
        verification_gas_limit = limits.0;
        call_gas_limit = limits.1;
        paymaster_verification_gas_limit = paymaster_verification_gas_limit;
        post_op_gas_limit = config.paymaster_post_op_gas;
        pre_verification_gas = default_pre_verification_gas request.eip7702_auth;
      }
