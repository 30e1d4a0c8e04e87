-- ===== src/Batcher/Limits.antt =====
-- The gas limit that the batcher adds up for a user operation is the one that the user operation
-- service promised for it: orchestrator-node/src/modules/user-ops/userop.service.ts and
-- batcher/batcher.service.ts.
use mathlib.Core.Option.{bind}
use composable_batch_erc.Common.{
  ℕ, ◌+◌, ◌^◌, ◌<◌, Bool, false, not, ◌&&◌, [], ◌∷◌, Option, none, some, ◌≡◌, refl, ap, ◌∙◌, arith,
}
use composable_batch_erc.Common.Text.{Text}
use composable_batch_erc.UserOps.Interfaces.{PackedUserOp, UserOp, MeeUserOp}
use composable_batch_erc.UserOps.Packing.{
  HexOps, unpacked_with, pack_user_op, unpack_packed_user_op,
}
use composable_batch_erc.UserOps.Packing.RoundTrip.{HexLaws, unpack_packed_user_op-pack_user_op}
use composable_batch_erc.UserOps.Estimates.{
  GasConfig, Windows, MeeUserOpRequest, PaymentInfo, EstimationGasLimits, EstimateFlags, Hashes,
  UserOpGas, are_timestamps_valid, get_paymaster_and_data, paymaster_data, is_trusted_payment,
  user_op_gas, paymaster_verification_gas_limit,
}
use composable_batch_erc.UserOps.Estimates.Packed.{
  crafted, lower_bound, upper_bound, finish_estimates, get_packed_mee_user_op_with_gas_estimates,
}
use composable_batch_erc.GasEstimator.Conditions.{GasConditions}
use composable_batch_erc.GasEstimator.Layer1.{L1Gas}
use composable_batch_erc.Batcher.{BatcherConfig, batched_gas_limit}

-- The part of the configuration that the batcher reads.
abbrev pub batcher_config : GasConfig → BatcherConfig
batcher_config config = record {
  paymaster_verification_gas = config.paymaster_verification_gas;
  paymaster_post_op_gas = config.paymaster_post_op_gas;
  gas_limit_overrides = config.gas_limit_overrides;
}

abbrev with_gas : ℕ → Option UserOp → Option UserOp
with_gas n none = none
with_gas n (some op) = some (record op { pre_verification_gas = n })

unpacked_with-with_gas :
    (hex : HexOps) (op : PackedUserOp) (n : ℕ) (a b : Option (ℕ × ℕ))
    → unpacked_with hex (record op { pre_verification_gas = n }) a b
      ≡ with_gas n (unpacked_with hex op a b)
unpacked_with-with_gas hex op n none b = refl
unpacked_with-with_gas hex op n (some a) none = refl
unpacked_with-with_gas hex op n (some (a, a')) (some (b, b')) = refl

-- The gas before the verification does not take part in the unpacking.
unpack_packed_user_op-with_gas :
    (hex : HexOps) (packed : PackedUserOp) (op : UserOp) (n : ℕ)
    → unpack_packed_user_op hex packed ≡ some op
    → unpack_packed_user_op hex (record packed { pre_verification_gas = n })
      ≡ some (record op { pre_verification_gas = n })
unfolding unpack_packed_user_op
unpack_packed_user_op-with_gas hex packed op n h =
    unpacked_with-with_gas hex packed n _ _ ∙ ap (with_gas n) h

module _ (hex : HexOps) (laws : HexLaws hex) (config : GasConfig) where
  get_paymaster_and_data-some :
      (payment : PaymentInfo) (trusted : Bool)
      → paymaster_verification_gas_limit config < 2 ^ 128
      → config.paymaster_post_op_gas < 2 ^ 128
      → (s : Text) × (get_paymaster_and_data config hex payment trusted ≡ some s)
  unfolding get_paymaster_and_data bind
  get_paymaster_and_data-some payment trusted h k =
      let (x, e, _, _) = laws.pad-to_hex (paymaster_verification_gas_limit config) h in
      let (y, f, _, _) = laws.pad-to_hex config.paymaster_post_op_gas k in
      (
        hex.concat_hex
            (config.paymaster_address ∷ x ∷ y ∷ paymaster_data config hex payment trusted ∷ []),
        rw (get_paymaster_and_data, e, f) refl,
      )

  batched_gas_limit-unpacked :
      (op : MeeUserOp) (user_op : UserOp)
      → unpack_packed_user_op hex op.user_op ≡ some user_op
      → batched_gas_limit hex (batcher_config config) op
        ≡ some (
            user_op.verification_gas_limit
            + user_op.call_gas_limit
            + paymaster_verification_gas_limit config
            + config.paymaster_post_op_gas)
  unfolding batched_gas_limit paymaster_verification_gas_limit
  batched_gas_limit-unpacked op user_op h = rw (batched_gas_limit, h) refl

  user_op_gas-paymaster :
      (request : MeeUserOpRequest) (flags : EstimateFlags) (simulated : Option EstimationGasLimits)
      → is_trusted_payment flags ≡ false
      → let gas = user_op_gas config request flags simulated in
        (gas.paymaster_verification_gas_limit ≡ paymaster_verification_gas_limit config)
        × (gas.post_op_gas_limit ≡ config.paymaster_post_op_gas)
  unfolding user_op_gas
  user_op_gas-paymaster request flags simulated untrusted =
      (rw (user_op_gas, untrusted) refl, rw (user_op_gas, untrusted) refl)

  crafted-fees :
      (request : MeeUserOpRequest) (flags : EstimateFlags) (gas : UserOpGas) (fees : GasConditions)
      (paymaster : Text)
      → is_trusted_payment flags ≡ false
      → let user_op = crafted request flags gas fees paymaster in
        (user_op.max_priority_fee_per_gas ≡ fees.max_priority_fee_per_gas)
        × (user_op.max_fee_per_gas ≡ fees.max_fee_per_gas)
  crafted-fees request flags gas fees paymaster untrusted = (rw untrusted refl, rw untrusted refl)

  estimates-build :
      (hashes : Hashes) (windows : Windows) (request : MeeUserOpRequest) (payment : PaymentInfo)
      (flags : EstimateFlags) (simulated : Option EstimationGasLimits) (fees : GasConditions)
      (l1_gas : L1Gas) (paymaster : Text) (packed : PackedUserOp)
      → is_trusted_payment flags ≡ false
      → (not flags.is_payment_user_op
          && not (
              are_timestamps_valid windows
                (lower_bound windows request flags)
                (upper_bound windows request)))
        ≡ false
      → get_paymaster_and_data config hex payment flags.is_trusted_sponsorship ≡ some paymaster
      → pack_user_op hex
          (crafted request flags (user_op_gas config request flags simulated) fees paymaster)
        ≡ some packed
      → get_packed_mee_user_op_with_gas_estimates config hex hashes windows request payment flags
          simulated
          (some fees)
          (some l1_gas)
        ≡ some (
          finish_estimates windows hashes request flags
              (user_op_gas config request flags simulated)
              l1_gas
              packed,
          fees,
          l1_gas,
        )
  unfolding get_packed_mee_user_op_with_gas_estimates bind
  estimates-build hashes windows request payment flags simulated fees l1_gas paymaster packed
        untrusted valid e f =
      ground (arith, untrusted, valid, e, f)

  -- The user operation service can build a user operation that no trusted sponsorship pays, where
  -- its time bounds are valid, the fees and the gas of the first layer are known, and the gas values
  -- that are packed fit into 128 bits. For what it builds, the batcher unpacks the gas limits, and
  -- the limit that it adds up is the operation's maximal gas limit less the gas before the
  -- verification. The operations on hex values are as viem documents them.
  pub batched_gas_limit-estimates :
      (hashes : Hashes) (windows : Windows) (request : MeeUserOpRequest) (payment : PaymentInfo)
      (flags : EstimateFlags) (simulated : Option EstimationGasLimits) (fees : GasConditions)
      (l1_gas : L1Gas)
      → is_trusted_payment flags ≡ false
      → (not flags.is_payment_user_op
          && not (
              are_timestamps_valid windows
                (lower_bound windows request flags)
                (upper_bound windows request)))
        ≡ false
      → (user_op_gas config request flags simulated).verification_gas_limit < 2 ^ 128
      → (user_op_gas config request flags simulated).call_gas_limit < 2 ^ 128
      → fees.max_priority_fee_per_gas < 2 ^ 128
      → fees.max_fee_per_gas < 2 ^ 128
      → paymaster_verification_gas_limit config < 2 ^ 128
      → config.paymaster_post_op_gas < 2 ^ 128
      → (op : MeeUserOp) × (get_packed_mee_user_op_with_gas_estimates config hex hashes windows
            request payment flags simulated
            (some fees)
            (some l1_gas)
          ≡ some (op, fees, l1_gas))
        × ((limit : ℕ) × (batched_gas_limit hex (batcher_config config) op ≡ some limit)
            × (limit + op.user_op.pre_verification_gas ≡ op.max_gas_limit))
  unfolding finish_estimates
  batched_gas_limit-estimates hashes windows request payment flags simulated fees l1_gas untrusted
        valid fits_1 fits_2 fits_3 fits_4 fits_5 fits_6 =
      let gas = user_op_gas config request flags simulated in
      let (paymaster, e) =
        get_paymaster_and_data-some payment flags.is_trusted_sponsorship fits_5 fits_6 in
      let user_op = crafted request flags gas fees paymaster in
      let (priority, maximal) = crafted-fees request flags gas fees paymaster untrusted in
      let (packed, f, g) =
        unpack_packed_user_op-pack_user_op hex laws user_op fits_1 fits_2
          (omega (arith, priority, fits_3)) (omega (arith, maximal, fits_4)) in
      let op = finish_estimates windows hashes request flags gas l1_gas packed in
      let (h, k) = user_op_gas-paymaster request flags simulated untrusted in
      (
        op,
        estimates-build hashes windows request payment flags simulated fees l1_gas paymaster packed
            untrusted valid e f,
        (
          user_op.verification_gas_limit
              + user_op.call_gas_limit
              + paymaster_verification_gas_limit config
              + config.paymaster_post_op_gas,
          batched_gas_limit-unpacked op
              (record user_op { pre_verification_gas = op.user_op.pre_verification_gas })
              (unpack_packed_user_op-with_gas hex packed user_op op.user_op.pre_verification_gas g),
          omega (arith, h, k),
        ),
      )
