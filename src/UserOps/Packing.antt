-- ===== src/UserOps/Packing.antt =====
-- `packUint128Pair` and `unpackUint128Pair` of orchestrator-node/src/modules/common/utils, and
-- `packUserOp` and `unpackPackedUserOp` of orchestrator-node/src/modules/user-ops/utils. The
-- operations on hex values are those of viem, as a parameter.
pub mod RoundTrip
use composable_batch_erc.Common.{ℕ, List, [], ◌∷◌, Option, none, some, ◌==◌, if◌then◌else◌, length}
use composable_batch_erc.Common.Text.{Text}
use composable_batch_erc.UserOps.Interfaces.{PackedUserOp, UserOp}

-- `pad_left` is `pad` with a size in bytes, which throws when the value is longer.
pub record HexOps : Type 0 where
  pub slice_hex : Text → ℕ → ℕ → Text
  pub hex_to_big_int : Text → ℕ
  pub to_hex : ℕ → Text
  pub pad_left : Text → ℕ → Option Text
  pub concat_hex : List Text → Text

module _ (hex : HexOps) where
  abbrev pub concat_padded : Option Text → Option Text → Option Text
  concat_padded none _ = none
  concat_padded (some a) none = none
  concat_padded (some a) (some b) = some (hex.concat_hex (a ∷ b ∷ []))

  unfoldable pub pack_uint128_pair : ℕ → ℕ → Option Text
  pack_uint128_pair a b =
      concat_padded (hex.pad_left (hex.to_hex a) 16) (hex.pad_left (hex.to_hex b) 16)

  -- A value of another length throws a `BadRequestException`: `none`.
  unfoldable pub unpack_uint128_pair : Text → Option (ℕ × ℕ)
  unpack_uint128_pair packed =
      if length packed == 66
      then some (
        hex.hex_to_big_int (hex.slice_hex packed 0 16),
        hex.hex_to_big_int (hex.slice_hex packed 16 32),
      )
      else none

  abbrev pub packed_with : UserOp → Option Text → Option Text → Option PackedUserOp
  packed_with op none _ = none
  packed_with op (some account_gas_limits) none = none
  packed_with op (some account_gas_limits) (some gas_fees) = some (record {
    sender = op.sender;
    nonce = op.nonce;
    init_code = op.init_code;
    call_data = op.call_data;
    account_gas_limits = account_gas_limits;
    pre_verification_gas = op.pre_verification_gas;
    gas_fees = gas_fees;
    paymaster_and_data = op.paymaster_and_data;
    signature = op.signature;
  })

  unfoldable pub pack_user_op : UserOp → Option PackedUserOp
  unfolding pack_uint128_pair
  pack_user_op op =
      packed_with op (pack_uint128_pair op.verification_gas_limit op.call_gas_limit)
        (pack_uint128_pair op.max_priority_fee_per_gas op.max_fee_per_gas)

  abbrev pub unpacked_with : PackedUserOp → Option (ℕ × ℕ) → Option (ℕ × ℕ) → Option UserOp
  unpacked_with op none _ = none
  unpacked_with op (some limits) none = none
  unpacked_with op (some (verification_gas_limit, call_gas_limit))
        (some (max_priority_fee_per_gas, max_fee_per_gas)) =
      some (record {
        sender = op.sender;
        nonce = op.nonce;
        init_code = op.init_code;
        call_data = op.call_data;
        call_gas_limit = call_gas_limit;
        verification_gas_limit = verification_gas_limit;
        max_fee_per_gas = max_fee_per_gas;
        max_priority_fee_per_gas = max_priority_fee_per_gas;
        paymaster_and_data = op.paymaster_and_data;
        pre_verification_gas = op.pre_verification_gas;
        signature = op.signature;
      })

  unfoldable pub unpack_packed_user_op : PackedUserOp → Option UserOp
  unfolding unpack_uint128_pair
  unpack_packed_user_op op =
      unpacked_with op (unpack_uint128_pair op.account_gas_limits) (unpack_uint128_pair op.gas_fees)
