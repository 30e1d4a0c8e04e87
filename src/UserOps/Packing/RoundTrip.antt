-- ===== src/UserOps/Packing/RoundTrip.antt =====
-- Packing a user operation loses nothing.
use composable_batch_erc.Common.{ℕ, ◌*◌, ◌^◌, ◌<◌, [], ◌∷◌, some, ◌≡◌, refl, length}
use composable_batch_erc.Common.Text.{Text}
use composable_batch_erc.UserOps.Interfaces.{PackedUserOp, UserOp}
use composable_batch_erc.UserOps.Packing.{
  HexOps, pack_uint128_pair, unpack_uint128_pair, pack_user_op, unpack_packed_user_op,
}

-- The text "0x" and two digits for each byte.
abbrev pub IsBytes : ℕ → Text → Type 0
IsBytes size h = (digits : Text) × (h ≡ b'0' ∷ b'x' ∷ digits) × (length digits ≡ 2 * size)

-- What viem documents of its operations, as far as the packing relies on it.
pub record HexLaws (hex : HexOps) : Type 0 where
  pub pad-to_hex :
      (n : ℕ)
      → n < 2 ^ 128
      → (h : Text) × (hex.pad_left (hex.to_hex n) 16 ≡ some h)
        × IsBytes 16 h
        × (hex.hex_to_big_int h ≡ n)
  pub length-concat :
      (a b : Text) → IsBytes 16 a → IsBytes 16 b → length (hex.concat_hex (a ∷ b ∷ [])) ≡ 66
  pub first-concat :
      (a b : Text)
      → IsBytes 16 a
      → IsBytes 16 b
      → hex.slice_hex (hex.concat_hex (a ∷ b ∷ [])) 0 16 ≡ a
  pub second-concat :
      (a b : Text)
      → IsBytes 16 a
      → IsBytes 16 b
      → hex.slice_hex (hex.concat_hex (a ∷ b ∷ [])) 16 32 ≡ b

module _ (hex : HexOps) (laws : HexLaws hex) where
  pack_uint128_pair-packed :
      (a b : ℕ)
      → a < 2 ^ 128
      → b < 2 ^ 128
      → (packed : Text) × (pack_uint128_pair hex a b ≡ some packed)
        × (unpack_uint128_pair hex packed ≡ some (a, b))
  unfolding pack_uint128_pair unpack_uint128_pair
  pack_uint128_pair-packed a b a_fits b_fits =
      let (x, e, x_bytes, x_value) = laws.pad-to_hex a a_fits in
      let (y, f, y_bytes, y_value) = laws.pad-to_hex b b_fits in
      (
        hex.concat_hex (x ∷ y ∷ []),
        rw (pack_uint128_pair, e, f) refl,
        rw
            (
              unpack_uint128_pair,
              laws.length-concat x y x_bytes y_bytes,
              laws.first-concat x y x_bytes y_bytes,
              laws.second-concat x y x_bytes y_bytes,
              x_value,
              y_value,
            )
            refl,
      )

  -- Where the operations on hex values are as viem documents them, a user operation whose four gas
  -- values fit into 128 bits can be packed, and unpacking gives it back.
  pub unpack_packed_user_op-pack_user_op :
      (op : UserOp)
      → op.verification_gas_limit < 2 ^ 128
      → op.call_gas_limit < 2 ^ 128
      → op.max_priority_fee_per_gas < 2 ^ 128
      → op.max_fee_per_gas < 2 ^ 128
      → (packed : PackedUserOp) × (pack_user_op hex op ≡ some packed)
        × (unpack_packed_user_op hex packed ≡ some op)
  unfolding pack_user_op unpack_packed_user_op
  unpack_packed_user_op-pack_user_op op fits_1 fits_2 fits_3 fits_4 =
      let (limits, e, e') =
        pack_uint128_pair-packed op.verification_gas_limit op.call_gas_limit fits_1 fits_2 in
      let (fees, f, f') =
        pack_uint128_pair-packed op.max_priority_fee_per_gas op.max_fee_per_gas fits_3 fits_4 in
      (
        record {
          sender = op.sender;
          nonce = op.nonce;
          init_code = op.init_code;
          call_data = op.call_data;
          account_gas_limits = limits;
          pre_verification_gas = op.pre_verification_gas;
          gas_fees = fees;
          paymaster_and_data = op.paymaster_and_data;
          signature = op.signature;
        },
        rw (e, f) refl,
        rw (e', f') refl,
      )
