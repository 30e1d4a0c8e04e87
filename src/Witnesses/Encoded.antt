-- ===== src/Witnesses/Encoded.antt =====
-- Job data, packed user operations, gas conditions and oracle prices at concrete inputs.
use mathlib.Core.List.{append-nil}
use composable_batch_erc.Common.{
  ℕ, zero, suc, ◌+◌, ◌-◌, ◌*◌, ◌^◌, ◌<◌, ◌≡◌, ◌↔◌, refl, sym, ◌∙◌, ap, true, false, not, ◌&&◌, Bool,
  [], ◌∷◌, ◌++◌, List, none, some, arith, length, length-append, get_or, ltb, if◌then◌else◌,
}
use composable_batch_erc.Common.Text.{Text, codes, text_eq}
use composable_batch_erc.Common.Assoc.{lookup}
use composable_batch_erc.Queues.JobData.{
  Value, other, text, big, big_int, array, plain_object, none_left, item, no_field, field,
  encode_job_data, decode_job_data,
}
use composable_batch_erc.Queues.JobData.RoundTrip.{IsKept, decode_job_data-encode_job_data}
use composable_batch_erc.UserOps.Interfaces.{PackedUserOp, UserOp, MeeUserOp}
use composable_batch_erc.UserOps.GasLimits.{get_override_or_default}
use composable_batch_erc.UserOps.Estimates.{
  GasConfig, Windows, MeeUserOpRequest, PaymentInfo, EstimateFlags, Hashes, user_op_gas,
  are_timestamps_valid, default_verification_gas_limit, paymaster_verification_gas_limit,
}
use composable_batch_erc.UserOps.Estimates.Packed.{
  lower_bound, upper_bound, get_packed_mee_user_op_with_gas_estimates,
}
use composable_batch_erc.GasEstimator.Layer1.{L1Gas}
use composable_batch_erc.Batcher.{batched_gas_limit}
use composable_batch_erc.Batcher.Limits.{batcher_config, batched_gas_limit-estimates}
use composable_batch_erc.UserOps.Transfers.{
  TransferGroups, TransferFrame, TransactionCall, CallKind, transaction_call, inner_call,
  no_inner_calls, inner_handle_op, post_op, another_call, no_transfers,
}
use composable_batch_erc.UserOps.Packing.{HexOps, pack_user_op, unpack_packed_user_op}
use composable_batch_erc.UserOps.Packing.RoundTrip.{HexLaws, unpack_packed_user_op-pack_user_op}
use composable_batch_erc.GasManager.LegacyPrice.{fast}
use composable_batch_erc.GasEstimator.Conditions.{
  FeeHistory, GasSettings, GasAnswers, GasConditions,
}
use composable_batch_erc.PriceFeeds.{
  oracle, cache_key, get_oracle_cache, is_price_used, get_price, OracleCaches,
}
use composable_batch_erc.PriceFeeds.Cache.{get_price-after_expiry}

-- `{ a: 5n, b: ["x", 12n, true] }`.
abbrev sample_data : Value Bool
sample_data = plain_object (
    field (codes "a") (big (big_int 5)) (
      field (codes "b")
        (array (item (text (codes "x")) (item (big (big_int 12)) (item (other true) none_left))))
        no_field))

decode_job_data-encode_job_data_example :
    (decode_job_data (encode_job_data sample_data) ≡ sample_data) ↔ IsKept sample_data
decode_job_data-encode_job_data_example = decode_job_data-encode_job_data sample_data

-- Hex values in which one code unit holds the whole number.
abbrev pub zeros : ℕ → Text
zeros zero = []
zeros (suc n) = b'0' ∷ zeros n

abbrev pub take_codes : ℕ → Text → Text
take_codes zero s = []
take_codes (suc n) [] = []
take_codes (suc n) (c ∷ s) = c ∷ take_codes n s

abbrev pub drop_codes : ℕ → Text → Text
drop_codes zero s = s
drop_codes (suc n) [] = []
drop_codes (suc n) (c ∷ s) = drop_codes n s

abbrev pub join_hex : List Text → Text
join_hex [] = []
join_hex (a ∷ []) = a
join_hex (a ∷ b ∷ rest) = a ++ drop_codes 2 b

abbrev pub wide : HexOps
wide = record {
  slice_hex =
      λ s start end. b'0' ∷ b'x' ∷ take_codes (2 * (end - start)) (drop_codes (2 + 2 * start) s);
  hex_to_big_int = λ s. get_or s 2 0;
  to_hex = λ n. b'0' ∷ b'x' ∷ n ∷ [];
  pad_left = λ s size.
      if ltb (get_or s 2 0) (2 ^ 128)
      then some (b'0' ∷ b'x' ∷ get_or s 2 0 ∷ zeros (2 * size - 1))
      else none;
  concat_hex = join_hex;
}

take_codes-append : (n : ℕ) (s t : Text) → length s ≡ n → take_codes n (s ++ t) ≡ s
take_codes-append zero [] t h = refl
take_codes-append zero (c ∷ s) t h = absurd (omega arith)
take_codes-append (suc n) [] t h = absurd (omega arith)
take_codes-append (suc n) (c ∷ s) t h = ap (λ s. c ∷ s) (take_codes-append n s t (omega arith))

drop_codes-append : (n : ℕ) (s t : Text) → length s ≡ n → drop_codes n (s ++ t) ≡ t
drop_codes-append zero [] t h = refl
drop_codes-append zero (c ∷ s) t h = absurd (omega arith)
drop_codes-append (suc n) [] t h = absurd (omega arith)
drop_codes-append (suc n) (c ∷ s) t h = drop_codes-append n s t (omega arith)

take_codes-all : (n : ℕ) (s : Text) → length s ≡ n → take_codes n s ≡ s
take_codes-all n s h = ap (take_codes n) (sym (append-nil s)) ∙ take_codes-append n s [] h

wide-laws : HexLaws wide
wide-laws = record {
  pad-to_hex = λ n h. (b'0' ∷ b'x' ∷ n ∷ zeros 31, ground arith, (n ∷ zeros 31, refl, refl), refl);
  length-concat =
      λ a b (d, e, h) (d', e', h'). rw (e, e') (omega (arith, length-append d d', h, h'));
  first-concat = λ a b (d, e, h) (d', e', h').
      rw (e, e') (ap (λ s. b'0' ∷ b'x' ∷ s) (take_codes-append 32 d d' (omega (arith, h))));
  second-concat = λ a b (d, e, h) (d', e', h').
      rw (e, e')
        (ap (λ s. b'0' ∷ b'x' ∷ s)
          (ap (take_codes 32) (drop_codes-append 32 d d' (omega (arith, h)))
            ∙ take_codes-all 32 d' (omega (arith, h'))));
}

abbrev sample_user_op : UserOp
sample_user_op = record {
  sender = codes "0x01";
  nonce = 3;
  init_code = codes "0x";
  call_data = codes "0xb61d27f6";
  call_gas_limit = 300000;
  verification_gas_limit = 150000;
  max_fee_per_gas = 2000000000;
  max_priority_fee_per_gas = 1000000000;
  paymaster_and_data = codes "0x";
  pre_verification_gas = 21000;
  signature = codes "0xff";
}

unpack_packed_user_op-pack_user_op_example :
    (packed : PackedUserOp) × (pack_user_op wide sample_user_op ≡ some packed)
    × (unpack_packed_user_op wide packed ≡ some sample_user_op)
unpack_packed_user_op-pack_user_op_example =
    unpack_packed_user_op-pack_user_op wide wide-laws sample_user_op (omega arith) (omega arith)
      (omega arith) (omega arith)

abbrev sample_settings : GasSettings
sample_settings = record {
  is_eip1559 = true;
  min_max_fee_per_gas = none;
  gas_price_mode = fast;
  has_l1_chain = false;
}

abbrev sample_history : FeeHistory
sample_history = record {
  base_fee_per_gas = 90 ∷ 100 ∷ [];
  reward = some ((7 ∷ []) ∷ (0 ∷ []) ∷ (9 ∷ []) ∷ []);
  gas_used_ratio = 950000000 ∷ 990000000 ∷ [];
}

abbrev sample_answers : GasAnswers
sample_answers = record {
  gas_price = none;
  fee_history = some sample_history;
  max_priority_fee = some 20;
}

abbrev no_caches : OracleCaches
no_caches = []

nothing_cached :
    is_price_used 5 (get_oracle_cache (cache_key (codes "1") (codes "0xfeed")) no_caches) ≡ false
unfolding get_oracle_cache lookup
nothing_cached = refl

get_price-after_expiry_example :
    let first = get_price 60000 5 9 (some 250) (oracle (codes "1") (codes "0xfeed")) no_caches in
    (first.0 ≡ some 250)
    × ((get_price 60000 70000 70001 (some 260) (oracle (codes "1") (codes "0xfeed")) first.1).0
        ≡ (if ltb (9 + 60000) 70000 then some 250 else some 260))
get_price-after_expiry_example =
    get_price-after_expiry 60000 5 9 70000 70001 250 260 (codes "1") (codes "0xfeed") no_caches
      (omega arith) (omega arith) nothing_cached

abbrev pub sample_config : GasConfig
sample_config = record {
  paymaster_verification_gas = 35000;
  paymaster_post_op_gas = 20000;
  sender_create_gas_limit = 1800000;
  base_verification_gas_limit = 150000;
  fixed_handle_ops_gas = 80000;
  per_auth_base_cost = 12500;
  gas_limit_overrides = none;
  paymaster_address = codes "0x02";
}

abbrev pub sample_windows : Windows
sample_windows = record {
  now = 1000;
  default_exec_window = 300;
  max_wait_before_exec_start = 300;
  max_exec_window = 86400;
  min_exec_window = 60;
}

abbrev pub sample_request : MeeUserOpRequest
sample_request = record {
  sender = codes "0x01";
  nonce = 3;
  init_code = codes "0x";
  call_data = codes "0xb61d27f6";
  call_gas_limit = 300000;
  verification_gas_limit = some 120000;
  lower_bound_timestamp = none;
  upper_bound_timestamp = none;
  execution_simulation_retry_delay = none;
  eip7702_auth = none;
  is_clean_up_user_op = false;
}

abbrev sample_payment : PaymentInfo
sample_payment = record { sponsored = true; gas_refund_address = none; sender = codes "0x01" }

abbrev user_pays : EstimateFlags
user_pays = record {
  is_trusted_sponsorship = false;
  is_account_deployment_required = false;
  is_payment_user_op = false;
}

abbrev pub sample_hashes : Hashes
sample_hashes = record {
  user_op_hash_of = λ random packed. packed.account_gas_limits;
  mee_user_op_hash_of = λ hash lower upper. lower ∷ upper ∷ hash;
}

abbrev pub sample_fees : GasConditions
sample_fees = record {
  max_fee_per_gas = 2000000000;
  max_priority_fee_per_gas = 1000000000;
  l1_gas_price = 0;
  base_fee = 500000000;
}

abbrev pub sample_l1_gas : L1Gas
sample_l1_gas = record { l1_gas_used_in_terms_of_l2 = 4000; l1_fee = 2000000000000 }

time_is_valid :
    (not user_pays.is_payment_user_op
      && not (
          are_timestamps_valid sample_windows
            (lower_bound sample_windows sample_request user_pays)
            (upper_bound sample_windows sample_request)))
    ≡ false
unfolding are_timestamps_valid
time_is_valid = refl

verification_fits :
    (user_op_gas sample_config sample_request user_pays none).verification_gas_limit < 2 ^ 128
unfolding user_op_gas default_verification_gas_limit text_eq
verification_fits = omega arith

call_fits : (user_op_gas sample_config sample_request user_pays none).call_gas_limit < 2 ^ 128
unfolding user_op_gas
call_fits = omega arith

paymaster_fits : paymaster_verification_gas_limit sample_config < 2 ^ 128
unfolding paymaster_verification_gas_limit get_override_or_default
paymaster_fits = omega arith

batched_gas_limit-estimates_example :
    (op : MeeUserOp) × (get_packed_mee_user_op_with_gas_estimates sample_config wide sample_hashes
        sample_windows sample_request sample_payment user_pays none
        (some sample_fees)
        (some sample_l1_gas)
      ≡ some (op, sample_fees, sample_l1_gas))
    × ((limit : ℕ) × (batched_gas_limit wide (batcher_config sample_config) op ≡ some limit)
        × (limit + op.user_op.pre_verification_gas ≡ op.max_gas_limit))
batched_gas_limit-estimates_example =
    batched_gas_limit-estimates wide wide-laws sample_config sample_hashes sample_windows
      sample_request sample_payment user_pays none sample_fees sample_l1_gas refl time_is_valid
      verification_fits call_fits (omega arith) (omega arith) paymaster_fits (omega arith)

abbrev sample_frame : CallKind → ℕ → TransferFrame
sample_frame kind value = record {
  kind = kind;
  value = value;
  call_from = codes "0x01";
  call_to = codes "0x02";
}

-- A user operation that pays 5 without a paymaster, and one that pays 7 before its postOp.
abbrev pays_first : TransactionCall
pays_first =
    transaction_call (sample_frame (inner_handle_op (some (codes "0xa1"))) 0)
      (inner_call (transaction_call (sample_frame another_call 5) no_inner_calls) no_inner_calls)

abbrev pays_second : TransactionCall
pays_second =
    transaction_call (sample_frame (inner_handle_op (some (codes "0xb2"))) 7)
      (inner_call (transaction_call (sample_frame post_op 0) no_inner_calls) no_inner_calls)

abbrev empty_groups : TransferGroups
empty_groups = (codes "0xa1", no_transfers) ∷ (codes "0xb2", no_transfers) ∷ []
