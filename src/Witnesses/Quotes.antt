-- ===== src/Witnesses/Quotes.antt =====
-- Quotes at concrete requests and answers.
use composable_batch_erc.Common.{
  ℕ, ◌≤◌, Bool, true, false, List, [], ◌∷◌, none, some, if◌then◌else◌, Reply, ok, thrown, ◌>>=◌,
  check, ◌≡◌, ◌↔◌, ◌⊎◌, refl, any, keep,
}
use composable_batch_erc.Common.Text.{Text, codes, text_eq, to_lower_case, to_lower_code}
use composable_batch_erc.Common.Assoc.{lookup, insert}
use composable_batch_erc.Common.Int.{sub_ℕ}
use composable_batch_erc.Payment.{
  QuotePayment, payment_call, prepare_payment_calldata, prepare_payment_user_op,
}
use composable_batch_erc.MerkleTree.{
  QuotedUserOp, create_merkle_tree, leaf_hashes, hash_simple_tree_leaf,
}
use composable_batch_erc.Quotes.Context.{
  simple, QuoteRequest, SimulationResult, QuoteContext, QuoteAnswers, Quote,
}
use composable_batch_erc.Quotes.Balances.{TriggerInfo, BalanceAnswers, check_balances, all_balances}
use composable_batch_erc.Quotes.Balances.Laws.{check_balances-permit}
use composable_batch_erc.Quotes.Versions.{is_version_consistent_and_above_target}
use composable_batch_erc.Quotes.Request.{
  request_quote, has_one_kind_of_chain, fee_payment_type, payment_user_op, is_trusted_sponsorship,
  simulate, simulated, simulation_limits, estimate_all, estimate, replace_payment,
}
use composable_batch_erc.Quotes.Senders.{deployments, times_seen}
use composable_batch_erc.UserOps.Estimates.Packed.{
  get_packed_mee_user_op_with_gas_estimates, finish_estimates,
}
use composable_batch_erc.UserOps.Estimates.{
  are_timestamps_valid, default_pre_verification_gas, default_verification_gas_limit,
  get_paymaster_and_data, paymaster_data, paymaster_verification_gas_limit, user_op_gas,
}
use composable_batch_erc.UserOps.GasLimits.{get_override_or_default}
use composable_batch_erc.UserOps.Packing.{pack_uint128_pair, pack_user_op}
use mathlib.Core.Option.{bind}
use composable_batch_erc.Quotes.Request.Funds.{IsFunded, request_quote-IsFunded}
use composable_batch_erc.Quotes.Signatures.{
  quote_type_of, detect_quote_type, sign_from, sign_user_op, signature_parts, with_signature,
}
use composable_batch_erc.Quotes.Scheduling.{
  scheduled_jobs, user_ops_by_chain, force_execute_by_chain, push_op,
}
use composable_batch_erc.Quotes.Scheduling.Groups.{
  is_clean_up_on, on_chain, jobs_for, scheduled_jobs-on_chain,
}
use composable_batch_erc.Quotes.Execute.{
  ExecuteOptions, ExecuteContext, ExecuteAnswers, PaymentSimulation, Scheduled, execute_quote,
  is_trusted_payment, is_sponsored_signature, transaction_of, check_payment, simulate_payment,
  check_simulation,
}
use composable_batch_erc.Quotes.Execute.Admission.{IsAdmitted, execute_quote-IsAdmitted}
use composable_batch_erc.Quotes.Explorer.{
  StoredUserOp, BlockNumbers, report, is_custom, stored_confirmations, execution_status, checked,
  check_receipt,
}
use composable_batch_erc.Quotes.Explorer.Status.{HasConfirmations, report-confirmed}
use composable_batch_erc.Witnesses.Encoded.{
  wide, sample_config, sample_windows, sample_hashes, sample_fees, sample_l1_gas, sample_request,
}

abbrev sample_payment : QuotePayment
sample_payment = record {
  sender = codes "0x01";
  init_code = codes "0x";
  nonce = 3;
  token = codes "0xfeed";
  chain_id = codes "1";
  verification_gas_limit = none;
  eoa = none;
  eip7702_auth = none;
  call_gas_limit = none;
  gas_refund_address = none;
  sponsored = false;
}

abbrev sample_context : QuoteContext
sample_context = record {
  semver = record { gte = λ version target. true; lt = λ version target. false };
  is_address_equal = text_eq;
  hex = wide;
  hashes_of = λ is_eip712. sample_hashes;
  config_of = λ chain_id. sample_config;
  windows = sample_windows;
  is_test_chain = λ chain_id. false;
  is_payment_token_supported = λ chain_id token. true;
  is_arbitrary_token_supported = λ chain_id. false;
  encode_call_data = λ call. codes "0xb61d27f6";
  payment_config = record {
    fee_beneficiary = codes "0x0f";
    native_transfer_gas_limit = 45000;
    token_transfer_gas_limit = 250000;
  };
  zero_address = codes "0x00";
  trusted_gas_tank = codes "0x99";
}

abbrev sample_quote_request : QuoteRequest
sample_quote_request = record {
  is_permit = false;
  quote_type = some simple;
  payment = sample_payment;
  user_ops = (codes "1", sample_request) ∷ [];
  is_simulated = true;
  gas_limit_buffers = λ chain_id. 10;
  trigger = none;
  mee_versions = [];
}

abbrev succeeded : ℕ → SimulationResult
succeeded index = record {
  user_op_index = index;
  chain_id = codes "1";
  is_reverted = false;
  limits = record { verification_gas_limit = 90000; call_gas_limit = 100000 };
}

abbrev sample_quote_answers : QuoteAnswers
sample_quote_answers = record {
  balances = record { of_payment_token = some 500; of_trigger_token = none };
  simulations = some (succeeded 0 ∷ succeeded 1 ∷ []);
  conditions_of = λ index. some sample_fees;
  l1_gas_of = λ index. some sample_l1_gas;
  token_amount = λ estimated. some 400;
}

abbrev given : {E : Type 0} → Reply E Quote → Quote
given (ok quote) = quote
given (thrown e) = record { user_ops = []; amount = 0 }

abbrev sample_quote : Quote
sample_quote = given (request_quote sample_context sample_quote_request sample_quote_answers)

quote_is_given :
    request_quote sample_context sample_quote_request sample_quote_answers ≡ ok sample_quote
unfolding request_quote ◌>>=◌ check is_version_consistent_and_above_target has_one_kind_of_chain
    fee_payment_type payment_user_op prepare_payment_user_op is_trusted_sponsorship simulate
    simulated check_balances simulation_limits estimate_all deployments estimate
    get_packed_mee_user_op_with_gas_estimates insert lookup text_eq to_lower_case to_lower_code
    payment_call prepare_payment_calldata all_balances replace_payment times_seen finish_estimates
    are_timestamps_valid default_pre_verification_gas default_verification_gas_limit
    get_paymaster_and_data paymaster_data paymaster_verification_gas_limit user_op_gas
    get_override_or_default pack_uint128_pair pack_user_op bind
quote_is_given = refl

request_quote-IsFunded_example :
    IsFunded sample_context sample_quote_request sample_quote_answers sample_quote
request_quote-IsFunded_example =
    request_quote-IsFunded sample_context sample_quote_request sample_quote_answers sample_quote
      refl refl quote_is_given

abbrev trigger_on : Text → ℕ → TriggerInfo
trigger_on token amount = record { token_address = token; chain_id = codes "10"; amount = amount }

abbrev two_balances : BalanceAnswers
two_balances = record { of_payment_token = some 500; of_trigger_token = some 7 }

check_balances-permit_example :
    (check_balances text_eq true false
        (codes "0x02")
        (some (trigger_on (codes "0xfeed") 7))
        two_balances
      ≡ ok 500)
    ↔ ((two_balances.of_payment_token ≡ some 500)
        × ((available : ℕ) × ((if text_eq (codes "0x02") (codes "0xfeed")
                then two_balances.of_payment_token
                else two_balances.of_trigger_token)
              ≡ some available)
            × (7 ≤ available)))
check_balances-permit_example =
    check_balances-permit text_eq (codes "0x02") (trigger_on (codes "0xfeed") 7) two_balances 500

abbrev mined : StoredUserOp
mined = record {
  mee_user_op_hash = codes "0xa1";
  tx_hash = some (codes "0xb2");
  error = none;
  execution_started_at = some 10;
  execution_finished_at = some 20;
  is_execution_skipped = false;
  is_confirmed = true;
  confirmations = none;
  wait_confirmations = 3;
}

abbrev settled_blocks : BlockNumbers
settled_blocks = record { current = 110; of_receipt = 100 }

reported_confirmed : (report 1 8 mined (ok settled_blocks)).0.is_confirmed ≡ true
unfolding report is_custom stored_confirmations execution_status checked check_receipt sub_ℕ
reported_confirmed = refl

report-confirmed_example :
    (mined.is_confirmed ≡ true)
    × ((is_custom 1 8 mined ≡ false) ⊎ HasConfirmations 8 mined (ok settled_blocks))
report-confirmed_example = report-confirmed 1 8 mined (ok settled_blocks) reported_confirmed

-- Two user operations of one quote on two chains; the second is to clean up.
abbrev quoted_op : Text → Text → Bool → QuotedUserOp
quoted_op hash chain_id is_clean_up = record {
  op = record {
    user_op = record {
      sender = codes "0x01";
      nonce = 3;
      init_code = codes "0x";
      call_data = codes "0xb61d27f6";
      account_gas_limits = codes "0x11";
      pre_verification_gas = 21000;
      gas_fees = codes "0x22";
      paymaster_and_data = codes "0x";
      signature = [];
    };
    user_op_hash = hash;
    mee_user_op_hash = hash;
    lower_bound_timestamp = 0;
    upper_bound_timestamp = 2000;
    execution_simulation_retry_delay = none;
    max_gas_limit = 500000;
    is_clean_up_user_op = is_clean_up;
    eip7702_auth = none;
  };
  chain_id = chain_id;
  session_details = none;
  is_short_encoding = false;
}

abbrev quoted_ops : List QuotedUserOp
quoted_ops =
    quoted_op (codes "0xa1") (codes "1") false
    ∷ quoted_op (codes "0xa2") (codes "10") false
    ∷ quoted_op (codes "0xa3") (codes "10") true
    ∷ []

scheduled_jobs-on_chain_example :
    lookup (codes "10") (scheduled_jobs quoted_ops)
    ≡ jobs_for
        (any (is_clean_up_on (codes "10")) quoted_ops)
        (keep (on_chain (codes "10")) quoted_ops)
scheduled_jobs-on_chain_example = scheduled_jobs-on_chain (codes "10") quoted_ops

abbrev first_leaf : List Text → Text
first_leaf [] = []
first_leaf (leaf ∷ leaves) = leaf

abbrev execute_context : ExecuteContext
execute_context = record {
  semver = record { gte = λ version target. true; lt = λ version target. false };
  hashes = record {
    entry_point_hash = λ chain_id op. op.call_data;
    mee_user_op_hash = λ hash lower upper. hash;
    mee_user_op_hash_eip712 = λ hash lower upper. hash;
  };
  tree_of = λ leaves. record { root = first_leaf leaves; get_proof = λ index. leaves };
  signer = record {
    sign = λ signature_type signature parts. some signature;
    encode_smart_session_signature = λ details. details.session_signature;
  };
  signature_type_of = λ signature. codes "0x177eee00";
  signature_data_of = λ signature. signature;
  verify_message = λ message commitment. text_eq message commitment;
  sponsorship_message = λ hash user_op_hash count upper. hash;
  recover_address = λ message signature. none;
  trusted_gas_tank = codes "0x99";
  gas_tank_owner = codes "0x98";
  now = 1000;
}

abbrev execute_options : ExecuteOptions
execute_options = record {
  hash = codes "0xb61d27f6";
  signature = codes "0x177eee00ff";
  commitment = codes "0xb61d27f6";
  quote_type = none;
  user_ops = quoted_ops;
  mee_versions = [];
  is_eip712_trusted_sponsorship_supported = false;
}

abbrev passing : PaymentSimulation
passing = record { sig_failed = false; valid_after = 0; valid_until = 0; exec_failed = none }

abbrev execute_answers : ExecuteAnswers
execute_answers = record {
  has_quote = false;
  onchain_transaction = none;
  simulation_of = λ payment. some passing;
  is_stored = true;
}

abbrev signed_op : Text → Text → Bool → QuotedUserOp
signed_op hash chain_id is_clean_up =
    with_signature (quoted_op hash chain_id is_clean_up) (codes "0x177eee00ff")

abbrev sample_scheduled : Scheduled
sample_scheduled =
    let first = signed_op (codes "0xa1") (codes "1") false in
    let second = signed_op (codes "0xa2") (codes "10") false in
    let last = signed_op (codes "0xa3") (codes "10") true in
    record {
      stored = first ∷ second ∷ last ∷ [];
      jobs =
          (codes "1", record { mee_user_op = first; force_execute = false } ∷ [])
          ∷ (
            codes "10",
            record { mee_user_op = second; force_execute = true }
                ∷ record { mee_user_op = last; force_execute = true }
                ∷ [],
          )
          ∷ [];
      skipped = none;
    }

quote_is_scheduled :
    execute_quote execute_context execute_options execute_answers ≡ ok sample_scheduled
unfolding execute_quote ◌>>=◌ check is_version_consistent_and_above_target quote_type_of
    detect_quote_type text_eq create_merkle_tree leaf_hashes hash_simple_tree_leaf
    is_trusted_payment is_sponsored_signature transaction_of sign_from sign_user_op signature_parts
    check_payment simulate_payment check_simulation scheduled_jobs user_ops_by_chain
    force_execute_by_chain push_op lookup insert
quote_is_scheduled = refl

execute_quote-IsAdmitted_example :
    IsAdmitted execute_context execute_options execute_answers sample_scheduled
execute_quote-IsAdmitted_example =
    execute_quote-IsAdmitted execute_context execute_options execute_answers sample_scheduled
      quote_is_scheduled
