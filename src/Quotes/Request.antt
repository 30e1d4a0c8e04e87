-- ===== src/Quotes/Request.antt =====
-- `requestQuote` of orchestrator-node/src/modules/quotes/quotes.service.ts up to the signed quote:
-- its checks, the estimates of its user operations and the payment of the fees. The quote's user
-- operations are given packed; their Merkle tree and the node's signature follow. Dollars are
-- floating-point numbers, so what turns the costs into an amount of tokens is a parameter.
pub mod Payment
pub mod Funds
use composable_batch_erc.Common.{
  ℕ, zero, suc, ◌+◌, ◌*◌, ◌/◌, Bool, true, false, not, ◌&&◌, ◌||◌, List, [], ◌∷◌, ◌++◌, Option,
  none, some, if◌then◌else◌, ltb, ◌==◌, all, map, Reply, ok, thrown, ◌>>=◌, ◌>>◌, check, or_throw,
}
use composable_batch_erc.Common.Text.{Text, codes, text_eq, to_lower_case}
use composable_batch_erc.UserOps.Interfaces.{MeeUserOp}
use composable_batch_erc.UserOps.Packing.{HexOps}
use composable_batch_erc.UserOps.Estimates.{
  GasConfig, Windows, MeeUserOpRequest, PaymentInfo, EstimationGasLimits, EstimateFlags, Hashes,
}
use composable_batch_erc.UserOps.Estimates.Packed.{get_packed_mee_user_op_with_gas_estimates}
use composable_batch_erc.GasEstimator.Conditions.{GasConditions}
use composable_batch_erc.GasEstimator.Layer1.{L1Gas}
use composable_batch_erc.Payment.{
  FeePaymentType, native, configured_token, arbitrary_token, MeeTransactionType, normal, fusion,
  PaymentCall, PaymentConfig, QuotePayment, prepare_payment_user_op,
}
use composable_batch_erc.Quotes.Versions.{Semver, is_version_consistent_and_above_target}
use composable_batch_erc.Quotes.Balances.{
  TriggerInfo, BalanceAnswers, RequestFailure, mixed_chains, mixed_versions, no_account,
  token_not_supported, sponsored_token_not_supported, calldata_failed, no_quote_type,
  simulation_failed, estimate_failed, insufficient_balance, pricing_failed, check_balances,
}
use composable_batch_erc.Quotes.Context.{
  QuoteType, simple, permit, onchain, mm_dtk, safe_sa, ChainRequest, QuoteRequest, SimulationResult,
  QuoteContext, QuoteAnswers, Quote,
}
use composable_batch_erc.Quotes.Senders.{account_identifier, deployments}

abbrev pub is_simple : Option QuoteType → Bool
is_simple none = false
is_simple (some simple) = true
is_simple (some permit) = false
is_simple (some onchain) = false
is_simple (some mm_dtk) = false
is_simple (some safe_sa) = false

abbrev pub is_known : {A : Type 0} → Option A → Bool
is_known none = false
is_known (some a) = true

abbrev pub is_nonempty : {A : Type 0} → List A → Bool
is_nonempty [] = false
is_nonempty (a ∷ as_list) = true

-- The account whose balance pays; only whether there is one matters here.
abbrev pub has_account : QuoteRequest → Bool
has_account request =
    if request.is_permit then is_known request.payment.eoa else is_nonempty request.user_ops

abbrev pub same_side : Bool → Bool → Bool
same_side a b = if a then b else not b

abbrev pub to_payment_info : QuotePayment → PaymentInfo
to_payment_info payment = record {
  sponsored = payment.sponsored;
  gas_refund_address = payment.gas_refund_address;
  sender = payment.sender;
}

-- The limits of a simulation by the index of the user operation; a later one replaces an earlier.
abbrev pub limits_at : List (ℕ × EstimationGasLimits) → ℕ → Option EstimationGasLimits
limits_at [] index = none
limits_at ((i, limits) ∷ rest) index = if i == index then some limits else limits_at rest index

module _ (context : QuoteContext) (request : QuoteRequest) where
  unfoldable pub is_trusted_sponsorship : Bool
  is_trusted_sponsorship =
      request.payment.sponsored
      && text_eq (to_lower_case request.payment.sender) (to_lower_case context.trusted_gas_tank)

  -- Mainnet and testnet instructions are not mixed.
  unfoldable pub has_one_kind_of_chain : Bool
  has_one_kind_of_chain =
      all
        (λ op.
          same_side (context.is_test_chain request.payment.chain_id) (context.is_test_chain op.0))
        request.user_ops

  unfoldable pub fee_payment_type : Reply RequestFailure FeePaymentType
  fee_payment_type =
      let payment = request.payment in
      if context.is_payment_token_supported payment.chain_id payment.token
      then ok (if text_eq payment.token context.zero_address then native else configured_token)
      else if not (context.is_arbitrary_token_supported payment.chain_id)
      then thrown token_not_supported
      else if payment.sponsored
      then thrown sponsored_token_not_supported
      else ok arbitrary_token

  abbrev pub transaction_type : MeeTransactionType
  transaction_type = if request.is_permit && not request.payment.sponsored then fusion else normal

  -- The request for the payment of `amount`.
  unfoldable pub payment_user_op : FeePaymentType → ℕ → Reply RequestFailure MeeUserOpRequest
  payment_user_op fee_type amount =
      or_throw
        (prepare_payment_user_op context.encode_call_data context.payment_config fee_type
          request.payment is_trusted_sponsorship
          (record {
            transaction_type = transaction_type;
            token_address = request.payment.token;
            amount = amount;
            eoa = if request.is_permit then request.payment.eoa else none;
          }))
        calldata_failed

  -- The call gas of a user operation other than the payment gets a buffer.
  abbrev pub buffered_limits : SimulationResult → EstimationGasLimits
  buffered_limits result =
      let gas = result.limits.call_gas_limit in
      record result.limits {
        call_gas_limit =
            if result.user_op_index == 0
            then gas
            else gas + gas * request.gas_limit_buffers result.chain_id / 100;
      }

  unfoldable pub simulation_limits :
      List SimulationResult
      → List (ℕ × EstimationGasLimits)
      → Reply RequestFailure (List (ℕ × EstimationGasLimits))
  simulation_limits [] limits = ok limits
  simulation_limits (result ∷ results) limits =
      let rest =
        simulation_limits results ((result.user_op_index, buffered_limits result) ∷ limits) in
      if result.is_reverted then thrown (simulation_failed result.user_op_index) else rest

  -- The simulations are read if they were asked for; if they throw there are none.
  abbrev pub results_of : Option (List SimulationResult) → List SimulationResult
  results_of none = []
  results_of (some results) = results

  -- The payment token's balance, and the limits from the simulations.
  unfoldable pub simulated :
      QuoteAnswers → Reply RequestFailure (ℕ × List (ℕ × EstimationGasLimits))
  simulated answers = do
    balance ←
        check_balances context.is_address_equal request.is_permit is_trusted_sponsorship
          request.payment.token request.trigger answers.balances
    check (is_known request.quote_type) no_quote_type
    limits ← simulation_limits (results_of answers.simulations) []
    ok (balance, limits)

  unfoldable pub simulate : QuoteAnswers → Reply RequestFailure (ℕ × List (ℕ × EstimationGasLimits))
  simulate answers = if request.is_simulated then simulated answers else ok (0, [])

  -- One user operation with its estimates.
  unfoldable pub estimate :
      (is_eip712 is_deployed is_payment : Bool)
      → ChainRequest
      → Option EstimationGasLimits
      → Option GasConditions
      → Option L1Gas
      → Reply RequestFailure (MeeUserOp × GasConditions × L1Gas)
  estimate is_eip712 is_deployed is_payment op limits conditions l1_gas =
      or_throw
        (get_packed_mee_user_op_with_gas_estimates (context.config_of op.0) context.hex
          (context.hashes_of (is_eip712 && is_simple request.quote_type)) context.windows op.1
          (to_payment_info request.payment)
          (record {
            is_trusted_sponsorship = is_trusted_sponsorship;
            is_account_deployment_required = is_deployed;
            is_payment_user_op = is_payment;
          })
          limits conditions l1_gas)
        estimate_failed

  -- The user operations from an index on, each with whether its account is to be deployed.
  unfoldable pub estimate_all :
      (is_eip712 : Bool)
      → List (ℕ × EstimationGasLimits)
      → QuoteAnswers
      → (index : ℕ) → List Bool
      → List ChainRequest
      → Reply RequestFailure (List (MeeUserOp × GasConditions × L1Gas))
  estimate_all is_eip712 limits answers index [] ops = ok []
  estimate_all is_eip712 limits answers index (deployed ∷ flags) [] = ok []
  estimate_all is_eip712 limits answers index (deployed ∷ flags) (op ∷ ops) = do
    first ←
        estimate is_eip712 deployed (index == 0) op (limits_at limits index)
          (answers.conditions_of index) (answers.l1_gas_of index)
    rest ← estimate_all is_eip712 limits answers (suc index) flags ops
    ok (first ∷ rest)

  -- The payment is made again with its amount, and with the fees that it had.
  unfoldable pub replace_payment :
      (is_eip712 : Bool)
      → FeePaymentType
      → (amount : ℕ) → List (ℕ × EstimationGasLimits)
      → List (MeeUserOp × GasConditions × L1Gas)
      → Reply RequestFailure (List MeeUserOp)
  replace_payment is_eip712 fee_type amount limits [] = ok []
  replace_payment is_eip712 fee_type amount limits ((op, fees, l1_gas) ∷ rest) =
      if is_trusted_sponsorship then ok (op ∷ map (λ e. e.0) rest) else do
        payment ← payment_user_op fee_type amount
        paid ←
            estimate is_eip712 true true (request.payment.chain_id, payment) (limits_at limits 0)
              (some fees) (some l1_gas)
        ok (paid.0 ∷ map (λ e. e.0) rest)

  abbrev pub accounts : List ChainRequest → List Text
  accounts ops = map (λ op. account_identifier op.1.sender op.0) ops

  unfoldable pub request_quote : QuoteAnswers → Reply RequestFailure Quote
  request_quote answers = do
    is_eip712 ←
        or_throw
          (is_version_consistent_and_above_target context.semver (codes "2.2.0")
            request.mee_versions)
          mixed_versions
    check (has_account request) no_account
    check has_one_kind_of_chain mixed_chains
    fee_type ← fee_payment_type
    payment ← payment_user_op fee_type 0
    let ops = (request.payment.chain_id, payment) ∷ request.user_ops
    (balance, limits) ← simulate answers
    estimated ← estimate_all is_eip712 limits answers 0 (deployments (accounts ops)) ops
    amount ← or_throw (answers.token_amount estimated) pricing_failed
    check (not (request.is_simulated && not request.payment.sponsored && ltb balance amount))
        insufficient_balance
    user_ops ← replace_payment is_eip712 fee_type amount limits estimated
    ok (record { user_ops = user_ops; amount = amount })
