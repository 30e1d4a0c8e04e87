-- ===== src/Quotes/Request/Funds.antt =====
-- What a quote promises of the balances, the simulations and the number of user operations.
use composable_batch_erc.Common.{
  ℕ, suc, ◌≤◌, Bool, true, false, List, [], ◌∷◌, ◌==◌, ok, Returns, Returns-bind, Returns-check,
  Returns-chain, Returns-map, Returns-ok, Returns-thrown, if_lem, ◌≡◌, refl, ◌∙◌, arith, All,
  length, map, all,
}
use composable_batch_erc.Common.Text.{Text}
use composable_batch_erc.UserOps.Interfaces.{MeeUserOp}
use composable_batch_erc.UserOps.Estimates.{EstimationGasLimits}
use composable_batch_erc.GasEstimator.Conditions.{GasConditions}
use composable_batch_erc.GasEstimator.Layer1.{L1Gas}
use composable_batch_erc.Payment.{FeePaymentType}
use composable_batch_erc.Quotes.Request.Payment.{
  IsPaid, unsponsored-untrusted, payment_user_op-Pays, estimate-call_data,
}
use composable_batch_erc.Quotes.Balances.{check_balances}
use composable_batch_erc.Quotes.Context.{
  ChainRequest, QuoteRequest, SimulationResult, QuoteContext, QuoteAnswers, Quote,
}
use composable_batch_erc.Quotes.Senders.{account_identifier, times_seen, deployments}
use composable_batch_erc.Quotes.Request.{
  is_trusted_sponsorship, has_one_kind_of_chain, simulation_limits, results_of, simulated, simulate,
  estimate_all, replace_payment, request_quote, accounts, same_side,
}

length-times_seen :
    (keys : List Text) (seen : List (Text × ℕ)) → length (times_seen keys seen) ≡ length keys
unfolding times_seen
length-times_seen [] seen = refl
length-times_seen (k ∷ keys) seen = omega (arith, length-times_seen keys _)

length-map {ℓ κ} :
    {A : Type ℓ} {B : Type κ} (f : A → B) (xs : List A) → length (map f xs) ≡ length xs
length-map f [] = refl
length-map f (x ∷ xs) = omega (arith, length-map f xs)

length-deployments : (keys : List Text) → length (deployments keys) ≡ length keys
unfolding deployments
length-deployments keys = length-map (λ n. n == 0) (times_seen keys []) ∙ length-times_seen keys []

module _ (context : QuoteContext) (request : QuoteRequest) where
  abbrev Limits : Type 0
  Limits = List (ℕ × EstimationGasLimits)

  simulation_limits_sound :
      (results : List SimulationResult) (limits : Limits)
      → Returns
          (λ (l : Limits). All (λ r. r.is_reverted ≡ false) results)
          (simulation_limits context request results limits)
  unfolding simulation_limits
  simulation_limits_sound [] limits = Returns-ok _ tt
  simulation_limits_sound (r ∷ results) limits =
      if_lem (Returns (λ (l : Limits). All (λ r. r.is_reverted ≡ false) (r ∷ results)))
        r.is_reverted _ _ (λ _. Returns-thrown _)
        (λ sound. Returns-map (simulation_limits_sound results _) (λ l h. (sound, h)))

  estimate_all-length :
      (is_eip712 : Bool) (limits : Limits) (answers : QuoteAnswers) (index : ℕ) (flags : List Bool)
      (ops : List ChainRequest)
      → length flags ≡ length ops
      → Returns
          (λ (l : List (MeeUserOp × GasConditions × L1Gas)). length l ≡ length ops)
          (estimate_all context request is_eip712 limits answers index flags ops)
  unfolding estimate_all
  estimate_all-length is_eip712 limits answers index [] ops h = Returns-ok _ h
  estimate_all-length is_eip712 limits answers index (f ∷ flags) [] h = Returns-ok _ refl
  estimate_all-length is_eip712 limits answers index (f ∷ flags) (op ∷ ops) h =
      Returns-bind _ _ λ first _.
        Returns-chain _ _
          (estimate_all-length is_eip712 limits answers (suc index) flags ops (omega arith))
          λ rest k. Returns-ok _ (omega arith)

  replace_payment-length :
      (is_eip712 : Bool) (fee_type : FeePaymentType) (amount : ℕ) (limits : Limits)
      (estimated : List (MeeUserOp × GasConditions × L1Gas))
      → Returns
          (λ (ops : List MeeUserOp).
            (length ops ≡ length estimated)
            × (request.payment.sponsored ≡ false
                → length estimated ≡ suc (length request.user_ops)
                → IsPaid context request amount ops))
          (replace_payment context request is_eip712 fee_type amount limits estimated)
  unfolding replace_payment
  replace_payment-length is_eip712 fee_type amount limits [] =
      Returns-ok _ (refl, λ unsponsored h. absurd (zero_suc h))
    where
      zero_suc : {n : ℕ} → 0 ≡ suc n → ⊥
      zero_suc h = omega arith
  replace_payment-length is_eip712 fee_type amount limits ((op, fees, l1_gas) ∷ rest) =
      let others : List MeeUserOp = map (λ (e : MeeUserOp × GasConditions × L1Gas). e.0) rest in
      let count : length others ≡ length rest = length-map (λ e. e.0) rest in
      if_lem
        (Returns (λ (ops : List MeeUserOp).
          (length ops ≡ suc (length rest))
          × (request.payment.sponsored ≡ false
              → suc (length rest) ≡ suc (length request.user_ops)
              → IsPaid context request amount ops)))
        (is_trusted_sponsorship context request) _ _
        (λ trusted. Returns-ok _ (
          omega arith,
          λ unsponsored _. absurd (cc (trusted, unsponsored-untrusted context request unsponsored)),
        ))
        (λ untrusted.
          Returns-chain _ _ (payment_user_op-Pays context request fee_type amount untrusted)
            λ payment paid.
              Returns-chain _ _
                (estimate-call_data context request is_eip712 true true
                  (request.payment.chain_id, payment) _ _ _)
                λ estimated same. Returns-ok _ (
                  omega arith,
                  λ _ _.
                      let (call, e, pays) = paid in
                      (estimated.0, others, refl, (call, same ∙ e, pays)),
                ))

  -- What was checked of the simulations.
  abbrev pub IsSimulated : QuoteAnswers → ℕ → Type 0
  IsSimulated answers balance =
      (check_balances context.is_address_equal request.is_permit
          (is_trusted_sponsorship context request) request.payment.token request.trigger
          answers.balances
        ≡ ok balance)
      × All (λ r. r.is_reverted ≡ false) (results_of context request answers.simulations)

  simulated-IsSimulated :
      (answers : QuoteAnswers)
      → Returns (λ (r : ℕ × Limits). IsSimulated answers r.0) (simulated context request answers)
  unfolding simulated
  simulated-IsSimulated answers = Returns-bind _ _ λ balance e. Returns-check _ _ _ λ _.
      Returns-chain _ _
        (simulation_limits_sound (results_of context request answers.simulations) [])
        λ limits sound. Returns-ok _ (e, sound)

  simulate-IsSimulated :
      (answers : QuoteAnswers)
      → request.is_simulated ≡ true
      → Returns (λ (r : ℕ × Limits). IsSimulated answers r.0) (simulate context request answers)
  unfolding simulate
  simulate-IsSimulated answers h =
      if_lem (Returns (λ (r : ℕ × Limits). IsSimulated answers r.0)) request.is_simulated _ _
        (λ _. simulated-IsSimulated answers) (λ k. absurd (cc (h, k)))

  length-accounts : (ops : List ChainRequest) → length (accounts context request ops) ≡ length ops
  length-accounts ops = length-map (λ op. account_identifier op.1.sender op.0) ops

  one_kind_lem :
      (a : Bool) (ops : List ChainRequest)
      → all (λ op. same_side a (context.is_test_chain op.0)) ops ≡ true
      → All (λ (op : ChainRequest). context.is_test_chain op.0 ≡ a) ops
  one_kind_lem a [] h = tt
  one_kind_lem true (op ∷ ops) h = (ground arith, one_kind_lem true ops (ground arith))
  one_kind_lem false (op ∷ ops) h = (ground arith, one_kind_lem false ops (ground arith))

  has_one_kind_of_chain-All :
      has_one_kind_of_chain context request ≡ true
      → All
          (λ (op : ChainRequest).
            context.is_test_chain op.0 ≡ context.is_test_chain request.payment.chain_id)
          request.user_ops
  unfolding has_one_kind_of_chain
  has_one_kind_of_chain-All h =
      one_kind_lem (context.is_test_chain request.payment.chain_id) request.user_ops h

  -- What is known of a quote that is given.
  pub record IsFunded (answers : QuoteAnswers) (quote : Quote) : Type 0 where
    pub balance : ℕ
    pub checked : IsSimulated answers balance
    pub covered : quote.amount ≤ balance
    pub one_kind :
        All
          (λ (op : ChainRequest).
            context.is_test_chain op.0 ≡ context.is_test_chain request.payment.chain_id)
          request.user_ops
    pub complete : length quote.user_ops ≡ suc (length request.user_ops)
    pub paid : IsPaid context request quote.amount quote.user_ops

  request_quote-Returns :
      (answers : QuoteAnswers)
      → request.is_simulated ≡ true
      → request.payment.sponsored ≡ false
      → Returns (IsFunded answers) (request_quote context request answers)
  unfolding request_quote
  request_quote-Returns answers simulate_it unsponsored = Returns-bind _ _ λ is_eip712 _.
      Returns-check _ _ _ λ _. Returns-check _ _ _ λ one_kind. Returns-bind _ _ λ fee_type _.
        Returns-bind _ _ λ payment _.
          Returns-chain _ _ (simulate-IsSimulated answers simulate_it) λ simulation h.
            Returns-chain _ _
              (estimate_all-length is_eip712 simulation.1 answers 0 _ _ (
                length-deployments _
                ∙ length-accounts ((request.payment.chain_id, payment) ∷ request.user_ops)))
              λ estimated count. Returns-bind _ _ λ amount _. Returns-check _ _ _ λ enough.
                Returns-chain _ _
                  (replace_payment-length is_eip712 fee_type amount simulation.1 estimated)
                  λ user_ops same. Returns-ok _ (record {
                    balance = simulation.0;
                    checked = h;
                    covered = ground arith;
                    one_kind = has_one_kind_of_chain-All one_kind;
                    complete = same.0 ∙ count;
                    paid = same.1 unsponsored (count);
                  })

  -- A quote that is asked for with a simulation and without sponsorship, if it is given, is funded:
  -- the balance that was checked covers its amount, no simulation reverted, every user operation is
  -- on a test chain exactly if the payment is, there is one user operation more than were asked for,
  -- and the call data of the first one encode a call that pays the quote's amount to the fee
  -- beneficiary, in the payment token if not in the native one.
  pub request_quote-IsFunded :
      (answers : QuoteAnswers) (quote : Quote)
      → request.is_simulated ≡ true
      → request.payment.sponsored ≡ false
      → request_quote context request answers ≡ ok quote
      → IsFunded answers quote
  request_quote-IsFunded answers quote simulate_it unsponsored =
      (request_quote-Returns answers simulate_it unsponsored).result quote
