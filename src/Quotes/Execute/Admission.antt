-- ===== src/Quotes/Execute/Admission.antt =====
-- What has been checked of a quote that is scheduled.
use composable_batch_erc.Common.{
  ℕ, suc, ◌≤◌, Bool, true, false, not, ◌&&◌, List, [], ◌∷◌, Option, none, some, ◌==◌, ok, Returns,
  Returns-bind, Returns-chain, Returns-check, Returns-ok, Returns-map, ◌≡◌, refl, ◌⊎◌, inl, inr, ap,
  sym, ap₂, map, arith, if_lem, ltb, or_throw,
}
use composable_batch_erc.Common.Text.{Text, eq_of_text_eq}
use composable_batch_erc.MerkleTree.{SessionDetails, QuotedUserOp}
use composable_batch_erc.Quotes.Context.{QuoteType}
use composable_batch_erc.Quotes.Signatures.{
  SigningFacts, Signer, sign_from, sign_user_op, with_signature, in_session,
}
use composable_batch_erc.Quotes.Scheduling.{scheduled_jobs}
use composable_batch_erc.Quotes.Execute.{
  ExecuteOptions, ExecuteContext, ExecuteAnswers, PaymentSimulation, Scheduled, first_user_op,
  is_trusted_payment, message_of, is_gas_tank_owner, check_sponsorship, check_simulation,
  simulate_payment, check_payment, executed_user_ops, tree, execute_quote, is_succeeded,
}

abbrev without_session_signature : Option SessionDetails → Option SessionDetails
without_session_signature none = none
without_session_signature (some details) = some (record details { session_signature = [] })

abbrev pub unsigned : QuotedUserOp → QuotedUserOp
unsigned quoted = record (with_signature quoted []) {
  session_details = without_session_signature quoted.session_details;
}

in_session-unsigned :
    (signer : Signer) (details : Option SessionDetails) (quoted : QuotedUserOp) (signature : Text)
    → quoted.session_details ≡ details
    → unsigned (in_session signer details quoted signature) ≡ unsigned quoted
in_session-unsigned signer none quoted signature h = refl
in_session-unsigned signer (some details) quoted signature h =
    ap (λ d. record (with_signature quoted []) { session_details = without_session_signature d })
      (sym h)

sign_user_op-unsigned :
    (signer : Signer) (facts : SigningFacts) (index : ℕ) (quoted : QuotedUserOp)
    → Returns (λ signed. unsigned signed ≡ unsigned quoted) (sign_user_op signer facts index quoted)
unfolding sign_user_op
sign_user_op-unsigned signer facts index quoted =
    if_lem (Returns (λ signed. unsigned signed ≡ unsigned quoted))
      (index == 0 && facts.is_sponsored) _ _ (λ _. Returns-ok _ refl)
      (λ _. Returns-bind _ _ λ signature _.
        Returns-ok _ (in_session-unsigned signer quoted.session_details quoted signature refl))

sign_from-unsigned :
    (signer : Signer) (facts : SigningFacts) (index : ℕ) (ops : List QuotedUserOp)
    → Returns (λ signed. map unsigned signed ≡ map unsigned ops) (sign_from signer facts index ops)
unfolding sign_from
sign_from-unsigned signer facts index [] = Returns-ok _ refl
sign_from-unsigned signer facts index (quoted ∷ rest) =
    Returns-chain _ _ (sign_user_op-unsigned signer facts index quoted) λ first same.
      Returns-chain _ _ (sign_from-unsigned signer facts (suc index) rest)
        λ others kept. Returns-ok _ (ap₂ ◌∷◌ same kept)

module _ (context : ExecuteContext) (options : ExecuteOptions) where
  -- The sponsor signed this payment, for this quote, and its time is not over.
  pub record IsSponsored (payment : QuotedUserOp) : Type 0 where
    pub in_time : context.now ≤ payment.op.upper_bound_timestamp
    pub signed :
        is_gas_tank_owner context options (
          context.recover_address (message_of context options payment) payment.op.user_op.signature)
        ≡ true

  -- The payment's signature holds, now is in its window, and it does not revert.
  pub record IsPayable (answers : ExecuteAnswers) (payment : QuotedUserOp) : Type 0 where
    pub result : PaymentSimulation
    pub simulated : answers.simulation_of payment ≡ some result
    pub verified : result.sig_failed ≡ false
    pub started : result.valid_after ≤ context.now
    pub not_over : (result.valid_until ≡ 0) ⊎ (context.now ≤ result.valid_until)
    pub succeeded : result.exec_failed ≡ none

  check_sponsorship-IsSponsored :
      (payment : QuotedUserOp)
      → Returns (λ _. IsSponsored payment) (check_sponsorship context options payment)
  unfolding check_sponsorship
  check_sponsorship-IsSponsored payment = Returns-check _ _ _ λ in_time.
      Returns-check _ _ _
        λ signed. Returns-ok _ (record { in_time = ground arith; signed = signed })

  is_succeeded-none :
      (failed : Option Text) → is_succeeded context options failed ≡ true → failed ≡ none
  is_succeeded-none none h = refl
  is_succeeded-none (some message) h = absurd (cc h)

  or_throw-some : {E A : Type 0} (o : Option A) (e : E) (a : A) → or_throw o e ≡ ok a → o ≡ some a
  or_throw-some none e a h = absurd (cc h)
  or_throw-some (some b) e a h = cc h

  within :
      (until now : ℕ) → not (ltb until now && not (until == 0)) ≡ true → (until ≡ 0) ⊎ (now ≤ until)
  within until now h = ground arith

  simulate_payment-IsPayable :
      (answers : ExecuteAnswers) (quote_type : QuoteType) (payment : QuotedUserOp)
      → Returns
          (λ _. IsPayable answers payment)
          (simulate_payment context options answers quote_type payment)
  unfolding simulate_payment check_simulation
  simulate_payment-IsPayable answers quote_type payment = Returns-bind _ _ λ result found.
      Returns-check _ _ _ λ verified. Returns-check _ _ _ λ started. Returns-check _ _ _ λ in_time.
        Returns-check _ _ _ λ succeeded. Returns-ok _ (record {
          result = result;
          simulated = or_throw-some (answers.simulation_of payment) _ result found;
          verified = ground arith;
          started = ground arith;
          not_over = within result.valid_until context.now in_time;
          succeeded = is_succeeded-none result.exec_failed succeeded;
        })

  -- What is known of a quote that is scheduled, with the payment as it was sent and as it is signed.
  pub record IsAdmitted (answers : ExecuteAnswers) (scheduled : Scheduled) : Type 0 where
    pub quote_type : QuoteType
    pub is_eip712 : Bool
    pub payment : QuotedUserOp
    pub signed_payment : QuotedUserOp
    pub is_new : answers.has_quote ≡ false
    pub is_first : first_user_op options.user_ops ≡ some payment
    pub is_signed : first_user_op scheduled.stored ≡ some signed_payment
    pub has_hash :
        (tree context options quote_type is_eip712
          (is_trusted_payment context options payment)).root
        ≡ options.hash
    pub committed : context.verify_message options.hash options.commitment ≡ true
    pub paid :
        ((is_trusted_payment context options payment ≡ true) × IsSponsored signed_payment)
        ⊎ ((is_trusted_payment context options payment ≡ false) × IsPayable answers signed_payment)
    pub is_kept : map unsigned scheduled.stored ≡ map unsigned options.user_ops
    pub scheduled_all :
        scheduled.jobs
        ≡ scheduled_jobs (
            executed_user_ops context options
              (is_trusted_payment context options payment)
              scheduled.stored)

  check_payment-paid :
      (answers : ExecuteAnswers) (quote_type : QuoteType) (trusted : Bool) (payment : QuotedUserOp)
      → Returns
          (λ _.
            ((trusted ≡ true) × IsSponsored payment)
            ⊎ ((trusted ≡ false) × IsPayable answers payment))
          (check_payment context options answers quote_type trusted payment)
  unfolding check_payment
  check_payment-paid answers quote_type true payment =
      Returns-map (check_sponsorship-IsSponsored payment) (λ _ h. inl (refl, h))
  check_payment-paid answers quote_type false payment =
      Returns-map (simulate_payment-IsPayable answers quote_type payment) (λ _ h. inr (refl, h))

  execute_quote-Returns :
      (answers : ExecuteAnswers)
      → Returns (IsAdmitted answers) (execute_quote context options answers)
  unfolding execute_quote
  execute_quote-Returns answers = Returns-bind _ _ λ is_eip712 _.
      Returns-bind _ _ λ is_stx_validator _. Returns-check _ _ _ λ is_new.
        Returns-bind _ _ λ quote_type _. Returns-bind _ _ λ payment first.
          Returns-check _ _ _ λ has_hash. Returns-check _ _ _ λ committed.
            Returns-bind _ _ λ transaction _.
              Returns-chain _ _ (sign_from-unsigned _ _ 0 options.user_ops) λ signed kept.
                Returns-bind _ _ λ signed_payment signed_first.
                  Returns-chain _ _
                    (check_payment-paid answers quote_type
                      (is_trusted_payment context options payment) signed_payment)
                    λ _ paid. Returns-check _ _ _ λ _. Returns-ok _ (record {
                      quote_type = quote_type;
                      is_eip712 = is_eip712;
                      payment = payment;
                      signed_payment = signed_payment;
                      is_new = ground arith;
                      is_first = or_throw-some _ _ payment first;
                      is_signed = or_throw-some _ _ signed_payment signed_first;
                      has_hash = eq_of_text_eq _ _ has_hash;
                      committed = committed;
                      paid = paid;
                      is_kept = kept;
                      scheduled_all = refl;
                    })

  -- A quote is scheduled only if it is new, its hash is the root of its user operations' tree, the
  -- node's commitment to this hash holds, and its payment is made sure of: a trusted payment by the
  -- signature of the gas tank's owner, any other by a simulation of what is signed. Then what is
  -- stored are its user operations, changed in nothing but their signatures and those of their
  -- session details, and its jobs are those of all that is stored, but for a trusted payment.
  pub execute_quote-IsAdmitted :
      (answers : ExecuteAnswers) (scheduled : Scheduled)
      → execute_quote context options answers ≡ ok scheduled
      → IsAdmitted answers scheduled
  execute_quote-IsAdmitted answers = (execute_quote-Returns answers).result
