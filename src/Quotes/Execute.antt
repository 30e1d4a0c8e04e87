-- ===== src/Quotes/Execute.antt =====
-- `executeQuote` of orchestrator-node/src/modules/quotes/quotes.service.ts. What the services, the
-- chains and viem answer is an argument, read only where the code asks; nothing is stored or
-- scheduled where it throws.
pub mod Admission
use composable_batch_erc.Common.{
  ℕ, ◌+◌, ◌==◌, Bool, true, false, not, ◌&&◌, ◌||◌, List, [], ◌∷◌, ◌++◌, Option, none, some,
  if◌then◌else◌, ltb, any, map, length, Reply, ok, thrown, ◌>>=◌, ◌>>◌, check, or_throw,
}
use composable_batch_erc.Common.Text.{Text, codes, text_eq, to_lower_case}
use composable_batch_erc.MerkleTree.{
  SessionDetails, QuotedUserOp, LeafHashes, MerkleTree, create_merkle_tree,
}
use composable_batch_erc.Quotes.Context.{QuoteType, simple, permit, onchain, mm_dtk, safe_sa}
use composable_batch_erc.Quotes.Versions.{Semver, is_version_consistent_and_above_target}
use composable_batch_erc.Quotes.Request.{is_simple}
use composable_batch_erc.Quotes.Signatures.{
  ExecuteFailure, mixed_versions, already_scheduled, unsupported_signature_type, no_user_ops,
  invalid_hash, invalid_commitment, no_onchain_transaction, window_expired, invalid_sponsorship,
  simulation_failed, signature_not_verified, not_started, storage_failed, payment_reverted,
  SigningFacts, Signer, quote_type_of, sign_from,
}
use composable_batch_erc.Quotes.Scheduling.{ScheduledJob, scheduled_jobs}

pub record ExecuteOptions : Type 0 where
  pub hash : Text
  pub signature : Text
  pub commitment : Text
  pub quote_type : Option QuoteType
  pub user_ops : List QuotedUserOp
  pub mee_versions : List Text
  pub is_eip712_trusted_sponsorship_supported : Bool

-- viem, semver, the tree and the node's settings. `sponsorship_message` is the message that the
-- sponsor signs, from the hashes, the number of user operations and the time it is valid until.
pub record ExecuteContext : Type 0 where
  pub semver : Semver
  pub hashes : LeafHashes
  pub tree_of : List Text → MerkleTree
  pub signer : Signer
  pub signature_type_of : Text → Text
  pub signature_data_of : Text → Text
  pub verify_message : (message commitment : Text) → Bool
  pub sponsorship_message : (hash user_op_hash : Text) (count upper : ℕ) → Text
  pub recover_address : (message signature : Text) → Option Text
  pub trusted_gas_tank : Text
  pub gas_tank_owner : Text
  pub now : ℕ

-- The result of `simulateSimulateHandleOp`, and the error of `simulateHandleOps` if there is one.
pub record PaymentSimulation : Type 0 where
  pub sig_failed : Bool
  pub valid_after : ℕ
  pub valid_until : ℕ
  pub exec_failed : Option Text

-- `none` is a call that throws or finds nothing; `is_stored` is false where `createQuote` throws.
pub record ExecuteAnswers : Type 0 where
  pub has_quote : Bool
  pub onchain_transaction : Option Text
  pub simulation_of : QuotedUserOp → Option PaymentSimulation
  pub is_stored : Bool

-- What is stored, the calls of `addJobs`, and the payment that is marked as skipped.
pub record Scheduled : Type 0 where
  pub stored : List QuotedUserOp
  pub jobs : List (Text × List ScheduledJob)
  pub skipped : Option Text

abbrev pub has_session : Option SessionDetails → Bool
has_session none = false
has_session (some details) = true

abbrev pub first_user_op : List QuotedUserOp → Option QuotedUserOp
first_user_op [] = none
first_user_op (op ∷ ops) = some op

unfoldable pub is_sponsored_signature : Text → Bool
is_sponsored_signature [] = false
is_sponsored_signature (c ∷ signature) =
    not (text_eq (c ∷ signature) (codes "0x00")) && not (text_eq (c ∷ signature) (codes "0x"))

-- The version tests; `none` are mixed versions.
abbrev pub version_test : ExecuteContext → ExecuteOptions → Text → Reply ExecuteFailure Bool
version_test context options target =
    or_throw (is_version_consistent_and_above_target context.semver target options.mee_versions)
      mixed_versions

-- Only an on-chain quote needs its transaction.
unfoldable pub transaction_of : ExecuteAnswers → QuoteType → Reply ExecuteFailure Text
transaction_of answers simple = ok []
transaction_of answers permit = ok []
transaction_of answers mm_dtk = ok []
transaction_of answers safe_sa = ok []
transaction_of answers onchain = or_throw answers.onchain_transaction no_onchain_transaction

module _ (context : ExecuteContext) (options : ExecuteOptions) where
  -- Hosted sponsorship is trusted.
  unfoldable pub is_trusted_payment : QuotedUserOp → Bool
  is_trusted_payment payment =
      is_sponsored_signature payment.op.user_op.signature
      && text_eq (to_lower_case payment.op.user_op.sender) (to_lower_case context.trusted_gas_tank)

  abbrev pub message_of : QuotedUserOp → Text
  message_of payment =
      context.sponsorship_message options.hash payment.op.user_op_hash (length options.user_ops)
        payment.op.upper_bound_timestamp

  abbrev pub is_gas_tank_owner : Option Text → Bool
  is_gas_tank_owner none = false
  is_gas_tank_owner (some address) =
      text_eq (to_lower_case address) (to_lower_case context.gas_tank_owner)

  -- A trusted payment is not simulated: its sponsor's signature is checked.
  unfoldable pub check_sponsorship : QuotedUserOp → Reply ExecuteFailure (Unit {0})
  check_sponsorship payment = do
    check (not (ltb payment.op.upper_bound_timestamp context.now)) window_expired
    check
        (is_gas_tank_owner
          (context.recover_address (message_of payment) payment.op.user_op.signature))
        invalid_sponsorship
    ok tt

  abbrev pub is_succeeded : Option Text → Bool
  is_succeeded none = true
  is_succeeded (some message) = false

  abbrev pub message_or_empty : Option Text → Text
  message_or_empty none = []
  message_or_empty (some message) = message

  -- Any other payment is simulated.
  unfoldable pub check_simulation : QuoteType → PaymentSimulation → Reply ExecuteFailure (Unit {0})
  check_simulation quote_type result = do
    check (not result.sig_failed) (signature_not_verified quote_type)
    check (not (ltb context.now result.valid_after)) not_started
    check (not (ltb result.valid_until context.now && not (result.valid_until == 0))) window_expired
    check (is_succeeded result.exec_failed) (payment_reverted (message_or_empty result.exec_failed))
    ok tt

  unfoldable pub simulate_payment :
      ExecuteAnswers → QuoteType → QuotedUserOp → Reply ExecuteFailure (Unit {0})
  simulate_payment answers quote_type payment = do
    result ← or_throw (answers.simulation_of payment) simulation_failed
    check_simulation quote_type result

  unfoldable pub check_payment :
      ExecuteAnswers
      → QuoteType
      → (is_trusted : Bool) → QuotedUserOp
      → Reply ExecuteFailure (Unit {0})
  check_payment answers quote_type trusted payment =
      if trusted then check_sponsorship payment else simulate_payment answers quote_type payment

  -- The trusted payment is not executed.
  abbrev pub executed_user_ops : (is_trusted : Bool) → List QuotedUserOp → List QuotedUserOp
  executed_user_ops trusted [] = []
  executed_user_ops trusted (payment ∷ ops) = if trusted then ops else payment ∷ ops

  abbrev pub skipped_payment : (is_trusted : Bool) → List QuotedUserOp → Option Text
  skipped_payment trusted [] = none
  skipped_payment trusted (payment ∷ ops) =
      if trusted then some payment.op.mee_user_op_hash else none

  abbrev pub tree : QuoteType → (is_eip712 is_trusted : Bool) → MerkleTree
  tree quote_type eip712 trusted =
      create_merkle_tree context.tree_of context.hashes (is_simple (some quote_type)) eip712 trusted
        options.user_ops

  abbrev pub facts_of :
      QuoteType
      → (is_eip712 is_stx_validator : Bool) → (payment : QuotedUserOp) → (transaction : Text)
      → SigningFacts
  facts_of quote_type eip712 stx_validator payment transaction = record {
    quote_type = quote_type;
    is_eip712 = eip712;
    is_stx_validator = stx_validator;
    is_session_exists = any (λ op. has_session op.session_details) options.user_ops;
    is_sponsored = is_sponsored_signature payment.op.user_op.signature;
    is_trusted = is_trusted_payment payment;
    is_trusted_supported = options.is_eip712_trusted_sponsorship_supported;
    hash = options.hash;
    mee_user_op_hashes = map (λ op. op.op.mee_user_op_hash) options.user_ops;
    signature_type = context.signature_type_of options.signature;
    signature_data = context.signature_data_of options.signature;
    transaction = transaction;
    get_proof = (tree quote_type eip712 (is_trusted_payment payment)).get_proof;
  }

  unfoldable pub execute_quote : ExecuteAnswers → Reply ExecuteFailure Scheduled
  execute_quote answers = do
    is_eip712 ← version_test context options (codes "2.2.0")
    is_stx_validator ← version_test context options (codes "3.0.0")
    check (not answers.has_quote) already_scheduled
    quote_type ←
        or_throw (quote_type_of options.quote_type (context.signature_type_of options.signature))
          unsupported_signature_type
    payment ← or_throw (first_user_op options.user_ops) no_user_ops
    check (text_eq (tree quote_type is_eip712 (is_trusted_payment payment)).root options.hash)
        invalid_hash
    check (context.verify_message options.hash options.commitment) invalid_commitment
    transaction ← transaction_of answers quote_type
    signed ←
        sign_from context.signer
          (facts_of quote_type is_eip712 is_stx_validator payment transaction) 0 options.user_ops
    signed_payment ← or_throw (first_user_op signed) no_user_ops
    check_payment answers quote_type (is_trusted_payment payment) signed_payment
    check answers.is_stored storage_failed
    ok (record {
      stored = signed;
      jobs = scheduled_jobs (executed_user_ops (is_trusted_payment payment) signed);
      skipped = skipped_payment (is_trusted_payment payment) signed;
    })
