-- ===== src/Quotes/Signatures.antt =====
-- `executeQuote` of orchestrator-node/src/modules/quotes/quotes.service.ts: what each user operation
-- is signed with. viem's decoding of the quote's signature and its encoding of the parts are one
-- parameter, `none` where they throw.
use composable_batch_erc.Common.{
  ℕ, suc, ◌-◌, ◌==◌, Bool, ◌&&◌, ◌||◌, List, [], ◌∷◌, Option, none, some, if◌then◌else◌, Reply, ok,
  ◌>>=◌, or_throw,
}
use composable_batch_erc.Common.Text.{Text, codes, text_eq}
use composable_batch_erc.UserOps.Interfaces.{MeeUserOp}
use composable_batch_erc.MerkleTree.{SessionDetails, QuotedUserOp}
use composable_batch_erc.Quotes.Context.{QuoteType, simple, permit, onchain, mm_dtk, safe_sa}

pub data ExecuteFailure : Type 0 where
  mixed_versions already_scheduled unsupported_signature_type no_user_ops : ExecuteFailure
  invalid_hash invalid_commitment no_onchain_transaction bad_signature_data : ExecuteFailure
  window_expired invalid_sponsorship simulation_failed : ExecuteFailure
  signature_not_verified : QuoteType → ExecuteFailure
  not_started storage_failed : ExecuteFailure
  payment_reverted : Text → ExecuteFailure

-- `MeeSignatureType`, where the quote's type is not given.
unfoldable pub detect_quote_type : Text → Option QuoteType
unfolding text_eq
detect_quote_type signature_type =
    if text_eq signature_type (codes "0x177eee00") || text_eq signature_type (codes "0x177eee10")
    then some simple
    else if text_eq signature_type (codes "0x177eee01")
    then some onchain
    else if text_eq signature_type (codes "0x177eee02")
    then some permit
    else if text_eq signature_type (codes "0x177eee03")
    then some mm_dtk
    else if text_eq signature_type (codes "0x177eee04")
    then some safe_sa
    else none

unfoldable pub quote_type_of : Option QuoteType → Text → Option QuoteType
quote_type_of none signature_type = detect_quote_type signature_type
quote_type_of (some quote_type) signature_type = some quote_type

-- What is encoded with the quote's signature for one user operation.
pub data SignatureParts : Type 0 where
  indexed_session : (index : ℕ) (hashes : List Text) → SignatureParts
  proven_session : (hash : Text) (proof : List Text) → SignatureParts
  indexed : (index : ℕ) (hashes : List Text) (lower upper : ℕ) → SignatureParts
  proven : (hash : Text) (lower upper : ℕ) (proof : List Text) → SignatureParts
  settled : (transaction : Text) (proof : List Text) (lower upper : ℕ) → SignatureParts
  permit_of_owner permit_of :
      (is_executed : Bool) (hash : Text) (lower upper : ℕ) (proof : List Text) → SignatureParts
  delegated : (is_executed : Bool) (lower upper : ℕ) (proof : List Text) → SignatureParts
  safe_transaction : (proof : List Text) (is_executed : Bool) (lower upper : ℕ) → SignatureParts

-- What the signatures of all user operations have in common.
pub record SigningFacts : Type 0 where
  pub quote_type : QuoteType
  pub is_eip712 : Bool
  pub is_stx_validator : Bool
  pub is_session_exists : Bool
  pub is_sponsored : Bool
  pub is_trusted : Bool
  pub is_trusted_supported : Bool
  pub hash : Text
  pub mee_user_op_hashes : List Text
  pub signature_type : Text
  pub signature_data : Text
  pub transaction : Text
  pub get_proof : ℕ → List Text

pub record Signer : Type 0 where
  pub sign : (signature_type signature_data : Text) → SignatureParts → Option Text
  pub encode_smart_session_signature : SessionDetails → Text

abbrev pub without_first : List Text → List Text
without_first [] = []
without_first (hash ∷ hashes) = hashes

-- A trusted payment is not among the hashes that are signed. Its own index does not get here.
abbrev pub skips_payment : SigningFacts → Bool
skips_payment facts = facts.is_trusted_supported && facts.is_trusted

abbrev pub signed_index : SigningFacts → ℕ → ℕ
signed_index facts index = if skips_payment facts then index - 1 else index

abbrev pub signed_hashes : SigningFacts → List Text
signed_hashes facts =
    if skips_payment facts then without_first facts.mee_user_op_hashes else facts.mee_user_op_hashes

-- The permit, the delegation or the Safe's transaction is executed by the payment, or if that is
-- sponsored by the first user operation after it.
unfoldable pub is_executed : SigningFacts → ℕ → Bool
is_executed facts index = if facts.is_sponsored then index == 1 else index == 0

unfoldable pub signature_parts : QuoteType → SigningFacts → ℕ → MeeUserOp → SignatureParts
signature_parts simple facts index op =
    if facts.is_session_exists
    then (if facts.is_eip712
        then indexed_session (signed_index facts index) (signed_hashes facts)
        else proven_session facts.hash (facts.get_proof index))
    else if facts.is_eip712
    then indexed (signed_index facts index) (signed_hashes facts) op.lower_bound_timestamp
        op.upper_bound_timestamp
    else proven facts.hash op.lower_bound_timestamp op.upper_bound_timestamp (facts.get_proof index)
signature_parts onchain facts index op =
    settled facts.transaction (facts.get_proof index) op.lower_bound_timestamp
      op.upper_bound_timestamp
signature_parts permit facts index op =
    if facts.is_stx_validator
    then permit_of_owner (is_executed facts index) facts.hash op.lower_bound_timestamp
        op.upper_bound_timestamp (facts.get_proof index)
    else permit_of (is_executed facts index) facts.hash op.lower_bound_timestamp
        op.upper_bound_timestamp (facts.get_proof index)
signature_parts mm_dtk facts index op =
    delegated (is_executed facts index) op.lower_bound_timestamp op.upper_bound_timestamp
      (facts.get_proof index)
signature_parts safe_sa facts index op =
    safe_transaction (facts.get_proof index) (is_executed facts index) op.lower_bound_timestamp
      op.upper_bound_timestamp

abbrev pub with_signature : QuotedUserOp → Text → QuotedUserOp
with_signature quoted signature = record quoted {
  op = record quoted.op { user_op = record quoted.op.user_op { signature = signature } };
}

-- The signature of a user operation with a session: its details are changed, and encoded with it.
abbrev pub in_session : Signer → Option SessionDetails → QuotedUserOp → Text → QuotedUserOp
in_session signer none quoted signature = with_signature quoted signature
in_session signer (some details) quoted signature =
    let signed = record details { session_signature = signature } in
    record (with_signature quoted (signer.encode_smart_session_signature signed)) {
      session_details = some signed;
    }

-- The sponsor has signed the payment already.
unfoldable pub sign_user_op :
    Signer → SigningFacts → ℕ → QuotedUserOp → Reply ExecuteFailure QuotedUserOp
sign_user_op signer facts index quoted = if index == 0 && facts.is_sponsored then ok quoted else do
  signature ←
      or_throw
        (signer.sign facts.signature_type facts.signature_data
          (signature_parts facts.quote_type facts index quoted.op))
        bad_signature_data
  ok (in_session signer quoted.session_details quoted signature)

unfoldable pub sign_from :
    Signer → SigningFacts → ℕ → List QuotedUserOp → Reply ExecuteFailure (List QuotedUserOp)
sign_from signer facts index [] = ok []
sign_from signer facts index (quoted ∷ rest) = do
  first ← sign_user_op signer facts index quoted
  others ← sign_from signer facts (suc index) rest
  ok (first ∷ others)
