-- ===== src/Payment.antt =====
-- `preparePaymentCalldata` and `preparePaymentUserOp` of
-- orchestrator-node/src/modules/payment/payment.service.ts. The encoding of calls is a parameter;
-- what throws is `none`.
use composable_batch_erc.Common.{ℕ, Bool, false, Option, none, some, if◌then◌else◌}
use composable_batch_erc.Common.Text.{Text, text_eq}
use composable_batch_erc.Simulator.{or_default}
use composable_batch_erc.UserOps.Estimates.{MeeUserOpRequest, no_code}

pub data FeePaymentType : Type 0 where
  native configured_token arbitrary_token : FeePaymentType

pub data MeeTransactionType : Type 0 where
  normal fusion : MeeTransactionType

-- A call to be encoded: a plain transfer of value, or a call of `transfer` or `transferFrom`.
pub data PaymentCall : Type 0 where
  send_value : (to : Text) (value : ℕ) → PaymentCall
  transfer : (token to : Text) (value : ℕ) → PaymentCall
  transfer_from : (token owner to : Text) (value : ℕ) → PaymentCall

pub record PaymentConfig : Type 0 where
  pub fee_beneficiary : Text
  pub native_transfer_gas_limit : ℕ
  pub token_transfer_gas_limit : ℕ

pub record PaymentCalldataParams : Type 0 where
  pub transaction_type : MeeTransactionType
  pub token_address : Text
  pub amount : ℕ
  pub eoa : Option Text

-- `commonPaymentInfoSchema`.
pub record QuotePayment : Type 0 where
  pub sender : Text
  pub init_code : Text
  pub nonce : ℕ
  pub token : Text
  pub chain_id : Text
  pub verification_gas_limit : Option ℕ
  pub eoa : Option Text
  pub eip7702_auth : Option Text
  pub call_gas_limit : Option ℕ
  pub gas_refund_address : Option Text
  pub sponsored : Bool

abbrev pub token_call :
    MeeTransactionType → Option Text → (token to : Text) (value : ℕ) → Option PaymentCall
token_call normal eoa token to value = some (transfer token to value)
token_call fusion none token to value = none
token_call fusion (some eoa) token to value = some (transfer_from token eoa to value)

-- The call that pays `amount` to the node; `none` where the owner of the tokens is not known.
unfoldable pub payment_call :
    PaymentConfig → FeePaymentType → PaymentCalldataParams → Option PaymentCall
payment_call config native params = some (send_value config.fee_beneficiary params.amount)
payment_call config configured_token params =
    token_call params.transaction_type params.eoa params.token_address config.fee_beneficiary
      params.amount
payment_call config arbitrary_token params =
    token_call params.transaction_type params.eoa params.token_address config.fee_beneficiary
      params.amount

abbrev pub or_no_code : Option Text → Option Text
or_no_code none = none
or_no_code (some calldata) = if text_eq calldata no_code then none else some calldata

abbrev pub encoded_call : (PaymentCall → Text) → Option PaymentCall → Option Text
encoded_call encode_call_data none = none
encoded_call encode_call_data (some call) = some (encode_call_data call)

unfoldable pub prepare_payment_calldata :
    (PaymentCall → Text) → PaymentConfig → FeePaymentType → PaymentCalldataParams → Option Text
unfolding payment_call text_eq
prepare_payment_calldata encode_call_data config fee_type params =
    or_no_code (encoded_call encode_call_data (payment_call config fee_type params))

abbrev pub payment_gas_limit : PaymentConfig → FeePaymentType → ℕ
payment_gas_limit config native = config.native_transfer_gas_limit
payment_gas_limit config configured_token = config.token_transfer_gas_limit
payment_gas_limit config arbitrary_token = config.token_transfer_gas_limit

-- The request for the user operation that pays, once its call data are known.
abbrev pub payment_request : PaymentConfig → FeePaymentType → QuotePayment → Text → MeeUserOpRequest
payment_request config fee_type payment calldata = record {
  sender = payment.sender;
  nonce = payment.nonce;
  init_code = payment.init_code;
  call_data = calldata;
  call_gas_limit = or_default payment.call_gas_limit (payment_gas_limit config fee_type);
  verification_gas_limit = payment.verification_gas_limit;
  lower_bound_timestamp = none;
  upper_bound_timestamp = none;
  execution_simulation_retry_delay = none;
  eip7702_auth = payment.eip7702_auth;
  is_clean_up_user_op = false;
}

-- A trusted sponsorship pays elsewhere, so its user operation does nothing.
abbrev pub trusted_payment_request : QuotePayment → MeeUserOpRequest
trusted_payment_request payment = record {
  sender = payment.sender;
  nonce = 0;
  init_code = no_code;
  call_data = no_code;
  call_gas_limit = 0;
  verification_gas_limit = some 0;
  lower_bound_timestamp = none;
  upper_bound_timestamp = none;
  execution_simulation_retry_delay = none;
  eip7702_auth = payment.eip7702_auth;
  is_clean_up_user_op = false;
}

abbrev pub map_request : (Text → MeeUserOpRequest) → Option Text → Option MeeUserOpRequest
map_request f none = none
map_request f (some calldata) = some (f calldata)

unfoldable pub prepare_payment_user_op :
    (PaymentCall → Text)
    → PaymentConfig
    → FeePaymentType
    → QuotePayment
    → (is_trusted_sponsorship : Bool) → PaymentCalldataParams
    → Option MeeUserOpRequest
unfolding prepare_payment_calldata
prepare_payment_user_op encode_call_data config fee_type payment trusted params =
    if trusted
    then some (trusted_payment_request payment)
    else map_request (payment_request config fee_type payment)
        (prepare_payment_calldata encode_call_data config fee_type params)
