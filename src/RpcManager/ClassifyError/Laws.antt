-- ===== src/RpcManager/ClassifyError/Laws.antt =====
-- What `classifyError` makes of an error, and how it agrees with the executor's own parser.
use composable_batch_erc.Common.{ℕ, Option, none, some, Bool, true, false, ◌≡◌, ◌≢◌, ◌↔◌, arith}
use composable_batch_erc.Common.Text.{Text}
use composable_batch_erc.Errors.Patterns.{
  nonce_error_messages, replacement_transaction_gas_price_error_messages, gas_price_error_messages,
  max_fee_error_messages, priority_fee_error_messages, block_gas_limit_exceeds_error_messages,
  matches-eq-includes_any,
}
use composable_batch_erc.RpcManager.ClassifyError.{
  RpcError, ErrorClass, http_request, rate_limit, chain_error, ErrorCode, lower_or_empty, is_status,
  is_rate_limited, classify_http, is_chain_error, classify_transport, classify_error,
}
use composable_batch_erc.Executor.ParseError.{
  ExecutionError, gas_price_too_low, max_fee_too_low, nonce_expired, priority_fee_too_high,
  block_gas_limit_exceeds_error, replacement_transaction_gas_price_too_low, parse_execution_error,
}

-- The errors that the executor answers with another nonce, other fees or smaller blocks.
abbrev pub is_resubmittable : ExecutionError → Bool
is_resubmittable gas_price_too_low = true
is_resubmittable max_fee_too_low = true
is_resubmittable nonce_expired = true
is_resubmittable priority_fee_too_high = true
is_resubmittable block_gas_limit_exceeds_error = true
is_resubmittable replacement_transaction_gas_price_too_low = true
is_resubmittable _ = false

resubmittable-is_chain_error :
    (error : RpcError) (message : Text)
    → error.message ≡ some message
    → is_resubmittable (parse_execution_error message).error_type ≡ true
    → is_chain_error error ≡ true
unfolding parse_execution_error is_chain_error lower_or_empty
resubmittable-is_chain_error error message h k = ground (
  arith,
  matches-eq-includes_any message nonce_error_messages,
  matches-eq-includes_any message replacement_transaction_gas_price_error_messages,
  matches-eq-includes_any message gas_price_error_messages,
  matches-eq-includes_any message max_fee_error_messages,
  matches-eq-includes_any message priority_fee_error_messages,
  matches-eq-includes_any message block_gas_limit_exceeds_error_messages,
)

classify_error-chain :
    (error : RpcError) → is_chain_error error ≡ true → classify_error error ≡ chain_error
unfolding classify_error
classify_error-chain error h = rw h

-- An error that the executor would answer by another nonce, other fees or smaller blocks is a
-- chain error for the RPC manager, whatever its class, code, name and status: it is not sent to
-- another provider first.
pub classify_error-of_resubmittable :
    (error : RpcError) (message : Text)
    → error.message ≡ some message
    → is_resubmittable (parse_execution_error message).error_type ≡ true
    → classify_error error ≡ chain_error
classify_error-of_resubmittable error message h k =
    classify_error-chain error (resubmittable-is_chain_error error message h k)

classify_transport-ne-rate_limit : (error : RpcError) → classify_transport error ≢ rate_limit
unfolding classify_transport
classify_transport-ne-rate_limit error = ground arith

classify_http-rate_limit :
    (class : ErrorClass) (status : Option ℕ)
    → classify_http class status ≡ some rate_limit
    → is_status 429 status ≡ true
unfolding classify_http is_status
classify_http-rate_limit http_request (some status) h = ground arith
classify_http-rate_limit http_request none h = cc
classify_http-rate_limit _ status h = cc

is_rate_limited-of_429 :
    (m : Text) (code : Option ErrorCode) (status : Option ℕ)
    → is_status 429 status ≡ true
    → is_rate_limited m code status ≡ true
unfolding is_rate_limited
is_rate_limited-of_429 m code status h = rw h

-- An error is a rate limit exactly when it is no chain error and the rate-limit guard takes it: a
-- status 429 never reaches the later guard on the status of an HTTP error.
pub classify_error-rate_limit_iff :
    (error : RpcError)
    → (classify_error error ≡ rate_limit) ↔ (
        (is_chain_error error ≡ false)
        × (is_rate_limited (lower_or_empty error.message) error.code error.status ≡ true))
unfolding classify_error
classify_error-rate_limit_iff error = ground (
  arith,
  classify_transport-ne-rate_limit error,
  classify_http-rate_limit error.class error.status,
  is_rate_limited-of_429 (lower_or_empty error.message) error.code error.status,
)
