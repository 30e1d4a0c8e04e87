-- ===== src/RpcManager/ClassifyError.antt =====
-- `classifyError` of orchestrator-node/src/modules/rpc-manager/classify-error.ts, one definition
-- for each of its guards.
pub mod Laws
use composable_batch_erc.Common.{
  ℕ, Option, none, some, Bool, true, false, not, ◌&&◌, ◌||◌, if◌then◌else◌, ltb, leb, ◌==◌,
}
use composable_batch_erc.Common.Text.{Text, codes, text_eq, to_lower_case, includes}
use composable_batch_erc.Errors.Patterns.{
  nonce_error_messages, replacement_transaction_gas_price_error_messages, gas_price_error_messages,
  max_fee_error_messages, priority_fee_error_messages, time_out_error_messages,
  block_gas_limit_exceeds_error_messages, transaction_execution_sync_error_messages,
  matches_error_pattern,
}

pub data RpcErrorType : Type 0 where
  retriable non_retriable rate_limit chain_error : RpcErrorType

-- The class of a thrown value, as `instanceof` tells the classes of viem that the code names.
pub data ErrorClass : Type 0 where
  contract_function_execution contract_function_reverted call_execution : ErrorClass
  execution_reverted timeout http_request internal_rpc other : ErrorClass

-- `error.code`: a number, a negative number (by its absolute value) or a text.
pub data ErrorCode : Type 0 where
  number negative : ℕ → ErrorCode
  label : Text → ErrorCode

pub record RpcError : Type 0 where
  pub class : ErrorClass
  pub message : Option Text
  pub code : Option ErrorCode
  pub name : Option Text
  pub status : Option ℕ

-- `error?.message?.toLowerCase?.() || ""`, and so for the name.
unfoldable pub lower_or_empty : Option Text → Text
lower_or_empty none = codes ""
lower_or_empty (some message) = to_lower_case message

unfoldable pub is_negative_code : ℕ → Option ErrorCode → Bool
is_negative_code n (some (negative k)) = k == n
is_negative_code n _ = false

unfoldable pub is_number_code : ℕ → Option ErrorCode → Bool
is_number_code n (some (number k)) = k == n
is_number_code n _ = false

unfoldable pub is_label_code : Text → Option ErrorCode → Bool
is_label_code s (some (label t)) = text_eq t s
is_label_code s _ = false

unfoldable pub is_status : ℕ → Option ℕ → Bool
is_status n none = false
is_status n (some k) = k == n

unfoldable pub is_execution_class : ErrorClass → Bool
is_execution_class contract_function_execution = true
is_execution_class contract_function_reverted = true
is_execution_class call_execution = true
is_execution_class execution_reverted = true
is_execution_class _ = false

unfoldable pub is_timeout_class : ErrorClass → Bool
is_timeout_class timeout = true
is_timeout_class _ = false

unfoldable pub is_internal_rpc_class : ErrorClass → Bool
is_internal_rpc_class internal_rpc = true
is_internal_rpc_class _ = false

module _ (m : Text) (code : Option ErrorCode) where
  -- Execution is reverted.
  unfoldable pub is_reverted : Bool
  is_reverted =
      includes m (codes "revert")
      || includes m (codes "execution reverted")
      || includes m (codes "evm reverted")
      || is_number_code 3 code
      || is_negative_code 32015 code
      || is_negative_code 32016 code

  -- Out of gas.
  unfoldable pub is_out_of_gas : Bool
  is_out_of_gas =
      includes m (codes "out of gas")
      || includes m (codes "gas required exceeds")
      || includes m (codes "intrinsic gas too low")

  -- Insufficient funds.
  unfoldable pub is_insufficient_funds : Bool
  is_insufficient_funds =
      includes m (codes "insufficient funds")
      || includes m (codes "insufficient balance")
      || is_negative_code 32000 code && includes m (codes "funds")

  unfoldable pub is_rate_limited : Option ℕ → Bool
  is_rate_limited status =
      is_status 429 status
      || includes m (codes "rate limit")
      || includes m (codes "too many requests")
      || includes m (codes "exceeded") && includes m (codes "quota")
      || includes m (codes "rate exceeded")
      || includes m (codes "request limit")
      || includes m (codes "over rate")
      || includes m (codes "over quota")

  unfoldable pub is_timed_out : ErrorClass → Bool
  is_timed_out class =
      is_timeout_class class
      || includes m (codes "timeout")
      || includes m (codes "timed out")
      || includes m (codes "etimedout")
      || is_label_code (codes "ETIMEDOUT") code
      || is_label_code (codes "ESOCKETTIMEDOUT") code
      || includes m (codes "request timeout")

  unfoldable pub is_invalid_request : Bool
  is_invalid_request =
      is_negative_code 32600 code
      || is_negative_code 32601 code
      || is_negative_code 32602 code
      || is_negative_code 32700 code
      || includes m (codes "invalid argument")
      || includes m (codes "missing argument")
      || includes m (codes "invalid address")
      || includes m (codes "invalid method")
      || includes m (codes "unsupported method")
      || includes m (codes "invalid value")

  unfoldable pub is_unauthorized : Bool
  is_unauthorized =
      includes m (codes "invalid api key")
      || includes m (codes "unauthorized")
      || includes m (codes "forbidden")
      || includes m (codes "authentication failed")
      || includes m (codes "not allowed")
      || includes m (codes "permission denied")

  unfoldable pub is_network_error : Text → Bool
  is_network_error name =
      includes name (codes "networkerror")
      || includes m (codes "network error")
      || text_eq m (codes "network error")
      || includes m (codes "failed to fetch")
      || includes m (codes "network")
      || includes m (codes "socket hang up")
      || includes m (codes "econnreset")
      || includes m (codes "econnrefused")
      || includes m (codes "enotfound")
      || includes m (codes "ehostunreach")
      || includes m (codes "enetunreach")
      || includes m (codes "dccp error")
      || is_label_code (codes "ECONNRESET") code
      || is_label_code (codes "ECONNREFUSED") code
      || is_label_code (codes "ENOTFOUND") code
      || is_label_code (codes "EHOSTUNREACH") code
      || is_label_code (codes "ENETUNREACH") code
      || is_label_code (codes "EPIPE") code

  unfoldable pub is_server_error : Bool
  is_server_error =
      includes m (codes "internal server error")
      || includes m (codes "service unavailable")
      || includes m (codes "bad gateway")
      || includes m (codes "gateway timeout")
      || includes m (codes "server error")
      || includes m (codes "502")
      || includes m (codes "503")
      || includes m (codes "504")
      || is_negative_code 32603 code && not (includes m (codes "known"))

  unfoldable pub is_provider_trouble : ErrorClass → Bool
  is_provider_trouble class =
      is_internal_rpc_class class
      || includes m (codes "temporarily unavailable")
      || includes m (codes "try again later")
      || includes m (codes "service degraded")
      || includes m (codes "capacity exceeded")
      || includes m (codes "backend error")
      || includes m (codes "maintenance")
      || includes m (codes "server overloaded")

-- The status of an `HttpRequestError`; `none` falls through to the later guards. A status of 0
-- is falsy, and falls through by the orders as well.
unfoldable pub classify_http : ErrorClass → Option ℕ → Option RpcErrorType
classify_http http_request (some status) =
    if status == 408 || status == 429
    then some (if status == 429 then rate_limit else retriable)
    else if leb 400 status && ltb status 500
    then some non_retriable
    else if leb 500 status
    then some retriable
    else none
classify_http http_request none = none
classify_http _ _ = none

-- The first part: chain errors by class and by text.
unfoldable pub is_chain_error : RpcError → Bool
is_chain_error error =
    let m = lower_or_empty error.message in
    is_execution_class error.class
    || matches_error_pattern m nonce_error_messages
    || matches_error_pattern m replacement_transaction_gas_price_error_messages
    || matches_error_pattern m gas_price_error_messages
    || matches_error_pattern m max_fee_error_messages
    || matches_error_pattern m priority_fee_error_messages
    || matches_error_pattern m block_gas_limit_exceeds_error_messages
    || is_reverted m error.code
    || is_out_of_gas m error.code
    || is_insufficient_funds m error.code

-- The last part: requests that are at fault, then trouble on the way.
unfoldable pub classify_transport : RpcError → RpcErrorType
classify_transport error =
    let m = lower_or_empty error.message in
    if is_invalid_request m error.code
    then non_retriable
    else if is_unauthorized m error.code
    then non_retriable
    else if is_network_error m error.code (lower_or_empty error.name)
    then retriable
    else if is_server_error m error.code
    then retriable
    else if is_provider_trouble m error.code error.class
    then retriable
    else if is_negative_code 32000 error.code
    then retriable
    else retriable

abbrev or_else : Option RpcErrorType → RpcErrorType → RpcErrorType
or_else none t = t
or_else (some t) _ = t

unfoldable pub classify_error : RpcError → RpcErrorType
unfolding is_chain_error classify_http classify_transport
classify_error error =
    let m = lower_or_empty error.message in
    if is_chain_error error
    then chain_error
    else if is_rate_limited m error.code error.status
    then rate_limit
    else if matches_error_pattern m time_out_error_messages
    then retriable
    else if is_timed_out m error.code error.class
    then retriable
    else if matches_error_pattern m transaction_execution_sync_error_messages
    then chain_error
    else or_else (classify_http error.class error.status) (classify_transport error)
