-- ===== src/Witnesses/Providers.antt =====
-- The RPC manager and the error messages at concrete inputs.
use composable_batch_erc.Common.{
  ℕ, ◌≡◌, refl, inl, true, false, [], ◌∷◌, none, some, Reply, ok, thrown,
}
use composable_batch_erc.Common.Text.{Text, codes, text_eq, to_lower_case, includes}
use composable_batch_erc.Common.Assoc.{lookup}
use composable_batch_erc.Errors.Patterns.{
  includes_any, block_gas_limit_exceeds_error_messages, nonce_error_messages,
}
use composable_batch_erc.Errors.Sanitize.{sanitize_url, has_url}
use composable_batch_erc.Errors.Sanitize.Laws.{has_url-sanitize_url}
use composable_batch_erc.Executor.ParseError.{parse_execution_error}
use composable_batch_erc.RpcManager.ClassifyError.{RpcError, other, http_request, classify_error}
use composable_batch_erc.RpcManager.ClassifyError.Laws.{
  is_resubmittable, classify_error-of_resubmittable,
}
use composable_batch_erc.RpcManager.Metrics.{
  ProviderMetrics, ratio, success_rate, is_at_least, is_greater,
}
use composable_batch_erc.RpcManager.Providers.{RpcProvider, RpcChainConfig, active, degraded}
use composable_batch_erc.RpcManager.ExecuteRequest.{
  attempt, is_failover, message_of, returned, rejected, execute_request,
}
use composable_batch_erc.RpcManager.ExecuteRequest.Failover.{
  execute_request-returned, execute_request-rejected,
}
use composable_batch_erc.RpcManager.Promotion.{Found, check_for_promotion, promoted}
use composable_batch_erc.RpcManager.Promotion.Selection.{
  IsJustified, check_for_promotion-IsJustified,
}

has_url-sanitize_url_example :
    has_url (sanitize_url (codes "HTTP request failed. URL: https://rpc.example/key Details: x"))
    ≡ false
has_url-sanitize_url_example =
    has_url-sanitize_url (codes "HTTP request failed. URL: https://rpc.example/key Details: x")

abbrev error_of_message : Text → RpcError
error_of_message message = record {
  class = other;
  message = some message;
  code = none;
  name = some (codes "Error");
  status = none;
}

is_nonce_error : is_resubmittable (parse_execution_error (codes "nonce too low")).error_type ≡ true
unfolding parse_execution_error includes to_lower_case includes_any
    block_gas_limit_exceeds_error_messages nonce_error_messages
is_nonce_error = refl

abbrev limited : RpcError
limited = record {
  class = http_request;
  message = some (codes "slow down");
  code = none;
  name = none;
  status = some 429;
}

abbrev metrics_of : ℕ → ℕ → ℕ → ProviderMetrics
metrics_of failures total successful = record {
  consecutive_failures = failures;
  last_failure_timestamp = 0;
  total_requests = total;
  successful_requests = successful;
  average_response_time = ratio 0 1;
  response_times = [];
}

abbrev primary : RpcProvider
primary = record {
  url = codes "https://one";
  priority = 0;
  metrics = metrics_of 3 20 17;
  state = degraded;
  client = true;
}

abbrev fallback : RpcProvider
fallback = record {
  url = codes "https://two";
  priority = 1;
  metrics = metrics_of 0 20 20;
  state = active;
  client = true;
}

abbrev chain : RpcChainConfig
chain = record {
  chain_id = codes "8453";
  providers = primary ∷ fallback ∷ [];
  failure_threshold = 3;
  promotion_threshold = ratio 95 100;
  health_check_interval = 30000;
}

abbrev answers_number : RpcProvider → Reply RpcError ℕ
answers_number p = ok 42

abbrev refuses : RpcProvider → Reply RpcError ℕ
refuses p = thrown (error_of_message (codes "nonce too low"))

configured : lookup (codes "8453") ((codes "8453", chain) ∷ []) ≡ some chain
unfolding lookup text_eq
configured = refl

answers_42 : attempt (codes "8453") answers_number fallback ≡ ok 42
unfolding attempt
answers_42 = refl

execute_request-returned_example :
    execute_request (codes "8453") answers_number ((codes "8453", chain) ∷ []) ≡ returned 42
execute_request-returned_example =
    execute_request-returned (codes "8453") answers_number ((codes "8453", chain) ∷ []) chain
      (primary ∷ []) fallback [] configured refl (inl refl, tt) (inl refl) 42 answers_42

refuses_nonce :
    attempt (codes "8453") refuses fallback ≡ thrown (error_of_message (codes "nonce too low"))
unfolding attempt
refuses_nonce = refl

ends_request : is_failover (classify_error (error_of_message (codes "nonce too low"))) ≡ false
unfolding is_failover
ends_request = rw (
    classify_error-of_resubmittable (error_of_message (codes "nonce too low"))
      (codes "nonce too low") refl is_nonce_error)

execute_request-rejected_example :
    let error = error_of_message (codes "nonce too low") in
    (execute_request (codes "8453") refuses ((codes "8453", chain) ∷ [])
      ≡ rejected (classify_error error) (sanitize_url (message_of error)))
    × (has_url (sanitize_url (message_of error)) ≡ false)
execute_request-rejected_example =
    execute_request-rejected (codes "8453") refuses ((codes "8453", chain) ∷ []) chain
      (primary ∷ []) fallback [] configured refl (inl refl, tt) (inl refl)
      (error_of_message (codes "nonce too low")) refuses_nonce ends_request

abbrev second : Found
second = record { index = 1; provider = fallback }

abbrev first : Found
first = record { index = 0; provider = primary }

promotes : check_for_promotion false chain ≡ promoted second first
unfolding check_for_promotion is_at_least is_greater success_rate
promotes = refl

check_for_promotion-IsJustified_example : IsJustified chain second first
check_for_promotion-IsJustified_example =
    check_for_promotion-IsJustified chain second first promotes
