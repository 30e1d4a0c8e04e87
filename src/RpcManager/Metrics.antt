-- ===== src/RpcManager/Metrics.antt =====
-- `ProviderMetrics` of orchestrator-node/src/modules/rpc-manager/provider-metrics.ts. A quotient of
-- two counts is kept as a fraction, and fractions are compared by their cross products.
pub mod Bounds
use composable_batch_erc.Common.{
  ℕ, suc, ◌+◌, ◌*◌, ◌<◌, Bool, true, List, [], ◌∷◌, ◌++◌, if◌then◌else◌, ltb, leb, length, sum,
}

pub record Ratio : Type 0 where
  pub numerator : ℕ
  pub denominator : ℕ

abbrev pub ratio : ℕ → ℕ → Ratio
ratio a b = record { numerator = a; denominator = b }

unfoldable pub is_greater : Ratio → Ratio → Bool
is_greater a b = ltb (b.numerator * a.denominator) (a.numerator * b.denominator)

unfoldable pub is_at_least : Ratio → Ratio → Bool
is_at_least a b = leb (b.numerator * a.denominator) (a.numerator * b.denominator)

pub record ProviderMetrics : Type 0 where
  pub consecutive_failures : ℕ
  pub last_failure_timestamp : ℕ
  pub total_requests : ℕ
  pub successful_requests : ℕ
  pub average_response_time : Ratio
  pub response_times : List ℕ

abbrev pub max_response_time_samples : ℕ
max_response_time_samples = 100

unfoldable pub new_metrics : ProviderMetrics
new_metrics = record {
  consecutive_failures = 0;
  last_failure_timestamp = 0;
  total_requests = 0;
  successful_requests = 0;
  average_response_time = ratio 0 1;
  response_times = [];
}

unfoldable pub success_rate : ProviderMetrics → Ratio
success_rate m =
    if ltb 0 m.total_requests then ratio m.successful_requests m.total_requests else ratio 0 1

unfoldable pub increment_total : ProviderMetrics → ProviderMetrics
increment_total m = record m { total_requests = m.total_requests + 1 }

-- `shift`.
abbrev pub shift : List ℕ → List ℕ
shift [] = []
shift (x ∷ xs) = xs

unfoldable pub push_sample : ℕ → List ℕ → List ℕ
push_sample response_time samples =
    let pushed = samples ++ response_time ∷ [] in
    if ltb max_response_time_samples (length pushed) then shift pushed else pushed

unfoldable pub record_success : ℕ → ProviderMetrics → ProviderMetrics
unfolding push_sample
record_success response_time m =
    let samples = push_sample response_time m.response_times in
    record m {
      total_requests = m.total_requests + 1;
      successful_requests = m.successful_requests + 1;
      consecutive_failures = 0;
      response_times = samples;
      average_response_time = ratio (sum samples) (length samples);
    }

unfoldable pub record_failure : ℕ → ProviderMetrics → ProviderMetrics
record_failure now m = record m {
  total_requests = m.total_requests + 1;
  consecutive_failures = m.consecutive_failures + 1;
  last_failure_timestamp = now;
}

-- The time of the last failure stays.
unfoldable pub reset : ProviderMetrics → ProviderMetrics
reset m = record m {
  consecutive_failures = 0;
  total_requests = 0;
  successful_requests = 0;
  average_response_time = ratio 0 1;
  response_times = [];
}
