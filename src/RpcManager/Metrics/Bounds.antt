-- ===== src/RpcManager/Metrics/Bounds.antt =====
-- The counts of a provider stay consistent, and its samples bounded.
use composable_batch_erc.Common.{
  ℕ, ◌+◌, ◌≤◌, ◌<◌, ◌≡◌, refl, List, [], ◌∷◌, ◌++◌, length, sum, length-append, arith,
}
use composable_batch_erc.RpcManager.Metrics.{
  ProviderMetrics, max_response_time_samples, success_rate, increment_total, shift, push_sample,
  record_success, record_failure, reset, new_metrics,
}

pub record IsConsistent (m : ProviderMetrics) : Type 0 where
  pub accounted : m.successful_requests + m.consecutive_failures ≤ m.total_requests
  pub sampled : length m.response_times ≤ m.successful_requests
  pub bounded : length m.response_times ≤ max_response_time_samples
  -- The average is taken of the samples that are kept.
  pub averaged : m.average_response_time.numerator ≡ sum m.response_times

length-shift : (xs : List ℕ) → 0 < length xs → length (shift xs) + 1 ≡ length xs
length-shift [] h = elim h [ ]
length-shift (x ∷ xs) h = omega arith

push_sample_bounds :
    (t : ℕ) (xs : List ℕ)
    → length xs ≤ max_response_time_samples
    → (length (push_sample t xs) ≤ max_response_time_samples)
      × (length (push_sample t xs) ≤ length xs + 1)
unfolding push_sample
push_sample_bounds t xs h = ground (arith, length-append xs (t ∷ []), length-shift (xs ++ t ∷ []))

record_success-IsConsistent :
    (t : ℕ) (m : ProviderMetrics) → IsConsistent m → IsConsistent (record_success t m)
unfolding record_success
record_success-IsConsistent t m c =
    let (small, grown) = push_sample_bounds t m.response_times c.bounded in
    record { accounted = omega arith; sampled = omega arith; bounded = small; averaged = refl }

-- Every operation on the metrics keeps them consistent: successes and the running failures never
-- exceed the requests, and at most 100 samples are kept, whose sum the average is computed from.
pub metrics-IsConsistent :
    (m : ProviderMetrics) (response_time now : ℕ)
    → IsConsistent m
    → IsConsistent (record_success response_time m)
      × IsConsistent (record_failure now m)
      × IsConsistent (increment_total m)
      × IsConsistent (reset m)
      × IsConsistent new_metrics
unfolding record_failure increment_total reset new_metrics
metrics-IsConsistent m t now c =
    (record_success-IsConsistent t m c, ground arith, ground arith, ground arith, ground arith)

-- The success rate of consistent metrics lies between 0 and 1.
pub success_rate-le-one :
    (m : ProviderMetrics)
    → IsConsistent m
    → ((success_rate m).numerator ≤ (success_rate m).denominator)
      × (0 < (success_rate m).denominator)
unfolding success_rate
success_rate-le-one m c = ground arith
