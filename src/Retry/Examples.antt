-- ===== src/Retry/Examples.antt =====
-- Retried calls at concrete inputs.
use classwaves_backend.Prelude.{
  ℕ, zero, suc, ◌+◌, ◌*◌, ◌≤◌, ◌<◌, ◌≡◌, ◌↔◌, true, false, [], ◌∷◌, none, some, arith, refl, map,
  codes, includes, to_lower_case,
}
use mathlib.Core.List.{Perm}
use classwaves_backend.Failure.{
  is_network_error, status_verdict, message_verdict, plain, is_retryable_error, timeout_failure,
  circuit_failure,
}
use classwaves_backend.Failure.Status.{is_retryable_error-http}
use classwaves_backend.Failure.Messages.{
  is_retryable_error-timeout, is_retryable_error-circuit, is_retryable_error-plain,
  is_transient_text,
}
use classwaves_backend.Retry.{
  PartialOptions, default_options, Metrics, empty_metrics, Attempt, returns, throws, ok, with_retry,
  loop, should_retry, with_timeout, calculate_delay, retry_redis_operation,
  retry_with_circuit_breaker, outcome,
}
use classwaves_backend.Retry.Loop.{IsRetried, Stops, with_retry-Stops, with_retry-ok_iff}
use classwaves_backend.Retry.Delay.{
  calculate_delay_bounds, calculate_delay_mono, with_retry-elapsed, retry_redis_operation-elapsed,
}
use classwaves_backend.Retry.Circuit.{retry_with_circuit_breaker-opened}
use classwaves_backend.Retry.Batch.{Job, entry, retry_batch, retry_batch_total, retry_batch_stuck}
use classwaves_backend.Retry.Report.{
  IsConsistent, IsSortedByCount, get_metrics, with_retry-IsConsistent, get_metrics-rates,
  get_metrics-breakdown,
}

abbrev no_options : PartialOptions
no_options = record {
  max_retries = none;
  base_delay = none;
  max_delay = none;
  exponential_base = none;
  jitter = none;
  retry_condition = none;
  timeout_ms = none;
}

-- Two dropped connections, then an answer.
abbrev flaky : ℕ → Attempt ℕ
flaky zero = throws (plain (codes "socket hang up")) 20
flaky (suc zero) = throws (plain (codes "Connection lost")) 20
flaky (suc (suc k)) = returns 7 15

abbrev middle : ℕ → ℕ
middle k = 500

third_time : (with_retry flaky (codes "load") no_options middle empty_metrics).result ≡ ok 7
unfolding with_retry loop should_retry is_retryable_error is_network_error status_verdict
    message_verdict includes to_lower_case with_timeout
third_time = refl

with_retry-Stops_example :
    Stops
      (codes "load")
      default_options
      flaky
      middle
      0
      3
      empty_metrics
      (with_retry flaky (codes "load") no_options middle empty_metrics)
with_retry-Stops_example = with_retry-Stops flaky (codes "load") no_options middle empty_metrics

with_retry-ok_iff_example :
    ((with_retry flaky (codes "load") no_options middle empty_metrics).result ≡ ok 7) ↔ (
      (k : ℕ) × (k ≤ 3)
      × ((j : ℕ) → j < k → IsRetried (codes "load") default_options flaky middle j)
      × (outcome (codes "load") default_options flaky middle k ≡ ok 7))
with_retry-ok_iff_example = with_retry-ok_iff flaky (codes "load") no_options middle empty_metrics 7

calculate_delay_bounds_example :
    (18000000 ≤ calculate_delay 1 default_options 500)
    × (calculate_delay 1 default_options 500 ≤ 22000000)
calculate_delay_bounds_example = calculate_delay_bounds 1 default_options 500 (omega arith)

calculate_delay_mono_example :
    calculate_delay 1 (record default_options { jitter = false }) 0
    ≤ calculate_delay 2 (record default_options { jitter = false }) 0
calculate_delay_mono_example =
    calculate_delay_mono 1 2 (record default_options { jitter = false }) 0 0 refl (omega arith)
      (omega arith)

with_retry-elapsed_example :
    (with_retry flaky (codes "load") no_options middle empty_metrics).elapsed
    ≤ 4 * (30000 * 10000) + 3 * (11000 * 10000)
with_retry-elapsed_example =
    with_retry-elapsed flaky (codes "load") no_options middle empty_metrics 29999 refl
      (λ k. omega arith)

retry_redis_operation-elapsed_example :
    (retry_redis_operation flaky (codes "get") middle empty_metrics).elapsed ≤ 17200 * 10000
retry_redis_operation-elapsed_example =
    retry_redis_operation-elapsed flaky (codes "get") middle empty_metrics (λ k. omega arith)

is_retryable_error-http_example :
    is_retryable_error
      (record { code = none; status = some 404; response_status = none; message = none })
    ≡ false
is_retryable_error-http_example =
    is_retryable_error-http
      (record { code = none; status = some 404; response_status = none; message = none })
      (unfold is_network_error in refl) (omega arith) (omega arith)

is_retryable_error-plain_example : is_retryable_error (plain (codes "Connection lost")) ≡ true
unfolding is_transient_text includes to_lower_case
is_retryable_error-plain_example = is_retryable_error-plain (codes "Connection lost")

is_retryable_error-timeout_example : is_retryable_error (timeout_failure (codes "load") 5000) ≡ true
is_retryable_error-timeout_example = is_retryable_error-timeout (codes "load") 5000

is_retryable_error-circuit_example :
    is_retryable_error (circuit_failure (codes "GoogleOAuth:verify")) ≡ true
unfolding is_transient_text includes to_lower_case
is_retryable_error-circuit_example = is_retryable_error-circuit (codes "GoogleOAuth:verify")

-- An open breaker is asked three times by an operation with "google" in its name.
retry_with_circuit_breaker-opened_example :
    (retry_with_circuit_breaker flaky
      (λ _. true)
      (codes "GoogleOAuth:verify")
      (record no_options { max_retries = some 2 })
      middle
      empty_metrics).calls
    ≡ 3
unfolding is_transient_text includes to_lower_case
retry_with_circuit_breaker-opened_example =
    retry_with_circuit_breaker-opened flaky (codes "GoogleOAuth:verify")
      (record no_options { max_retries = some 2 }) middle empty_metrics refl refl

abbrev job : Job ℕ
job = record { operation = flaky; name = codes "load"; options = no_options; random = middle }

retry_batch_total_example :
    (m' : Metrics) × (retry_batch 4 (job ∷ job ∷ job ∷ []) 2 empty_metrics
      ≡ some (map (entry empty_metrics) (job ∷ job ∷ job ∷ []), m'))
retry_batch_total_example =
    retry_batch_total 4 (job ∷ job ∷ job ∷ []) 2 empty_metrics (omega arith) (omega arith)

retry_batch_stuck_example : retry_batch 1000 (job ∷ []) 0 empty_metrics ≡ none
retry_batch_stuck_example = retry_batch_stuck 1000 job [] empty_metrics

with_retry-IsConsistent_example :
    IsConsistent (with_retry flaky (codes "load") no_options middle empty_metrics).metrics
with_retry-IsConsistent_example =
    with_retry-IsConsistent flaky (codes "load") no_options middle empty_metrics
      (record { counts = refl; retries = omega arith })

abbrev busy_metrics : Metrics
busy_metrics = record {
  total_attempts = 8;
  successful_retries = 1;
  failed_retries = 2;
  operation_counts = (codes "load", 3) ∷ (codes "save", 5) ∷ [];
}

get_metrics-rates_example :
    ((get_metrics busy_metrics).success_rate ≤ 10000)
    × ((get_metrics busy_metrics).retry_rate ≤ 10000)
get_metrics-rates_example =
    get_metrics-rates busy_metrics (record { counts = refl; retries = omega arith })

get_metrics-breakdown_example :
    IsSortedByCount (get_metrics busy_metrics).operation_breakdown
    × Perm (get_metrics busy_metrics).operation_breakdown busy_metrics.operation_counts
get_metrics-breakdown_example = get_metrics-breakdown busy_metrics
