-- ===== src/Retry.antt =====
-- src/services/retry.service.ts: `withRetry` with its timeout, back-off and metrics, and its
-- specialised callers. The n-th call of an operation is `operation n`, its result and duration;
-- `random n` is the n-th `Math.random()` in thousandths. Delays are in ten-thousandths of a
-- millisecond, in which the jitter is exact. Batches are in Retry/Batch.antt, reports in
-- Retry/Report.antt.
pub mod Loop
pub mod Delay
pub mod Circuit
pub mod Batch
pub mod Report
mod Examples
use classwaves_backend.Prelude.{
  ℕ, zero, suc, ◌+◌, ◌-◌, ◌*◌, ◌^◌, Bool, true, false, List, [], ◌∷◌, ◌++◌, Option, none, some, leb,
  ltb, ◌==◌, min, max, if◌then◌else◌, Text, codes, includes,
}
use classwaves_backend.Prelude.Dict
use classwaves_backend.Prelude.Dict.{Dict}
use classwaves_backend.Failure.{
  Failure, or_number, says, is_retryable_error, database_condition, external_condition,
  redis_condition, google_condition, timeout_failure, circuit_failure,
}

pub record Options : Type 0 where
  pub max_retries : ℕ
  pub base_delay : ℕ
  pub max_delay : ℕ
  pub exponential_base : ℕ
  pub jitter : Bool
  pub retry_condition : Option (Failure → Bool)
  pub timeout_ms : Option ℕ

pub record PartialOptions : Type 0 where
  pub max_retries : Option ℕ
  pub base_delay : Option ℕ
  pub max_delay : Option ℕ
  pub exponential_base : Option ℕ
  pub jitter : Option Bool
  pub retry_condition : Option (Failure → Bool)
  pub timeout_ms : Option ℕ

abbrev pub default_options : Options
default_options = record {
  max_retries = 3;
  base_delay = 1000;
  max_delay = 10000;
  exponential_base = 2;
  jitter = true;
  retry_condition = none;
  timeout_ms = some 30000;
}

abbrev or_else {ℓ} : {A : Type ℓ} → Option A → A → A
or_else none d = d
or_else (some a) d = a

abbrev first_some {ℓ} : {A : Type ℓ} → Option A → Option A → Option A
first_some none d = d
first_some (some a) d = some a

-- `{ ...DEFAULT_OPTIONS, ...options }`, an absent key being `none`.
abbrev pub merged : PartialOptions → Options
merged o = record {
  max_retries = or_else o.max_retries d.max_retries;
  base_delay = or_else o.base_delay d.base_delay;
  max_delay = or_else o.max_delay d.max_delay;
  exponential_base = or_else o.exponential_base d.exponential_base;
  jitter = or_else o.jitter d.jitter;
  retry_condition = first_some o.retry_condition d.retry_condition;
  timeout_ms = first_some o.timeout_ms d.timeout_ms;
}
  where
    d : Options
    d = default_options

pub record Metrics : Type 0 where
  pub total_attempts : ℕ
  pub successful_retries : ℕ
  pub failed_retries : ℕ
  pub operation_counts : Dict ℕ

-- `resetMetrics`.
abbrev pub empty_metrics : Metrics
empty_metrics = record {
  total_attempts = 0;
  successful_retries = 0;
  failed_retries = 0;
  operation_counts = [];
}

unfoldable pub update_operation_count : Text → Metrics → Metrics
update_operation_count name m =
    let count = or_number (Dict.get name m.operation_counts) 0 in
    record m { operation_counts = Dict.set name (count + 1) m.operation_counts }

-- The result of one call of the operation, and how long the call takes.
pub data Attempt {ℓ} (T : Type ℓ) : Type ℓ where
  returns : T → ℕ → Attempt T
  throws : Failure → ℕ → Attempt T

pub data Result {ℓ} (T : Type ℓ) : Type ℓ where
  ok : T → Result T
  err : Failure → Result T

abbrev pub finish {ℓ} : {T : Type ℓ} → Attempt T → Result T
finish (returns v d) = ok v
finish (throws e d) = err e

abbrev pub duration {ℓ} : {T : Type ℓ} → Attempt T → ℕ
duration (returns v d) = d
duration (throws e d) = d

-- `withTimeout`: the race of the operation and the timer, which the operation wins on a tie.
unfoldable pub with_timeout {ℓ} : {T : Type ℓ} → Attempt T → ℕ → Text → Result T
with_timeout a ms name = if leb (duration a) ms then finish a else err (timeout_failure name ms)

-- A timeout of 0 is falsy: no race.
abbrev pub run_attempt {ℓ} : {T : Type ℓ} → Text → Option ℕ → Attempt T → Result T
run_attempt name none a = finish a
run_attempt name (some zero) a = finish a
run_attempt name (some (suc ms)) a = with_timeout a (suc ms) name

abbrev pub attempt_time {ℓ} : {T : Type ℓ} → Option ℕ → Attempt T → ℕ
attempt_time none a = duration a
attempt_time (some zero) a = duration a
attempt_time (some (suc ms)) a = min (duration a) (suc ms)

unfoldable pub calculate_delay : ℕ → Options → ℕ → ℕ
calculate_delay attempt o random =
    if o.jitter
    then max 0 ((capped * 10000 + capped * (2 * random)) - capped * 1000)
    else capped * 10000
  where
    capped : ℕ
    capped = min (o.base_delay * o.exponential_base ^ attempt) o.max_delay

-- `config.retryCondition && !config.retryCondition(error)`, negated.
abbrev pub condition_allows : Option (Failure → Bool) → Failure → Bool
condition_allows none e = true
condition_allows (some allows) e = allows e

-- The two guards that end the loop early, as one decision on the options and the error.
unfoldable pub should_retry : Options → Failure → Bool
should_retry o e = if condition_allows o.retry_condition e then is_retryable_error e else false

pub record Run {ℓ} (T : Type ℓ) : Type ℓ where
  pub result : Result T
  pub metrics : Metrics
  pub calls : ℕ
  pub sleeps : List ℕ
  pub elapsed : ℕ

abbrev pub count_success : ℕ → Metrics → Metrics
count_success zero m = m
count_success (suc attempt) m = record m { successful_retries = m.successful_retries + 1 }

abbrev pub count_attempt : Text → Metrics → Metrics
count_attempt name m =
    update_operation_count name (record m { total_attempts = m.total_attempts + 1 })

abbrev pub after_sleep {ℓ} : {T : Type ℓ} → ℕ → ℕ → Run T → Run T
after_sleep delay time r = record r {
  sleeps = delay ∷ r.sleeps;
  elapsed = time * 10000 + delay + r.elapsed;
}

module _ {ℓ} {T : Type ℓ} (name : Text) (o : Options) (operation : ℕ → Attempt T)
    (random : ℕ → ℕ) where
  abbrev pub outcome : ℕ → Result T
  outcome k = run_attempt name o.timeout_ms (operation k)

  abbrev pub time_of : ℕ → ℕ
  time_of k = attempt_time o.timeout_ms (operation k)

  abbrev pub stop : ℕ → Result T → Metrics → Run T
  stop attempt r m = record {
    result = r;
    metrics = m;
    calls = attempt + 1;
    sleeps = [];
    elapsed = time_of attempt * 10000;
  }

  -- The `for` loop: `left` is `maxRetries - attempt`, so `zero` is the last attempt.
  unfoldable pub loop : ℕ → ℕ → Metrics → Run T
  loop zero attempt m = elim (outcome attempt) [
    | ok v ↦ stop attempt (ok v) (count_success attempt (count_attempt name m))
    | err e ↦
        stop attempt (err e)
          (record (count_attempt name m) { failed_retries = m.failed_retries + 1 })
  ]
  loop (suc left) attempt m = elim (outcome attempt) [
    | ok v ↦ stop attempt (ok v) (count_success attempt (count_attempt name m))
    | err e ↦ elim (should_retry o e) [
      | true ↦
          after_sleep (calculate_delay attempt o (random attempt)) (time_of attempt)
            (loop left (suc attempt) (count_attempt name m))
      | false ↦ stop attempt (err e) (count_attempt name m)
    ]
  ]

unfoldable pub with_retry {ℓ} :
    {T : Type ℓ} → (ℕ → Attempt T) → Text → PartialOptions → (ℕ → ℕ) → Metrics → Run T
with_retry operation name o random m =
    loop name (merged o) operation random (merged o).max_retries 0 m

abbrev pub options_of : ℕ → ℕ → ℕ → ℕ → (Failure → Bool) → PartialOptions
options_of retries base most timeout condition = record {
  max_retries = some retries;
  base_delay = some base;
  max_delay = some most;
  exponential_base = none;
  jitter = none;
  retry_condition = some condition;
  timeout_ms = some timeout;
}

module _ {ℓ} {T : Type ℓ} (operation : ℕ → Attempt T) (name : Text) (random : ℕ → ℕ)
    (m : Metrics) where
  unfoldable pub retry_database_operation : Run T
  retry_database_operation =
      with_retry operation (codes "Database:" ++ name)
        (options_of 3 500 5000 30000 database_condition) random m

  unfoldable pub retry_external_api : Run T
  retry_external_api =
      with_retry operation (codes "ExternalAPI:" ++ name)
        (options_of 2 1000 8000 15000 external_condition) random m

  unfoldable pub retry_redis_operation : Run T
  retry_redis_operation =
      with_retry operation (codes "Redis:" ++ name) (options_of 2 200 1000 5000 redis_condition)
        random m

  unfoldable pub retry_google_oauth : Run T
  retry_google_oauth =
      with_retry operation (codes "GoogleOAuth:" ++ name)
        (options_of 2 1000 5000 10000 google_condition) random m

-- The condition that `retryWithCircuitBreaker` puts in the place of the caller's own.
unfoldable pub circuit_condition : Option (Failure → Bool) → Failure → Bool
circuit_condition custom e =
    if says e (codes "circuit breaker is open")
    then false
    else elim custom [ none ↦ is_retryable_error e | some allows ↦ allows e ]

-- The operation of one attempt; an open breaker throws at once.
abbrev pub guarded {ℓ} : {T : Type ℓ} → Text → Bool → Attempt T → Attempt T
guarded name true a = throws (circuit_failure name) 0
guarded name false a = a

-- `opened n` is `circuitBreaker.opened` at the n-th attempt.
unfoldable pub retry_with_circuit_breaker {ℓ} :
    {T : Type ℓ} → (ℕ → Attempt T) → (ℕ → Bool) → Text → PartialOptions → (ℕ → ℕ) → Metrics → Run T
retry_with_circuit_breaker operation opened name o random m =
    with_retry (λ k. guarded name (opened k) (operation k)) name
      (record o { retry_condition = some (circuit_condition o.retry_condition) }) random m
