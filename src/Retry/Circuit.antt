-- ===== src/Retry/Circuit.antt =====
-- `retryWithCircuitBreaker` while the breaker stays open.
use classwaves_backend.Prelude.{
  ℕ, zero, suc, ◌+◌, ◌≡◌, ◌∙◌, true, false, Option, none, some, arith, refl, Bool-cases, inl, inr,
  if◌then◌else◌, Text, codes, includes, starts_with, to_lower_case,
}
use native.Mathlib.Nat.{zero-add}
use classwaves_backend.Failure.{Failure, says, circuit_failure}
use classwaves_backend.Failure.Messages.{is_transient_text, is_retryable_error-circuit}
use classwaves_backend.Retry.{
  Options, PartialOptions, merged, Metrics, Attempt, err, should_retry, outcome, loop, with_retry,
  run_attempt, with_timeout, guarded, circuit_condition, retry_with_circuit_breaker, count_attempt,
}

module _ {ℓ} {T : Type ℓ} (name : Text) (o : Options) (operation : ℕ → Attempt T)
    (random : ℕ → ℕ) where
  -- An operation that always fails in the same way is tried once or to the end.
  loop-calls_constant :
      (left attempt : ℕ) (m : Metrics) (e : Failure)
      → ((k : ℕ) → outcome name o operation random k ≡ err e)
      → (loop name o operation random left attempt m).calls
        ≡ (if should_retry o e then attempt + left + 1 else attempt + 1)
  unfolding loop
  loop-calls_constant zero attempt m e same =
      rw (same attempt, loop)
        (elim (Bool-cases (should_retry o e)) [
          | inl again ↦ rw again (omega arith)
          | inr last ↦ rw last
        ])
  loop-calls_constant (suc left) attempt m e same = elim (Bool-cases (should_retry o e)) [
    | inl again ↦
        let rest = loop-calls_constant left (suc attempt) (count_attempt name m) e same in
        rw (same attempt, again, loop) (rw again at rest ∙ omega arith)
    | inr last ↦ rw (same attempt, last, loop)
  ]

run_attempt-guarded {ℓ} :
    {T : Type ℓ} (name : Text) (timeout : Option ℕ) (a : Attempt T)
    → run_attempt name timeout (guarded name true a) ≡ err (circuit_failure name)
unfolding with_timeout
run_attempt-guarded name none a = refl
run_attempt-guarded name (some zero) a = refl
run_attempt-guarded name (some (suc ms)) a = ground arith

says-circuit :
    (name : Text)
    → says (circuit_failure name) (codes "circuit breaker is open")
      ≡ includes (codes "circuit breaker is open") name
unfolding circuit_failure includes starts_with
says-circuit name = refl

circuit_condition-circuit :
    (name : Text)
    → includes (codes "circuit breaker is open") name ≡ false
    → circuit_condition none (circuit_failure name) ≡ is_transient_text (to_lower_case name)
unfolding circuit_condition
circuit_condition-circuit name h =
    rw (says-circuit name, h, circuit_condition) (is_retryable_error-circuit name)

should_retry-circuit :
    (name : Text) (o : Options)
    → o.retry_condition ≡ some (circuit_condition none)
    → includes (codes "circuit breaker is open") name ≡ false
    → should_retry o (circuit_failure name) ≡ is_transient_text (to_lower_case name)
unfolding should_retry
should_retry-circuit name o own h = rw own (
    rw (circuit_condition-circuit name h, is_retryable_error-circuit name)
      (elim (Bool-cases (is_transient_text (to_lower_case name))) [
        | inl yes' ↦ rw yes'
        | inr no' ↦ rw no'
      ]))

-- While the breaker is open and the caller has no condition of its own, the call makes all its
-- attempts exactly when the lowercased name of the operation reads like a transient fault, and one
-- attempt otherwise; the name must not itself hold the words "circuit breaker is open".
pub retry_with_circuit_breaker-opened {ℓ} :
    {T : Type ℓ} (operation : ℕ → Attempt T) (name : Text) (o : PartialOptions) (random : ℕ → ℕ)
    (m : Metrics)
    → o.retry_condition ≡ none
    → includes (codes "circuit breaker is open") name ≡ false
    → (retry_with_circuit_breaker operation (λ _. true) name o random m).calls
      ≡ (if is_transient_text (to_lower_case name) then (merged o).max_retries + 1 else 1)
unfolding retry_with_circuit_breaker with_retry
retry_with_circuit_breaker-opened operation name o random m own h =
    let o' : Options =
      merged (record o { retry_condition = some (circuit_condition o.retry_condition) }) in
    let retried = should_retry-circuit name o' (rw own) h in
    let calls =
      loop-calls_constant name o' (λ k. guarded name true (operation k)) random o'.max_retries 0 m
        (circuit_failure name) (λ k. run_attempt-guarded name o'.timeout_ms (operation k)) in
    calls ∙ rw (retried, zero-add)
