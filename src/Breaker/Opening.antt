-- ===== src/Breaker/Opening.antt =====
-- When the circuit opens.
use classwaves_backend.Prelude.{
  ℕ, ◌+◌, ◌*◌, ◌≤◌, ◌<◌, ◌≡◌, ◌≢◌, ◌⊎◌, List, [], ◌∷◌, arith, true, false, refl, Bool,
}
use classwaves_backend.Breaker.{
  opened, PartialConfig, Breaker, Outcome, throws, returns, create, transition_to,
  should_open_circuit, update_state_if_needed, record_success, record_failure, count_failure, admit,
  settle, execute, proceed, Action, arrive, succeed, fail, manual_reset,
}

-- What an open circuit owes its opening to: enough requests, and one of the two triggers.
pub record Triggered (b : Breaker) : Type 0 where
  pub enough : b.config.minimum_requests ≤ b.metrics.request_count
  pub cause :
      (b.config.failure_threshold ≤ b.metrics.consecutive_failures)
      ⊎ (b.config.failure_threshold * b.metrics.request_count
          ≤ b.metrics.failure_count * b.config.minimum_requests)

pub record Inv (b : Breaker) : Type 0 where
  pub window : 0 < b.config.monitoring_window
  pub wait : 0 < b.config.timeout
  pub open_cause : b.metrics.state ≡ opened → Triggered b

pub create-Inv : (c : PartialConfig) (now : ℕ) → Inv (create c now)
unfolding create
create-Inv c now = ground arith

should_open-Triggered : (now : ℕ) (b : Breaker) → should_open_circuit now b ≡ true → Triggered b
unfolding should_open_circuit
should_open-Triggered now b h = ground arith

pub record_failure-Inv : (start now : ℕ) (b : Breaker) → Inv b → Inv (record_failure start now b)
unfolding record_failure transition_to count_failure
record_failure-Inv start now b v = ground (arith, should_open-Triggered now (count_failure now b))

record_success-Inv :
    (start now : ℕ) (b : Breaker)
    → Inv b
    → b.metrics.state ≢ opened
    → Inv (record_success start now b)
unfolding record_success transition_to
record_success-Inv start now b v h = ground arith

settle-Inv {ℓ κ} :
    {A : Type ℓ} {E : Type κ} (start : ℕ) (o : Outcome A E) (b : Breaker)
    → Inv b
    → b.metrics.state ≢ opened
    → Inv (settle start o b).0
unfolding settle
settle-Inv start (returns a d) b v h = ground (
  arith,
  record_success-Inv start (start + d) b v h,
  record_failure-Inv start (start + b.config.timeout) b v,
)
settle-Inv start (throws e d) b v h = ground (
  arith,
  record_failure-Inv start (start + d) b v,
  record_failure-Inv start (start + b.config.timeout) b v,
)

pub admit-Inv :
    (now : ℕ) (b : Breaker)
    → Inv b
    → Inv (admit now b).0 × ((admit now b).1 ≡ true → (admit now b).0.metrics.state ≢ opened)
unfolding admit update_state_if_needed transition_to
admit-Inv now b v = ground (arith, record_failure-Inv now now b v)

proceed-Inv {ℓ κ} :
    {A : Type ℓ} {E : Type κ} (start : ℕ) (o : Outcome A E) (r : Breaker × Bool)
    → Inv r.0
    → (r.1 ≡ true → r.0.metrics.state ≢ opened)
    → Inv (proceed start o r).0
proceed-Inv start o (b, true) v h = settle-Inv start o b v (h refl)
proceed-Inv start o (b, false) v h = v

-- A call with no other call between its start and its end keeps a breaker sound: its window and
-- timeout are positive, and if it is open it has its cause, which is the minimum of requests and
-- the threshold of consecutive failures or the failure rate.
pub execute-Inv {ℓ κ} :
    {A : Type ℓ} {E : Type κ} (start : ℕ) (o : Outcome A E) (b : Breaker)
    → Inv b
    → Inv (execute start o b).0
unfolding execute
execute-Inv start o b v =
    let (v', h) = admit-Inv start b v in proceed-Inv start o (admit start b) v' h

-- What makes a step leave an open circuit where there was none: it is a failure, the counted
-- requests reach the minimum, and with this failure counted either the failures in a row reach the
-- threshold, or failures per request reach the threshold per minimum of requests.
abbrev pub Opens : Breaker → Action → Type 0
Opens b (fail start now) =
    (b.config.minimum_requests ≤ b.metrics.request_count)
    × ((b.config.failure_threshold ≤ b.metrics.consecutive_failures + 1)
        ⊎ (b.config.failure_threshold * b.metrics.request_count
            ≤ (b.metrics.failure_count + 1) * b.config.minimum_requests))
Opens b (arrive now) = ⊥
Opens b (succeed start now) = ⊥
Opens b (manual_reset now) = ⊥

-- A run of calls, each after the end of the one before it.
unfoldable pub execute_all {ℓ κ} :
    {A : Type ℓ} {E : Type κ} → List (ℕ × Outcome A E) → Breaker → Breaker
execute_all [] b = b
execute_all ((start, o) ∷ calls) b = execute_all calls (execute start o b).0

-- A fresh breaker after any run of calls.
pub execute_all-Inv {ℓ κ} :
    {A : Type ℓ} {E : Type κ} (calls : List (ℕ × Outcome A E)) (b : Breaker)
    → Inv b
    → Inv (execute_all calls b)
unfolding execute_all
execute_all-Inv [] b v = v
execute_all-Inv ((start, o) ∷ calls) b v =
    execute_all-Inv calls (execute start o b).0 (execute-Inv start o b v)
