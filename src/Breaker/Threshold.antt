-- ===== src/Breaker/Threshold.antt =====
-- How many failures open a fresh circuit.
use classwaves_backend.Prelude.{
  ℕ, ◌+◌, ◌*◌, ◌≤◌, ◌<◌, ◌≡◌, List, [], ◌∷◌, max, map, arith, length, All, le→leb, refl, leb, ltb,
  if◌then◌else◌,
}
use classwaves_backend.Breaker.{
  closed, opened, Breaker, Outcome, throws, create, PartialConfig, transition_to,
  should_open_circuit, update_state_if_needed, record_failure, count_failure, admit, settle,
  execute, enter, config_of,
}
use classwaves_backend.Breaker.Opening.{execute_all}

-- A circuit that has only seen failures, `k` of them.
pub record OnlyFailures (k : ℕ) (b : Breaker) : Type 0 where
  pub shut : b.metrics.state ≡ closed
  pub requests : b.metrics.request_count ≡ k
  pub failures : b.metrics.failure_count ≡ k
  pub consecutive : b.metrics.consecutive_failures ≡ k
  pub window : 0 < b.config.monitoring_window
  pub threshold : 0 < b.config.failure_threshold
  pub minimum : 0 < b.config.minimum_requests

pub create-OnlyFailures : (c : PartialConfig) (now : ℕ) → OnlyFailures 0 (create c now)
unfolding create
create-OnlyFailures c now = ground arith

abbrev pub limit : Breaker → ℕ
limit b = max b.config.failure_threshold b.config.minimum_requests

-- The failure rate of failures alone is 1, which is below the ratio of the two settings exactly
-- where the threshold is the larger one.
rate_below : (t m n : ℕ) → m < t → 0 < n → n * m < t * n
rate_below t m n h p = grind arith

rate_above : (t m n : ℕ) → t ≤ m → t * n ≤ n * m
rate_above t m n h = grind arith

admit_closed : (k now : ℕ) (b : Breaker) → OnlyFailures k b → admit now b ≡ enter closed now b
unfolding admit update_state_if_needed
admit_closed k now b f = rw (f.shut, admit)

-- The breaker when the operation of its next call is about to fail at `now`.
abbrev failing : ℕ → ℕ → Breaker → Breaker
failing start now b = count_failure now (enter closed start b).0

should_open-failing :
    (k start now : ℕ) (b : Breaker)
    → OnlyFailures k b
    → should_open_circuit now (failing start now b) ≡ leb (limit b) (k + 1)
unfolding should_open_circuit count_failure
should_open-failing k start now b f = ground (
  arith,
  rate_below b.config.failure_threshold b.config.minimum_requests (k + 1),
  rate_above b.config.failure_threshold b.config.minimum_requests (k + 1),
)

record_failure_below :
    (k start now : ℕ) (b : Breaker)
    → OnlyFailures k b
    → k + 1 < limit b
    → OnlyFailures (k + 1) (record_failure start now (enter closed start b).0)
unfolding record_failure
record_failure_below k start now b f h =
    rw (should_open-failing k start now b f, record_failure) (unfold count_failure in ground arith)

record_failure_at :
    (k start now : ℕ) (b : Breaker)
    → OnlyFailures k b
    → limit b ≤ k + 1
    → (record_failure start now (enter closed start b).0).metrics.state ≡ opened
unfolding record_failure
record_failure_at k start now b f h =
    rw (should_open-failing k start now b f, record_failure) (unfold transition_to in ground arith)

record_failure-config :
    (start now : ℕ) (b : Breaker) → (record_failure start now b).config ≡ b.config
unfolding record_failure transition_to count_failure
record_failure-config start now b = ground arith

abbrev after_failure {κ} : {E : Type κ} → ℕ × ℕ × E → Breaker → Breaker
after_failure (start, d, e) b = record_failure start (start + d) (enter closed start b).0

module _ {ℓ κ} (A : Type ℓ) {E : Type κ} where
  -- A call that starts at the first number and whose operation throws after the second.
  abbrev pub failing_call : ℕ × ℕ × E → ℕ × Outcome A E
  failing_call (start, d, e) = (start, throws e d)

  settle-failing :
      (start d : ℕ) (e : E) (b : Breaker)
      → d ≤ b.config.timeout
      → (settle {A = A} start (throws e d) b).0 ≡ record_failure start (start + d) b
  unfolding settle
  settle-failing start d e b quick = rw (le→leb d b.config.timeout quick, settle)

  execute-failing :
      (k : ℕ) (c : ℕ × ℕ × E) (b : Breaker)
      → OnlyFailures k b
      → c.1 ≤ b.config.timeout
      → (execute (failing_call c).0 (failing_call c).1 b).0 ≡ after_failure c b
  unfolding execute
  execute-failing k (start, d, e) b f quick =
      rw (admit_closed k start b f, execute)
        (settle-failing start d e (enter closed start b).0 quick)

  -- The induction: `lim` is the limit, `wait` the timeout, and `k` failures are behind.
  execute_all-state :
      (calls : List (ℕ × ℕ × E)) (k n lim wait : ℕ) (b : Breaker)
      → OnlyFailures k b
      → limit b ≡ lim
      → b.config.timeout ≡ wait
      → k < lim
      → All (λ c. c.1 ≤ wait) calls
      → k + length calls ≡ n
      → n ≤ lim
      → (execute_all (map failing_call calls) b).metrics.state
        ≡ (if ltb n lim then closed else opened)
  unfolding execute_all
  execute_all-state [] k n lim wait b f el ew below quick en h = ground (arith, f.shut)
  execute_all-state (c ∷ []) k n lim wait b f el ew below quick en h =
      rw (execute-failing k c b f (omega (arith, quick.0)), execute_all)
        (ground (
          arith,
          record_failure_below k c.0 (c.0 + c.1) b f,
          record_failure_at k c.0 (c.0 + c.1) b f,
        ))
  execute_all-state (c ∷ c' ∷ calls) k n lim wait b f el ew below quick en h =
      let same = record_failure-config c.0 (c.0 + c.1) (enter closed c.0 b).0 in
      rw (execute-failing k c b f (omega (arith, quick.0)), execute_all)
        (execute_all-state (c' ∷ calls) (k + 1) n lim wait (after_failure c b)
          (record_failure_below k c.0 (c.0 + c.1) b f (omega arith)) (rw same el) (rw same ew)
          (omega arith) quick.1 (omega arith) h)

  -- A fresh circuit whose calls all fail within the timeout stays closed through fewer calls than
  -- the larger of the failure threshold and the minimum of requests, and is open after that many.
  pub create-execute_all :
      (c : PartialConfig) (now : ℕ) (calls : List (ℕ × ℕ × E))
      → All (λ call. call.1 ≤ (config_of c).timeout) calls
      → length calls ≤ limit (create c now)
      → (execute_all (map failing_call calls) (create c now)).metrics.state
        ≡ (if ltb (length calls) (limit (create c now)) then closed else opened)
  create-execute_all c now calls quick h =
      execute_all-state calls 0 (length calls) (limit (create c now)) (config_of c).timeout
        (create c now) (create-OnlyFailures c now) refl (unfold create in refl)
        (unfold create in ground arith) quick (omega arith) h
