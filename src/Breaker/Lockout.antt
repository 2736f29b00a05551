-- ===== src/Breaker/Lockout.antt =====
-- What an open circuit does with the calls that arrive, and how it recovers.
use classwaves_backend.Prelude.{
  ℕ, ◌+◌, ◌≤◌, ◌<◌, ◌≡◌, List, [], ◌∷◌, map, arith, length, ◌∙◌, true, false, refl,
}
use classwaves_backend.Breaker.{
  opened, half_open, Breaker, throws, operation_error, transition_to, should_open_circuit,
  update_state_if_needed, record_failure, count_failure, admit, settle, execute, arrive, step, run,
  enter,
}
use classwaves_backend.Breaker.Opening.{Inv, Triggered, admit-Inv}

-- Every arrival comes before the wait since the one before it is over.
abbrev pub Dense : ℕ → ℕ → List ℕ → Type 0
Dense last wait [] = Unit
Dense last wait (t ∷ ts) = (t < last + wait) × Dense t wait ts

early_update :
    (now : ℕ) (b : Breaker)
    → b.metrics.state ≡ opened
    → now < b.metrics.state_changed_at + b.config.timeout
    → update_state_if_needed now b ≡ b
unfolding update_state_if_needed
early_update now b h early = rw h (ground arith)

-- One more failure keeps the cause of the opening.
count_failure-should_open :
    (now : ℕ) (b : Breaker)
    → 0 < b.config.monitoring_window
    → Triggered b
    → should_open_circuit now (count_failure now b) ≡ true
unfolding should_open_circuit count_failure
count_failure-should_open now b w t = ground arith

reject_restarts :
    (now : ℕ) (b : Breaker)
    → should_open_circuit now (count_failure now b) ≡ true
    → ((record_failure now now b).metrics.state ≡ opened)
      × ((record_failure now now b).metrics.state_changed_at ≡ now)
      × ((record_failure now now b).metrics.request_count ≡ b.metrics.request_count)
      × ((record_failure now now b).metrics.success_count ≡ b.metrics.success_count)
      × ((record_failure now now b).metrics.failure_count ≡ b.metrics.failure_count + 1)
      × ((record_failure now now b).config ≡ b.config)
unfolding record_failure transition_to
reject_restarts now b h =
    rw (h, record_failure) (unfold count_failure in (refl, refl, refl, refl, refl, refl))

admit_early :
    (now : ℕ) (b : Breaker)
    → b.metrics.state ≡ opened
    → now < b.metrics.state_changed_at + b.config.timeout
    → admit now b ≡ (record_failure now now b, false)
unfolding admit
admit_early now b h early = rw (early_update now b h early, admit) (rw (h, enter))

-- Within the wait of an open circuit an arrival is turned away: it counts as a failure, leaves the
-- circuit open, and the wait starts again at its time.
pub admit_open :
    (now : ℕ) (b : Breaker)
    → Inv b
    → b.metrics.state ≡ opened
    → now < b.metrics.state_changed_at + b.config.timeout
    → ((admit now b).1 ≡ false)
      × ((admit now b).0.metrics.state ≡ opened)
      × ((admit now b).0.metrics.state_changed_at ≡ now)
      × ((admit now b).0.metrics.request_count ≡ b.metrics.request_count)
      × ((admit now b).0.metrics.success_count ≡ b.metrics.success_count)
      × ((admit now b).0.metrics.failure_count ≡ b.metrics.failure_count + 1)
      × ((admit now b).0.config ≡ b.config)
admit_open now b v h early =
    let again = count_failure-should_open now b v.window (v.open_cause h) in
    let (p, q, r, t, u, w) = reject_restarts now b again in
    rw (admit_early now b h early) (refl, p, q, r, t, u, w)

-- In a sound breaker, while arrivals keep coming closer together than the timeout, the first one
-- counted from the opening, an open circuit stays open and turns every one of them away, however
-- long this lasts: no request is counted, and one more failure for each arrival.
pub run-opened :
    (ts : List ℕ) (b : Breaker)
    → Inv b
    → b.metrics.state ≡ opened
    → Dense b.metrics.state_changed_at b.config.timeout ts
    → ((run b (map arrive ts)).metrics.state ≡ opened)
      × ((run b (map arrive ts)).metrics.request_count ≡ b.metrics.request_count)
      × ((run b (map arrive ts)).metrics.failure_count ≡ b.metrics.failure_count + length ts)
unfolding run step
run-opened [] b v h d = (h, refl, omega arith)
run-opened (t ∷ ts) b v h (early, d) =
    let (_, stays, restarts, requests, _, failures, same) = admit_open t b v h early in
    let (later, requests', failures') =
      run-opened ts (admit t b).0 (admit-Inv t b v).0 stays (rw (restarts, same) d) in
    (later, requests' ∙ requests, omega (arith, failures, failures'))

late_update :
    (now : ℕ) (b : Breaker)
    → b.metrics.state ≡ opened
    → b.metrics.state_changed_at + b.config.timeout ≤ now
    → update_state_if_needed now b ≡ transition_to half_open now b
unfolding update_state_if_needed
late_update now b h late = rw h (ground arith)

-- The test request: the counters go on from where the circuit opened.
abbrev probing : ℕ → Breaker → Breaker
probing now b = (enter half_open now (transition_to half_open now b)).0

admit_late :
    (now : ℕ) (b : Breaker)
    → b.metrics.state ≡ opened
    → b.metrics.state_changed_at + b.config.timeout ≤ now
    → admit now b ≡ (probing now b, true)
unfolding admit
admit_late now b h late = rw (late_update now b h late, admit) (unfold transition_to in refl)

-- A call that comes to an open circuit once the wait is over and that fails within the timeout opens
-- the circuit again, if the threshold of consecutive failures and the minimum of requests had been
-- reached: the caller gets the operation's own error, and the wait starts again when the
-- failure is known.
pub execute_reopens {ℓ κ} :
    {A : Type ℓ} {E : Type κ} (start d : ℕ) (e : E) (b : Breaker)
    → b.metrics.state ≡ opened
    → b.config.failure_threshold ≤ b.metrics.consecutive_failures
    → b.config.minimum_requests ≤ b.metrics.request_count
    → b.metrics.state_changed_at + b.config.timeout ≤ start
    → d ≤ b.config.timeout
    → ((execute {A = A} start (throws e d) b).1 ≡ operation_error e)
      × ((execute {A = A} start (throws e d) b).0.metrics.state ≡ opened)
      × ((execute {A = A} start (throws e d) b).0.metrics.state_changed_at ≡ start + d)
unfolding execute
execute_reopens start d e b h reached enough late quick =
    rw (admit_late start b h late, execute)
      (unfold settle record_failure count_failure should_open_circuit transition_to in ground arith)
