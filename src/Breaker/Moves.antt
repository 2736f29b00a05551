-- ===== src/Breaker/Moves.antt =====
-- The diagram of the circuit's states, for calls that overlap in any way.
use classwaves_backend.Prelude.{ℕ, ◌+◌, ◌≤◌, ◌≡◌, ◌≢◌, ◌⊎◌, inl, inr, arith, refl, ◌∙◌, sym}
use classwaves_backend.Breaker.{
  CircuitState, closed, opened, half_open, Breaker, Action, arrive, succeed, fail, manual_reset,
  transition_to, update_state_if_needed, record_success, record_failure, count_failure, admit, step,
}

pub data Edge (b c : Breaker) : Type 0 where
  stay : c.metrics.state ≡ b.metrics.state → Edge b c
  trip : b.metrics.state ≡ closed → c.metrics.state ≡ opened → Edge b c
  probe :
      b.metrics.state ≡ opened
      → c.metrics.state ≡ half_open
      → b.metrics.state_changed_at + b.config.timeout ≤ c.metrics.state_changed_at
      → Edge b c
  recover : b.metrics.state ≡ half_open → c.metrics.state ≡ closed → Edge b c
  trip_again : b.metrics.state ≡ half_open → c.metrics.state ≡ opened → Edge b c

State-cases : (s : CircuitState) → (s ≡ closed) ⊎ ((s ≡ opened) ⊎ (s ≡ half_open))
State-cases closed = inl refl
State-cases opened = inr (inl refl)
State-cases half_open = inr (inr refl)

record_failure-state :
    (start now : ℕ) (b : Breaker)
    → ((record_failure start now b).metrics.state ≡ b.metrics.state)
      ⊎ ((record_failure start now b).metrics.state ≡ opened)
unfolding record_failure transition_to count_failure
record_failure-state start now b = ground arith

record_failure-Edge : (start now : ℕ) (b : Breaker) → Edge b (record_failure start now b)
record_failure-Edge start now b = elim (record_failure-state start now b) [
  | inl same ↦ stay same
  | inr open' ↦ elim (State-cases b.metrics.state) [
    | inl e ↦ trip e open'
    | inr (inl e) ↦ stay (open' ∙ sym e)
    | inr (inr e) ↦ trip_again e open'
  ]
]

record_success-state :
    (start now : ℕ) (b : Breaker)
    → ((record_success start now b).metrics.state ≡ b.metrics.state)
      ⊎ ((b.metrics.state ≡ half_open) × ((record_success start now b).metrics.state ≡ closed))
unfolding record_success transition_to
record_success-state start now b = ground arith

record_success-Edge : (start now : ℕ) (b : Breaker) → Edge b (record_success start now b)
record_success-Edge start now b = elim (record_success-state start now b) [
  | inl same ↦ stay same
  | inr (half, shut) ↦ recover half shut
]

admit-state :
    (now : ℕ) (b : Breaker)
    → ((admit now b).0.metrics.state ≡ b.metrics.state)
      ⊎ ((b.metrics.state ≡ opened)
          × ((admit now b).0.metrics.state ≡ half_open)
          × (b.metrics.state_changed_at + b.config.timeout
              ≤ (admit now b).0.metrics.state_changed_at))
unfolding admit update_state_if_needed transition_to
admit-state now b = ground (arith, record_failure-state now now b)

admit-Edge : (now : ℕ) (b : Breaker) → Edge b (admit now b).0
admit-Edge now b = elim (admit-state now b) [
  | inl same ↦ stay same
  | inr (from, to, waited) ↦ probe from to waited
]

-- Whatever the order of arrivals, successes and failures, the state moves only from closed to
-- open, from open to half-open when the timeout has passed since the last change, and from
-- half-open to closed or open; only a manual reset can do anything else.
pub step-Edge : (b : Breaker) (a : Action) → ((now : ℕ) → a ≢ manual_reset now) → Edge b (step b a)
unfolding step
step-Edge b (arrive now) h = admit-Edge now b
step-Edge b (succeed start now) h = record_success-Edge start now b
step-Edge b (fail start now) h = record_failure-Edge start now b
step-Edge b (manual_reset now) h = absurd (h now refl)
