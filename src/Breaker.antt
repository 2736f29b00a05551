-- ===== src/Breaker.antt =====
-- src/services/analytics-computation-circuit-breaker.service.ts. Each synchronous section reads
-- the clock once, as the argument `now`. The emitted events are kept in order in `events`; the
-- service's name and the metadata are left out, and error texts are constructors of `Result`.
pub mod Opening
pub mod Lockout
pub mod Threshold
pub mod Moves
mod Examples
use classwaves_backend.Prelude.{
  ℕ, zero, suc, ◌+◌, ◌-◌, ◌*◌, Bool, true, false, List, [], ◌∷◌, ◌++◌, Option, none, some, ltb, leb,
  if◌then◌else◌,
}

pub data CircuitState : Type 0 where
  closed opened half_open : CircuitState

pub record Config : Type 0 where
  pub failure_threshold : ℕ
  pub timeout : ℕ
  pub monitoring_window : ℕ
  pub minimum_requests : ℕ

pub record PartialConfig : Type 0 where
  pub failure_threshold : Option ℕ
  pub timeout : Option ℕ
  pub monitoring_window : Option ℕ
  pub minimum_requests : Option ℕ

pub record Metrics : Type 0 where
  pub request_count : ℕ
  pub success_count : ℕ
  pub failure_count : ℕ
  pub consecutive_failures : ℕ
  pub last_failure_time : ℕ
  pub last_success_time : ℕ
  pub state : CircuitState
  pub state_changed_at : ℕ

pub data Event : Type 0 where
  succeeded : ℕ → CircuitState → Event
  failed : ℕ → ℕ → CircuitState → Event
  state_change : CircuitState → CircuitState → ℕ → Event
  was_reset : ℕ → Event

pub record Breaker : Type 0 where
  pub metrics : Metrics
  pub config : Config
  pub events : List Event

-- `value || fallback` on an optional number.
abbrev pub or_number : Option ℕ → ℕ → ℕ
or_number none d = d
or_number (some zero) d = d
or_number (some (suc n)) d = suc n

abbrev pub config_of : PartialConfig → Config
config_of c = record {
  failure_threshold = or_number c.failure_threshold 5;
  timeout = or_number c.timeout 60000;
  monitoring_window = or_number c.monitoring_window 600000;
  minimum_requests = or_number c.minimum_requests 10;
}

abbrev pub zero_metrics : ℕ → Metrics
zero_metrics now = record {
  request_count = 0;
  success_count = 0;
  failure_count = 0;
  consecutive_failures = 0;
  last_failure_time = 0;
  last_success_time = 0;
  state = closed;
  state_changed_at = now;
}

unfoldable pub create : PartialConfig → ℕ → Breaker
create c now = record { metrics = zero_metrics now; config = config_of c; events = [] }

abbrev pub emit : Event → Breaker → Breaker
emit e b = record b { events = b.events ++ e ∷ [] }

abbrev pub clear_counts : CircuitState → Metrics → Metrics
clear_counts closed m = record m {
  consecutive_failures = 0;
  request_count = 0;
  success_count = 0;
  failure_count = 0;
}
clear_counts _ m = m

unfoldable pub transition_to : CircuitState → ℕ → Breaker → Breaker
transition_to new_state now b = emit (state_change b.metrics.state new_state now) (record b {
  metrics = clear_counts new_state (record b.metrics { state = new_state; state_changed_at = now });
})

-- `lastFailureTime > now - window`, and the comparison of the two quotients multiplied out.
unfoldable pub should_open_circuit : ℕ → Breaker → Bool
should_open_circuit now b =
    if ltb m.request_count c.minimum_requests
    then false
    else if leb c.failure_threshold m.consecutive_failures
    then true
    else if ltb now (m.last_failure_time + c.monitoring_window)
    then leb (c.failure_threshold * m.request_count) (m.failure_count * c.minimum_requests)
    else false
  where
    open b use {metrics as m, config as c}

abbrev pub reopen_after : CircuitState → ℕ → Breaker → Breaker
reopen_after opened now b =
    if leb (b.metrics.state_changed_at + b.config.timeout) now
    then transition_to half_open now b
    else b
reopen_after _ now b = b

unfoldable pub update_state_if_needed : ℕ → Breaker → Breaker
update_state_if_needed now b = reopen_after b.metrics.state now b

abbrev pub close_after : CircuitState → ℕ → Breaker → Breaker
close_after half_open now b = transition_to closed now b
close_after _ now b = b

unfoldable pub record_success : ℕ → ℕ → Breaker → Breaker
record_success start now b =
    let b1 = record b {
      metrics = record b.metrics {
        success_count = b.metrics.success_count + 1;
        consecutive_failures = 0;
        last_success_time = now;
      };
    } in
    let b2 = close_after b.metrics.state now b1 in
    emit (succeeded (now - start) b2.metrics.state) b2

unfoldable pub count_failure : ℕ → Breaker → Breaker
count_failure now b = record b {
  metrics = record b.metrics {
    failure_count = b.metrics.failure_count + 1;
    consecutive_failures = b.metrics.consecutive_failures + 1;
    last_failure_time = now;
  };
}

unfoldable pub record_failure : ℕ → ℕ → Breaker → Breaker
record_failure start now b =
    let b1 = count_failure now b in
    let b2 = if should_open_circuit now b1 then transition_to opened now b1 else b1 in
    emit (failed (now - start) b2.metrics.consecutive_failures b2.metrics.state) b2

abbrev pub enter : CircuitState → ℕ → Breaker → Breaker × Bool
enter opened now b = (record_failure now now b, false)
enter _ now b =
    (record b { metrics = record b.metrics { request_count = b.metrics.request_count + 1 } }, true)

-- `execute` up to the start of the operation: `false` is the rejection.
unfoldable pub admit : ℕ → Breaker → Breaker × Bool
admit now b = let b1 = update_state_if_needed now b in enter b1.metrics.state now b1

-- What the operation does when it is run: its result, and how long it takes.
pub data Outcome {ℓ κ} (A : Type ℓ) (E : Type κ) : Type (ℓ ⊔ κ) where
  returns : A → ℕ → Outcome A E
  throws : E → ℕ → Outcome A E

pub data Result {ℓ κ} (A : Type ℓ) (E : Type κ) : Type (ℓ ⊔ κ) where
  ok : A → Result A E
  operation_error : E → Result A E
  timeout_error : Result A E
  open_error : Result A E

-- `Promise.race` with the timer: the operation wins when it settles by the timer's time.
unfoldable pub settle {ℓ κ} :
    {A : Type ℓ} {E : Type κ} → ℕ → Outcome A E → Breaker → Breaker × Result A E
settle start (returns a d) b =
    if leb d b.config.timeout
    then (record_success start (start + d) b, ok a)
    else (record_failure start (start + b.config.timeout) b, timeout_error)
settle start (throws e d) b =
    if leb d b.config.timeout
    then (record_failure start (start + d) b, operation_error e)
    else (record_failure start (start + b.config.timeout) b, timeout_error)

abbrev pub proceed {ℓ κ} :
    {A : Type ℓ} {E : Type κ} → ℕ → Outcome A E → Breaker × Bool → Breaker × Result A E
proceed start o (b, true) = settle start o b
proceed start o (b, false) = (b, open_error)

-- `execute` of one caller, with no other call between its start and its end.
unfoldable pub execute {ℓ κ} :
    {A : Type ℓ} {E : Type κ} → ℕ → Outcome A E → Breaker → Breaker × Result A E
execute start o b = proceed start o (admit start b)

pub data Health : Type 0 where
  healthy degraded unhealthy : Health

unfoldable pub health_status : Metrics → Health
health_status m = elim m.state [
  | closed ↦ if ltb 0 m.consecutive_failures then degraded else healthy
  | half_open ↦ degraded
  | opened ↦ unhealthy
]

unfoldable pub reset : ℕ → Breaker → Breaker
reset now b = emit (was_reset now) (record b { metrics = zero_metrics now })

-- Calls overlap: each is a start and a later end, and the ends come in any order.
pub data Action : Type 0 where
  arrive : ℕ → Action
  succeed fail : ℕ → ℕ → Action
  manual_reset : ℕ → Action

unfoldable pub step : Breaker → Action → Breaker
step b (arrive now) = (admit now b).0
step b (succeed start now) = record_success start now b
step b (fail start now) = record_failure start now b
step b (manual_reset now) = reset now b

unfoldable pub run : Breaker → List Action → Breaker
run b [] = b
run b (a ∷ as') = run (step b a) as'
