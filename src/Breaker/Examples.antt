-- ===== src/Breaker/Examples.antt =====
-- The analytics breaker at concrete inputs.
use classwaves_backend.Prelude.{ℕ, ◌≡◌, refl, List, [], ◌∷◌, map, some, arith}
use classwaves_backend.Breaker.{
  Breaker, PartialConfig, closed, opened, throws, create, admit, execute, step, run, arrive, settle,
  update_state_if_needed, record_failure, should_open_circuit, count_failure, transition_to,
}
use classwaves_backend.Breaker.Opening.{Inv, execute_all}
use classwaves_backend.Breaker.Lockout.{run-opened, execute_reopens}
use classwaves_backend.Breaker.Threshold.{failing_call, create-execute_all}
use classwaves_backend.Breaker.Moves.{Edge, step-Edge}

-- `analyticsComputationCircuitBreaker`.
abbrev analytics_config : PartialConfig
analytics_config = record {
  failure_threshold = some 5;
  timeout = some 120000;
  monitoring_window = some 900000;
  minimum_requests = some 3;
}

abbrev fresh : Breaker
fresh = create analytics_config 0

-- Open since time 1000, after five failures.
abbrev tripped : Breaker
tripped = record {
  metrics = record {
    request_count = 5;
    success_count = 0;
    failure_count = 5;
    consecutive_failures = 5;
    last_failure_time = 1000;
    last_success_time = 0;
    state = opened;
    state_changed_at = 1000;
  };
  config = record {
    failure_threshold = 5;
    timeout = 120000;
    monitoring_window = 900000;
    minimum_requests = 3;
  };
  events = [];
}

tripped-Inv : Inv tripped
tripped-Inv = ground arith

abbrev failing : Breaker
failing = record tripped {
  metrics = record tripped.metrics { failure_count = 4; consecutive_failures = 4; state = closed };
}

run-opened_example :
    (run tripped (map arrive (61000 ∷ 121000 ∷ 240999 ∷ []))).metrics.state ≡ opened
run-opened_example =
    (run-opened (61000 ∷ 121000 ∷ 240999 ∷ []) tripped tripped-Inv refl (omega arith)).0

execute_reopens_example :
    (execute {A = ℕ} {E = ℕ} 121000 (throws 7 10) tripped).0.metrics.state ≡ opened
execute_reopens_example =
    (execute_reopens {A = ℕ} 121000 10 7 tripped refl (omega arith) (omega arith) (omega arith)
      (omega arith)).1

abbrev five_failures : List (ℕ × ℕ × ℕ)
five_failures = (0, 5, 1) ∷ (10, 5, 1) ∷ (20, 5, 1) ∷ (30, 5, 1) ∷ (40, 5, 1) ∷ []

create-execute_all_example :
    (execute_all (map (failing_call ℕ) five_failures) fresh).metrics.state ≡ opened
unfolding create
create-execute_all_example =
    create-execute_all ℕ analytics_config 0 five_failures (omega arith) (omega arith)

step-Edge_example : Edge tripped (step tripped (arrive 121000))
step-Edge_example = step-Edge tripped (arrive 121000) (λ now e. cc)

-- The lockout as a run: the circuit opens at 45, and a request every minute keeps it open.
locked_out :
    (run
      (execute_all (map (failing_call ℕ) five_failures) fresh)
      (map arrive (60045 ∷ 120045 ∷ 180045 ∷ 240045 ∷ []))).metrics.state
    ≡ opened
unfolding run step create execute_all execute admit update_state_if_needed settle record_failure
    should_open_circuit count_failure transition_to
locked_out = refl
