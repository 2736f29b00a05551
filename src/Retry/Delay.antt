-- ===== src/Retry/Delay.antt =====
-- The back-off: how long the loop sleeps, and how long a whole call can take.
use classwaves_backend.Prelude.{
  ℕ, zero, suc, ◌+◌, ◌*◌, ◌-◌, ◌^◌, ◌≤◌, ◌<◌, ◌≡◌, inl, inr, min, false, some, arith, refl,
  Bool-cases, Text,
}
use native.Mathlib.Nat.{pow-le-pow_right}
use classwaves_backend.Retry.Loop.{Result-cases}
use classwaves_backend.Retry.{
  Options, PartialOptions, merged, Metrics, Attempt, should_retry, outcome, time_of, loop,
  with_retry, calculate_delay, attempt_time, count_attempt, retry_redis_operation,
}

-- The delay without jitter, in milliseconds.
abbrev pub capped_delay : ℕ → Options → ℕ
capped_delay attempt o = min (o.base_delay * o.exponential_base ^ attempt) o.max_delay

jittered_bounds :
    (c r : ℕ)
    → r < 1000
    → (9000 * c ≤ (c * 10000 + c * (2 * r)) - c * 1000)
      × ((c * 10000 + c * (2 * r)) - c * 1000 ≤ 11000 * c)
jittered_bounds c r h =
    let top : c * r ≤ c * 1000 = grind arith in (omega arith, omega (arith, top))

-- With a random number below one, the jitter moves a delay by at most a tenth of the capped
-- back-off, either way; in ten-thousandths of a millisecond.
pub calculate_delay_bounds :
    (attempt : ℕ) (o : Options) (random : ℕ)
    → random < 1000
    → (9000 * capped_delay attempt o ≤ calculate_delay attempt o random)
      × (calculate_delay attempt o random ≤ 11000 * capped_delay attempt o)
unfolding calculate_delay
calculate_delay_bounds attempt o random h = elim (Bool-cases o.jitter) [
  | inl on ↦ rw on (omega (arith, jittered_bounds (capped_delay attempt o) random h))
  | inr off ↦ rw off (omega arith)
]

pub calculate_delay-le_max :
    (attempt : ℕ) (o : Options) (random : ℕ)
    → random < 1000
    → calculate_delay attempt o random ≤ 11000 * o.max_delay
calculate_delay-le_max attempt o random h = omega (arith, calculate_delay_bounds attempt o random h)

-- Without jitter, and with a positive exponential base, the delays never fall from one attempt to
-- a later one.
pub calculate_delay_mono :
    (i j : ℕ) (o : Options) (random later : ℕ)
    → o.jitter ≡ false
    → 0 < o.exponential_base
    → i ≤ j
    → calculate_delay i o random ≤ calculate_delay j o later
unfolding calculate_delay
calculate_delay_mono i j o random later off base h =
    let powers = pow-le-pow_right base h in
    let grown : o.base_delay * o.exponential_base ^ i ≤ o.base_delay * o.exponential_base ^ j =
      grind arith in
    rw (off) (omega arith)

attempt_time-le {ℓ} :
    {T : Type ℓ} (ms : ℕ) (a : Attempt T) → attempt_time (some (suc ms)) a ≤ suc ms
attempt_time-le ms a = omega arith

module _ {ℓ} {T : Type ℓ} (name : Text) (o : Options) (operation : ℕ → Attempt T) (random : ℕ → ℕ)
    (ms : ℕ) where
  -- `left` more retries cost at most this much time, in ten-thousandths of a millisecond.
  abbrev pub time_limit : ℕ → ℕ
  time_limit left = (left + 1) * (suc ms * 10000) + left * (11000 * o.max_delay)

  module _ (limited : o.timeout_ms ≡ some (suc ms)) (fair : (k : ℕ) → random k < 1000) where
    time_of-le : (k : ℕ) → time_of name o operation random k ≤ suc ms
    time_of-le k = rw limited (attempt_time-le ms (operation k))

    -- What one failed attempt and the sleep after it cost.
    round-le :
        (attempt left rest : ℕ)
        → rest ≤ time_limit left
        → time_of name o operation random attempt * 10000
            + calculate_delay attempt o (random attempt)
            + rest
          ≤ time_limit (suc left)
    round-le attempt left rest h = omega (
      arith,
      time_of-le attempt,
      calculate_delay-le_max attempt o (random attempt) (fair attempt),
    )

    last-le : (attempt left : ℕ) → time_of name o operation random attempt * 10000 ≤ time_limit left
    last-le attempt left =
        let one : suc ms * 10000 ≤ (left + 1) * (suc ms * 10000) = grind arith in
        omega (arith, time_of-le attempt)

    loop-elapsed :
        (left attempt : ℕ) (m : Metrics)
        → (loop name o operation random left attempt m).elapsed ≤ time_limit left
    unfolding loop
    loop-elapsed zero attempt m = elim (Result-cases (outcome name o operation random attempt)) [
      | inl (v, e) ↦ rw (e, loop) (last-le attempt 0)
      | inr (e', e) ↦ rw (e, loop) (last-le attempt 0)
    ]
    loop-elapsed (suc left) attempt m =
        elim (Result-cases (outcome name o operation random attempt)) [
          | inl (v, e) ↦ rw (e, loop) (last-le attempt (suc left))
          | inr (e', e) ↦ elim (Bool-cases (should_retry o e')) [
            | inl again ↦
                rw (e, again, loop)
                  (round-le attempt left _ (loop-elapsed left (suc attempt) (count_attempt name m)))
            | inr last ↦ rw (e, last, loop) (last-le attempt (suc left))
          ]
        ]

-- With a positive timeout and random numbers below one, a call is over within one timeout for each attempt and, for each retry, the
-- maximal delay and a tenth of it more; in ten-thousandths of a millisecond.
pub with_retry-elapsed {ℓ} :
    {T : Type ℓ} (operation : ℕ → Attempt T) (name : Text) (o : PartialOptions) (random : ℕ → ℕ)
    (m : Metrics) (ms : ℕ)
    → (merged o).timeout_ms ≡ some (suc ms)
    → ((k : ℕ) → random k < 1000)
    → (with_retry operation name o random m).elapsed
      ≤ ((merged o).max_retries + 1) * (suc ms * 10000)
        + (merged o).max_retries * (11000 * (merged o).max_delay)
unfolding with_retry
with_retry-elapsed operation name o random m ms limited fair =
    loop-elapsed name (merged o) operation random ms limited fair (merged o).max_retries 0 m

-- With random numbers below one, `retryRedisOperation` is over within 17.2 seconds, whatever its
-- operation does.
pub retry_redis_operation-elapsed {ℓ} :
    {T : Type ℓ} (operation : ℕ → Attempt T) (name : Text) (random : ℕ → ℕ) (m : Metrics)
    → ((k : ℕ) → random k < 1000)
    → (retry_redis_operation operation name random m).elapsed ≤ 17200 * 10000
unfolding retry_redis_operation
retry_redis_operation-elapsed operation name random m fair =
    with_retry-elapsed operation _ _ random m 4999 refl fair
