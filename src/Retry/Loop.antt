-- ===== src/Retry/Loop.antt =====
-- When the retry loop stops, with what, and what it counts.
use classwaves_backend.Prelude.{
  ℕ, zero, suc, ◌+◌, ◌≤◌, ◌<◌, ◌≡◌, ◌⊎◌, inl, inr, ◌∙◌, true, false, arith, refl, length,
  Bool-cases, Text, leb, leb→le, subst, sym, compare-cases, ◌↔◌,
}
use classwaves_backend.Failure.{Failure}
use classwaves_backend.Retry.{
  Options, PartialOptions, merged, Metrics, update_operation_count, Attempt, Result, ok, err, Run,
  should_retry, outcome, stop, loop, with_retry, after_sleep, count_attempt, count_success,
}

pub Result-cases {ℓ} :
    {T : Type ℓ} (r : Result T) → ((v : T) × (r ≡ ok v)) ⊎ ((e : Failure) × (r ≡ err e))
Result-cases (ok v) = inl (v, refl)
Result-cases (err e) = inr (e, refl)

module _ {ℓ} {T : Type ℓ} (name : Text) (o : Options) (operation : ℕ → Attempt T)
    (random : ℕ → ℕ) where
  -- Attempt `j` failed with an error that the options and the classification let through.
  abbrev pub IsRetried : ℕ → Type ℓ
  IsRetried j =
      (e : Failure) × (outcome name o operation random j ≡ err e) × (should_retry o e ≡ true)

  -- A result after which no further attempt is made.
  abbrev pub IsFinal : Result T → Type ℓ
  IsFinal r = ((v : T) × (r ≡ ok v)) ⊎ ((e : Failure) × (r ≡ err e) × (should_retry o e ≡ false))

  -- The run that starts at `attempt` with `left` retries in hand ends at the attempt `last`.
  pub record Stops (attempt left : ℕ) (m : Metrics) (r : Run T) : Type ℓ where
    pub last : ℕ
    pub from : attempt ≤ last
    pub within : last ≤ attempt + left
    pub retried : (j : ℕ) → attempt ≤ j → j < last → IsRetried j
    pub final : (last ≡ attempt + left) ⊎ IsFinal (outcome name o operation random last)
    pub result : r.result ≡ outcome name o operation random last
    pub calls : r.calls ≡ last + 1
    pub slept : attempt + length r.sleeps ≡ last
    pub counted : r.metrics.total_attempts + attempt ≡ m.total_attempts + last + 1

  update-total :
      (n : Text) (m : Metrics) → (update_operation_count n m).total_attempts ≡ m.total_attempts
  update-total n m = unfold update_operation_count in refl

  count_success-total :
      (k : ℕ) (m : Metrics) → (count_success k m).total_attempts ≡ m.total_attempts
  count_success-total zero m = refl
  count_success-total (suc k) m = refl

  Stops-here :
      (attempt left : ℕ) (m m' : Metrics) (r : Result T)
      → outcome name o operation random attempt ≡ r
      → m'.total_attempts ≡ m.total_attempts + 1
      → (attempt ≡ attempt + left) ⊎ IsFinal r
      → Stops attempt left m (stop name o operation random attempt r m')
  Stops-here attempt left m m' r same counts final = record {
    last = attempt;
    from = omega arith;
    within = omega arith;
    retried = λ j lo hi. absurd (omega arith);
    final = subst (λ x. (attempt ≡ attempt + left) ⊎ IsFinal x) (sym same) final;
    result = sym same;
    calls = refl;
    slept = omega arith;
    counted = omega arith;
  }

  Stops-later :
      (attempt left delay time : ℕ) (m m' : Metrics) (r : Run T)
      → m'.total_attempts ≡ m.total_attempts + 1
      → IsRetried attempt
      → Stops (suc attempt) left m' r
      → Stops attempt (suc left) m (after_sleep delay time r)
  Stops-later attempt left delay time m m' r counts here s = record {
    last = s.last;
    from = omega (arith, s.from);
    within = omega (arith, s.within);
    retried = λ j lo hi. elim (Bool-cases (leb j attempt)) [
      | inl old ↦
          subst IsRetried (let e : attempt ≡ j = omega (arith, leb→le j attempt old) in e) here
      | inr new ↦ s.retried j (ground arith) hi
    ];
    final = elim s.final [ inl e ↦ inl (omega (arith, e)) | inr f ↦ inr f ];
    result = s.result;
    calls = s.calls;
    slept = omega (arith, s.slept);
    counted = omega (arith, s.counted);
  }

  count_attempt-total : (m : Metrics) → (count_attempt name m).total_attempts ≡ m.total_attempts + 1
  count_attempt-total m = update-total name _

  success-total :
      (k : ℕ) (m : Metrics)
      → (count_success k (count_attempt name m)).total_attempts ≡ m.total_attempts + 1
  success-total k m = count_success-total k _ ∙ count_attempt-total m

  loop-Stops :
      (left attempt : ℕ) (m : Metrics)
      → Stops attempt left m (loop name o operation random left attempt m)
  unfolding loop
  loop-Stops zero attempt m = elim (Result-cases (outcome name o operation random attempt)) [
    | inl (v, e) ↦
        rw (e, loop)
          (Stops-here attempt zero m _ (ok v) e (success-total attempt m) (inl (omega arith)))
    | inr (e', e) ↦
        rw (e, loop)
          (Stops-here attempt zero m _ (err e') e (count_attempt-total m) (inl (omega arith)))
  ]
  loop-Stops (suc left) attempt m = elim (Result-cases (outcome name o operation random attempt)) [
    | inl (v, e) ↦
        rw (e, loop)
          (Stops-here attempt (suc left) m _ (ok v) e (success-total attempt m)
            (inr (inl (v, refl))))
    | inr (e', e) ↦ elim (Bool-cases (should_retry o e')) [
      | inl again ↦
          rw (e, again, loop)
            (Stops-later attempt left _ _ m (count_attempt name m) _ (count_attempt-total m)
              (e', e, again) (loop-Stops left (suc attempt) (count_attempt name m)))
      | inr last ↦
          rw (e, last, loop)
            (Stops-here attempt (suc left) m _ (err e') e (count_attempt-total m)
              (inr (inr (e', refl, last))))
    ]
  ]

  -- The last attempt of a run is the first that is not retried.
  last_unique :
      (left k : ℕ) (m : Metrics) (r : Run T) (v : T)
      → Stops 0 left m r
      → k ≤ left
      → ((j : ℕ) → j < k → IsRetried j)
      → outcome name o operation random k ≡ ok v
      → r.result ≡ ok v
  last_unique left k m r v s bound before here = elim (compare-cases s.last k) [
    | inl below ↦ elim s.final [
      | inl end ↦ absurd (omega arith)
      | inr (inl (w, e)) ↦ let (e', failed, _) = before s.last below in cc
      | inr (inr (e', failed, stops)) ↦
          let (e2, failed2, goes) = before s.last below in ground arith
    ]
    | inr (inl same) ↦ s.result ∙ rw same here
    | inr (inr above) ↦ let (e', failed, _) = s.retried k (omega arith) above in cc
  ]

module _ {ℓ} {T : Type ℓ} (operation : ℕ → Attempt T) (name : Text) (o : PartialOptions)
    (random : ℕ → ℕ) (m : Metrics) where
  -- The call ends at one attempt within `maxRetries`, with that attempt's outcome: the attempts
  -- before it all failed with errors that are retried, and it succeeded, failed with an error that
  -- is not retried, or was the last one. It sleeps once between attempts, and `totalAttempts`
  -- rises by the number of attempts.
  pub with_retry-Stops :
      Stops name
        (merged o)
        operation
        random
        0
        (merged o).max_retries
        m
        (with_retry operation name o random m)
  unfolding with_retry
  with_retry-Stops = loop-Stops name (merged o) operation random (merged o).max_retries 0 m

  -- The call returns a value exactly when some attempt within `maxRetries` gives that value and
  -- every attempt before it failed with an error that is retried.
  pub with_retry-ok_iff :
      (v : T)
      → ((with_retry operation name o random m).result ≡ ok v) ↔ (
          (k : ℕ) × (k ≤ (merged o).max_retries)
          × ((j : ℕ) → j < k → IsRetried name (merged o) operation random j)
          × (outcome name (merged o) operation random k ≡ ok v))
  with_retry-ok_iff v =
      let s = with_retry-Stops in
      (
        λ h. (
          s.last,
          omega (arith, s.within),
          (λ j below. s.retried j (omega arith) below),
          sym s.result ∙ h,
        ),
        λ (k, bound, before, here).
            last_unique name (merged o) operation random (merged o).max_retries k m _ v s bound
              before here,
      )
