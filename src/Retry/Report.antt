-- ===== src/Retry/Report.antt =====
-- `getMetrics` and `getHealthStatus`. Rates are in hundredths of a percent, rounded half up, which
-- is what `Number(x.toFixed(2))` gives but for the ties that a binary fraction cannot hold.
use classwaves_backend.Prelude.{
  ℕ, zero, suc, ◌+◌, ◌*◌, ◌/◌, ◌≤◌, ◌<◌, ◌≡◌, List, [], ◌∷◌, ◌++◌, map, arith, refl, filter, take,
  leb, ltb, ◌==◌, if◌then◌else◌, Text, text_eq, Bool-cases, inl, inr,
}
use native.Mathlib.Nat.{div-lt_iff_lt-mul}
use mathlib.Core.List.{Perm}
use mathlib.Core.List.Perm
use classwaves_backend.Prelude.Dict
use classwaves_backend.Prelude.Dict.{Dict}
use classwaves_backend.Failure.{or_number}
use classwaves_backend.Retry.{
  Options, PartialOptions, merged, Metrics, Attempt, should_retry, outcome, loop, with_retry,
  update_operation_count, count_attempt, count_success,
}
use classwaves_backend.Retry.Loop.{Result-cases}

abbrev pub percent : ℕ → ℕ → ℕ
percent n d = (n * 20000 + d) / (2 * d)

-- `sort((a, b) => b.count - a.count)`, which is stable: an insertion sort from the right.
pub insert_by_count : Text × ℕ → Dict ℕ → Dict ℕ
insert_by_count x [] = x ∷ []
insert_by_count x (y ∷ ys) = if leb y.1 x.1 then x ∷ y ∷ ys else y ∷ insert_by_count x ys

unfoldable pub sort_by_count : Dict ℕ → Dict ℕ
unfolding insert_by_count
sort_by_count [] = []
sort_by_count (x ∷ xs) = insert_by_count x (sort_by_count xs)

pub record Report : Type 0 where
  pub total_attempts : ℕ
  pub successful_retries : ℕ
  pub failed_retries : ℕ
  pub success_rate : ℕ
  pub retry_rate : ℕ
  pub operation_breakdown : Dict ℕ

unfoldable pub get_metrics : Metrics → Report
get_metrics m = record {
  total_attempts = m.total_attempts;
  successful_retries = m.successful_retries;
  failed_retries = m.failed_retries;
  success_rate = if ltb 0 total then percent m.successful_retries total else 10000;
  retry_rate = if ltb 0 m.total_attempts then percent total m.total_attempts else 0;
  operation_breakdown = sort_by_count m.operation_counts;
}
  where
    total : ℕ
    total = m.successful_retries + m.failed_retries

pub data HealthStatus : Type 0 where
  healthy degraded unhealthy : HealthStatus

pub data Recommendation : Type 0 where
  high_retry_rate low_success_rate no_operations : Recommendation
  high_retry_operations : List Text → Recommendation

pub record Health : Type 0 where
  pub status : HealthStatus
  pub metrics : Report
  pub recommendations : List Recommendation

abbrev top_failing : Dict ℕ → List Text
top_failing ops = map (λ op. op.0) (take 3 (filter (λ op. ltb 10 op.1) ops))

abbrev recommend_operations : List Text → List Recommendation
recommend_operations [] = []
recommend_operations (n ∷ names) = high_retry_operations (n ∷ names) ∷ []

unfoldable pub get_health_status : Metrics → Health
get_health_status m = record {
  status =
      if ltb r.success_rate 8000
      then unhealthy
      else if ltb 5000 r.retry_rate
      then degraded
      else healthy;
  metrics = r;
  recommendations =
      (if ltb 5000 r.retry_rate then high_retry_rate ∷ [] else [])
      ++ ((if ltb r.success_rate 8000 then low_success_rate ∷ [] else [])
          ++ ((if r.total_attempts == 0 then no_operations ∷ [] else [])
              ++ recommend_operations (top_failing r.operation_breakdown)));
}
  where
    r : Report
    r = get_metrics m

-- Counts fall along the list.
abbrev pub IsFalling : ℕ → Dict ℕ → Type 0
IsFalling top [] = Unit
IsFalling top ((k, n) ∷ ops) = (n ≤ top) × IsFalling n ops

abbrev pub IsSortedByCount : Dict ℕ → Type 0
IsSortedByCount [] = Unit
IsSortedByCount ((k, n) ∷ ops) = IsFalling n ops

insert-IsFalling :
    (top : ℕ) (x : Text × ℕ) (ops : Dict ℕ)
    → x.1 ≤ top
    → IsFalling top ops
    → IsFalling top (insert_by_count x ops)
unfolding insert_by_count
insert-IsFalling top x [] h f = (h, tt)
insert-IsFalling top x ((k, n) ∷ ops) h f = ground (arith, insert-IsFalling n x ops)

insert-IsSortedByCount :
    (x : Text × ℕ) (ops : Dict ℕ) → IsSortedByCount ops → IsSortedByCount (insert_by_count x ops)
unfolding insert_by_count
insert-IsSortedByCount x [] s = tt
insert-IsSortedByCount x ((k, n) ∷ ops) s = ground (arith, insert-IsFalling n x ops)

insert-perm : (x : Text × ℕ) (ops : Dict ℕ) → Perm (insert_by_count x ops) (x ∷ ops)
unfolding insert_by_count
insert-perm x [] = Perm.rfl
insert-perm x (y ∷ ops) = elim (Bool-cases (leb y.1 x.1)) [
  | inl here ↦ rw here Perm.rfl
  | inr later ↦ rw later (Perm.trans (Perm.cons y (insert-perm x ops)) (Perm.swap x y ops))
]

sort-IsSortedByCount : (ops : Dict ℕ) → IsSortedByCount (sort_by_count ops)
unfolding sort_by_count
sort-IsSortedByCount [] = tt
sort-IsSortedByCount (x ∷ ops) =
    insert-IsSortedByCount x (sort_by_count ops) (sort-IsSortedByCount ops)

sort-perm : (ops : Dict ℕ) → Perm (sort_by_count ops) ops
unfolding sort_by_count
sort-perm [] = Perm.rfl
sort-perm (x ∷ ops) = Perm.trans (insert-perm x (sort_by_count ops)) (Perm.cons x (sort-perm ops))

-- The breakdown lists every operation with its count, the counts falling.
pub get_metrics-breakdown :
    (m : Metrics)
    → IsSortedByCount (get_metrics m).operation_breakdown
      × Perm (get_metrics m).operation_breakdown m.operation_counts
unfolding get_metrics
get_metrics-breakdown m = (sort-IsSortedByCount m.operation_counts, sort-perm m.operation_counts)

abbrev pub total_count : Dict ℕ → ℕ
total_count [] = 0
total_count ((k, n) ∷ ops) = n + total_count ops

-- The counts of the operations add up to the attempts, and the retries are among these.
pub record IsConsistent (m : Metrics) : Type 0 where
  pub counts : total_count m.operation_counts ≡ m.total_attempts
  pub retries : m.successful_retries + m.failed_retries ≤ m.total_attempts

set-total_count :
    (k : Text) (v : ℕ) (ops : Dict ℕ)
    → total_count (Dict.set k v ops) + or_number (Dict.get k ops) 0 ≡ total_count ops + v
unfolding Dict.set Dict.get
set-total_count k v [] = omega arith
set-total_count k v ((j, n) ∷ ops) = elim (Bool-cases (text_eq j k)) [
  | inl hit ↦ rw hit (ground arith)
  | inr miss ↦ rw miss (omega (arith, set-total_count k v ops))
]

percent-le : (n d : ℕ) → 0 < d → n ≤ d → percent n d ≤ 10000
percent-le n d pos h =
    let bound : percent n d < 10001 =
      (div-lt_iff_lt-mul {k = 2 * d} {x = n * 20000 + d} {y = 10001} (omega arith)).1
        (omega arith) in
    omega (arith, bound)

module _ (name : Text) (m : Metrics) (v : IsConsistent m) where
  count_attempt-counts :
      total_count (count_attempt name m).operation_counts ≡ (count_attempt name m).total_attempts
  unfolding update_operation_count
  count_attempt-counts = omega (
    arith,
    set-total_count name (or_number (Dict.get name m.operation_counts) 0 + 1) m.operation_counts,
  )

  count_attempt-fields :
      ((count_attempt name m).total_attempts ≡ m.total_attempts + 1)
      × ((count_attempt name m).successful_retries ≡ m.successful_retries)
      × ((count_attempt name m).failed_retries ≡ m.failed_retries)
  unfolding update_operation_count
  count_attempt-fields = (refl, refl, refl)

  count_attempt-IsConsistent : IsConsistent (count_attempt name m)
  count_attempt-IsConsistent =
      let (a, s, f) = count_attempt-fields in
      record { counts = count_attempt-counts; retries = omega (arith, a, s, f) }

  count_success-IsConsistent : (k : ℕ) → IsConsistent (count_success k (count_attempt name m))
  count_success-IsConsistent zero = count_attempt-IsConsistent
  count_success-IsConsistent (suc k) =
      let (a, s, f) = count_attempt-fields in
      record { counts = count_attempt-counts; retries = omega (arith, a, s, f) }

  count_failure-IsConsistent :
      IsConsistent (record (count_attempt name m) { failed_retries = m.failed_retries + 1 })
  count_failure-IsConsistent =
      let (a, s, f) = count_attempt-fields in
      record { counts = count_attempt-counts; retries = omega (arith, a, s, f) }

module _ {ℓ} {T : Type ℓ} (name : Text) (o : Options) (operation : ℕ → Attempt T)
    (random : ℕ → ℕ) where
  loop-IsConsistent :
      (left attempt : ℕ) (m : Metrics)
      → IsConsistent m
      → IsConsistent (loop name o operation random left attempt m).metrics
  unfolding loop
  loop-IsConsistent zero attempt m v =
      elim (Result-cases (outcome name o operation random attempt)) [
        | inl (x, e) ↦ rw (e, loop) (count_success-IsConsistent name m v attempt)
        | inr (e', e) ↦ rw (e, loop) (count_failure-IsConsistent name m v)
      ]
  loop-IsConsistent (suc left) attempt m v =
      elim (Result-cases (outcome name o operation random attempt)) [
        | inl (x, e) ↦ rw (e, loop) (count_success-IsConsistent name m v attempt)
        | inr (e', e) ↦ elim (Bool-cases (should_retry o e')) [
          | inl again ↦
              rw (e, again, loop)
                (loop-IsConsistent left (suc attempt) (count_attempt name m)
                  (count_attempt-IsConsistent name m v))
          | inr last ↦ rw (e, last, loop) (count_attempt-IsConsistent name m v)
        ]
      ]

-- A call keeps counters that agree in agreement: the operations' counts add up to the attempts, and
-- the successful and failed retries together are at most as many.
pub with_retry-IsConsistent {ℓ} :
    {T : Type ℓ} (operation : ℕ → Attempt T) (name : Text) (o : PartialOptions) (random : ℕ → ℕ)
    (m : Metrics)
    → IsConsistent m
    → IsConsistent (with_retry operation name o random m).metrics
unfolding with_retry
with_retry-IsConsistent operation name o random m v =
    loop-IsConsistent name (merged o) operation random (merged o).max_retries 0 m v

-- With counters in agreement, both rates of the report are percentages: at most 100.00, in
-- hundredths.
pub get_metrics-rates :
    (m : Metrics)
    → IsConsistent m
    → ((get_metrics m).success_rate ≤ 10000) × ((get_metrics m).retry_rate ≤ 10000)
unfolding get_metrics
get_metrics-rates m v = ground (
  arith,
  percent-le m.successful_retries (m.successful_retries + m.failed_retries),
  percent-le (m.successful_retries + m.failed_retries) m.total_attempts,
)
