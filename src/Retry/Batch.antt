-- ===== src/Retry/Batch.antt =====
-- `retryBatch`: operations in slices of `concurrency`, each slice awaited as a whole. The results
-- of a slice do not depend on one another, and the metrics add up in any order, so a slice runs
-- its operations from left to right.
use classwaves_backend.Prelude.{
  ℕ, zero, suc, ◌+◌, ◌-◌, ◌≤◌, ◌<◌, ◌≡◌, ◌∙◌, ap, sym, Bool, true, false, List, [], ◌∷◌, ◌++◌,
  Option, none, some, arith, refl, map, length, take, drop, ltb, if◌then◌else◌, Text, append_assoc,
  append-nil, Bool-cases, inl, inr, take-append-drop, ltb→lt, lt→ltb,
}
use Prim.Native.Nat.add
use native.Mathlib.Nat.{zero-add}
use mathlib.Core.List.{map-append}
use classwaves_backend.Failure.{Failure}
use classwaves_backend.Retry.Loop.{Result-cases}
use classwaves_backend.Retry.{
  PartialOptions, Options, merged, Metrics, Attempt, Result, ok, err, Run, with_retry, loop,
  outcome, should_retry, empty_metrics, count_attempt,
}

pub record Job {ℓ} (T : Type ℓ) : Type ℓ where
  pub operation : ℕ → Attempt T
  pub name : Text
  pub options : PartialOptions
  pub random : ℕ → ℕ

-- `{ success, result?, error?, name }`.
pub record Entry {ℓ} (T : Type ℓ) : Type ℓ where
  pub success : Bool
  pub result : Option T
  pub error : Option Failure
  pub name : Text

module _ {ℓ} {T : Type ℓ} where
  abbrev pub entry_of : Text → Result T → Entry T
  entry_of name (ok v) = record { success = true; result = some v; error = none; name = name }
  entry_of name (err e) = record { success = false; result = none; error = some e; name = name }

  abbrev pub run_job : Job T → Metrics → Run T
  run_job j m = with_retry j.operation j.name j.options j.random m

  pub run_slice : List (Job T) → Metrics → List (Entry T) × Metrics
  run_slice [] m = ([], m)
  run_slice (j ∷ jobs) m =
      let r = run_job j m in
      let (entries, m') = run_slice jobs r.metrics in (entry_of j.name r.result ∷ entries, m')

  -- The `for` loop from `i`; `none` where the fuel runs out before the loop ends.
  batch_loop :
      ℕ → ℕ → ℕ → List (Job T) → List (Entry T) → Metrics → Option (List (Entry T) × Metrics)
  batch_loop zero concurrency i jobs results m = none
  batch_loop (suc fuel) concurrency i jobs results m =
      let (entries, m') = run_slice (take concurrency (drop i jobs)) m in
      let rest = batch_loop fuel concurrency (i + concurrency) jobs (results ++ entries) m' in
      if ltb i (length jobs) then rest else some (results, m)

  unfoldable pub retry_batch : ℕ → List (Job T) → ℕ → Metrics → Option (List (Entry T) × Metrics)
  unfolding batch_loop
  retry_batch fuel jobs concurrency m = batch_loop fuel concurrency 0 jobs [] m

  -- What a job's entry is on its own.
  abbrev pub entry : Metrics → Job T → Entry T
  entry m j = entry_of j.name (run_job j m).result

module _ {ℓ} {T : Type ℓ} (name : Text) (o : Options) (operation : ℕ → Attempt T)
    (random : ℕ → ℕ) where
  loop-result_any :
      (left attempt : ℕ) (m m' : Metrics)
      → (loop name o operation random left attempt m).result
        ≡ (loop name o operation random left attempt m').result
  unfolding loop
  loop-result_any zero attempt m m' =
      elim (Result-cases (outcome name o operation random attempt)) [
        | inl (v, e) ↦ rw (e, loop)
        | inr (e', e) ↦ rw (e, loop)
      ]
  loop-result_any (suc left) attempt m m' =
      elim (Result-cases (outcome name o operation random attempt)) [
        | inl (v, e) ↦ rw (e, loop)
        | inr (e', e) ↦ elim (Bool-cases (should_retry o e')) [
          | inl again ↦
              rw (e, again, loop)
                (loop-result_any left (suc attempt) (count_attempt name m) (count_attempt name m'))
          | inr last ↦ rw (e, last, loop)
        ]
      ]

module _ {ℓ} {T : Type ℓ} where
  entry_any : (j : Job T) (m m' : Metrics) → entry m j ≡ entry m' j
  unfolding with_retry
  entry_any j m m' = ap (entry_of j.name) (
      loop-result_any j.name (merged j.options) j.operation j.random (merged j.options).max_retries
        0 m m')

  run_slice-entries :
      (jobs : List (Job T)) (m m' : Metrics) → (run_slice jobs m').0 ≡ map (entry m) jobs
  unfolding run_slice
  run_slice-entries [] m m' = refl
  run_slice-entries (j ∷ jobs) m m' =
      rw (entry_any j m' m, run_slice-entries jobs m (run_job j m').metrics)

  drop-add : (i c : ℕ) (xs : List (Job T)) → drop (i + c) xs ≡ drop c (drop i xs)
  drop-add zero c xs = rw zero-add
  drop-add (suc i) zero [] = rw add.suc
  drop-add (suc i) (suc c) [] = rw add.suc
  drop-add (suc i) c (x ∷ xs) = rw add.suc (drop-add i c xs)

  drop_all : (i : ℕ) (xs : List (Job T)) → length xs ≤ i → drop i xs ≡ []
  drop_all zero [] h = refl
  drop_all zero (x ∷ xs) h = absurd (omega arith)
  drop_all (suc i) [] h = refl
  drop_all (suc i) (x ∷ xs) h = drop_all i xs (omega arith)

  drop-split :
      (i c : ℕ) (jobs : List (Job T)) → take c (drop i jobs) ++ drop (i + c) jobs ≡ drop i jobs
  drop-split i c jobs = rw (drop-add i c jobs) (take-append-drop c (drop i jobs))

  regroup :
      (i c : ℕ) (jobs : List (Job T)) (results : List (Entry T)) (m m0 : Metrics)
      → (results ++ (run_slice (take c (drop i jobs)) m).0) ++ map (entry m0) (drop (i + c) jobs)
        ≡ results ++ map (entry m0) (drop i jobs)
  regroup i c jobs results m m0 =
      append_assoc results _ _
      ∙ ap (λ l. results ++ l)
          (rw (run_slice-entries (take c (drop i jobs)) m0 m) (
            sym (map-append (entry m0) (take c (drop i jobs)) (drop (i + c) jobs))
            ∙ ap (map (entry m0)) (drop-split i c jobs)))

  batch_loop_total :
      (fuel c i : ℕ) (jobs : List (Job T)) (results : List (Entry T)) (m m0 : Metrics)
      → 0 < c
      → length jobs - i < fuel
      → (m' : Metrics) × (batch_loop fuel c i jobs results m
          ≡ some (results ++ map (entry m0) (drop i jobs), m'))
  unfolding batch_loop
  batch_loop_total zero c i jobs results m m0 pos enough = absurd (omega arith)
  batch_loop_total (suc fuel) c i jobs results m m0 pos enough =
      elim (Bool-cases (ltb i (length jobs))) [
        | inl more ↦
            let slice = run_slice (take c (drop i jobs)) m in
            let (m', e) =
              batch_loop_total fuel c (i + c) jobs (results ++ slice.0) slice.1 m0 pos
                (omega (arith, ltb→lt i (length jobs) more)) in
            (m', rw more (e ∙ ap (λ l. some (l, m')) (regroup i c jobs results m m0)))
        | inr done ↦ (m, rw (done, drop_all i jobs (ground arith), append-nil results))
      ]

  -- With a positive concurrency and fuel for more rounds than there are jobs, the batch ends and
  -- gives one entry for each job, in the order of the jobs, each as if the job ran alone.
  pub retry_batch_total :
      (fuel : ℕ) (jobs : List (Job T)) (concurrency : ℕ) (m : Metrics)
      → 0 < concurrency
      → length jobs < fuel
      → (m' : Metrics) × (retry_batch fuel jobs concurrency m
          ≡ some (map (entry empty_metrics) jobs, m'))
  unfolding retry_batch
  retry_batch_total fuel jobs concurrency m pos enough =
      batch_loop_total fuel concurrency 0 jobs [] m empty_metrics pos (omega arith)

  batch_loop_stuck :
      (fuel : ℕ) (job : Job T) (jobs : List (Job T)) (results : List (Entry T)) (m : Metrics)
      → batch_loop fuel 0 0 (job ∷ jobs) results m ≡ none
  unfolding batch_loop run_slice
  batch_loop_stuck zero job jobs results m = refl
  batch_loop_stuck (suc fuel) job jobs results m =
      rw (lt→ltb 0 (length (job ∷ jobs)) (omega arith))
        (batch_loop_stuck fuel job jobs (results ++ []) m)

  -- With a concurrency of 0 a batch that has a job never ends.
  pub retry_batch_stuck :
      (fuel : ℕ) (job : Job T) (jobs : List (Job T)) (m : Metrics)
      → retry_batch fuel (job ∷ jobs) 0 m ≡ none
  unfolding retry_batch
  retry_batch_stuck fuel job jobs m = batch_loop_stuck fuel job jobs [] m
