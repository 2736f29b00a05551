-- ===== src/Lock/Exclusion.antt =====
-- At most one holder: what an acquisition gives, and that it fails while the lock is held.
use classwaves_backend.Prelude.{
  ℕ, zero, suc, ◌≡◌, ◌≢◌, ◌⊎◌, ◌∙◌, ap, Bool, true, false, List, Option, none, some, arith, refl,
  ◌==◌, Text, inl, inr, Option-cases,
}
use classwaves_backend.Redis.{Client, Store, Stored, lock, garbage}
use classwaves_backend.Lock.{
  LockOptions, PartialOptions, LockResult, acquired, locked, not_acquired, failed, State, lock_key,
  config_of, attempt_once, attempts, acquire_computation_lock, after_get, after_ttl, on_error,
}
use classwaves_backend.Lock.Execution.{
  Ending, Executed, not_started, acquire_error, value, timeout_error, computation_error,
  after_acquire, execute_with_lock, lock_options,
}

abbrev pub is_acquired : LockResult → Bool
is_acquired (acquired id t) = true
is_acquired (locked who t) = false
is_acquired not_acquired = false
is_acquired failed = false

abbrev gives_lock : Option LockResult → Bool
gives_lock none = false
gives_lock (some r) = is_acquired r

Reply-cases : (r : Option Bool) → r ≢ some true → (r ≡ none) ⊎ (r ≡ some false)
Reply-cases none h = inl refl
Reply-cases (some true) h = absurd (h refl)
Reply-cases (some false) h = inr refl

module _ {S : Type 0} (c : Client S) (session : Text) (st : Store c (lock_key session)) where
  module _ (o : LockOptions) (w : Stored)
      (waits : (ms : ℕ) (s : S) → st.view s ≡ some w → st.view (c.sleep ms s) ≡ some w) where
    -- The lock is still held, and was not given.
    abbrev Held : Option LockResult × State S → Type 0
    Held r = (gives_lock r.0 ≡ false) × (st.view r.1.world ≡ some w)

    on_error-Held :
        (last : Bool) (s : State S) → st.view s.world ≡ some w → Held (on_error c session o last s)
    on_error-Held true s h = (refl, h)
    on_error-Held false s h = (refl, waits o.retry_delay s.world h)

    after_ttl-Held :
        (last : Bool) (who : Text) (t : Option ℕ) (s : State S)
        → st.view s.world ≡ some w
        → Held (after_ttl c session o last who (t, s))
    after_ttl-Held last who none s h = (refl, h)
    after_ttl-Held true who (some t) s h = (refl, h)
    after_ttl-Held false who (some t) s h = (refl, waits o.retry_delay s.world h)

    after_get-Held :
        (last : Bool) (v : Option (Option Stored)) (s : State S)
        → st.view s.world ≡ some w
        → Held (after_get c session o last (v, s))
    after_get-Held last none s h = on_error-Held last s h
    after_get-Held last (some none) s h = (refl, h)
    after_get-Held last (some (some (garbage g))) s h = (refl, h)
    after_get-Held last (some (some (lock who))) s h =
        after_ttl-Held last who _ _ (st.ttl_keeps s.world ∙ h)

    attempt_once-Held :
        (last : Bool) (s : State S)
        → st.view s.world ≡ some w
        → Held (attempt_once c session o last s)
    unfolding attempt_once
    attempt_once-Held last s h =
        let (refused, kept) = st.set_held (lock o.identifier) w o.ttl s.world h in
        elim (Reply-cases (c.set_nx (lock_key session) (lock o.identifier) o.ttl s.world).0
          refused) [
            | inl e ↦ rw e (on_error-Held last _ kept)
            | inr e ↦ rw e (after_get-Held last _ _ (st.get_keeps _ ∙ kept))
          ]

    attempts-Held :
        (left : ℕ) (s : State S)
        → st.view s.world ≡ some w
        → (is_acquired (attempts c session o left s).0 ≡ false)
          × (st.view (attempts c session o left s).1.world ≡ some w)
    unfolding attempts
    attempts-Held zero s h = (refl, h)
    attempts-Held (suc left) s h =
        let (refused, kept) = attempt_once-Held (left == 0) s h in
        elim (Option-cases (attempt_once c session o (left == 0) s).0) [
          | inl e ↦ rw (e, attempts) (attempts-Held left _ kept)
          | inr (r, e) ↦ rw (e, attempts) (rw e at refused, kept)
        ]

-- The computation was started.
abbrev pub is_started {ℓ κ} : {A : Type ℓ} {E : Type κ} → Executed A E → Bool
is_started (value a) = true
is_started (computation_error e) = true
is_started timeout_error = true
is_started acquire_error = false
is_started (not_started r) = false

after_acquire-refused {ℓ κ} :
    {S : Type 0} {A : Type ℓ} {E : Type κ} (c : Client S) (session : Text)
    (stretches : List (S → S)) (ending : Ending A E) (r : LockResult) (s : State S)
    → is_acquired r ≡ false
    → (is_started (after_acquire c session stretches ending (r, s)).0 ≡ false)
      × ((after_acquire c session stretches ending (r, s)).1 ≡ s)
after_acquire-refused c session stretches ending (acquired id t) s h = absurd (ground arith)
after_acquire-refused c session stretches ending (locked who t) s h = (refl, refl)
after_acquire-refused c session stretches ending not_acquired s h = (refl, refl)
after_acquire-refused c session stretches ending failed s h = (refl, refl)

-- While a lock is in the store, and stays there through every sleep, the computation of another
-- call is not started, whatever it is, and the lock stays as it is.
pub execute_with_lock-held {ℓ κ} :
    {S : Type 0} {A : Type ℓ} {E : Type κ} (c : Client S) (session : Text)
    (st : Store c (lock_key session)) (w : Stored)
    → ((ms : ℕ) (s : S) → st.view s ≡ some w → st.view (c.sleep ms s) ≡ some w)
    → (o : PartialOptions) (generated : Text) (stretches : List (S → S)) (ending : Ending A E)
      (s : State S)
    → st.view s.world ≡ some w
    → (is_started (execute_with_lock c session o generated stretches ending s).0 ≡ false)
      × (st.view (execute_with_lock c session o generated stretches ending s).1.world ≡ some w)
unfolding execute_with_lock acquire_computation_lock
execute_with_lock-held c session st w waits o generated stretches ending s h =
    let config = config_of (lock_options o) generated in
    let (refused, kept) = attempts-Held c session st config w waits config.retry_attempts s h in
    let r = attempts c session config config.retry_attempts s in
    let (idle, same) = after_acquire-refused c session stretches ending r.0 r.1 refused in
    (idle, ap (λ x. st.view x.world) same ∙ kept)
