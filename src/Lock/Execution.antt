-- ===== src/Lock/Execution.antt =====
-- `executeWithLock`, and the two walks over all locks. A computation is the stretches between the
-- ticks of the extension timer, each with what it does to the world, and its ending.
use classwaves_backend.Prelude.{
  ℕ, zero, suc, ◌+◌, Bool, true, false, List, [], ◌∷◌, Option, none, some, drop, length, Text,
}
use classwaves_backend.Redis.{Client}
use classwaves_backend.Lock.{
  PartialOptions, LockResult, acquired, locked, not_acquired, failed, State, with_world, call,
  or_number, prefix, acquire_computation_lock, release_computation_lock, extend_computation_lock,
  LockStatus, is_computation_locked,
}

pub data Ending {ℓ κ} (A : Type ℓ) (E : Type κ) : Type (ℓ ⊔ κ) where
  returns : A → Ending A E
  throws : E → Ending A E
  runs_too_long : Ending A E

-- `not_started` is the error of a lock that was not given, `acquire_error` that of the acquisition.
pub data Executed {ℓ κ} (A : Type ℓ) (E : Type κ) : Type (ℓ ⊔ κ) where
  value : A → Executed A E
  computation_error : E → Executed A E
  timeout_error acquire_error : Executed A E
  not_started : LockResult → Executed A E

abbrev pub executed {ℓ κ} : {A : Type ℓ} {E : Type κ} → Ending A E → Executed A E
executed (returns a) = value a
executed (throws e) = computation_error e
executed runs_too_long = timeout_error

-- The options that `executeWithLock` passes on: its own defaults, and no identifier.
abbrev pub lock_options : PartialOptions → PartialOptions
lock_options o = record {
  ttl = some (or_number o.ttl 300);
  retry_delay = some (or_number o.retry_delay 2000);
  retry_attempts = some (or_number o.retry_attempts 2);
  identifier = none;
}

pub record ActiveEntry : Type 0 where
  pub session_id : Text
  pub locked_by : Text
  pub expires_at : ℕ
  pub remaining_ttl : ℕ

module _ {S : Type 0} (c : Client S) where
  -- The timer extends the lock by three minutes and drops the answer.
  unfoldable pub run_stretches : Text → List (S → S) → State S → State S
  run_stretches session [] s = s
  run_stretches session (f ∷ fs) s =
      let s1 = with_world (f s.world) s in
      elim fs [
        | [] ↦ s1
        | g ∷ gs ↦ run_stretches session fs (extend_computation_lock c session 180 s1).1
      ]

  abbrev pub after_acquire {ℓ κ} :
      {A : Type ℓ} {E : Type κ}
      → Text
      → List (S → S)
      → Ending A E
      → LockResult × State S
      → Executed A E × State S
  after_acquire session stretches ending (acquired id expires, s) = (
    executed ending,
    (release_computation_lock c session (some id) (run_stretches session stretches s)).1,
  )
  after_acquire session stretches ending (locked who wait, s) = (not_started (locked who wait), s)
  after_acquire session stretches ending (not_acquired, s) = (not_started not_acquired, s)
  after_acquire session stretches ending (failed, s) = (acquire_error, s)

  unfoldable pub execute_with_lock {ℓ κ} :
      {A : Type ℓ} {E : Type κ}
      → Text
      → PartialOptions
      → Text
      → List (S → S)
      → Ending A E
      → State S
      → Executed A E × State S
  execute_with_lock session o generated stretches ending s =
      after_acquire session stretches ending
        (acquire_computation_lock c session (lock_options o) generated s)

  -- The loop of `cleanupExpiredLocks` with the number of locks so far; a call that throws ends it.
  abbrev clean_key : Text → Option ℕ × State S → ℕ → Bool × ℕ × State S
  clean_key key (none, s) n = (false, n, s)
  clean_key key (some (suc t), s) n = (true, n, s)
  clean_key key (some zero, s) n =
      let (reply, s1) = call (c.del key) s in
      elim reply [ none ↦ (false, n, s1) | some k ↦ (true, n + 1, s1) ]

  unfoldable pub clean_keys : List Text → ℕ → State S → ℕ × State S
  clean_keys [] n s = (n, s)
  clean_keys (key ∷ keys) n s =
      let next = clean_key key (call (c.ttl key) s) n in
      elim (next.0) [ true ↦ clean_keys keys next.1 next.2 | false ↦ (next.1, next.2) ]

  unfoldable pub cleanup_expired_locks : State S → ℕ × State S
  cleanup_expired_locks s =
      let (keys, s1) = call (c.scan prefix) s in
      elim keys [ none ↦ (0, s1) | some ks ↦ clean_keys ks 0 s1 ]

  -- A status is listed if it names a holder and a time.
  abbrev list_status : Text → Option LockStatus → List ActiveEntry → List ActiveEntry
  list_status session none rest = rest
  list_status session (some st) rest = elim st.locked_by [
    | [] ↦ rest
    | x ∷ who ↦ elim st.expires_at [
      | none ↦ rest
      | some t ↦
          record {
            session_id = session;
            locked_by = x ∷ who;
            expires_at = t;
            remaining_ttl = st.remaining_ttl;
          }
          ∷ rest
    ]
  ]

  unfoldable pub list_keys : List Text → State S → List ActiveEntry × State S
  list_keys [] s = ([], s)
  list_keys (key ∷ keys) s =
      let session = drop (length prefix) key in
      let (status, s1) = is_computation_locked c session s in
      let (rest, s2) = list_keys keys s1 in (list_status session status rest, s2)

  unfoldable pub get_active_locks : State S → List ActiveEntry × State S
  get_active_locks s =
      let (keys, s1) = call (c.scan prefix) s in
      elim keys [ none ↦ ([], s1) | some ks ↦ list_keys ks s1 ]
