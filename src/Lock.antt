-- ===== src/Lock.antt =====
-- src/services/analytics-computation-lock.service.ts: the distributed lock on the computation of a
-- session. The client of Redis is a parameter. Of the JSON value of a lock only the identifier is
-- kept, which is all that the service reads back.
pub mod Ownership
pub mod Exclusion
pub mod Acquisition
pub mod Execution
mod Examples
use classwaves_backend.Prelude.{
  ℕ, zero, suc, ◌+◌, ◌*◌, Bool, true, false, List, [], ◌∷◌, ◌++◌, Option, none, some, drop, length,
  ltb, ◌==◌, if◌then◌else◌, Text, text_eq, codes,
}
use classwaves_backend.Prelude.Dict
use classwaves_backend.Prelude.Dict.{Dict}
use classwaves_backend.Redis.{Client, Stored, lock, garbage}

pub record LockOptions : Type 0 where
  pub ttl : ℕ
  pub retry_delay : ℕ
  pub retry_attempts : ℕ
  pub identifier : Text

pub record PartialOptions : Type 0 where
  pub ttl : Option ℕ
  pub retry_delay : Option ℕ
  pub retry_attempts : Option ℕ
  pub identifier : Option Text

pub record ActiveLock : Type 0 where
  pub lock_id : Text
  pub expires_at : ℕ

-- `{ acquired: true, ... }`, `{ acquired: false, lockedBy, retryAfter }`, `{ acquired: false }`,
-- and the error after the last attempt.
pub data LockResult : Type 0 where
  acquired : Text → ℕ → LockResult
  locked : Text → ℕ → LockResult
  not_acquired failed : LockResult

-- `value || fallback`.
abbrev pub or_number : Option ℕ → ℕ → ℕ
or_number none d = d
or_number (some zero) d = d
or_number (some (suc n)) d = suc n

abbrev pub or_text : Option Text → Text → Text
or_text none d = d
or_text (some []) d = d
or_text (some (c ∷ s)) d = c ∷ s

-- `generated` is the identifier from the process, the clock and a random number.
abbrev pub config_of : PartialOptions → Text → LockOptions
config_of o generated = record {
  ttl = or_number o.ttl 300;
  retry_delay = or_number o.retry_delay 1000;
  retry_attempts = or_number o.retry_attempts 3;
  identifier = or_text o.identifier generated;
}

abbrev pub prefix : Text
prefix = codes "analytics_computation_lock:"

unfoldable pub lock_key : Text → Text
lock_key session = prefix ++ session

-- `${sessionId}:${identifier}`.
unfoldable pub lock_id_of : Text → Text → Text
lock_id_of session identifier = session ++ b':' ∷ identifier

-- `text.split(':')[1]`, from the first colon on; `none` is `undefined`.
pub up_to_colon : Text → Text
up_to_colon [] = []
up_to_colon (c ∷ s) = let rest = up_to_colon s in if c == b':' then [] else c ∷ rest

unfoldable pub second_part : Text → Option Text
unfolding up_to_colon
second_part [] = none
second_part (c ∷ s) = let rest = second_part s in if c == b':' then some (up_to_colon s) else rest

-- `a !== b` for a text and one that may be `undefined`, negated.
abbrev pub is_owner : Text → Option Text → Bool
is_owner who none = false
is_owner who (some expected) = text_eq who expected

-- The service's own map of locks, and the world.
pub record State (S : Type 0) : Type 0 where
  pub active_locks : Dict ActiveLock
  pub world : S

abbrev pub with_world : {S : Type 0} → S → State S → State S
with_world w s = record s { world = w }

-- A call of the client.
abbrev pub call : {S A : Type 0} → (S → A × S) → State S → A × State S
call f s = let (a, w) = f s.world in (a, with_world w s)

-- `{ locked, lockedBy, expiresAt, remainingTtl }`; `none` is `{ locked: false }`.
pub record LockStatus : Type 0 where
  pub locked_by : Text
  pub expires_at : Option ℕ
  pub remaining_ttl : ℕ

module _ {S : Type 0} (c : Client S) where
  module _ (session : Text) (o : LockOptions) where
    -- The outer `catch`; `none` goes on with the next attempt.
    abbrev pub on_error : Bool → State S → Option LockResult × State S
    on_error last s =
        if last then (some failed, s) else (none, with_world (c.sleep o.retry_delay s.world) s)

    abbrev pub on_acquired : State S → Option LockResult × State S
    on_acquired s =
        let expires = c.now s.world + o.ttl * 1000 in
        let id = lock_id_of session o.identifier in
        let held : ActiveLock = record { lock_id = id; expires_at = expires } in
        (
          some (acquired id expires),
          record s { active_locks = Dict.set session held s.active_locks },
        )

    -- Once the time left of the lock is known; a call that throws is taken for a text that does not
    -- parse.
    abbrev pub after_ttl : Bool → Text → Option ℕ × State S → Option LockResult × State S
    after_ttl last who (none, s) = (none, s)
    after_ttl last who (some t, s) =
        if last
        then (some (locked who (if ltb 0 t then t * 1000 else o.retry_delay)), s)
        else (none, with_world (c.sleep o.retry_delay s.world) s)

    abbrev pub after_get : Bool → Option (Option Stored) × State S → Option LockResult × State S
    after_get last (none, s) = on_error last s
    after_get last (some none, s) = (none, s)
    after_get last (some (some (garbage g)), s) = (none, s)
    after_get last (some (some (lock who)), s) =
        after_ttl last who (call (c.ttl (lock_key session)) s)

    abbrev pub after_set : Bool → Option Bool × State S → Option LockResult × State S
    after_set last (none, s) = on_error last s
    after_set last (some true, s) = on_acquired s
    after_set last (some false, s) = after_get last (call (c.get (lock_key session)) s)

    -- The body of the `for` loop; `last` is `attempt === retryAttempts`.
    unfoldable pub attempt_once : Bool → State S → Option LockResult × State S
    attempt_once last s =
        after_set last (call (c.set_nx (lock_key session) (lock o.identifier) o.ttl) s)

    -- The attempts that are left.
    unfoldable pub attempts : ℕ → State S → LockResult × State S
    attempts zero s = (not_acquired, s)
    attempts (suc left) s =
        let next = attempt_once (left == 0) s in
        elim (next.0) [ none ↦ attempts left next.1 | some r ↦ (r, next.1) ]

  unfoldable pub acquire_computation_lock :
      Text → PartialOptions → Text → State S → LockResult × State S
  acquire_computation_lock session o generated s =
      let config = config_of o generated in attempts session config config.retry_attempts s

  -- `redisService.del`, and what is made of its reply.
  abbrev pub after_del : Text → Option ℕ × State S → Bool × State S
  after_del session (none, s) = (false, s)
  after_del session (some zero, s) = (false, s)
  after_del session (some (suc n), s) =
      (true, record s { active_locks = Dict.delete session s.active_locks })

  abbrev pub remove_lock : Text → State S → Bool × State S
  remove_lock session s = after_del session (call (c.del (lock_key session)) s)

  abbrev pub after_check : Text → Text → Option (Option Stored) × State S → Bool × State S
  after_check session id (none, s) = (false, s)
  after_check session id (some none, s) = remove_lock session s
  after_check session id (some (some (garbage g)), s) = (false, s)
  after_check session id (some (some (lock who)), s) =
      if is_owner who (second_part id) then remove_lock session s else (false, s)

  -- An empty lock id is falsy: no check.
  unfoldable pub release_computation_lock : Text → Option Text → State S → Bool × State S
  release_computation_lock session none s = remove_lock session s
  release_computation_lock session (some []) s = remove_lock session s
  release_computation_lock session (some (x ∷ id)) s =
      after_check session (x ∷ id) (call (c.get (lock_key session)) s)

  abbrev pub extend_active : Text → ℕ → State S → Option ActiveLock → State S
  extend_active session ttl s none = s
  extend_active session ttl s (some held) =
      let held' = record held { expires_at = c.now s.world + ttl * 1000 } in
      record s { active_locks = Dict.set session held' s.active_locks }

  abbrev pub after_expire : Text → ℕ → Option ℕ × State S → Bool × State S
  after_expire session ttl (none, s) = (false, s)
  after_expire session ttl (some n, s) =
      if n == 1
      then (true, extend_active session ttl s (Dict.get session s.active_locks))
      else (false, s)

  abbrev pub after_current : Text → ℕ → Option ℕ × State S → Bool × State S
  after_current session more (none, s) = (false, s)
  after_current session more (some zero, s) = (false, s)
  after_current session more (some (suc n), s) =
      after_expire session (suc n + more) (call (c.expire (lock_key session) (suc n + more)) s)

  unfoldable pub extend_computation_lock : Text → ℕ → State S → Bool × State S
  extend_computation_lock session more s =
      after_current session more (call (c.ttl (lock_key session)) s)

  abbrev pub status_of : Text → Option ℕ × State S → Option LockStatus × State S
  status_of who (none, s) = (none, s)
  status_of who (some t, s) = (
    some (record {
      locked_by = who;
      expires_at = if ltb 0 t then some (c.now s.world + t * 1000) else none;
      remaining_ttl = t;
    }),
    s,
  )

  abbrev pub after_read : Text → Option (Option Stored) × State S → Option LockStatus × State S
  after_read session (none, s) = (none, s)
  after_read session (some none, s) = (none, s)
  after_read session (some (some (garbage g)), s) = (none, s)
  after_read session (some (some (lock who)), s) = status_of who (call (c.ttl (lock_key session)) s)

  unfoldable pub is_computation_locked : Text → State S → Option LockStatus × State S
  is_computation_locked session s = after_read session (call (c.get (lock_key session)) s)
