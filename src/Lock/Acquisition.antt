-- ===== src/Lock/Acquisition.antt =====
-- What an acquisition that succeeds has done, and its release.
use classwaves_backend.Prelude.{
  ℕ, zero, suc, ◌≡◌, ◌≢◌, ◌∙◌, ap, subst, Bool, true, false, Option, none, some, arith, refl, ◌==◌,
  Text, NoColon, inl, inr, Option-cases, text_eq_refl,
}
use classwaves_backend.Prelude.Dict
use classwaves_backend.Prelude.Dict.{get-set}
use classwaves_backend.Redis.{Client, Store, Stored, lock, garbage}
use classwaves_backend.Lock.{
  LockOptions, PartialOptions, LockResult, acquired, locked, not_acquired, failed, State, lock_key,
  lock_id_of, config_of, attempt_once, attempts, acquire_computation_lock, release_computation_lock,
  after_set, after_get, after_ttl, on_error,
}
use classwaves_backend.Lock.Ownership.{release_computation_lock-own}

module _ {S : Type 0} (c : Client S) (session : Text) (st : Store c (lock_key session))
    (o : LockOptions) where
  -- The lock is in the store under the holder's identifier, and noted by the service.
  pub record IsHolder (id : Text) (t : ℕ) (s : State S) : Type 0 where
    pub named : id ≡ lock_id_of session o.identifier
    pub stored : st.view s.world ≡ some (lock o.identifier)
    pub noted : Dict.get session s.active_locks ≡ some (record { lock_id = id; expires_at = t })

  -- Where the result is a lock, the caller holds it.
  abbrev Holds : Option LockResult × State S → Type 0
  Holds (none, s) = Unit
  Holds (some (acquired id t), s) = IsHolder id t s
  Holds (some (locked who t), s) = Unit
  Holds (some not_acquired, s) = Unit
  Holds (some failed, s) = Unit

  on_error-Holds : (last : Bool) (s : State S) → Holds (on_error c session o last s)
  on_error-Holds true s = tt
  on_error-Holds false s = tt

  after_ttl-Holds :
      (last : Bool) (who : Text) (t : Option ℕ) (s : State S)
      → Holds (after_ttl c session o last who (t, s))
  after_ttl-Holds last who none s = tt
  after_ttl-Holds true who (some t) s = tt
  after_ttl-Holds false who (some t) s = tt

  after_get-Holds :
      (last : Bool) (v : Option (Option Stored)) (s : State S)
      → Holds (after_get c session o last (v, s))
  after_get-Holds last none s = on_error-Holds last s
  after_get-Holds last (some none) s = tt
  after_get-Holds last (some (some (garbage g))) s = tt
  after_get-Holds last (some (some (lock who))) s = after_ttl-Holds last who _ _

  -- The store after a write that was answered by `OK`.
  stored_by_set :
      (s : S)
      → (c.set_nx (lock_key session) (lock o.identifier) o.ttl s).0 ≡ some true
      → st.view (c.set_nx (lock_key session) (lock o.identifier) o.ttl s).1
        ≡ some (lock o.identifier)
  stored_by_set s e = elim (Option-cases (st.view s)) [
    | inl free ↦ (st.set_free (lock o.identifier) o.ttl s free (λ n. cc)).1
    | inr (w, held) ↦ absurd ((st.set_held (lock o.identifier) w o.ttl s held).0 e)
  ]

  after_set-Holds :
      (last : Bool) (v : Option Bool) (s : State S)
      → (v ≡ some true → st.view s.world ≡ some (lock o.identifier))
      → Holds (after_set c session o last (v, s))
  after_set-Holds last none s h = on_error-Holds last s
  after_set-Holds last (some false) s h = after_get-Holds last _ _
  after_set-Holds last (some true) s h = record {
    named = refl;
    stored = h refl;
    noted = rw (get-set session session _ s.active_locks, text_eq_refl session);
  }

  attempts-IsHolder :
      (left : ℕ) (s : State S) (id : Text) (t : ℕ)
      → (attempts c session o left s).0 ≡ acquired id t
      → IsHolder id t (attempts c session o left s).1
  unfolding attempts attempt_once
  attempts-IsHolder zero s id t h = absurd (ground arith)
  attempts-IsHolder (suc left) s id t h =
      let once : Holds (attempt_once c session o (left == 0) s) =
        after_set-Holds (left == 0) _ _ (stored_by_set s.world) in
      elim (Option-cases (attempt_once c session o (left == 0) s).0) [
        | inl e ↦ rw (e, attempts) (attempts-IsHolder left _ id t (rw (e, attempts) at h))
        | inr (r, e) ↦
            let same : r ≡ acquired id t = rw (e, attempts) at h in
            rw (e, attempts)
              (subst (λ x. Holds (x, (attempt_once c session o (left == 0) s).1)) (e ∙ ap some same)
                once)
      ]

-- What an acquisition gives is the caller's: the lock id names the session and the identifier, the
-- store holds the identifier under the session's key, and the service has noted both the id and
-- the time at which the lock expires.
pub acquire_computation_lock-IsHolder :
    {S : Type 0} (c : Client S) (session : Text) (st : Store c (lock_key session))
    (o : PartialOptions) (generated : Text) (s : State S) (id : Text) (t : ℕ)
    → (acquire_computation_lock c session o generated s).0 ≡ acquired id t
    → IsHolder c session st
        (config_of o generated)
        id
        t
        (acquire_computation_lock c session o generated s).1
unfolding acquire_computation_lock
acquire_computation_lock-IsHolder c session st o generated s id t h =
    attempts-IsHolder c session st (config_of o generated) _ s id t h

-- Where neither the session nor the identifier has a colon, and Redis answers the two calls, the
-- release of a lock that was acquired, by its lock id, succeeds and leaves no lock in the store and
-- no note of it in the service.
pub release-acquire :
    {S : Type 0} (c : Client S) (session : Text) (st : Store c (lock_key session))
    (o : PartialOptions) (generated : Text) (s s1 : State S) (id : Text) (t : ℕ)
    → NoColon session
    → NoColon (config_of o generated).identifier
    → acquire_computation_lock c session o generated s ≡ (acquired id t, s1)
    → (c.get (lock_key session) s1.world).0 ≢ none
    → (c.del (lock_key session) (c.get (lock_key session) s1.world).1).0 ≢ none
    → ((release_computation_lock c session (some id) s1).0 ≡ true)
      × (st.view (release_computation_lock c session (some id) s1).1.world ≡ none)
      × (Dict.get session (release_computation_lock c session (some id) s1).1.active_locks ≡ none)
release-acquire c session st o generated s s1 id t p q h read removed =
    let holder : IsHolder c session st (config_of o generated) id t s1 =
      subst (IsHolder c session st (config_of o generated) id t) (ap (λ x. x.1) h)
        (acquire_computation_lock-IsHolder c session st o generated s id t (ap (λ x. x.0) h)) in
    rw (holder.named) (
      release_computation_lock-own c session st (config_of o generated).identifier s1 p q
        holder.stored read removed)
