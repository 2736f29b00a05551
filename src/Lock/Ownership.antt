-- ===== src/Lock/Ownership.antt =====
-- Whose lock a release removes.
use classwaves_backend.Prelude.{
  ◌≡◌, ◌≢◌, ◌∙◌, ap, true, false, [], ◌∷◌, none, some, arith, refl, Text, text_eq, text_eq_iff,
  text_eq_refl, NoColon, Bool-cases, inl, inr, Option-cases,
}
use classwaves_backend.Prelude.Dict
use classwaves_backend.Prelude.Dict.{get-delete}
use classwaves_backend.Redis.{Client, Store, lock}
use classwaves_backend.Lock.{
  State, call, after_check, lock_key, lock_id_of, second_part, up_to_colon,
  release_computation_lock,
}

up_to_colon_lem : (s : Text) → NoColon s → up_to_colon s ≡ s
unfolding up_to_colon
up_to_colon_lem [] h = refl
up_to_colon_lem (c ∷ s) h = ground (arith, up_to_colon_lem s h.1)

-- The identifier is read back from a lock id, where neither it nor the session has a colon.
pub second_part-lock_id_of :
    (session identifier : Text)
    → NoColon session
    → NoColon identifier
    → second_part (lock_id_of session identifier) ≡ some identifier
unfolding second_part lock_id_of
second_part-lock_id_of [] identifier p q = ap some (up_to_colon_lem identifier q)
second_part-lock_id_of (c ∷ s) identifier p q =
    ground (arith, second_part-lock_id_of s identifier p.1 q)

-- A lock id is not empty, so that the owner is checked.
release-check :
    {S : Type 0} (c : Client S) (session identifier : Text) (s : State S)
    → release_computation_lock c session (some (lock_id_of session identifier)) s
      ≡ after_check c session (lock_id_of session identifier) (call (c.get (lock_key session)) s)
unfolding release_computation_lock lock_id_of
release-check c [] identifier s = refl
release-check c (x ∷ session) identifier s = refl

text_eq-differs : (s t : Text) → s ≢ t → text_eq s t ≡ false
text_eq-differs s t h = elim (Bool-cases (text_eq s t)) [
  | inl same ↦ absurd (h ((text_eq_iff s t).0 same))
  | inr e ↦ e
]

module _ {S : Type 0} (c : Client S) (session : Text) (st : Store c (lock_key session)) where
  -- Where neither the session nor the identifier has a colon, releasing with the identifier of
  -- another holder is refused, and changes neither the lock nor the service's own map.
  pub release_computation_lock-other :
      (identifier who : Text) (s : State S)
      → NoColon session
      → NoColon identifier
      → st.view s.world ≡ some (lock who)
      → who ≢ identifier
      → ((release_computation_lock c session (some (lock_id_of session identifier)) s).0 ≡ false)
        × (st.view
              (release_computation_lock c session (some (lock_id_of session identifier)) s).1.world
            ≡ some (lock who))
        × ((release_computation_lock c session
              (some (lock_id_of session identifier))
              s).1.active_locks
            ≡ s.active_locks)
  release_computation_lock-other identifier who s p q held other =
      let part = second_part-lock_id_of session identifier p q in
      let kept = st.get_keeps s.world ∙ held in
      let differs : text_eq who identifier ≡ false = text_eq-differs who identifier other in
      rw (release-check c session identifier s)
        (elim (Option-cases (c.get (lock_key session) s.world).0) [
          | inl e ↦ rw e (refl, kept, refl)
          | inr (v, e) ↦
              let e' : (c.get (lock_key session) s.world).0 ≡ some (some (lock who)) =
                rw held at (st.get_view s.world (λ n. cc)) in
              rw (e', part, differs) (refl, kept, refl)
        ])

  -- Where neither the session nor the identifier has a colon, and Redis answers both calls,
  -- releasing with the holder's own identifier removes the lock, and the service's note of it.
  pub release_computation_lock-own :
      (identifier : Text) (s : State S)
      → NoColon session
      → NoColon identifier
      → st.view s.world ≡ some (lock identifier)
      → (c.get (lock_key session) s.world).0 ≢ none
      → (c.del (lock_key session) (c.get (lock_key session) s.world).1).0 ≢ none
      → ((release_computation_lock c session (some (lock_id_of session identifier)) s).0 ≡ true)
        × (st.view
              (release_computation_lock c session (some (lock_id_of session identifier)) s).1.world
            ≡ none)
        × (Dict.get session
              (release_computation_lock c session
                (some (lock_id_of session identifier))
                s).1.active_locks
            ≡ none)
  release_computation_lock-own identifier s p q held read removed =
      let part = second_part-lock_id_of session identifier p q in
      let w = (c.get (lock_key session) s.world).1 in
      let kept = st.get_keeps s.world ∙ held in
      let (one, gone) = st.del_removes (lock identifier) w kept removed in
      let e : (c.get (lock_key session) s.world).0 ≡ some (some (lock identifier)) =
        rw held at (st.get_view s.world read) in
      rw (release-check c session identifier s, e, part, text_eq_refl identifier, one)
        (refl, gone, rw (get-delete session session s.active_locks, text_eq_refl session))
