-- ===== src/Lock/Examples.antt =====
-- The lock on a store with a still clock.
use classwaves_backend.Prelude.{
  ℕ, ◌≡◌, ◌≢◌, Bool, true, false, List, [], ◌∷◌, Option, none, some, arith, refl, Text, codes,
  text_eq_refl,
}
use classwaves_backend.Prelude.Dict
use classwaves_backend.Prelude.Dict.{Dict, get-set, get-delete}
use classwaves_backend.Redis.{Client, Store, Stored, lock}
use classwaves_backend.Lock.{
  PartialOptions, LockResult, acquired, State, lock_key, lock_id_of, config_of, second_part,
  attempt_once, attempts, acquire_computation_lock, release_computation_lock,
}
use classwaves_backend.Lock.Execution.{
  Ending, Executed, returns, run_stretches, lock_options, execute_with_lock,
}
use classwaves_backend.Lock.Ownership.{second_part-lock_id_of, release_computation_lock-other}
use classwaves_backend.Lock.Exclusion.{is_started, execute_with_lock-held}
use classwaves_backend.Lock.Acquisition.{
  IsHolder, acquire_computation_lock-IsHolder, release-acquire,
}

abbrev write_new : Text → Stored → Dict Stored → Option Stored → Option Bool × Dict Stored
write_new k v s none = (some true, Dict.set k v s)
write_new k v s (some w) = (some false, s)

abbrev count_of : Option Stored → ℕ
count_of none = 0
count_of (some w) = 1

-- A store in which nothing expires.
abbrev still : Client (Dict Stored)
still = record {
  now = λ s. 1000;
  set_nx = λ k v t s. write_new k v s (Dict.get k s);
  get = λ k s. (some (Dict.get k s), s);
  ttl = λ k s. (some 300, s);
  del = λ k s. (some (count_of (Dict.get k s)), Dict.delete k s);
  expire = λ k t s. (some (count_of (Dict.get k s)), s);
  scan = λ k s. (some [], s);
  sleep = λ ms s. s;
}

write_new-held :
    (k : Text) (v w : Stored) (s : Dict Stored)
    → Dict.get k s ≡ some w
    → ((write_new k v s (Dict.get k s)).0 ≢ some true)
      × (Dict.get k (write_new k v s (Dict.get k s)).1 ≡ some w)
write_new-held k v w s h = rw h ((λ e. ground arith), h)

abbrev store_at : (key : Text) → Store still key
store_at key = record {
  view = λ s. Dict.get key s;
  set_free = λ v t s free answered. rw free (refl, rw (get-set key key v s, text_eq_refl key));
  set_held = λ v w t s h. write_new-held key v w s h;
  get_view = λ s answered. refl;
  get_keeps = λ s. refl;
  ttl_keeps = λ s. refl;
  del_removes = λ w s h answered. rw h (refl, rw (get-delete key key s, text_eq_refl key));
}

abbrev options : PartialOptions
options = record {
  ttl = none;
  retry_delay = none;
  retry_attempts = none;
  identifier = some (codes "worker1");
}

abbrev empty : State (Dict Stored)
empty = record { active_locks = []; world = [] }

abbrev key : Text
key = lock_key (codes "lesson")

abbrev taken : State (Dict Stored)
taken = record { active_locks = []; world = (key, lock (codes "worker2")) ∷ [] }

acquired_at_once :
    (acquire_computation_lock still (codes "lesson") options [] empty).0
    ≡ acquired (codes "lesson:worker1") 301000
unfolding acquire_computation_lock attempts attempt_once lock_id_of Dict.get
acquired_at_once = refl

second_part-lock_id_of_example :
    second_part (lock_id_of (codes "lesson") (codes "worker1")) ≡ some (codes "worker1")
second_part-lock_id_of_example =
    second_part-lock_id_of (codes "lesson") (codes "worker1") (ground arith) (ground arith)

acquire_computation_lock-IsHolder_example :
    IsHolder still
      (codes "lesson")
      (store_at key)
      (config_of options [])
      (codes "lesson:worker1")
      301000
      (acquire_computation_lock still (codes "lesson") options [] empty).1
acquire_computation_lock-IsHolder_example =
    acquire_computation_lock-IsHolder still (codes "lesson") (store_at key) options [] empty
      (codes "lesson:worker1") 301000 acquired_at_once

abbrev after : State (Dict Stored)
after = (acquire_computation_lock still (codes "lesson") options [] empty).1

abbrev release_own : Bool × State (Dict Stored)
release_own = release_computation_lock still (codes "lesson") (some (codes "lesson:worker1")) after

acquired_pair :
    acquire_computation_lock still (codes "lesson") options [] empty
    ≡ (acquired (codes "lesson:worker1") 301000, after)
unfolding acquire_computation_lock attempts attempt_once lock_id_of Dict.get
acquired_pair = refl

answers {ℓ} : {A : Type ℓ} (a : A) → some a ≢ none
answers a = λ e. ground arith

release-acquire_example :
    (release_own.0 ≡ true)
    × (Dict.get key release_own.1.world ≡ none)
    × (Dict.get (codes "lesson") release_own.1.active_locks ≡ none)
release-acquire_example =
    release-acquire still (codes "lesson") (store_at key) options [] empty after
      (codes "lesson:worker1") 301000 (ground arith) (ground arith) acquired_pair (answers _)
      (answers _)

taken_held : Dict.get key taken.world ≡ some (lock (codes "worker2"))
unfolding Dict.get
taken_held = rw (text_eq_refl key)

abbrev release_taken : Bool × State (Dict Stored)
release_taken =
    release_computation_lock still (codes "lesson")
      (some (lock_id_of (codes "lesson") (codes "worker1"))) taken

release_computation_lock-other_example :
    (release_taken.0 ≡ false)
    × (Dict.get key release_taken.1.world ≡ some (lock (codes "worker2")))
    × (release_taken.1.active_locks ≡ [])
release_computation_lock-other_example =
    release_computation_lock-other still (codes "lesson") (store_at key) (codes "worker1")
      (codes "worker2") taken (ground arith) (ground arith) taken_held (λ e. ground arith)

abbrev compute : Ending ℕ Text
compute = returns 7

abbrev execute_taken : State (Dict Stored)
execute_taken =
    (execute_with_lock still (codes "lesson") options (codes "worker1") [] compute taken).1

execute_with_lock-held_example :
    (is_started
        (execute_with_lock still (codes "lesson") options (codes "worker1") [] compute taken).0
      ≡ false)
    × (Dict.get key execute_taken.world ≡ some (lock (codes "worker2")))
execute_with_lock-held_example =
    execute_with_lock-held still (codes "lesson") (store_at key) (lock (codes "worker2"))
      (λ ms s h. h) options (codes "worker1") [] compute taken taken_held

abbrev stretches : List (Dict Stored → Dict Stored)
stretches = (λ s. s) ∷ (λ s. s) ∷ []

abbrev defaulted : LockResult × State (Dict Stored)
defaulted =
    acquire_computation_lock still (codes "lesson") (lock_options options) (codes "worker1") empty

abbrev ran : State (Dict Stored)
ran = run_stretches still (codes "lesson") stretches defaulted.1

abbrev executed_once : Executed ℕ Text × State (Dict Stored)
executed_once =
    execute_with_lock still (codes "lesson") options (codes "worker1") stretches compute empty
