-- ===== src/Alerts/Soundness.antt =====
-- Every call of the alert service keeps it sound.
use classwaves_backend.Prelude.{
  ℕ, ◌+◌, ◌≤◌, ◌<◌, ◌≡◌, ◌≢◌, ◌∙◌, sym, Bool, true, false, not, List, [], ◌∷◌, Option, none, some,
  arith, refl, map, filter, ltb, ◌==◌, if◌then◌else◌, Text, text_eq, text_eq_iff, text_eq_refl, All,
  All-map, All-filter, All-append, Bool-cases, Option-cases, List-cases, inl, inr, subst,
}
use classwaves_backend.Prelude.Dict
use classwaves_backend.Prelude.Dict.{Dict, get-All, set-All, get-set, get-delete}
use classwaves_backend.AlertScore.{Config, Prompt, AlertContext, determine_batch_group}
use classwaves_backend.Alerts.{
  Alert, Service, Socket, works, absent, fails, Task, retry_alert, confirm_alert, run_batch,
  confirm_batch, BatchType, urgent, regular, queue_of, put_queue, insert_alert, is_immediate_group,
  create, set_timer, without_timer, record_delivery, retry_later, setup_delivery_confirmation,
  deliver_alert_immediately, deliver_alert_batch, deliver_some, schedule_batch_delivery,
  process_batch_delivery, queue_alert, hand_over, at_once, batch, delayed, Strategy, is_ready,
  is_high, includes_alert,
}
use classwaves_backend.Alerts.Calls.{
  Request, Response, prioritize, respond, confirm, flush_session, clean, fires, serve, serve_all,
  prioritize_alert, create_prioritized_alert, update_teacher_profile, remove_alert_from_queue,
  record_alert_response, ends_alert, confirm_alert_delivery, find_alert, clear_confirmation,
  flush_high_priority_alerts, cleanup_expired_alerts, clean_queue, is_alive, fire, perform, task_at,
}
use classwaves_backend.Alerts.Ranking.{
  IsQueue, IsGrouped, IsScheduled, IsSound, IsQueue-filter, IsQueue-nil, IsQueue-later,
  IsQueue-insert,
}

module _ (config : Config) where
  -- A timer that is not of a batch may be set at any time.
  set_timer-IsSound :
      (task : Task) (s : Service)
      → IsScheduled config s.batch_scheduler (s.next_timer, task)
      → IsSound config s
      → IsSound config (set_timer task s)
  set_timer-IsSound task s fits (queues, old, batches) = (
    queues,
    All-append (λ t. t.0 < s.next_timer + 1) s.timers _
        (All-map (λ t. t.0 < s.next_timer) (λ t. t.0 < s.next_timer + 1) (λ t h. omega (arith, h))
          s.timers old)
        (omega arith, tt),
    All-append (IsScheduled config s.batch_scheduler) s.timers _ batches (fits, tt),
  )

  deliver_alert_immediately-IsSound :
      (a : Alert) (now : ℕ) (socket : Socket) (s : Service)
      → IsSound config s
      → IsSound config (deliver_alert_immediately a now socket s)
  unfolding deliver_alert_immediately setup_delivery_confirmation record_delivery retry_later
  deliver_alert_immediately-IsSound a now works s h = set_timer-IsSound (confirm_alert a) s tt h
  deliver_alert_immediately-IsSound a now absent s h = h
  deliver_alert_immediately-IsSound a now fails s h =
      elim (Bool-cases (ltb (s.current_retries a.ref + 1) a.max_retries)) [
        | inl again ↦ rw again (set_timer-IsSound (retry_alert a) s tt h)
        | inr over ↦ rw over h
      ]

  pub queue_of-IsQueue :
      (session : Text) (s : Service)
      → IsSound config s
      → IsQueue config s.next_ref (queue_of session s)
  queue_of-IsQueue session s (queues, old, batches) =
      elim (Option-cases (Dict.get session s.alert_queues)) [
        | inl e ↦ rw e (IsQueue-nil config s.next_ref)
        | inr (q, e) ↦ rw e (get-All (IsQueue config s.next_ref) session q s.alert_queues queues e)
      ]

  put_queue-IsSound :
      (session : Text) (queue : List Alert) (s : Service)
      → IsQueue config s.next_ref queue
      → IsSound config s
      → IsSound config (put_queue session queue s)
  put_queue-IsSound session queue s q (queues, old, batches) =
      (set-All (IsQueue config s.next_ref) session queue s.alert_queues q queues, old, batches)

  IsScheduled-set :
      (session : Text) (n : ℕ) (scheduler : Dict ℕ) (t : ℕ × Task)
      → Dict.get session scheduler ≡ none
      → IsScheduled config scheduler t
      → IsScheduled config (Dict.set session n scheduler) t
  IsScheduled-set session n scheduler (m, retry_alert a) free h = tt
  IsScheduled-set session n scheduler (m, confirm_alert a) free h = tt
  IsScheduled-set session n scheduler (m, confirm_batch) free h = tt
  IsScheduled-set session n scheduler (m, run_batch other) free h =
      elim (Bool-cases (text_eq session other)) [
        | inl same ↦ absurd (let taken = rw (← (text_eq_iff session other).0 same) at h in cc)
        | inr differs ↦ get-set session other n scheduler ∙ rw differs h
      ]

  schedule_batch_delivery-IsSound :
      (session : Text) (s : Service)
      → IsSound config s
      → IsSound config (schedule_batch_delivery session s)
  unfolding schedule_batch_delivery
  schedule_batch_delivery-IsSound session s (queues, old, batches) =
      elim (Option-cases (Dict.get session s.batch_scheduler)) [
        | inr (n, e) ↦ rw (e, schedule_batch_delivery) (queues, old, batches)
        | inl e ↦
            rw (e, schedule_batch_delivery)
              (set_timer-IsSound (run_batch session)
                (record s { batch_scheduler = Dict.set session s.next_timer s.batch_scheduler })
                (get-set session session s.next_timer s.batch_scheduler ∙ rw (text_eq_refl session))
                (
                  queues,
                  old,
                  All-map (IsScheduled config s.batch_scheduler)
                      (IsScheduled config (Dict.set session s.next_timer s.batch_scheduler))
                      (λ t h. IsScheduled-set session s.next_timer s.batch_scheduler t e h) s.timers
                      batches,
                ))
      ]

  hand_over-IsSound :
      (strategy : Strategy) (a : Alert) (now : ℕ) (socket : Socket) (s : Service)
      → IsSound config s
      → IsSound config (hand_over strategy a now socket s)
  hand_over-IsSound at_once a now socket s h = deliver_alert_immediately-IsSound a now socket s h
  hand_over-IsSound batch a now socket s h = schedule_batch_delivery-IsSound a.prompt.session_id s h
  hand_over-IsSound delayed a now socket s h =
      schedule_batch_delivery-IsSound a.prompt.session_id s h

  determine_batch_group-IsGrouped :
      (score : ℕ) (p : Prompt)
      → is_immediate_group (determine_batch_group config score p) ≡ false
      → score ≤ config.high_priority_threshold
  unfolding determine_batch_group
  determine_batch_group-IsGrouped score p h = ground arith

  -- A new alert has the next number.
  numbered_next :
      (a : Alert) (s : Service)
      → a.ref ≡ s.next_ref
      → IsGrouped config a
      → IsSound config s
      → IsSound config (
          put_queue a.prompt.session_id
            (insert_alert a (queue_of a.prompt.session_id s))
            (record s { next_ref = s.next_ref + 1 }))
  numbered_next a s e g (queues, old, batches) = (
    set-All (IsQueue config (s.next_ref + 1)) a.prompt.session_id _ s.alert_queues
        (IsQueue-insert config s.next_ref a _ e g
          (queue_of-IsQueue a.prompt.session_id s (queues, old, batches)))
        (All-map (λ (q : Text × List Alert). IsQueue config s.next_ref q.1)
          (λ q. IsQueue config (s.next_ref + 1) q.1) (λ q h. IsQueue-later config s.next_ref q.1 h)
          s.alert_queues queues),
    old,
    batches,
  )

  prioritize_alert-IsSound :
      (id : Text) (p : Prompt) (c : AlertContext) (now : ℕ) (socket : Socket) (s : Service)
      → IsSound config s
      → IsSound config (prioritize_alert config id p c now socket s).1
  unfolding prioritize_alert create_prioritized_alert queue_alert
  prioritize_alert-IsSound id p c now socket s h =
      hand_over-IsSound _ _ now socket _
        (numbered_next _ s refl (determine_batch_group-IsGrouped _ p) h)

  -- The timer is not of a batch of the session.
  abbrev pub NoBatch : Text → ℕ × Task → Type 0
  NoBatch session (n, retry_alert a) = Unit
  NoBatch session (n, confirm_alert a) = Unit
  NoBatch session (n, run_batch other) = session ≢ other
  NoBatch session (n, confirm_batch) = Unit

  -- What a batch that may be empty leaves alone.
  record Delivered (session : Text) (s r : Service) : Type 0 where
    sound : IsSound config s → IsSound config r
    queues : r.alert_queues ≡ s.alert_queues
    next : r.next_ref ≡ s.next_ref
    scheduler : r.batch_scheduler ≡ s.batch_scheduler
    timers : All (NoBatch session) s.timers → All (NoBatch session) r.timers

  deliver_alert_batch-Delivered :
      (type : BatchType) (session : Text) (alerts : List Alert) (now : ℕ) (socket : Socket)
      (s : Service)
      → Delivered session s (deliver_alert_batch type session alerts now socket s)
  unfolding deliver_alert_batch record_delivery
  deliver_alert_batch-Delivered urgent session alerts now works s = record {
    sound = set_timer-IsSound confirm_batch s tt;
    queues = refl;
    next = refl;
    scheduler = refl;
    timers = λ h. All-append (NoBatch session) s.timers _ h (tt, tt);
  }
  deliver_alert_batch-Delivered regular session alerts now works s = record {
    sound = λ h. h;
    queues = refl;
    next = refl;
    scheduler = refl;
    timers = λ h. h;
  }
  deliver_alert_batch-Delivered type session alerts now absent s = record {
    sound = λ h. h;
    queues = refl;
    next = refl;
    scheduler = refl;
    timers = λ h. h;
  }
  deliver_alert_batch-Delivered type session alerts now fails s = record {
    sound = λ h. h;
    queues = refl;
    next = refl;
    scheduler = refl;
    timers = λ h. h;
  }

  deliver_some-Delivered :
      (type : BatchType) (session : Text) (alerts : List Alert) (now : ℕ) (socket : Socket)
      (s : Service)
      → Delivered session s (deliver_some type session alerts now socket s)
  deliver_some-Delivered type session [] now socket s = record {
    sound = λ h. h;
    queues = refl;
    next = refl;
    scheduler = refl;
    timers = λ h. h;
  }
  deliver_some-Delivered type session (a ∷ alerts) now socket s =
      deliver_alert_batch-Delivered type session (a ∷ alerts) now socket s

  Delivered-trans :
      (session : Text) (s r u : Service)
      → Delivered session s r
      → Delivered session r u
      → Delivered session s u
  Delivered-trans session s r u d e = record {
    sound = λ h. e.sound (d.sound h);
    queues = e.queues ∙ d.queues;
    next = e.next ∙ d.next;
    scheduler = e.scheduler ∙ d.scheduler;
    timers = λ h. e.timers (d.timers h);
  }

  -- The alerts that are left once a delivery has been made.
  put_filtered-IsSound :
      (session : Text) (p : Alert → Bool) (s r : Service)
      → Delivered session s r
      → IsSound config s
      → IsSound config (put_queue session (filter p (queue_of session s)) r)
  put_filtered-IsSound session p s r d h =
      put_queue-IsSound session _ r
        (subst (λ n. IsQueue config n (filter p (queue_of session s))) (sym d.next)
          (IsQueue-filter config s.next_ref p _ (queue_of-IsQueue session s h)))
        (d.sound h)

  -- Both batches of a session.
  abbrev pub both_batches : Text → ℕ → Socket → Service → Service
  both_batches session now socket s =
      let ready = filter (is_ready now) (queue_of session s) in
      deliver_some regular session (filter (λ a. not (is_high config a)) ready) now socket
        (deliver_some urgent session (filter (is_high config) ready) now socket s)

  both_batches-Delivered :
      (session : Text) (now : ℕ) (socket : Socket) (s : Service)
      → Delivered session s (both_batches session now socket s)
  both_batches-Delivered session now socket s =
      Delivered-trans session s _ _ (deliver_some-Delivered urgent session _ now socket s)
        (deliver_some-Delivered regular session _ now socket _)

  process_batch_delivery-IsSound :
      (session : Text) (now : ℕ) (socket : Socket) (s : Service)
      → IsSound config s
      → IsSound config (process_batch_delivery config session now socket s)
  unfolding process_batch_delivery
  process_batch_delivery-IsSound session now socket s h =
      let done =
        put_filtered-IsSound session
          (λ a. not (includes_alert (filter (is_ready now) (queue_of session s)) a)) s
          (both_batches session now socket s) (both_batches-Delivered session now socket s) h in
      elim (List-cases (filter (is_ready now) (queue_of session s))) [
        | inl e ↦ rw (e, process_batch_delivery) h
        | inr (a, rest, e) ↦ rw (e, process_batch_delivery) done
      ]

  pub process_batch_delivery-keeps :
      (session : Text) (now : ℕ) (socket : Socket) (s : Service)
      → ((process_batch_delivery config session now socket s).batch_scheduler ≡ s.batch_scheduler)
        × (All (NoBatch session) s.timers
            → All (NoBatch session) (process_batch_delivery config session now socket s).timers)
  unfolding process_batch_delivery
  process_batch_delivery-keeps session now socket s =
      let d = both_batches-Delivered session now socket s in
      elim (List-cases (filter (is_ready now) (queue_of session s))) [
        | inl e ↦ rw (e, process_batch_delivery) (refl, λ h. h)
        | inr (a, rest, e) ↦ rw (e, process_batch_delivery) (d.scheduler, d.timers)
      ]

  IsScheduled-delete :
      (session : Text) (scheduler : Dict ℕ) (t : ℕ × Task)
      → NoBatch session t
      → IsScheduled config scheduler t
      → IsScheduled config (Dict.delete session scheduler) t
  IsScheduled-delete session scheduler (m, retry_alert a) differs h = tt
  IsScheduled-delete session scheduler (m, confirm_alert a) differs h = tt
  IsScheduled-delete session scheduler (m, confirm_batch) differs h = tt
  IsScheduled-delete session scheduler (m, run_batch other) differs h =
      elim (Bool-cases (text_eq session other)) [
        | inl same ↦ absurd (differs ((text_eq_iff session other).0 same))
        | inr apart ↦ get-delete session other scheduler ∙ rw apart h
      ]

  All-IsScheduled-delete :
      (session : Text) (scheduler : Dict ℕ) (timers : List (ℕ × Task))
      → All (NoBatch session) timers
      → All (IsScheduled config scheduler) timers
      → All (IsScheduled config (Dict.delete session scheduler)) timers
  All-IsScheduled-delete session scheduler [] n h = tt
  All-IsScheduled-delete session scheduler (t ∷ timers) n h = (
    IsScheduled-delete session scheduler t n.0 h.0,
    All-IsScheduled-delete session scheduler timers n.1 h.1,
  )

  other_batch :
      (m n : ℕ) (session : Text) (scheduler : Dict ℕ) (t : Task)
      → Dict.get session scheduler ≡ some n
      → (m == n) ≡ false
      → IsScheduled config scheduler (m, t)
      → NoBatch session (m, t)
  other_batch m n session scheduler (retry_alert a) e other h = tt
  other_batch m n session scheduler (confirm_alert a) e other h = tt
  other_batch m n session scheduler confirm_batch e other h = tt
  other_batch m n session scheduler (run_batch session2) e other h = λ same.
      let noted : Dict.get session2 scheduler ≡ some n = rw same at e in
      let same_number : ◌≡◌ {A = Option ℕ} (some m) (some n) = sym h ∙ noted in ground arith

  -- The timer that fires is the only one of a batch of its session.
  pub without_timer-NoBatch :
      (n : ℕ) (session : Text) (scheduler : Dict ℕ) (timers : List (ℕ × Task))
      → Dict.get session scheduler ≡ some n
      → All (IsScheduled config scheduler) timers
      → All (NoBatch session) (without_timer n timers)
  without_timer-NoBatch n session scheduler [] e h = tt
  without_timer-NoBatch n session scheduler ((m, t) ∷ timers) e h = elim (Bool-cases (m == n)) [
    | inl same ↦ rw same (without_timer-NoBatch n session scheduler timers e h.1)
    | inr other ↦ rw other (
      other_batch m n session scheduler t e other h.0,
      without_timer-NoBatch n session scheduler timers e h.1,
    )
  ]

  pub task_at-IsScheduled :
      (n : ℕ) (t : Task) (scheduler : Dict ℕ) (timers : List (ℕ × Task))
      → task_at n timers ≡ some t
      → All (IsScheduled config scheduler) timers
      → IsScheduled config scheduler (n, t)
  task_at-IsScheduled n t scheduler [] e h = cc
  task_at-IsScheduled n t scheduler ((m, u) ∷ timers) e h = elim (Bool-cases (m == n)) [
    | inl same ↦
        let first : u ≡ t = ground arith in
        subst (λ (x : ℕ × Task). IsScheduled config scheduler x) (ap2 m n u t (ground arith) first)
          h.0
    | inr other ↦ task_at-IsScheduled n t scheduler timers (rw other at e) h.1
  ]
    where
      ap2 : (m n : ℕ) (u t : Task) → m ≡ n → u ≡ t → ◌≡◌ {A = ℕ × Task} (m, u) (n, t)
      ap2 m n u t p q i = (p i, q i)

  without_timer-All :
      (P : ℕ × Task → Type 0) (n : ℕ) (timers : List (ℕ × Task))
      → All P timers
      → All P (without_timer n timers)
  without_timer-All P n timers h = All-filter P (λ t. not (t.0 == n)) timers h

  pub unset_timer-IsSound :
      (n : ℕ) (s : Service)
      → IsSound config s
      → IsSound config (record s { timers = without_timer n s.timers })
  unset_timer-IsSound n s (queues, old, batches) = (
    queues,
    without_timer-All (λ t. t.0 < s.next_timer) n s.timers old,
    without_timer-All (IsScheduled config s.batch_scheduler) n s.timers batches,
  )

  perform-IsSound :
      (n : ℕ) (t : Task) (now : ℕ) (socket : Socket) (s : Service)
      → task_at n s.timers ≡ some t
      → IsSound config s
      → IsSound config
          (perform config t now socket (record s { timers = without_timer n s.timers }))
  perform-IsSound n (retry_alert a) now socket s e h =
      deliver_alert_immediately-IsSound a now socket _ (unset_timer-IsSound n s h)
  perform-IsSound n (confirm_alert a) now socket s e h =
      elim (Bool-cases (ltb (s.current_retries a.ref) a.max_retries)) [
        | inl again ↦
            rw again (deliver_alert_immediately-IsSound a now socket _ (unset_timer-IsSound n s h))
        | inr over ↦ rw over (unset_timer-IsSound n s h)
      ]
  perform-IsSound n confirm_batch now socket s e h = unset_timer-IsSound n s h
  perform-IsSound n (run_batch session) now socket s e (queues, old, batches) =
      let s1 : Service = record s { timers = without_timer n s.timers } in
      let (kept, none_left) = process_batch_delivery-keeps session now socket s1 in
      let (queues', old', batches') =
        process_batch_delivery-IsSound session now socket s1
          (unset_timer-IsSound n s (queues, old, batches)) in
      let noted = task_at-IsScheduled n (run_batch session) s.batch_scheduler s.timers e batches in
      (
        queues',
        old',
        All-IsScheduled-delete session _ _
            (none_left (without_timer-NoBatch n session s.batch_scheduler s.timers noted batches))
            batches',
      )

  fire-IsSound :
      (n now : ℕ) (socket : Socket) (s : Service)
      → IsSound config s
      → IsSound config (fire config n now socket s)
  unfolding fire
  fire-IsSound n now socket s h = elim (Option-cases (task_at n s.timers)) [
    | inl e ↦ rw (e, fire) h
    | inr (t, e) ↦ rw (e, fire) (perform-IsSound n t now socket s e h)
  ]

  flush_high_priority_alerts-IsSound :
      (session : Text) (now : ℕ) (socket : Socket) (s : Service)
      → IsSound config s
      → IsSound config (flush_high_priority_alerts config session now socket s).1
  unfolding flush_high_priority_alerts
  flush_high_priority_alerts-IsSound session now socket s h =
      let high = filter (is_high config) (queue_of session s) in
      let done =
        put_filtered-IsSound session (λ a. not (includes_alert high a)) s _
          (deliver_alert_batch-Delivered urgent session high now socket s) h in
      elim (List-cases high) [
        | inl e ↦ rw (e, flush_high_priority_alerts) h
        | inr (a, rest, e) ↦ rw (e, flush_high_priority_alerts) done
      ]

  remove_alert_from_queue-IsSound :
      (session id : Text) (s : Service)
      → IsSound config s
      → IsSound config (remove_alert_from_queue session id s)
  unfolding remove_alert_from_queue
  remove_alert_from_queue-IsSound session id s (queues, old, batches) =
      elim (Option-cases (Dict.get session s.alert_queues)) [
        | inl e ↦ rw (e, remove_alert_from_queue) (queues, old, batches)
        | inr (q, e) ↦
            rw (e, remove_alert_from_queue)
              (put_queue-IsSound session _ s
                (IsQueue-filter config s.next_ref (λ a. not (text_eq a.id id)) q
                  (get-All (IsQueue config s.next_ref) session q s.alert_queues queues e))
                (queues, old, batches))
      ]

  learned-IsSound :
      (on : Bool) (teacher : Text) (r : Response) (now : ℕ) (s : Service)
      → IsSound config s
      → IsSound config (if on then update_teacher_profile teacher r now s else s)
  unfolding update_teacher_profile
  learned-IsSound true teacher r now s h = h
  learned-IsSound false teacher r now s h = h

  record_alert_response-IsSound :
      (id session teacher : Text) (r : Response) (now : ℕ) (s : Service)
      → IsSound config s
      → IsSound config (record_alert_response config id session teacher r now s)
  unfolding record_alert_response
  record_alert_response-IsSound id session teacher r now s h =
      let learned = learned-IsSound config.learning_enabled teacher r now s h in
      elim (Bool-cases (ends_alert r)) [
        | inl ends ↦ rw ends (remove_alert_from_queue-IsSound session id _ learned)
        | inr stays ↦ rw stays learned
      ]

  clear_confirmation-IsSound :
      (a : Alert) (n : Option ℕ) (s : Service)
      → IsSound config s
      → IsSound config (clear_confirmation a n s)
  clear_confirmation-IsSound a none s h = h
  clear_confirmation-IsSound a (some n) s h = unset_timer-IsSound n s h

  confirm_alert_delivery-IsSound :
      (id session : Text) (s : Service)
      → IsSound config s
      → IsSound config (confirm_alert_delivery id session s)
  unfolding confirm_alert_delivery
  confirm_alert_delivery-IsSound id session s h =
      elim (Option-cases (find_alert id (queue_of session s))) [
        | inl e ↦ rw (e, confirm_alert_delivery) h
        | inr (a, e) ↦ rw (e, confirm_alert_delivery) (clear_confirmation-IsSound a _ s h)
      ]

  cleanup_expired_alerts-IsSound :
      (now : ℕ) (s : Service)
      → IsSound config s
      → IsSound config (cleanup_expired_alerts config now s)
  unfolding cleanup_expired_alerts
  cleanup_expired_alerts-IsSound now s (queues, old, batches) =
      (cleaned s.alert_queues queues, old, batches)
    where
      cleaned :
          (m : Dict (List Alert))
          → All (λ e. IsQueue config s.next_ref e.1) m
          → All (λ e. IsQueue config s.next_ref e.1) (map (clean_queue config now) m)
      cleaned [] h = tt
      cleaned ((k, q) ∷ m) h =
          (IsQueue-filter config s.next_ref (is_alive config now) q h.0, cleaned m h.1)

  serve-IsSound :
      (r : Request) (now : ℕ) (socket : Socket) (s : Service)
      → IsSound config s
      → IsSound config (serve config r now socket s)
  unfolding serve
  serve-IsSound (prioritize id p c) now socket s h = prioritize_alert-IsSound id p c now socket s h
  serve-IsSound (respond id session teacher r) now socket s h =
      record_alert_response-IsSound id session teacher r now s h
  serve-IsSound (confirm id session) now socket s h = confirm_alert_delivery-IsSound id session s h
  serve-IsSound (flush_session session) now socket s h =
      flush_high_priority_alerts-IsSound session now socket s h
  serve-IsSound clean now socket s h = cleanup_expired_alerts-IsSound now s h
  serve-IsSound (fires n) now socket s h = fire-IsSound n now socket s h

  serve_all-from :
      (rs : List (Request × ℕ × Socket)) (s : Service)
      → IsSound config s
      → IsSound config (serve_all config rs s)
  unfolding serve_all
  serve_all-from [] s h = h
  serve_all-from ((r, now, socket) ∷ rs) s h = serve_all-from rs _ (serve-IsSound r now socket s h)

  -- After any calls and timers, in any order and whether the sockets work or not, every queue of a
  -- new service is in order, by falling score and by arrival among equal scores; an alert that waits
  -- for a batch has no high priority; and a session has at most the batch timer that is noted for it.
  pub serve_all-IsSound :
      (rs : List (Request × ℕ × Socket)) → IsSound config (serve_all config rs create)
  serve_all-IsSound rs = serve_all-from rs create (tt, tt, tt)
