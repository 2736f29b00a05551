-- ===== src/Alerts/Batches.antt =====
-- What a batch delivers, and what it leaves behind.
use classwaves_backend.Prelude.{
  ℕ, ◌≤◌, ◌≡◌, ◌≢◌, ◌∙◌, ap, sym, Bool, true, false, not, ◌&&◌, List, [], ◌∷◌, ◌++◌, none, some,
  arith, refl, filter, Text, text_eq_refl, All, All-map, Bool-cases, List-cases, append-nil, inl,
  inr,
}
use classwaves_backend.Prelude.Dict
use classwaves_backend.Prelude.Dict.{get-set, get-delete}
use classwaves_backend.AlertScore.{Config}
use classwaves_backend.Alerts.{
  Alert, Service, Socket, works, absent, fails, regular, batch_sent, Emission, run_batch, queue_of,
  list_of, deliver_some, deliver_alert_batch, record_delivery, process_batch_delivery, is_ready,
  is_high, includes_alert, is_immediate_group, without_timer,
}
use classwaves_backend.Alerts.Calls.{fire, task_at}
use classwaves_backend.Alerts.Ranking.{IsGrouped, IsDistinct, IsSound}
use classwaves_backend.Alerts.Soundness.{
  queue_of-IsQueue, NoBatch, both_batches, process_batch_delivery-keeps, without_timer-NoBatch,
  task_at-IsScheduled, unset_timer-IsSound,
}

filter_none {ℓ} :
    {A : Type ℓ} (p : A → Bool) (xs : List A) → All (λ x. p x ≡ false) xs → filter p xs ≡ []
filter_none p [] h = refl
filter_none p (x ∷ xs) h = rw (h.0) (filter_none p xs h.1)

filter_whole {ℓ} :
    {A : Type ℓ} (p : A → Bool) (xs : List A) → All (λ x. p x ≡ true) xs → filter p xs ≡ xs
filter_whole p [] h = refl
filter_whole p (x ∷ xs) h = rw (h.0) (ap (λ l. x ∷ l) (filter_whole p xs h.1))

filter_complement {ℓ} :
    {A : Type ℓ} (p : A → Bool) (xs : List A) → filter p xs ≡ [] → filter (λ x. not (p x)) xs ≡ xs
filter_complement p [] h = refl
filter_complement p (x ∷ xs) h = elim (Bool-cases (p x)) [
  | inl kept ↦ absurd (let none' = rw kept at h in cc)
  | inr dropped ↦ rw dropped (ap (λ l. x ∷ l) (filter_complement p xs (rw dropped at h)))
]

filter_congr {ℓ} :
    {A : Type ℓ} (p q : A → Bool) (xs : List A)
    → All (λ x. p x ≡ q x) xs
    → filter p xs ≡ filter q xs
filter_congr p q [] h = refl
filter_congr p q (x ∷ xs) h = rw (h.0, filter_congr p q xs h.1)

ready_waits : (due group : Bool) → (due && not group) ≡ true → group ≡ false
ready_waits true false h = refl
ready_waits true true h = cc
ready_waits false group h = cc

over_low :
    (config : Config) (a : Alert)
    → a.priority_score ≤ config.high_priority_threshold
    → is_high config a ≡ false
over_low config a h = ground arith

module _ (config : Config) (now : ℕ) where
  -- An alert that is ready for a batch has no high priority.
  ready_low :
      (queue : List Alert)
      → All (IsGrouped config) queue
      → All (λ a. is_high config a ≡ false) (filter (is_ready now) queue)
  ready_low [] h = tt
  ready_low (a ∷ queue) h = elim (Bool-cases (is_ready now a)) [
    | inl ready ↦
        let waits : is_immediate_group a.batch_group ≡ false = ready_waits _ _ ready in
        let low = h.0 waits in rw ready (over_low config a low, ready_low queue h.1)
    | inr early ↦ rw early (ready_low queue h.1)
  ]

  -- The ready alerts are told by the test, since no alert stands twice.
  not_included :
      (p : Alert → Bool) (a : Alert) (queue : List Alert)
      → All (λ b. b.ref ≢ a.ref) queue
      → includes_alert (filter p queue) a ≡ false
  not_included p a [] h = refl
  not_included p a (b ∷ queue) h = elim (Bool-cases (p b)) [
    | inl kept ↦ rw kept (let rest = not_included p a queue h.1 in let apart = h.0 in ground arith)
    | inr dropped ↦ rw dropped (not_included p a queue h.1)
  ]

  skip_first :
      (p : Alert → Bool) (a x : Alert) (queue : List Alert)
      → x.ref ≢ a.ref
      → includes_alert (filter p (a ∷ queue)) x ≡ includes_alert (filter p queue) x
  skip_first p a x queue apart = elim (Bool-cases (p a)) [
    | inl kept ↦ rw kept (ground arith)
    | inr dropped ↦ rw dropped
  ]

  widen :
      (p : Alert → Bool) (a : Alert) (queue rest : List Alert)
      → All (λ b. b.ref ≢ a.ref) rest
      → All (λ x. includes_alert (filter p queue) x ≡ p x) rest
      → All (λ x. includes_alert (filter p (a ∷ queue)) x ≡ p x) rest
  widen p a queue [] apart h = tt
  widen p a queue (x ∷ rest) apart h =
      (skip_first p a x queue apart.0 ∙ h.0, widen p a queue rest apart.1 h.1)

  included_iff :
      (p : Alert → Bool) (queue : List Alert)
      → IsDistinct queue
      → All (λ x. includes_alert (filter p queue) x ≡ p x) queue
  included_iff p [] h = tt
  included_iff p (a ∷ queue) h = (
    elim (Bool-cases (p a)) [
      | inl kept ↦ rw kept (ground arith)
      | inr dropped ↦ rw dropped (not_included p a queue h.0)
    ],
    widen p a queue queue h.0 (included_iff p queue h.1),
  )

  -- What is taken out of a queue by identity is what the test picks.
  filter-includes :
      (p : Alert → Bool) (queue : List Alert)
      → IsDistinct queue
      → filter (λ a. not (includes_alert (filter p queue) a)) queue ≡ filter (λ a. not (p a)) queue
  filter-includes p queue h = filter_congr _ _ queue (
      All-map (λ x. includes_alert (filter p queue) x ≡ p x) _ (λ x e. ap not e) queue
        (included_iff p queue h))

  -- What the delivery of a regular batch sends: one emission if the sockets work, and there are
  -- alerts.
  abbrev pub sent : Socket → Text → List Alert → List Emission
  sent works session [] = []
  sent works session (a ∷ alerts) = batch_sent session regular (a ∷ alerts) ∷ []
  sent absent session alerts = []
  sent fails session alerts = []

  deliver_some-sent :
      (session : Text) (alerts : List Alert) (socket : Socket) (s : Service)
      → (deliver_some regular session alerts now socket s).emitted
        ≡ s.emitted ++ sent socket session alerts
  unfolding deliver_alert_batch record_delivery
  deliver_some-sent session [] works s = sym (append-nil s.emitted)
  deliver_some-sent session [] absent s = sym (append-nil s.emitted)
  deliver_some-sent session [] fails s = sym (append-nil s.emitted)
  deliver_some-sent session (a ∷ alerts) works s = refl
  deliver_some-sent session (a ∷ alerts) absent s = sym (append-nil s.emitted)
  deliver_some-sent session (a ∷ alerts) fails s = sym (append-nil s.emitted)

  sent_nothing :
      (session : Text) (socket : Socket) (mails : List Emission)
      → mails ≡ mails ++ sent socket session []
  sent_nothing session works mails = sym (append-nil mails)
  sent_nothing session absent mails = sym (append-nil mails)
  sent_nothing session fails mails = sym (append-nil mails)

  -- The batch of high priority is always empty.
  both_batches-regular :
      (session : Text) (socket : Socket) (s : Service)
      → IsSound config s
      → both_batches config session now socket s
        ≡ deliver_some regular session (filter (is_ready now) (queue_of session s)) now socket s
  both_batches-regular session socket s h =
      let ready = filter (is_ready now) (queue_of session s) in
      let low = ready_low (queue_of session s) (queue_of-IsQueue config session s h).grouped in
      let none_high = filter_none (is_high config) ready low in
      let all_low =
        filter_whole (λ a. not (is_high config a)) ready
          (All-map (λ a. is_high config a ≡ false) (λ a. not (is_high config a) ≡ true)
            (λ a e. ap not e) ready low) in
      rw (none_high, all_low)

  -- A batch sends the alerts that are due and do not go out at once, all of them in one regular
  -- batch in the order of the queue, and never an urgent one. It takes these and no others out of
  -- the queue, also where the sockets are absent or fail and nothing is sent.
  pub process_batch_delivery-sent :
      (session : Text) (socket : Socket) (s : Service)
      → IsSound config s
      → let r = process_batch_delivery config session now socket s in
        (r.emitted ≡ s.emitted ++ sent socket session (filter (is_ready now) (queue_of session s)))
        × (queue_of session r ≡ filter (λ a. not (is_ready now a)) (queue_of session s))
  unfolding process_batch_delivery
  process_batch_delivery-sent session socket s h =
      let q = queue_of session s in
      let ready = filter (is_ready now) q in
      let rest = filter-includes (is_ready now) q (queue_of-IsQueue config session s h).distinct in
      let regular_only = both_batches-regular session socket s h in
      let mail = ap (λ r. r.emitted) regular_only ∙ deliver_some-sent session ready socket s in
      elim (List-cases ready) [
        | inl e ↦
            rw (e, process_batch_delivery)
              (sent_nothing session socket s.emitted, sym (filter_complement (is_ready now) q e))
        | inr (a, others, e) ↦
            rw (e, process_batch_delivery)
              (
                mail ∙ ap (λ x. s.emitted ++ sent socket session x) e,
                ap list_of (get-set session session _ _) ∙ rw (text_eq_refl session) rest,
              )
      ]

  -- When the batch timer of a session fires, the alerts that are not due, or that go out at once,
  -- stay in the queue, and no batch timer is left for the session: those that wait for a batch are
  -- not sent unless a later alert of the session sets a timer.
  pub fire-stranded :
      (n : ℕ) (session : Text) (socket : Socket) (s : Service)
      → IsSound config s
      → task_at n s.timers ≡ some (run_batch session)
      → let r = fire config n now socket s in
        (queue_of session r ≡ filter (λ a. not (is_ready now a)) (queue_of session s))
        × (Dict.get session r.batch_scheduler ≡ none)
        × All (NoBatch config session) r.timers
  unfolding fire
  fire-stranded n session socket s (queues, old, batches) e =
      let s1 : Service = record s { timers = without_timer n s.timers } in
      let noted =
        task_at-IsScheduled config n (run_batch session) s.batch_scheduler s.timers e batches in
      let (kept, none_left) = process_batch_delivery-keeps config session now socket s1 in
      let (_, left) =
        process_batch_delivery-sent session socket s1
          (unset_timer-IsSound config n s (queues, old, batches)) in
      rw (e, fire)
        (
          left,
          get-delete session session _ ∙ rw (text_eq_refl session),
          none_left
              (without_timer-NoBatch config n session s.batch_scheduler s.timers noted batches),
        )
