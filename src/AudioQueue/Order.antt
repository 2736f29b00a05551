-- ===== src/AudioQueue/Order.antt =====
-- The order of the tasks, and how many run at a time.
use classwaves_backend.Prelude.{
  ℕ, zero, suc, ◌+◌, ◌<◌, ◌≡◌, ◌∙◌, ap, sym, Bool, true, false, List, [], ◌∷◌, ◌++◌, All, arith,
  refl, length, if◌then◌else◌, append_assoc, append-nil, Bool-cases, inl, inr,
}
use classwaves_backend.AudioQueue.{
  AudioQueue, QueueAction, enqueued, callback, task_over, shut, empty_queue, enqueue, take_next,
  begin_drain, resume_drain, shutdown_queue, act, act_all,
}

module _ {ℓ} {T : Type ℓ} where
  abbrev pub is_shut : QueueAction T → Bool
  is_shut shut = true
  is_shut _ = false

  -- The tasks that are enqueued, in order.
  abbrev pub tasks_of : List (QueueAction T) → List T
  tasks_of [] = []
  tasks_of (enqueued t ∷ actions) = t ∷ tasks_of actions
  tasks_of (_ ∷ actions) = tasks_of actions

  -- One drain is at work or about to be, exactly while the queue is marked as running; a task that
  -- waits has a drain that will take it; and the tasks that began and those that wait are `all`.
  pub record IsOrderly (all : List T) (s : AudioQueue T) : Type ℓ where
    pub one : s.scheduled + s.draining ≡ (if s.running then 1 else 0)
    pub awake : 0 < length s.q → s.running ≡ true
    pub order : s.started ++ s.q ≡ all

  enqueue-IsOrderly :
      (all : List T) (t : T) (s : AudioQueue T)
      → IsOrderly all s
      → IsOrderly (all ++ t ∷ []) (enqueue t s)
  unfolding enqueue
  enqueue-IsOrderly all t s o =
      let longer : s.started ++ (s.q ++ t ∷ []) ≡ all ++ t ∷ [] =
        sym (append_assoc s.started s.q (t ∷ [])) ∙ ap (λ x. x ++ t ∷ []) o.order in
      elim (Bool-cases s.running) [
        | inl on ↦ rw on (record { one = rw on at o.one; awake = λ h. refl; order = longer })
        | inr off ↦ rw off (record {
          one = let none' = rw off at o.one in omega (arith, none');
          awake = λ h. refl;
          order = longer;
        })
      ]

  take_next-IsOrderly :
      (all q : List T) (s : AudioQueue T)
      → s.running ≡ true
      → s.scheduled + s.draining ≡ 0
      → s.started ++ q ≡ all
      → s.q ≡ q
      → IsOrderly all (take_next q s)
  take_next-IsOrderly all [] s on none' order same = record {
    one = none';
    awake = λ h. absurd (let h' = rw same at h in omega (arith, h'));
    order = rw same order;
  }
  take_next-IsOrderly all (t ∷ ts) s on none' order same = record {
    one = rw on (omega (arith, none'));
    awake = λ h. on;
    order = append_assoc s.started (t ∷ []) ts ∙ order;
  }

  begin_drain-IsOrderly :
      (all : List T) (n : ℕ) (s : AudioQueue T)
      → s.scheduled ≡ n
      → IsOrderly all s
      → IsOrderly all (begin_drain n s)
  begin_drain-IsOrderly all zero s e o = o
  begin_drain-IsOrderly all (suc n) s e o = elim (Bool-cases s.running) [
    | inl on ↦
        let one = rw on at o.one in
        take_next-IsOrderly all s.q (record s { scheduled = n }) on (omega (arith, one, e)) o.order
          refl
    | inr off ↦ absurd (let none' = rw off at o.one in omega (arith, none', e))
  ]

  resume_drain-IsOrderly :
      (all : List T) (n : ℕ) (s : AudioQueue T)
      → s.draining ≡ n
      → IsOrderly all s
      → IsOrderly all (resume_drain n s)
  resume_drain-IsOrderly all zero s e o = o
  resume_drain-IsOrderly all (suc n) s e o = elim (Bool-cases s.running) [
    | inl on ↦
        let one = rw on at o.one in
        take_next-IsOrderly all s.q (record s { draining = n }) on (omega (arith, one, e)) o.order
          refl
    | inr off ↦ absurd (let none' = rw off at o.one in omega (arith, none', e))
  ]

  act_all-from :
      (actions : List (QueueAction T)) (before : List T) (s : AudioQueue T)
      → All (λ a. is_shut a ≡ false) actions
      → IsOrderly before s
      → IsOrderly (before ++ tasks_of actions) (act_all s actions)
  unfolding act_all act
  act_all-from [] before s h o = rw append-nil o
  act_all-from (enqueued t ∷ actions) before s h o =
      rw (sym (append_assoc before (t ∷ []) (tasks_of actions)))
        (act_all-from actions (before ++ t ∷ []) (enqueue t s) h.1 (enqueue-IsOrderly before t s o))
  act_all-from (callback ∷ actions) before s h o =
      act_all-from actions before (begin_drain s.scheduled s) h.1
        (begin_drain-IsOrderly before s.scheduled s refl o)
  act_all-from (task_over ∷ actions) before s h o =
      act_all-from actions before (resume_drain s.draining s) h.1
        (resume_drain-IsOrderly before s.draining s refl o)
  act_all-from (shut ∷ actions) before s h o = absurd (ground arith)

  -- Until it is shut down, and in whatever order tasks are enqueued, callbacks run and tasks end, a
  -- new queue has at most one drain, scheduled or at work, and has one while it is marked as
  -- running, which it is while a task waits; and the tasks that began, followed by those that wait,
  -- are exactly the enqueued ones in their order.
  pub act_all-IsOrderly :
      (actions : List (QueueAction T))
      → All (λ a. is_shut a ≡ false) actions
      → IsOrderly (tasks_of actions) (act_all empty_queue actions)
  act_all-IsOrderly actions h =
      act_all-from actions [] empty_queue h
        (record { one = refl; awake = λ waits. absurd (omega (arith, waits)); order = refl })

-- A queue that is shut down while a task is under way, and then given a task, has two drains at
-- work: the tasks of two drains run at the same time.
pub shutdown_queue-draining {ℓ} :
    {T : Type ℓ} (t : T) (s : AudioQueue T)
    → s.draining ≡ 1
    → s.scheduled ≡ 0
    → (act_all s (shut ∷ enqueued t ∷ callback ∷ [])).draining ≡ 2
unfolding act_all act enqueue shutdown_queue
shutdown_queue-draining t s busy idle = rw (idle, busy)
