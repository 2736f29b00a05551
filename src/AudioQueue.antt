-- ===== src/AudioQueue.antt =====
-- src/services/queue/in-memory-audio-task-queue.ts. A task is opaque; `started` is the order in
-- which tasks are begun, `scheduled` counts the callbacks of `setImmediate` that have not run, and
-- `draining` the calls of `drain` that wait for a task.
pub mod Order
mod Examples
use classwaves_backend.Prelude.{
  ℕ, zero, suc, ◌+◌, Bool, true, false, List, [], ◌∷◌, ◌++◌, length, if◌then◌else◌,
}

pub record AudioQueue {ℓ} (T : Type ℓ) : Type ℓ where
  pub running : Bool
  pub q : List T
  pub scheduled : ℕ
  pub draining : ℕ
  pub started : List T

pub data QueueAction {ℓ} (T : Type ℓ) : Type ℓ where
  enqueued : T → QueueAction T
  callback task_over shut : QueueAction T

module _ {ℓ} {T : Type ℓ} where
  abbrev pub empty_queue : AudioQueue T
  empty_queue = record { running = false; q = []; scheduled = 0; draining = 0; started = [] }

  unfoldable pub enqueue : T → AudioQueue T → AudioQueue T
  enqueue t s =
      let s1 = record s { q = s.q ++ t ∷ [] } in
      if s.running then s1 else record s1 { running = true; scheduled = s.scheduled + 1 }

  abbrev pub size : AudioQueue T → ℕ
  size s = length s.q

  -- The test of the `while` loop of `drain`, up to the next wait or its end.
  abbrev pub take_next : List T → AudioQueue T → AudioQueue T
  take_next [] s = record s { running = false }
  take_next (t ∷ ts) s = record s {
    q = ts;
    draining = s.draining + 1;
    started = s.started ++ t ∷ [];
  }

  abbrev pub drain : AudioQueue T → AudioQueue T
  drain s = take_next s.q s

  -- `drain` begins.
  abbrev pub begin_drain : ℕ → AudioQueue T → AudioQueue T
  begin_drain zero s = s
  begin_drain (suc n) s = drain (record s { scheduled = n })

  -- A task ends, in whatever way, and its `drain` goes on.
  abbrev pub resume_drain : ℕ → AudioQueue T → AudioQueue T
  resume_drain zero s = s
  resume_drain (suc n) s = drain (record s { draining = n })

  unfoldable pub shutdown_queue : AudioQueue T → AudioQueue T
  shutdown_queue s = record s { q = []; running = false }

  unfoldable pub act : AudioQueue T → QueueAction T → AudioQueue T
  act s (enqueued t) = enqueue t s
  act s callback = begin_drain s.scheduled s
  act s task_over = resume_drain s.draining s
  act s shut = shutdown_queue s

  unfoldable pub act_all : AudioQueue T → List (QueueAction T) → AudioQueue T
  act_all s [] = s
  act_all s (a ∷ actions) = act_all (act s a) actions
