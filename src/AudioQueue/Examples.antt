-- ===== src/AudioQueue/Examples.antt =====
-- The audio queue at concrete runs.
use classwaves_backend.Prelude.{ℕ, ◌≡◌, List, [], ◌∷◌, refl}
use classwaves_backend.AudioQueue.{
  AudioQueue, QueueAction, enqueued, callback, task_over, shut, empty_queue, enqueue, act, act_all,
}
use classwaves_backend.AudioQueue.Order.{IsOrderly, act_all-IsOrderly, shutdown_queue-draining}

abbrev two_tasks : List (QueueAction ℕ)
two_tasks = enqueued 1 ∷ callback ∷ enqueued 2 ∷ task_over ∷ task_over ∷ []

act_all-IsOrderly_example : IsOrderly (1 ∷ 2 ∷ []) (act_all empty_queue two_tasks)
act_all-IsOrderly_example = act_all-IsOrderly two_tasks (refl, (refl, (refl, (refl, (refl, tt)))))

abbrev one_running : AudioQueue ℕ
one_running = act_all empty_queue (enqueued 1 ∷ callback ∷ [])

shutdown_queue-draining_example :
    (act_all one_running (shut ∷ enqueued 2 ∷ callback ∷ [])).draining ≡ 2
unfolding act_all act enqueue
shutdown_queue-draining_example = shutdown_queue-draining 2 one_running refl refl
