-- ===== src/TaskQueue/Tests.antt =====
-- Runs of a queue of numbers: two tasks are pushed before the worker waits, and it takes up the first.
use clibdpa.Base.{ℕ, ◌≡◌, refl, true, false, List, [], ◌∷◌, ◌++◌}
use clibdpa.TaskQueue.{TaskQueue, waiting, processing, new, push_to_queue, worker_step}
use clibdpa.TaskQueue.Steps.{System, Step, pushes, works, Reach, here, next, start}
use clibdpa.TaskQueue.Invariant.{Placed, Reach-Placed}
use clibdpa.TaskQueue.Fifo.{Reach-InOrder}
use clibdpa.TaskQueue.Progress.{Reach-works_off}

abbrev queue_of : List ℕ → TaskQueue ℕ
queue_of tasks = record { m_task_queue = tasks; m_task_pushed = true; m_run_worker_thread = true }

abbrev two_pushed : System ℕ
two_pushed = record {
  queue = queue_of (5 ∷ 8 ∷ []);
  worker = waiting;
  pushed = 5 ∷ 8 ∷ [];
  taken = [];
}

abbrev first_taken : System ℕ
first_taken = record {
  queue = record { m_task_queue = 8 ∷ []; m_task_pushed = false; m_run_worker_thread = true };
  worker = processing 5;
  pushed = 5 ∷ 8 ∷ [];
  taken = 5 ∷ [];
}

reach_two : Reach start two_pushed
unfolding new push_to_queue worker_step
reach_two = next (next (next here (pushes 5 refl refl)) (pushes 8 refl refl)) (works _ _ refl refl)

take_first : Step two_pushed first_taken
unfolding worker_step
take_first = works _ _ refl refl

reach_first : Reach start first_taken
reach_first = next reach_two take_first

Reach-InOrder_example : first_taken.taken ++ first_taken.queue.m_task_queue ≡ first_taken.pushed
Reach-InOrder_example = Reach-InOrder reach_first

Reach-Placed_example : Placed two_pushed.queue waiting
Reach-Placed_example = Reach-Placed reach_two

Reach-works_off_example :
    (u : System ℕ) × Reach first_taken u
    × (u.queue.m_task_queue ≡ [])
    × (u.pushed ≡ 5 ∷ 8 ∷ [])
    × (u.taken ≡ 5 ∷ 8 ∷ [])
Reach-works_off_example = Reach-works_off reach_first refl
