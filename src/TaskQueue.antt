-- ===== src/TaskQueue.antt =====
-- template class TaskQueue<T> (include/TaskQueue.h): a queue of tasks and the thread that works on
-- them in turn. The thread's loop is cut at the points where it holds no lock or may block.
pub mod Steps
pub mod Invariant
pub mod Fifo
pub mod Progress
mod Tests
use clibdpa.Base.{
  ℕ, Bool, true, false, List, [], ◌∷◌, ◌++◌, Option, none, some, length, if◌then◌else◌,
}

-- The members that the mutex guards; the front of the queue is the head of the list.
pub record TaskQueue {ℓ} (T : Type ℓ) : Type ℓ where
  pub m_task_queue : List T
  pub m_task_pushed : Bool
  pub m_run_worker_thread : Bool

-- Where the worker stands: at the condition of the outer loop, with or without the lock; blocked in
-- the wait of the condition variable; in the processing function on a task; at the end of its
-- function; or in the error of locking a lock that it holds.
pub data Worker {ℓ} (T : Type ℓ) : Type ℓ where
  checking : Bool → Worker T
  waiting : Worker T
  processing : T → Worker T
  joined : Worker T
  locked_twice : Worker T

module _ {ℓ} {T : Type ℓ} where
  -- The constructor.
  unfoldable pub new : TaskQueue T
  new = record { m_task_queue = []; m_task_pushed = false; m_run_worker_thread = true }

  -- pushToQueue(task), with the size that it returns.
  unfoldable pub push_to_queue : TaskQueue T → T → TaskQueue T × ℕ
  push_to_queue q task =
      let tasks = q.m_task_queue ++ task ∷ [] in
      (record q { m_task_queue = tasks; m_task_pushed = true }, length tasks)

  -- stopQueue(), and the destructor before it joins the thread.
  unfoldable pub stop_queue : TaskQueue T → TaskQueue T
  stop_queue q = record q { m_run_worker_thread = false; m_task_pushed = true }

  -- size()
  unfoldable pub size : TaskQueue T → ℕ
  size q = length q.m_task_queue

  -- The body of the inner loop on a queue, with the lock held: the front is taken and the lock is
  -- given up for the processing function, or the loop breaks without the lock.
  take_task : TaskQueue T → List T → TaskQueue T × Worker T
  take_task q [] = (q, checking false)
  take_task q (task ∷ rest) = (record q { m_task_queue = rest }, processing task)

  -- The condition of the inner loop, and its body. The loop is left with the lock held.
  unfoldable pub drain : TaskQueue T → TaskQueue T × Worker T
  unfolding take_task
  drain q = if q.m_run_worker_thread then take_task q q.m_task_queue else (q, checking true)

  -- One step of worker(). `none` is a wait whose predicate does not hold, or a thread that has ended.
  unfoldable pub worker_step : TaskQueue T → Worker T → Option (TaskQueue T × Worker T)
  unfolding drain
  worker_step q (checking held) =
      if q.m_run_worker_thread
      then some (q, if held then locked_twice else waiting)
      else some (q, joined)
  worker_step q waiting =
      if q.m_task_pushed then some (drain (record q { m_task_pushed = false })) else none
  worker_step q (processing task) = some (drain q)
  worker_step q joined = none
  worker_step q locked_twice = none
